-- ===== src/Types.antt =====
-- types/types.go and types/jack.go: the configuration structs, and the values that JSON decodes to.
pub mod Value
pub mod Network
pub mod Codec
pub mod Validate
