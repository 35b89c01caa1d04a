-- ===== src/System.antt =====
-- The packages of system/.
pub mod Members
pub mod Routes
pub mod Addresses
