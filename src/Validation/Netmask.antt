-- ===== src/Validation/Netmask.antt =====
-- `ValidateNetmask` of validation/validation.go, with its test on 32-bit words.
pub mod Laws
use Prim.Native.Char.{code}
use jack.Base.{
  ℕ, zero, suc, ◌+◌, ◌-◌, ◌*◌, ◌/◌, ◌%◌, ◌^◌, String, ◌==◌, Bool, not, ◌&&◌, ◌||◌, Option, none,
  some, eqb, if◌then◌else◌,
}
use jack.Base.Int.{ℤ, pos, ltz}
use jack.Validation.{Error, Address, ip4, ip6, Parsers, refuse}

-- `&` on words of the given width
unfoldable pub band : ℕ → ℕ → ℕ → ℕ
band zero a b = 0
band (suc width) a b = (a % 2) * (b % 2) + 2 * band width (a / 2) (b / 2)

-- the bytes do not overlap, so `|` adds them
unfoldable pub word : ℕ → ℕ → ℕ → ℕ → ℕ
word a b c d = a * 2 ^ 24 + b * 2 ^ 16 + c * 2 ^ 8 + d

-- `^mask` and `inverted+1`, which wraps around
unfoldable pub is_contiguous : ℕ → Bool
unfolding band
is_contiguous mask =
    let inverted = 2 ^ 32 - 1 - mask in
    not (not (eqb (band 32 ((inverted + 1) % 2 ^ 32) inverted) 0) && not (eqb mask 0))

module _ (parsers : Parsers) where
  dotted : Option Address → Error
  dotted none = some "invalid netmask format"
  dotted (some ip6) = some "not an IPv4 address"
  dotted (some (ip4 a b c d)) =
      refuse (not (is_contiguous (word a b c d))) "not a valid contiguous netmask"

  prefix_length : Option ℤ → Error
  prefix_length none = some "invalid CIDR prefix"
  prefix_length (some n) =
      refuse (ltz n (pos 0) || ltz (pos 32) n) "invalid CIDR prefix: must be between 0 and 32"

  -- `strings.HasPrefix(netmask, "/")` and `strings.TrimPrefix`
  unfoldable pub validate_netmask : String → Error
  unfolding dotted prefix_length
  validate_netmask String.[] = some "netmask cannot be empty"
  validate_netmask (String.◌∷◌ c rest) =
      if eqb (code c) 47
      then prefix_length (parsers.atoi rest)
      else dotted (parsers.parse_ip (String.◌∷◌ c rest))
