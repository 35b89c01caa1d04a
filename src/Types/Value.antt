-- ===== src/Types/Value.antt =====
-- `interface{}` values as encoding/json decodes them, for requests and plugin configurations.
use jack.Base.{
  ℕ, ◌*◌, ◌/◌, ◌^◌, String, ◌==◌, ◌≡◌, refl, Bool, Option, none, some, arith, eq_iff, ltb,
  if◌then◌else◌,
}
use jack.Base.Int.{ℤ, pos, negate}

-- A finite float64 is exactly ± mantissa * 2 ^ doublings / 2 ^ halvings. What `int64` makes of it if
-- it is out of range is left to the platform: `out_of_range` is that number.
pub record Float : Type 0 where
  pub negative : Bool
  pub mantissa : ℕ
  pub doublings : ℕ
  pub halvings : ℕ
  pub out_of_range : ℤ

-- `int64(f)`: the fraction is cut off.
unfoldable pub truncate : Float → ℤ
truncate f =
    let size = f.mantissa * 2 ^ f.doublings / 2 ^ f.halvings in
    if f.negative
    then (if ltb (2 ^ 63) size then f.out_of_range else negate size)
    else if ltb size (2 ^ 63)
    then pos size
    else f.out_of_range

mutual
  -- `map[string]interface{}`
  pub data Fields : Type 0 where
    end : Fields
    field : String → Value → Fields → Fields

  pub data Value : Type 0 where
    bool : Bool → Value
    num : Float → Value
    str : String → Value
    obj : Fields → Value
    arr : Items → Value
    null : Value

  -- `[]interface{}`
  pub data Items : Type 0 where
    cons : Value → Items → Items
    nil : Items

unfoldable pub find : String → Fields → Option Value
find k end = none
find k (field j v fs) = if j == k then some v else find k fs

-- `m[k] = v`
unfoldable pub put : String → Value → Fields → Fields
put k v end = field k v end
put k v (field j w fs) = if j == k then field k v fs else field j w (put k v fs)

pub find-put :
    (k j : String) (v : Value) (fs : Fields)
    → find j (put k v fs) ≡ (if k == j then some v else find j fs)
unfolding find put
find-put k j v end = refl
find-put k j v (field i w fs) =
    ground (arith, eq_iff k j, eq_iff i k, eq_iff i j, find-put k j v fs)
