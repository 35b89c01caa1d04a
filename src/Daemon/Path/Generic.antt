-- ===== src/Daemon/Path/Generic.antt =====
-- `setGenericValue` and `getGenericValue` of daemon/path.go: nested `map[string]interface{}`.
pub mod Laws
use jack.Base.{String, Bool, List, [], ◌∷◌, Option, none, some}
use jack.Base.Outcome.{Outcome, ok, err, ◌>>=◌}
use jack.Types.Value.{Value, obj, Fields, find, put}

-- The maps on the way are changed in place, so the outer map shows the change.
abbrev set_below : (Fields → Outcome Fields) → String → Fields → Option Value → Outcome Fields
set_below inner k fs none = err "key not found"
set_below inner k fs (some (obj gs)) = do gs' ← inner gs; ok (put k (obj gs') fs)
set_below inner k fs (some v) = err "cannot navigate into non-map value"

unfoldable pub set_generic_value : Fields → List String → Value → Outcome Fields
set_generic_value fs [] v = err "empty path"
set_generic_value fs (k ∷ []) v = ok (put k v fs)
set_generic_value fs (k ∷ path) v = set_below (λ gs. set_generic_value gs path v) k fs (find k fs)

-- A value that is no map ends the walk: what is left of the path is ignored.
abbrev get_below : (Fields → Outcome Value) → Option Value → Outcome Value
get_below inner none = err "key not found"
get_below inner (some (obj gs)) = inner gs
get_below inner (some v) = ok v

abbrev get_leaf : Option Value → Outcome Value
get_leaf none = err "key not found"
get_leaf (some v) = ok v

-- The path is `k ∷ path`; an empty one reads the map itself, in `getValue` here.
unfoldable pub get_generic_value : Fields → String → List String → Outcome Value
get_generic_value fs k [] = get_leaf (find k fs)
get_generic_value fs k (j ∷ path) = get_below (λ gs. get_generic_value gs j path) (find k fs)
