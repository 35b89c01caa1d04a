-- ===== src/Daemon/Path/Laws.antt =====
-- Which configuration a write needs, by the configuration type of its path.
use jack.Base.{
  String, ◌==◌, ◌≡◌, Bool, true, false, Option, none, some, List, [], ◌∷◌, is_some, arith,
  if◌then◌else◌,
}
use jack.Base.Text.{split}
use jack.Base.Outcome.{ok, err}
use jack.Types.Value.{Value}
use jack.Types.Codec.{Codec}
use jack.Daemon.Config.{Config, interfaces, routes, jack_config, plugin, nil_map}
use jack.Daemon.Path.{
  dot, parse_config_type, set_interfaces, set_routes, set_plugin, set_parts, set_value,
}

pub parse_config_type-eq-ok :
    (path type : String)
    → parse_config_type path ≡ ok type
    → (rest : List String) × (split dot path ≡ type ∷ rest)
unfolding parse_config_type
parse_config_type-eq-ok path type h = first (split dot path) h
  where
    first :
        (parts : List String)
        → elim parts [
          | [] ↦ err "invalid path"
          | config_type ∷ rest ↦ if config_type == "" then err "invalid path" else ok config_type
        ]
          ≡ ok type
        → (rest : List String) × (parts ≡ type ∷ rest)
    first [] h = cc
    first (t ∷ rest) h = (rest, ground arith)

-- The configuration is of the kind that the type needs.
abbrev is_interfaces : Option Config → Bool
is_interfaces (some (interfaces c)) = true
is_interfaces other = false

abbrev is_routes : Option Config → Bool
is_routes (some (routes c)) = true
is_routes other = false

unfoldable pub usable : String → Option Config → Bool
usable type c =
    if type == "interfaces"
    then is_interfaces c
    else if type == "routes"
    then is_routes c
    else is_some c

module _ (codec : Codec) where
  set_parts-usable :
      (c : Option Config) (type : String) (rest : List String) (v : Value) {c' : Config}
      → set_parts codec c (type ∷ rest) v ≡ ok c'
      → usable type c ≡ true
  unfolding set_parts usable set_interfaces set_routes set_plugin
  set_parts-usable none type rest v h = ground arith
  set_parts-usable (some (interfaces c)) type rest v h = ground arith
  set_parts-usable (some (routes c)) type rest v h = ground arith
  set_parts-usable (some (jack_config c)) type rest v h = ground arith
  set_parts-usable (some (plugin fs)) type rest v h = ground arith
  set_parts-usable (some nil_map) type rest v h = ground arith

  -- A write that succeeds had a configuration of the right kind.
  pub set_value-usable :
      (c : Option Config) (path type : String) (v : Value) {c' : Config}
      → parse_config_type path ≡ ok type
      → set_value codec c path v ≡ ok c'
      → usable type c ≡ true
  unfolding set_value
  set_value-usable c path type v parsed h =
      let (rest, e) = parse_config_type-eq-ok path type parsed in
      set_parts-usable c type rest v (rw e at h)
