-- ===== src/Daemon/Server/Edits.antt =====
-- `set` through the whole handler: the path, the choice of the object, the write, the staging.
use mathlib.Core.Path.{ap₂, fun_ext}
use jack.Base.{
  ℕ, String, ◌==◌, ◌+◌, ◌≡◌, ◌⊎◌, refl, ap, true, false, Option, none, some, inl, inr, arith,
  if◌then◌else◌, is_some, Bool-cases, Option-cases,
}
use jack.Base.Maps.{has}
use jack.Base.Outcome.{ok, >>=-eq-ok}
use jack.Types.Value.{Value}
use jack.Types.Codec.{Codec}
use jack.Types.Network.{InterfacesConfig, RoutesConfig}
use jack.Daemon.Config.{Config, interfaces, routes, jack_config, plugin, nil_map}
use jack.Daemon.State.{
  State, Ref, entry_or_new, load, alloc, copy_struct, give_map, get_current, get_committed,
  has_pending_for,
}
use jack.Daemon.State.Isolation.{IsIsolated, committed, pending}
use jack.Daemon.Path.{parse_config_type, set_value}
use jack.Daemon.Path.Laws.{usable, set_value-usable}
use jack.Daemon.Registry.{PluginRegistry}
use jack.Daemon.Server.{
  rewrite_path, copied_interfaces, copied_routes, deep_copy_interfaces, deep_copy_routes,
  copy_interfaces, copy_routes, deep_copy_generic, copy_committed, editable, stage, handle_set,
}
use jack.Daemon.Server.Staging.{Stages, stage_pending, stage_fresh}

-- What a committed configuration is copied as.
copy_generic : Codec → Config → Option Config
copy_generic codec (interfaces c) = some (plugin (codec.from_interfaces c))
copy_generic codec (routes c) = some (plugin (codec.from_routes c))
copy_generic codec (jack_config c) = some (plugin (codec.from_jack c))
copy_generic codec (plugin fs) = some (plugin fs)
copy_generic codec nil_map = none

pub copy_as : Codec → String → Option Config → Option Config
unfolding copy_generic
copy_as codec type none = none
copy_as codec type (some c) =
    if type == "interfaces"
    then copy_interfaces_content c
    else if type == "routes"
    then copy_routes_content c
    else copy_generic codec c
  where
    copy_interfaces_content : Config → Option Config
    copy_interfaces_content (interfaces i) = some (interfaces (copied_interfaces i))
    copy_interfaces_content other = none

    copy_routes_content : Config → Option Config
    copy_routes_content (routes i) = some (routes (copied_routes i))
    copy_routes_content other = none

-- What a `set` of the type starts from.
unfoldable pub basis : Codec → String → State → Option Config
unfolding copy_as
basis codec type s =
    if is_some (pending type s)
    then load s (pending type s)
    else copy_as codec type (load s (committed type s))

-- The object that is edited is a new one, with the copied content, or one that a write refuses.
abbrev Copied : Codec → String → State → Option Config → Ref × State → Type 0
Copied codec type s content edit =
    (c : Config) × (copy_as codec type content ≡ some c) × (edit ≡ (some s.next, (alloc c s).1))

-- Neither the object nor what a copy would hold can be written.
abbrev Refused : Codec → String → Option Config → Ref × State → Type 0
Refused codec type content edit =
    (usable type (load edit.1 edit.0) ≡ false) × (usable type (copy_as codec type content) ≡ false)

-- The map of a copied struct is new: it is as if the copy had been made at once.
give_map-copy_struct :
    (r : Ref) (c c' : Config) (s : State)
    → give_map (copy_struct r c s).0 c' (copy_struct r c s).1 ≡ (alloc c' s).1
unfolding give_map copy_struct alloc
give_map-copy_struct r c c' s =
    ap₂ (λ heap map_of. record s { heap = heap; map_of = map_of; next = s.next + 1 })
      (fun_ext (λ a. ground arith)) (fun_ext (λ a. ground arith))

deep_copy_interfaces-alloc :
    (r : Ref) (c : InterfacesConfig) (s : State)
    → deep_copy_interfaces r c s ≡ (some s.next, (alloc (interfaces (copied_interfaces c)) s).1)
unfolding deep_copy_interfaces copy_struct
deep_copy_interfaces-alloc r c s =
    ap (λ t. (some s.next, t))
      (give_map-copy_struct r (interfaces c) (interfaces (copied_interfaces c)) s)

deep_copy_routes-alloc :
    (r : Ref) (c : RoutesConfig) (s : State)
    → deep_copy_routes r c s ≡ (some s.next, (alloc (routes (copied_routes c)) s).1)
unfolding deep_copy_routes copy_struct
deep_copy_routes-alloc r c s =
    ap (λ t. (some s.next, t)) (give_map-copy_struct r (routes c) (routes (copied_routes c)) s)

module _ (codec : Codec) (type : String) (s : State) (r : Ref) where
  abbrev Edited : Option Config → Type 0
  Edited o =
      Refused codec type o (copy_committed codec type r r o s)
      ⊎ Copied codec type s o (copy_committed codec type r r o s)

  as_interfaces : (o : Option Config) → (type == "interfaces") ≡ true → load s r ≡ o → Edited o
  unfolding copy_committed copy_interfaces copy_as usable
  as_interfaces none i e = inl (rw (i, e) refl, rw i refl)
  as_interfaces (some (interfaces c)) i e =
      inr (interfaces (copied_interfaces c), rw i refl, rw i (deep_copy_interfaces-alloc r c s))
  as_interfaces (some (routes c)) i e = inl (rw (i, e) refl, rw i refl)
  as_interfaces (some (jack_config c)) i e = inl (rw (i, e) refl, rw i refl)
  as_interfaces (some (plugin fs)) i e = inl (rw (i, e) refl, rw i refl)
  as_interfaces (some nil_map) i e = inl (rw (i, e) refl, rw i refl)

  as_routes :
      (o : Option Config)
      → (type == "interfaces") ≡ false
      → (type == "routes") ≡ true
      → load s r ≡ o
      → Edited o
  unfolding copy_committed copy_routes copy_as usable
  as_routes none ni i e = inl (rw (ni, i, e) refl, rw (ni, i) refl)
  as_routes (some (interfaces c)) ni i e = inl (rw (ni, i, e) refl, rw (ni, i) refl)
  as_routes (some (routes c)) ni i e =
      inr (routes (copied_routes c), rw (ni, i) refl, rw (ni, i) (deep_copy_routes-alloc r c s))
  as_routes (some (jack_config c)) ni i e = inl (rw (ni, i, e) refl, rw (ni, i) refl)
  as_routes (some (plugin fs)) ni i e = inl (rw (ni, i, e) refl, rw (ni, i) refl)
  as_routes (some nil_map) ni i e = inl (rw (ni, i, e) refl, rw (ni, i) refl)

  as_plugin :
      (o : Option Config) → (type == "interfaces") ≡ false → (type == "routes") ≡ false → Edited o
  unfolding copy_committed deep_copy_generic copy_as copy_generic usable alloc
  as_plugin none ni nj = inl (rw (ni, nj) refl, rw (ni, nj) refl)
  as_plugin (some (interfaces c)) ni nj =
      inr (plugin (codec.from_interfaces c), rw (ni, nj) refl, rw (ni, nj) refl)
  as_plugin (some (routes c)) ni nj =
      inr (plugin (codec.from_routes c), rw (ni, nj) refl, rw (ni, nj) refl)
  as_plugin (some (jack_config c)) ni nj =
      inr (plugin (codec.from_jack c), rw (ni, nj) refl, rw (ni, nj) refl)
  as_plugin (some (plugin fs)) ni nj = inr (plugin fs, rw (ni, nj) refl, rw (ni, nj) refl)
  as_plugin (some nil_map) ni nj = inl (rw (ni, nj) refl, rw (ni, nj) refl)

  copied : (o : Option Config) → load s r ≡ o → Edited o
  copied o e = elim (Bool-cases (type == "interfaces")) [
    | inl i ↦ as_interfaces o i e
    | inr ni ↦ elim (Bool-cases (type == "routes")) [
      | inl j ↦ as_routes o ni j e
      | inr nj ↦ as_plugin o ni nj
    ]
  ]

module _ (codec : Codec) (type : String) (s : State) where
  -- without a pending configuration, the current one is the committed one
  editable_free :
      (edit : Ref × State)
      → pending type s ≡ none
      → editable codec type s ≡ ok edit
      → edit
        ≡ copy_committed codec type
            (committed type s)
            (committed type s)
            (load s (committed type s))
            s
  unfolding editable get_current get_committed has_pending_for entry_or_new
  editable_free edit free h = ground arith

  editable_pending :
      (edit : Ref × State) (a : ℕ)
      → pending type s ≡ some a
      → editable codec type s ≡ ok edit
      → edit ≡ (some a, s)
  unfolding editable get_current get_committed has_pending_for entry_or_new
  editable_pending edit a at h = ground arith

  -- The staged state, once the write has succeeded.
  stage_edit :
      (edit : Ref × State) (c : Config)
      → IsIsolated s
      → editable codec type s ≡ ok edit
      → usable type (load edit.1 edit.0) ≡ true
      → Stages type c s (stage type edit.0 c edit.1) × (load edit.1 edit.0 ≡ basis codec type s)
  unfolding basis
  stage_edit edit c iso h fits = elim (Option-cases (pending type s)) [
    | inl free ↦
        let e = editable_free edit free h in
        elim (copied codec type s (committed type s) (load s (committed type s)) refl) [
          | inl (refused, no_copy) ↦ absurd (ground (arith, e))
          | inr (c₀, content, there) ↦
              rw (e, there)
                (stage_fresh type c c₀ s iso, rw (free, content) (unfold alloc in ground arith))
        ]
    | inr (a, at) ↦ rw (editable_pending edit a at h, at) (stage_pending type a c s iso at, refl)
  ]

-- Which types can be edited, and what a write to the object comes down to.
module _ (codec : Codec) (type : String) (s : State) where
  pub editable-known :
      (edit : Ref × State) → editable codec type s ≡ ok edit → has type s.registry ≡ true
  unfolding editable get_current get_committed
  editable-known edit h = ground arith

  current : Ref
  current = if is_some (pending type s) then pending type s else committed type s

  known-current : has type s.registry ≡ true → get_current type s ≡ ok current
  unfolding get_current entry_or_new current
  known-current h = ground arith

  known-committed : has type s.registry ≡ true → get_committed type s ≡ ok (committed type s)
  unfolding get_committed entry_or_new
  known-committed h = ground arith

  pub known-editable :
      has type s.registry ≡ true → (edit : Ref × State) × (editable codec type s ≡ ok edit)
  unfolding editable
  known-editable h = (
    if has_pending_for type s
        then (current, s)
        else copy_committed codec type current (committed type s) (load s (committed type s)) s,
    rw (known-current h, known-committed h) refl,
  )

  pub edit-basis :
      (edit : Ref × State)
      → editable codec type s ≡ ok edit
      → (load edit.1 edit.0 ≡ basis codec type s)
        ⊎ ((usable type (load edit.1 edit.0) ≡ false) × (usable type (basis codec type s) ≡ false))
  unfolding basis
  edit-basis edit h = elim (Option-cases (pending type s)) [
    | inl free ↦
        let e = editable_free codec type s edit free h in
        elim (copied codec type s (committed type s) (load s (committed type s)) refl) [
          | inl (refused, no_copy) ↦ inr (rw e refused, rw free no_copy)
          | inr (c₀, content, there) ↦
              inl (rw (e, there, free, content) (unfold alloc in ground arith))
        ]
    | inr (a, at) ↦ inl (rw (editable_pending codec type s edit a at h, at) refl)
  ]

-- A successful `set`, for the type that its path names after rewriting: the pending configuration
-- of that type is what `SetValue` makes of the one that was pending, or of a copy of the committed
-- one; the contents of every committed and every last applied configuration, and of what is pending
-- for other types, are as before; and the references stay isolated.
pub handle_set-Stages :
    (codec : Codec) (registry : PluginRegistry) (raw : String) (v : Value) (s s' : State)
    → IsIsolated s
    → handle_set codec registry raw v s ≡ ok s'
    → (type : String) × (c : Config) × (parse_config_type (rewrite_path registry raw) ≡ ok type)
      × (set_value codec (basis codec type s) (rewrite_path registry raw) v ≡ ok c)
      × Stages type c s s'
unfolding handle_set
handle_set-Stages codec registry raw v s s' iso h =
    let path = rewrite_path registry raw in
    let (type, parsed, h₁) = >>=-eq-ok (parse_config_type path) _ h in
    let (edit, chosen, h₂) = >>=-eq-ok (editable codec type s) _ h₁ in
    let (c, written, h₃) = >>=-eq-ok (set_value codec (load edit.1 edit.0) path v) _ h₂ in
    let fits = set_value-usable codec (load edit.1 edit.0) path type v parsed written in
    let (stages, from) = stage_edit codec type s edit c iso chosen fits in
    let e : stage type edit.0 c edit.1 ≡ s' = cc in
    (type, c, parsed, rw from at written, rw e at stages)

-- A write that succeeds on what is pending, or else on the copy, makes the request succeed.
pub handle_set-total :
    (codec : Codec) (registry : PluginRegistry) (raw : String) (v : Value) (s : State)
    (type : String) (c : Config)
    → parse_config_type (rewrite_path registry raw) ≡ ok type
    → has type s.registry ≡ true
    → set_value codec (basis codec type s) (rewrite_path registry raw) v ≡ ok c
    → (s' : State) × (handle_set codec registry raw v s ≡ ok s')
unfolding handle_set
handle_set-total codec registry raw v s type c parsed known written =
    let path = rewrite_path registry raw in
    let (edit, chosen) = known-editable codec type s known in
    elim (edit-basis codec type s edit chosen) [
      | inl same ↦ (stage type edit.0 c edit.1, rw (parsed, chosen, same, written) refl)
      | inr (refused, no_copy) ↦
          let fits = set_value-usable codec (basis codec type s) path type v parsed written in
          absurd (ground (arith, fits, no_copy))
    ]

-- A request that succeeds is about a known type.
pub handle_set-known :
    (codec : Codec) (registry : PluginRegistry) (raw : String) (v : Value) (s s' : State)
    (type : String)
    → handle_set codec registry raw v s ≡ ok s'
    → parse_config_type (rewrite_path registry raw) ≡ ok type
    → has type s.registry ≡ true
unfolding handle_set
handle_set-known codec registry raw v s s' type h parsed =
    let chosen = (rw parsed at h) in
    let (edit, known, rest) = >>=-eq-ok (editable codec type s) _ chosen in
    editable-known codec type s edit known
