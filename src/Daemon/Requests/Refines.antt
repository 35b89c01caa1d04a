-- ===== src/Daemon/Requests/Refines.antt =====
-- Every sequence of calls of the configuration state does what the store of values says.
use jack.Base.{
  String, ◌==◌, ◌≡◌, ◌≢◌, refl, sym, ap, ◌∙◌, true, not, none, some, List, [], ◌∷◌, inl, inr, arith,
  eq_iff, is_some, if◌then◌else◌, Bool-cases,
}
use jack.Base.Maps.{has, lookup, lookup-map_values}
use jack.Base.Outcome.{Outcome, ok, err, panic, >>=-eq-ok, reject}
use jack.Types.Value.{Value}
use jack.Types.Codec.{Codec}
use jack.Daemon.Config.{Config}
use jack.Daemon.State.{
  State, Ref, new_state, entry_or_new, load, alloc, load_committed, set_last_applied,
  commit_pending, revert_pending,
}
use jack.Daemon.State.Isolation.{
  IsIsolated, committed, pending, last_applied, commit_pending-IsIsolated,
  revert_pending-IsIsolated, load_committed-IsIsolated, set_last_applied-IsIsolated,
}
use jack.Daemon.State.Contents.{
  load-commit_pending, load-revert_pending, load-set_last_applied, committed-commit_pending,
  pending-commit_pending, applied-commit_pending, committed-revert_pending, pending-revert_pending,
  applied-revert_pending, committed-loaded, pending-loaded, applied-loaded, known-loaded,
  load-loaded_old, load-loaded_new, committed-recorded, pending-recorded, applied-recorded,
  known-recorded,
}
use jack.Daemon.State.Initial.{new_state-IsIsolated}
use jack.Daemon.Registry.{PluginRegistry}
use jack.Daemon.Server.{handle_set, rewrite_path}
use jack.Daemon.Path.{parse_config_type, set_value}
use jack.Daemon.Server.Staging.{IsFilled, Stages}
use jack.Daemon.Server.Edits.{basis, handle_set-Stages, handle_set-total, handle_set-known}
use jack.Daemon.Requests.{
  Request, load_file, set, commit, revert, applied, or_unchanged, serve, serve_all,
}
use jack.Daemon.Requests.Spec.{
  Store, empty_store, edited, edit, after_edit, perform, perform_all, staged,
}

-- The state shows the store, and its references are isolated and refer to objects.
pub record Shows (s : State) (σ : Store) : Type 0 where
  pub isolated : IsIsolated s
  pub filled : IsFilled s
  pub known_is : (k : String) → has k s.registry ≡ σ.known k
  pub committed_is : (k : String) → load s (committed k s) ≡ σ.committed k
  pub pending_is : (k : String) → load s (pending k s) ≡ σ.pending k
  pub applied_is : (k : String) → load s (last_applied k s) ≡ σ.last_applied k

-- a pending reference and its content are there together
pending_there :
    (s : State) (σ : Store) (k : String) → Shows s σ → is_some (pending k s) ≡ is_some (σ.pending k)
pending_there s σ k h = go (pending k s) refl (h.pending_is k)
  where
    go : (r : Ref) → pending k s ≡ r → load s r ≡ σ.pending k → is_some r ≡ is_some (σ.pending k)
    go none at e = ap is_some e
    go (some a) at e = ground (arith, h.filled a (h.isolated.pending_there k a at), e)

module _ (s : State) (σ : Store) (h : Shows s σ) (codec : Codec) (registry : PluginRegistry) where
  known-map : (k : String) → has k (commit_pending s).1.registry ≡ has k s.registry
  unfolding commit_pending
  known-map k = rw lookup-map_values (ground arith)

  known-revert : (k : String) → has k (revert_pending s).1.registry ≡ has k s.registry
  unfolding revert_pending
  known-revert k = rw lookup-map_values (ground arith)

  commit-Shows : Shows (serve codec registry commit s) (perform codec registry commit σ)
  unfolding serve perform
  commit-Shows = record {
    isolated = commit_pending-IsIsolated h.isolated;
    filled = unfold commit_pending in h.filled;
    known_is = λ k. known-map k ∙ h.known_is k;
    committed_is = λ k. rw (committed-commit_pending s k, load-commit_pending) (moved k);
    pending_is = λ k. rw (pending-commit_pending s k);
    applied_is = λ k. rw (applied-commit_pending s k) (load-commit_pending s _ ∙ h.applied_is k);
  }
    where
      moved :
          (k : String)
          → load s (if is_some (pending k s) then pending k s else committed k s)
            ≡ (if is_some (σ.pending k) then σ.pending k else σ.committed k)
      moved k = elim (Bool-cases (is_some (pending k s))) [
        | inl there ↦ rw (there, sym (pending_there s σ k h) ∙ there) (h.pending_is k)
        | inr free ↦ rw (free, sym (pending_there s σ k h) ∙ free) (h.committed_is k)
      ]

  revert-Shows : Shows (serve codec registry revert s) (perform codec registry revert σ)
  unfolding serve perform
  revert-Shows = record {
    isolated = revert_pending-IsIsolated h.isolated;
    filled = unfold revert_pending in h.filled;
    known_is = λ k. known-revert k ∙ h.known_is k;
    committed_is =
        λ k. rw (committed-revert_pending s k) (load-revert_pending s _ ∙ h.committed_is k);
    pending_is = λ k. rw (pending-revert_pending s k);
    applied_is = λ k. rw (applied-revert_pending s k) (load-revert_pending s _ ∙ h.applied_is k);
  }

  load_file-Shows :
      (type : String) (c : Config)
      → Shows
          (serve codec registry (load_file type c) s)
          (perform codec registry (load_file type c) σ)
  unfolding serve perform
  load_file-Shows type c = record {
    isolated = load_committed-IsIsolated type c h.isolated;
    filled = λ a lt. unfold load_committed alloc in ground (arith, h.filled a);
    known_is = λ k. known-loaded type c s k ∙ ground (arith, h.known_is k);
    committed_is = λ k. elim (Bool-cases (type == k)) [
      | inl e ↦ rw (committed-loaded type c s k, e) (load-loaded_new type c s)
      | inr ne ↦
          rw (committed-loaded type c s k, ne)
            (load-loaded_old type c s _ (h.isolated.committed_there k) ∙ h.committed_is k)
    ];
    pending_is = λ k. elim (Bool-cases (type == k)) [
      | inl e ↦ rw (pending-loaded type c s k, e) refl
      | inr ne ↦
          rw (pending-loaded type c s k, ne)
            (load-loaded_old type c s _ (h.isolated.pending_there k) ∙ h.pending_is k)
    ];
    applied_is = λ k.
        rw (applied-loaded type c s k)
          (load-loaded_old type c s _ (h.isolated.applied_there k) ∙ h.applied_is k);
  }

  applied-Shows :
      (type : String)
      → Shows (serve codec registry (applied type) s) (perform codec registry (applied type) σ)
  unfolding serve perform
  applied-Shows type = record {
    isolated = set_last_applied-IsIsolated type h.isolated;
    filled = unfold set_last_applied in h.filled;
    known_is = λ k. known-recorded type s k ∙ ground (arith, h.known_is k);
    committed_is = λ k. rw (committed-recorded type s k, load-set_last_applied) (h.committed_is k);
    pending_is = λ k. rw (pending-recorded type s k, load-set_last_applied) (h.pending_is k);
    applied_is = λ k. elim (Bool-cases (type == k)) [
      | inl e ↦ rw (applied-recorded type s k, e, load-set_last_applied) (h.committed_is type)
      | inr ne ↦ rw (applied-recorded type s k, ne, load-set_last_applied) (h.applied_is k)
    ];
  }

  basis-edited : (type : String) → basis codec type s ≡ edited codec registry type σ
  unfolding basis
  basis-edited type = elim (Bool-cases (is_some (pending type s))) [
    | inl there ↦ rw (there, sym (pending_there s σ type h) ∙ there) (h.pending_is type)
    | inr free ↦ rw (free, sym (pending_there s σ type h) ∙ free, h.committed_is type) refl
  ]

  -- an edit that succeeds on the values succeeds on the objects
  edit-total :
      (path : String) (v : Value) (e : String × Config)
      → edit codec registry path v σ ≡ ok e
      → (s' : State) × (handle_set codec registry path v s ≡ ok s')
  unfolding edit
  edit-total path v e done =
      let (type, parsed, h₁) = >>=-eq-ok (parse_config_type (rewrite_path registry path)) _ done in
      let (there, known, h₂) = >>=-eq-ok (reject (not (σ.known type)) "unknown config type") _ h₁ in
      let (c, written, h₃) =
        >>=-eq-ok (set_value codec (edited codec registry type σ) (rewrite_path registry path) v) _
          h₂ in
      handle_set-total codec registry path v s type c parsed
        (ground (arith, known, h.known_is type)) (rw (basis-edited type) written)

  failed-Shows :
      (path : String) (v : Value) (o : Outcome (String × Config))
      → edit codec registry path v σ ≡ o
      → ((s' : State) → handle_set codec registry path v s ≢ ok s')
      → Shows s (after_edit codec registry σ o)
  failed-Shows path v (err m) e fails = h
  failed-Shows path v (panic m) e fails = h
  failed-Shows path v (ok edited) e fails =
      let (s', done) = edit-total path v edited e in absurd (fails s' done)

  staged-Shows :
      (type : String) (c : Config) (s' : State)
      → has type s.registry ≡ true
      → Stages type c s s'
      → Shows s' (staged type c σ)
  staged-Shows type c s' known st = record {
    isolated = st.isolated;
    filled = st.filled h.filled;
    known_is = λ k. ground (arith, st.known_kept k, h.known_is k, eq_iff type k);
    committed_is = λ k. st.committed_kept k ∙ h.committed_is k;
    pending_is = λ k. elim (Bool-cases (type == k)) [
      | inl e ↦ rw (e, ← (eq_iff type k).0 e) st.pending_is
      | inr ne ↦ rw ne (st.pending_kept k (λ e. ground (arith, eq_iff type k, e)) ∙ h.pending_is k)
    ];
    applied_is = λ k. st.applied_kept k ∙ h.applied_is k;
  }

  done-Shows :
      (path : String) (v : Value) (s' : State)
      → handle_set codec registry path v s ≡ ok s'
      → Shows s' (after_edit codec registry σ (edit codec registry path v σ))
  unfolding edit
  done-Shows path v s' e =
      let (type, c, parsed, written, st) =
        handle_set-Stages codec registry path v s s' h.isolated e in
      let known = handle_set-known codec registry path v s s' type e parsed in
      rw (parsed, sym (h.known_is type) ∙ known, sym (basis-edited type), written)
        (staged-Shows type c s' known st)

  set-Shows :
      (path : String) (v : Value)
      → Shows (serve codec registry (set path v) s) (perform codec registry (set path v) σ)
  unfolding serve perform
  set-Shows path v = go (handle_set codec registry path v s) refl
    where
      go :
          (o : Outcome State)
          → handle_set codec registry path v s ≡ o
          → Shows (or_unchanged s o) (after_edit codec registry σ (edit codec registry path v σ))
      go (ok s') e = done-Shows path v s' e
      go (err m) e =
          failed-Shows path v (edit codec registry path v σ) refl (λ s' d. ground (arith, e, d))
      go (panic m) e =
          failed-Shows path v (edit codec registry path v σ) refl (λ s' d. ground (arith, e, d))

  serve-Shows : (r : Request) → Shows (serve codec registry r s) (perform codec registry r σ)
  serve-Shows (load_file type c) = load_file-Shows type c
  serve-Shows (set path v) = set-Shows path v
  serve-Shows commit = commit-Shows
  serve-Shows revert = revert-Shows
  serve-Shows (applied type) = applied-Shows type

new_state-Shows : Shows new_state empty_store
unfolding entry_or_new lookup
new_state-Shows = record {
  isolated = new_state-IsIsolated;
  filled = λ a lt. absurd (omega (arith, lt));
  known_is = λ k. refl;
  committed_is = λ k. refl;
  pending_is = λ k. refl;
  applied_is = λ k. refl;
}

serve_all-Shows :
    (codec : Codec) (registry : PluginRegistry) (rs : List Request) (s : State) (σ : Store)
    → Shows s σ
    → Shows (serve_all codec registry rs s) (perform_all codec registry rs σ)
unfolding serve_all perform_all
serve_all-Shows codec registry [] s σ h = h
serve_all-Shows codec registry (r ∷ rs) s σ h =
    serve_all-Shows codec registry rs _ _ (serve-Shows s σ h codec registry r)

-- From the start of the daemon, any sequence of loads, `set` requests, commits, reverts and records
-- of what was applied leaves a state whose committed, pending and last applied configurations, and
-- known types, are those of a store of values that performs the same sequence: objects that
-- entries share, and maps that objects share, never show.
pub serve_all-refines :
    (codec : Codec) (registry : PluginRegistry) (rs : List Request) (k : String)
    → let s = serve_all codec registry rs new_state in
      let σ = perform_all codec registry rs empty_store in
      (has k s.registry ≡ σ.known k)
      × (load s (committed k s) ≡ σ.committed k)
      × (load s (pending k s) ≡ σ.pending k)
      × (load s (last_applied k s) ≡ σ.last_applied k)
serve_all-refines codec registry rs k =
    let h = serve_all-Shows codec registry rs new_state empty_store new_state-Shows in
    (h.known_is k, h.committed_is k, h.pending_is k, h.applied_is k)
