-- ===== src/Daemon/Diff/Panics.antt =====
-- A difference of a plugin configuration is never answered.
use jack.Base.{
  String, ◌==◌, ◌≡◌, ◌≢◌, true, false, Option, none, some, List, [], ◌∷◌, ◌∙◌, inl, inr, arith,
  eq_iff, Bool-cases,
}
use jack.Base.Lists.{mem}
use jack.Base.Maps.{Distinct}
use jack.Base.Outcome.{ok, >>=-eq-ok}
use jack.Types.Value.{Fields}
use jack.Daemon.Config.{Config, plugin}
use jack.Daemon.State.{
  State, load, has_pending, has_pending_for, get_pending_types, get_committed, get_current,
}
use jack.Daemon.State.Pending.{mem-get_pending_types, get_pending_types_none}
use jack.Daemon.State.Isolation.{committed}
use jack.Daemon.Apply.Keeps.{get_committed-committed}
use jack.Daemon.Diff.{
  DeepEqual, DiffResult, generic, diff_configs, diff_type, diff_types, handle_diff,
}

module _ (deep : DeepEqual) (s : State) where
  diff_type-ok :
      (type : String) (f : Fields) (diffs : List DiffResult)
      → type == "interfaces" ≡ false
      → load s (committed type s) ≡ some (plugin f)
      → diff_type deep type s ≢ ok diffs
  unfolding diff_type diff_configs generic
  diff_type-ok type f diffs other is_map e =
      let (r, found, e₁) = >>=-eq-ok (get_committed type s) _ e in
      let (q, current, e₂) = >>=-eq-ok (get_current type s) _ e₁ in
      let same = get_committed-committed type s r found in
      let there : load s r ≡ some (plugin f) = rw same is_map in
      no_answer (load s q) (rw (other, diff_configs, there) at e₂)
    where
      no_answer : (current : Option Config) → generic deep type (some (plugin f)) current ≢ ok diffs
      no_answer none h = cc
      no_answer (some c) h = cc

  diff_types-ok :
      (type : String) (f : Fields) (types : List String) (diffs : List DiffResult)
      → type == "interfaces" ≡ false
      → load s (committed type s) ≡ some (plugin f)
      → mem type types ≡ true
      → diff_types deep types s ≢ ok diffs
  unfolding diff_types mem
  diff_types-ok type f [] diffs other is_map there e = cc
  diff_types-ok type f (t ∷ types) diffs other is_map there e =
      let (first, done, e₁) = >>=-eq-ok (diff_type deep t s) _ e in
      let (more, rest, e₂) = >>=-eq-ok (diff_types deep types s) _ e₁ in
      elim (Bool-cases (t == type)) [
        | inl same ↦
            let is : diff_type deep type s ≡ ok first = rw ((eq_iff t type).0 same) at done in
            diff_type-ok type f first other is_map is
        | inr ne ↦ diff_types-ok type f types more other is_map (ground (arith, there, ne)) rest
      ]

-- While a plugin configuration is pending whose committed one is a map, a request for the
-- differences is never answered with success.
pub handle_diff-plugin :
    (deep : DeepEqual) (s : State) (type : String) (f : Fields) (diffs : List DiffResult)
    → Distinct s.registry
    → has_pending_for type s ≡ true
    → type == "interfaces" ≡ false
    → load s (committed type s) ≡ some (plugin f)
    → handle_diff deep s ≢ ok diffs
unfolding handle_diff mem
handle_diff-plugin deep s type f diffs distinct pends other is_map e =
    let there = mem-get_pending_types type s distinct ∙ pends in
    elim (Bool-cases (has_pending s)) [
      | inl any ↦
          diff_types-ok deep s type f (get_pending_types s) diffs other is_map there
            (rw (any, handle_diff) at e)
      | inr free ↦ absurd (nowhere (rw (get_pending_types_none s free) at there))
    ]
  where
    nowhere : mem type [] ≢ true
    nowhere h = cc
