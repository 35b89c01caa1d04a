-- ===== src/Daemon/Apply/Records.antt =====
-- What recording an applied configuration does to the configuration state.
use jack.Base.{
  ℕ, ◌<◌, ◌≤◌, String, ◌==◌, ◌≡◌, ◌≢◌, true, false, ◌||◌, some, refl, sym, ap, ◌∙◌, inl, inr, arith,
  eq_iff, Bool-cases, if◌then◌else◌,
}
use jack.Base.Maps.{has, lookup-insert}
use jack.Daemon.Config.{Config}
use jack.Daemon.State.{State, Ref, load, alloc, entry_or_new, set_last_applied}
use jack.Daemon.State.Entries.{entry-set_last_applied}
use jack.Daemon.State.Isolation.{IsIsolated, committed, pending, last_applied}

-- The state grew: what is committed and pending is as before, by reference and by content.
pub record Grows (s s' : State) : Type 0 where
  pub committed_is : (k : String) → committed k s' ≡ committed k s
  pub pending_is : (k : String) → pending k s' ≡ pending k s
  pub known_kept : (k : String) → has k s.registry ≡ true → has k s'.registry ≡ true
  pub old : (a : ℕ) → a < s.next → s'.heap a ≡ s.heap a
  pub next_grows : s.next ≤ s'.next
  pub isolated : IsIsolated s → IsIsolated s'

pub Grows-refl : (s : State) → Grows s s
Grows-refl s = record {
  committed_is = λ k. refl;
  pending_is = λ k. refl;
  known_kept = λ k h. h;
  old = λ a h. refl;
  next_grows = omega arith;
  isolated = λ h. h;
}

pub Grows-trans : {s t u : State} → Grows s t → Grows t u → Grows s u
Grows-trans {s} {t} {u} g h = record {
  committed_is = λ k. h.committed_is k ∙ g.committed_is k;
  pending_is = λ k. h.pending_is k ∙ g.pending_is k;
  known_kept = λ k e. h.known_kept k (g.known_kept k e);
  old = λ a lt. h.old a (omega (arith, lt, g.next_grows)) ∙ g.old a lt;
  next_grows = omega (arith, g.next_grows, h.next_grows);
  isolated = λ i. h.isolated (g.isolated i);
}

-- The last applied configuration of a type is now the committed one, or a new object.
pub record Records (ns : String) (r : Ref) (s s' : State) : Type 0 where
  pub grows : Grows s s'
  pub others : (k : String) → ns == k ≡ false → last_applied k s' ≡ last_applied k s
  pub own : last_applied ns s' ≡ r
  pub known : has ns s'.registry ≡ true

last-set_last_applied :
    (ns : String) (r : Ref) (s : State) (k : String)
    → last_applied k (set_last_applied ns r s) ≡ (if ns == k then r else last_applied k s)
last-set_last_applied ns r s k =
    ap (λ e. e.last_applied) (entry-set_last_applied ns k r s) ∙ ground arith

committed-set_last_applied :
    (ns : String) (r : Ref) (s : State) (k : String)
    → committed k (set_last_applied ns r s) ≡ committed k s
committed-set_last_applied ns r s k =
    ap (λ e. e.committed) (entry-set_last_applied ns k r s) ∙ ground (arith, eq_iff ns k)

pending-set_last_applied :
    (ns : String) (r : Ref) (s : State) (k : String)
    → pending k (set_last_applied ns r s) ≡ pending k s
pending-set_last_applied ns r s k =
    ap (λ e. e.pending) (entry-set_last_applied ns k r s) ∙ ground (arith, eq_iff ns k)

known-set_last_applied :
    (ns : String) (r : Ref) (s : State) (k : String)
    → has k (set_last_applied ns r s).registry ≡ (ns == k || has k s.registry)
unfolding set_last_applied
known-set_last_applied ns r s k = rw lookup-insert (ground arith)

-- It keeps the references isolated if the object is none that is pending.
set-IsIsolated :
    (ns : String) (r : Ref) (s : State)
    → IsIsolated s
    → ((a : ℕ) → r ≡ some a → a < s.next)
    → ((k : String) (a : ℕ) → r ≡ some a → pending k s ≢ some a)
    → IsIsolated (set_last_applied ns r s)
set-IsIsolated ns r s i bound apart = record {
  committed_there = λ k a e.
      unfold set_last_applied in
      i.committed_there k a (sym (committed-set_last_applied ns r s k) ∙ e);
  pending_there = λ k a e.
      unfold set_last_applied in i.pending_there k a (sym (pending-set_last_applied ns r s k) ∙ e);
  applied_there =
      λ k a e. unfold set_last_applied in applied k a (sym (last-set_last_applied ns r s k) ∙ e);
  not_committed = λ k j a e f.
      i.not_committed k j a (sym (pending-set_last_applied ns r s k) ∙ e)
        (sym (committed-set_last_applied ns r s j) ∙ f);
  not_applied = λ k j a e f.
      not_last k j a (sym (pending-set_last_applied ns r s k) ∙ e)
        (sym (last-set_last_applied ns r s j) ∙ f);
  own = λ k j a e f.
      i.own k j a (sym (pending-set_last_applied ns r s k) ∙ e)
        (sym (pending-set_last_applied ns r s j) ∙ f);
  own_map = unfold set_last_applied in i.own_map;
}
  where
    applied : (k : String) (a : ℕ) → (if ns == k then r else last_applied k s) ≡ some a → a < s.next
    applied k a e = elim (Bool-cases (ns == k)) [
      | inl same ↦ bound a (rw same at e)
      | inr other ↦ i.applied_there k a (rw other at e)
    ]

    not_last :
        (k j : String) (a : ℕ)
        → pending k s ≡ some a
        → (if ns == j then r else last_applied j s) ≢ some a
    not_last k j a e f = elim (Bool-cases (ns == j)) [
      | inl same ↦ apart k a (rw same at f) e
      | inr other ↦ i.not_applied k j a e (rw other at f)
    ]

pub shared-Records :
    (ns : String) (s : State)
    → Records ns (committed ns s) s (set_last_applied ns (committed ns s) s)
shared-Records ns s = record {
  grows = record {
    committed_is = committed-set_last_applied ns _ s;
    pending_is = pending-set_last_applied ns _ s;
    known_kept = λ k h. known-set_last_applied ns _ s k ∙ ground (arith, h);
    old = λ a lt. unfold set_last_applied in refl;
    next_grows = unfold set_last_applied in omega arith;
    isolated =
        λ i. set-IsIsolated ns _ s i (i.committed_there ns) (λ k a e f. i.not_committed k ns a f e);
  };
  others = λ k ne. last-set_last_applied ns _ s k ∙ ground (arith, ne);
  own = last-set_last_applied ns _ s ns ∙ ground (arith, eq_iff ns ns);
  known = known-set_last_applied ns _ s ns ∙ ground (arith, eq_iff ns ns);
}

pub alloc-Grows : (c : Config) (s : State) → Grows s (alloc c s).1
unfolding alloc entry_or_new
alloc-Grows c s = record {
  committed_is = λ k. refl;
  pending_is = λ k. refl;
  known_kept = λ k h. h;
  old = λ a lt. ground (arith, lt);
  next_grows = omega arith;
  isolated = λ i. record {
    committed_there = λ k a e. omega (arith, i.committed_there k a e);
    pending_there = λ k a e. omega (arith, i.pending_there k a e);
    applied_there = λ k a e. omega (arith, i.applied_there k a e);
    not_committed = i.not_committed;
    not_applied = i.not_applied;
    own = i.own;
    own_map = λ a. ground (arith, i.own_map a);
  };
}

-- The new object, for a configuration that is none of the state's.
fresh-Grows :
    (ns : String) (c : Config) (s : State)
    → Grows s (set_last_applied ns (some s.next) (alloc c s).1)
fresh-Grows ns c s =
    let t = (alloc c s).1 in
    let g = alloc-Grows c s in
    record {
      committed_is = λ k. committed-set_last_applied ns _ t k ∙ g.committed_is k;
      pending_is = λ k. pending-set_last_applied ns _ t k ∙ g.pending_is k;
      known_kept = λ k h. known-set_last_applied ns _ t k ∙ ground (arith, g.known_kept k h);
      old = λ a lt. unfold set_last_applied in g.old a lt;
      next_grows = unfold set_last_applied in g.next_grows;
      isolated = λ i.
          set-IsIsolated ns (some s.next) t (g.isolated i)
            (λ a e. unfold alloc in ground (arith, e))
            (λ k a e f. ground (arith, e, f, g.pending_is k, i.pending_there k a));
    }

pub fresh-Records :
    (ns : String) (c : Config) (s : State)
    → Records ns (some s.next) s (set_last_applied ns (some s.next) (alloc c s).1)
fresh-Records ns c s = record {
  grows = fresh-Grows ns c s;
  others = λ k ne.
      last-set_last_applied ns _ (alloc c s).1 k ∙ unfold alloc entry_or_new in ground (arith, ne);
  own = last-set_last_applied ns _ (alloc c s).1 ns ∙ ground (arith, eq_iff ns ns);
  known = known-set_last_applied ns _ (alloc c s).1 ns ∙ ground (arith, eq_iff ns ns);
}

pub load-fresh :
    (ns : String) (c : Config) (s : State)
    → load (set_last_applied ns (some s.next) (alloc c s).1) (some s.next) ≡ some c
unfolding set_last_applied alloc
load-fresh ns c s = ground arith
