-- ===== src/Daemon/Server/Staging.antt =====
-- Staging a changed configuration shows in the pending configuration of its type and nowhere else.
use jack.Base.{
  ℕ, ◌+◌, ◌<◌, String, ◌==◌, ◌≡◌, ◌≢◌, refl, ap, ◌∙◌, none, some, arith, eq_iff, eq_refl, true,
  ◌||◌, is_some, if◌then◌else◌,
}
use jack.Base.Maps.{has, lookup-insert}
use jack.Daemon.Config.{Config}
use jack.Daemon.State.{State, Ref, entry_or_new, load, alloc, store, set_pending}
use jack.Daemon.State.Entries.{entry-set_pending}
use jack.Daemon.State.Isolation.{IsIsolated, committed, pending, last_applied}
use jack.Daemon.Server.{stage}

-- Every address that has been given out refers to an object.
abbrev pub IsFilled : State → Type 0
IsFilled s = (a : ℕ) → a < s.next → is_some (s.heap a) ≡ true

-- `s'` is `s` but for the pending configuration of the type, which is `c`.
pub record Stages (type : String) (c : Config) (s s' : State) : Type 0 where
  pub isolated : IsIsolated s'
  pub pending_is : load s' (pending type s') ≡ some c
  pub pending_same : (k : String) → type ≢ k → pending k s' ≡ pending k s
  pub pending_kept : (k : String) → type ≢ k → load s' (pending k s') ≡ load s (pending k s)
  pub committed_kept : (k : String) → load s' (committed k s') ≡ load s (committed k s)
  pub applied_kept : (k : String) → load s' (last_applied k s') ≡ load s (last_applied k s)
  pub known_kept : (k : String) → has k s'.registry ≡ (type == k || has k s.registry)
  pub filled : IsFilled s → IsFilled s'

-- the heap away from the object that is written
load-store_ne :
    (a : ℕ) (c : Config) (s : State) (r : Ref)
    → ((b : ℕ) → s.map_of b ≡ b)
    → r ≢ some a
    → load (store a c s) r ≡ load s r
unfolding store
load-store_ne a c s none own ne = refl
load-store_ne a c s (some b) own ne = ground (arith, own a, own b)

load-store_self : (a : ℕ) (c : Config) (s : State) → load (store a c s) (some a) ≡ some c
unfolding store
load-store_self a c s = ground arith

-- The pending object of the type is written.
module _ (type : String) (a : ℕ) (c : Config) (s : State) (h : IsIsolated s)
    (at : pending type s ≡ some a) where
  entry-stage : (k : String) → entry_or_new k (stage type (some a) c s) ≡ entry_or_new k s
  entry-stage k =
      entry-set_pending type k (some a) (store a c s)
      ∙ (unfold entry_or_new store in ground (arith, at, eq_iff type k))

  load-stage : (r : Ref) → load (stage type (some a) c s) r ≡ load (store a c s) r
  unfolding set_pending
  load-stage none = refl
  load-stage (some b) = refl

  committed-stage : (k : String) → committed k (stage type (some a) c s) ≡ committed k s
  committed-stage k = ap (λ e. e.committed) (entry-stage k)

  pending-stage : (k : String) → pending k (stage type (some a) c s) ≡ pending k s
  pending-stage k = ap (λ e. e.pending) (entry-stage k)

  applied-stage : (k : String) → last_applied k (stage type (some a) c s) ≡ last_applied k s
  applied-stage k = ap (λ e. e.last_applied) (entry-stage k)

  next-stage : (stage type (some a) c s).next ≡ s.next
  unfolding set_pending store
  next-stage = refl

  known-stage :
      (k : String) → has k (stage type (some a) c s).registry ≡ (type == k || has k s.registry)
  unfolding set_pending store
  known-stage k = rw lookup-insert (ground arith)

  IsFilled-stage : IsFilled s → IsFilled (stage type (some a) c s)
  unfolding set_pending store
  IsFilled-stage full b lt = ground (arith, full b)

  pub stage_pending : Stages type c s (stage type (some a) c s)
  stage_pending = record {
    isolated = record {
      committed_there =
          λ k b e. ground (arith, next-stage, committed-stage k, h.committed_there k b);
      pending_there = λ k b e. ground (arith, next-stage, pending-stage k, h.pending_there k b);
      applied_there = λ k b e. ground (arith, next-stage, applied-stage k, h.applied_there k b);
      not_committed =
          λ i j b e. ground (arith, pending-stage i, committed-stage j, h.not_committed i j b);
      not_applied =
          λ i j b e. ground (arith, pending-stage i, applied-stage j, h.not_applied i j b);
      own = λ i j b e f. ground (arith, pending-stage i, pending-stage j, h.own i j b);
      own_map = unfold set_pending store in h.own_map;
    };
    pending_is = rw (pending-stage type, at, load-stage) (load-store_self a c s);
    pending_same = λ k ne. pending-stage k;
    pending_kept = λ k ne.
        rw (pending-stage k, load-stage)
          (load-store_ne a c s (pending k s) h.own_map (λ e. ne (h.own type k a at e)));
    committed_kept = λ k.
        rw (committed-stage k, load-stage)
          (load-store_ne a c s (committed k s) h.own_map (h.not_committed type k a at));
    applied_kept = λ k.
        rw (applied-stage k, load-stage)
          (load-store_ne a c s (last_applied k s) h.own_map (h.not_applied type k a at));
    known_kept = known-stage;
    filled = IsFilled-stage;
  }

-- A new object becomes the pending one.
module _ (type : String) (c c₀ : Config) (s : State) (h : IsIsolated s) where
  abbrev staged : State
  staged = stage type (some s.next) c (alloc c₀ s).1

  entry-fresh :
      (k : String)
      → entry_or_new k staged ≡ (
          if type == k
          then record (entry_or_new type s) { pending = some s.next }
          else entry_or_new k s)
  entry-fresh k =
      entry-set_pending type k (some s.next) (store s.next c (alloc c₀ s).1)
      ∙ (unfold entry_or_new store alloc in ground arith)

  committed-fresh : (k : String) → committed k staged ≡ committed k s
  committed-fresh k = ap (λ e. e.committed) (entry-fresh k) ∙ ground (arith, eq_iff type k)

  applied-fresh : (k : String) → last_applied k staged ≡ last_applied k s
  applied-fresh k = ap (λ e. e.last_applied) (entry-fresh k) ∙ ground (arith, eq_iff type k)

  pending-fresh : (k : String) → pending k staged ≡ (if type == k then some s.next else pending k s)
  pending-fresh k = ap (λ e. e.pending) (entry-fresh k) ∙ ground arith

  next-fresh : staged.next ≡ s.next + 1
  unfolding set_pending store alloc
  next-fresh = refl

  -- an old object is as it was
  load-old : (r : Ref) → ((a : ℕ) → r ≡ some a → a < s.next) → load staged r ≡ load s r
  unfolding set_pending store alloc
  load-old none old = refl
  load-old (some a) old = ground (arith, old a refl, h.own_map a)

  load-new : load staged (some s.next) ≡ some c
  unfolding set_pending store alloc
  load-new = ground arith

  known-fresh : (k : String) → has k staged.registry ≡ (type == k || has k s.registry)
  unfolding set_pending store alloc
  known-fresh k = rw lookup-insert (ground arith)

  IsFilled-fresh : IsFilled s → IsFilled staged
  unfolding set_pending store alloc
  IsFilled-fresh full b lt = ground (arith, full b)

  pub stage_fresh : Stages type c s staged
  stage_fresh = record {
    isolated = record {
      committed_there =
          λ k b e. ground (arith, next-fresh, committed-fresh k, h.committed_there k b);
      pending_there = λ k b e. ground (arith, next-fresh, pending-fresh k, h.pending_there k b);
      applied_there = λ k b e. ground (arith, next-fresh, applied-fresh k, h.applied_there k b);
      not_committed = λ i j b e f.
          ground (
            arith,
            pending-fresh i,
            committed-fresh j,
            h.not_committed i j b,
            h.committed_there j b,
          );
      not_applied = λ i j b e f.
          ground
            (arith, pending-fresh i, applied-fresh j, h.not_applied i j b, h.applied_there j b);
      own = λ i j b e f. ground (
        arith,
        pending-fresh i,
        pending-fresh j,
        h.own i j b,
        h.pending_there i b,
        h.pending_there j b,
        eq_iff type i,
        eq_iff type j,
      );
      own_map = λ b. unfold set_pending store alloc in ground (arith, h.own_map b);
    };
    pending_is = rw (pending-fresh type, eq_refl type) load-new;
    pending_same = λ k ne. ground (arith, pending-fresh k, eq_iff type k);
    pending_kept = λ k ne.
        let same : pending k staged ≡ pending k s =
          ground (arith, pending-fresh k, eq_iff type k) in
        rw same (load-old (pending k s) (h.pending_there k));
    committed_kept = λ k. rw (committed-fresh k) (load-old (committed k s) (h.committed_there k));
    applied_kept = λ k. rw (applied-fresh k) (load-old (last_applied k s) (h.applied_there k));
    known_kept = known-fresh;
    filled = IsFilled-fresh;
  }
