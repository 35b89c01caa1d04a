-- ===== src/Daemon/Observer/Limit.antt =====
-- The rate limit of the observer's reconciliations, over any sequence of events.
use jack.Base.{
  ℕ, ◌+◌, ◌≤◌, String, ◌==◌, ◌≡◌, Bool, true, false, List, [], ◌∷◌, refl, ◌∙◌, arith, inl, inr,
  Bool-cases, if◌then◌else◌,
}
use jack.Daemon.Observer.Drift.{Networks}
use jack.Daemon.Observer.{
  NetworkObserver, second, mark_change, is_recent_change, Reading, maybe_reconcile, on_drift,
  handle_link_update, handle_addr_update, handle_route_update, Event, link, addr, route, change,
  receive, run, link_drift, addr_drift, route_drift,
}

-- The clock does not run backwards between the check of the limit and the start.
abbrev pub IsForward : Event → Type 0
IsForward (link u r) = r.checked ≤ r.started
IsForward (addr u r) = r.checked ≤ r.started
IsForward (route u r) = r.checked ≤ r.started
IsForward (change now) = Unit

abbrev pub AllForward : List Event → Type 0
AllForward [] = Unit
AllForward (e ∷ es) = IsForward e × AllForward es

-- Each time is at least the interval after the one before.
abbrev pub Spaced : ℕ → ℕ → List ℕ → Type 0
Spaced interval last [] = Unit
Spaced interval last (t ∷ ts) = (last + interval ≤ t) × Spaced interval t ts

-- What one event does to the limit.
record Limits (o : NetworkObserver) (after : Bool × NetworkObserver) : Type 0 where
  interval_kept : after.1.reconcile_interval ≡ o.reconcile_interval
  auto_kept : after.1.auto_reconcile ≡ o.auto_reconcile
  spaced : after.0 ≡ true → o.last_reconcile + o.reconcile_interval ≤ after.1.last_reconcile
  kept : after.0 ≡ false → after.1.last_reconcile ≡ o.last_reconcile

still-Limits : (o : NetworkObserver) → Limits o (false, o)
still-Limits o = record {
  interval_kept = refl;
  auto_kept = refl;
  spaced = λ e. cc;
  kept = λ e. refl;
}

maybe_reconcile-Limits :
    (r : Reading) (o : NetworkObserver) → r.checked ≤ r.started → Limits o (maybe_reconcile r o)
unfolding maybe_reconcile
maybe_reconcile-Limits r o forward = record {
  interval_kept = ground arith;
  auto_kept = ground arith;
  spaced = λ e. ground arith;
  kept = λ e. ground arith;
}

on_drift-Limits :
    (recent : Bool) (drift : String) (r : Reading) (o : NetworkObserver)
    → r.checked ≤ r.started
    → Limits o (if recent then (false, o) else on_drift drift r o)
on_drift-Limits true drift r o forward = still-Limits o
on_drift-Limits false drift r o forward = elim (Bool-cases (drift == "")) [
  | inl e ↦ rw e (still-Limits o)
  | inr ne ↦ rw ne (maybe_reconcile-Limits r o forward)
]

receive-Limits :
    (network : Networks) (e : Event) (o : NetworkObserver)
    → IsForward e
    → Limits o (receive network e o)
unfolding receive handle_link_update handle_addr_update handle_route_update mark_change
receive-Limits network (link u r) o f =
    on_drift-Limits (is_recent_change r.recent o) (link_drift u r) r o f
receive-Limits network (addr u r) o f =
    on_drift-Limits (is_recent_change r.recent o) (addr_drift u r) r o f
receive-Limits network (route u r) o f =
    on_drift-Limits (is_recent_change r.recent o) (route_drift network u r) r o f
receive-Limits network (change now) o f = record {
  interval_kept = refl;
  auto_kept = refl;
  spaced = λ e. cc;
  kept = λ e. refl;
}

-- Whatever events come in whatever order, the reconciliations that the observer starts are at least
-- its interval apart, and the first is at least the interval after the last one before, if the clock
-- does not run backwards while an event is handled.
pub run-Spaced :
    (network : Networks) (es : List Event) (o : NetworkObserver)
    → AllForward es
    → Spaced o.reconcile_interval o.last_reconcile (run network es o).0
unfolding run
run-Spaced network [] o f = tt
run-Spaced network (e ∷ es) o f =
    let step = receive-Limits network e o f.0 in
    let rest = run-Spaced network es (receive network e o).1 f.1 in
    elim (Bool-cases (receive network e o).0) [
      | inl b ↦ rw b (step.spaced b, rw step.interval_kept at rest)
      | inr b ↦ rw b (rw (step.interval_kept, step.kept b) at rest)
    ]

-- Everything that the observer remembers, and everything that an event reads, is at `now` or before.
abbrev pub IsSettled : ℕ → NetworkObserver → Type 0
IsSettled now o = (o.last_change ≤ now) × (o.last_reconcile ≤ now)

abbrev pub IsBefore : ℕ → Event → Type 0
IsBefore now (link u r) = r.started ≤ now
IsBefore now (addr u r) = r.started ≤ now
IsBefore now (route u r) = r.started ≤ now
IsBefore now (change at) = at ≤ now

abbrev pub AllBefore : ℕ → List Event → Type 0
AllBefore now [] = Unit
AllBefore now (e ∷ es) = IsBefore now e × AllBefore now es

on_drift-IsSettled :
    (recent : Bool) (drift : String) (r : Reading) (o : NetworkObserver) (now : ℕ)
    → r.started ≤ now
    → IsSettled now o
    → IsSettled now (if recent then (false, o) else on_drift drift r o).1
unfolding maybe_reconcile
on_drift-IsSettled true drift r o now before settled = settled
on_drift-IsSettled false drift r o now before settled =
    (ground (arith, settled.0), ground (arith, settled.1))

receive-IsSettled :
    (network : Networks) (e : Event) (o : NetworkObserver) (now : ℕ)
    → IsBefore now e
    → IsSettled now o
    → IsSettled now (receive network e o).1
unfolding receive handle_link_update handle_addr_update handle_route_update mark_change
receive-IsSettled network (link u r) o now b s =
    on_drift-IsSettled (is_recent_change r.recent o) (link_drift u r) r o now b s
receive-IsSettled network (addr u r) o now b s =
    on_drift-IsSettled (is_recent_change r.recent o) (addr_drift u r) r o now b s
receive-IsSettled network (route u r) o now b s =
    on_drift-IsSettled (is_recent_change r.recent o) (route_drift network u r) r o now b s
receive-IsSettled network (change at) o now b s = (b, s.1)

run-IsSettled :
    (network : Networks) (es : List Event) (o : NetworkObserver) (now : ℕ)
    → AllForward es
    → AllBefore now es
    → IsSettled now o
    → IsSettled now (run network es o).1
      × ((run network es o).1.reconcile_interval ≡ o.reconcile_interval)
      × ((run network es o).1.auto_reconcile ≡ o.auto_reconcile)
unfolding run
run-IsSettled network [] o now f b s = (s, refl, refl)
run-IsSettled network (e ∷ es) o now f b s =
    let step = receive-Limits network e o f.0 in
    let rest =
      run-IsSettled network es (receive network e o).1 now f.1 b.1
        (receive-IsSettled network e o now b.0 s) in
    (rest.0, rest.1 ∙ step.interval_kept, rest.2 ∙ step.auto_kept)

-- The drift that an event shows against the configuration that it reads.
abbrev pub drift_of : Networks → Event → String
drift_of network (link u r) = link_drift u r
drift_of network (addr u r) = addr_drift u r
drift_of network (route u r) = route_drift network u r
drift_of network (change at) = ""

-- The event comes a second and the interval after `now`.
abbrev pub IsLate : ℕ → ℕ → Event → Type 0
IsLate now interval (link u r) = (now + second ≤ r.recent) × (now + interval ≤ r.checked)
IsLate now interval (addr u r) = (now + second ≤ r.recent) × (now + interval ≤ r.checked)
IsLate now interval (route u r) = (now + second ≤ r.recent) × (now + interval ≤ r.checked)
IsLate now interval (change at) = Unit

late_reconciles :
    (drift : String) (r : Reading) (o : NetworkObserver) (now : ℕ)
    → IsSettled now o
    → o.auto_reconcile ≡ true
    → now + second ≤ r.recent
    → now + o.reconcile_interval ≤ r.checked
    → drift == "" ≡ false
    → (if is_recent_change r.recent o then (false, o) else on_drift drift r o).0 ≡ true
unfolding is_recent_change maybe_reconcile
late_reconciles drift r o now settled auto recent checked drifts =
    ground (arith, settled.0, settled.1)

-- If the observer may reconcile, every drift is acted on that an event shows a second and the
-- interval after all that came before.
pub late_drift_reconciles :
    (network : Networks) (es : List Event) (e : Event) (o : NetworkObserver) (now : ℕ)
    → AllForward es
    → AllBefore now es
    → IsSettled now o
    → o.auto_reconcile ≡ true
    → IsLate now o.reconcile_interval e
    → drift_of network e == "" ≡ false
    → (receive network e (run network es o).1).0 ≡ true
unfolding receive handle_link_update handle_addr_update handle_route_update
late_drift_reconciles network es e o now f b s auto late drifts =
    go e (run network es o).1 (run-IsSettled network es o now f b s) late drifts
  where
    go :
        (e : Event) (o' : NetworkObserver)
        → IsSettled now o'
          × (o'.reconcile_interval ≡ o.reconcile_interval)
          × (o'.auto_reconcile ≡ o.auto_reconcile)
        → IsLate now o.reconcile_interval e
        → drift_of network e == "" ≡ false
        → (receive network e o').0 ≡ true
    go (link u r) o' k late drifts =
        late_reconciles (link_drift u r) r o' now k.0 (k.2 ∙ auto) late.0 (rw k.1 late.1) drifts
    go (addr u r) o' k late drifts =
        late_reconciles (addr_drift u r) r o' now k.0 (k.2 ∙ auto) late.0 (rw k.1 late.1) drifts
    go (route u r) o' k late drifts =
        late_reconciles (route_drift network u r) r o' now k.0 (k.2 ∙ auto) late.0 (rw k.1 late.1)
          drifts
    go (change at) o' k late drifts = absurd (ground (arith, drifts))
