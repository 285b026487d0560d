-- ===== src/Domain/Lifecycle.antt =====
-- Properties of the session state machine of internal/core/domain/session.go.
use cap_mesh.Prelude.{
  ℕ, ◌≤◌, ◌<◌, ◌≡◌, ◌≢◌, refl, ap, ◌⊎◌, ◌↔◌, inl, inr, true, List, [], ◌∷◌, ok, arith, Bool-cases,
  if_elim, Result, err, is_ok,
}
use cap_mesh.Domain.{
  SessionStatus, starting, running, stopping, stopped, failed, Session, valid, status_eq,
  TransitionError, transition, transition_or_same,
}

-- The diagram of the states, written as a relation of its own.
pub data Edge : SessionStatus → SessionStatus → Type 0 where
  start_done : Edge starting running
  start_stopped : Edge starting stopping
  start_failed : Edge starting failed
  run_stopped : Edge running stopping
  run_failed : Edge running failed
  stop_done : Edge stopping stopped
  stop_failed : Edge stopping failed

-- A path of edges.
pub data Leads : SessionStatus → SessionStatus → Type 0 where
  here : {a : SessionStatus} → Leads a a
  along : {a b c : SessionStatus} → Edge a b → Leads b c → Leads a c

-- How far a session has come: every edge leads upwards.
abbrev pub rank : SessionStatus → ℕ
rank starting = 0
rank running = 1
rank stopping = 2
rank stopped = 3
rank failed = 4

abbrev pub IsTerminal : SessionStatus → Type 0
IsTerminal s = (s ≡ stopped) ⊎ (s ≡ failed)

Edge-rank : {a b : SessionStatus} → Edge a b → rank a < rank b
Edge-rank start_done = omega arith
Edge-rank start_stopped = omega arith
Edge-rank start_failed = omega arith
Edge-rank run_stopped = omega arith
Edge-rank run_failed = omega arith
Edge-rank stop_done = omega arith
Edge-rank stop_failed = omega arith

pub valid-rank : (a b : SessionStatus) → valid a b ≡ true → rank a < rank b
unfolding valid
valid-rank a b h = ground arith

-- What a sequence of calls of Transition leaves, refused ones included.
abbrev pub run_transitions : Session → List SessionStatus → Session
run_transitions s [] = s
run_transitions s (n ∷ ns) = run_transitions (transition_or_same n s) ns

valid-Edge : (a b : SessionStatus) → valid a b ≡ true → Edge a b
unfolding valid
valid-Edge starting starting h = absurd (ground arith)
valid-Edge starting running h = start_done
valid-Edge starting stopping h = start_stopped
valid-Edge starting stopped h = absurd (ground arith)
valid-Edge starting failed h = start_failed
valid-Edge running stopping h = run_stopped
valid-Edge running failed h = run_failed
valid-Edge running starting h = absurd (ground arith)
valid-Edge running running h = absurd (ground arith)
valid-Edge running stopped h = absurd (ground arith)
valid-Edge stopping stopped h = stop_done
valid-Edge stopping failed h = stop_failed
valid-Edge stopping starting h = absurd (ground arith)
valid-Edge stopping running h = absurd (ground arith)
valid-Edge stopping stopping h = absurd (ground arith)
valid-Edge stopped _ h = absurd (ground arith)
valid-Edge failed _ h = absurd (ground arith)

Edge-valid : {a b : SessionStatus} → Edge a b → valid a b ≡ true
unfolding valid
Edge-valid start_done = refl
Edge-valid start_stopped = refl
Edge-valid start_failed = refl
Edge-valid run_stopped = refl
Edge-valid run_failed = refl
Edge-valid stop_done = refl
Edge-valid stop_failed = refl

pub status_eq_iff : (a b : SessionStatus) → (status_eq a b ≡ true) ↔ (a ≡ b)
unfolding status_eq
status_eq_iff a b = ground arith

rank-step : (n : SessionStatus) (s : Session) → rank s.status ≤ rank (transition_or_same n s).status
unfolding transition_or_same
rank-step n s = ground (arith, valid-rank s.status n)

rank-run :
    (s : Session) (ns : List SessionStatus) → rank s.status ≤ rank (run_transitions s ns).status
rank-run s [] = omega arith
rank-run s (n ∷ ns) = omega (arith, rank-step n s, rank-run (transition_or_same n s) ns)

Edge-ends : {a b : SessionStatus} → Edge a b → (a ≢ stopped) × (a ≢ failed)
Edge-ends start_done = (λ e. cc, λ e. cc)
Edge-ends start_stopped = (λ e. cc, λ e. cc)
Edge-ends start_failed = (λ e. cc, λ e. cc)
Edge-ends run_stopped = (λ e. cc, λ e. cc)
Edge-ends run_failed = (λ e. cc, λ e. cc)
Edge-ends stop_done = (λ e. cc, λ e. cc)
Edge-ends stop_failed = (λ e. cc, λ e. cc)

-- Transition has no error exactly when the session is already in the requested status or the diagram
-- has an edge to it. Without an error it changes the status and nothing else.
pub transition-Edge :
    (n : SessionStatus) (s : Session)
    → ((is_ok (transition n s) ≡ true) ↔ ((s.status ≡ n) ⊎ Edge s.status n))
      × (is_ok (transition n s) ≡ true → transition n s ≡ ok (record s { status = n }))
unfolding transition
transition-Edge n s = ((forth, back), changed)
  where
    forth : is_ok (transition n s) ≡ true → (s.status ≡ n) ⊎ Edge s.status n
    forth e = elim (Bool-cases (status_eq s.status n)) [
      | inl same ↦ inl ((status_eq_iff s.status n).0 same)
      | inr other ↦ inr (valid-Edge s.status n (ground (arith, other, e)))
    ]

    back : (s.status ≡ n) ⊎ Edge s.status n → is_ok (transition n s) ≡ true
    back (inl same) = ground (arith, status_eq_iff s.status n)
    back (inr edge) = ground (arith, Edge-valid edge)

    changed : is_ok (transition n s) ≡ true → transition n s ≡ ok (record s { status = n })
    changed e = ground (arith, status_eq_iff s.status n, e)

transition_stuck :
    (n : SessionStatus) (s : Session) → IsTerminal s.status → transition_or_same n s ≡ s
unfolding transition_or_same
transition_stuck n s h = ground arith

rank-left :
    (n : SessionStatus) (s : Session)
    → (transition_or_same n s).status ≢ s.status
    → rank s.status < rank (transition_or_same n s).status
unfolding transition_or_same
rank-left n s h = ground (arith, valid-rank s.status n)

-- A status that a call of Transition has left is never reached again, whatever is called later.
left_for_good :
    (s : Session) (n : SessionStatus) (ns : List SessionStatus)
    → (transition_or_same n s).status ≢ s.status
    → (run_transitions (transition_or_same n s) ns).status ≢ s.status
left_for_good s n ns h e =
    omega (arith, rank-left n s h, rank-run (transition_or_same n s) ns, ap rank e)

pub Leads-trans : {a b c : SessionStatus} → Leads a b → Leads b c → Leads a c
Leads-trans here q = q
Leads-trans (along e p) q = along e (Leads-trans p q)

-- Transition, refused or not, leads along the diagram.
pub transition-Leads :
    (n : SessionStatus) (s : Session) → Leads s.status (transition_or_same n s).status
unfolding transition_or_same
transition-Leads n s =
    if_elim After (status_eq s.status n) (λ _. here)
      (λ _.
        if_elim After (valid s.status n) (λ v. along (valid-Edge s.status n v) here) (λ _. here))
  where
    kept : Result TransitionError Session → Session
    kept r = elim r [ ok t ↦ t | err _ ↦ s ]

    After : Result TransitionError Session → Type 0
    After r = Leads s.status (kept r).status

-- Transition changes nothing but the status.
pub transition-id : (n : SessionStatus) (s : Session) → (transition_or_same n s).id ≡ s.id
unfolding transition_or_same
transition-id n s = ground arith
