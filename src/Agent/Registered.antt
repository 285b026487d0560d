-- ===== src/Agent/Registered.antt =====
-- Start, Stop and remove of internal/application/agent/service.go against the captures registered.
use cap_mesh.Prelude.{
  ℕ, ◌≡◌, refl, ap, sym, ◌∙◌, false, [], ◌∷◌, Option, none, some, if◌then◌else◌, ◌&&◌, ◌||◌, arith,
  if_elim, Option-cases, Bool-cases, inl, inr, Result, ok, err, is_some,
}
use cap_mesh.Text.{Text, text_eq, text_eq_iff, is_empty}
use cap_mesh.Map
use cap_mesh.Map.{Map, lookup-insert, lookup-delete}
use cap_mesh.Domain.{CaptureSource}
use cap_mesh.Agent.{
  StartRequest, Node, AgentError, Agent, sources_of, drop_source, remove, cancel, begin_capture,
  resolve_source, register, start, stop,
}

-- The token under which a source of a session is registered.
abbrev pub token_of : Text → Text → Agent → Option ℕ
token_of session source a = Map.lookup source (sources_of session a)

token_of-drop_source :
    (session source j t : Text) (a : Agent)
    → token_of j t (drop_source session source a)
      ≡ (if text_eq session j && text_eq source t then none else token_of j t a)
unfolding drop_source sources_of Map.lookup
token_of-drop_source session source j t a =
    by_left (Map.delete source (sources_of session a))
      (lookup-delete source t (sources_of session a))
  where
    dropped : Map ℕ → Agent
    dropped left = record a {
      captures = elim left [
        | [] ↦ Map.delete session a.captures
        | x ∷ xs ↦ Map.insert session (x ∷ xs) a.captures
      ];
    }

    by_left :
        (left : Map ℕ)
        → Map.lookup t left
          ≡ (if text_eq source t then none else Map.lookup t (sources_of session a))
        → token_of j t (dropped left)
          ≡ (if text_eq session j && text_eq source t then none else token_of j t a)
    by_left [] h = ground (arith, text_eq_iff session j, lookup-delete session j a.captures)
    by_left (x ∷ xs) h =
        ground (arith, text_eq_iff session j, lookup-insert session j (x ∷ xs) a.captures)

token_of-remove :
    (session source j t : Text) (a : Agent)
    → token_of j t (remove session source a)
      ≡ (if text_eq session j && text_eq source t then none else token_of j t a)
unfolding remove sources_of Map.lookup
token_of-remove session source j t a = elim (Option-cases (Map.lookup session a.captures)) [
  | inl e ↦ ground (arith, text_eq_iff session j)
  | inr (m, e) ↦ rw (remove, e) (token_of-drop_source session source j t a)
]

token_of-register :
    (session source j t : Text) (a : Agent)
    → token_of j t (register session source a)
      ≡ (if text_eq session j && text_eq source t then some a.next else token_of j t a)
unfolding register sources_of Map.lookup
token_of-register session source j t a = ground (
  arith,
  text_eq_iff session j,
  lookup-insert session j (Map.insert source a.next (sources_of session a)) a.captures,
  lookup-insert source t a.next (sources_of session a),
)

begin_capture-fails :
    (node : Node) (request : StartRequest) (s : CaptureSource) (token : ℕ) (a : Agent) (j t : Text)
    (e : AgentError)
    → (begin_capture node request s token a).1 ≡ some e
    → token_of j t (begin_capture node request s token a).0
      ≡ (if text_eq request.session_id j && text_eq s.id t then none else token_of j t a)
unfolding begin_capture
begin_capture-fails node request s token a j t e h = ground (
  arith,
  token_of-remove request.session_id s.id j t a,
  token_of-remove request.session_id s.id j t (cancel token a),
)

undone :
    (session source j t : Text) (a : Agent)
    → token_of session source a ≡ none
    → (if text_eq session j && text_eq source t
        then none
        else token_of j t (register session source a))
      ≡ token_of j t a
undone session source j t a f = elim (Bool-cases (text_eq session j)) [
  | inl e ↦ elim (Bool-cases (text_eq source t)) [
    | inl h ↦
        rw (e, h)
          (sym f
            ∙ (ap (λ k. token_of k source a) ((text_eq_iff session j).0 e)
                ∙ ap (λ k. token_of j k a) ((text_eq_iff source t).0 h)))
    | inr h ↦ ground (arith, token_of-register session source j t a)
  ]
  | inr e ↦ ground (arith, token_of-register session source j t a)
]

-- A Start that fails leaves every source registered as it was.
pub start-keeps :
    (node : Node) (request : StartRequest) (a : Agent) (j t : Text) (e : AgentError)
    → (start node request a).1 ≡ some e
    → token_of j t (start node request a).0 ≡ token_of j t a
unfolding start
start-keeps node request a j t e h = by_resolved (resolve_source node request) h
  where
    after : Result AgentError CaptureSource → Agent × Option AgentError
    after r = elim r [
      | err e ↦ (a, some e)
      | ok s ↦
          if is_some (token_of request.session_id s.id a)
          then (a, none)
          else (begin_capture node request s a.next (register request.session_id s.id a))
    ]

    by_resolved :
        (r : Result AgentError CaptureSource)
        → (after r).1 ≡ some e
        → token_of j t (after r).0 ≡ token_of j t a
    by_resolved (err e') h = refl
    by_resolved (ok s) h = by_token (token_of request.session_id s.id a) refl h
      where
        b : Agent × Option AgentError
        b = begin_capture node request s a.next (register request.session_id s.id a)

        chosen : Option ℕ → Agent × Option AgentError
        chosen o = if is_some o then (a, none) else b

        by_token :
            (o : Option ℕ)
            → token_of request.session_id s.id a ≡ o
            → (chosen o).1 ≡ some e
            → token_of j t (chosen o).0 ≡ token_of j t a
        by_token (some x) f g = refl
        by_token none f g =
            begin_capture-fails node request s a.next (register request.session_id s.id a) j t e g
            ∙ undone request.session_id s.id j t a f

-- Stop of a session without a source leaves none of its sources registered, Stop of one source
-- leaves that source unregistered, and both leave all others as they were, also where the report to
-- the server fails.
stop-token_of :
    (node : Node) (session source j t : Text) (a : Agent)
    → token_of j t (stop node session source a).0 ≡ (
        if text_eq session j && (is_empty source || text_eq source t) then none else token_of j t a)
unfolding stop sources_of Map.lookup
stop-token_of node session source j t a =
    if_elim (λ (b : Agent). token_of j t b ≡ goal) (is_empty source)
      (λ e. ground (arith, lookup-delete session j a.captures))
      (λ e. by_token e (token_of session source a) refl)
  where
    goal : Option ℕ
    goal =
        if text_eq session j && (is_empty source || text_eq source t) then none else token_of j t a

    stopped : Option ℕ → Agent
    stopped o = elim o [ none ↦ a | some token ↦ cancel token (drop_source session source a) ]

    by_token :
        is_empty source ≡ false
        → (o : Option ℕ) → token_of session source a ≡ o
        → token_of j t (stopped o) ≡ goal
    by_token e none f = ground (arith, text_eq_iff session j, text_eq_iff source t)
    by_token e (some token) f = ground (arith, token_of-drop_source session source j t a)
