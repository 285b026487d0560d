-- ===== src/Session/Listing/Sorted.antt =====
-- List of internal/application/session/service.go: the order and the choice of its sessions.
use mathlib.Core.List.{Perm}
use mathlib.Core.List.Perm
use cap_mesh.Prelude.{
  ◌≡◌, refl, true, false, not, ◌&&◌, List, [], ◌∷◌, OkThen, OkThen-fail_if, filter, arith, if_elim,
}
use cap_mesh.Text.{Text, text_lt, is_empty, to_upper, trim_space}
use cap_mesh.Domain.{Session}
use cap_mesh.Repository
use cap_mesh.Repository.{Repository}
use cap_mesh.Session.Targets.{bad_status, bad_mode}
use cap_mesh.Session.Listing.{
  is_status, is_mode, selects, precedes, insert_session, sort_sessions, list_sessions,
}

-- No session stands before one that precedes it.
abbrev pub IsSorted : List Session → Type 0
IsSorted [] = Unit
IsSorted (s ∷ []) = Unit
IsSorted (s ∷ t ∷ ts) = (precedes t s ≡ false) × IsSorted (t ∷ ts)

pub text_lt-asym : (t u : Text) → text_lt t u ≡ true → text_lt u t ≡ false
unfolding text_lt
text_lt-asym [] [] h = refl
text_lt-asym [] (y ∷ u) h = refl
text_lt-asym (x ∷ t) [] h = absurd (ground arith)
text_lt-asym (x ∷ t) (y ∷ u) h = ground (arith, text_lt-asym t u)

precedes-asym : (s t : Session) → precedes s t ≡ true → precedes t s ≡ false
unfolding precedes
precedes-asym s t h = ground (arith, text_lt-asym s.id t.id)

insert_session-IsSorted :
    (s : Session) (ts : List Session) → IsSorted ts → IsSorted (insert_session s ts)
unfolding insert_session
insert_session-IsSorted s [] h = tt
insert_session-IsSorted s (t ∷ []) h = ground (arith, precedes-asym t s)
insert_session-IsSorted s (t ∷ u ∷ us) (a, h) =
    ground (arith, precedes-asym t s, insert_session-IsSorted s (u ∷ us) h)

insert_session-perm : (s : Session) (ts : List Session) → Perm (insert_session s ts) (s ∷ ts)
unfolding insert_session
insert_session-perm s [] = Perm.refl (s ∷ [])
insert_session-perm s (t ∷ ts) =
    if_elim (λ l. Perm l (s ∷ t ∷ ts)) (precedes t s)
      (λ _. Perm.trans (Perm.cons t (insert_session-perm s ts)) (Perm.swap s t ts))
      (λ _. Perm.refl (s ∷ t ∷ ts))

sort_sessions-IsSorted : (ss : List Session) → IsSorted (sort_sessions ss)
unfolding sort_sessions
sort_sessions-IsSorted [] = tt
sort_sessions-IsSorted (s ∷ ss) =
    insert_session-IsSorted s (sort_sessions ss) (sort_sessions-IsSorted ss)

sort_sessions-perm : (ss : List Session) → Perm (sort_sessions ss) ss
unfolding sort_sessions
sort_sessions-perm [] = Perm.refl []
sort_sessions-perm (s ∷ ss) =
    Perm.trans (insert_session-perm s (sort_sessions ss)) (Perm.cons s (sort_sessions-perm ss))

-- List, where it accepts its filters, returns exactly the sessions of the repository that they
-- select, each as often as it is there, the newest first and those of one time by their IDs.
list_sessions-IsSorted :
    (status mode : Text) (r : Repository)
    → OkThen
        (λ ss.
          IsSorted ss
          × Perm ss (
              filter
                (selects (to_upper (trim_space status)) (to_upper (trim_space mode)))
                (Repository.list r)))
        (list_sessions status mode r)
unfolding list_sessions
list_sessions-IsSorted status mode r =
    OkThen-fail_if _ (not (is_empty st) && not (is_status st)) bad_status _ (λ _.
      OkThen-fail_if _ (not (is_empty mo) && not (is_mode mo)) bad_mode _
        (λ _. (sort_sessions-IsSorted chosen, sort_sessions-perm chosen)))
  where
    st : Text
    st = to_upper (trim_space status)

    mo : Text
    mo = to_upper (trim_space mode)

    chosen : List Session
    chosen = filter (selects st mo) (Repository.list r)
