-- ===== src/Session/Advance/Open.antt =====
-- internal/application/session/service.go: opening a session adds it to the repository, and is the
-- part that Create and Restore share.
use cap_mesh.Prelude.{
  ◌≡◌, refl, ap, sym, ◌∙◌, subst, true, List, ◌∷◌, Option, none, some, if◌then◌else◌, arith, Result,
  ok, err, if_elim, ◌++◌, is_ok,
}
use cap_mesh.Text.{Text, text_eq, text_eq_iff, text_eq_refl, contains, IsDistinct}
use cap_mesh.Map
use cap_mesh.Map.{Map, lookup-contains, lookup_head, lookup_tail, lookup-insert, insert-IsDistinct}
use cap_mesh.Ports.{PortError, already_exists}
use cap_mesh.Domain.{
  Session, CaptureSource, CaptureTarget, SessionStatus, status_eq, mode_eq, continuous, transition,
  transition_or_same,
}
use cap_mesh.Domain
use cap_mesh.Domain.Lifecycle.{Leads, here}
use cap_mesh.Repository
use cap_mesh.Session.Targets.{SessionError, port}
use cap_mesh.Session.Sources.{Env}
use cap_mesh.Session.Service.{World, close_packets}
use cap_mesh.Session.Advance.{IsKeyed, Advances, Advances-refl, Advances-trans}
use cap_mesh.Session.Create.{open_session, conclude_open}
use cap_mesh.Session.Advance.Running.{save_transition}

create_ok :
    (s : Session) (m r : Repository.Repository)
    → Repository.create s m ≡ ok r
    → (Map.lookup s.id m ≡ none) × (r ≡ Map.insert s.id s m)
unfolding Repository.create
create_ok s m r c = ground arith

created :
    (s : Session) (w : World) (r : Repository.Repository) (opened : List Text)
    → Repository.create s w.sessions ≡ ok r
    → Advances w (record w { sessions = r; opened = opened }) × (Map.lookup s.id r ≡ some s)
created s w r opened c =
    (record { keeps_keys = keyed; leads_on = on }, ground (arith, at s.id, text_eq_refl s.id))
  where
    new : (Map.lookup s.id w.sessions ≡ none) × (r ≡ Map.insert s.id s w.sessions)
    new = create_ok s w.sessions r c

    at :
        (id : Text)
        → Map.lookup id r ≡ (if text_eq s.id id then some s else Map.lookup id w.sessions)
    at id = ap (Map.lookup id) new.1 ∙ lookup-insert s.id id s w.sessions

    keyed : IsKeyed w → IsKeyed (record w { sessions = r; opened = opened })
    keyed (k, d) = (
      (λ id t f. ground (arith, at id, text_eq_iff s.id id, k id t)),
      subst (λ m. IsDistinct (Map.keys m)) (sym new.1) (insert-IsDistinct s.id s w.sessions d),
    )

    on :
        (id : Text) (t : Session)
        → Map.lookup id w.sessions ≡ some t
        → (u : Session) × (Map.lookup id r ≡ some u) × Leads t.status u.status
    on id t f = (t, ground (arith, at id, text_eq_iff s.id id, new.0), here)

conclude_open-Advances :
    (what : Text) (s : Session) (begun : Option Text) (w : World)
    → Map.lookup s.id w.sessions ≡ some s
    → Advances w (conclude_open what s begun w).0
unfolding conclude_open close_packets
conclude_open-Advances what s none w f = Advances-refl
conclude_open-Advances what s (some e) w f =
    save_transition Domain.failed s
      (record (transition_or_same Domain.failed s) { message = what ++ e }) w (close_packets s.id w)
      refl f refl refl

-- What opening a session leaves, and that it is stored where it succeeds.
abbrev pub Opens : Session → World → World × Result SessionError (Unit {0}) → Type 0
Opens s w (w', r) = Advances w w' × (is_ok r ≡ true → Map.lookup s.id w'.sessions ≡ some s)

conclude_open-Opens :
    (what : Text) (s : Session) (begun : Option Text) (w v : World)
    → Map.lookup s.id w.sessions ≡ some s
    → Advances v w
    → Opens s v (conclude_open what s begun w)
unfolding conclude_open
conclude_open-Opens what s none w v f a = (a, λ _. f)
conclude_open-Opens what s (some e) w v f a =
    (Advances-trans a (conclude_open-Advances what s (some e) w f), λ x. absurd (ground arith))

pub open_session-Opens :
    (env : Env) (what : Text) (s : Session) (w : World) → Opens s w (open_session env what s w)
unfolding open_session
open_session-Opens env what s w = by_created (Repository.create s w.sessions) refl
  where
    begun : Option Text
    begun = elim env.recorder [ none ↦ none | some begin ↦ begin s ]

    after : Result PortError Repository.Repository → World × Result SessionError (Unit {0})
    after c = elim c [
      | err e ↦ (w, err (port e))
      | ok r ↦
          if contains w.opened s.id
          then (record w { sessions = r }, err (port already_exists))
          else (conclude_open what s begun (record w { sessions = r; opened = s.id ∷ w.opened }))
    ]

    by_created :
        (c : Result PortError Repository.Repository)
        → Repository.create s w.sessions ≡ c
        → Opens s w (after c)
    by_created (err e) h = (Advances-refl, λ x. absurd (ground arith))
    by_created (ok r) h =
        if_elim (Opens s w) (contains w.opened s.id)
          (λ _. ((created s w r w.opened h).0, λ x. absurd (ground arith)))
          (λ _.
            let (a, f) = created s w r (s.id ∷ w.opened) h in
            conclude_open-Opens what s begun (record w { sessions = r; opened = s.id ∷ w.opened }) w
              f a)
