-- ===== src/Session/Advance.antt =====
-- The order on the states of the session service: no session is lost, and each one's status leads
-- along the diagram of internal/core/domain/session.go.
pub mod Quiet
pub mod Running
pub mod Disconnect
pub mod Open
pub mod Whole
pub mod Resume
pub mod Runs
use cap_mesh.Prelude.{
  ℕ, ◌≡◌, ◌≢◌, refl, ap, sym, ◌∙◌, subst, ◌⊎◌, inl, inr, Bool, true, false, ◌||◌, not, List, [],
  ◌∷◌, Option, none, some, if◌then◌else◌, arith, Bool-cases, Option-cases, if_elim, Result, ok, err,
}
use cap_mesh.Text.{Text, text_eq, text_eq_iff, text_eq_refl, IsDistinct}
use cap_mesh.Map
use cap_mesh.Map.{Map, lookup-insert, lookup-insert_self, insert-IsDistinct}
use cap_mesh.Domain.{Session, SessionStatus, transition_or_same}
use cap_mesh.Domain.Lifecycle.{Leads, here, along, Leads-trans, transition-Leads, transition-id}
use cap_mesh.Repository
use cap_mesh.Session.Service.{World, save}

-- The session under an ID has that ID, and the repository has each ID once.
abbrev pub IsKeyed : World → Type 0
IsKeyed w =
    ((id : Text) (s : Session) → Map.lookup id w.sessions ≡ some s → s.id ≡ id)
    × IsDistinct (Map.keys w.sessions)

pub record Advances (w w' : World) : Type 0 where
  pub keeps_keys : IsKeyed w → IsKeyed w'
  pub leads_on :
      (id : Text) (s : Session)
      → Map.lookup id w.sessions ≡ some s
      → (t : Session) × (Map.lookup id w'.sessions ≡ some t) × Leads s.status t.status

pub Advances-same : {w w' : World} → w'.sessions ≡ w.sessions → Advances w w'
Advances-same e = record {
  keeps_keys = λ k. (
    (λ id s f. k.0 id s (sym (ap (Map.lookup id) e) ∙ f)),
    subst (λ m. IsDistinct (Map.keys m)) (sym e) k.1,
  );
  leads_on = λ id s f. (s, ap (Map.lookup id) e ∙ f, here);
}

pub Advances-refl : {w : World} → Advances w w
Advances-refl = Advances-same refl

pub Advances-trans : {u v w : World} → Advances u v → Advances v w → Advances u w
Advances-trans p q = record {
  keeps_keys = λ k. q.keeps_keys (p.keeps_keys k);
  leads_on = λ id s f.
      let (t, g, a) = p.leads_on id s f in
      let (r, h, b) = q.leads_on id t g in (r, h, Leads-trans a b);
}

pub save-lookup :
    (s : Session) (w : World) (old : Session) (id : Text)
    → Map.lookup s.id w.sessions ≡ some old
    → Map.lookup id (save s w).sessions
      ≡ (if text_eq s.id id then some s else Map.lookup id w.sessions)
unfolding save Repository.update_or_same
save-lookup s w old id f = ground (arith, lookup-insert s.id id s w.sessions)

save-IsDistinct :
    (s : Session) (w : World)
    → IsDistinct (Map.keys w.sessions)
    → IsDistinct (Map.keys (save s w).sessions)
unfolding save Repository.update_or_same
save-IsDistinct s w d = ground (arith, insert-IsDistinct s.id s w.sessions d)

-- Saving a session whose status leads on from the stored one.
pub save-Advances :
    (s : Session) (w : World) (old : Session)
    → Map.lookup s.id w.sessions ≡ some old
    → Leads old.status s.status
    → Advances w (save s w)
save-Advances s w old f l = record { keeps_keys = keyed; leads_on = on }
  where
    keyed : IsKeyed w → IsKeyed (save s w)
    keyed (k, d) = (
      (λ id t g. ground (arith, save-lookup s w old id f, text_eq_iff s.id id, k id t)),
      save-IsDistinct s w d,
    )

    on :
        (id : Text) (r : Session)
        → Map.lookup id w.sessions ≡ some r
        → (t : Session) × (Map.lookup id (save s w).sessions ≡ some t) × Leads r.status t.status
    on id r g = elim (Bool-cases (text_eq s.id id)) [
      | inl e ↦ (
        s,
        ground (arith, save-lookup s w old id f),
        subst (λ x. Leads x s.status) (ground (arith, (text_eq_iff s.id id).0 e)) l,
      )
      | inr e ↦ (r, ground (arith, save-lookup s w old id f), here)
    ]
