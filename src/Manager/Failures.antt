-- ===== src/Manager/Failures.antt =====
-- internal/adapter/recording/manager.go: a Start that fails.
use cap_mesh.Prelude.{
  ◌≡◌, refl, ◌∙◌, ◌⊎◌, inl, inr, true, Option, none, some, Result, ok, err, is_ok, arith, ap,
}
use cap_mesh.Text.{Text, text_eq_iff}
use cap_mesh.Map
use cap_mesh.Map.{Map, lookup-insert, lookup-delete}
use cap_mesh.Domain.{Session}
use cap_mesh.Recovery.{RecoveryError, write_recovery}
use cap_mesh.Recorder.{Recorder}
use cap_mesh.Manager.{Manager, ManagerError, StartIo, disk_at}
use cap_mesh.Manager.Start.{
  admit, reserve, release, running_state, persisted, prepare, prepared, admitted, start,
}

-- All but the files of the states to recover is as in `m`.
abbrev pub IsLeft : Manager → Manager → Type 0
IsLeft m n =
    ((id : Text) → Map.lookup id n.active ≡ Map.lookup id m.active)
    × (n.recovery ≡ m.recovery)
    × (n.completed ≡ m.completed)

-- Where there is an error, the manager is left.
abbrev Fails : Manager → Option ManagerError × Manager → Type 0
Fails m (e, n) = (e ≡ none) ⊎ IsLeft m n

freed :
    (id j : Text) (m : Manager)
    → Map.lookup id m.active ≡ none
    → Map.lookup j (Map.delete id (Map.insert id none m.active)) ≡ Map.lookup j m.active
freed id j m unused =
    lookup-delete id j (Map.insert id none m.active)
    ∙ ground (arith, text_eq_iff id j, lookup-insert id j none m.active, unused)

admit-unused :
    (s : Session) (m : Manager) → is_ok (admit s m) ≡ true → Map.lookup s.id m.active ≡ none
unfolding admit
admit-unused s m h = ground arith

prepared-Fails :
    (env : StartIo) (s : Session) (p : Result ManagerError (Text × Recorder)) (m : Manager)
    → Map.lookup s.id m.active ≡ none
    → Fails m (prepared env s p (reserve s.id m))
unfolding prepared reserve release
prepared-Fails env s (err e) m unused = inr ((λ j. freed s.id j m unused), refl, refl)
prepared-Fails env s (ok (path, r)) m unused =
    written
      (write_recovery env.write (running_state s (disk_at path (reserve s.id m)))
        (disk_at path (reserve s.id m))).0
  where
    written :
        (failure : Option RecoveryError)
        → Fails m (
            persisted s path r failure (record (reserve s.id m) {
              disks =
                  Map.insert path
                    (write_recovery env.write
                      (running_state s (disk_at path (reserve s.id m)))
                      (disk_at path (reserve s.id m))).1
                    m.disks;
            }))
    written none = inl refl
    written (some e) = inr ((λ j. freed s.id j m unused), refl, refl)

start-Fails : (env : StartIo) (s : Session) (m : Manager) → Fails m (start env s m)
unfolding start
start-Fails env s m = checked (admit s m) refl
  where
    checked : (a : Result ManagerError (Unit {0})) → admit s m ≡ a → Fails m (admitted env s a m)
    checked (err e) h = unfold admitted in inr ((λ j. refl), refl, refl)
    checked (ok u) h =
        unfold admitted in
        prepared-Fails env s (prepare env s (reserve s.id m)) m (admit-unused s m (ap is_ok h))

-- A Start that reports an error, at whatever point, leaves every active recorder, every path of a
-- state to recover and every usage as it was: the ID that it reserved is free again.
pub start-leaves :
    (env : StartIo) (s : Session) (m : Manager) {e : ManagerError}
    → (start env s m).0 ≡ some e
    → IsLeft m (start env s m).1
start-leaves env s m {e} h = failed (start env s m) h (start-Fails env s m)
  where
    failed : (p : Option ManagerError × Manager) → p.0 ≡ some e → Fails m p → IsLeft m p.1
    failed p h (inl no_error) = absurd (cc)
    failed p h (inr left) = left
