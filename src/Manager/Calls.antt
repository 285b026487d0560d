-- ===== src/Manager/Calls.antt =====
-- internal/adapter/recording/manager.go: every sequence of calls of Manager and of events of its
-- recorders.
use cap_mesh.Prelude.{
  ◌≡◌, ◌≢◌, refl, sym, subst, ◌⊎◌, inl, inr, true, false, List, [], Option, none, some, is_some,
  Result, ok, err, OkThen, OkThen-bind, if_elim,
}
use cap_mesh.Text.{Text, is_empty}
use cap_mesh.Map
use cap_mesh.Map.{
  Map, AllValues, insert-AllValues, delete-AllValues, lookup-AllValues, lookup-insert,
  lookup-delete,
}
use cap_mesh.Domain.{Session}
use cap_mesh.Recovery.{RecoveryState, WriteIo, RecoveryError, read_recovery, write_recovery}
use cap_mesh.Recorder.{Recorder, Io}
use cap_mesh.Recorder.Run.{count_packet, Loop, Event, Round, ended, panicked, on_event}
use cap_mesh.Recorder.Run
use cap_mesh.Recorder.Keeps.{Guides, rotate-Kept}
use cap_mesh.Recorder.Rounds.{on_event-Kept, RoundHolds}
use cap_mesh.Recorder.Counts.{IsAccounted, IsAccounted-Kept, IsAccounted-Guides}
use cap_mesh.Recorder.Retained.{IsRolling, HasRoom, IsWithin, IsRolling-Kept, HasRoom-Guides}
use cap_mesh.Recorder.Outcome.{FixedSize-Kept}
use cap_mesh.Manager.{Manager, ManagerError, StartIo, rolls, disk_at}
use cap_mesh.Manager.Start.{
  admit, reserve, release, running_state, persisted, prepare, prepared, admitted, start,
}
use cap_mesh.Manager.Starts.{IsSound, HasLimits, session_directory-HasLimits, set_up-IsSound}
use cap_mesh.Manager.Sessions.{
  finish, after_round, step_active, write_desired, set_desired_at, step, shutdown,
  set_session_desired_state, Visit, recoverable_sessions,
}

-- What holds of an active session: nothing while Start sets it up.
abbrev pub IsSoundOrNone : Option Loop → Type 0
IsSoundOrNone none = Unit
IsSoundOrNone (some l) = IsSound l.recorder

abbrev pub AreSound : Manager → Type 0
AreSound m = AllValues IsSoundOrNone m.active

prepare-IsSound :
    (env : StartIo) (s : Session) (m : Manager) → OkThen (λ (path, r). IsSound r) (prepare env s m)
unfolding prepare
prepare-IsSound env s m =
    OkThen-bind (λ (t : Text). HasLimits m.config (rolls s)) (λ (path, r). IsSound r) _ _
      (session_directory-HasLimits m.config env s)
      (λ directory limits.
        OkThen-bind IsSound (λ (path, r). IsSound r) _ _
          (set_up-IsSound m.config env s directory limits) (λ r sound. sound))

prepared-AreSound :
    (env : StartIo) (s : Session) (p : Result ManagerError (Text × Recorder)) (m : Manager)
    → OkThen (λ (path, r). IsSound r) p
    → AreSound m
    → AreSound (prepared env s p m).1
unfolding prepared release
prepared-AreSound env s (err e) m sound h = delete-AllValues IsSoundOrNone s.id m.active h
prepared-AreSound env s (ok (path, r)) m sound h =
    written (write_recovery env.write (running_state s (disk_at path m)) (disk_at path m)).0
  where
    written :
        (failure : Option RecoveryError)
        → AreSound
            (persisted s path r failure (record m {
              disks =
                  Map.insert path
                    (write_recovery env.write (running_state s (disk_at path m)) (disk_at path m)).1
                    m.disks;
            })).1
    written none = insert-AllValues IsSoundOrNone s.id _ m.active sound h
    written (some e) = delete-AllValues IsSoundOrNone s.id m.active h

start-AreSound :
    (env : StartIo) (s : Session) (m : Manager) → AreSound m → AreSound (start env s m).1
unfolding start reserve
start-AreSound env s m h = admitted_ (admit s m)
  where
    admitted_ : (a : Result ManagerError (Unit {0})) → AreSound (admitted env s a m).1
    admitted_ (err e) = h
    admitted_ (ok _) =
        let reserved = reserve s.id m in
        prepared-AreSound env s (prepare env s reserved) reserved (prepare-IsSound env s reserved)
          (insert-AllValues IsSoundOrNone s.id none m.active tt h)

FixedSize-Guides : Guides (λ r. r.rolling ≡ false) (λ r. is_some r.file ≡ true) (λ r. Unit {0})
unfolding count_packet
FixedSize-Guides = record {
  has_file = λ r one. one;
  counted = λ p f written r h one. refl;
  rotates = λ io r h. (rotate-Kept (λ r. r.rolling ≡ false) FixedSize-Kept io r h).1;
  completes = λ io status message partial r h. tt;
}

-- What a recorder that goes on has beside IsAccounted.
abbrev Rolls : Recorder → Type 0
Rolls r = (r.rolling ≡ false) ⊎ (IsRolling r × HasRoom r)

abbrev AnyEnd : Recorder → Type 0
AnyEnd r = Unit

weaken-fixed :
    (q : Round)
    → RoundHolds (λ r. r.rolling ≡ false) (λ r. is_some r.file ≡ true) AnyEnd q
    → RoundHolds Rolls AnyEnd AnyEnd q
weaken-fixed (Run.running m) (a, b) = (inl a, tt)
weaken-fixed (ended r) a = tt
weaken-fixed panicked a = a

weaken-rolling :
    (q : Round) → RoundHolds IsRolling HasRoom IsWithin q → RoundHolds Rolls AnyEnd AnyEnd q
weaken-rolling (Run.running m) (a, b) = (inr (a, b), tt)
weaken-rolling (ended r) a = tt
weaken-rolling panicked a = a

round-Rolls :
    (io last : Io) (e : Event) (l : Loop)
    → is_some l.recorder.file ≡ true
    → Rolls l.recorder
    → RoundHolds Rolls AnyEnd AnyEnd (on_event io last e l)
round-Rolls io last e l one (inl fixed) = weaken-fixed (on_event io last e l) (
    on_event-Kept (λ r. r.rolling ≡ false) (λ r. is_some r.file ≡ true) AnyEnd FixedSize-Kept
      FixedSize-Guides io last e l fixed one)
round-Rolls io last e l one (inr (rolls_, room)) =
    weaken-rolling (on_event io last e l) (
      on_event-Kept IsRolling HasRoom IsWithin IsRolling-Kept HasRoom-Guides io last e l rolls_
        room)

both_rounds :
    (q : Round)
    → RoundHolds IsAccounted (λ r. is_some r.file ≡ true) IsAccounted q
    → RoundHolds Rolls AnyEnd AnyEnd q
    → RoundHolds IsSound AnyEnd AnyEnd q
both_rounds (Run.running m) (a, b) (c, d) = ((a, b, c), tt)
both_rounds (ended r) a b = tt
both_rounds panicked a b = a

round-IsSound :
    (io last : Io) (e : Event) (l : Loop)
    → IsSound l.recorder
    → RoundHolds IsSound AnyEnd AnyEnd (on_event io last e l)
round-IsSound io last e l (accounted, one, cases) =
    both_rounds (on_event io last e l)
      (on_event-Kept IsAccounted (λ r. is_some r.file ≡ true) IsAccounted IsAccounted-Kept
        IsAccounted-Guides io last e l accounted one)
      (round-Rolls io last e l one cases)

-- A step does not panic, and keeps the recorders in order.
abbrev StepsTo : Option Manager → Type 0
StepsTo none = ⊥
StepsTo (some n) = AreSound n

after_round-StepsTo :
    (id : Text) (q : Round) (m : Manager)
    → RoundHolds IsSound AnyEnd AnyEnd q
    → AreSound m
    → StepsTo (after_round id q m)
unfolding after_round finish
after_round-StepsTo id (Run.running l) m (sound, t) h =
    insert-AllValues IsSoundOrNone id (some l) m.active sound h
after_round-StepsTo id (ended r) m q h = delete-AllValues IsSoundOrNone id m.active h
after_round-StepsTo id panicked m q h = q

step-StepsTo :
    (io last : Io) (e : Event) (id : Text) (m : Manager)
    → AreSound m
    → StepsTo (step io last e id m)
unfolding step
step-StepsTo io last e id m h = active_ (Map.lookup id m.active) refl
  where
    active_ :
        (o : Option (Option Loop))
        → Map.lookup id m.active ≡ o
        → StepsTo (step_active io last e id o m)
    active_ (some (some l)) found =
        unfold step_active in
        after_round-StepsTo id (on_event io last e l) m
          (round-IsSound io last e l (lookup-AllValues IsSoundOrNone id (some l) m.active h found))
          h
    active_ (some none) found = unfold step_active in h
    active_ none found = unfold step_active in h

-- A call of Manager, or an event of the recorder of a session.
pub data Call (m : Manager) : Manager → Type 0 where
  starts : (env : StartIo) (s : Session) → Call m (start env s m).1
  steps :
      {n : Manager} (io last : Io) (e : Event) (id : Text) → step io last e id m ≡ some n → Call m n
  desires :
      (io : WriteIo) (id desired : Text) → Call m (set_session_desired_state io id desired m).1
  scans : (vs : List Visit) → Call m (recoverable_sessions vs m).2
  shuts_down : Call m (shutdown m)

pub data Calls (m : Manager) : Manager → Type 0 where
  no_calls : Calls m m
  one_more : {n o : Manager} → Calls m n → Call n o → Calls m o

-- SetSessionDesiredState leaves the recorders as they are.
set_session_desired_state-active :
    (io : WriteIo) (id desired : Text) (m : Manager)
    → (set_session_desired_state io id desired m).1.active ≡ m.active
unfolding set_session_desired_state
set_session_desired_state-active io id desired m =
    if_elim (λ (s : Option ManagerError × Manager). s.1.active ≡ m.active) _ (λ _. refl)
      (λ _. at_path (Map.lookup id m.recovery))
  where
    wrote :
        (path : Text) (r : Result RecoveryError (RecoveryState Session))
        → (write_desired io desired path r m).1.active ≡ m.active
    wrote path (err e) = unfold write_desired in refl
    wrote path (ok s) = unfold write_desired in refl

    at_path : (o : Option Text) → (set_desired_at io desired o m).1.active ≡ m.active
    at_path none = unfold set_desired_at in refl
    at_path (some path) =
        unfold set_desired_at in
        if_elim (λ (s : Option ManagerError × Manager). s.1.active ≡ m.active) (is_empty path)
          (λ _. refl) (λ _. wrote path (read_recovery (disk_at path m)))

Call-AreSound : {m n : Manager} → Call m n → AreSound m → AreSound n
unfolding shutdown recoverable_sessions
Call-AreSound {m} (starts env s) h = start-AreSound env s m h
Call-AreSound {m} (steps io last e id went) h = subst StepsTo went (step-StepsTo io last e id m h)
Call-AreSound {m} (desires io id desired) h =
    subst (AllValues IsSoundOrNone) (sym (set_session_desired_state-active io id desired m)) h
Call-AreSound (scans vs) h = h
Call-AreSound shuts_down h = h

Calls-AreSound : {m n : Manager} → Calls m n → AreSound m → AreSound n
Calls-AreSound no_calls h = h
Calls-AreSound (one_more cs c) h = Call-AreSound c (Calls-AreSound cs h)

-- From a manager without recorders, after any calls, failed ones included, and any events with any
-- failures of the file system: every active recorder has its file open, its sizes and counters are in
-- order, and one that rolls keeps room for a full segment; and no event makes a recorder panic.
pub Calls-steps :
    {m n : Manager} (io last : Io) (e : Event) (id : Text)
    → m.active ≡ []
    → Calls m n
    → AreSound n × (step io last e id n ≢ none)
Calls-steps {m} {n} io last e id empty cs =
    let sound = Calls-AreSound cs (subst (AllValues IsSoundOrNone) (sym empty) tt) in
    (sound, λ p. subst StepsTo p (step-StepsTo io last e id n sound))
