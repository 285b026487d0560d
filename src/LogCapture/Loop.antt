-- ===== src/LogCapture/Loop.antt =====
-- internal/application/logcapture/service.go: the events of the goroutine of a job.
use cap_mesh.Prelude.{
  ℕ, true, false, ◌&&◌, ◌||◌, [], ◌∷◌, ◌++◌, Option, none, some, is_some, if◌then◌else◌, Result, ok,
  err, length,
}
use cap_mesh.Text.{Text}
use cap_mesh.Map.{Map}
use cap_mesh.LogCapture.{Followed, LogError, reconcile}
use cap_mesh.LogCapture.Service.{Job, Service, Env, state_eq, stopped, running, failed}

unfoldable pub set_streams : ℕ → Service → Service
set_streams n s = record s { capture = record s.capture { active_streams = n } }

unfoldable pub set_message : Text → Service → Service
set_message m s =
    if state_eq s.capture.status running
    then record s { capture = record s.capture { message = m } }
    else s

unfoldable pub job_done : Env → Option Text → Service → Service
job_done env e s =
    let (size, count) = (let u : ℕ × ℕ = (if is_some s.job then env.usage else (0, 0)) in u) in
    record s {
      capture = record s.capture {
        status = elim e [ none ↦ stopped | some f ↦ failed ];
        message = elim e [ none ↦ [] | some f ↦ f ];
        active_streams = 0;
        retained_size = size;
        segment_count = count;
      };
      job = none;
    }

-- errors.Join
unfoldable pub joined : Option Text → Option Text → Option Text
joined none e = e
joined (some e) none = some e
joined (some e) (some f) = some (e ++ (10 ∷ f))

-- The events of run: a record is written, with the error of that; the ticker; the context is done;
-- a record is written after the loop; and Close, with its error, when there are no more records.
pub data Event : Type 0 where
  wrote : Option Text → Event
  ticked cancelled_seen : Event
  drained closed : Option Text → Event

unfoldable pub end_loop : Option Text → Job → Job
end_loop e j = record j { on = false; cancelled = true; run_err = e }

unfoldable pub reconciled : Env → Job → Result LogError (Map Followed) → Service → Service
unfolding set_streams set_message
reconciled env j (err e) s = set_message (env.describe e) s
reconciled env j (ok streams) s =
    set_message []
      (set_streams (length streams) (record s { job = some (record j { streams = streams }) }))

-- An event that cannot happen in the state of the job changes nothing.
unfoldable pub job_event : Env → Event → Job → Service → Service
unfolding end_loop reconciled reconcile job_done set_streams joined
job_event env (wrote none) j s = s
job_event env (wrote (some e)) j s =
    if j.on then record s { job = some (end_loop (some e) j) } else s
job_event env ticked j s =
    if j.on then reconciled env j (reconcile env.resolve j.targets j.streams) s else s
job_event env cancelled_seen j s =
    if j.on && j.cancelled then record s { job = some (end_loop j.run_err j) } else s
job_event env (drained e) j s =
    if j.on || is_some j.run_err then s else record s { job = some (record j { run_err = e }) }
job_event env (closed e) j s =
    if j.on then s else job_done env (joined j.run_err e) (set_streams 0 s)

unfoldable pub step : Env → Event → Service → Service
unfolding job_event
step env e s = elim s.job [ none ↦ s | some j ↦ job_event env e j s ]
