-- ===== src/Agent/Forward.antt =====
-- internal/application/agent/service.go: forwardBatches, one event of its select at a time. The
-- counters are uint64. A report goes to the progress reporter, an observation to the metrics.
use cap_mesh.Prelude.{
  ℕ, ◌+◌, ◌-◌, ◌%◌, ◌^◌, Bool, true, false, List, [], ◌∷◌, ◌++◌, Option, none, some, if◌then◌else◌,
  not, ◌&&◌, ◌==◌, length, ℤ, pos, negsuc,
}
use cap_mesh.Text.{Text, text, is_empty}
use cap_mesh.Domain.{CaptureSource, Packet, PacketBatch, Time}

pub record CapturedBatch : Type 0 where
  pub packets : List Packet
  pub captured_bytes : ℕ
  pub started_at : Time
  pub build_duration : ℤ
  pub flush_reason : Text

-- What forwardBatches is called with. `send` is the reporter's SendBatch.
pub record Forwarding : Type 0 where
  pub session_id : Text
  pub node_name : Text
  pub source : CaptureSource
  pub has_progress : Bool
  pub has_metrics : Bool
  pub send : PacketBatch → Option Text

pub record Report : Type 0 where
  pub packets_total : ℕ
  pub bytes_total : ℕ
  pub packets_interval : ℕ
  pub bytes_interval : ℕ
  pub final : Bool

pub record Observation : Type 0 where
  pub packets : ℕ
  pub bytes : ℕ
  pub age : ℤ
  pub reason : Text

-- The variables of the loop, and what it has sent, in order. `failures` are the texts of the FAILED
-- statuses; `finished` is true when the function has returned.
pub record Forwarded : Type 0 where
  pub packets_total : ℕ
  pub bytes_total : ℕ
  pub packets_interval : ℕ
  pub bytes_interval : ℕ
  pub reports : List Report
  pub observations : List Observation
  pub sent : List PacketBatch
  pub failures : List Text
  pub finished : Bool

-- An error of the engine that is not context.Canceled is the some of an Option.
pub data Event : Type 0 where
  context_done : Event
  batch_ready : Time → CapturedBatch → Event
  batches_closed : Option Text → Event
  progress_tick : Event
  engine_failed : Option Text → Event

abbrev pub add64 : ℕ → ℕ → ℕ
add64 a b = (a + b) % 2 ^ 64

-- reportProgress
unfoldable pub report_progress : Forwarding → Bool → Forwarded → Forwarded
report_progress f final s =
    if f.has_progress
    then record s {
      packets_interval = 0;
      bytes_interval = 0;
      reports =
          s.reports
          ++ record {
            packets_total = s.packets_total;
            bytes_total = s.bytes_total;
            packets_interval = s.packets_interval;
            bytes_interval = s.bytes_interval;
            final = final;
          }
            ∷ [];
    }
    else s

abbrev pub fail : Option Text → Forwarded → Forwarded
fail e s = elim e [ none ↦ s | some t ↦ record s { failures = s.failures ++ t ∷ [] } ]

-- A return, with the deferred report. A failure is sent before it.
unfoldable pub finish : Forwarding → Option Text → Forwarded → Forwarded
unfolding report_progress
finish f e s = record (report_progress f true (fail e s)) { finished = true }

unfoldable pub captured_length : List Packet → ℕ
captured_length [] = 0
captured_length (p ∷ ps) = p.captured_length + captured_length ps

unfoldable pub batch_bytes : CapturedBatch → ℕ
unfolding captured_length
batch_bytes b = if b.captured_bytes == 0 then captured_length b.packets else b.captured_bytes

abbrev is_positive : ℤ → Bool
is_positive (pos n) = not (n == 0)
is_positive (negsuc n) = false

unfoldable pub observe : Forwarding → Time → CapturedBatch → Forwarded → Forwarded
unfolding batch_bytes
observe f now b s =
    if f.has_metrics
    then record s {
      observations =
          s.observations
          ++ record {
            packets = length b.packets;
            bytes = batch_bytes b;
            age =
                if not (is_positive b.build_duration) && not (b.started_at == 0)
                then pos (now - b.started_at)
                else b.build_duration;
            reason = if is_empty b.flush_reason then text "engine" else b.flush_reason;
          }
            ∷ [];
    }
    else s

unfoldable pub count_batch : CapturedBatch → Forwarded → Forwarded
unfolding batch_bytes
count_batch b s = record s {
  packets_total = add64 s.packets_total (length b.packets);
  bytes_total = add64 s.bytes_total (batch_bytes b);
  packets_interval = add64 s.packets_interval (length b.packets);
  bytes_interval = add64 s.bytes_interval (batch_bytes b);
}

abbrev pub out_batch : Forwarding → CapturedBatch → PacketBatch
out_batch f b = record {
  session_id = f.session_id;
  node_name = f.node_name;
  interface_name = f.source.interface_name;
  source = f.source;
  packets = b.packets;
}

unfoldable pub forward_batch : Forwarding → Time → CapturedBatch → Forwarded → Forwarded
unfolding observe count_batch finish
forward_batch f now b s =
    let s' = observe f now b (count_batch b s) in
    if length b.packets == 0 then s else elim (f.send (out_batch f b)) [
      | some e ↦ finish f (some e) s'
      | none ↦ record s' { sent = s'.sent ++ out_batch f b ∷ [] }
    ]

unfoldable pub on_event : Forwarding → Event → Forwarded → Forwarded
unfolding forward_batch finish report_progress
on_event f context_done s = finish f none s
on_event f (batch_ready now b) s = forward_batch f now b s
on_event f (batches_closed e) s = finish f e s
on_event f progress_tick s = report_progress f false s
on_event f (engine_failed e) s = finish f e s

-- The loop, over the events that it selects.
unfoldable pub forward : Forwarding → List Event → Forwarded → Forwarded
unfolding on_event
forward f [] s = s
forward f (e ∷ es) s = if s.finished then s else forward f es (on_event f e s)
