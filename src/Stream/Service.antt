-- ===== src/Stream/Service.antt =====
-- The methods of Service and pipeline.
use cap_mesh.Prelude.{
  ℕ, ◌+◌, ◌-◌, ◌*◌, ◌/◌, ◌%◌, ◌^◌, Bool, true, false, not, ◌&&◌, List, [], ◌∷◌, ◌++◌, Option, none,
  some, ltb, ◌==◌, if◌then◌else◌, length, Result, ok, err,
}
use cap_mesh.Text.{Text}
use cap_mesh.Map
use cap_mesh.Map.{Map}
use cap_mesh.Ports.{PortError, not_found, already_exists}
use cap_mesh.Domain.{Packet, PacketBatch, Time}
use cap_mesh.Stream.Heap.{push_packet}
use cap_mesh.Stream.{RebatchConfig, Subscriber, Metrics, Pipeline, Cutoffs, Emission, emit_until}

pub record Service : Type 0 where
  pub pipelines : Map Pipeline
  pub rebatch : RebatchConfig

abbrev no_metrics : Metrics
no_metrics = record {
  received = 0;
  emitted = 0;
  late = 0;
  dropped = 0;
  buffered = 0;
  subscribers = 0;
}

-- A queue size below 1 becomes 1.
unfoldable pub new_pipeline : ℕ → ℕ → RebatchConfig → Pipeline
new_pipeline window queue_size rebatch = record {
  window = window;
  queue_size = if ltb queue_size 1 then 1 else queue_size;
  heap = [];
  subscribers = [];
  gone = [];
  next_id = 0;
  last_emitted = 0;
  closed = false;
  metrics = no_metrics;
  rebatch = rebatch;
}

unfoldable pub open_session : Text → ℕ → ℕ → Service → Result PortError Service
unfolding new_pipeline Map.lookup Map.insert
open_session id window queue_size s = elim (Map.lookup id s.pipelines) [
  | some _ ↦ err already_exists
  | none ↦ ok (record s {
    pipelines = Map.insert id (new_pipeline window queue_size s.rebatch) s.pipelines;
  })
]

abbrev is_late : Time → Packet → Bool
is_late last p = not (last == 0) && ltb p.timestamp last

-- The loop of Publish over the packets of the batch.
unfoldable pub publish_packets : PacketBatch → Time → List Packet → Pipeline → Pipeline
unfolding push_packet
publish_packets batch now [] p = p
publish_packets batch now (k ∷ ks) p = publish_packets batch now ks (record p {
  heap = push_packet batch k now p.heap;
  metrics = record (p.metrics) {
    late = if is_late p.last_emitted k then p.metrics.late + 1 else p.metrics.late;
  };
})

-- Publish on the pipeline that it finds.
unfoldable pub publish_to : PacketBatch → Time → Pipeline → Pipeline
unfolding publish_packets
publish_to batch now p =
    if p.closed
    then p
    else let q = publish_packets batch now batch.packets p in
      record q {
        metrics = record (q.metrics) {
          received = q.metrics.received + length batch.packets;
          buffered = q.metrics.buffered + length batch.packets;
        };
      }

unfoldable pub publish : PacketBatch → Time → Service → Service
unfolding publish_to Map.lookup Map.insert
publish batch now s = elim (Map.lookup batch.session_id s.pipelines) [
  | none ↦ s
  | some p ↦ record s {
    pipelines = Map.insert batch.session_id (publish_to batch now p) s.pipelines;
  }
]

-- subscribe on the pipeline that it finds; `nextID` is a uint64, and an ID is taken to
-- be new, as it is for the first 2^64 subscribers: after those, the Go map overwrites one. The result
-- is the subscriber's id.
unfoldable pub subscribe_to : ℕ → Bool → Pipeline → Result PortError (ℕ × Pipeline)
subscribe_to queue_size disconnect_on_drop p =
    if p.closed
    then err not_found
    else ok (
      p.next_id,
      record p {
        next_id = (p.next_id + 1) % 2 ^ 64;
        subscribers =
            record {
              id = p.next_id;
              queue = [];
              capacity = if ltb queue_size 1 then p.queue_size else queue_size;
              disconnect_on_drop = disconnect_on_drop;
              dropped = false;
              closed = false;
            }
            ∷ p.subscribers;
        metrics = record (p.metrics) { subscribers = p.metrics.subscribers + 1 };
      },
    )

unfoldable pub subscribe : Text → ℕ → Bool → Service → Result PortError (ℕ × Service)
unfolding subscribe_to Map.lookup Map.insert
subscribe id queue_size disconnect_on_drop s = elim (Map.lookup id s.pipelines) [
  | none ↦ err not_found
  | some p ↦ elim (subscribe_to queue_size disconnect_on_drop p) [
    | err e ↦ err e
    | ok (n, q) ↦ ok (n, record s { pipelines = Map.insert id q s.pipelines })
  ]
]

-- The loop of removeSubscriber, over the entries of the map.
unfoldable pub remove_by_id : ℕ → List Subscriber → List Subscriber × List Subscriber
remove_by_id id [] = ([], [])
remove_by_id id (s ∷ subs) =
    let (live, gone) = remove_by_id id subs in
    if s.id == id then (live, record s { closed = true } ∷ gone) else (s ∷ live, gone)

unfoldable pub remove_subscriber : ℕ → Pipeline → Pipeline
unfolding remove_by_id
remove_subscriber id p =
    let (live, gone) = remove_by_id id p.subscribers in
    record p {
      subscribers = live;
      gone = gone ++ p.gone;
      metrics = record (p.metrics) { subscribers = p.metrics.subscribers - length gone };
    }

unfoldable pub close_all : List Subscriber → List Subscriber
close_all [] = []
close_all (s ∷ subs) = record s { closed = true } ∷ close_all subs

-- close: everything that is buffered goes out first.
unfoldable pub close : Pipeline → Emission
unfolding emit_until close_all
close p =
    let e = emit_until (record { timestamp = 0; received = 0; all = true }) p in
    let q = e.pipeline in
    if q.closed then e else record e {
      pipeline = record q {
        closed = true;
        subscribers = [];
        gone = close_all q.subscribers ++ q.gone;
        metrics = record (q.metrics) { subscribers = q.metrics.subscribers - length q.subscribers };
      };
    }

-- CloseSession: the pipeline leaves the map before it is closed, and is handed back here.
unfoldable pub close_session : Text → Service → Service × Option Emission
unfolding close Map.lookup Map.delete
close_session id s = elim (Map.lookup id s.pipelines) [
  | none ↦ (record s { pipelines = Map.delete id s.pipelines }, none)
  | some p ↦ (record s { pipelines = Map.delete id s.pipelines }, some (close p))
]

abbrev millisecond : ℕ
millisecond = 1000000

-- The period of run's ticker.
unfoldable pub tick_interval : ℕ → ℕ
tick_interval window =
    let interval = window / 4 in
    if ltb interval millisecond
    then millisecond
    else if ltb (50 * millisecond) interval
    then 50 * millisecond
    else interval

-- The cutoffs of a tick; the clock is later than the window and the delay are long.
abbrev pub tick_cutoffs : Time → Pipeline → Cutoffs
tick_cutoffs now p = record {
  timestamp = now - p.window;
  received = now - p.rebatch.max_delay;
  all = false;
}

-- A tick or a wake-up of run.
unfoldable pub run_tick : Time → Pipeline → Emission
unfolding emit_until
run_tick now p = emit_until (tick_cutoffs now p) p
