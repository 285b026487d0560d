-- ===== src/Stream.antt =====
-- internal/application/stream/service.go: the reorder buffer and the fan-out of a capture session.
-- A channel is its queue of batches with a capacity. Each method runs under the pipeline's lock, so
-- it is one step. The counters are those of the pipeline's own calls of the metrics port. Times in
-- the metrics are left out.
pub mod Heap
pub mod Emit
pub mod Service
pub mod Invariant
pub mod Runs
mod Tests
use cap_mesh.Prelude.{
  ℕ, zero, suc, ◌+◌, ◌-◌, ◌*◌, ◌/◌, ◌%◌, ◌^◌, ◌≡◌, Bool, true, false, not, ◌&&◌, ◌||◌, List, [],
  ◌∷◌, ◌++◌, Option, none, some, ltb, leb, ◌==◌, if◌then◌else◌, length, Progress, done, more,
  iterate,
}
use cap_mesh.Text.{Text, text_eq}
use cap_mesh.Domain.{Packet, PacketBatch, Time, source_eq}
use Heap.{PacketItem, heap_rest}

pub record RebatchConfig : Type 0 where
  pub max_packets : ℕ
  pub max_bytes : ℕ
  pub max_delay : ℕ

-- NewServiceWithRebatch: a limit below 1 becomes 1. A negative limit or delay acts as 0 does.
unfoldable pub normalize_rebatch : RebatchConfig → RebatchConfig
normalize_rebatch c = record c {
  max_packets = if ltb c.max_packets 1 then 1 else c.max_packets;
  max_bytes = if ltb c.max_bytes 1 then 1 else c.max_bytes;
}

-- A subscriber with what its channel `batches` holds. `dropped` and `closed` tell whether the two
-- channels are closed.
pub record Subscriber : Type 0 where
  pub id : ℕ
  pub queue : List PacketBatch
  pub capacity : ℕ
  pub disconnect_on_drop : Bool
  pub dropped : Bool
  pub closed : Bool

pub data FlushReason : Type 0 where
  watermark packets bytes shutdown : FlushReason

pub record Metrics : Type 0 where
  pub received : ℕ
  pub emitted : ℕ
  pub late : ℕ
  pub dropped : ℕ
  pub buffered : ℕ
  pub subscribers : ℕ

-- `gone` holds the subscribers that were removed: their channels are closed, but may still be read.
pub record Pipeline : Type 0 where
  pub window : ℕ
  pub queue_size : ℕ
  pub heap : List PacketItem
  pub subscribers : List Subscriber
  pub gone : List Subscriber
  pub next_id : ℕ
  pub last_emitted : Time
  pub closed : Bool
  pub metrics : Metrics
  pub rebatch : RebatchConfig

-- The arguments of emitUntil.
pub record Cutoffs : Type 0 where
  pub timestamp : Time
  pub received : Time
  pub all : Bool

unfoldable pub same_batch_stream : PacketBatch → PacketBatch → Bool
unfolding source_eq
same_batch_stream a b =
    text_eq a.session_id b.session_id
    && text_eq a.node_name b.node_name
    && text_eq a.interface_name b.interface_name
    && source_eq a.source b.source

-- The test at the head of both loops of emitUntil.
unfoldable pub waits : Cutoffs → PacketItem → Bool
waits c item =
    not c.all && (ltb c.timestamp item.packet.timestamp || ltb c.received item.received_at)

-- The variables of the inner loop of emitUntil.
pub record Gather : Type 0 where
  pub heap : List PacketItem
  pub packets : List Packet
  pub bytes : ℕ
  pub reason : FlushReason
  pub last_emitted : Time
  pub buffered : ℕ

unfoldable pub is_full : RebatchConfig → Gather → Bool
is_full c g = leb c.max_packets (length g.packets) || leb c.max_bytes g.bytes

unfoldable pub overflows : RebatchConfig → Gather → PacketItem → Bool
overflows c g item =
    ltb 0 (length g.packets)
    && (leb c.max_packets (length g.packets)
        || ltb c.max_bytes (g.bytes + item.packet.captured_length))

unfoldable pub limit_reason : RebatchConfig → Gather → FlushReason
limit_reason c g = if leb c.max_packets (length g.packets) then packets else bytes

-- The item leaves the heap and joins the batch.
unfoldable pub take_item : Gather → PacketItem → Gather
take_item g item = record {
  heap = heap_rest g.heap;
  packets = g.packets ++ item.packet ∷ [];
  bytes = g.bytes + item.packet.captured_length;
  reason = g.reason;
  last_emitted = item.packet.timestamp;
  buffered = g.buffered - 1;
}

unfoldable pub gather_on :
    RebatchConfig → Cutoffs → PacketBatch → Gather → List PacketItem → Progress Gather
unfolding waits same_batch_stream overflows is_full limit_reason take_item
gather_on c cut template g [] = done g
gather_on c cut template g (item ∷ _) =
    let t = take_item g item in
    if waits cut item || not (same_batch_stream template item.template)
    then done g
    else if overflows c g item
    then done (record g { reason = limit_reason c g })
    else if is_full c t
    then done (record t { reason = limit_reason c t })
    else more t

-- One round of the inner loop.
unfoldable pub gather_step : RebatchConfig → Cutoffs → PacketBatch → Gather → Progress Gather
unfolding gather_on
gather_step c cut template g = gather_on c cut template g g.heap

-- The inner loop: it takes one item out of the heap in each round but the last.
unfoldable pub gather : RebatchConfig → Cutoffs → PacketBatch → Gather → Gather
unfolding gather_step
gather c cut template g = iterate (length g.heap + 1) (gather_step c cut template) g

-- The send to one subscriber, which never blocks.
pub data Delivery : Type 0 where
  delivered : Subscriber → Delivery
  missed : Subscriber → Delivery
  disconnected : Subscriber → Delivery

unfoldable pub deliver : PacketBatch → Subscriber → Delivery
deliver batch s =
    if ltb (length s.queue) s.capacity
    then delivered (record s { queue = s.queue ++ batch ∷ [] })
    else if s.disconnect_on_drop
    then disconnected (record s { dropped = true; closed = true })
    else missed s

pub record Fanout : Type 0 where
  pub live : List Subscriber
  pub gone : List Subscriber
  pub deliveries : ℕ
  pub drops : ℕ

unfoldable pub add_delivery : Delivery → Fanout → Fanout
add_delivery (delivered s) f = record f { live = s ∷ f.live; deliveries = f.deliveries + 1 }
add_delivery (missed s) f = record f { live = s ∷ f.live; drops = f.drops + 1 }
add_delivery (disconnected s) f = record f { gone = s ∷ f.gone; drops = f.drops + 1 }

-- The loop over the subscribers.
unfoldable pub fan_out : PacketBatch → List Subscriber → Fanout
unfolding deliver add_delivery
fan_out batch [] = record { live = []; gone = []; deliveries = 0; drops = 0 }
fan_out batch (s ∷ subs) = add_delivery (deliver batch s) (fan_out batch subs)

-- A pipeline with the batches that emitUntil has sent so far, and the reason of each.
pub record Emission : Type 0 where
  pub pipeline : Pipeline
  pub batches : List PacketBatch
  pub reasons : List FlushReason

abbrev flush_reason : Bool → FlushReason → FlushReason
flush_reason true watermark = shutdown
flush_reason _ r = r

abbrev start_gather : Pipeline → Gather
start_gather p = record {
  heap = p.heap;
  packets = [];
  bytes = 0;
  reason = watermark;
  last_emitted = p.last_emitted;
  buffered = p.metrics.buffered;
}

-- What follows the inner loop in a round of the outer one.
unfoldable pub send_batch : Cutoffs → PacketBatch → Gather → Emission → Emission
unfolding fan_out
send_batch cut template g e =
    let p = e.pipeline in
    let batch : PacketBatch = record template { packets = g.packets } in
    let f = fan_out batch p.subscribers in
    record {
      pipeline = record p {
        heap = g.heap;
        subscribers = f.live;
        gone = f.gone ++ p.gone;
        last_emitted = g.last_emitted;
        metrics = record (p.metrics) {
          emitted = p.metrics.emitted + length g.packets;
          dropped = p.metrics.dropped + f.drops * length g.packets;
          buffered = g.buffered;
          subscribers = p.metrics.subscribers - length f.gone;
        };
      };
      batches = e.batches ++ batch ∷ [];
      reasons = e.reasons ++ flush_reason cut.all g.reason ∷ [];
    }

unfoldable pub emit_on : Cutoffs → Emission → List PacketItem → Progress Emission
unfolding gather send_batch waits
emit_on cut e [] = done e
emit_on cut e (first ∷ _) =
    if waits cut first
    then done e
    else more (
        send_batch cut first.template
          (gather e.pipeline.rebatch cut first.template (start_gather e.pipeline)) e)

-- One round of the outer loop.
unfoldable pub emit_step : Cutoffs → Emission → Progress Emission
unfolding emit_on
emit_step cut e = emit_on cut e e.pipeline.heap

-- emitUntil; every round but the last takes at least one packet out of the heap.
unfoldable pub emit_until : Cutoffs → Pipeline → Emission
unfolding emit_step
emit_until cut p =
    iterate (length p.heap + 1) (emit_step cut)
      (record { pipeline = p; batches = []; reasons = [] })
