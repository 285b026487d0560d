-- ===== src/Stream/Emit/Conserve.antt =====
-- emitUntil neither loses nor repeats a packet, and keeps each in its stream.
use mathlib.Core.List.{Perm, append-nil, append_assoc}
use mathlib.Core.List.Perm
use cap_mesh.Prelude.{◌≡◌, refl, sym, ap, subst, true, List, [], ◌∷◌, ◌++◌, map, arith}
use cap_mesh.Text.{Text, text_eq_iff}
use cap_mesh.Domain.{Packet, PacketBatch, CaptureSource, source_eq}
use cap_mesh.Stream.Heap.{PacketItem, heap_rest}
use cap_mesh.Stream.Heap.Swap.{heap_rest-perm}
use cap_mesh.Stream.{
  RebatchConfig, Cutoffs, Gather, Emission, Pipeline, gather, take_item, same_batch_stream,
  emit_until, send_batch, start_gather,
}
use cap_mesh.Stream.Emit.{gather_induction, emit_rule, next_emission}

-- What a batch says of each of its packets.
pub record StreamId : Type 0 where
  pub session_id : Text
  pub node_name : Text
  pub interface_name : Text
  pub source : CaptureSource

abbrev pub stream_of : PacketBatch → StreamId
stream_of b = record {
  session_id = b.session_id;
  node_name = b.node_name;
  interface_name = b.interface_name;
  source = b.source;
}

abbrev pub tagged : StreamId → List Packet → List (StreamId × Packet)
tagged s [] = []
tagged s (p ∷ ps) = (s, p) ∷ tagged s ps

-- The packets of the heap, each with the stream of its template.
abbrev pub pending : List PacketItem → List (StreamId × Packet)
pending [] = []
pending (i ∷ h) = (stream_of i.template, i.packet) ∷ pending h

-- The packets of the batches, in the order in which they are sent.
abbrev pub sent : List PacketBatch → List (StreamId × Packet)
sent [] = []
sent (b ∷ bs) = tagged (stream_of b) b.packets ++ sent bs

tagged-append :
    (s : StreamId) (ps qs : List Packet) → tagged s (ps ++ qs) ≡ tagged s ps ++ tagged s qs
tagged-append s [] qs = refl
tagged-append s (p ∷ ps) qs = cc (tagged-append s ps qs)

sent-append :
    (bs : List PacketBatch) (b : PacketBatch)
    → sent (bs ++ b ∷ []) ≡ sent bs ++ tagged (stream_of b) b.packets
sent-append [] b = append-nil _
sent-append (c ∷ bs) b = rw (sent-append bs b, append_assoc)

source_eq-eq : (a b : CaptureSource) → source_eq a b ≡ true → a ≡ b
unfolding source_eq
source_eq-eq a b h = ground (
  arith,
  text_eq_iff a.id b.id,
  text_eq_iff a.target_id b.target_id,
  text_eq_iff a.target_type b.target_type,
  text_eq_iff a.node_name b.node_name,
  text_eq_iff a.logical_interface b.logical_interface,
  text_eq_iff a.interface_name b.interface_name,
  text_eq_iff a.namespace b.namespace,
  text_eq_iff a.pod_name b.pod_name,
  text_eq_iff a.pod_uid b.pod_uid,
  text_eq_iff a.pod_ip b.pod_ip,
)

same_batch_stream-eq :
    (a b : PacketBatch) → same_batch_stream a b ≡ true → stream_of a ≡ stream_of b
unfolding same_batch_stream
same_batch_stream-eq a b h = ground (
  arith,
  text_eq_iff a.session_id b.session_id,
  text_eq_iff a.node_name b.node_name,
  text_eq_iff a.interface_name b.interface_name,
  source_eq-eq a.source b.source,
)

pending-map : (h : List PacketItem) → pending h ≡ map (λ i. (stream_of i.template, i.packet)) h
pending-map [] = refl
pending-map (i ∷ h) = ap (◌∷◌ (stream_of i.template, i.packet)) (pending-map h)

pub pending-perm : {g h : List PacketItem} → Perm g h → Perm (pending g) (pending h)
pending-perm {g} {h} p = rw (pending-map g, pending-map h) (Perm.map _ p)

-- What a batch in the making and the heap hold between them.
abbrev Kept : StreamId → List (StreamId × Packet) → Gather → Type 0
Kept s whole g = Perm (tagged s g.packets ++ pending g.heap) whole

take_item-Kept :
    (s : StreamId) (whole : List (StreamId × Packet)) (g : Gather) (item : PacketItem)
    (rest : List PacketItem)
    → g.heap ≡ item ∷ rest
    → s ≡ stream_of item.template
    → Kept s whole g
    → Kept s whole (take_item g item)
unfolding take_item
take_item-Kept s whole g item rest e same k =
    let before : Perm (tagged s g.packets ++ (s, item.packet) ∷ pending rest) whole =
      subst (λ t. Perm (tagged s g.packets ++ (t, item.packet) ∷ pending rest) whole) (sym same)
        (subst (λ h. Perm (tagged s g.packets ++ pending h) whole) e k) in
    let moved : Perm (pending (heap_rest g.heap)) (pending rest) =
      rw e (pending-perm (heap_rest-perm item rest)) in
    rw (tagged-append s g.packets (item.packet ∷ []), append_assoc)
      (Perm.trans (Perm.append_left (tagged s g.packets) (Perm.cons (s, item.packet) moved)) before)

gather-Kept :
    (c : RebatchConfig) (cut : Cutoffs) (template : PacketBatch) (g : Gather)
    (whole : List (StreamId × Packet))
    → Kept (stream_of template) whole g
    → Kept (stream_of template) whole (gather c cut template g)
gather-Kept c cut template g whole =
    gather_induction c cut template (Kept (stream_of template) whole)
      (λ a item rest e w s o k.
        take_item-Kept (stream_of template) whole a item rest e
          (same_batch_stream-eq template item.template s) k)
      (λ a r k. k) g

-- The batches and the heap hold between them what the heap held at first.
abbrev Conserved : List (StreamId × Packet) → Emission → Type 0
Conserved whole e = Perm (sent e.batches ++ pending e.pipeline.heap) whole

next_emission-Conserved :
    (whole : List (StreamId × Packet)) (cut : Cutoffs) (e : Emission) (first : PacketItem)
    → Conserved whole e
    → Conserved whole (next_emission cut e first)
unfolding send_batch
next_emission-Conserved whole cut e first k =
    let t = first.template in
    let g = gather e.pipeline.rebatch cut t (start_gather e.pipeline) in
    let kept : Perm (tagged (stream_of t) g.packets ++ pending g.heap) (pending e.pipeline.heap) =
      gather-Kept e.pipeline.rebatch cut t (start_gather e.pipeline) _ (Perm.refl _) in
    rw (sent-append e.batches (record t { packets = g.packets }), append_assoc)
      (Perm.trans (Perm.append_left (sent e.batches) kept) k)

-- emitUntil conserves packets: the packets of the batches that it sends, each with the session, node,
-- interface and source of its batch, together with those that stay in the heap, are the packets that
-- were in the heap, as often and with the same stream.
pub emit_until-conserves :
    (cut : Cutoffs) (p : Pipeline)
    → Perm
        (sent (emit_until cut p).batches ++ pending (emit_until cut p).pipeline.heap)
        (pending p.heap)
emit_until-conserves cut p =
    (emit_rule cut (Conserved (pending p.heap))
      (λ e first rest q w k. next_emission-Conserved (pending p.heap) cut e first k) p
      (Perm.refl _)).0
