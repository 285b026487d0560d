-- ===== src/Stream/Emit/Limits.antt =====
-- The sizes of the batches that emitUntil sends, and when it stops.
use cap_mesh.Prelude.{
  ℕ, ◌≡◌, ◌≤◌, ◌+◌, refl, subst, ◌⊎◌, inl, true, false, List, [], ◌∷◌, ◌++◌, arith, length,
  length-append, All, All-append,
}
use cap_mesh.Domain.{Packet, PacketBatch}
use cap_mesh.Stream.Heap.{PacketItem}
use cap_mesh.Stream.{
  RebatchConfig, Cutoffs, Gather, Emission, Pipeline, gather, take_item, overflows, waits,
  emit_until, send_batch, start_gather,
}
use cap_mesh.Stream.Emit.{gather_induction, gather-progress, emit_rule, next_emission, NoneDue}

abbrev pub captured_bytes : List Packet → ℕ
captured_bytes [] = 0
captured_bytes (p ∷ ps) = p.captured_length + captured_bytes ps

captured_bytes-append :
    (ps : List Packet) (p : Packet)
    → captured_bytes (ps ++ p ∷ []) ≡ captured_bytes ps + p.captured_length
captured_bytes-append [] p = omega arith
captured_bytes-append (q ∷ ps) p = omega (arith, captured_bytes-append ps p)

-- A batch has a packet, not too many, and not too many bytes unless it is a single packet.
pub record IsWithin (c : RebatchConfig) (ps : List Packet) : Type 0 where
  pub some_packet : 1 ≤ length ps
  pub few : length ps ≤ c.max_packets
  pub light : (captured_bytes ps ≤ c.max_bytes) ⊎ (length ps ≡ 1)

record Light (c : RebatchConfig) (g : Gather) : Type 0 where
  counted : g.bytes ≡ captured_bytes g.packets
  few : length g.packets ≤ c.max_packets
  light : (captured_bytes g.packets ≤ c.max_bytes) ⊎ (length g.packets ≤ 1)

take_item-Light :
    (c : RebatchConfig) (g : Gather) (item : PacketItem)
    → 1 ≤ c.max_packets
    → overflows c g item ≡ false
    → Light c g
    → Light c (take_item g item)
unfolding take_item overflows
take_item-Light c g item m o l =
    ground (
      arith,
      captured_bytes-append g.packets item.packet,
      length-append g.packets (item.packet ∷ []),
    )

gather-Light :
    (c : RebatchConfig) (cut : Cutoffs) (template : PacketBatch) (g : Gather)
    → 1 ≤ c.max_packets
    → Light c g
    → Light c (gather c cut template g)
gather-Light c cut template g m =
    gather_induction c cut template (Light c)
      (λ a item rest e w s o l. take_item-Light c a item m o l)
      (λ a r l. record { counted = l.counted; few = l.few; light = l.light }) g

Light-IsWithin :
    (c : RebatchConfig) (g : Gather) → Light c g → 1 ≤ length g.packets → IsWithin c g.packets
Light-IsWithin c g l one = ground arith

abbrev pub AllWithin : RebatchConfig → List PacketBatch → Type 0
AllWithin c = All (λ b. IsWithin c b.packets)

abbrev Limited : RebatchConfig → Emission → Type 0
Limited c e = (e.pipeline.rebatch ≡ c) × AllWithin c e.batches

next_emission-Limited :
    (c : RebatchConfig) (cut : Cutoffs) (e : Emission) (first : PacketItem) (rest : List PacketItem)
    → 1 ≤ c.max_packets
    → e.pipeline.heap ≡ first ∷ rest
    → waits cut first ≡ false
    → Limited c e
    → Limited c (next_emission cut e first)
unfolding send_batch
next_emission-Limited c cut e first rest m q w (same, within) =
    (same, All-append _ e.batches _ within (new, tt))
  where
    g : Gather
    g = gather e.pipeline.rebatch cut first.template (start_gather e.pipeline)

    light : Light c g
    light =
        subst (λ k. Light k g) same
          (gather-Light e.pipeline.rebatch cut first.template (start_gather e.pipeline) (rw same m)
            (record { counted = refl; few = omega arith; light = inl (omega arith) }))

    new : IsWithin c g.packets
    new =
        let (_, one) =
          gather-progress e.pipeline.rebatch cut (start_gather e.pipeline) first rest q refl w in
        Light-IsWithin c g light one

-- Every batch that emitUntil sends has at least one packet and at most MaxPackets, and its captured
-- bytes are at most MaxBytes unless it is a single packet.
pub emit_until-limits :
    (cut : Cutoffs) (p : Pipeline)
    → 1 ≤ p.rebatch.max_packets
    → AllWithin p.rebatch (emit_until cut p).batches
emit_until-limits cut p m =
    (emit_rule cut (Limited p.rebatch)
      (λ e first rest q w l. next_emission-Limited p.rebatch cut e first rest m q w l) p
      (refl, tt)).0.1

abbrev pub everything : Cutoffs
everything = record { timestamp = 0; received = 0; all = true }

drained : (h : List PacketItem) → NoneDue everything h → h ≡ []
unfolding waits
drained [] n = refl
drained (x ∷ h) n = cc

-- emitUntil with `all` leaves nothing in the heap; with other cutoffs, what it leaves is empty or starts
-- with a packet that is after one of them.
pub emit_until_complete :
    (cut : Cutoffs) (p : Pipeline)
    → NoneDue cut (emit_until cut p).pipeline.heap × ((emit_until everything p).pipeline.heap ≡ [])
emit_until_complete cut p = (
  (emit_rule cut (λ _. Unit {0}) (λ e first rest q w u. tt) p tt).1,
  drained _ (emit_rule everything (λ _. Unit {0}) (λ e first rest q w u. tt) p tt).1,
)
