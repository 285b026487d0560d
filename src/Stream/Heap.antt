-- ===== src/Stream/Heap.antt =====
-- internal/application/stream/heap.go, with the functions of container/heap that it is used by.
-- The field `index` of packetItem is written and never read, and is left out.
pub mod Swap
pub mod Order
use cap_mesh.Prelude.{
  ℕ, zero, suc, ◌+◌, ◌-◌, ◌*◌, ◌/◌, ◌≡◌, Bool, true, false, not, ◌&&◌, ◌||◌, List, [], ◌∷◌, ◌++◌,
  Option, none, some, ltb, ◌==◌, if◌then◌else◌, length, get_elem?, set, take,
}
use cap_mesh.Domain.{Packet, PacketBatch, Time}

pub record PacketItem : Type 0 where
  pub template : PacketBatch
  pub packet : Packet
  pub received_at : Time

-- Less on two packets: by time, and by sequence number at the same time.
unfoldable pub before : Packet → Packet → Bool
before a b =
    if a.timestamp == b.timestamp
    then ltb a.sequence_number b.sequence_number
    else ltb a.timestamp b.timestamp

unfoldable pub item_before : Option PacketItem → Option PacketItem → Bool
unfolding before
item_before none b = false
item_before (some a) none = false
item_before (some a) (some b) = before a.packet b.packet

-- packetHeap.Less; an index out of range does not occur.
unfoldable pub less : List PacketItem → ℕ → ℕ → Bool
less h i j = item_before (get_elem? h i) (get_elem? h j)

-- packetHeap.Swap
unfoldable pub swap : List PacketItem → ℕ → ℕ → List PacketItem
swap h i j = elim (get_elem? h i) [
  | none ↦ h
  | some a ↦ elim (get_elem? h j) [ none ↦ h | some b ↦ set (set h i b) j a ]
]

abbrev pub parent : ℕ → ℕ
parent j = (j - 1) / 2

-- container/heap's up: its loop at most halves the index each time.
unfoldable pub up : ℕ → List PacketItem → ℕ → List PacketItem
unfolding less item_before swap
up zero h j = h
up (suc f) h j =
    let rise = up f (swap h (parent j) j) (parent j) in
    if (parent j == j) || not (less h j (parent j)) then h else rise

-- The child that down compares with: the right one if it is there and smaller.
unfoldable pub child : List PacketItem → ℕ → ℕ → ℕ
unfolding less item_before
child h i n = if ltb (2 * i + 2) n && less h (2 * i + 2) (2 * i + 1) then 2 * i + 2 else 2 * i + 1

-- container/heap's down, over the first n items.
unfoldable pub down : ℕ → List PacketItem → ℕ → ℕ → List PacketItem
unfolding less item_before swap child
down zero h i n = h
down (suc f) h i n =
    let sink = down f (swap h i (child h i n)) (child h i n) n in
    if not (ltb (2 * i + 1) n) || not (less h (child h i n) i) then h else sink

-- heap.Push: packetHeap.Push, then up from the new item.
unfoldable pub heap_push : PacketItem → List PacketItem → List PacketItem
unfolding up
heap_push x h = up (length h + 1) (h ++ x ∷ []) (length h)

-- What heap.Pop leaves: the first item goes to the end, the new first one sinks, and packetHeap.Pop
-- cuts the end off. The item that heap.Pop returns is the first one.
unfoldable pub heap_rest : List PacketItem → List PacketItem
unfolding down
heap_rest h = let n = length h - 1 in take n (down (length h) (swap h 0 n) 0 n)

-- pushPacket: the template is the batch without its packets.
unfoldable pub push_packet : PacketBatch → Packet → Time → List PacketItem → List PacketItem
unfolding heap_push
push_packet batch packet received_at = heap_push (record {
  template = record batch { packets = [] };
  packet = packet;
  received_at = received_at;
})
