-- ===== src/H264/Sequence.antt =====
-- internal/jetkvm/video.go: the packets of one access unit, put in order by their 16-bit sequence
-- numbers (sequenceWithinReorderWindow, observeSequence and orderedPackets).
use jetkvm_mcp.Base.{
  ℕ, zero, suc, ◌+◌, ◌-◌, ◌%◌, Bool, true, false, not, ◌&&◌, ◌||◌, Option, none, some, List, [],
  ◌∷◌, ◌==◌, ltb, leb, length, if◌then◌else◌,
}
use jetkvm_mcp.Base.Assoc.{lookup}
use jetkvm_mcp.H264.Nal.{Bytes, max_h264_packets}

-- The fields of an `rtp.Packet` that the code reads; `other` is the rest of its header.
pub record Packet : Type 0 where
  pub version : ℕ
  pub marker : Bool
  pub sequence_number : ℕ
  pub timestamp : ℕ
  pub payload : Bytes
  pub other : Bytes

pub record ObservedPacket : Type 0 where
  pub packet : Packet
  pub generation : ℕ
  pub observed_at : ℕ

-- `pendingH264Unit`; times are nanoseconds, and 0 is the zero time.
pub record Pending : Type 0 where
  pub timestamp : ℕ
  pub packets : List (ℕ × ObservedPacket)
  pub expected_set : Bool
  pub expected : ℕ
  pub reorder_next : ℕ
  pub reorder_base : ℕ
  pub frontier_set : Bool
  pub frontier : ℕ
  pub marker_set : Bool
  pub marker_explicit : Bool
  pub marker : ℕ
  pub last_observed : ℕ
  pub payload_bytes : ℕ
  pub min_generation : ℕ

abbrev pub max_h264_reorder_window : ℕ
max_h264_reorder_window = 64

-- `a + b` and `a - b` on uint16
unfoldable pub add16 : ℕ → ℕ → ℕ
add16 a b = (a + b) % 65536

unfoldable pub sub16 : ℕ → ℕ → ℕ
sub16 a b = (a + (65536 - b)) % 65536

abbrev pub half : ℕ
half = 32768

-- Whether a sequence number is in the window, and the unit with the window moved.
unfoldable pub sequence_within_reorder_window : ℕ → Pending → Bool × Pending
sequence_within_reorder_window sequence p =
    let forward = sub16 sequence p.reorder_base in
    let backward = sub16 p.reorder_base sequence in
    let span = sub16 p.frontier sequence in
    let moved = record p { reorder_next = sequence; reorder_base = sequence } in
    let lowered = record p { reorder_next = sequence } in
    if p.expected_set
    then (ltb (sub16 sequence p.reorder_next) max_h264_reorder_window, p)
    else if not p.frontier_set
    then (true, moved)
    else if ltb forward half
    then (leb forward max_h264_reorder_window, p)
    else if ltb max_h264_reorder_window backward
        || (ltb span half && ltb max_h264_reorder_window span)
    then (false, p)
    else (true, lowered)

unfoldable pub observe_sequence : ℕ → Pending → Pending
observe_sequence sequence p =
    let distance = sub16 sequence p.frontier in
    let first = record p { frontier_set = true; frontier = sequence } in
    let further = record p { frontier = sequence } in
    if not p.frontier_set then first else if ltb 0 distance && ltb distance half then further else p

-- The loop that moves `reorderNext` past the packets that have arrived, with fuel.
unfoldable pub skip_arrived : ℕ → List (ℕ × ObservedPacket) → ℕ → ℕ
skip_arrived zero packets next = next
skip_arrived (suc f) packets next = elim (lookup next packets) [
  | none ↦ next
  | some o ↦ skip_arrived f packets (add16 next 1)
]

-- The distance from the marker of the packet that is furthest from it; `none` is an invalid unit.
unfoldable pub furthest : ℕ → List (ℕ × ObservedPacket) → ℕ → Option ℕ
furthest marker [] far = some far
furthest marker ((sequence, o) ∷ packets) far =
    let distance = sub16 marker sequence in
    let rest = furthest marker packets (if ltb far distance then distance else far) in
    if leb max_h264_packets distance then none else rest

abbrev before : Packet → Option (List Packet) → Option (List Packet)
before p none = none
before p (some ps) = some (p ∷ ps)

-- The packets at the distances from one down to 0, or `none` where one is missing.
unfoldable pub collect : ℕ → List (ℕ × ObservedPacket) → ℕ → Option (List Packet)
collect marker packets zero = elim (lookup (sub16 marker 0) packets) [
  | none ↦ none
  | some o ↦ some (o.packet ∷ [])
]
collect marker packets (suc distance) = elim (lookup (sub16 marker (suc distance)) packets) [
  | none ↦ none
  | some o ↦ before o.packet (collect marker packets distance)
]

-- What `orderedPackets` returns.
pub data Ordered : Type 0 where
  invalid incomplete : Ordered
  complete : List Packet → Ordered

abbrev pub completed_by : Option (List Packet) → Ordered
completed_by none = incomplete
completed_by (some ps) = complete ps

abbrev pub ordered_within : Pending → Option ℕ → Ordered
ordered_within p none = invalid
ordered_within p (some far) =
    if suc far == length p.packets
    then completed_by (collect p.marker p.packets far)
    else incomplete

unfoldable pub ordered_packets : Pending → Ordered
ordered_packets p =
    let least = if p.expected_set then sub16 p.marker p.expected else 0 in
    if not p.marker_set
    then incomplete
    else if p.expected_set && leb max_h264_packets least
    then invalid
    else ordered_within p (furthest p.marker p.packets least)
