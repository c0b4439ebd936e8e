-- ===== src/H264/Process.antt =====
-- internal/jetkvm/video.go: what a packet does to the pending unit (process, sameRTPPacket).
use jetkvm_mcp.Base.{
  ℕ, suc, ◌+◌, Bool, true, false, not, ◌&&◌, ◌||◌, Option, none, some, [], ◌==◌, ltb, leb, length,
  if◌then◌else◌,
}
use jetkvm_mcp.Base.Assoc.{assign, lookup}
use jetkvm_mcp.H264.Nal.{Bytes, max_h264_access_unit, max_h264_packets}
use jetkvm_mcp.H264.Sequence.{
  ObservedPacket, Ordered, Packet, Pending, add16, complete, incomplete, invalid, observe_sequence,
  ordered_packets, sequence_within_reorder_window, skip_arrived, sub16,
}
use jetkvm_mcp.H264.AccessUnit.{
  Codec, Parsed, Unit264, bad, bytes_equal, depacketize_h264_access_unit, good, short,
}
use jetkvm_mcp.H264.State.{Drain, Stream, discard_pending, put_pending, reject_completed}
use jetkvm_mcp.H264.Drain.{drain_packet, finish_drain_unit}
use jetkvm_mcp.H264.Ending.{
  quiet, expire, poison_packet, malformed, deliver, finish_at_timestamp_transition, Pushed,
}

abbrev same_bytes : Option Bytes → Option Bytes → Bool
same_bytes (some a) (some b) = bytes_equal a b
same_bytes _ _ = false

unfoldable pub same_rtp_packet : Codec → Packet → Packet → Bool
same_rtp_packet c left right = same_bytes (c.marshal left) (c.marshal right)

-- The unit with a packet put in, and the reorder window moved.
unfoldable pub insert_packet : Packet → ℕ → ℕ → Pending → Pending
insert_packet packet generation observed_at p =
    let observed : ObservedPacket = record {
      packet = packet;
      generation = generation;
      observed_at = observed_at;
    } in
    let packets = assign packet.sequence_number observed p.packets in
    let next = skip_arrived (suc (length packets)) packets p.reorder_next in
    record p {
      packets = packets;
      reorder_next = next;
      reorder_base = if p.expected_set then p.reorder_base else sub16 next 1;
      payload_bytes = p.payload_bytes + length packet.payload;
      min_generation = if ltb generation p.min_generation then generation else p.min_generation;
    }

unfoldable pub mark : Packet → Pending → Pending
mark packet p =
    let marked = record p {
      marker_set = true;
      marker_explicit = true;
      marker = packet.sequence_number;
    } in
    if packet.marker then marked else p

abbrev pub complete_unit : ℕ → ℕ → Bool → Pending → Stream → Parsed Unit264 → Pushed
complete_unit watermark observed_at want_candidate p s short = quiet s
complete_unit watermark observed_at want_candidate p s bad =
    deliver (add16 p.marker 1) watermark observed_at want_candidate p s bad
complete_unit watermark observed_at want_candidate p s (good u) =
    deliver (add16 p.marker 1) watermark observed_at want_candidate p s (good u)

abbrev pub try_ordered : Codec → ℕ → ℕ → Bool → Pending → Stream → Ordered → Pushed
try_ordered c watermark observed_at want_candidate p s invalid = quiet (discard_pending s)
try_ordered c watermark observed_at want_candidate p s incomplete = quiet s
try_ordered c watermark observed_at want_candidate p s (complete packets) =
    complete_unit watermark observed_at want_candidate p s (depacketize_h264_access_unit c packets)

-- The end of `process`, once the packet is in the unit.
unfoldable pub try_complete : Codec → Packet → ℕ → ℕ → Bool → Pending → Stream → Pushed
try_complete c packet watermark observed_at want_candidate p s =
    let marked = mark packet p in
    let other_marker = packet.marker && p.marker_set && not (p.marker == packet.sequence_number) in
    if other_marker
    then quiet (discard_pending (put_pending (some p) s))
    else try_ordered c watermark observed_at want_candidate marked (put_pending (some marked) s)
        (ordered_packets marked)

abbrev pub admit : Codec → Packet → ℕ → ℕ → ℕ → Bool → Stream → Bool × Pending → Pushed
admit c packet generation watermark observed_at want_candidate s (false, p) = quiet (
    discard_pending
      (put_pending (some (mark packet (observe_sequence packet.sequence_number p))) s))
admit c packet generation watermark observed_at want_candidate s (true, p) =
    let seen = observe_sequence packet.sequence_number p in
    if leb max_h264_packets (length seen.packets)
      || ltb max_h264_access_unit (seen.payload_bytes + length packet.payload)
    then quiet (discard_pending (put_pending (some seen) s))
    else try_complete c packet watermark observed_at want_candidate
        (insert_packet packet generation observed_at seen) s

abbrev pub duplicate_or :
    Codec → Packet → ℕ → ℕ → ℕ → Bool → Stream → Pending → Option ObservedPacket → Pushed
duplicate_or c packet generation watermark observed_at want_candidate s p (some existing) =
    if same_rtp_packet c existing.packet packet
    then quiet (put_pending (some p) s)
    else quiet (discard_pending (put_pending (some p) s))
duplicate_or c packet generation watermark observed_at want_candidate s p none =
    admit c packet generation watermark observed_at want_candidate s
      (sequence_within_reorder_window packet.sequence_number p)

abbrev pub new_pending : Packet → ℕ → Stream → Pending
new_pending packet generation s = record {
  timestamp = packet.timestamp;
  packets = [];
  expected_set = s.anchor.have_next;
  expected = s.anchor.next_sequence;
  reorder_next = s.anchor.next_sequence;
  reorder_base = 0;
  frontier_set = false;
  frontier = 0;
  marker_set = false;
  marker_explicit = false;
  marker = 0;
  last_observed = 0;
  payload_bytes = 0;
  min_generation = generation;
}

abbrev pub pending_unit : Packet → ℕ → Stream → Option Pending → Pending
pending_unit packet generation s none = new_pending packet generation s
pending_unit packet generation s (some p) = p

-- The packet joins the pending unit, or a new one.
unfoldable pub join_pending : Codec → Packet → ℕ → ℕ → ℕ → Bool → Stream → Pushed
join_pending c packet generation watermark observed_at want_candidate s =
    let unit = pending_unit packet generation s s.pending in
    let p = record unit { last_observed = observed_at } in
    duplicate_or c packet generation watermark observed_at want_candidate s p
      (lookup packet.sequence_number p.packets)

abbrev pub other_pending : ℕ → Option Pending → Bool
other_pending timestamp none = false
other_pending timestamp (some p) = not (p.timestamp == timestamp)

-- A unit that the change of timestamp completed is returned, and the packet processed behind it.
abbrev pub after_transition : (Stream → Stream) → (Stream → Pushed) → Stream → Option Bytes → Pushed
after_transition again join s (some data_) = record { stream = again s; candidate = some data_ }
after_transition again join s none = join s

-- No unit is draining: the pending unit ends, if it is another, and the packet joins the next.
unfoldable pub process_ready :
    Codec → (Stream → Stream) → Packet → ℕ → ℕ → ℕ → Bool → Stream → Pushed
process_ready c again packet generation watermark observed_at want_candidate s =
    let join = join_pending c packet generation watermark observed_at want_candidate in
    let r =
      finish_at_timestamp_transition c packet.sequence_number watermark observed_at want_candidate
        s in
    if other_pending packet.timestamp s.pending
    then after_transition again join r.stream r.candidate
    else join s

abbrev pub process_draining :
    Codec → (Stream → Stream) → Packet → ℕ → ℕ → ℕ → Bool → Stream → Option Drain → Pushed
process_draining c again packet generation watermark observed_at want_candidate s none =
    process_ready c again packet generation watermark observed_at want_candidate s
process_draining c again packet generation watermark observed_at want_candidate s (some d) =
    if d.timestamp == packet.timestamp
    then quiet (drain_packet packet observed_at s)
    else process_ready c again packet generation watermark observed_at want_candidate
        (finish_drain_unit packet.sequence_number false s)

-- `process`, with its recursive call as an argument.
abbrev pub process_rejected :
    Codec → (Stream → Stream) → Packet → ℕ → ℕ → ℕ → Bool → Bool × Stream → Pushed
process_rejected c again packet generation watermark observed_at want_candidate (true, s) = quiet s
process_rejected c again packet generation watermark observed_at want_candidate (false, s) =
    process_draining c again packet generation watermark observed_at want_candidate s s.draining

unfoldable pub process_with :
    Codec → (Stream → Stream) → Packet → ℕ → ℕ → ℕ → Bool → Stream → Pushed
process_with c again packet generation watermark observed_at want_candidate s =
    let t = expire observed_at s in
    if malformed packet
    then quiet (poison_packet packet t)
    else process_rejected c again packet generation watermark observed_at want_candidate
        (reject_completed packet t)

-- The recursive call stands behind a transition that emptied `pending`, and recurs no further.
unfoldable pub process_behind : Codec → Packet → ℕ → ℕ → ℕ → Stream → Stream
process_behind c packet generation watermark observed_at s =
    (process_with c (λ t. t) packet generation watermark observed_at false s).stream

unfoldable pub process : Codec → Packet → ℕ → ℕ → ℕ → Bool → Stream → Pushed
process c packet generation watermark observed_at want_candidate s =
    process_with c (process_behind c packet generation watermark observed_at) packet generation
      watermark observed_at want_candidate s
