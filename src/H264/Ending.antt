-- ===== src/H264/Ending.antt =====
-- internal/jetkvm/video.go: how a unit ends (expire, poisonPacket, accept as of a time, and
-- finishAtTimestampTransition).
use jetkvm_mcp.Base.{
  ℕ, ◌-◌, Bool, true, not, ◌&&◌, ◌||◌, Option, none, some, ◌==◌, leb, is_empty, is_some,
  if◌then◌else◌,
}
use jetkvm_mcp.Base.Assoc.{assign, lookup}
use jetkvm_mcp.H264.Nal.{Bytes}
use jetkvm_mcp.H264.Sequence.{
  ObservedPacket, Ordered, Packet, Pending, add16, complete, ordered_packets, sub16,
}
use jetkvm_mcp.H264.AccessUnit.{Codec, Parsed, Unit264, depacketize_h264_access_unit, good}
use jetkvm_mcp.H264.Parameters.{accept}
use jetkvm_mcp.H264.State.{
  Drain, Stream, clear_sequence_anchor, discard_pending, put_draining, put_pending,
  remember_completed, set_sequence_anchor,
}

abbrev pub max_h264_gap : ℕ
max_h264_gap = 200000000

-- A stream, with the candidate that the call returned.
pub record Pushed : Type 0 where
  pub stream : Stream
  pub candidate : Option Bytes

abbrev pub quiet : Stream → Pushed
quiet s = record { stream = s; candidate = none }

-- A time that is set and at least the gap ago.
abbrev pub gone : ℕ → ℕ → Bool
gone observed_at last_observed =
    not (last_observed == 0) && leb max_h264_gap (observed_at - last_observed)

abbrev pub expire_pending : ℕ → Stream → Option Pending → Stream
expire_pending observed_at s none = s
expire_pending observed_at s (some p) =
    if gone observed_at p.last_observed then discard_pending s else s

abbrev pub expire_draining : ℕ → Stream → Option Drain → Stream
expire_draining observed_at s none = s
expire_draining observed_at s (some d) =
    let done =
      remember_completed d.timestamp d.last_sequence d.have_sequence (put_draining none s) in
    let sound = d.have_sequence && not d.invalid && not d.fu.open_ && not d.sequence_gap in
    if not (gone observed_at d.last_observed)
    then s
    else if sound
    then set_sequence_anchor d.timestamp (add16 d.last_sequence 1) done
    else clear_sequence_anchor done

unfoldable pub expire : ℕ → Stream → Stream
expire observed_at s =
    let t = expire_pending observed_at s s.pending in expire_draining observed_at t t.draining

abbrev pub close_pending : Stream → Option Pending → Stream
close_pending s none = s
close_pending s (some p) =
    put_pending none (remember_completed p.timestamp p.frontier p.frontier_set s)

abbrev pub close_draining : Stream → Option Drain → Stream
close_draining s none = s
close_draining s (some d) =
    put_draining none (remember_completed d.timestamp d.last_sequence d.have_sequence s)

unfoldable pub close_units : Stream → Stream
close_units s = let t = close_pending s s.pending in close_draining t t.draining

unfoldable pub poison_packet : Packet → Stream → Stream
poison_packet packet s =
    let valid_version = packet.version == 2 in
    let done =
      remember_completed packet.timestamp packet.sequence_number valid_version (close_units s) in
    if is_some (lookup packet.timestamp s.history.completed)
    then s
    else if valid_version
    then set_sequence_anchor packet.timestamp (add16 packet.sequence_number 1) done
    else clear_sequence_anchor done

abbrev pub malformed : Packet → Bool
malformed packet = not (packet.version == 2) || is_empty packet.payload

-- The unit passes on what it accepted, as of a time and a generation.
unfoldable pub accept_unit : Unit264 → Bool → ℕ → ℕ → Stream → Pushed
accept_unit u want_candidate observed_at generation s =
    let r = accept u want_candidate s.parameters in
    let t = record s { parameters = r.parameters } in
    let dated = record t { candidate_at = observed_at; candidate_generation = generation } in
    record { stream = if is_some r.candidate then dated else t; candidate = r.candidate }

abbrev pub stale : Pending → ℕ → Bool
stale p watermark = not p.expected_set || (not (watermark == 0) && leb p.min_generation watermark)

-- A unit leaves `pending`: the anchor moves behind it, and it is remembered.
abbrev pub leave_pending : ℕ → Pending → Stream → Stream
leave_pending next_sequence p s =
    remember_completed p.timestamp p.frontier p.frontier_set
      (set_sequence_anchor p.timestamp next_sequence (put_pending none s))

abbrev pub deliver : ℕ → ℕ → ℕ → Bool → Pending → Stream → Parsed Unit264 → Pushed
deliver next_sequence watermark observed_at want_candidate p s (good u) =
    let left = leave_pending next_sequence p s in
    if stale p watermark
    then quiet left
    else accept_unit u want_candidate observed_at p.min_generation left
deliver next_sequence watermark observed_at want_candidate p s _ =
    quiet (leave_pending next_sequence p s)

abbrev pub transition_ordered : Codec → ℕ → ℕ → ℕ → Bool → Pending → Stream → Ordered → Pushed
transition_ordered c next_sequence watermark observed_at want_candidate p s (complete packets) =
    deliver next_sequence watermark observed_at want_candidate p s
      (depacketize_h264_access_unit c packets)
transition_ordered c next_sequence watermark observed_at want_candidate p s _ =
    quiet (discard_pending s)

-- The unit with the marker put on its last packet.
unfoldable pub close_unit : ℕ → ObservedPacket → Pending → Pending
close_unit last_sequence last p =
    let marked = record last { packet = record last.packet { marker = true } } in
    record p {
      packets = assign last_sequence marked p.packets;
      marker_set = true;
      marker = last_sequence;
    }

abbrev pub transition_last :
    Codec → ℕ → ℕ → ℕ → Bool → Pending → Stream → Option ObservedPacket → Pushed
transition_last c next_sequence watermark observed_at want_candidate p s none =
    quiet (discard_pending s)
transition_last c next_sequence watermark observed_at want_candidate p s (some last) =
    let closed = close_unit (sub16 next_sequence 1) last p in
    transition_ordered c next_sequence watermark observed_at want_candidate closed
      (put_pending (some closed) s) (ordered_packets closed)

abbrev pub transition_of : Codec → ℕ → ℕ → ℕ → Bool → Stream → Option Pending → Pushed
transition_of c next_sequence watermark observed_at want_candidate s none = quiet s
transition_of c next_sequence watermark observed_at want_candidate s (some p) =
    if p.marker_set
    then quiet (discard_pending s)
    else transition_last c next_sequence watermark observed_at want_candidate p s
        (lookup (sub16 next_sequence 1) p.packets)

unfoldable pub finish_at_timestamp_transition : Codec → ℕ → ℕ → ℕ → Bool → Stream → Pushed
finish_at_timestamp_transition c next_sequence watermark observed_at want_candidate s =
    transition_of c next_sequence watermark observed_at want_candidate s s.pending
