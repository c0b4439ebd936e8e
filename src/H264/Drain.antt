-- ===== src/H264/Drain.antt =====
-- internal/jetkvm/video.go: units that nobody waits for, kept for their parameter sets and for the
-- sequence baseline (drainPacket, captureDrainParameters, setDrainParameter, finishDrainUnit).
use jetkvm_mcp.Base.{
  ℕ, zero, suc, ◌+◌, ◌*◌, ◌/◌, Bool, true, false, not, ◌&&◌, ◌||◌, Option, none, some, [], ◌∷◌,
  ◌++◌, ◌==◌, ltb, leb, length, take, drop, if◌then◌else◌,
}
use jetkvm_mcp.H264.Nal.{
  Bytes, Verdict, be16, bit6, bit7, first_byte, incomplete, invalid, max_h264_access_unit,
  max_h264_packets, max_h264_parameter_nalu, nal_type, passes, valid_h264_nalu,
  valid_single_nal_type, validate_h264_payload,
}
use jetkvm_mcp.H264.Sequence.{Packet, add16, half, sub16}
use jetkvm_mcp.H264.AccessUnit.{Unit264}
use jetkvm_mcp.H264.Parameters.{accept}
use jetkvm_mcp.H264.State.{
  Drain, Stream, clear_sequence_anchor, put_draining, reject_completed, remember_completed,
  set_sequence_anchor,
}

abbrev spoiled : Drain → Drain
spoiled d = record d { invalid = true }

unfoldable pub set_drain_parameter : ℕ → Bytes → Drain → Drain
set_drain_parameter t nalu d =
    let as_sps = record d { latest_sps = some nalu } in
    let as_pps = record d { latest_pps = some nalu } in
    if ltb max_h264_parameter_nalu (length nalu) || not (valid_h264_nalu nalu)
    then spoiled d
    else if t == 7
    then as_sps
    else as_pps

abbrev is_parameter : ℕ → Bool
is_parameter t = t == 7 || t == 8

abbrev note_parameter : Bytes → Drain → Drain
note_parameter nalu d =
    let t = nal_type (first_byte nalu) in if is_parameter t then set_drain_parameter t nalu d else d

-- The units of an aggregate whose sizes have been checked, with fuel.
unfoldable pub capture_aggregate : ℕ → Bytes → Drain → Drain
unfolding set_drain_parameter
capture_aggregate zero rest d = d
capture_aggregate (suc f) [] d = d
capture_aggregate (suc f) (hi ∷ []) d = d
capture_aggregate (suc f) (hi ∷ lo ∷ after) d =
    let nalu = take (be16 hi lo) after in
    elim (valid_h264_nalu nalu) [
      | false ↦ spoiled d
      | true ↦ capture_aggregate f (drop (be16 hi lo) after) (note_parameter nalu d)
    ]

-- The zeros just before a byte, 2 for more, and whether a start code has been met.
pub record Scan : Type 0 where
  pub zero_run : ℕ
  pub found : Bool

unfoldable pub scan_fragment : Bytes → Scan → Scan
scan_fragment [] s = s
scan_fragment (b ∷ bs) s =
    let longer = record s { zero_run = if ltb s.zero_run 2 then suc s.zero_run else s.zero_run } in
    let broken : Scan = record { zero_run = 0; found = s.found || (b == 1 && s.zero_run == 2) } in
    scan_fragment bs (if b == 0 then longer else broken)

abbrev scanned_fragment : Bool → Bool → Bytes → Drain → Drain
scanned_fragment start end_ fragment d =
    let opened : Scan = record {
      zero_run = if start then 0 else d.fu_zero_run;
      found = d.invalid;
    } in
    let s = scan_fragment fragment opened in
    record d { fu_zero_run = if end_ then 0 else s.zero_run; invalid = s.found }

-- payload[0] & 0xe0 | fragmentType
abbrev fragment_header : ℕ → ℕ → ℕ
fragment_header header fragment_type = header / 32 * 32 + fragment_type

abbrev grow_parameter : ℕ → Bool → Bytes → Drain → Drain
grow_parameter fragment_type end_ fragment d =
    let lost = record d { invalid = true; fu_parameter = [] } in
    let grown = record d { fu_parameter = d.fu_parameter ++ fragment } in
    let set_ = set_drain_parameter fragment_type (d.fu_parameter ++ fragment) grown in
    let closed = record set_ { fu_parameter = [] } in
    if ltb max_h264_parameter_nalu (length d.fu_parameter + length fragment)
    then lost
    else if end_
    then closed
    else grown

unfoldable pub capture_fragment : ℕ → ℕ → Bytes → Drain → Drain
unfolding scan_fragment set_drain_parameter
capture_fragment header fu_header fragment d =
    let t = nal_type fu_header in
    let scanned = scanned_fragment (bit7 fu_header) (bit6 fu_header) fragment d in
    let headed = record scanned { fu_parameter = fragment_header header t ∷ [] } in
    if scanned.invalid || not (is_parameter t)
    then scanned
    else grow_parameter t (bit6 fu_header) fragment (if bit7 fu_header then headed else scanned)

abbrev capture_fragment_of : ℕ → Bytes → Drain → Drain
capture_fragment_of header [] d = d
capture_fragment_of header (fu_header ∷ fragment) d = capture_fragment header fu_header fragment d

unfoldable pub capture_drain_parameters : Bytes → Drain → Drain
unfolding capture_aggregate set_drain_parameter capture_fragment
capture_drain_parameters payload d =
    let t = nal_type (first_byte payload) in
    if valid_single_nal_type t
    then (if valid_h264_nalu payload then note_parameter payload d else spoiled d)
    else if t == 24
    then capture_aggregate (length payload) (drop 1 payload) d
    else if t == 28
    then capture_fragment_of (first_byte payload) (drop 1 payload) d
    else d

abbrev accept_parameters : Drain → Stream → Stream
accept_parameters d s =
    let u : Unit264 = record {
      annex_b = [];
      nalus = [];
      has_idr = false;
      latest_sps = d.latest_sps;
      latest_pps = d.latest_pps;
    } in
    record s { parameters = (accept u false s.parameters).parameters }

abbrev finish_drain_unit_of : ℕ → Bool → Stream → Option Drain → Stream
finish_drain_unit_of next_sequence marker_observed s none = s
finish_drain_unit_of next_sequence marker_observed s (some d) =
    let continuous = d.have_sequence && next_sequence == add16 d.last_sequence 1 in
    let done =
      remember_completed d.timestamp d.last_sequence d.have_sequence (put_draining none s) in
    let anchored =
      if continuous && (marker_observed || not d.sequence_gap)
      then set_sequence_anchor d.timestamp next_sequence done
      else clear_sequence_anchor done in
    if d.invalid || not continuous || d.fu.open_ || not d.anchored
    then anchored
    else accept_parameters d anchored

unfoldable pub finish_drain_unit : ℕ → Bool → Stream → Stream
finish_drain_unit next_sequence marker_observed s =
    finish_drain_unit_of next_sequence marker_observed s s.draining

abbrev pub new_drain : ℕ → Bool → Drain
new_drain timestamp anchored = record {
  timestamp = timestamp;
  anchored = anchored;
  last_sequence = 0;
  have_sequence = false;
  last_observed = 0;
  invalid = false;
  sequence_gap = false;
  packet_count = 0;
  payload_bytes = 0;
  projected_bytes = 0;
  fu = record { open_ = false; type_ = 0; nri = 0 };
  fu_zero_run = 0;
  fu_parameter = [];
  latest_sps = none;
  latest_pps = none;
}

-- The sequence number against the last one, or against the anchor.
unfoldable pub note_sequence : Stream → ℕ → Drain → Drain
note_sequence s sequence d =
    let distance = sub16 sequence d.last_sequence in
    let moved = ltb 0 distance && ltb distance half in
    let off_anchor = s.anchor.have_next && not (sequence == s.anchor.next_sequence) in
    let next = record d {
      invalid = d.invalid || not (distance == 1);
      sequence_gap = d.sequence_gap || not (distance == 1);
      last_sequence = if moved then sequence else d.last_sequence;
    } in
    let first = record d {
      invalid = d.invalid || off_anchor;
      sequence_gap = d.sequence_gap || off_anchor;
      have_sequence = true;
      last_sequence = sequence;
    } in
    if d.have_sequence then next else first

unfoldable pub count_payload : Bytes → Drain → Drain
count_payload payload d =
    let counted = record d {
      packet_count = suc d.packet_count;
      payload_bytes = d.payload_bytes + length payload;
    } in
    if leb max_h264_packets d.packet_count
      || ltb max_h264_access_unit (d.payload_bytes + length payload)
    then spoiled d
    else counted

abbrev drain_verdict : Bytes → Drain → Verdict → Drain
drain_verdict payload d invalid = spoiled d
drain_verdict payload d incomplete = spoiled d
drain_verdict payload d (passes projected fu) =
    let opened = record d { fu = fu } in
    let counted = record opened { projected_bytes = d.projected_bytes + projected } in
    if ltb max_h264_access_unit (d.projected_bytes + projected)
    then spoiled opened
    else capture_drain_parameters payload counted

unfoldable pub drain_payload : Bytes → Drain → Drain
drain_payload payload d =
    if d.invalid then d else drain_verdict payload d (validate_h264_payload payload d.fu)

-- The packet joins the unit that is being drained.
unfoldable pub drain_into : Packet → ℕ → Stream → Drain → Stream
drain_into packet observed_at s d =
    let seen = note_sequence s packet.sequence_number (record d { last_observed = observed_at }) in
    let drained = drain_payload packet.payload (count_payload packet.payload seen) in
    let next = put_draining (some drained) s in
    if packet.marker then finish_drain_unit (add16 packet.sequence_number 1) true next else next

-- The unit to drain into: the one there is, or a new one.
abbrev pub drain_unit : Packet → Stream → Option Drain → Drain
drain_unit packet s none = new_drain packet.timestamp s.anchor.have_next
drain_unit packet s (some d) = d

abbrev pub other_drain : ℕ → Option Drain → Bool
other_drain timestamp none = false
other_drain timestamp (some d) = not (d.timestamp == timestamp)

unfoldable pub drain_fresh : Packet → ℕ → Stream → Stream
drain_fresh packet observed_at s =
    let closed =
      if other_drain packet.timestamp s.draining
      then finish_drain_unit packet.sequence_number false s
      else s in
    drain_into packet observed_at closed (drain_unit packet closed closed.draining)

abbrev pub drain_rejected : Packet → ℕ → Bool × Stream → Stream
drain_rejected packet observed_at (true, s) = s
drain_rejected packet observed_at (false, s) = drain_fresh packet observed_at s

unfoldable pub drain_packet : Packet → ℕ → Stream → Stream
drain_packet packet observed_at s = drain_rejected packet observed_at (reject_completed packet s)
