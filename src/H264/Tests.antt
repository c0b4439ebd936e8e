-- ===== src/H264/Tests.antt =====
-- internal/jetkvm/video.go: the theorems about H.264 at concrete packets.
use jetkvm_mcp.Base.{
  ℕ, ◌≤◌, Bool, true, false, none, some, List, [], ◌∷◌, ◌++◌, ◌≡◌, refl, arith, length,
}
use jetkvm_mcp.Base.Assoc.{lookup, assign}
use jetkvm_mcp.H264.Nal.{
  Bytes, annex_b_start_code, contains_code, nal_nri, stap_a_annex_b_size, valid_h264_nalu,
  valid_single_nal_type, validate_h264_payload,
}
use jetkvm_mcp.H264.Sequence.{
  ObservedPacket, Packet, Pending, add16, sub16, collect, complete, furthest, observe_sequence,
  ordered_packets, sequence_within_reorder_window, skip_arrived,
}
use jetkvm_mcp.H264.AccessUnit.{
  Codec, append_aggregate, append_units, append_validated_nalu, depacketize_h264_access_unit, fits,
  follows, note_units, take_packets, take_payload,
}
use jetkvm_mcp.H264.Parameters.{
  accept, annex_b_of, total_size, valid_h264_parameters, without_parameters,
}
use jetkvm_mcp.H264.State.{
  Stream, new_h264_stream, reject_completed, remember, remember_completed, set_sequence_anchor,
}
use jetkvm_mcp.H264.Ending.{accept_unit, expire}
use jetkvm_mcp.H264.Process.{
  insert_packet, join_pending, mark, process, process_ready, process_with, try_complete,
}
use jetkvm_mcp.H264.Events.{Event, drained, expired, on_events, pushed, wait_began, wait_ended}
use jetkvm_mcp.H264.Invariant.{Inv}
use jetkvm_mcp.H264.Invariant.Packets.{on_events-Inv}
use jetkvm_mcp.H264.Candidate.{IsCandidate, process-IsSoundCandidate}
use jetkvm_mcp.H264.Dated.Delivery.{IsDated}
use jetkvm_mcp.H264.Dated.Packets.{process-IsDated}
use jetkvm_mcp.H264.Order.{IsInOrder, ordered_packets-IsInOrder}
use jetkvm_mcp.H264.Scan.{joined, scan_fragments, scan_fragments-contains_code}
use jetkvm_mcp.H264.Aggregate.{
  IsUnit, append_aggregate-round_trip, encode_units, stap_a-encode_units, strongest,
}
use jetkvm_mcp.H264.Window.{skip_arrived-ends}
use jetkvm_mcp.H264.Replay.{IsIgnored, process-IsIgnored}
use jetkvm_mcp.H264.Recursion.{process-recursion}
use jetkvm_mcp.H264.History.{keys}

-- A depacketizer of single NAL units.
abbrev single_codec : Codec
single_codec = record {
  marshal = λ p. some (p.sequence_number ∷ p.payload);
  unmarshal = λ taken payload. some (annex_b_start_code ++ payload);
}

-- A sequence parameter set, a picture parameter set and an IDR slice.
abbrev sps_unit : Bytes
sps_unit = 103 ∷ 66 ∷ []

abbrev pps_unit : Bytes
pps_unit = 104 ∷ 5 ∷ []

abbrev idr_unit : Bytes
idr_unit = 101 ∷ 9 ∷ 9 ∷ []

abbrev packet_at : ℕ → ℕ → Bool → Bytes → Packet
packet_at timestamp sequence marker payload = record {
  version = 2;
  marker = marker;
  sequence_number = sequence;
  timestamp = timestamp;
  payload = payload;
  other = [];
}

abbrev anchored : Stream
anchored = record new_h264_stream {
  parameters = record { sps = some sps_unit; pps = some pps_unit };
  anchor = record {
    next_sequence = 65535;
    have_next = true;
    anchor_timestamp = 1;
    anchor_set = true;
  };
}

abbrev idr_packet : Packet
idr_packet = packet_at 2 65535 true idr_unit

abbrev idr_bytes : Bytes
idr_bytes = 0 ∷ 0 ∷ 0 ∷ 1 ∷ 103 ∷ 66 ∷ 0 ∷ 0 ∷ 0 ∷ 1 ∷ 104 ∷ 5 ∷ 0 ∷ 0 ∷ 0 ∷ 1 ∷ idr_unit

new_h264_stream-Inv : Inv new_h264_stream
unfolding keys valid_h264_parameters
new_h264_stream-Inv = ground arith

anchored-Inv : Inv anchored
unfolding keys valid_h264_parameters
anchored-Inv = ground arith

abbrev events : List Event
events =
    drained (some (packet_at 1 65534 true sps_unit)) 100
    ∷ wait_began
    ∷ pushed (some idr_packet) 5 3 200
    ∷ pushed (some (packet_at 3 1 false idr_unit)) 5 3 300
    ∷ wait_ended
    ∷ expired 400000000
    ∷ []

on_events-Inv_example : Inv (on_events single_codec events new_h264_stream)
on_events-Inv_example = on_events-Inv single_codec events new_h264_stream new_h264_stream-Inv

idr_yields : (process single_codec idr_packet 5 3 200 true anchored).candidate ≡ some idr_bytes
unfolding process process_with expire reject_completed lookup join_pending
    sequence_within_reorder_window observe_sequence insert_packet assign skip_arrived add16 sub16
    try_complete mark ordered_packets furthest collect depacketize_h264_access_unit take_packets
    fits follows take_payload validate_h264_payload append_units append_validated_nalu
    valid_single_nal_type valid_h264_nalu contains_code note_units accept_unit accept
    valid_h264_parameters total_size without_parameters annex_b_of process_ready remember_completed
    set_sequence_anchor remember
idr_yields = refl

process-IsSoundCandidate_example : IsCandidate idr_bytes
process-IsSoundCandidate_example =
    process-IsSoundCandidate single_codec idr_packet 5 3 200 true anchored idr_bytes idr_yields

process-IsDated_example :
    IsDated 3 200 true anchored (process single_codec idr_packet 5 3 200 true anchored)
process-IsDated_example = process-IsDated single_codec idr_packet 5 3 200 true anchored

process-recursion_example :
    process single_codec idr_packet 5 3 200 true anchored
    ≡ process_with single_codec
        (λ t. (process single_codec idr_packet 5 3 200 false t).stream)
        idr_packet
        5
        3
        200
        true
        anchored
process-recursion_example =
    process-recursion single_codec idr_packet 5 3 200 true anchored anchored-Inv

-- The unit with the timestamp 7 is done.
abbrev with_history : Stream
with_history = record anchored {
  history = record {
    completed = (7, record { frontier = 40; has_frontier = true }) ∷ [];
    completed_order = 7 ∷ [];
  };
}

process-IsIgnored_example :
    IsIgnored
      (expire 200 with_history)
      (process single_codec (packet_at 7 39 true idr_unit) 5 3 200 true with_history)
unfolding expire lookup
process-IsIgnored_example =
    process-IsIgnored single_codec (packet_at 7 39 true idr_unit) 5 3 200 true with_history refl

abbrev observed_packet : ℕ → Bool → ObservedPacket
observed_packet sequence marker = record {
  packet = packet_at 2 sequence marker idr_unit;
  generation = 5;
  observed_at = 200;
}

-- Packets 65535, 0 and 1, which arrived out of order.
abbrev wrapped_unit : Pending
wrapped_unit = record {
  timestamp = 2;
  packets =
      (0, observed_packet 0 false)
      ∷ (65535, observed_packet 65535 false)
      ∷ (1, observed_packet 1 true)
      ∷ [];
  expected_set = true;
  expected = 65535;
  reorder_next = 2;
  reorder_base = 0;
  frontier_set = true;
  frontier = 1;
  marker_set = true;
  marker_explicit = true;
  marker = 1;
  last_observed = 200;
  payload_bytes = 9;
  min_generation = 5;
}

abbrev wrapped_packets : List Packet
wrapped_packets =
    packet_at 2 65535 false idr_unit
    ∷ packet_at 2 0 false idr_unit
    ∷ packet_at 2 1 true idr_unit
    ∷ []

wrapped_complete : ordered_packets wrapped_unit ≡ complete wrapped_packets
unfolding ordered_packets furthest collect lookup sub16
wrapped_complete = refl

ordered_packets-IsInOrder_example :
    (wrapped_unit.marker_set ≡ true) × IsInOrder wrapped_unit wrapped_packets
ordered_packets-IsInOrder_example =
    ordered_packets-IsInOrder wrapped_unit wrapped_packets wrapped_complete

skip_arrived-ends_example :
    lookup (skip_arrived 4 wrapped_unit.packets 65535) wrapped_unit.packets ≡ none
skip_arrived-ends_example = skip_arrived-ends 65535 wrapped_unit.packets (omega arith) (omega arith)

-- A start code that straddles two fragments.
abbrev straddling_fragments : List Bytes
straddling_fragments = (9 ∷ 0 ∷ []) ∷ (0 ∷ 1 ∷ []) ∷ []

scan_fragments-contains_code_example :
    (scan_fragments straddling_fragments (record { zero_run = 0; found = false })).found
    ≡ contains_code (joined straddling_fragments)
scan_fragments-contains_code_example = scan_fragments-contains_code straddling_fragments

sps-IsUnit : IsUnit sps_unit
unfolding valid_single_nal_type
sps-IsUnit = ground arith

pps-IsUnit : IsUnit pps_unit
unfolding valid_single_nal_type
pps-IsUnit = ground arith

aggregate_nri : nal_nri 120 ≡ strongest (sps_unit ∷ pps_unit ∷ []) 0
unfolding strongest
aggregate_nri = refl

aggregate_small : length (annex_b_of (sps_unit ∷ pps_unit ∷ [])) ≤ 4194304
unfolding annex_b_of
aggregate_small = omega arith

stap_a-encode_units_example :
    stap_a_annex_b_size (120 ∷ encode_units (sps_unit ∷ pps_unit ∷ []))
    ≡ some (length (annex_b_of (sps_unit ∷ pps_unit ∷ [])))
stap_a-encode_units_example =
    stap_a-encode_units 120 sps_unit (pps_unit ∷ []) (sps-IsUnit, (pps-IsUnit, tt)) aggregate_small
      aggregate_nri

sps_valid : valid_h264_nalu sps_unit ≡ true
unfolding valid_h264_nalu contains_code
sps_valid = refl

pps_valid : valid_h264_nalu pps_unit ≡ true
unfolding valid_h264_nalu contains_code
pps_valid = refl

append_aggregate-round_trip_example :
    append_aggregate
      (length (120 ∷ encode_units (sps_unit ∷ pps_unit ∷ [])))
      []
      (encode_units (sps_unit ∷ pps_unit ∷ []))
    ≡ some (sps_unit ∷ pps_unit ∷ [])
append_aggregate-round_trip_example =
    append_aggregate-round_trip 120 (sps_unit ∷ pps_unit ∷ []) (sps_valid, (pps_valid, tt))
