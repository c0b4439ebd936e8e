-- ===== src/H264/AccessUnit.antt =====
-- internal/jetkvm/video.go: from the packets of an access unit to its NAL units
-- (depacketizeH264AccessUnit). The depacketizer of pion/rtp and `Packet.Marshal` are parameters.
use jetkvm_mcp.Base.{
  ℕ, zero, suc, ◌+◌, Bool, true, false, not, ◌&&◌, ◌||◌, Option, none, some, List, [], ◌∷◌, ◌++◌,
  ◌==◌, ltb, leb, length, take, drop, is_empty, if◌then◌else◌,
}
use jetkvm_mcp.H264.Nal.{
  Bytes, Fu, Verdict, annex_b_start_code, invalid, incomplete, passes, be16, first_byte,
  max_h264_access_unit, max_h264_packets, max_h264_parameter_nalu, nal_type, start_code_length,
  valid_h264_nalu, valid_single_nal_type, validate_h264_payload,
}
use jetkvm_mcp.H264.Sequence.{Packet, add16}

-- pion/rtp: `marshal` is `Packet.Marshal`, and `unmarshal` is `codecs.H264Packet.Unmarshal` on a
-- payload, given the payloads that the same depacketizer took before, newest first.
pub record Codec : Type 0 where
  pub marshal : Packet → Option Bytes
  pub unmarshal : List Bytes → Bytes → Option Bytes

pub record Unit264 : Type 0 where
  pub annex_b : Bytes
  pub nalus : List Bytes
  pub has_idr : Bool
  pub latest_sps : Option Bytes
  pub latest_pps : Option Bytes

-- What the loop over the packets carries: the payloads taken, newest first, the output, the NAL
-- units in order, and the sizes.
pub record Assembly : Type 0 where
  pub taken : List Bytes
  pub output : Bytes
  pub nalus : List Bytes
  pub payload_bytes : ℕ
  pub projected_bytes : ℕ
  pub fu : Fu

-- A result, or one of the two errors of the file.
pub data Parsed (A : Type 0) : Type 0 where
  bad short : Parsed A
  good : A → Parsed A

unfoldable pub bytes_equal : Bytes → Bytes → Bool
bytes_equal [] [] = true
bytes_equal [] (y ∷ ys) = false
bytes_equal (x ∷ xs) [] = false
bytes_equal (x ∷ xs) (y ∷ ys) = x == y && bytes_equal xs ys

unfoldable pub append_validated_nalu : List Bytes → Bytes → Option (List Bytes)
append_validated_nalu nalus nalu = if valid_h264_nalu nalu then some (nalus ++ nalu ∷ []) else none

-- The units of an aggregate whose sizes have been checked, with fuel.
unfoldable pub append_aggregate : ℕ → List Bytes → Bytes → Option (List Bytes)
append_aggregate zero nalus rest = some nalus
append_aggregate (suc f) nalus [] = some nalus
append_aggregate (suc f) nalus (hi ∷ []) = none
append_aggregate (suc f) nalus (hi ∷ lo ∷ after) =
    elim (append_validated_nalu nalus (take (be16 hi lo) after)) [
      | none ↦ none
      | some more ↦ append_aggregate f more (drop (be16 hi lo) after)
    ]

-- The unit that ends with a fragment: the chunk behind its start code.
abbrev append_chunk : List Bytes → Bytes → Option (List Bytes)
append_chunk nalus chunk =
    if leb (length chunk) start_code_length
      || not (bytes_equal (take start_code_length chunk) annex_b_start_code)
    then none
    else append_validated_nalu nalus (drop start_code_length chunk)

unfoldable pub append_units : List Bytes → Bytes → Bytes → Option (List Bytes)
unfolding append_aggregate append_validated_nalu bytes_equal
append_units nalus payload chunk =
    let t = nal_type (first_byte payload) in
    if valid_single_nal_type t
    then append_validated_nalu nalus payload
    else if t == 24
    then append_aggregate (length payload) nalus (drop 1 payload)
    else if t == 28 && not (is_empty chunk)
    then append_chunk nalus chunk
    else some nalus

abbrev with_units : Assembly → Option (List Bytes) → Parsed Assembly
with_units a none = bad
with_units a (some nalus) = good (record a { nalus = nalus })

abbrev with_chunk : Bytes → Assembly → Option Bytes → Parsed Assembly
with_chunk payload a none = bad
with_chunk payload a (some chunk) =
    if ltb max_h264_access_unit (length a.output + length chunk)
    then bad
    else with_units (record a { output = a.output ++ chunk; taken = payload ∷ a.taken })
        (append_units a.nalus payload chunk)

abbrev with_verdict : Codec → Bytes → Assembly → Verdict → Parsed Assembly
with_verdict c payload a invalid = bad
with_verdict c payload a incomplete = short
with_verdict c payload a (passes projected fu) =
    if ltb max_h264_access_unit (a.projected_bytes + projected)
    then bad
    else with_chunk payload
        (record a {
          payload_bytes = a.payload_bytes + length payload;
          projected_bytes = a.projected_bytes + projected;
          fu = fu;
        })
        (c.unmarshal a.taken payload)

-- One payload of the loop.
unfoldable pub take_payload : Codec → Bytes → Assembly → Parsed Assembly
unfolding append_units validate_h264_payload
take_payload c payload a =
    if ltb max_h264_access_unit (a.payload_bytes + length payload)
    then bad
    else with_verdict c payload a (validate_h264_payload payload a.fu)

-- The checks of a packet against the one before it.
unfoldable pub follows : Option Packet → Packet → Bool
follows none packet = true
follows (some previous) packet =
    packet.timestamp == previous.timestamp
    && packet.sequence_number == add16 previous.sequence_number 1
    && not previous.marker

abbrev pub same_bool : Bool → Bool → Bool
same_bool true b = b
same_bool false b = not b

-- The checks of a packet, given the timestamp of the first, the one before and whether it is last.
unfoldable pub fits : ℕ → Option Packet → Packet → Bool → Bool
unfolding follows
fits timestamp previous packet last =
    packet.version == 2
    && not (is_empty packet.payload)
    && follows previous packet
    && packet.timestamp == timestamp
    && same_bool packet.marker last

unfoldable pub take_packets : Codec → ℕ → Option Packet → List Packet → Assembly → Parsed Assembly
unfolding fits take_payload
take_packets c timestamp previous [] a = good a
take_packets c timestamp previous (packet ∷ packets) a =
    elim (fits timestamp previous packet (is_empty packets)) [
      | false ↦ bad
      | true ↦ elim (take_payload c packet.payload a) [
        | bad ↦ bad
        | short ↦ short
        | good b ↦ take_packets c timestamp (some packet) packets b
      ]
    ]

-- The last loop: the kinds of the units.
unfoldable pub note_units : List Bytes → Unit264 → Option Unit264
note_units [] u = some u
note_units (nalu ∷ nalus) u =
    let t = nal_type (first_byte nalu) in
    let noted =
      if t == 5
      then (record u { has_idr = true })
      else if t == 7
      then (record u { latest_sps = some nalu })
      else if t == 8
      then (record u { latest_pps = some nalu })
      else u in
    let rest = note_units nalus noted in
    if (t == 7 || t == 8) && ltb max_h264_parameter_nalu (length nalu) then none else rest

abbrev noted_unit : Option Unit264 → Parsed Unit264
noted_unit none = bad
noted_unit (some u) = good u

abbrev unit_of : Parsed Assembly → Parsed Unit264
unit_of bad = bad
unit_of short = short
unit_of (good a) =
    if a.fu.open_
    then short
    else noted_unit (
        note_units a.nalus (record {
          annex_b = a.output;
          nalus = a.nalus;
          has_idr = false;
          latest_sps = none;
          latest_pps = none;
        }))

abbrev pub no_assembly : Assembly
no_assembly = record {
  taken = [];
  output = [];
  nalus = [];
  payload_bytes = 0;
  projected_bytes = 0;
  fu = record { open_ = false; type_ = 0; nri = 0 };
}

unfoldable pub depacketize_h264_access_unit : Codec → List Packet → Parsed Unit264
unfolding take_packets note_units
depacketize_h264_access_unit c [] = bad
depacketize_h264_access_unit c (first ∷ packets) =
    if ltb max_h264_packets (length (first ∷ packets))
    then bad
    else unit_of (take_packets c first.timestamp none (first ∷ packets) no_assembly)
