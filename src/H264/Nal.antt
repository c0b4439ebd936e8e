-- ===== src/H264/Nal.antt =====
-- internal/jetkvm/video.go: which payloads are well formed (validH264NALU, validateH264Payload and
-- stapAAnnexBSize). Bytes are numbers below 256; masks are written by `/` and `%`.
use jetkvm_mcp.Base.{
  ℕ, zero, suc, ◌+◌, ◌*◌, ◌/◌, ◌%◌, Bool, true, false, not, ◌&&◌, ◌||◌, Option, none, some, List,
  [], ◌∷◌, ◌==◌, ltb, leb, length, drop, if◌then◌else◌,
}

abbrev pub Bytes : Type 0
Bytes = List ℕ

abbrev pub max_h264_packets : ℕ
max_h264_packets = 4096

abbrev pub max_h264_access_unit : ℕ
max_h264_access_unit = 4194304

abbrev pub max_h264_parameter_nalu : ℕ
max_h264_parameter_nalu = 32768

abbrev pub max_h264_parameters : ℕ
max_h264_parameters = 65536

abbrev pub annex_b_start_code : Bytes
annex_b_start_code = 0 ∷ 0 ∷ 0 ∷ 1 ∷ []

abbrev pub start_code_length : ℕ
start_code_length = 4

-- b & 0x1f, b & 0x60, b & 0x80 != 0, b & 0x40 != 0 and b & 0x20 != 0
abbrev pub nal_type : ℕ → ℕ
nal_type b = b % 32

abbrev pub nal_nri : ℕ → ℕ
nal_nri b = b / 32 % 4 * 32

abbrev pub bit7 : ℕ → Bool
bit7 b = b / 128 % 2 == 1

abbrev pub bit6 : ℕ → Bool
bit6 b = b / 64 % 2 == 1

abbrev pub bit5 : ℕ → Bool
bit5 b = b / 32 % 2 == 1

-- The byte at an index that the code knows to be there.
abbrev pub first_byte : Bytes → ℕ
first_byte [] = 0
first_byte (b ∷ bs) = b

unfoldable pub valid_single_nal_type : ℕ → Bool
valid_single_nal_type t = (leb 1 t && leb t 16) || (leb 19 t && leb t 21)

abbrev starts_code : Bytes → Bool
starts_code (a ∷ b ∷ c ∷ rest) = a == 0 && b == 0 && c == 1
starts_code _ = false

-- bytes.Contains(bs, annexBStartCode[1:])
unfoldable pub contains_code : Bytes → Bool
contains_code [] = false
contains_code (b ∷ bs) = starts_code (b ∷ bs) || contains_code bs

unfoldable pub valid_h264_nalu : Bytes → Bool
valid_h264_nalu [] = false
valid_h264_nalu (b ∷ rest) = not (contains_code rest)

-- binary.BigEndian.Uint16
abbrev pub be16 : ℕ → ℕ → ℕ
be16 hi lo = hi * 256 + lo

-- What the loop of `stapAAnnexBSize` carries.
pub record Stap : Type 0 where
  pub projected : ℕ
  pub max_nri : ℕ

abbrev pub raise_nri : ℕ → ℕ → ℕ
raise_nri nri old = if ltb old nri then nri else old

-- One aggregated NAL unit, from the bytes behind its size.
unfoldable pub stap_unit : ℕ → Bytes → Stap → Option Stap
unfolding valid_single_nal_type
stap_unit size after s =
    let b = first_byte after in
    if size == 0 || ltb (length after) size
    then none
    else if bit7 b || not (valid_single_nal_type (nal_type b))
    then none
    else if ltb max_h264_access_unit (s.projected + start_code_length + size)
    then none
    else some (record {
      projected = s.projected + start_code_length + size;
      max_nri = raise_nri (nal_nri b) s.max_nri;
    })

-- The loop over the payload behind its header, with fuel.
unfoldable pub stap_loop : ℕ → Bytes → Stap → Option Stap
stap_loop zero rest s = none
stap_loop (suc f) [] s = some s
stap_loop (suc f) (hi ∷ []) s = none
stap_loop (suc f) (hi ∷ lo ∷ after) s = elim (stap_unit (be16 hi lo) after s) [
  | none ↦ none
  | some t ↦ stap_loop f (drop (be16 hi lo) after) t
]

abbrev pub stap_verdict : ℕ → Option Stap → Option ℕ
stap_verdict header none = none
stap_verdict header (some s) = if nal_nri header == s.max_nri then some s.projected else none

-- `none` is an invalid payload.
unfoldable pub stap_a_annex_b_size : Bytes → Option ℕ
unfolding stap_loop stap_unit
stap_a_annex_b_size [] = none
stap_a_annex_b_size (header ∷ rest) =
    if ltb (length rest) 3
    then none
    else stap_verdict header
        (stap_loop (suc (length rest)) rest (record { projected = 0; max_nri = 0 }))

-- The fragmented unit that is open, if any.
pub record Fu : Type 0 where
  pub open_ : Bool
  pub type_ : ℕ
  pub nri : ℕ

-- What `validateH264Payload` returns: an error, an incomplete unit, or the size in Annex B form
-- and what its pointers hold afterwards.
pub data Verdict : Type 0 where
  invalid incomplete : Verdict
  passes : ℕ → Fu → Verdict

abbrev stap_payload : Fu → Option ℕ → Verdict
stap_payload fu none = invalid
stap_payload fu (some n) = if fu.open_ then invalid else passes n fu

-- The size of a fragment, and the state behind it.
abbrev fragment_passes : Bool → Bool → ℕ → Fu → Verdict
fragment_passes start end_ size fu =
    passes (size + (if start then start_code_length + 1 else 0))
      (if end_ then record fu { open_ = false } else fu)

unfoldable pub fu_payload : ℕ → ℕ → ℕ → Fu → Verdict
unfolding valid_single_nal_type
fu_payload header fu_header size fu =
    let start = bit7 fu_header in
    let end_ = bit6 fu_header in
    let opened = record fu { open_ = true; type_ = nal_type fu_header; nri = nal_nri header } in
    if bit5 fu_header || size == 0
    then invalid
    else if not (valid_single_nal_type (nal_type fu_header)) || (start && end_)
    then invalid
    else if start
    then (if fu.open_ then invalid else fragment_passes start end_ size opened)
    else if not fu.open_
    then incomplete
    else if not (nal_type fu_header == fu.type_) || not (nal_nri header == fu.nri)
    then invalid
    else fragment_passes start end_ size fu

abbrev fu_payload_of : ℕ → Bytes → Fu → Verdict
fu_payload_of header [] fu = invalid
fu_payload_of header (fu_header ∷ data_) fu = fu_payload header fu_header (length data_) fu

unfoldable pub validate_h264_payload : Bytes → Fu → Verdict
unfolding stap_a_annex_b_size fu_payload
validate_h264_payload [] fu = invalid
validate_h264_payload (header ∷ rest) fu =
    if bit7 header
    then invalid
    else if valid_single_nal_type (nal_type header)
    then (if fu.open_ then invalid else passes (start_code_length + suc (length rest)) fu)
    else if nal_type header == 24
    then stap_payload fu (stap_a_annex_b_size (header ∷ rest))
    else if nal_type header == 28
    then fu_payload_of header rest fu
    else invalid
