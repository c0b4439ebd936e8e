-- ===== src/H264/Parameters.antt =====
-- internal/jetkvm/video.go: the retained parameter sets and the candidate that goes out (accept and
-- validH264Parameters). `nil` is `none`.
use jetkvm_mcp.Base.{
  ℕ, ◌+◌, Bool, true, not, ◌&&◌, Option, none, some, List, [], ◌∷◌, ◌++◌, ◌==◌, ltb, leb, length,
  if◌then◌else◌,
}
use jetkvm_mcp.H264.Nal.{
  Bytes, annex_b_start_code, first_byte, max_h264_access_unit, max_h264_parameter_nalu,
  max_h264_parameters, nal_type, start_code_length,
}
use jetkvm_mcp.H264.AccessUnit.{Unit264}

abbrev pub parameter_size : Option Bytes → ℕ
parameter_size none = 0
parameter_size (some nalu) = start_code_length + length nalu

abbrev pub sound_parameter : ℕ → Option Bytes → Bool
sound_parameter t none = true
sound_parameter t (some nalu) =
    leb (length nalu) max_h264_parameter_nalu && nal_type (first_byte nalu) == t

unfoldable pub valid_h264_parameters : Option Bytes → Option Bytes → Bool
valid_h264_parameters none none = true
valid_h264_parameters sps pps =
    sound_parameter 7 sps
    && sound_parameter 8 pps
    && leb (parameter_size sps + parameter_size pps) max_h264_parameters

-- The parameter sets that the stream keeps.
pub record Parameters : Type 0 where
  pub sps : Option Bytes
  pub pps : Option Bytes

abbrev pub or_else : Option Bytes → Option Bytes → Option Bytes
or_else none old = old
or_else (some new) old = some new

-- The units of a candidate that are not parameter sets.
unfoldable pub without_parameters : List Bytes → List Bytes
without_parameters [] = []
without_parameters (nalu ∷ nalus) =
    let t = nal_type (first_byte nalu) in
    let rest = without_parameters nalus in
    if not (t == 7) && not (t == 8) then nalu ∷ rest else rest

-- The loop that adds up the size, `none` where it passes the bound.
unfoldable pub total_size : List Bytes → ℕ → Option ℕ
total_size [] total = some total
total_size (nalu ∷ nalus) total =
    let rest = total_size nalus (total + (start_code_length + length nalu)) in
    if ltb max_h264_access_unit (length nalu + start_code_length + total) then none else rest

unfoldable pub annex_b_of : List Bytes → Bytes
annex_b_of [] = []
annex_b_of (nalu ∷ nalus) = annex_b_start_code ++ nalu ++ annex_b_of nalus

-- What `accept` leaves and returns: the parameter sets, and the candidate with whether it is one.
pub record Accepted : Type 0 where
  pub parameters : Parameters
  pub candidate : Option Bytes

abbrev pub sized_candidate : Parameters → Parameters → List Bytes → Option ℕ → Accepted
sized_candidate old new nalus none = record { parameters = old; candidate = none }
sized_candidate old new nalus (some total) = record {
  parameters = new;
  candidate = some (annex_b_of nalus);
}

abbrev pub idr_candidate : Parameters → Option Bytes → Option Bytes → List Bytes → Accepted
idr_candidate old (some sps) (some pps) nalus =
    let all = sps ∷ pps ∷ without_parameters nalus in
    let new : Parameters = record { sps = some sps; pps = some pps } in
    sized_candidate old new all (total_size all 0)
idr_candidate old sps pps nalus = record {
  parameters = record { sps = sps; pps = pps };
  candidate = none;
}

unfoldable pub accept : Unit264 → Bool → Parameters → Accepted
unfolding valid_h264_parameters without_parameters total_size annex_b_of
accept u want_candidate old =
    let new_sps = or_else u.latest_sps old.sps in
    let new_pps = or_else u.latest_pps old.pps in
    let kept : Accepted = record {
      parameters = record { sps = new_sps; pps = new_pps };
      candidate = none;
    } in
    let refused : Accepted = record { parameters = old; candidate = none } in
    if not (valid_h264_parameters new_sps new_pps)
    then refused
    else if not want_candidate
    then kept
    else if u.has_idr
    then idr_candidate old new_sps new_pps u.nalus
    else kept
