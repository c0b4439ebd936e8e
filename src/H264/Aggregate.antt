-- ===== src/H264/Aggregate.antt =====
-- internal/jetkvm/video.go: aggregated payloads (STAP-A), against the form that RFC 6184 gives them.
use mathlib.Core.List.{append-nil, append_assoc}
use jetkvm_mcp.Base.{
  ℕ, zero, suc, ◌+◌, ◌/◌, ◌%◌, ◌≤◌, ◌<◌, true, false, some, List, [], ◌∷◌, ◌++◌, ◌≡◌, refl, ap, sym,
  length, take, drop, arith, All, length-append,
}
use jetkvm_mcp.H264.Nal.{
  Bytes, Stap, be16, first_byte, nal_type, nal_nri, bit7, valid_single_nal_type, valid_h264_nalu,
  stap_unit, stap_loop, raise_nri, stap_a_annex_b_size,
}
use jetkvm_mcp.H264.AccessUnit.{append_aggregate, append_validated_nalu}
use jetkvm_mcp.H264.Parameters.{annex_b_of}

-- A NAL unit that an aggregate may hold.
pub record IsUnit (nalu : Bytes) : Type 0 where
  pub some_byte : 0 < length nalu
  pub sized : length nalu < 65536
  pub not_forbidden : bit7 (first_byte nalu) ≡ false
  pub single : valid_single_nal_type (nal_type (first_byte nalu)) ≡ true

-- The units behind the header, each behind its size in two bytes.
unfoldable pub encode_units : List Bytes → Bytes
encode_units [] = []
encode_units (x ∷ xs) = (length x / 256) ∷ (length x % 256) ∷ (x ++ encode_units xs)

-- The greatest reference indicator.
unfoldable pub strongest : List Bytes → ℕ → ℕ
strongest [] n = n
strongest (x ∷ xs) n = strongest xs (raise_nri (nal_nri (first_byte x)) n)

be16-split : (n : ℕ) → be16 (n / 256) (n % 256) ≡ n
be16-split n = omega arith

drop-append : (xs ys : Bytes) → drop (length xs) (xs ++ ys) ≡ ys
drop-append [] ys = refl
drop-append (x ∷ xs) ys = drop-append xs ys

take-append : (xs ys : Bytes) → take (length xs) (xs ++ ys) ≡ xs
take-append [] ys = refl
take-append (x ∷ xs) ys = ap (λ zs. x ∷ zs) (take-append xs ys)

first_byte-append : (xs ys : Bytes) → 0 < length xs → first_byte (xs ++ ys) ≡ first_byte xs
first_byte-append [] ys h = absurd (omega arith)
first_byte-append (x ∷ xs) ys h = refl

length-annex_b_of :
    (x : Bytes) (xs : List Bytes)
    → length (annex_b_of (x ∷ xs)) ≡ 4 + length x + length (annex_b_of xs)
unfolding annex_b_of
length-annex_b_of x xs = omega (arith, length-append x (annex_b_of xs))

stap_unit-IsUnit :
    (x : Bytes) (rest : Bytes) (s : Stap)
    → IsUnit x
    → s.projected + 4 + length x ≤ 4194304
    → stap_unit (length x) (x ++ rest) s
      ≡ some (record {
        projected = s.projected + 4 + length x;
        max_nri = raise_nri (nal_nri (first_byte x)) s.max_nri;
      })
unfolding stap_unit
stap_unit-IsUnit x rest s u b =
    ground (arith, length-append x rest, first_byte-append x rest u.some_byte)

stap_loop-encode_units :
    (f : ℕ) (xs : List Bytes) (s : Stap)
    → length xs < f
    → All IsUnit xs
    → s.projected + length (annex_b_of xs) ≤ 4194304
    → stap_loop f (encode_units xs) s
      ≡ some (record {
        projected = s.projected + length (annex_b_of xs);
        max_nri = strongest xs s.max_nri;
      })
unfolding stap_loop encode_units strongest annex_b_of
stap_loop-encode_units zero xs s l u b = absurd (omega arith)
stap_loop-encode_units (suc f) [] s l u b = ground arith
stap_loop-encode_units (suc f) (x ∷ xs) s l (u, us) b =
    let t : Stap = record {
      projected = s.projected + 4 + length x;
      max_nri = raise_nri (nal_nri (first_byte x)) s.max_nri;
    } in
    let more = length-append x (annex_b_of xs) in
    ground (
      arith,
      be16-split (length x),
      drop-append x (encode_units xs),
      stap_unit-IsUnit x (encode_units xs) s u (omega (arith, more)),
      stap_loop-encode_units f xs t (omega arith) us (omega (arith, more)),
      more,
    )

encode_units-long : (xs : List Bytes) → length xs ≤ length (encode_units xs)
unfolding encode_units
encode_units-long [] = omega arith
encode_units-long (x ∷ xs) = omega (arith, encode_units-long xs, length-append x (encode_units xs))

encode_units-some : (x : Bytes) (xs : List Bytes) → IsUnit x → 3 ≤ length (encode_units (x ∷ xs))
unfolding encode_units
encode_units-some x xs u = omega (arith, u.some_byte, length-append x (encode_units xs))

append_aggregate-encode_units :
    (f : ℕ) (xs done : List Bytes)
    → length xs < f
    → All (λ x. valid_h264_nalu x ≡ true) xs
    → append_aggregate f done (encode_units xs) ≡ some (done ++ xs)
unfolding append_aggregate append_validated_nalu encode_units
append_aggregate-encode_units zero xs done l v = absurd (omega arith)
append_aggregate-encode_units (suc f) [] done l v = ap some (sym (append-nil done))
append_aggregate-encode_units (suc f) (x ∷ xs) done l (v, vs) = ground (
  arith,
  be16-split (length x),
  take-append x (encode_units xs),
  drop-append x (encode_units xs),
  append_aggregate-encode_units f xs (done ++ x ∷ []) (omega arith) vs,
  append_assoc done (x ∷ []) xs,
)

-- Units that an aggregate may hold, behind a header that bears the strongest of their reference
-- indicators: where their Annex B form is at most 4 MiB, the aggregate is well formed, and its size is
-- that of the Annex B form. The loop over the payload ends within its fuel.
pub stap_a-encode_units :
    (header : ℕ) (x : Bytes) (xs : List Bytes)
    → All IsUnit (x ∷ xs)
    → length (annex_b_of (x ∷ xs)) ≤ 4194304
    → nal_nri header ≡ strongest (x ∷ xs) 0
    → stap_a_annex_b_size (header ∷ encode_units (x ∷ xs)) ≡ some (length (annex_b_of (x ∷ xs)))
unfolding stap_a_annex_b_size
stap_a-encode_units header x xs u b n =
    let rest = encode_units (x ∷ xs) in
    let start : Stap = record { projected = 0; max_nri = 0 } in
    ground (
      arith,
      encode_units-some x xs u.0,
      stap_loop-encode_units (suc (length rest)) (x ∷ xs) start
          (omega (arith, encode_units-long (x ∷ xs))) u (omega arith),
    )

-- What depacketizeH264AccessUnit takes out of an aggregate of valid units is the units, in order.
pub append_aggregate-round_trip :
    (header : ℕ) (xs : List Bytes)
    → All (λ x. valid_h264_nalu x ≡ true) xs
    → append_aggregate (length (header ∷ encode_units xs)) [] (encode_units xs) ≡ some xs
append_aggregate-round_trip header xs v =
    append_aggregate-encode_units (suc (length (encode_units xs))) xs []
      (omega (arith, encode_units-long xs)) v
