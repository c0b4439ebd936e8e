-- ===== src/H264/Scan.antt =====
-- internal/jetkvm/video.go: the start codes that captureDrainParameters meets in the fragments of a
-- unit, byte by byte, are those of the unit in one piece.
use jetkvm_mcp.Base.{
  ℕ, zero, suc, ◌≤◌, Bool, false, ◌||◌, List, [], ◌∷◌, ◌++◌, ◌≡◌, refl, ap, sym, ◌∙◌, arith, ◌==◌,
}
use jetkvm_mcp.H264.Nal.{Bytes, contains_code}
use jetkvm_mcp.H264.Drain.{Scan, scan_fragment}

abbrev zeros : ℕ → Bytes → Bytes
zeros zero bs = bs
zeros (suc n) bs = 0 ∷ zeros n bs

contains_code-skip :
    (b : ℕ) (bs : Bytes) → (b == 0) ≡ false → contains_code (b ∷ bs) ≡ contains_code bs
unfolding contains_code
contains_code-skip b [] h = ground arith
contains_code-skip b (c ∷ []) h = ground arith
contains_code-skip b (c ∷ d ∷ bs) h = ground arith

contains_code-skip_zero :
    (b : ℕ) (bs : Bytes) → (b == 0) ≡ false → contains_code (0 ∷ b ∷ bs) ≡ contains_code bs
unfolding contains_code
contains_code-skip_zero b [] h = ground arith
contains_code-skip_zero b (c ∷ bs) h = ground (arith, contains_code-skip b (c ∷ bs) h)

contains_code-skip_zeros :
    (b : ℕ) (bs : Bytes)
    → (b == 0) ≡ false
    → contains_code (0 ∷ 0 ∷ b ∷ bs) ≡ (b == 1 || contains_code bs)
unfolding contains_code
contains_code-skip_zeros b bs h = ground (arith, contains_code-skip_zero b bs h)

contains_code-more_zeros :
    (bs : Bytes) → contains_code (0 ∷ 0 ∷ 0 ∷ bs) ≡ contains_code (0 ∷ 0 ∷ bs)
unfolding contains_code
contains_code-more_zeros bs = ground arith

scan_fragment-found :
    (bs : Bytes) (r : ℕ) (found : Bool)
    → r ≤ 2
    → (scan_fragment bs (record { zero_run = r; found = found })).found
      ≡ (found || contains_code (zeros r bs))
unfolding scan_fragment contains_code
scan_fragment-found [] zero found h = ground arith
scan_fragment-found [] (suc zero) found h = ground arith
scan_fragment-found [] (suc (suc zero)) found h = ground arith
scan_fragment-found (b ∷ bs) zero found h = ground (
  arith,
  scan_fragment-found bs 1 found (omega arith),
  scan_fragment-found bs 0 found (omega arith),
  contains_code-skip b bs,
)
scan_fragment-found (b ∷ bs) (suc zero) found h = ground (
  arith,
  scan_fragment-found bs 2 found (omega arith),
  scan_fragment-found bs 0 found (omega arith),
  contains_code-skip_zero b bs,
)
scan_fragment-found (b ∷ bs) (suc (suc zero)) found h = ground (
  arith,
  scan_fragment-found bs 2 found (omega arith),
  scan_fragment-found bs 0 (found || b == 1) (omega arith),
  contains_code-more_zeros bs,
  contains_code-skip_zeros b bs,
)
scan_fragment-found bs (suc (suc (suc r))) found h = absurd (omega arith)

-- The fragments of a unit, one after another.
unfoldable pub scan_fragments : List Bytes → Scan → Scan
scan_fragments [] s = s
scan_fragments (f ∷ fs) s = scan_fragments fs (scan_fragment f s)

unfoldable pub joined : List Bytes → Bytes
joined [] = []
joined (f ∷ fs) = f ++ joined fs

scan_fragment-append :
    (xs ys : Bytes) (s : Scan) → scan_fragment (xs ++ ys) s ≡ scan_fragment ys (scan_fragment xs s)
unfolding scan_fragment
scan_fragment-append [] ys s = refl
scan_fragment-append (x ∷ xs) ys s = scan_fragment-append xs ys _

scan_fragments-joined :
    (fs : List Bytes) (s : Scan) → scan_fragments fs s ≡ scan_fragment (joined fs) s
unfolding scan_fragments scan_fragment joined
scan_fragments-joined [] s = refl
scan_fragments-joined (f ∷ fs) s =
    scan_fragments-joined fs (scan_fragment f s) ∙ sym (scan_fragment-append f (joined fs) s)

-- The zero run that captureDrainParameters carries from fragment to fragment finds a start code exactly
-- where bytes.Contains finds one in the fragments joined, also one that straddles fragments.
pub scan_fragments-contains_code :
    (fs : List Bytes)
    → (scan_fragments fs (record { zero_run = 0; found = false })).found ≡ contains_code (joined fs)
scan_fragments-contains_code fs =
    ap (λ s. s.found) (scan_fragments-joined fs _)
    ∙ scan_fragment-found (joined fs) 0 false (omega arith)
