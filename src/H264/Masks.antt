-- ===== src/H264/Masks.antt =====
-- internal/jetkvm/video.go: the bit masks of a header byte, which the model writes by division.
use jetkvm_mcp.Base.{
  ℕ, ◌<◌, Bool, true, not, ◌&&◌, ◌≡◌, refl, ◌==◌, arith, all_below, all_below-holds, bit_and,
}
use jetkvm_mcp.H264.Nal.{bit5, bit6, bit7, nal_nri, nal_type}

abbrev same_test : Bool → Bool → Bool
same_test true b = b
same_test _ b = not b

abbrev masks_agree : ℕ → Bool
masks_agree b =
    nal_type b == bit_and b 31
    && nal_nri b == bit_and b 96
    && same_test (bit7 b) (not (bit_and b 128 == 0))
    && same_test (bit6 b) (not (bit_and b 64 == 0))
    && same_test (bit5 b) (not (bit_and b 32 == 0))

all_bytes : all_below masks_agree 256 ≡ true
unfolding all_below
all_bytes = refl

-- On a byte, the type, the reference indicator and the flags of the model are what the masks of the
-- source give.
pub nal_type-masks :
    (b : ℕ)
    → b < 256
    → (nal_type b ≡ bit_and b 31)
      × (nal_nri b ≡ bit_and b 96)
      × (bit7 b ≡ not (bit_and b 128 == 0))
      × (bit6 b ≡ not (bit_and b 64 == 0))
      × (bit5 b ≡ not (bit_and b 32 == 0))
nal_type-masks b h = let q = all_below-holds masks_agree 256 b all_bytes h in ground arith
