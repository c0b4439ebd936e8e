-- ===== src/H264/Window.antt =====
-- internal/jetkvm/video.go: the loop that moves the reorder window past the packets that have arrived.
use jetkvm_mcp.Base.{
  ℕ, zero, suc, ◌≤◌, ◌<◌, true, false, none, some, List, [], ◌∷◌, ◌≡◌, refl, ◌==◌, length, is_some,
  arith, Option-cases, inl, inr, ◌⊎◌,
}
use jetkvm_mcp.Base.Assoc.{lookup, delete}
use jetkvm_mcp.H264.Sequence.{ObservedPacket, add16, skip_arrived}

lookup-delete :
    {V : Type 0} (k j : ℕ) (m : List (ℕ × V))
    → (k == j) ≡ false
    → lookup j (delete k m) ≡ lookup j m
unfolding lookup delete
lookup-delete k j [] h = refl
lookup-delete k j ((i, w) ∷ m) h = ground (arith, lookup-delete k j m h)

length-delete :
    {V : Type 0} (k : ℕ) (m : List (ℕ × V))
    → is_some (lookup k m) ≡ true
    → suc (length (delete k m)) ≡ length m
unfolding lookup delete
length-delete k [] h = absurd (cc)
length-delete k ((i, w) ∷ m) h = ground (arith, length-delete k m)

add16-apart : (n i f : ℕ) → i < f → f < 65536 → (add16 n f == add16 n i) ≡ false
unfolding add16
add16-apart n i f l b = ground arith

-- Consecutive sequence numbers that are there are no more than the entries.
present_le :
    {V : Type 0} (f n : ℕ) (m : List (ℕ × V))
    → f ≤ 65536
    → ((i : ℕ) → i < f → is_some (lookup (add16 n i) m) ≡ true)
    → f ≤ length m
present_le zero n m b p = omega arith
present_le (suc f) n m b p =
    let k = add16 n f in
    let l = length-delete k m (p f (omega arith)) in
    let rest = present_le f n (delete k m) (omega arith) (λ i q. ground (
      arith,
      lookup-delete k (add16 n i) m (add16-apart n i f q (omega arith)),
      p i (omega arith),
    )) in
    omega (arith, l, rest)

add16-shift : (n i : ℕ) → add16 (add16 n 1) i ≡ add16 n (suc i)
unfolding add16
add16-shift n i = omega arith

add16-zero : (n : ℕ) → n < 65536 → add16 n 0 ≡ n
unfolding add16
add16-zero n h = omega arith

add16-bound : (n i : ℕ) → add16 n i < 65536
unfolding add16
add16-bound n i = omega arith

arrived_next :
    {V : Type 0} (f n : ℕ) (m : List (ℕ × V)) (o : V)
    → lookup n m ≡ some o
    → n < 65536
    → ((i : ℕ) → i < f → is_some (lookup (add16 (add16 n 1) i) m) ≡ true)
    → (i : ℕ) → i < suc f
    → is_some (lookup (add16 n i) m) ≡ true
arrived_next f n m o e b r zero q = ground (arith, add16-zero n b)
arrived_next f n m o e b r (suc i) q = ground (arith, add16-shift n i, r i (omega arith))

skip_arrived-ends_or_present :
    (f n : ℕ) (m : List (ℕ × ObservedPacket))
    → n < 65536
    → (lookup (skip_arrived f m n) m ≡ none)
      ⊎ ((i : ℕ) → i < f → is_some (lookup (add16 n i) m) ≡ true)
unfolding skip_arrived
skip_arrived-ends_or_present zero n m b = inr (λ i q. absurd (omega arith))
skip_arrived-ends_or_present (suc f) n m b = elim (Option-cases (lookup n m)) [
  | inl e ↦ inl (ground arith)
  | inr (o, e) ↦ elim (skip_arrived-ends_or_present f (add16 n 1) m (add16-bound n 1)) [
    | inl r ↦ inl (ground arith)
    | inr r ↦ inr (λ i q. arrived_next f n m o e b r i q)
  ]
]

-- The reorder window stops at a sequence number that has not arrived: the loop of process ends after
-- at most as many rounds as packets have arrived, short of all 65536 sequence numbers.
pub skip_arrived-ends :
    (n : ℕ) (m : List (ℕ × ObservedPacket))
    → n < 65536
    → length m < 65536
    → lookup (skip_arrived (suc (length m)) m n) m ≡ none
skip_arrived-ends n m b l = elim (skip_arrived-ends_or_present (suc (length m)) n m b) [
  | inl e ↦ e
  | inr r ↦ absurd (omega (arith, present_le (suc (length m)) n m (omega arith) r))
]
