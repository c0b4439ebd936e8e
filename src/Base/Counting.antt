-- ===== src/Base/Counting.antt =====
-- Counting the elements of a list, and taking out the first of a kind.
use Prim.Native.Nat.{ℕ, ◌+◌, ◌-◌, ◌≤◌}
use mathlib.Core.Path.{◌≡◌}
use mathlib.Core.Bool.{Bool}
use mathlib.Core.List.{List, [], ◌∷◌, ◌++◌}
use native.Mathlib.Omega.{arith}
use jetkvm_mcp.Base.Tests.{◌==◌, if◌then◌else◌}
use jetkvm_mcp.Base.Lists.{length}

abbrev pub one_if : Bool → ℕ
one_if b = if b then 1 else 0

module _ {ℓ} {A : Type ℓ} where
  unfoldable pub count : (A → Bool) → List A → ℕ
  count p [] = 0
  count p (x ∷ xs) = one_if (p x) + count p xs

  pub count-append : (p : A → Bool) (xs ys : List A) → count p (xs ++ ys) ≡ count p xs + count p ys
  unfolding count
  count-append p [] ys = omega arith
  count-append p (x ∷ xs) ys = omega (arith, count-append p xs ys)

-- The map of ids to waiters, as the list of its ids.
unfoldable pub remove_id : ℕ → List ℕ → List ℕ
remove_id k [] = []
remove_id k (j ∷ js) = let rest = remove_id k js in if j == k then js else j ∷ rest

abbrev pub is_id : ℕ → ℕ → Bool
is_id k j = j == k

pub count-remove_id :
    (k i : ℕ) (js : List ℕ)
    → count (is_id i) (remove_id k js)
      ≡ (if k == i then count (is_id i) js - 1 else count (is_id i) js)
unfolding count remove_id
count-remove_id k i [] = ground arith
count-remove_id k i (j ∷ js) = ground (arith, count-remove_id k i js)

pub length-remove_id_le : (k : ℕ) (js : List ℕ) → length (remove_id k js) ≤ length js
unfolding remove_id
length-remove_id_le k [] = omega arith
length-remove_id_le k (j ∷ js) = ground (arith, length-remove_id_le k js)
