-- ===== src/H264/History.antt =====
-- internal/jetkvm/video.go: rememberCompleted keeps the order and the map of the units in step.
use jetkvm_mcp.Base.{
  ℕ, ◌≤◌, Bool, none, some, List, [], ◌∷◌, ◌++◌, ◌≡◌, refl, length, arith, length-append,
  Option-cases, inl, inr,
}
use jetkvm_mcp.Base.Assoc.{assign, delete, lookup}
use jetkvm_mcp.H264.State.{CompletedUnit, History, remember, trimmed_of}

-- The keys of a map, in order.
unfoldable pub keys : {V : Type 0} → List (ℕ × V) → List ℕ
keys [] = []
keys ((k, v) ∷ m) = k ∷ keys m

pub keys-assign_new :
    {V : Type 0} (k : ℕ) (v : V) (m : List (ℕ × V))
    → lookup k m ≡ none
    → keys (assign k v m) ≡ keys m ++ k ∷ []
unfolding keys lookup assign
keys-assign_new k v [] h = refl
keys-assign_new k v ((i, w) ∷ m) h = ground (arith, keys-assign_new k v m)

pub keys-assign_old :
    {V : Type 0} (k : ℕ) (v w : V) (m : List (ℕ × V))
    → lookup k m ≡ some w
    → keys (assign k v m) ≡ keys m
unfolding keys lookup assign
keys-assign_old k v w [] h = absurd (cc)
keys-assign_old k v w ((i, u) ∷ m) h = ground (arith, keys-assign_old k v w m)

-- The map holds the units of the order, and no more than the window.
pub record IsBounded (h : History) : Type 0 where
  pub in_order : keys h.completed ≡ h.completed_order
  pub within : length h.completed_order ≤ 64

keys-delete :
    {V : Type 0} (k : ℕ) (ks : List ℕ) (m : List (ℕ × V)) → keys m ≡ k ∷ ks → keys (delete k m) ≡ ks
unfolding keys delete
keys-delete k ks [] h = absurd (cc)
keys-delete k ks ((i, w) ∷ m) h = ground (arith)

trimmed_of-IsBounded :
    (h : History) (order : List ℕ)
    → h.completed_order ≡ order
    → keys h.completed ≡ order
    → length order ≤ 65
    → IsBounded (trimmed_of h order)
trimmed_of-IsBounded h [] e k b = ground arith
trimmed_of-IsBounded h (o ∷ os) e k b = ground (arith, keys-delete o os h.completed k)

pub remember-IsBounded :
    (t f : ℕ) (b : Bool) (h : History) → IsBounded h → IsBounded (remember t f b h)
unfolding remember
remember-IsBounded t f b h v = elim (Option-cases (lookup t h.completed)) [
  | inl n ↦
      let unit : CompletedUnit = record { frontier = f; has_frontier = b } in
      let added : History = record {
        completed = assign t unit h.completed;
        completed_order = h.completed_order ++ t ∷ [];
      } in
      ground (
        arith,
        trimmed_of-IsBounded added added.completed_order refl,
        keys-assign_new t unit h.completed n,
        length-append h.completed_order (t ∷ []),
      )
  | inr (u, s) ↦ ground arith
]
