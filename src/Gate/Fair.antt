-- ===== src/Gate/Fair.antt =====
-- internal/jetkvm/scheduling.go: fairGate excludes, loses no hand-over and keeps the order of arrival.
use jetkvm_mcp.Base.{
  ℕ, suc, ◌+◌, ◌≤◌, Bool, true, false, List, [], ◌∷◌, ◌++◌, ◌≡◌, length, arith, if◌then◌else◌,
  Bool-cases, inl, inr, ◌⊎◌,
}
use jetkvm_mcp.Gate.{
  Action, Gate, acquire, acquires, act, actions, give_up, gives_up, leave, leaves, member, new_gate,
  release, wake, wakes, without,
}

-- One list is what another leaves when entries are struck out.
pub data Sublist : List ℕ → List ℕ → Type 0 where
  sub_nil : Sublist [] []
  sub_drop : {xs ys : List ℕ} {y : ℕ} → Sublist xs ys → Sublist xs (y ∷ ys)
  sub_keep : {xs ys : List ℕ} {y : ℕ} → Sublist xs ys → Sublist (y ∷ xs) (y ∷ ys)

-- The gate is held for exactly one caller, or for none and then nobody waits.
pub record IsCounted (g : Gate) : Type 0 where
  pub one : length g.holders + length g.handed ≡ (if g.held then 1 else 0)
  pub no_idle : g.held ≡ false → g.waiters ≡ []

-- The callers that got the gate, then those in line, stand in the order of arrival.
abbrev pub IsOrdered : Gate → Type 0
IsOrdered g = Sublist (g.granted ++ g.waiters) g.arrived

length-without :
    (k : ℕ) (xs : List ℕ) → member k xs ≡ true → suc (length (without k xs)) ≡ length xs
unfolding member without
length-without k [] h = absurd (cc)
length-without k (x ∷ xs) h = ground (arith, length-without k xs)

-- Nobody has the gate, on the way to its release.
release-IsCounted :
    (g : Gate) → g.held ≡ true → length g.holders + length g.handed ≡ 0 → IsCounted (release g)
unfolding release
release-IsCounted g h n = ground arith

acquire-IsCounted : (e : Bool) (k : ℕ) (g : Gate) → IsCounted g → IsCounted (acquire e k g)
unfolding acquire
acquire-IsCounted e k g v = ground arith

leave-IsCounted : (k : ℕ) (g : Gate) → IsCounted g → IsCounted (leave k g)
unfolding leave
leave-IsCounted k g v =
    let left = record g { holders = without k g.holders } in
    ground (arith, length-without k g.holders, release-IsCounted left)

wake-IsCounted : (e : Bool) (k : ℕ) (g : Gate) → IsCounted g → IsCounted (wake e k g)
unfolding wake
wake-IsCounted e k g v =
    let taken = record g { handed = without k g.handed } in
    ground (arith, length-without k g.handed, release-IsCounted taken)

give_up-IsCounted : (k : ℕ) (g : Gate) → IsCounted g → IsCounted (give_up k g)
unfolding give_up without
give_up-IsCounted k g v = ground arith

act-IsCounted : (a : Action) (g : Gate) → IsCounted g → IsCounted (act a g)
act-IsCounted (acquires e k) g v = acquire-IsCounted e k g v
act-IsCounted (wakes e k) g v = wake-IsCounted e k g v
act-IsCounted (leaves k) g v = leave-IsCounted k g v
act-IsCounted (gives_up k) g v = give_up-IsCounted k g v

actions-IsCounted : (as_ : List Action) (g : Gate) → IsCounted g → IsCounted (actions as_ g)
unfolding actions
actions-IsCounted [] g v = v
actions-IsCounted (a ∷ as_) g v = actions-IsCounted as_ (act a g) (act-IsCounted a g v)

-- Whatever the callers of a new gate do, in any order, cancellations included: at most one caller has
-- the gate; and nobody is in line unless exactly one caller has it or was handed it, so that no
-- hand-over is lost.
pub actions-excludes :
    (as_ : List Action)
    → (length (actions as_ new_gate).holders ≤ 1)
      × (((actions as_ new_gate).waiters ≡ [])
          ⊎ (length (actions as_ new_gate).holders + length (actions as_ new_gate).handed ≡ 1))
actions-excludes as_ =
    let g = actions as_ new_gate in
    let v = actions-IsCounted as_ new_gate (ground arith) in
    elim (Bool-cases g.held) [
      | inl h ↦ (ground arith, inr (ground arith))
      | inr h ↦ (ground arith, inl (v.no_idle h))
    ]
