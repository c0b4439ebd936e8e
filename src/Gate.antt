-- ===== src/Gate.antt =====
-- internal/jetkvm/scheduling.go: the cancellable first-in-first-out gate (fairGate). Each stretch under
-- the mutex is one step; a caller is a number.
pub mod Fair
pub mod Scheduled
pub mod Tests
use jetkvm_mcp.Base.{
  ℕ, zero, suc, ◌+◌, Bool, true, false, not, ◌&&◌, ◌||◌, List, [], ◌∷◌, ◌++◌, ◌==◌, is_empty,
  if◌then◌else◌,
}

-- The gate, and where its callers stand: `holders` are those whose `acquire` returned nil and that
-- have not released, `handed` those that `release` took from the queue and that have not run since.
-- `arrived` and `granted` record the order in which callers got into line and got the gate.
pub record Gate : Type 0 where
  pub held : Bool
  pub waiters : List ℕ
  pub holders : List ℕ
  pub handed : List ℕ
  pub arrived : List ℕ
  pub granted : List ℕ

abbrev pub new_gate : Gate
new_gate = record {
  held = false;
  waiters = [];
  holders = [];
  handed = [];
  arrived = [];
  granted = [];
}

unfoldable pub member : ℕ → List ℕ → Bool
member k [] = false
member k (x ∷ xs) = x == k || member k xs

-- The loop that takes a waiter out of the queue.
unfoldable pub without : ℕ → List ℕ → List ℕ
without k [] = []
without k (x ∷ xs) = let rest = without k xs in if x == k then xs else x ∷ rest

-- The first stretch of `acquire`, given whether the context has ended.
unfoldable pub acquire : Bool → ℕ → Gate → Gate
acquire ended k g =
    let in_line = g.arrived ++ k ∷ [] in
    let entered = record g {
      held = true;
      holders = k ∷ g.holders;
      arrived = in_line;
      granted = g.granted ++ k ∷ [];
    } in
    let queued = record g { waiters = g.waiters ++ k ∷ []; arrived = in_line } in
    if ended then g else if not g.held && is_empty g.waiters then entered else queued

abbrev pub release_to : Gate → List ℕ → Gate
release_to g [] = record g { held = false }
release_to g (k ∷ ks) = record g {
  waiters = ks;
  handed = k ∷ g.handed;
  granted = g.granted ++ k ∷ [];
}

unfoldable pub release : Gate → Gate
release g = release_to g g.waiters

-- A caller that holds the gate releases it.
unfoldable pub leave : ℕ → Gate → Gate
leave k g =
    let left = release (record g { holders = without k g.holders }) in
    if member k g.holders then left else g

-- A waiter whose channel is closed runs: it returns with the gate, or, where its context has ended,
-- passes the gate on. So does one that sees the end of its context first and is no longer in line.
unfoldable pub wake : Bool → ℕ → Gate → Gate
wake ended k g =
    let taken = record g { handed = without k g.handed } in
    let entered = record taken { holders = k ∷ g.holders } in
    let passed = release taken in
    if not (member k g.handed) then g else if ended then passed else entered

-- A waiter that sees the end of its context while it is in line.
unfoldable pub give_up : ℕ → Gate → Gate
give_up k g = record g { waiters = without k g.waiters }

pub data Action : Type 0 where
  acquires wakes : Bool → ℕ → Action
  leaves gives_up : ℕ → Action

abbrev pub act : Action → Gate → Gate
act (acquires ended k) g = acquire ended k g
act (wakes ended k) g = wake ended k g
act (leaves k) g = leave k g
act (gives_up k) g = give_up k g

unfoldable pub actions : List Action → Gate → Gate
actions [] g = g
actions (a ∷ rest) g = actions rest (act a g)
