-- ===== src/Gate/Tests.antt =====
-- internal/jetkvm/scheduling.go: the theorems about the gate at concrete callers.
use jetkvm_mcp.Errors.{sentinel, deadline_exceeded}
use jetkvm_mcp.Gate.Scheduled.{
  Request, capture_call, observed_gates, rpc_call, run_scheduled, run_scheduled-observed,
  upload_call,
}
use jetkvm_mcp.Base.{some, none, ◌+◌, ◌≤◌, true, false, List, [], ◌∷◌, ◌≡◌, ◌⊎◌, length}
use jetkvm_mcp.Gate.{Action, acquires, actions, gives_up, leaves, new_gate, wakes}
use jetkvm_mcp.Gate.Fair.{actions-excludes}

-- Caller 1 gets the gate, 2, 3 and 4 wait, 3 gives up, and 2 is handed the gate as its context ends.
abbrev crowd : List Action
crowd =
    acquires false 1
    ∷ acquires false 2
    ∷ acquires false 3
    ∷ acquires false 4
    ∷ gives_up 3
    ∷ leaves 1
    ∷ wakes true 2
    ∷ []

actions-excludes_example :
    (length (actions crowd new_gate).holders ≤ 1)
    × (((actions crowd new_gate).waiters ≡ [])
        ⊎ (length (actions crowd new_gate).holders + length (actions crowd new_gate).handed ≡ 1))
actions-excludes_example = actions-excludes crowd

-- A call, a capture whose gate is refused, and an upload.
abbrev some_requests : List Request
some_requests =
    record { kind = rpc_call; refused = none }
    ∷ record { kind = capture_call; refused = some (sentinel deadline_exceeded) }
    ∷ record { kind = upload_call; refused = none }
    ∷ []

run_scheduled-observed_example :
    observed_gates (run_scheduled true true none none some_requests) [] ≡ some []
run_scheduled-observed_example = run_scheduled-observed true true none none some_requests
