-- ===== src/Manager/Admission.antt =====
-- internal/jetkvm/manager.go: admission of operations and of lifecycle changes (withScheduledOperation,
-- runOperation, runLifecycleOperation). A call and a device go by numbers; `running` records where each
-- call that has been admitted stands.
pub mod Counts
pub mod Exact
pub mod Spec
pub mod Refines
use jetkvm_mcp.Base.{
  ℕ, zero, suc, ◌+◌, ◌-◌, Bool, true, false, not, ◌&&◌, ◌||◌, Option, none, some, List, [], ◌∷◌,
  ◌==◌, leb, is_some, if◌then◌else◌,
}
use jetkvm_mcp.Errors.{
  Error, busy_not_sent, classify, sentinel, session_closed, tool_outcome_not_sent,
}

-- Where a call stands: admitted; with a permit to capture; its permits released, and about to leave; a
-- lifecycle change before it has its permit, with it, and when
-- it has given it back.
pub data Stage : Type 0 where
  admitted capturing released preparing changing changed : Stage

pub record Call : Type 0 where
  pub number : ℕ
  pub device : ℕ
  pub stage : Stage

-- `deviceAdmission`, and the permits of `deviceOps` that are taken.
pub record DeviceAdmission : Type 0 where
  pub ordinary : ℕ
  pub lifecycle : Bool
  pub operations : ℕ

pub record Capacity : Type 0 where
  pub max_operations : ℕ
  pub max_operations_per_device : ℕ
  pub max_captures : ℕ

pub record Manager : Type 0 where
  pub closed : Bool
  pub operations : ℕ
  pub captures : ℕ
  pub devices : ℕ → DeviceAdmission
  pub running : List Call
  -- what the calls returned, newest first
  pub returned : List (ℕ × Option Error)

abbrev pub new_manager : Manager
new_manager = record {
  closed = false;
  operations = 0;
  captures = 0;
  devices = λ d. record { ordinary = 0; lifecycle = false; operations = 0 };
  running = [];
  returned = [];
}

unfoldable pub put_device : ℕ → DeviceAdmission → (ℕ → DeviceAdmission) → ℕ → DeviceAdmission
put_device d a devices e = if d == e then a else devices e

unfoldable pub find_call : ℕ → List Call → Option Call
find_call k [] = none
find_call k (c ∷ cs) = if c.number == k then some c else find_call k cs

unfoldable pub set_stage : ℕ → Stage → List Call → List Call
set_stage k stage [] = []
set_stage k stage (c ∷ cs) =
    let moved = record c { stage = stage } in
    let rest = set_stage k stage cs in if c.number == k then moved ∷ cs else c ∷ rest

unfoldable pub drop_call : ℕ → List Call → List Call
drop_call k [] = []
drop_call k (c ∷ cs) = let rest = drop_call k cs in if c.number == k then cs else c ∷ rest

abbrev pub returns : ℕ → Option Error → Manager → Manager
returns k e m = record m { returned = (k, e) ∷ m.returned }

abbrev pub closed_not_sent : Error
closed_not_sent = classify (sentinel session_closed) tool_outcome_not_sent

abbrev pub start : ℕ → ℕ → Stage → Manager → Manager
start k d stage m = record m {
  running = record { number = k; device = d; stage = stage } ∷ m.running;
}

-- `withScheduledOperation` under the device's mutex. `others` are permits that calls for other devices
-- hold for the moment of their own admission.
unfoldable pub admit_call : Capacity → ℕ → ℕ → ℕ → Manager → Manager
admit_call cap others k d m =
    let a = m.devices d in
    let busy = returns k (some busy_not_sent) m in
    let taken = record a { ordinary = suc a.ordinary; operations = suc a.operations } in
    let entered =
      start k d admitted
        (record m { operations = suc m.operations; devices = put_device d taken m.devices }) in
    if is_some (find_call k m.running)
    then m
    else if m.closed
    then returns k (some closed_not_sent) m
    else if a.lifecycle
    then busy
    else if leb cap.max_operations (m.operations + others)
    then busy
    else if leb cap.max_operations_per_device a.operations
    then busy
    else entered

-- The deferred releases of `runOperation`, all but the last: the permits go back.
abbrev pub give_back : Call → Bool → Manager → Manager
give_back c with_capture m =
    let a = m.devices c.device in
    record m {
      operations = m.operations - 1;
      captures = if with_capture then m.captures - 1 else m.captures;
      devices = put_device c.device (record a { operations = a.operations - 1 }) m.devices;
      running = set_stage c.number released m.running;
    }

-- A capture takes its permit, or is refused.
abbrev pub take_capture : Capacity → Call → Manager → Manager
take_capture cap c m =
    let taken = record m {
      captures = suc m.captures;
      running = set_stage c.number capturing m.running;
    } in
    if leb cap.max_captures m.captures
    then give_back c false (returns c.number (some busy_not_sent) m)
    else taken

-- The operation returned; its permits go back.
abbrev pub finish : Option Error → Call → Manager → Manager
finish e c m = elim c.stage [
  | admitted ↦ give_back c false (returns c.number e m)
  | capturing ↦ give_back c true (returns c.number e m)
  | other ↦ m
]

-- The last deferred call: the device counts one operation less.
abbrev pub leave_device : Call → Manager → Manager
leave_device c m =
    let a = m.devices c.device in
    record m {
      devices = put_device c.device (record a { ordinary = a.ordinary - 1 }) m.devices;
      running = drop_call c.number m.running;
    }

-- The error of a context that is over, as it is returned.
abbrev pub over_not_sent : Option Error → Option Error
over_not_sent none = none
over_not_sent (some e) = some (classify e tool_outcome_not_sent)

-- `runLifecycleOperation` under the device's mutex, given the error of the context.
unfoldable pub prepare : Option Error → ℕ → ℕ → Manager → Manager
prepare ended k d m =
    let a = m.devices d in
    let entered =
      start k d preparing
        (record m { devices = put_device d (record a { lifecycle = true }) m.devices }) in
    if is_some (find_call k m.running)
    then m
    else if is_some ended
    then returns k (over_not_sent ended) m
    else if m.closed
    then returns k (some closed_not_sent) m
    else if a.lifecycle || not (a.ordinary == 0)
    then returns k (some busy_not_sent) m
    else entered

-- The end of a lifecycle change.
abbrev pub settle_change : Call → Manager → Manager
settle_change c m =
    let a = m.devices c.device in
    record m {
      devices = put_device c.device (record a { lifecycle = false }) m.devices;
      running = drop_call c.number m.running;
    }

abbrev pub take_permit : Capacity → ℕ → Call → Manager → Manager
take_permit cap others c m =
    let taken = record m {
      operations = suc m.operations;
      running = set_stage c.number changing m.running;
    } in
    if leb cap.max_operations (m.operations + others)
    then settle_change c (returns c.number (some busy_not_sent) m)
    else taken

abbrev pub finish_change : Option Error → Call → Manager → Manager
finish_change e c m =
    returns c.number e
      (record m { operations = m.operations - 1; running = set_stage c.number changed m.running })

-- What may happen next: a call arrives for a device; a capture tries for its permit; an operation
-- returns; a call leaves; a lifecycle change arrives, tries for its permit,
-- returns, and clears its mark; the manager closes.
pub data ManagerAction : Type 0 where
  admits : ℕ → ℕ → ℕ → ManagerAction
  captures_now : ℕ → ManagerAction
  finishes : ℕ → Option Error → ManagerAction
  leaves : ℕ → ManagerAction
  prepares : ℕ → ℕ → Option Error → ManagerAction
  permits : ℕ → ℕ → ManagerAction
  changes : ℕ → Option Error → ManagerAction
  settles : ℕ → ManagerAction
  closes : ManagerAction

abbrev pub same_stage : Stage → Stage → Bool
same_stage admitted admitted = true
same_stage capturing capturing = true
same_stage released released = true
same_stage preparing preparing = true
same_stage changing changing = true
same_stage changed changed = true
same_stage _ _ = false

-- A step of a call that stands at a stage.
abbrev pub at_stage : Stage → (Call → Manager → Manager) → Option Call → Manager → Manager
at_stage stage f none m = m
at_stage stage f (some c) m = if same_stage c.stage stage then f c m else m

abbrev pub finish_at : Option Error → Option Call → Manager → Manager
finish_at e none m = m
finish_at e (some c) m = finish e c m

unfoldable pub manager_step : Capacity → ManagerAction → Manager → Manager
manager_step cap (admits others k d) m = admit_call cap others k d m
manager_step cap (captures_now k) m = at_stage admitted (take_capture cap) (find_call k m.running) m
manager_step cap (finishes k e) m = finish_at e (find_call k m.running) m
manager_step cap (leaves k) m = at_stage released leave_device (find_call k m.running) m
manager_step cap (prepares k d ended) m = prepare ended k d m
manager_step cap (permits others k) m =
    at_stage preparing (take_permit cap others) (find_call k m.running) m
manager_step cap (changes k e) m = at_stage changing (finish_change e) (find_call k m.running) m
manager_step cap (settles k) m = at_stage changed settle_change (find_call k m.running) m
manager_step cap closes m = record m { closed = true }

unfoldable pub acts : Capacity → List ManagerAction → Manager → Manager
acts cap [] m = m
acts cap (a ∷ rest) m = acts cap rest (manager_step cap a m)
