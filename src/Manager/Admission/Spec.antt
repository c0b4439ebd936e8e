-- ===== src/Manager/Admission/Spec.antt =====
-- internal/jetkvm/manager.go: what admission promises, with no counters: every decision is taken by
-- looking at the calls that are running.
use jetkvm_mcp.Base.{
  ℕ, ◌+◌, Bool, true, false, not, ◌||◌, Option, none, some, List, [], ◌∷◌, ◌==◌, leb, is_some,
  if◌then◌else◌,
}
use jetkvm_mcp.Errors.{Error, busy_not_sent}
use jetkvm_mcp.Manager.Admission.{
  ManagerAction, Call, Capacity, Manager, Stage, admits, admitted, captures_now, capturing, changed,
  changes, changing, closed_not_sent, closes, drop_call, find_call, finishes, leaves, over_not_sent,
  permits, prepares, preparing, released, same_stage, set_stage, settles,
}
use jetkvm_mcp.Manager.Admission.Counts.{
  count_calls, holds_capture, holds_device, holds_operation, is_change, is_ordinary,
}

pub record Admissions : Type 0 where
  pub closed : Bool
  pub running : List Call
  pub returned : List (ℕ × Option Error)

abbrev pub no_admissions : Admissions
no_admissions = record { closed = false; running = []; returned = [] }

-- What is seen of a manager.
abbrev pub view : Manager → Admissions
view m = record { closed = m.closed; running = m.running; returned = m.returned }

abbrev answers : ℕ → Option Error → Admissions → Admissions
answers k e s = record s { returned = (k, e) ∷ s.returned }

abbrev moves : ℕ → Stage → Admissions → Admissions
moves k stage s = record s { running = set_stage k stage s.running }

abbrev drops : ℕ → Admissions → Admissions
drops k s = record s { running = drop_call k s.running }

abbrev enters : ℕ → ℕ → Stage → Admissions → Admissions
enters k d stage s = record s {
  running = record { number = k; device = d; stage = stage } ∷ s.running;
}

-- The calls of a list that are running for something, at most `n` of them.
abbrev is_full : ℕ → (Call → Bool) → ℕ → Admissions → Bool
is_full n p others s = leb n (count_calls p s.running + others)

-- A call is admitted where its device has no lifecycle change and both capacities have room.
abbrev pub spec_admit : Capacity → ℕ → ℕ → ℕ → Admissions → Admissions
spec_admit cap others k d s =
    if is_some (find_call k s.running)
    then s
    else if s.closed
    then answers k (some closed_not_sent) s
    else if not (count_calls (is_change d) s.running == 0)
        || is_full cap.max_operations holds_operation others s
        || is_full cap.max_operations_per_device (holds_device d) 0 s
    then answers k (some busy_not_sent) s
    else enters k d admitted s

-- A lifecycle change begins where its device has no call of either kind.
abbrev pub spec_prepare : Option Error → ℕ → ℕ → Admissions → Admissions
spec_prepare ended k d s =
    if is_some (find_call k s.running)
    then s
    else if is_some ended
    then answers k (over_not_sent ended) s
    else if s.closed
    then answers k (some closed_not_sent) s
    else if not (count_calls (is_change d) s.running + count_calls (is_ordinary d) s.running == 0)
    then answers k (some busy_not_sent) s
    else enters k d preparing s

abbrev pub spec_take_capture : Capacity → Call → Admissions → Admissions
spec_take_capture cap c s =
    if is_full cap.max_captures holds_capture 0 s
    then moves c.number released (answers c.number (some busy_not_sent) s)
    else moves c.number capturing s

abbrev pub spec_take_permit : Capacity → ℕ → Call → Admissions → Admissions
spec_take_permit cap others c s =
    if is_full cap.max_operations holds_operation others s
    then drops c.number (answers c.number (some busy_not_sent) s)
    else moves c.number changing s

abbrev pub spec_finish : Option Error → Call → Admissions → Admissions
spec_finish e c s = elim c.stage [
  | admitted ↦ moves c.number released (answers c.number e s)
  | capturing ↦ moves c.number released (answers c.number e s)
  | other ↦ s
]

abbrev pub spec_finish_change : Option Error → Call → Admissions → Admissions
spec_finish_change e c s = answers c.number e (moves c.number changed s)

abbrev pub spec_at :
    Stage → (Call → Admissions → Admissions) → Option Call → Admissions → Admissions
spec_at stage f none s = s
spec_at stage f (some c) s = if same_stage c.stage stage then f c s else s

abbrev pub spec_finish_at : Option Error → Option Call → Admissions → Admissions
spec_finish_at e none s = s
spec_finish_at e (some c) s = spec_finish e c s

abbrev pub spec_drop : Call → Admissions → Admissions
spec_drop c s = drops c.number s

unfoldable pub spec_act : Capacity → ManagerAction → Admissions → Admissions
spec_act cap (admits others k d) s = spec_admit cap others k d s
spec_act cap (captures_now k) s = spec_at admitted (spec_take_capture cap) (find_call k s.running) s
spec_act cap (finishes k e) s = spec_finish_at e (find_call k s.running) s
spec_act cap (leaves k) s = spec_at released spec_drop (find_call k s.running) s
spec_act cap (prepares k d ended) s = spec_prepare ended k d s
spec_act cap (permits others k) s =
    spec_at preparing (spec_take_permit cap others) (find_call k s.running) s
spec_act cap (changes k e) s = spec_at changing (spec_finish_change e) (find_call k s.running) s
spec_act cap (settles k) s = spec_at changed spec_drop (find_call k s.running) s
spec_act cap closes s = record s { closed = true }

unfoldable pub spec_acts : Capacity → List ManagerAction → Admissions → Admissions
spec_acts cap [] s = s
spec_acts cap (a ∷ rest) s = spec_acts cap rest (spec_act cap a s)
