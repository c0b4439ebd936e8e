-- ===== src/Manager/Admission/Refines.antt =====
-- internal/jetkvm/manager.go: the manager, with its counters, against what admission promises.
use jetkvm_mcp.Base.{ℕ, Option, none, some, List, [], ◌∷◌, ◌≡◌, refl, ap, ◌∙◌, arith}
use jetkvm_mcp.Errors.{Error}
use jetkvm_mcp.Manager.Admission.{
  ManagerAction, Call, Capacity, Manager, manager_step, acts, admit_call, admits, admitted,
  captures_now, changed, changes, changing, closes, find_call, finish_at, finish_change, finishes,
  leave_device, leaves, new_manager, permits, prepare, prepares, preparing, released, settle_change,
  settles, take_capture, take_permit, Stage, at_stage,
}
use jetkvm_mcp.Manager.Admission.Exact.{IsExact, manager_step-IsExact, new_manager-IsExact}
use jetkvm_mcp.Manager.Admission.Spec.{
  Admissions, no_admissions, spec_act, spec_acts, spec_admit, spec_at, spec_drop, spec_finish_at,
  spec_finish_change, spec_prepare, spec_take_capture, spec_take_permit, view,
}

module _ (cap : Capacity) where
  admit_call-view :
      (others k d : ℕ) (m : Manager)
      → IsExact cap d m
      → view (admit_call cap others k d m) ≡ spec_admit cap others k d (view m)
  unfolding admit_call
  admit_call-view others k d m i = ground arith

  prepare-view :
      (ended : Option Error) (k d : ℕ) (m : Manager)
      → IsExact cap d m
      → view (prepare ended k d m) ≡ spec_prepare ended k d (view m)
  unfolding prepare
  prepare-view ended k d m i = ground arith

  at_stage-view :
      (stage : Stage) (f : Call → Manager → Manager) (g : Call → Admissions → Admissions)
      (o : Option Call) (m : Manager)
      → ((c : Call) → view (f c m) ≡ g c (view m))
      → view (at_stage stage f o m) ≡ spec_at stage g o (view m)
  at_stage-view stage f g none m h = refl
  at_stage-view stage f g (some c) m h = ground (arith, h c)

  take_capture-view :
      (c : Call) (m : Manager)
      → IsExact cap c.device m
      → view (take_capture cap c m) ≡ spec_take_capture cap c (view m)
  take_capture-view c m i = ground arith

  take_permit-view :
      (others : ℕ) (c : Call) (m : Manager)
      → IsExact cap c.device m
      → view (take_permit cap others c m) ≡ spec_take_permit cap others c (view m)
  take_permit-view others c m i = ground arith

  finish_at-view :
      (e : Option Error) (o : Option Call) (m : Manager)
      → view (finish_at e o m) ≡ spec_finish_at e o (view m)
  finish_at-view e o m = ground arith

  manager_step-view :
      (a : ManagerAction) (m : Manager)
      → ((d : ℕ) → IsExact cap d m)
      → view (manager_step cap a m) ≡ spec_act cap a (view m)
  unfolding manager_step spec_act
  manager_step-view (admits others k d) m i = admit_call-view others k d m (i d)
  manager_step-view (captures_now k) m i =
      at_stage-view admitted (take_capture cap) (spec_take_capture cap) (find_call k m.running) m
        (λ c. take_capture-view c m (i c.device))
  manager_step-view (finishes k e) m i = finish_at-view e (find_call k m.running) m
  manager_step-view (leaves k) m i =
      at_stage-view released leave_device spec_drop (find_call k m.running) m (λ c. refl)
  manager_step-view (prepares k d ended) m i = prepare-view ended k d m (i d)
  manager_step-view (permits others k) m i =
      at_stage-view preparing (take_permit cap others) (spec_take_permit cap others)
        (find_call k m.running) m (λ c. take_permit-view others c m (i c.device))
  manager_step-view (changes k e) m i =
      at_stage-view changing (finish_change e) (spec_finish_change e) (find_call k m.running) m
        (λ c. refl)
  manager_step-view (settles k) m i =
      at_stage-view changed settle_change spec_drop (find_call k m.running) m (λ c. refl)
  manager_step-view closes m i = refl

  acts-view_of :
      (steps : List ManagerAction) (m : Manager)
      → ((d : ℕ) → IsExact cap d m)
      → view (acts cap steps m) ≡ spec_acts cap steps (view m)
  unfolding acts spec_acts
  acts-view_of [] m i = refl
  acts-view_of (a ∷ rest) m i =
      acts-view_of rest (manager_step cap a m) (λ d. manager_step-IsExact cap d a m (i d))
      ∙ ap (spec_acts cap rest) (manager_step-view a m i)

-- Whatever steps the calls take, and in whatever order: the manager, which decides by its counters,
-- returns to every call what the specification returns, which has no counters and decides by looking at
-- the calls that are running; and the same calls run, at the same stages.
pub acts-refines :
    (cap : Capacity) (steps : List ManagerAction)
    → view (acts cap steps new_manager) ≡ spec_acts cap steps no_admissions
acts-refines cap steps = acts-view_of cap steps new_manager (new_manager-IsExact cap)
