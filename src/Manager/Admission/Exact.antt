-- ===== src/Manager/Admission/Exact.antt =====
-- internal/jetkvm/manager.go: the counters of the manager against the calls that are running.
use jetkvm_mcp.Base.{
  ℕ, Bool, true, false, Option, none, some, List, [], ◌∷◌, ◌≡◌, ◌≤◌, ◌⊎◌, inl, inr, refl, sym,
  arith, if◌then◌else◌, Option-cases, Bool-cases,
}
use jetkvm_mcp.Errors.{Error}
use jetkvm_mcp.Manager.Admission.{
  ManagerAction, Call, Capacity, Manager, Stage, manager_step, acts, admit_call, admits, admitted,
  at_stage, captures_now, capturing, changed, changes, changing, closes, find_call, finish,
  finish_at, finish_change, finishes, give_back, leave_device, leaves, new_manager, permits,
  prepare, prepares, preparing, put_device, released, same_stage, settle_change, settles,
  take_capture, take_permit,
}
use jetkvm_mcp.Manager.Admission.Counts.{
  count_calls, drop_call-AreMoved, find_call-number, set_stage-AreMoved, holds_capture,
  holds_device, holds_operation, is_change, is_ordinary, one_if,
}
use mathlib.Core.Path.{subst}

-- The counters of a manager are the numbers of the calls, as seen from a device.
pub record IsExact (cap : Capacity) (d : ℕ) (m : Manager) : Type 0 where
  pub operations : m.operations ≡ count_calls holds_operation m.running
  pub captures : m.captures ≡ count_calls holds_capture m.running
  pub device : (m.devices d).operations ≡ count_calls (holds_device d) m.running
  pub ordinary : (m.devices d).ordinary ≡ count_calls (is_ordinary d) m.running
  pub change : one_if (m.devices d).lifecycle ≡ count_calls (is_change d) m.running
  pub exclusive : ((m.devices d).lifecycle ≡ false) ⊎ ((m.devices d).ordinary ≡ 0)
  pub operations_bound : m.operations ≤ cap.max_operations
  pub captures_bound : m.captures ≤ cap.max_captures
  pub device_bound : (m.devices d).operations ≤ cap.max_operations_per_device

same_stage→eq : (s t : Stage) → same_stage s t ≡ true → s ≡ t
same_stage→eq s t h = ground arith

module _ (cap : Capacity) (d : ℕ) where
  admit_call-IsExact :
      (others k e : ℕ) (m : Manager) → IsExact cap d m → IsExact cap d (admit_call cap others k e m)
  unfolding admit_call put_device count_calls
  admit_call-IsExact others k e m i = ground arith

  prepare-IsExact :
      (ended : Option Error) (k e : ℕ) (m : Manager)
      → IsExact cap d m
      → IsExact cap d (prepare ended k e m)
  unfolding prepare put_device count_calls
  prepare-IsExact ended k e m i = ground arith

  module _ (c : Call) (m : Manager) (h : find_call c.number m.running ≡ some c) where
    give_back-IsExact : c.stage ≡ admitted → IsExact cap d m → IsExact cap d (give_back c false m)
    unfolding put_device
    give_back-IsExact s i = ground (arith, set_stage-AreMoved d released c m.running h)

    finish-IsExact : (e : Option Error) → IsExact cap d m → IsExact cap d (finish e c m)
    unfolding put_device
    finish-IsExact e i = ground (arith, set_stage-AreMoved d released c m.running h)

    take_capture-IsExact :
        c.stage ≡ admitted → IsExact cap d m → IsExact cap d (take_capture cap c m)
    unfolding put_device
    take_capture-IsExact s i = ground (
      arith,
      set_stage-AreMoved d released c m.running h,
      set_stage-AreMoved d capturing c m.running h,
    )

    leave_device-IsExact : c.stage ≡ released → IsExact cap d m → IsExact cap d (leave_device c m)
    unfolding put_device
    leave_device-IsExact s i = ground (arith, drop_call-AreMoved d c m.running h)

    settle_change-IsExact : c.stage ≡ changed → IsExact cap d m → IsExact cap d (settle_change c m)
    unfolding put_device
    settle_change-IsExact s i = ground (arith, drop_call-AreMoved d c m.running h)

    take_permit-IsExact :
        (others : ℕ)
        → c.stage ≡ preparing
        → IsExact cap d m
        → IsExact cap d (take_permit cap others c m)
    unfolding put_device
    take_permit-IsExact others s i =
        ground
          (arith, drop_call-AreMoved d c m.running h, set_stage-AreMoved d changing c m.running h)

    finish_change-IsExact :
        (e : Option Error)
        → c.stage ≡ changing
        → IsExact cap d m
        → IsExact cap d (finish_change e c m)
    finish_change-IsExact e s i = ground (arith, set_stage-AreMoved d changed c m.running h)

  at_stage-IsExact :
      (stage : Stage) (f : Call → Manager → Manager) (o : Option Call) (m : Manager)
      → ((c : Call) → o ≡ some c → c.stage ≡ stage → IsExact cap d (f c m))
      → IsExact cap d m
      → IsExact cap d (at_stage stage f o m)
  at_stage-IsExact stage f none m g i = i
  at_stage-IsExact stage f (some c) m g i =
      let chosen : Bool → Type 0 = λ b. IsExact cap d (if b then f c m else m) in
      elim (Bool-cases (same_stage c.stage stage)) [
        | inl e ↦ subst chosen (sym e) (g c refl (same_stage→eq c.stage stage e))
        | inr e ↦ subst chosen (sym e) i
      ]

  finish_at-IsExact :
      (e : Option Error) (k : ℕ) (m : Manager)
      → IsExact cap d m
      → IsExact cap d (finish_at e (find_call k m.running) m)
  finish_at-IsExact e k m i = elim (Option-cases (find_call k m.running)) [
    | inl h ↦ subst (λ o. IsExact cap d (finish_at e o m)) (sym h) i
    | inr (c, h) ↦
        subst (λ o. IsExact cap d (finish_at e o m)) (sym h)
          (finish-IsExact c m (find_call-number k m.running c h) e i)
  ]

  pub manager_step-IsExact :
      (a : ManagerAction) (m : Manager) → IsExact cap d m → IsExact cap d (manager_step cap a m)
  unfolding manager_step
  manager_step-IsExact (admits others k e) m i = admit_call-IsExact others k e m i
  manager_step-IsExact (captures_now k) m i =
      at_stage-IsExact admitted (take_capture cap) (find_call k m.running) m
        (λ c h s. take_capture-IsExact c m (find_call-number k m.running c h) s i) i
  manager_step-IsExact (finishes k e) m i = finish_at-IsExact e k m i
  manager_step-IsExact (leaves k) m i =
      at_stage-IsExact released leave_device (find_call k m.running) m
        (λ c h s. leave_device-IsExact c m (find_call-number k m.running c h) s i) i
  manager_step-IsExact (prepares k e ended) m i = prepare-IsExact ended k e m i
  manager_step-IsExact (permits others k) m i =
      at_stage-IsExact preparing (take_permit cap others) (find_call k m.running) m
        (λ c h s. take_permit-IsExact c m (find_call-number k m.running c h) others s i) i
  manager_step-IsExact (changes k e) m i =
      at_stage-IsExact changing (finish_change e) (find_call k m.running) m
        (λ c h s. finish_change-IsExact c m (find_call-number k m.running c h) e s i) i
  manager_step-IsExact (settles k) m i =
      at_stage-IsExact changed settle_change (find_call k m.running) m
        (λ c h s. settle_change-IsExact c m (find_call-number k m.running c h) s i) i
  manager_step-IsExact closes m i = ground arith

  pub new_manager-IsExact : IsExact cap d new_manager
  unfolding count_calls
  new_manager-IsExact = ground arith

  acts-IsExact :
      (steps : List ManagerAction) (m : Manager)
      → IsExact cap d m
      → IsExact cap d (acts cap steps m)
  unfolding acts
  acts-IsExact [] m i = i
  acts-IsExact (a ∷ rest) m i =
      acts-IsExact rest (manager_step cap a m) (manager_step-IsExact a m i)

-- Whatever steps the calls take, and in whatever order: the permits of a manager that are taken, and
-- for every device its permits, its ordinary operations and its mark for a lifecycle change, are the
-- numbers of the running calls that hold them; none exceeds its capacity; and a device that has a
-- lifecycle change has no ordinary operation.
pub acts-IsExact_new :
    (cap : Capacity) (steps : List ManagerAction) (d : ℕ)
    → IsExact cap d (acts cap steps new_manager)
acts-IsExact_new cap steps d = acts-IsExact cap d steps new_manager (new_manager-IsExact cap d)
