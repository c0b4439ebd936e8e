-- ===== src/Owner/Handlers.antt =====
-- internal/jetkvm/device_owner.go: the commands of workers, of the generation and of its cleanup.
use jetkvm_mcp.Base.{
  ℕ, Bool, true, false, not, ◌&&◌, ◌||◌, Option, none, some, [], ◌∷◌, ◌++◌, ◌==◌, is_some, is_empty,
  if◌then◌else◌,
}
use jetkvm_mcp.Errors.{
  Error, sentinel, session_closed, session_taken_over, session_released, ownership_uncertain,
  classify, busy_not_sent, tool_outcome_not_sent,
}
use jetkvm_mcp.Owner.State.{
  Ownership, idle, active, taken_over, uncertain, released, current, from_operation, Observations,
  dispatch_not_sent, WorkerEvidence, OperationClass, Result, Worker, Attempt, Cleanup, registered,
  refused, reply_canceled, cancel_attempt, cancel_worker, Owner, Env, find, remove, update, put,
  next, emit, fail_with,
}
use jetkvm_mcp.Owner.Closures.{
  publish, remove_queued, answer, start_attempt, start_next, schedule_idle,
}

-- ownerOwnershipError
unfoldable pub ownership_error : Ownership → Error
ownership_error released = classify (sentinel session_released) tool_outcome_not_sent
ownership_error taken_over = classify (sentinel session_taken_over) tool_outcome_not_sent
ownership_error uncertain = classify (sentinel ownership_uncertain) tool_outcome_not_sent
ownership_error _ = busy_not_sent

abbrev pub is_open : Ownership → Bool
is_open idle = true
is_open active = true
is_open _ = false

abbrev pub cleanup_failed : Option Cleanup → Bool
cleanup_failed none = false
cleanup_failed (some c) = is_some c.err

abbrev pub new_worker : ℕ → ℕ → OperationClass → Worker
new_worker owner k class = record {
  evidence = record { owner = owner; generation = 0; worker = k; dispatch = dispatch_not_sent };
  class = class;
  cancel = false;
  canceled = false;
}

-- The worker enters the map and the queue.
unfoldable pub enroll : OperationClass → ℕ → Owner → Owner
enroll class k o = record o {
  next_worker = k;
  workers = put k (new_worker o.id k class) o.workers;
  queue = o.queue ++ k ∷ [];
}

-- Registration behind its attempt: the error of the attempt takes the worker out again.
unfoldable pub register_after : Env → ℕ → ℕ → Option Error → Owner → Owner
register_after env k chan (some e) o =
    emit (refused chan e)
      (record o { queue = remove_queued k o.queue; workers = remove k o.workers })
register_after env k chan none o = publish (start_next env (emit (registered chan k) o))

unfoldable pub on_register_worker : Env → OperationClass → ℕ → Owner → Owner
on_register_worker env class chan o =
    if o.stopping
    then emit (refused chan (classify (sentinel session_closed) tool_outcome_not_sent)) o
    else if not (is_open o.ownership)
    then emit (refused chan (ownership_error o.ownership)) o
    else if cleanup_failed o.cleanup
    then emit (refused chan (classify (sentinel ownership_uncertain) tool_outcome_not_sent)) o
    else let k = next o.next_worker in
      let entered = enroll class k o in
      let (tried, e) = start_attempt env.permit none entered in
      if not (is_some o.generation) && not (is_some o.attempt) && not (is_some o.cleanup)
      then register_after env k chan e tried
      else register_after env k chan none entered

abbrev pub attempt_generation : Option Attempt → ℕ
attempt_generation none = 0
attempt_generation (some a) = a.generation

-- The last waiter of an attempt stays until the attempt, which it cancels, completes.
abbrev pub withdraw : ℕ → Worker → Error → Owner → Owner × Bool
withdraw k w e o =
    let left = record o { queue = remove_queued k o.queue } in
    if is_some left.attempt && is_empty left.queue
    then (
      emit (cancel_attempt (attempt_generation left.attempt))
          (record left { workers = update k (record w { canceled = true }) left.workers }),
      false,
    )
    else (answer k (fail_with (classify e tool_outcome_not_sent)) left, true)

abbrev pub cancel_one : ℕ → Option Worker → Error → Owner → Owner × Bool
cancel_one k none e o = (o, false)
cancel_one k (some w) e o =
    if w.evidence.generation == 0
    then withdraw k w e o
    else (if w.cancel then emit (cancel_worker k) o else o, false)

unfoldable pub on_cancel_worker : WorkerEvidence → Error → ℕ → Owner → Owner
on_cancel_worker evidence e chan o =
    let (canceled, pre_dispatch) =
      cancel_one evidence.worker (find evidence.worker o.workers) e o in
    publish (emit (reply_canceled chan pre_dispatch) canceled)

abbrev pub observe : Result → Observations → Observations
observe r seen =
    if is_some r.err || r.panic
    then record seen { failed = next seen.failed }
    else record seen { completed = next seen.completed }

unfoldable pub observed : ℕ → Result → Worker → Owner → Owner
observed k r w o =
    let canceled = if w.cancel then emit (cancel_worker k) o else o in
    record canceled {
      snapshot = record (o.snapshot) {
        observations = observe r o.snapshot.observations;
        freshness = current;
        provenance = from_operation;
      };
    }

abbrev pub complete_one : Env → WorkerEvidence → Result → Option Worker → Owner → Owner
complete_one env evidence r none o = o
complete_one env evidence r (some w) o =
    if w.evidence.generation == 0
    then o
    else if not (w.evidence.owner == evidence.owner)
    then o
    else if not (w.evidence.generation == evidence.generation)
    then o
    else publish (
        schedule_idle env
          (start_next env (answer evidence.worker r (observed evidence.worker r w o))))

unfoldable pub on_complete_worker : Env → WorkerEvidence → Result → Owner → Owner
on_complete_worker env evidence r o = complete_one env evidence r (find evidence.worker o.workers) o
