-- ===== src/Owner/Step.antt =====
-- internal/jetkvm/device_owner.go: the commands `takeOverOwnerSession`, `completeOwnerValidation`
-- and `stopDeviceOwner`, and one round of `loop`.
use jetkvm_mcp.Base.{
  ℕ, Bool, true, false, not, ◌&&◌, ◌||◌, Option, none, some, List, [], ◌∷◌, ◌++◌, ◌==◌, is_some,
  is_empty, if◌then◌else◌,
}
use jetkvm_mcp.Errors.{
  Error, sentinel, session_closed, ownership_uncertain, classify, classify_read_failure,
  busy_not_sent, tool_outcome_not_sent, tool_outcome_failed,
}
use jetkvm_mcp.Owner.State.{
  Ownership, active, stopped, healthy, Worker, Attempt, Validation, Generation, Cleanup, reply,
  run_validation, cancel_attempt, cancel_worker, Owner, Env, Command, register_worker,
  cancel_owner_worker, complete_worker, complete_attempt, generation_ended, takeover_recognized,
  idle_expired, demand_changed, complete_cleanup, stop_owner, release_session, take_over_session,
  complete_validation, find, update, emit, fail_with,
}
use jetkvm_mcp.Owner.Closures.{
  publish, degrade, fail_queued, start_attempt, schedule_idle, start_cleanup, stop_idle,
  complete_validation_loss,
}
use jetkvm_mcp.Owner.Handlers.{on_register_worker, on_cancel_worker, on_complete_worker}
use jetkvm_mcp.Owner.Attempt.{on_complete_attempt}
use jetkvm_mcp.Owner.Lifecycle.{
  on_generation_ended, on_takeover_recognized, on_idle_expired, on_complete_cleanup,
  on_release_session, is_in_use, is_cleaning, rerun_cleanup,
}

-- A takeover joins a cleanup that nobody waits for.
abbrev pub join_cleanup : ℕ → Option Cleanup → Owner → Owner
join_cleanup chan none o = o
join_cleanup chan (some c) o =
    if is_some c.reply || is_some c.takeover_reply
    then emit (reply chan (some busy_not_sent)) o
    else record o { cleanup = some (record c { takeover_reply = some chan }) }

abbrev pub is_active : Ownership → Bool
is_active active = true
is_active _ = false

abbrev pub validate : ℕ → Generation → Owner → Owner
validate chan g o =
    emit (run_validation g.id)
      (record (stop_idle o) { validation = some (record { generation = g.id; reply = chan }) })

abbrev pub take_over_vacant : Env → ℕ → Owner → Owner
take_over_vacant env chan o =
    let (tried, e) = start_attempt env.permit (some chan) o in
    if is_some e then emit (reply chan e) tried else tried

abbrev pub take_over_resident : Env → ℕ → Option Generation → Option Cleanup → Owner → Owner
take_over_resident env chan none none o = take_over_vacant env chan o
take_over_resident env chan none (some c) o = rerun_cleanup c c.target none (some chan) o
take_over_resident env chan (some g) none o =
    if is_active o.ownership then validate chan g o else emit (reply chan (some busy_not_sent)) o
take_over_resident env chan (some g) (some c) o =
    if is_active o.ownership then validate chan g o else rerun_cleanup c c.target none (some chan) o

unfoldable pub on_take_over_session : Env → ℕ → Owner → Owner
on_take_over_session env chan o = publish (
    if o.stopping
    then emit (reply chan (some (classify (sentinel session_closed) tool_outcome_not_sent))) o
    else if is_in_use env o || is_some o.validation
    then emit (reply chan (some busy_not_sent)) o
    else if is_cleaning o.cleanup
    then join_cleanup chan o.cleanup o
    else take_over_resident env chan o.generation o.cleanup o)

-- The outcome of a validation whose generation is still resident.
abbrev pub validated : Env → Validation → Generation → Option Error → Owner → Owner
validated env v g none o =
    schedule_idle env
      (emit (reply v.reply none) (record o { snapshot = record (o.snapshot) { health = healthy } }))
validated env v g (some e) o = emit (reply v.reply (classify_read_failure (some e))) (degrade o)

abbrev pub settle_validation :
    Env → ℕ → Option Error → Validation → Option Generation → Owner → Owner
settle_validation env id e v none o =
    emit (reply v.reply (some (classify (sentinel ownership_uncertain) tool_outcome_failed))) o
settle_validation env id e v (some g) o =
    if not (g.id == id)
    then emit (reply v.reply (some (classify (sentinel ownership_uncertain) tool_outcome_failed))) o
    else if env.session_done g.session
    then complete_validation_loss g v.reply o
    else validated env v g e o

abbrev pub on_complete_validation_of : Env → ℕ → Option Error → Option Validation → Owner → Owner
on_complete_validation_of env id e none o = o
on_complete_validation_of env id e (some v) o =
    if v.generation == id
    then publish (settle_validation env id e v o.generation (record o { validation = none }))
    else o

unfoldable pub on_complete_validation : Env → ℕ → Option Error → Owner → Owner
on_complete_validation env id e o = on_complete_validation_of env id e o.validation o

-- `worker.canceled = true` for each queued worker.
abbrev pub mark_one : ℕ → Option Worker → List (ℕ × Worker) → List (ℕ × Worker)
mark_one k none m = m
mark_one k (some w) m = update k (record w { canceled = true }) m

unfoldable pub mark_canceled : List ℕ → List (ℕ × Worker) → List (ℕ × Worker)
mark_canceled [] m = m
mark_canceled (k ∷ ks) m = mark_canceled ks (mark_one k (find k m) m)

unfoldable pub cancel_running : ℕ → Worker → Owner → Owner
cancel_running k w o = if w.cancel then emit (cancel_worker k) o else o

unfoldable pub cancel_active : List (ℕ × Worker) → Owner → Owner
cancel_active [] o = o
cancel_active ((k, w) ∷ rest) o = cancel_active rest (cancel_running k w o)

abbrev pub stop_queue : Option Attempt → Owner → Owner
stop_queue none o =
    fail_queued (fail_with (classify (sentinel session_closed) tool_outcome_not_sent)) o
stop_queue (some a) o = record (emit (cancel_attempt a.generation) o) {
  workers = mark_canceled o.queue o.workers;
  queue = [];
}

abbrev pub stop_generation : Option Generation → Owner → Owner
stop_generation none o = o
stop_generation (some g) o = start_cleanup g stopped none o

unfoldable pub begin_stop : Owner → Owner
begin_stop o =
    let queued = stop_queue o.attempt (stop_idle (record o { stopping = true })) in
    let canceled = cancel_active queued.workers queued in
    stop_generation canceled.generation canceled

unfoldable pub on_stop : ℕ → Owner → Owner
on_stop chan o =
    let begun = if o.stopping then o else begin_stop o in
    publish (record begun { stop_waiters = begun.stop_waiters ++ chan ∷ [] })

-- The `switch` of the loop.
unfoldable pub handle : Env → Command → Owner → Owner
handle env (register_worker class chan) o = on_register_worker env class chan o
handle env (cancel_owner_worker evidence e chan) o = on_cancel_worker evidence e chan o
handle env (complete_worker evidence r) o = on_complete_worker env evidence r o
handle env (complete_attempt c) o = on_complete_attempt env c o
handle env (generation_ended id) o = on_generation_ended env id o
handle env (takeover_recognized id) o = on_takeover_recognized id o
handle env (idle_expired id) o = on_idle_expired env id o
handle env demand_changed o = schedule_idle env o
handle env (complete_cleanup id e) o = on_complete_cleanup env id e o
handle env (stop_owner chan) o = on_stop chan o
handle env (release_session chan) o = on_release_session env chan o
handle env (take_over_session chan) o = on_take_over_session env chan o
handle env (complete_validation id e) o = on_complete_validation env id e o

abbrev pub cleanup_error : Option Cleanup → Option Error
cleanup_error none = none
cleanup_error (some c) = c.err

unfoldable pub answer_all : List ℕ → Option Error → Owner → Owner
answer_all [] e o = o
answer_all (chan ∷ chans) e o = answer_all chans e (emit (reply chan e) o)

unfoldable pub is_finished : Owner → Bool
is_finished o =
    o.stopping
    && not (is_some o.attempt)
    && not (is_some o.validation)
    && not (is_some o.generation)
    && not (is_cleaning o.cleanup)
    && is_empty o.workers

-- finishIfStopped: the flag says that the loop returns.
unfoldable pub finish_if_stopped : Owner → Owner × Bool
finish_if_stopped o =
    let closed = publish o in
    if is_finished o
    then (answer_all closed.stop_waiters (cleanup_error closed.cleanup) closed, true)
    else (o, false)

-- One round of the loop.
unfoldable pub step : Env → Command → Owner → Owner × Bool
step env command o = finish_if_stopped (handle env command o)

unfoldable pub run : List (Env × Command) → Owner → Owner
run [] o = o
run ((env, command) ∷ rest) o =
    let (after, finished) = step env command o in
    let later = run rest after in if finished then after else later
