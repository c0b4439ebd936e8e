-- ===== src/Owner/Invariant.antt =====
-- internal/jetkvm/device_owner.go: one session at most, and ownership that agrees with it.
pub mod Defs
mod Workers
mod Attempts
mod Endings
mod Lifecycle
mod Stop
pub use Defs.{Inv}
use jetkvm_mcp.Base.{
  ℕ, ◌%◌, ◌+◌, Bool, true, false, Option, none, some, List, [], ◌∷◌, ◌≡◌, ◌≢◌, refl, arith, is_some,
  ◌⊎◌, inl, inr, Bool-cases, Option-cases, ◌||◌, if◌then◌else◌,
}
use jetkvm_mcp.Errors.{
  busy_not_sent, sentinel, session_taken_over, classify, tool_outcome_not_sent, Error,
}
use jetkvm_mcp.Owner.State.{
  new_owner, stopped, reply, Command, register_worker, cancel_owner_worker, complete_worker,
  complete_attempt, generation_ended, takeover_recognized, idle_expired, demand_changed,
  complete_cleanup, stop_owner, release_session, take_over_session, complete_validation, Validation,
  released, idle, taken_over, fail_with, cancel_attempt, record_session,
  connection_attempt_completed, find, Effect, emit, next, Ownership, active, uncertain, Owner, Env,
  Worker, Result, Generation, Cleanup, Attempt, OperationClass, WorkerEvidence, AttemptResult,
}
use jetkvm_mcp.Owner.Closures.{
  degrade, publish, answer, fail_queued, stop_idle, start_attempt, start_next, schedule_idle,
  start_cleanup, complete_validation_loss,
}
use jetkvm_mcp.Owner.Attempt.{
  on_complete_attempt_of, settle_session, attempt_error, attempt_completed, settle, attempt_failed,
  activate, discard_session, on_complete_attempt, live_queue, drop_canceled,
}
use jetkvm_mcp.Owner.Handlers.{
  observed, complete_one, on_register_worker, on_cancel_worker, on_complete_worker, register_after,
  enroll, cleanup_failed,
}
use jetkvm_mcp.Owner.Lifecycle.{
  unclean, cleaned, takeover_after_cleanup, queue_after_cleanup, record_target,
  record_cleanup_failure, on_complete_cleanup_of, release_resident, reply_if, terminal_error,
  terminal_ownership, validation_reply, lose_session, end_generation, on_generation_ended_of,
  on_idle_expired_of, take_terminal, pending_terminal, retarget, on_generation_ended,
  on_takeover_recognized, on_idle_expired, on_complete_cleanup, on_release_session,
  cleanup_failed_with, cleanup_succeeded,
}
use jetkvm_mcp.Owner.Step.{
  run, step, finish_if_stopped, answer_all, cleanup_error, join_cleanup, take_over_vacant,
  take_over_resident, validated, settle_validation, on_complete_validation_of, stop_queue,
  stop_generation, cancel_active, is_active, on_take_over_session, on_complete_validation,
  begin_stop, on_stop, handle,
}
use jetkvm_mcp.Owner.Frame.{
  Frame-trans, Frame, LeaseFrame, fail_queued-Frame, drop_canceled-Frame, live_queue-Frame,
  cancel_active-Frame, start_next-LeaseFrame, schedule_idle-Frame,
}
use Defs.{
  target_active, Inv, Inv-Frame, Inv-LeaseFrame, publish-Frame, start_attempt-Inv,
  start_cleanup-Inv, publish-Inv, start_next-Inv, schedule_idle-Inv, fail_queued-Inv, emit-Inv,
  answer-Inv,
}
use Workers.{
  register_after-Inv, enroll-Inv, on_register_worker-Inv, on_cancel_worker-Inv, observed-Inv,
  complete_one-Inv, on_complete_worker-Inv,
}
use Attempts.{
  IsVacant, IsVacant-Frame, attempt_failed-Inv, activate-Inv, discard_session-Inv,
  settle_session-Inv, settle-Inv, attempt_completed-Inv, on_complete_attempt_of-Inv,
}
use Endings.{
  lose_session-Frame, reply_if-Inv, end_generation-Inv, on_generation_ended_of-Inv,
  on_idle_expired_of-Inv, on_idle_expired-Inv, on_takeover_recognized-Inv,
  record_cleanup_failure-Inv, unclean-Inv, cleanup_failed_with-Inv, takeover_after_cleanup-Inv,
  queue_after_cleanup-Inv, cleaned-Inv, cleanup_succeeded-Inv, on_complete_cleanup_of-Inv,
  release_resident-Inv,
}
use Lifecycle.{
  on_release_session-Inv, join_cleanup-Inv, take_over_vacant-Inv, take_over_resident-Inv,
  on_take_over_session-Inv, complete_validation_loss-Inv, validated-Inv, settle_validation-Inv,
  on_complete_validation_of-Inv,
}
use Stop.{stop_generation-Inv, begin_stop-Inv, on_stop-Inv}

pub handle-Inv : (env : Env) (c : Command) (o : Owner) → Inv o → Inv (handle env c o)
unfolding handle on_complete_attempt on_generation_ended on_complete_cleanup on_complete_validation
handle-Inv env (register_worker class chan) o v = on_register_worker-Inv env class chan o v
handle-Inv env (cancel_owner_worker evidence e chan) o v = on_cancel_worker-Inv evidence e chan o v
handle-Inv env (complete_worker evidence r) o v = on_complete_worker-Inv env evidence r o v
handle-Inv env (complete_attempt c) o v = on_complete_attempt_of-Inv env c o.attempt o refl v
handle-Inv env (generation_ended id) o v = on_generation_ended_of-Inv env id o.generation o refl v
handle-Inv env (takeover_recognized id) o v = on_takeover_recognized-Inv id o v
handle-Inv env (idle_expired id) o v = on_idle_expired-Inv env id o v
handle-Inv env demand_changed o v = schedule_idle-Inv env o v
handle-Inv env (complete_cleanup id e) o v = on_complete_cleanup_of-Inv env id e o.cleanup o refl v
handle-Inv env (stop_owner chan) o v = on_stop-Inv chan o v
handle-Inv env (release_session chan) o v = on_release_session-Inv env chan o v
handle-Inv env (take_over_session chan) o v = on_take_over_session-Inv env chan o v
handle-Inv env (complete_validation id e) o v =
    on_complete_validation_of-Inv env id e o.validation o v

answer_all-Inv :
    (chans : List ℕ) (e : Option Error) (o : Owner) → Inv o → Inv (answer_all chans e o)
unfolding answer_all
answer_all-Inv [] e o v = v
answer_all-Inv (chan ∷ chans) e o v =
    answer_all-Inv chans e (emit (reply chan e) o) (emit-Inv _ o v)

-- Every command, whatever the world answers, keeps the owner's invariant: an attempt, a resident
-- session and a cleanup exclude one another, the ownership is `active` when a session is resident
-- and only while one is resident or in cleanup, a cleanup that failed leaves it `uncertain`, and an
-- owner that stops has no resident session.
pub step-Inv : (env : Env) (c : Command) (o : Owner) → Inv o → Inv (step env c o).0
unfolding step finish_if_stopped
step-Inv env c o v =
    let w = handle-Inv env c o v in
    let closed = publish (handle env c o) in
    ground (
      arith,
      w,
      answer_all-Inv closed.stop_waiters (cleanup_error closed.cleanup) closed (publish-Inv _ w),
    )

pub new_owner-Inv :
    (id revision : ℕ) (initial : Ownership)
    → is_active initial ≡ false
    → Inv (new_owner id initial revision)
unfolding new_owner
new_owner-Inv id revision initial h = ground arith

pub run-Inv : (cs : List (Env × Command)) (o : Owner) → Inv o → Inv (run cs o)
unfolding run
run-Inv [] o v = v
run-Inv ((env, c) ∷ cs) o v =
    let w = step-Inv env c o v in ground (arith, w, run-Inv cs (step env c o).0 w)
