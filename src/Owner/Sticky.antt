-- ===== src/Owner/Sticky.antt =====
-- internal/jetkvm/device_owner.go: an owner without a session stays so until a takeover, and says
-- why it refuses.
use jetkvm_mcp.Base.{
  ℕ, Bool, true, false, Option, none, some, List, [], ◌∷◌, ◌≡◌, arith, All, if◌then◌else◌,
}
use jetkvm_mcp.Errors.{classify, sentinel, session_closed, session_released, tool_outcome_not_sent}
use jetkvm_mcp.Owner.State.{
  WorkerEvidence, Result, Owner, Env, Command, released, Worker, OperationClass, refused,
  register_worker, cancel_owner_worker, complete_worker, complete_attempt, generation_ended,
  takeover_recognized, idle_expired, demand_changed, complete_cleanup, stop_owner, release_session,
  take_over_session, complete_validation, find, emit,
}
use jetkvm_mcp.Owner.Closures.{publish, answer, start_next, schedule_idle}
use jetkvm_mcp.Owner.Attempt.{on_complete_attempt}
use jetkvm_mcp.Owner.Handlers.{
  ownership_error, observed, complete_one, on_register_worker, on_cancel_worker, on_complete_worker,
}
use jetkvm_mcp.Owner.Lifecycle.{
  on_generation_ended, on_takeover_recognized, on_idle_expired, on_complete_cleanup,
  on_release_session,
}
use jetkvm_mcp.Owner.Step.{
  run, handle, step, finish_if_stopped, cleanup_error, on_complete_validation, begin_stop, on_stop,
}
use jetkvm_mcp.Owner.Frame.{Frame, begin_stop-Frame, answer_all-Frame, schedule_idle-Frame}

-- The session was released, and nothing runs that could bring one back.
pub record IsReleased (o : Owner) : Type 0 where
  pub no_attempt : o.attempt ≡ none
  pub no_generation : o.generation ≡ none
  pub no_cleanup : o.cleanup ≡ none
  pub given_up : o.ownership ≡ released

abbrev pub is_takeover : Command → Bool
is_takeover (take_over_session chan) = true
is_takeover _ = false

IsReleased-Frame : (o p : Owner) → Frame o p → IsReleased o → IsReleased p
IsReleased-Frame o p f v = ground arith

complete_one-IsReleased :
    (env : Env) (evidence : WorkerEvidence) (r : Result) (w : Option Worker) (o : Owner)
    → IsReleased o
    → IsReleased (complete_one env evidence r w o)
unfolding observed answer publish start_next schedule_idle
complete_one-IsReleased env evidence r none o v = v
complete_one-IsReleased env evidence r (some w) o v = ground arith

begin_stop-IsReleased : (o : Owner) → IsReleased o → IsReleased (begin_stop o)
begin_stop-IsReleased o v = ground (arith, begin_stop-Frame o v.no_generation)

handle-IsReleased :
    (env : Env) (c : Command) (o : Owner)
    → is_takeover c ≡ false
    → IsReleased o
    → IsReleased (handle env c o)
unfolding handle publish
handle-IsReleased env (register_worker class chan) o h v = unfold on_register_worker in ground arith
handle-IsReleased env (cancel_owner_worker evidence e chan) o h v =
    unfold on_cancel_worker answer in ground arith
handle-IsReleased env (complete_worker evidence r) o h v =
    unfold on_complete_worker in
    complete_one-IsReleased env evidence r (find evidence.worker o.workers) o v
handle-IsReleased env (complete_attempt c) o h v = unfold on_complete_attempt in ground arith
handle-IsReleased env (generation_ended id) o h v = unfold on_generation_ended in ground arith
handle-IsReleased env (takeover_recognized id) o h v = unfold on_takeover_recognized in ground arith
handle-IsReleased env (idle_expired id) o h v = unfold on_idle_expired in ground arith
handle-IsReleased env demand_changed o h v = IsReleased-Frame o _ (schedule_idle-Frame env o) v
handle-IsReleased env (complete_cleanup id e) o h v = unfold on_complete_cleanup in ground arith
handle-IsReleased env (stop_owner chan) o h v =
    unfold on_stop in ground (arith, begin_stop-IsReleased o v)
handle-IsReleased env (release_session chan) o h v = unfold on_release_session in ground arith
handle-IsReleased env (take_over_session chan) o h v = absurd (cc)
handle-IsReleased env (complete_validation id e) o h v =
    unfold on_complete_validation in ground arith

step-IsReleased :
    (env : Env) (c : Command) (o : Owner)
    → is_takeover c ≡ false
    → IsReleased o
    → IsReleased (step env c o).0
unfolding step finish_if_stopped publish
step-IsReleased env c o h v =
    let w = handle-IsReleased env c o h v in
    let closed = publish (handle env c o) in
    ground (arith, w, answer_all-Frame closed.stop_waiters (cleanup_error closed.cleanup) closed)

abbrev pub NoTakeover : List (Env × Command) → Type 0
NoTakeover = All (λ call. is_takeover call.1 ≡ false)

run-IsReleased :
    (cs : List (Env × Command)) (o : Owner) → NoTakeover cs → IsReleased o → IsReleased (run cs o)
unfolding run
run-IsReleased [] o h v = v
run-IsReleased ((env, c) ∷ cs) o h v =
    let w = step-IsReleased env c o h.0 v in
    ground (arith, w, run-IsReleased cs (step env c o).0 h.1 w)

-- After a release no run of commands without a takeover brings a session or an attempt back, and
-- a worker that then registers is refused, with the code `session_released` (or, once the owner
-- stops, `device_unavailable`), before it is numbered.
pub release_sticky :
    (cs : List (Env × Command)) (o : Owner) (env : Env) (class : OperationClass) (chan : ℕ)
    → NoTakeover cs
    → IsReleased o
    → let p = run cs o in
      IsReleased p
      × (handle env (register_worker class chan) p
          ≡ emit
              (refused chan (
                classify
                  (sentinel (if p.stopping then session_closed else session_released))
                  tool_outcome_not_sent))
              p)
unfolding handle on_register_worker ownership_error
release_sticky cs o env class chan h v = let w = run-IsReleased cs o h v in (w, ground (arith, w))
