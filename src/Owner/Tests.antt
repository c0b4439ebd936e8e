-- ===== src/Owner/Tests.antt =====
-- internal/jetkvm/device_owner.go: runs at concrete inputs, and the theorems at them.
use jetkvm_mcp.Base.{◌⊎◌, true, false, none, some, List, [], ◌∷◌, ◌≡◌, refl, arith, if◌then◌else◌}
use jetkvm_mcp.Owner.Terminal.{
  TerminalSignals, classify_terminal_completion, classify_terminal_completion-honest, has_outcome,
  terminal_outcome,
}
use jetkvm_mcp.Errors.{
  as_operation, classify_operation_error, ownership_uncertain, sentinel, session_released,
  session_closed, deadline_exceeded, classify, tool_outcome_not_sent,
}
use jetkvm_mcp.Owner.State.{
  Owner, Env, Command, idle, active, released, ordinary, mutation, Generation, AttemptResult,
  WorkerEvidence, dispatch_completed, register_worker, complete_attempt, complete_worker,
  stop_owner, new_owner, find, remove, update, put, emit, refused,
}
use jetkvm_mcp.Owner.Closures.{
  publish, answer, fail_workers, fail_queued, start_attempt, start_worker, start_workers,
  start_next, schedule_idle, stop_idle,
}
use jetkvm_mcp.Owner.Attempt.{
  on_complete_attempt, attempt_completed, drop_canceled, drop_canceled_one, live_queue, expire,
  settle, activate,
}
use jetkvm_mcp.Owner.Handlers.{
  on_register_worker, enroll, register_after, on_complete_worker, observed,
}
use jetkvm_mcp.Owner.Step.{
  handle, step, run, finish_if_stopped, is_finished, on_stop, begin_stop, cancel_active, answer_all,
}
use jetkvm_mcp.Owner.Invariant.{Inv, step-Inv, new_owner-Inv}
use jetkvm_mcp.Owner.Replies.Defs.{answered, entered}
use jetkvm_mcp.Owner.Replies.{finished_answers}
use jetkvm_mcp.Owner.Sticky.{IsReleased, release_sticky}
use jetkvm_mcp.Owner.Frame.{id_of}

-- All is calm: nobody waits, every context is live, and a permit is free.
abbrev calm : Env
calm = record {
  demand = 0;
  ctx_err = λ k. none;
  takeover = λ s. false;
  session_done = λ s. false;
  permit = true;
  permit_again = true;
}

abbrev connected : AttemptResult
connected = record {
  generation = 1;
  session = some 40;
  session_ref = 90;
  err = none;
  cleanup_err = none;
  panic = false;
}

abbrev first_done : WorkerEvidence
first_done = record { owner = 3; generation = 1; worker = 1; dispatch = dispatch_completed }

-- A worker registers on channel 7, its session comes up, and its operation completes.
abbrev one_operation : List (Env × Command)
one_operation =
    (calm, register_worker ordinary 7)
    ∷ (calm, complete_attempt connected)
    ∷ (calm, complete_worker first_done (record { err = none; panic = false }))
    ∷ []

abbrev fresh_owner : Owner
fresh_owner = new_owner 3 idle 1

-- A resident session that nobody uses.
abbrev resident : Generation
resident = record { id = 1; ref = 90; leased = true; session = 40; watched = true }

abbrev resting : Owner
resting = record fresh_owner { generation = some resident; ownership = active; next_generation = 1 }

abbrev gone : Owner
gone = record fresh_owner { ownership = released }

one_operation-run :
    let o = run one_operation fresh_owner in
    (answered 1 o.effects ≡ 1)
    × (o.workers ≡ [])
    × (id_of o.generation ≡ some 1)
    × (o.ownership ≡ active)
unfolding run step handle finish_if_stopped is_finished new_owner publish find remove update put
    answer start_attempt start_worker start_workers start_next schedule_idle on_complete_attempt
    attempt_completed drop_canceled drop_canceled_one live_queue expire settle activate
    on_register_worker enroll register_after on_complete_worker observed
one_operation-run = (refl, refl, refl, refl)

step-Inv_example : Inv (step calm (register_worker ordinary 7) fresh_owner).0
step-Inv_example =
    step-Inv calm (register_worker ordinary 7) fresh_owner (new_owner-Inv 3 1 idle refl)

abbrev stopped_run : List (Env × Command)
stopped_run = (calm, stop_owner 9) ∷ []

finished_answers_example :
    let o = run stopped_run (new_owner 3 idle 1) in answered 1 o.effects ≡ entered 1 o.effects
unfolding run step handle finish_if_stopped is_finished new_owner publish on_stop begin_stop
    cancel_active answer_all stop_idle fail_queued fail_workers
finished_answers_example = finished_answers 3 1 idle stopped_run (omega arith) refl 1

gone-IsReleased : IsReleased gone
unfolding new_owner
gone-IsReleased = ground arith

release_sticky_example :
    let p = run one_operation gone in
    IsReleased p
    × (handle calm (register_worker ordinary 8) p
        ≡ emit
            (refused 8 (
              classify
                (sentinel (if p.stopping then session_closed else session_released))
                tool_outcome_not_sent))
            p)
release_sticky_example =
    release_sticky one_operation gone calm ordinary 8 (refl, (refl, (refl, tt))) gone-IsReleased

-- A mutation times out as its session ends.
abbrev ended_session : TerminalSignals
ended_session = record {
  connected = true;
  session_done = true;
  generation_done = false;
  recognized_takeover = false;
}

ended_mutation :
    classify_terminal_completion ended_session mutation (some (sentinel deadline_exceeded))
    ≡ some (classify (sentinel ownership_uncertain) "unknown")
unfolding classify_terminal_completion terminal_outcome has_outcome as_operation
    classify_operation_error
ended_mutation = refl

classify_terminal_completion-honest_example :
    ((classify (sentinel ownership_uncertain) "unknown" ≡ sentinel deadline_exceeded)
      × (has_outcome (sentinel deadline_exceeded) "failed" ≡ true))
    ⊎ (((has_outcome (classify (sentinel ownership_uncertain) "unknown") "not_sent" ≡ true)
          × (has_outcome (sentinel deadline_exceeded) "not_sent" ≡ true))
        ⊎ (has_outcome (classify (sentinel ownership_uncertain) "unknown") "unknown" ≡ true))
classify_terminal_completion-honest_example =
    classify_terminal_completion-honest ended_session mutation (sentinel deadline_exceeded)
      (classify (sentinel ownership_uncertain) "unknown") refl refl ended_mutation
