-- ===== src/Owner/Closures.antt =====
-- internal/jetkvm/device_owner.go: the closures that the commands of `loop` share.
use jetkvm_mcp.Base.{
  ℕ, Bool, true, false, not, ◌&&◌, ◌||◌, Option, none, some, List, [], ◌∷◌, ◌==◌, is_some, is_empty,
  if◌then◌else◌,
}
use jetkvm_mcp.Errors.{
  Error, sentinel, session_closed, ownership_uncertain, classify, busy_not_sent,
  tool_outcome_not_sent, tool_outcome_failed,
}
use jetkvm_mcp.Owner.State.{
  Ownership, idle, uncertain, stopped, Transition, no_transition, connecting, closing, degraded,
  Result, Worker, Attempt, Generation, Cleanup, generation_reused, ownership_uncertain_event,
  dispatch_started, reply_worker, reply, run_attempt, run_cleanup, run_operation, cancel_generation,
  arm_idle, stop_timer, record_session, Owner, Env, find, remove, update, next, emit, fail_with,
}

abbrev pub transition_of : Option Attempt → Option Cleanup → Transition
transition_of (some _) _ = connecting
transition_of none (some c) = if is_some c.err then no_transition else closing
transition_of none none = no_transition

unfoldable pub publish : Owner → Owner
publish o =
    let snapshot = record o.snapshot {
      ownership = if o.stopping then stopped else o.ownership;
      transition = transition_of o.attempt o.cleanup;
    } in
    record o { snapshot = snapshot; published = snapshot }

abbrev pub degrade : Owner → Owner
degrade o = record o { snapshot = record (o.snapshot) { health = degraded } }

unfoldable pub remove_queued : ℕ → List ℕ → List ℕ
remove_queued k [] = []
remove_queued k (j ∷ queue) = if j == k then queue else j ∷ remove_queued k queue

-- Deletes a worker and answers it.
unfoldable pub answer : ℕ → Result → Owner → Owner
answer k r o = emit (reply_worker k r) (record o { workers = remove k o.workers })

unfoldable pub fail_worker : Result → ℕ → Owner → Owner
fail_worker r k o = if is_some (find k o.workers) then answer k r o else o

unfoldable pub fail_workers : Result → List ℕ → Owner → Owner
fail_workers r [] o = o
fail_workers r (k ∷ ks) o = fail_workers r ks (fail_worker r k o)

unfoldable pub fail_queued : Result → Owner → Owner
fail_queued r o = record (fail_workers r o.queue o) { queue = [] }

abbrev pub is_idle : Ownership → Bool
is_idle idle = true
is_idle _ = false

unfoldable pub blocked : Option ℕ → Owner → Bool
blocked takeover_reply o =
    is_some o.attempt
    || is_some o.generation
    || is_some o.cleanup
    || is_some o.validation
    || o.stopping
    || (not (is_some takeover_reply) && not (is_idle o.ownership))

abbrev pub attempt_refusal : Option ℕ → Owner → Option Error
attempt_refusal none o = none
attempt_refusal (some _) o =
    if o.stopping
    then some (classify (sentinel session_closed) tool_outcome_not_sent)
    else some busy_not_sent

unfoldable pub start_attempt : Bool → Option ℕ → Owner → Owner × Option Error
unfolding blocked
start_attempt permit takeover_reply o =
    if blocked takeover_reply o
    then (o, attempt_refusal takeover_reply o)
    else if permit
    then (
      emit (run_attempt (next o.next_generation)) (
          publish (record o {
            next_generation = next o.next_generation;
            attempt =
                some
                  (record { generation = next o.next_generation; takeover_reply = takeover_reply });
          })),
      none,
    )
    else (o, some busy_not_sent)

unfoldable pub stop_idle : Owner → Owner
stop_idle o = if o.idle_timer then emit stop_timer (record o { idle_timer = false }) else o

-- The part of `startNext` that hands a live worker to the generation.
unfoldable pub dispatch : ℕ → Worker → Option Generation → Owner → Owner
unfolding stop_idle
dispatch k w none o = o
dispatch k w (some g) o =
    let started = record w {
      evidence = record (w.evidence) { generation = g.id; dispatch = dispatch_started };
      cancel = true;
    } in
    let quiet = stop_idle o in
    let bound =
      if g.leased then emit (record_session g.ref generation_reused none) quiet else quiet in
    emit (run_operation k g.id) (record bound {
      workers = update k started o.workers;
      generation = some (record g { leased = true });
    })

abbrev pub launch : ℕ → Worker → Option Error → Owner → Owner
launch k w (some e) o = answer k (fail_with (classify e tool_outcome_not_sent)) o
launch k w none o = dispatch k w o.generation o

unfoldable pub start_worker : Env → ℕ → Owner → Owner
unfolding answer dispatch
start_worker env k o = elim (find k o.workers) [ none ↦ o | some w ↦ launch k w (env.ctx_err k) o ]

-- The loop of `startNext` over the queue, for the generation's session.
unfoldable pub start_workers : Env → ℕ → List ℕ → Owner → Owner
start_workers env session [] o = record o { queue = [] }
start_workers env session (k ∷ ks) o =
    let rest = start_workers env session ks (start_worker env k o) in
    if env.takeover session then record o { queue = k ∷ ks } else rest

abbrev pub start_next_on : Env → Option Generation → Owner → Owner
start_next_on env none o = o
start_next_on env (some g) o =
    if o.stopping
    then o
    else if env.takeover g.session
    then o
    else start_workers env g.session o.queue o

unfoldable pub start_next : Env → Owner → Owner
start_next env o = start_next_on env o.generation o

abbrev pub schedule_idle_on : Env → Option Generation → Owner → Owner
schedule_idle_on env none o = o
schedule_idle_on env (some g) o =
    if o.stopping
      || is_some o.attempt
      || is_some o.cleanup
      || not (is_empty o.workers)
      || not (is_empty o.queue)
      || not (env.demand == 0)
      || o.idle_timer
    then o
    else emit (arm_idle g.id) (record o { idle_timer = true })

unfoldable pub schedule_idle : Env → Owner → Owner
schedule_idle env o = schedule_idle_on env o.generation o

abbrev pub drop_generation : ℕ → Option Generation → Option Generation
drop_generation id none = none
drop_generation id (some g) = if g.id == id then none else some g

unfoldable pub start_cleanup : Generation → Ownership → Option ℕ → Owner → Owner
unfolding stop_idle publish
start_cleanup g target reply_to o =
    if is_some o.cleanup
    then o
    else let quiet = stop_idle o in
      emit (run_cleanup g.id) (
        publish (
          emit (cancel_generation g.id) (record quiet {
            generation = drop_generation g.id o.generation;
            cleanup = some (record {
              generation = g;
              target = target;
              err = none;
              reply = reply_to;
              takeover_reply = none;
            });
          })))

unfoldable pub complete_validation_loss : Generation → ℕ → Owner → Owner
unfolding start_cleanup
complete_validation_loss g reply_to o =
    let failure = some (classify (sentinel ownership_uncertain) tool_outcome_failed) in
    emit (reply reply_to failure) (
      emit (record_session g.ref ownership_uncertain_event failure)
        (start_cleanup g uncertain none (degrade (record o { ownership = uncertain }))))
