-- ===== src/Owner/Attempt.antt =====
-- internal/jetkvm/device_owner.go: the command `completeOwnerAttempt`.
use jetkvm_mcp.Base.{
  ℕ, Bool, true, false, not, ◌&&◌, ◌||◌, Option, none, some, List, [], ◌∷◌, ◌==◌, is_some, is_empty,
  if◌then◌else◌,
}
use jetkvm_mcp.Errors.{
  Error, sentinel, session_closed, ownership_uncertain, canceled, protocol, classify,
  tool_outcome_not_sent, tool_outcome_failed,
}
use jetkvm_mcp.Owner.State.{
  idle, active, uncertain, stopped, healthy, Worker, Attempt, Generation,
  connection_attempt_completed, generation_active, reply, run_cleanup, watch_generation,
  close_detached, cancel_attempt, record_session, Owner, Env, AttemptResult, find, emit, fail_with,
}
use jetkvm_mcp.Owner.Closures.{
  publish, degrade, answer, fail_worker, fail_queued, start_next, schedule_idle,
}

-- ownerResultError
abbrev pub result_error : Option Error → Bool → Option Error
result_error (some e) panic = some e
result_error none panic =
    if panic then some (classify (sentinel protocol) tool_outcome_not_sent) else none

abbrev pub attempt_error : AttemptResult → Option Error
attempt_error c =
    if is_some c.cleanup_err
    then some (classify (sentinel ownership_uncertain) tool_outcome_failed)
    else result_error c.err c.panic

-- `worker.ctx.Err()`, or `context.Canceled`
abbrev pub or_canceled : Option Error → Error
or_canceled none = sentinel canceled
or_canceled (some e) = e

unfoldable pub drop_canceled_one : Env → ℕ → Worker → Owner → Owner
drop_canceled_one env k w o =
    if w.canceled
    then fail_worker (fail_with (classify (or_canceled (env.ctx_err k)) tool_outcome_not_sent)) k o
    else o

-- The loop over the workers that were canceled while they waited for the attempt. An entry that
-- is deleted before the loop reaches it is not visited.
unfoldable pub drop_canceled : Env → List (ℕ × Worker) → Owner → Owner
drop_canceled env [] o = o
drop_canceled env ((k, w) ∷ rest) o = drop_canceled env rest (drop_canceled_one env k w o)

abbrev pub expire_on : ℕ → Option Error → Owner → Owner
expire_on k none o = o
expire_on k (some e) o = answer k (fail_with (classify e tool_outcome_not_sent)) o

unfoldable pub expire : Env → ℕ → Owner → Owner
expire env k o = if is_some (find k o.workers) then expire_on k (env.ctx_err k) o else o

abbrev pub kept : Env → ℕ → Owner → Bool
kept env k o = is_some (find k o.workers) && not (is_some (env.ctx_err k))

-- The loop that keeps in the queue the workers whose context is live.
unfoldable pub live_queue : Env → List ℕ → Owner → Owner
live_queue env [] o = record o { queue = [] }
live_queue env (k ∷ ks) o =
    let rest = live_queue env ks (expire env k o) in
    if kept env k o then record rest { queue = k ∷ rest.queue } else rest

abbrev pub generation_of : AttemptResult → ℕ → Bool → Bool → Generation
generation_of c session leased watched = record {
  id = c.generation;
  ref = c.session_ref;
  leased = leased;
  session = session;
  watched = watched;
}

-- The reply to a takeover whose attempt failed.
abbrev pub takeover_failed : AttemptResult → Option ℕ → Owner → Owner
takeover_failed c none o = o
takeover_failed c (some r) o = emit (reply r (attempt_error c)) (record o { ownership = uncertain })

-- A session that could not be closed is kept for a later cleanup.
abbrev pub keep_uncleaned : AttemptResult → Option Error → Option ℕ → Owner → Owner
keep_uncleaned c (some e) (some session) o = publish (record o {
  cleanup = some (record {
    generation = generation_of c session false false;
    target = idle;
    err = some e;
    reply = none;
    takeover_reply = none;
  });
  ownership = uncertain;
})
keep_uncleaned c _ _ o = o

unfoldable pub attempt_failed : AttemptResult → Attempt → Owner → Owner
attempt_failed c a o = keep_uncleaned c c.cleanup_err c.session (
    takeover_failed c a.takeover_reply
      (fail_queued (record { err = c.err; panic = c.panic }) (degrade o)))

abbrev pub reply_to : Option ℕ → Option Error → Owner → Owner
reply_to none e o = o
reply_to (some r) e o = emit (reply r e) o

unfoldable pub activate : Env → AttemptResult → Attempt → ℕ → Owner → Owner
activate env c a session o =
    let generation = generation_of c session (is_some a.takeover_reply) true in
    let started = publish (record o {
      generation = some generation;
      last_session_ref = c.session_ref;
      ownership = active;
      snapshot = record (o.snapshot) { health = healthy };
    }) in
    let watched =
      emit (watch_generation c.generation)
        (emit (record_session c.session_ref generation_active none) started) in
    schedule_idle env (start_next env (reply_to a.takeover_reply none watched))

-- A session that nobody waits for is closed again.
unfoldable pub discard_session : AttemptResult → Attempt → ℕ → Owner → Owner
discard_session c a session o =
    let failure = some (classify (sentinel session_closed) tool_outcome_not_sent) in
    emit (run_cleanup c.generation) (record (reply_to a.takeover_reply failure o) {
      cleanup = some (record {
        generation = generation_of c session false false;
        target = if o.stopping then stopped else idle;
        err = none;
        reply = none;
        takeover_reply = none;
      });
    })

abbrev pub settle_session : Env → AttemptResult → Attempt → Option ℕ → Owner → Owner
settle_session env c a none o = o
settle_session env c a (some session) o =
    if not o.stopping && (not (is_empty o.queue) || is_some a.takeover_reply)
    then activate env c a session o
    else discard_session c a session o

unfoldable pub settle : Env → AttemptResult → Attempt → Owner → Owner
settle env c a o =
    if is_some c.err || c.panic then attempt_failed c a o else settle_session env c a c.session o

unfoldable pub attempt_completed : Env → AttemptResult → Attempt → Owner → Owner
attempt_completed env c a o =
    let idle_again = publish (record (emit (cancel_attempt a.generation) o) { attempt = none }) in
    let recorded =
      emit (record_session c.session_ref connection_attempt_completed (attempt_error c))
        idle_again in
    let waiting = drop_canceled env recorded.workers recorded in
    publish (settle env c a (live_queue env waiting.queue waiting))

abbrev pub attempt_stale : Option ℕ → Owner → Owner
attempt_stale none o = o
attempt_stale (some session) o = emit (close_detached session) o

abbrev pub on_complete_attempt_of : Env → AttemptResult → Option Attempt → Owner → Owner
on_complete_attempt_of env c none o = attempt_stale c.session o
on_complete_attempt_of env c (some a) o =
    if a.generation == c.generation then attempt_completed env c a o else attempt_stale c.session o

unfoldable pub on_complete_attempt : Env → AttemptResult → Owner → Owner
on_complete_attempt env c o = on_complete_attempt_of env c o.attempt o
