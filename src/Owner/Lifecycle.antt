-- ===== src/Owner/Lifecycle.antt =====
-- internal/jetkvm/device_owner.go: the commands on the session's life: its end, its cleanup, a
-- release, a takeover, a validation and the stop of the owner.
use jetkvm_mcp.Base.{
  ℕ, Bool, true, false, not, ◌&&◌, ◌||◌, Option, none, some, ◌==◌, is_some, is_empty, if◌then◌else◌,
}
use jetkvm_mcp.Errors.{
  Error, sentinel, session_closed, session_taken_over, ownership_uncertain, deadline_exceeded, is,
  classify, busy_not_sent, tool_outcome_not_sent, tool_outcome_failed,
}
use jetkvm_mcp.Owner.State.{
  Ownership, idle, taken_over, uncertain, released, stopped, unavailable, Validation, Generation,
  Cleanup, idle_released, explicitly_released, taken_over_event, ownership_uncertain_event,
  cleanup_timeout, shutdown_closed, reply, run_cleanup, close_watch, record_session, Owner, Env,
  emit, fail_with,
}
use jetkvm_mcp.Owner.Closures.{publish, degrade, fail_queued, start_attempt, start_cleanup}

unfoldable pub reply_if : Option ℕ → Option Error → Owner → Owner
reply_if none e o = o
reply_if (some r) e o = emit (reply r e) o

-- The reply of a validation of this generation, which the end of the generation settles.
abbrev pub validation_reply : Option Validation → ℕ → Option ℕ
validation_reply none id = none
validation_reply (some v) id = if v.generation == id then some v.reply else none

abbrev pub terminal_error : Bool → Error
terminal_error recognized =
    if recognized then sentinel session_taken_over else sentinel ownership_uncertain

abbrev pub terminal_ownership : Bool → Ownership
terminal_ownership recognized = if recognized then taken_over else uncertain

-- The session is lost: the queued workers fail, and a validation of it is over.
unfoldable pub lose_session : Bool → Option ℕ → Owner → Owner
lose_session recognized settled o =
    fail_queued (fail_with (classify (terminal_error recognized) tool_outcome_not_sent)) (
      degrade (record o {
        ownership = terminal_ownership recognized;
        validation = if is_some settled then none else o.validation;
      }))

unfoldable pub end_generation : Bool → Generation → Owner → Owner
end_generation recognized g o =
    let settled = validation_reply o.validation g.id in
    let event =
      if recognized
      then record_session g.ref taken_over_event none
      else record_session g.ref ownership_uncertain_event
          (some (classify (sentinel ownership_uncertain) tool_outcome_failed)) in
    reply_if settled (some (classify (terminal_error recognized) tool_outcome_failed)) (
      emit event
        (start_cleanup g (terminal_ownership recognized) none (lose_session recognized settled o)))

abbrev pub on_generation_ended_of : Env → ℕ → Option Generation → Owner → Owner
on_generation_ended_of env id none o = o
on_generation_ended_of env id (some g) o =
    if g.id == id then end_generation (env.takeover g.session) g o else o

unfoldable pub on_generation_ended : Env → ℕ → Owner → Owner
on_generation_ended env id o = on_generation_ended_of env id o.generation o

-- A cleanup that runs, and that no release or takeover waits for.
abbrev pub pending_terminal : ℕ → Option Cleanup → Bool
pending_terminal id none = false
pending_terminal id (some c) =
    c.generation.id == id
    && not (is_some c.err)
    && not (is_some c.reply)
    && not (is_some c.takeover_reply)

abbrev pub is_uncertain : Ownership → Bool
is_uncertain uncertain = true
is_uncertain _ = false

abbrev pub completed_terminal : ℕ → Owner → Bool
completed_terminal id o =
    not (is_some o.cleanup)
    && not (is_some o.generation)
    && not (is_some o.attempt)
    && is_uncertain o.ownership
    && o.next_generation == id

abbrev pub retarget : Ownership → Option Cleanup → Option Cleanup
retarget target none = none
retarget target (some c) = some (record c { target = target })

abbrev pub cleanup_ref : Option Cleanup → ℕ → ℕ
cleanup_ref none ref = ref
cleanup_ref (some c) ref = c.generation.ref

unfoldable pub take_terminal : Bool → Owner → Owner
take_terminal pending o =
    fail_queued (fail_with (classify (sentinel session_taken_over) tool_outcome_not_sent)) (
      degrade (record o {
        ownership = taken_over;
        cleanup = if pending then retarget taken_over o.cleanup else o.cleanup;
      }))

unfoldable pub on_takeover_recognized : ℕ → Owner → Owner
on_takeover_recognized id o =
    let pending = pending_terminal id o.cleanup in
    let ref = if pending then cleanup_ref o.cleanup o.last_session_ref else o.last_session_ref in
    let taken = publish (take_terminal pending o) in
    if not o.stopping && (pending || completed_terminal id o)
    then emit (record_session ref taken_over_event none) taken
    else o

abbrev pub on_idle_expired_of : Env → ℕ → Option Generation → Owner → Owner
on_idle_expired_of env id none o = o
on_idle_expired_of env id (some g) o =
    if g.id == id && is_empty o.workers && is_empty o.queue && env.demand == 0
    then start_cleanup g idle none o
    else o

unfoldable pub on_idle_expired : Env → ℕ → Owner → Owner
on_idle_expired env id o = on_idle_expired_of env id o.generation (record o { idle_timer = false })

-- recordCleanupFailure
unfoldable pub record_cleanup_failure : ℕ → Error → Bool → Owner → Owner
record_cleanup_failure ref e ownership_changed o =
    let timed_out =
      if is e deadline_exceeded then emit (record_session ref cleanup_timeout (some e)) o else o in
    if ownership_changed
    then emit
        (record_session ref ownership_uncertain_event
          (some (classify (sentinel ownership_uncertain) tool_outcome_failed)))
        timed_out
    else timed_out

-- The session may still be open: nothing runs until a release or a takeover cleans it up.
unfoldable pub unclean : Cleanup → Error → Owner → Owner
unclean c e o = fail_queued (fail_with busy_not_sent) (
    degrade (record o {
      cleanup = some (record c { err = some e; reply = none; takeover_reply = none });
      ownership = uncertain;
    }))

unfoldable pub cleanup_failed_with : Cleanup → Error → Owner → Owner
cleanup_failed_with c e o =
    let failure = some (classify (sentinel ownership_uncertain) tool_outcome_failed) in
    let answered = reply_if c.takeover_reply failure (reply_if c.reply failure (unclean c e o)) in
    publish (
      record_cleanup_failure c.generation.ref e (not (is_uncertain o.ownership)) (publish answered))

abbrev pub record_target : Ownership → ℕ → Owner → Owner
record_target idle ref o = emit (record_session ref idle_released none) o
record_target released ref o = emit (record_session ref explicitly_released none) o
record_target stopped ref o = emit (record_session ref shutdown_closed none) o
record_target _ ref o = o

-- The attempt that a waiting takeover starts, and the answer if it cannot start.
unfoldable pub takeover_after_cleanup : Env → Option ℕ → Owner → Owner
takeover_after_cleanup env none o = o
takeover_after_cleanup env (some r) o =
    let (tried, e) = start_attempt env.permit (some r) o in
    if is_some e then emit (reply r e) tried else tried

unfoldable pub queue_after_cleanup : Bool → Owner → Owner
queue_after_cleanup permit o =
    let (tried, e) = start_attempt permit none o in
    let failed = fail_queued (record { err = e; panic = false }) tried in
    if not o.stopping && not (is_empty o.queue) then (if is_some e then failed else tried) else o

-- The session is closed.
unfoldable pub cleaned : Env → Cleanup → Owner → Owner
cleaned env c o =
    let terminal =
      is_uncertain c.target && not (is_some c.reply) && not (is_some c.takeover_reply) in
    let late_takeover = terminal && env.takeover c.generation.session in
    let target = if late_takeover then taken_over else c.target in
    let keep_watch =
      is_uncertain target && not (is_some c.reply) && not (is_some c.takeover_reply) in
    let unwatched =
      if c.generation.watched && not keep_watch then emit (close_watch c.generation.id) o else o in
    let closed = publish (record unwatched {
      cleanup = none;
      ownership = target;
      snapshot = record (o.snapshot) { health = unavailable };
    }) in
    let recorded = record_target target c.generation.ref closed in
    if late_takeover
    then emit (record_session c.generation.ref taken_over_event none) recorded
    else recorded

unfoldable pub cleanup_succeeded : Env → Cleanup → Owner → Owner
cleanup_succeeded env c o = publish (
    queue_after_cleanup (if is_some c.takeover_reply then env.permit_again else env.permit)
      (takeover_after_cleanup env c.takeover_reply (reply_if c.reply none (cleaned env c o))))

abbrev pub settle_cleanup : Env → Cleanup → Option Error → Owner → Owner
settle_cleanup env c none o = cleanup_succeeded env c o
settle_cleanup env c (some e) o = cleanup_failed_with c e o

abbrev pub on_complete_cleanup_of : Env → ℕ → Option Error → Option Cleanup → Owner → Owner
on_complete_cleanup_of env id e none o = o
on_complete_cleanup_of env id e (some c) o =
    if c.generation.id == id then settle_cleanup env c e o else o

unfoldable pub on_complete_cleanup : Env → ℕ → Option Error → Owner → Owner
on_complete_cleanup env id e o = on_complete_cleanup_of env id e o.cleanup o

abbrev pub is_in_use : Env → Owner → Bool
is_in_use env o =
    not (is_empty o.workers) || not (is_empty o.queue) || not (env.demand == 0) || is_some o.attempt

abbrev pub is_cleaning : Option Cleanup → Bool
is_cleaning none = false
is_cleaning (some c) = not (is_some c.err)

abbrev pub is_released : Ownership → Bool
is_released released = true
is_released _ = false

-- A cleanup that failed is run again.
abbrev pub rerun_cleanup : Cleanup → Ownership → Option ℕ → Option ℕ → Owner → Owner
rerun_cleanup c target reply_to takeover_reply o = emit (run_cleanup c.generation.id) (record o {
  cleanup =
      some (record c {
        target = target;
        err = none;
        reply = reply_to;
        takeover_reply = takeover_reply;
      });
})

abbrev pub vacate : ℕ → Owner → Owner
vacate chan o =
    emit (reply chan none)
      (record o { ownership = released; snapshot = record (o.snapshot) { health = unavailable } })

-- `release` with no resident session and no cleanup.
abbrev pub release_vacant : Ownership → ℕ → Owner → Owner
release_vacant idle chan o = vacate chan o
release_vacant taken_over chan o = vacate chan o
release_vacant uncertain chan o = vacate chan o
release_vacant _ chan o = emit (reply chan (some busy_not_sent)) o

abbrev pub release_resident : ℕ → Option Generation → Option Cleanup → Owner → Owner
release_resident chan (some g) c o = start_cleanup g released (some chan) o
release_resident chan none (some c) o = rerun_cleanup c released (some chan) c.takeover_reply o
release_resident chan none none o = release_vacant o.ownership chan o

unfoldable pub on_release_session : Env → ℕ → Owner → Owner
on_release_session env chan o = publish (
    if o.stopping
    then emit (reply chan (some (classify (sentinel session_closed) tool_outcome_not_sent))) o
    else if is_in_use env o
    then emit (reply chan (some busy_not_sent)) o
    else if is_cleaning o.cleanup
    then emit (reply chan (some busy_not_sent)) o
    else if is_released o.ownership
    then emit (reply chan none) o
    else release_resident chan o.generation o.cleanup o)
