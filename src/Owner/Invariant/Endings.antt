-- ===== src/Owner/Invariant/Endings.antt =====
-- internal/jetkvm/device_owner.go: the end of a session and of its cleanup keep the invariant.
use jetkvm_mcp.Base.{ℕ, Bool, false, Option, none, some, ◌≡◌, refl, arith, is_some, if◌then◌else◌}
use jetkvm_mcp.Errors.{
  busy_not_sent, sentinel, session_taken_over, classify, tool_outcome_not_sent, Error,
}
use jetkvm_mcp.Owner.State.{
  released, idle, taken_over, fail_with, uncertain, Owner, Env, Generation, Cleanup,
}
use jetkvm_mcp.Owner.Closures.{degrade, publish, start_attempt}
use jetkvm_mcp.Owner.Lifecycle.{
  unclean, cleaned, takeover_after_cleanup, queue_after_cleanup, record_cleanup_failure,
  on_complete_cleanup_of, release_resident, reply_if, terminal_error, terminal_ownership,
  validation_reply, lose_session, end_generation, on_generation_ended_of, on_idle_expired_of,
  take_terminal, pending_terminal, retarget, on_takeover_recognized, on_idle_expired,
  cleanup_failed_with, cleanup_succeeded,
}
use jetkvm_mcp.Owner.Frame.{fail_queued-Frame}
use jetkvm_mcp.Owner.Invariant.Defs.{
  Inv, start_attempt-Inv, start_cleanup-Inv, publish-Inv, fail_queued-Inv, emit-Inv,
}

pub lose_session-Frame :
    (recognized : Bool) (settled : Option ℕ) (o : Owner)
    → ((lose_session recognized settled o).attempt ≡ o.attempt)
      × ((lose_session recognized settled o).generation ≡ o.generation)
      × ((lose_session recognized settled o).cleanup ≡ o.cleanup)
unfolding lose_session
lose_session-Frame recognized settled o = ground (
  arith,
  fail_queued-Frame (fail_with (classify (terminal_error recognized) tool_outcome_not_sent)) (
      degrade (record o {
        ownership = terminal_ownership recognized;
        validation = if is_some settled then none else o.validation;
      })),
)

pub reply_if-Inv : (r : Option ℕ) (e : Option Error) (o : Owner) → Inv o → Inv (reply_if r e o)
unfolding reply_if
reply_if-Inv none e o v = v
reply_if-Inv (some r) e o v = ground arith

pub end_generation-Inv :
    (recognized : Bool) (g : Generation) (o : Owner)
    → o.generation ≡ some g
    → Inv o
    → Inv (end_generation recognized g o)
unfolding end_generation
end_generation-Inv recognized g o e v =
    let f = lose_session-Frame recognized (validation_reply o.validation g.id) o in
    reply_if-Inv _ _ _ (
      emit-Inv _ _ (
        start_cleanup-Inv g (terminal_ownership recognized) none _ (ground arith) (ground arith)
          (ground arith) (ground arith)))

pub on_generation_ended_of-Inv :
    (env : Env) (id : ℕ) (g : Option Generation) (o : Owner)
    → o.generation ≡ g
    → Inv o
    → Inv (on_generation_ended_of env id g o)
on_generation_ended_of-Inv env id none o e v = v
on_generation_ended_of-Inv env id (some g) o e v =
    ground (arith, end_generation-Inv (env.takeover g.session) g o e v)

pub on_idle_expired_of-Inv :
    (env : Env) (id : ℕ) (g : Option Generation) (o : Owner)
    → o.generation ≡ g
    → Inv o
    → Inv (on_idle_expired_of env id g o)
on_idle_expired_of-Inv env id none o e v = v
on_idle_expired_of-Inv env id (some g) o e v =
    ground (arith, start_cleanup-Inv g idle none o refl (ground arith) e (ground arith))

pub on_idle_expired-Inv : (env : Env) (id : ℕ) (o : Owner) → Inv o → Inv (on_idle_expired env id o)
unfolding on_idle_expired
on_idle_expired-Inv env id o v =
    on_idle_expired_of-Inv env id o.generation (record o { idle_timer = false }) refl (ground arith)

pub on_takeover_recognized-Inv : (id : ℕ) (o : Owner) → Inv o → Inv (on_takeover_recognized id o)
unfolding on_takeover_recognized take_terminal publish
on_takeover_recognized-Inv id o v = ground (
  arith,
  fail_queued-Frame (fail_with (classify (sentinel session_taken_over) tool_outcome_not_sent)) (
      degrade (record o {
        ownership = taken_over;
        cleanup =
            if pending_terminal id o.cleanup then retarget taken_over o.cleanup else o.cleanup;
      })),
)

pub record_cleanup_failure-Inv :
    (ref : ℕ) (e : Error) (changed : Bool) (o : Owner)
    → Inv o
    → Inv (record_cleanup_failure ref e changed o)
unfolding record_cleanup_failure
record_cleanup_failure-Inv ref e changed o v = ground arith

pub unclean-Inv :
    (c : Cleanup) (e : Error) (o : Owner) → o.cleanup ≡ some c → Inv o → Inv (unclean c e o)
unfolding unclean
unclean-Inv c e o p v =
    fail_queued-Inv (fail_with busy_not_sent)
      (degrade (record o {
        cleanup = some (record c { err = some e; reply = none; takeover_reply = none });
        ownership = uncertain;
      }))
      (ground arith)

pub cleanup_failed_with-Inv :
    (c : Cleanup) (e : Error) (o : Owner)
    → o.cleanup ≡ some c
    → Inv o
    → Inv (cleanup_failed_with c e o)
unfolding cleanup_failed_with
cleanup_failed_with-Inv c e o p v = publish-Inv _ (
    record_cleanup_failure-Inv _ e _ _
      (publish-Inv _ (reply_if-Inv _ _ _ (reply_if-Inv _ _ _ (unclean-Inv c e o p v)))))

pub takeover_after_cleanup-Inv :
    (env : Env) (r : Option ℕ) (o : Owner) → Inv o → Inv (takeover_after_cleanup env r o)
unfolding takeover_after_cleanup
takeover_after_cleanup-Inv env none o v = v
takeover_after_cleanup-Inv env (some r) o v =
    ground (arith, start_attempt-Inv env.permit (some r) o v)

pub queue_after_cleanup-Inv :
    (permit : Bool) (o : Owner) → Inv o → Inv (queue_after_cleanup permit o)
unfolding queue_after_cleanup
queue_after_cleanup-Inv permit o v =
    let (tried, e) = start_attempt permit none o in
    let w = start_attempt-Inv permit none o v in
    ground (arith, w, fail_queued-Inv (record { err = e; panic = false }) tried w)

pub cleaned-Inv :
    (env : Env) (c : Cleanup) (o : Owner) → o.cleanup ≡ some c → Inv o → Inv (cleaned env c o)
unfolding cleaned publish
cleaned-Inv env c o p v = ground arith

pub cleanup_succeeded-Inv :
    (env : Env) (c : Cleanup) (o : Owner)
    → o.cleanup ≡ some c
    → Inv o
    → Inv (cleanup_succeeded env c o)
unfolding cleanup_succeeded
cleanup_succeeded-Inv env c o p v = publish-Inv _ (
    queue_after_cleanup-Inv _ _ (
      takeover_after_cleanup-Inv env c.takeover_reply _
        (reply_if-Inv _ _ _ (cleaned-Inv env c o p v))))

pub on_complete_cleanup_of-Inv :
    (env : Env) (id : ℕ) (e : Option Error) (c : Option Cleanup) (o : Owner)
    → o.cleanup ≡ c
    → Inv o
    → Inv (on_complete_cleanup_of env id e c o)
on_complete_cleanup_of-Inv env id e none o p v = v
on_complete_cleanup_of-Inv env id none (some c) o p v =
    ground (arith, cleanup_succeeded-Inv env c o p v)
on_complete_cleanup_of-Inv env id (some e) (some c) o p v =
    ground (arith, cleanup_failed_with-Inv c e o p v)

pub release_resident-Inv :
    (chan : ℕ) (g : Option Generation) (c : Option Cleanup) (o : Owner)
    → is_some o.attempt ≡ false
    → o.generation ≡ g
    → o.cleanup ≡ c
    → Inv o
    → Inv (release_resident chan g c o)
release_resident-Inv chan (some g) c o a e p v =
    start_cleanup-Inv g released (some chan) o refl (ground arith) e (ground arith)
release_resident-Inv chan none (some c) o a e p v = ground arith
release_resident-Inv chan none none o a e p v = ground arith
