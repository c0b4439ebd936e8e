-- ===== src/Owner/Replies/Lifecycle.antt =====
-- internal/jetkvm/device_owner.go: the commands on the session's life keep the books.
use jetkvm_mcp.Base.{
  ℕ, Bool, true, false, Option, none, some, List, [], ◌∷◌, ◌≡◌, refl, arith, inl, inr, Option-cases,
}
use jetkvm_mcp.Errors.{Error}
use jetkvm_mcp.Owner.State.{
  uncertain, released, stopped, idle, Owner, Env, Worker, Generation, Cleanup, Validation, Attempt,
  find, update, emit, reply,
}
use jetkvm_mcp.Owner.Closures.{publish, degrade, start_attempt, stop_idle, complete_validation_loss}
use jetkvm_mcp.Owner.Lifecycle.{
  reply_if, terminal_ownership, validation_reply, lose_session, end_generation,
  on_generation_ended_of, on_generation_ended, pending_terminal, take_terminal,
  on_takeover_recognized, on_idle_expired_of, on_idle_expired, record_cleanup_failure, unclean,
  cleanup_failed_with, cleaned, takeover_after_cleanup, queue_after_cleanup, cleanup_succeeded,
  on_complete_cleanup_of, on_complete_cleanup, release_resident, on_release_session,
}
use jetkvm_mcp.Owner.Step.{
  take_over_resident, on_take_over_session, validated, settle_validation, on_complete_validation_of,
  on_complete_validation, mark_canceled, cancel_running, cancel_active, stop_queue, stop_generation,
  begin_stop, on_stop, answer_all,
}
use jetkvm_mcp.Owner.Replies.Defs.{
  Books, held, held-update, fail_queued-Books, publish-Books, start_attempt-Books,
  schedule_idle-Books, start_cleanup-Books, stop_idle-Books,
}

held-mark_canceled :
    (j : ℕ) (ks : List ℕ) (m : List (ℕ × Worker)) → held j (mark_canceled ks m) ≡ held j m
unfolding mark_canceled
held-mark_canceled j [] m = refl
held-mark_canceled j (k ∷ ks) m = elim (Option-cases (find k m)) [
  | inl e ↦ ground (arith, held-mark_canceled j ks m)
  | inr (w, e) ↦
      let v = record w { canceled = true } in
      ground (arith, held-update j k v m, held-mark_canceled j ks (update k v m))
]

module _ (j n m q : ℕ) where
  reply_if-Books :
      (r : Option ℕ) (e : Option Error) (o : Owner)
      → Books j n m q o
      → Books j n m q (reply_if r e o)
  unfolding reply_if
  reply_if-Books none e o b = b
  reply_if-Books (some r) e o b = ground arith

  lose_session-Books :
      (recognized : Bool) (settled : Option ℕ) (o : Owner)
      → Books j n m q o
      → Books j n m q (lose_session recognized settled o)
  unfolding lose_session
  lose_session-Books recognized settled o b = fail_queued-Books j n m q _ _ (ground arith)

  end_generation-Books :
      (recognized : Bool) (g : Generation) (o : Owner)
      → Books j n m q o
      → Books j n m q (end_generation recognized g o)
  unfolding end_generation
  end_generation-Books recognized g o b =
      let settled = validation_reply o.validation g.id in
      let lost = lose_session recognized settled o in
      let cleaning =
        start_cleanup-Books j n m q g (terminal_ownership recognized) none lost
          (lose_session-Books recognized settled o b) in
      reply_if-Books settled _ _ (ground (arith, cleaning))

  pub on_generation_ended-Books :
      (env : Env) (id : ℕ) (o : Owner)
      → Books j n m q o
      → Books j n m q (on_generation_ended env id o)
  unfolding on_generation_ended
  on_generation_ended-Books env id o b = of o.generation
    where
      of : (g : Option Generation) → Books j n m q (on_generation_ended_of env id g o)
      of none = b
      of (some g) = ground (arith, end_generation-Books (env.takeover g.session) g o b)

  take_terminal-Books :
      (pending : Bool) (o : Owner) → Books j n m q o → Books j n m q (take_terminal pending o)
  unfolding take_terminal
  take_terminal-Books pending o b = fail_queued-Books j n m q _ _ (ground arith)

  pub on_takeover_recognized-Books :
      (id : ℕ) (o : Owner) → Books j n m q o → Books j n m q (on_takeover_recognized id o)
  unfolding on_takeover_recognized publish
  on_takeover_recognized-Books id o b =
      ground (arith, take_terminal-Books (pending_terminal id o.cleanup) o b)

  pub on_idle_expired-Books :
      (env : Env) (id : ℕ) (o : Owner) → Books j n m q o → Books j n m q (on_idle_expired env id o)
  unfolding on_idle_expired
  on_idle_expired-Books env id o b = of o.generation
    where
      expired : Owner
      expired = record o { idle_timer = false }

      of : (g : Option Generation) → Books j n m q (on_idle_expired_of env id g expired)
      of none = b
      of (some g) = ground (arith, start_cleanup-Books j n m q g idle none expired b)

  unclean-Books :
      (c : Cleanup) (e : Error) (o : Owner) → Books j n m q o → Books j n m q (unclean c e o)
  unfolding unclean
  unclean-Books c e o b = fail_queued-Books j n m q _ _ (ground arith)

  record_cleanup_failure-Books :
      (ref : ℕ) (e : Error) (changed : Bool) (o : Owner)
      → Books j n m q o
      → Books j n m q (record_cleanup_failure ref e changed o)
  unfolding record_cleanup_failure
  record_cleanup_failure-Books ref e changed o b = ground arith

  cleanup_failed_with-Books :
      (c : Cleanup) (e : Error) (o : Owner)
      → Books j n m q o
      → Books j n m q (cleanup_failed_with c e o)
  unfolding cleanup_failed_with
  cleanup_failed_with-Books c e o b = publish-Books j n m q _ (
      record_cleanup_failure-Books _ e _ _ (
        publish-Books j n m q _
          (reply_if-Books _ _ _ (reply_if-Books _ _ _ (unclean-Books c e o b)))))

  takeover_after_cleanup-Books :
      (env : Env) (r : Option ℕ) (o : Owner)
      → Books j n m q o
      → Books j n m q (takeover_after_cleanup env r o)
  unfolding takeover_after_cleanup
  takeover_after_cleanup-Books env none o b = b
  takeover_after_cleanup-Books env (some r) o b =
      ground (arith, start_attempt-Books j n m q env.permit (some r) o b)

  queue_after_cleanup-Books :
      (permit : Bool) (o : Owner) → Books j n m q o → Books j n m q (queue_after_cleanup permit o)
  unfolding queue_after_cleanup
  queue_after_cleanup-Books permit o b =
      let (tried, e) = start_attempt permit none o in
      let c = start_attempt-Books j n m q permit none o b in
      ground (arith, c, fail_queued-Books j n m q (record { err = e; panic = false }) tried c)

  cleaned-Books :
      (env : Env) (c : Cleanup) (o : Owner) → Books j n m q o → Books j n m q (cleaned env c o)
  unfolding cleaned publish
  cleaned-Books env c o b = ground arith

  cleanup_succeeded-Books :
      (env : Env) (c : Cleanup) (o : Owner)
      → Books j n m q o
      → Books j n m q (cleanup_succeeded env c o)
  unfolding cleanup_succeeded
  cleanup_succeeded-Books env c o b = publish-Books j n m q _ (
      queue_after_cleanup-Books _ _ (
        takeover_after_cleanup-Books env c.takeover_reply _
          (reply_if-Books _ _ _ (cleaned-Books env c o b))))

  pub on_complete_cleanup-Books :
      (env : Env) (id : ℕ) (e : Option Error) (o : Owner)
      → Books j n m q o
      → Books j n m q (on_complete_cleanup env id e o)
  unfolding on_complete_cleanup
  on_complete_cleanup-Books env id e o b = of e o.cleanup
    where
      of :
          (e : Option Error) (c : Option Cleanup)
          → Books j n m q (on_complete_cleanup_of env id e c o)
      of none none = b
      of (some e) none = b
      of none (some c) = ground (arith, cleanup_succeeded-Books env c o b)
      of (some e) (some c) = ground (arith, cleanup_failed_with-Books c e o b)

  release_resident-Books :
      (chan : ℕ) (g : Option Generation) (c : Option Cleanup) (o : Owner)
      → Books j n m q o
      → Books j n m q (release_resident chan g c o)
  release_resident-Books chan (some g) c o b =
      start_cleanup-Books j n m q g released (some chan) o b
  release_resident-Books chan none (some c) o b = ground arith
  release_resident-Books chan none none o b = ground arith

  pub on_release_session-Books :
      (env : Env) (chan : ℕ) (o : Owner)
      → Books j n m q o
      → Books j n m q (on_release_session env chan o)
  unfolding on_release_session
  on_release_session-Books env chan o b =
      publish-Books j n m q _
        (ground (arith, release_resident-Books chan o.generation o.cleanup o b))

  take_over_resident-Books :
      (env : Env) (chan : ℕ) (g : Option Generation) (c : Option Cleanup) (o : Owner)
      → Books j n m q o
      → Books j n m q (take_over_resident env chan g c o)
  take_over_resident-Books env chan none none o b =
      ground (arith, start_attempt-Books j n m q env.permit (some chan) o b)
  take_over_resident-Books env chan none (some c) o b = ground arith
  take_over_resident-Books env chan (some g) none o b = ground (arith, stop_idle-Books j n m q o b)
  take_over_resident-Books env chan (some g) (some c) o b =
      ground (arith, stop_idle-Books j n m q o b)

  pub on_take_over_session-Books :
      (env : Env) (chan : ℕ) (o : Owner)
      → Books j n m q o
      → Books j n m q (on_take_over_session env chan o)
  unfolding on_take_over_session
  on_take_over_session-Books env chan o b =
      publish-Books j n m q _
        (ground (arith, take_over_resident-Books env chan o.generation o.cleanup o b))

  complete_validation_loss-Books :
      (g : Generation) (r : ℕ) (o : Owner)
      → Books j n m q o
      → Books j n m q (complete_validation_loss g r o)
  unfolding complete_validation_loss
  complete_validation_loss-Books g r o b = ground (
    arith,
    start_cleanup-Books j n m q g uncertain none (degrade (record o { ownership = uncertain })) b,
  )

  validated-Books :
      (env : Env) (v : Validation) (g : Generation) (e : Option Error) (o : Owner)
      → Books j n m q o
      → Books j n m q (validated env v g e o)
  validated-Books env v g none o b = schedule_idle-Books j n m q env _ (ground arith)
  validated-Books env v g (some e) o b = ground arith

  settle_validation-Books :
      (env : Env) (id : ℕ) (e : Option Error) (v : Validation) (g : Option Generation) (o : Owner)
      → Books j n m q o
      → Books j n m q (settle_validation env id e v g o)
  settle_validation-Books env id e v none o b = ground arith
  settle_validation-Books env id e v (some g) o b =
      ground (arith, complete_validation_loss-Books g v.reply o b, validated-Books env v g e o b)

  pub on_complete_validation-Books :
      (env : Env) (id : ℕ) (e : Option Error) (o : Owner)
      → Books j n m q o
      → Books j n m q (on_complete_validation env id e o)
  unfolding on_complete_validation
  on_complete_validation-Books env id e o b = of o.validation
    where
      over : Owner
      over = record o { validation = none }

      of : (v : Option Validation) → Books j n m q (on_complete_validation_of env id e v o)
      of none = b
      of (some v) = ground (
        arith,
        publish-Books j n m q (settle_validation env id e v o.generation over)
            (settle_validation-Books env id e v o.generation over b),
      )

  cancel_running-Books :
      (k : ℕ) (w : Worker) (o : Owner) → Books j n m q o → Books j n m q (cancel_running k w o)
  unfolding cancel_running
  cancel_running-Books k w o b = ground arith

  cancel_active-Books :
      (ws : List (ℕ × Worker)) (o : Owner) → Books j n m q o → Books j n m q (cancel_active ws o)
  unfolding cancel_active
  cancel_active-Books [] o b = b
  cancel_active-Books ((k, w) ∷ ws) o b =
      cancel_active-Books ws (cancel_running k w o) (cancel_running-Books k w o b)

  stop_queue-Books :
      (a : Option Attempt) (o : Owner) → Books j n m q o → Books j n m q (stop_queue a o)
  stop_queue-Books none o b = fail_queued-Books j n m q _ o b
  stop_queue-Books (some a) o b = ground (arith, held-mark_canceled j o.queue o.workers)

  stop_generation-Books :
      (g : Option Generation) (o : Owner) → Books j n m q o → Books j n m q (stop_generation g o)
  stop_generation-Books none o b = b
  stop_generation-Books (some g) o b = start_cleanup-Books j n m q g stopped none o b

  begin_stop-Books : (o : Owner) → Books j n m q o → Books j n m q (begin_stop o)
  unfolding begin_stop
  begin_stop-Books o b =
      let quiet = stop_idle (record o { stopping = true }) in
      let queued = stop_queue o.attempt quiet in
      let queued_books =
        stop_queue-Books o.attempt quiet
          (stop_idle-Books j n m q (record o { stopping = true }) b) in
      stop_generation-Books _ _ (cancel_active-Books queued.workers queued queued_books)

  pub on_stop-Books : (chan : ℕ) (o : Owner) → Books j n m q o → Books j n m q (on_stop chan o)
  unfolding on_stop
  on_stop-Books chan o b = publish-Books j n m q _ (ground (arith, begin_stop-Books o b))

  pub answer_all-Books :
      (chans : List ℕ) (e : Option Error) (o : Owner)
      → Books j n m q o
      → Books j n m q (answer_all chans e o)
  unfolding answer_all
  answer_all-Books [] e o b = b
  answer_all-Books (chan ∷ chans) e o b =
      answer_all-Books chans e (emit (reply chan e) o) (ground arith)
