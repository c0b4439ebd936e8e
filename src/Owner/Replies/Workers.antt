-- ===== src/Owner/Replies/Workers.antt =====
-- internal/jetkvm/device_owner.go: the commands of workers and of attempts keep the books.
use jetkvm_mcp.Base.{
  ℕ, ◌+◌, Bool, true, Option, none, some, List, [], ◌∷◌, ◌≡◌, ◌∙◌, ap, ◌⊎◌, refl, arith, inl, inr,
  Option-cases,
}
use jetkvm_mcp.Errors.{Error, classify, tool_outcome_not_sent}
use jetkvm_mcp.Owner.State.{
  registered, Owner, Env, Worker, Result, Attempt, AttemptResult, WorkerEvidence, OperationClass,
  find, remove, put, emit, fail_with, next, cancel_attempt, record_session,
  connection_attempt_completed,
}
use jetkvm_mcp.Owner.Closures.{
  publish, degrade, answer, remove_queued, start_attempt, start_next, schedule_idle,
}
use jetkvm_mcp.Owner.Handlers.{
  enroll, register_after, on_register_worker, cancel_one, on_cancel_worker, observed, complete_one,
  on_complete_worker,
}
use jetkvm_mcp.Owner.Attempt.{
  drop_canceled_one, drop_canceled, expire_on, expire, live_queue, attempt_failed, activate,
  discard_session, settle_session, settle, attempt_completed, on_complete_attempt_of,
  on_complete_attempt, or_canceled, attempt_error,
}
use jetkvm_mcp.Owner.Replies.Defs.{
  Books, unit, held-update, remove-absent, answer-Books, fail_worker-Books, fail_queued-Books,
  publish-Books, start_attempt-Books, start_next-Books, schedule_idle-Books,
}

-- The number of the next worker is not in use.
abbrev pub Fresh : Owner → Type 0
Fresh o = find (next o.next_worker) o.workers ≡ none

module _ (j n m q : ℕ) where
  accept-Books :
      (env : Env) (k chan : ℕ) (tried : Owner)
      → Books j (n + unit j k) m k tried
      → Books j (n + unit j k) (m + unit j k) k (register_after env k chan none tried)
  unfolding register_after
  accept-Books env k chan tried b = publish-Books j (n + unit j k) (m + unit j k) k _ (
      start_next-Books j (n + unit j k) (m + unit j k) k env (emit (registered chan k) tried)
        (ground arith))

  enroll-Books :
      (class : OperationClass) (k : ℕ) (o : Owner)
      → find k o.workers ≡ none
      → Books j n m q o
      → Books j (n + unit j k) m k (enroll class k o)
  unfolding enroll put
  enroll-Books class k o f b = ground (arith, remove-absent k o.workers f)

  reject-Books :
      (env : Env) (class : OperationClass) (k chan : ℕ) (e : Error) (o tried : Owner)
      → tried.workers ≡ (enroll class k o).workers
      → Books j (n + unit j k) m k tried
      → Books j n m k (register_after env k chan (some e) tried)
  unfolding register_after enroll put remove
  reject-Books env class k chan e o tried f b = ground arith

  start_attempt-workers :
      (permit : Bool) (r : Option ℕ) (o : Owner) → (start_attempt permit r o).0.workers ≡ o.workers
  unfolding start_attempt publish
  start_attempt-workers permit r o = ground arith

  attempted-Books :
      (env : Env) (class : OperationClass) (k chan : ℕ) (o : Owner)
      → Books j (n + unit j k) m k (enroll class k o)
      → let (tried, e) = start_attempt env.permit none (enroll class k o) in
        let p = register_after env k chan e tried in
        Books j n m k p ⊎ Books j (n + unit j k) (m + unit j k) k p
  attempted-Books env class k chan o b = of (start_attempt env.permit none (enroll class k o)).1
    where
      tried : Owner
      tried = (start_attempt env.permit none (enroll class k o)).0

      kept : Books j (n + unit j k) m k tried
      kept = start_attempt-Books j (n + unit j k) m k env.permit none (enroll class k o) b

      of :
          (e : Option Error)
          → let p = register_after env k chan e tried in
            Books j n m k p ⊎ Books j (n + unit j k) (m + unit j k) k p
      of none = inr (accept-Books env k chan tried kept)
      of (some e) = inl (
          reject-Books env class k chan e o tried
            (start_attempt-workers env.permit none (enroll class k o)) kept)

  -- A registration enters its worker once, or leaves the books alone.
  pub on_register_worker-Books :
      (env : Env) (class : OperationClass) (chan : ℕ) (o : Owner)
      → Fresh o
      → Books j n m q o
      → let k = next o.next_worker in
        let p = on_register_worker env class chan o in
        Books j n m q p ⊎ (Books j n m k p ⊎ Books j (n + unit j k) (m + unit j k) k p)
  unfolding on_register_worker
  on_register_worker-Books env class chan o f b =
      let k = next o.next_worker in
      let entered = enroll class k o in
      let held_once = enroll-Books class k o f b in
      ground (
        arith,
        held_once,
        accept-Books env k chan entered held_once,
        attempted-Books env class k chan o held_once,
      )

  -- A worker whose completion is for another dispatch is left alone.
  observed-Books :
      (k : ℕ) (r : Result) (w : Worker) (o : Owner)
      → Books j n m q o
      → Books j n m q (observed k r w o)
  unfolding observed
  observed-Books k r w o b = ground arith

  observed-find :
      (k : ℕ) (r : Result) (w : Worker) (o : Owner) → (observed k r w o).workers ≡ o.workers
  unfolding observed
  observed-find k r w o = ground arith

  complete_one-Books :
      (env : Env) (evidence : WorkerEvidence) (r : Result) (w : Option Worker) (o : Owner)
      → find evidence.worker o.workers ≡ w
      → Books j n m q o
      → Books j n m q (complete_one env evidence r w o)
  complete_one-Books env evidence r none o f b = b
  complete_one-Books env evidence r (some w) o f b =
      let k = evidence.worker in
      let seen = observed k r w o in
      let answered =
        answer-Books j n m q k r w seen (ap (find k) (observed-find k r w o) ∙ f)
          (observed-Books k r w o b) in
      let started = start_next-Books j n m q env (answer k r seen) answered in
      let armed = schedule_idle-Books j n m q env (start_next env (answer k r seen)) started in
      ground
        (arith, publish-Books j n m q (schedule_idle env (start_next env (answer k r seen))) armed)

  pub on_complete_worker-Books :
      (env : Env) (evidence : WorkerEvidence) (r : Result) (o : Owner)
      → Books j n m q o
      → Books j n m q (on_complete_worker env evidence r o)
  unfolding on_complete_worker
  on_complete_worker-Books env evidence r o b = complete_one-Books env evidence r _ o refl b

  cancel_one-Books :
      (k : ℕ) (w : Option Worker) (e : Error) (o : Owner)
      → find k o.workers ≡ w
      → Books j n m q o
      → Books j n m q (cancel_one k w e o).0
  cancel_one-Books k none e o f b = b
  cancel_one-Books k (some w) e o f b = ground (
    arith,
    held-update j k (record w { canceled = true }) o.workers,
    answer-Books j n m q k (fail_with (classify e tool_outcome_not_sent)) w
        (record o { queue = remove_queued k o.queue }) f b,
  )

  pub on_cancel_worker-Books :
      (evidence : WorkerEvidence) (e : Error) (chan : ℕ) (o : Owner)
      → Books j n m q o
      → Books j n m q (on_cancel_worker evidence e chan o)
  unfolding on_cancel_worker
  on_cancel_worker-Books evidence e chan o b =
      publish-Books j n m q _ (
        ground
          (arith, cancel_one-Books evidence.worker (find evidence.worker o.workers) e o refl b))

  drop_canceled_one-Books :
      (env : Env) (k : ℕ) (w : Worker) (o : Owner)
      → Books j n m q o
      → Books j n m q (drop_canceled_one env k w o)
  unfolding drop_canceled_one
  drop_canceled_one-Books env k w o b = ground (
    arith,
    fail_worker-Books j n m q
        (fail_with (classify (or_canceled (env.ctx_err k)) tool_outcome_not_sent)) k o b,
  )

  drop_canceled-Books :
      (env : Env) (ws : List (ℕ × Worker)) (o : Owner)
      → Books j n m q o
      → Books j n m q (drop_canceled env ws o)
  unfolding drop_canceled
  drop_canceled-Books env [] o b = b
  drop_canceled-Books env ((k, w) ∷ ws) o b =
      drop_canceled-Books env ws (drop_canceled_one env k w o) (drop_canceled_one-Books env k w o b)

  expire_on-Books :
      (k : ℕ) (e : Option Error) (w : Worker) (o : Owner)
      → find k o.workers ≡ some w
      → Books j n m q o
      → Books j n m q (expire_on k e o)
  expire_on-Books k none w o f b = b
  expire_on-Books k (some e) w o f b = answer-Books j n m q k _ w o f b

  expire-Books : (env : Env) (k : ℕ) (o : Owner) → Books j n m q o → Books j n m q (expire env k o)
  unfolding expire
  expire-Books env k o b = elim (Option-cases (find k o.workers)) [
    | inl e ↦ ground arith
    | inr (w, e) ↦ ground (arith, expire_on-Books k (env.ctx_err k) w o e b)
  ]

  live_queue-Books :
      (env : Env) (ks : List ℕ) (o : Owner) → Books j n m q o → Books j n m q (live_queue env ks o)
  unfolding live_queue
  live_queue-Books env [] o b = b
  live_queue-Books env (k ∷ ks) o b =
      ground (arith, live_queue-Books env ks (expire env k o) (expire-Books env k o b))

  attempt_failed-Books :
      (c : AttemptResult) (a : Attempt) (o : Owner)
      → Books j n m q o
      → Books j n m q (attempt_failed c a o)
  unfolding attempt_failed publish
  attempt_failed-Books c a o b =
      ground
        (arith, fail_queued-Books j n m q (record { err = c.err; panic = c.panic }) (degrade o) b)

  activate-Books :
      (env : Env) (c : AttemptResult) (a : Attempt) (session : ℕ) (o : Owner)
      → Books j n m q o
      → Books j n m q (activate env c a session o)
  unfolding activate publish
  activate-Books env c a session o b =
      schedule_idle-Books j n m q env _ (start_next-Books j n m q env _ (ground arith))

  discard_session-Books :
      (c : AttemptResult) (a : Attempt) (session : ℕ) (o : Owner)
      → Books j n m q o
      → Books j n m q (discard_session c a session o)
  unfolding discard_session
  discard_session-Books c a session o b = ground arith

  settle_session-Books :
      (env : Env) (c : AttemptResult) (a : Attempt) (session : Option ℕ) (o : Owner)
      → Books j n m q o
      → Books j n m q (settle_session env c a session o)
  settle_session-Books env c a none o b = b
  settle_session-Books env c a (some session) o b =
      ground (arith, discard_session-Books c a session o b, activate-Books env c a session o b)

  settle-Books :
      (env : Env) (c : AttemptResult) (a : Attempt) (o : Owner)
      → Books j n m q o
      → Books j n m q (settle env c a o)
  unfolding settle
  settle-Books env c a o b =
      ground (arith, attempt_failed-Books c a o b, settle_session-Books env c a c.session o b)

  attempt_completed-Books :
      (env : Env) (c : AttemptResult) (a : Attempt) (o : Owner)
      → Books j n m q o
      → Books j n m q (attempt_completed env c a o)
  unfolding attempt_completed
  attempt_completed-Books env c a o b =
      let idle_again = publish (record (emit (cancel_attempt a.generation) o) { attempt = none }) in
      let recorded =
        emit (record_session c.session_ref connection_attempt_completed (attempt_error c))
          idle_again in
      let waiting = drop_canceled env recorded.workers recorded in
      let again =
        publish-Books j n m q (record (emit (cancel_attempt a.generation) o) { attempt = none })
          (ground arith) in
      let dropped = drop_canceled-Books env recorded.workers recorded (ground arith) in
      publish-Books j n m q _ (
        settle-Books env c a (live_queue env waiting.queue waiting)
          (live_queue-Books env waiting.queue waiting dropped))

  pub on_complete_attempt-Books :
      (env : Env) (c : AttemptResult) (o : Owner)
      → Books j n m q o
      → Books j n m q (on_complete_attempt env c o)
  unfolding on_complete_attempt
  on_complete_attempt-Books env c o b = of o.attempt
    where
      of : (a : Option Attempt) → Books j n m q (on_complete_attempt_of env c a o)
      of none = ground arith
      of (some a) = ground (arith, attempt_completed-Books env c a o b)
