-- ===== src/Owner/Invariant/Attempts.antt =====
-- internal/jetkvm/device_owner.go: a completed attempt keeps the invariant.
use jetkvm_mcp.Base.{ℕ, false, Option, none, some, ◌≡◌, arith, inl, inr, Bool-cases}
use jetkvm_mcp.Owner.State.{
  cancel_attempt, record_session, connection_attempt_completed, emit, Owner, Env, Attempt,
  AttemptResult,
}
use jetkvm_mcp.Owner.Closures.{degrade, publish}
use jetkvm_mcp.Owner.Attempt.{
  on_complete_attempt_of, settle_session, attempt_error, attempt_completed, settle, attempt_failed,
  activate, discard_session, live_queue, drop_canceled,
}
use jetkvm_mcp.Owner.Frame.{Frame, fail_queued-Frame, drop_canceled-Frame, live_queue-Frame}
use jetkvm_mcp.Owner.Invariant.Defs.{
  Inv, Inv-Frame, publish-Frame, publish-Inv, start_next-Inv, schedule_idle-Inv,
}

-- Neither attempt nor session nor cleanup.
abbrev pub IsVacant : Owner → Type 0
IsVacant o = (o.attempt ≡ none) × (o.generation ≡ none) × (o.cleanup ≡ none) × Inv o

pub IsVacant-Frame : (o p : Owner) → Frame o p → IsVacant o → IsVacant p
IsVacant-Frame o p f v = ground (arith, Inv-Frame o p f v.3)

pub attempt_failed-Inv :
    (c : AttemptResult) (a : Attempt) (o : Owner) → IsVacant o → Inv (attempt_failed c a o)
unfolding attempt_failed publish
attempt_failed-Inv c a o v =
    ground (arith, fail_queued-Frame (record { err = c.err; panic = c.panic }) (degrade o))

pub activate-Inv :
    (env : Env) (c : AttemptResult) (a : Attempt) (session : ℕ) (o : Owner)
    → o.stopping ≡ false
    → IsVacant o
    → Inv (activate env c a session o)
unfolding activate publish
activate-Inv env c a session o s v = schedule_idle-Inv env _ (start_next-Inv env _ (ground arith))

pub discard_session-Inv :
    (c : AttemptResult) (a : Attempt) (session : ℕ) (o : Owner)
    → IsVacant o
    → Inv (discard_session c a session o)
unfolding discard_session
discard_session-Inv c a session o v = ground arith

pub settle_session-Inv :
    (env : Env) (c : AttemptResult) (a : Attempt) (session : Option ℕ) (o : Owner)
    → IsVacant o
    → Inv (settle_session env c a session o)
settle_session-Inv env c a none o v = v.3
settle_session-Inv env c a (some session) o v = elim (Bool-cases o.stopping) [
  | inl s ↦ ground (arith, discard_session-Inv c a session o v)
  | inr s ↦ ground (arith, discard_session-Inv c a session o v, activate-Inv env c a session o s v)
]

pub settle-Inv :
    (env : Env) (c : AttemptResult) (a : Attempt) (o : Owner) → IsVacant o → Inv (settle env c a o)
unfolding settle
settle-Inv env c a o v =
    ground (arith, attempt_failed-Inv c a o v, settle_session-Inv env c a c.session o v)

pub attempt_completed-Inv :
    (env : Env) (c : AttemptResult) (a : Attempt) (o : Owner)
    → o.attempt ≡ some a
    → Inv o
    → Inv (attempt_completed env c a o)
unfolding attempt_completed
attempt_completed-Inv env c a o e v =
    let again = publish (record (emit (cancel_attempt a.generation) o) { attempt = none }) in
    let recorded =
      emit (record_session c.session_ref connection_attempt_completed (attempt_error c)) again in
    let waiting = drop_canceled env recorded.workers recorded in
    let f = publish-Frame (record (emit (cancel_attempt a.generation) o) { attempt = none }) in
    let w : IsVacant recorded = ground arith in
    let live : IsVacant (live_queue env waiting.queue waiting) =
      IsVacant-Frame _ _ (live_queue-Frame env waiting.queue waiting)
        (IsVacant-Frame _ _ (drop_canceled-Frame env recorded.workers recorded) w) in
    publish-Inv _ (settle-Inv env c a _ live)

pub on_complete_attempt_of-Inv :
    (env : Env) (c : AttemptResult) (a : Option Attempt) (o : Owner)
    → o.attempt ≡ a
    → Inv o
    → Inv (on_complete_attempt_of env c a o)
on_complete_attempt_of-Inv env c none o e v = ground arith
on_complete_attempt_of-Inv env c (some a) o e v =
    ground (arith, attempt_completed-Inv env c a o e v)
