-- ===== src/Owner/Frame.antt =====
-- internal/jetkvm/device_owner.go: what the loops over workers leave alone.
use jetkvm_mcp.Base.{ℕ, true, Option, none, some, List, [], ◌∷◌, ◌≡◌, arith, is_some}
use jetkvm_mcp.Errors.{Error}
use jetkvm_mcp.Owner.State.{Attempt, emit, reply, Owner, Env, Worker, Result, Generation}
use jetkvm_mcp.Owner.Closures.{
  answer, fail_worker, fail_workers, fail_queued, stop_idle, dispatch, start_worker, start_workers,
  start_next, start_next_on, schedule_idle,
}
use jetkvm_mcp.Owner.Attempt.{drop_canceled_one, drop_canceled, expire, live_queue}
use jetkvm_mcp.Owner.Step.{stop_queue, begin_stop, answer_all, cancel_active, cancel_running}

-- The owner's phase: all but its workers, its queue, its timer and its trace.
pub record Frame (o p : Owner) : Type 0 where
  pub same_attempt : p.attempt ≡ o.attempt
  pub same_generation : p.generation ≡ o.generation
  pub same_cleanup : p.cleanup ≡ o.cleanup
  pub same_validation : p.validation ≡ o.validation
  pub same_ownership : p.ownership ≡ o.ownership
  pub same_stopping : p.stopping ≡ o.stopping
  pub same_next : p.next_generation ≡ o.next_generation

pub Frame-refl : (o : Owner) → Frame o o
Frame-refl o = ground arith

pub Frame-trans : (o p q : Owner) → Frame o p → Frame p q → Frame o q
Frame-trans o p q f g = ground arith

fail_worker-Frame : (r : Result) (k : ℕ) (o : Owner) → Frame o (fail_worker r k o)
unfolding fail_worker answer
fail_worker-Frame r k o = ground arith

fail_workers-Frame : (r : Result) (ks : List ℕ) (o : Owner) → Frame o (fail_workers r ks o)
unfolding fail_workers
fail_workers-Frame r [] o = ground arith
fail_workers-Frame r (k ∷ ks) o =
    Frame-trans o (fail_worker r k o) _ (fail_worker-Frame r k o)
      (fail_workers-Frame r ks (fail_worker r k o))

pub fail_queued-Frame : (r : Result) (o : Owner) → Frame o (fail_queued r o)
unfolding fail_queued
fail_queued-Frame r o = ground (arith, fail_workers-Frame r o.queue o)

drop_canceled_one-Frame :
    (env : Env) (k : ℕ) (w : Worker) (o : Owner) → Frame o (drop_canceled_one env k w o)
unfolding drop_canceled_one fail_worker answer
drop_canceled_one-Frame env k w o = ground arith

pub drop_canceled-Frame :
    (env : Env) (m : List (ℕ × Worker)) (o : Owner) → Frame o (drop_canceled env m o)
unfolding drop_canceled
drop_canceled-Frame env [] o = ground arith
drop_canceled-Frame env ((k, w) ∷ m) o =
    Frame-trans o (drop_canceled_one env k w o) _ (drop_canceled_one-Frame env k w o)
      (drop_canceled-Frame env m (drop_canceled_one env k w o))

expire-Frame : (env : Env) (k : ℕ) (o : Owner) → Frame o (expire env k o)
unfolding expire answer
expire-Frame env k o = ground arith

pub live_queue-Frame : (env : Env) (ks : List ℕ) (o : Owner) → Frame o (live_queue env ks o)
unfolding live_queue
live_queue-Frame env [] o = ground arith
live_queue-Frame env (k ∷ ks) o =
    ground (arith, expire-Frame env k o, live_queue-Frame env ks (expire env k o))

cancel_running-Frame : (k : ℕ) (w : Worker) (o : Owner) → Frame o (cancel_running k w o)
unfolding cancel_running
cancel_running-Frame k w o = ground arith

pub cancel_active-Frame : (m : List (ℕ × Worker)) (o : Owner) → Frame o (cancel_active m o)
unfolding cancel_active
cancel_active-Frame [] o = ground arith
cancel_active-Frame ((k, w) ∷ m) o =
    Frame-trans o (cancel_running k w o) _ (cancel_running-Frame k w o)
      (cancel_active-Frame m (cancel_running k w o))

-- The same, but a generation may be leased meanwhile.
abbrev pub id_of : Option Generation → Option ℕ
id_of none = none
id_of (some g) = some g.id

pub record LeaseFrame (o p : Owner) : Type 0 where
  pub same_attempt : p.attempt ≡ o.attempt
  pub same_resident : is_some p.generation ≡ is_some o.generation
  pub same_id : id_of p.generation ≡ id_of o.generation
  pub same_cleanup : p.cleanup ≡ o.cleanup
  pub same_validation : p.validation ≡ o.validation
  pub same_ownership : p.ownership ≡ o.ownership
  pub same_stopping : p.stopping ≡ o.stopping
  pub same_next : p.next_generation ≡ o.next_generation

LeaseFrame-trans : (o p q : Owner) → LeaseFrame o p → LeaseFrame p q → LeaseFrame o q
LeaseFrame-trans o p q f g = ground arith

dispatch-LeaseFrame : (k : ℕ) (w : Worker) (o : Owner) → LeaseFrame o (dispatch k w o.generation o)
unfolding dispatch
dispatch-LeaseFrame k w o = ground arith

start_worker-LeaseFrame : (env : Env) (k : ℕ) (o : Owner) → LeaseFrame o (start_worker env k o)
unfolding start_worker
start_worker-LeaseFrame env k o = ground arith

start_workers-LeaseFrame :
    (env : Env) (session : ℕ) (ks : List ℕ) (o : Owner)
    → LeaseFrame o (start_workers env session ks o)
unfolding start_workers
start_workers-LeaseFrame env session [] o = ground arith
start_workers-LeaseFrame env session (k ∷ ks) o = ground (
  arith,
  start_worker-LeaseFrame env k o,
  start_workers-LeaseFrame env session ks (start_worker env k o),
)

start_next_on-LeaseFrame :
    (env : Env) (g : Option Generation) (o : Owner) → LeaseFrame o (start_next_on env g o)
start_next_on-LeaseFrame env none o = ground arith
start_next_on-LeaseFrame env (some g) o =
    ground (arith, start_workers-LeaseFrame env g.session o.queue o)

pub start_next-LeaseFrame : (env : Env) (o : Owner) → LeaseFrame o (start_next env o)
unfolding start_next
start_next-LeaseFrame env o = start_next_on-LeaseFrame env o.generation o

pub schedule_idle-Frame : (env : Env) (o : Owner) → Frame o (schedule_idle env o)
unfolding schedule_idle
schedule_idle-Frame env o = ground arith

pub stop_idle-Frame : (o : Owner) → Frame o (stop_idle o)
unfolding stop_idle
stop_idle-Frame o = ground arith

pub stop_queue-Frame : (a : Option Attempt) (o : Owner) → Frame o (stop_queue a o)
stop_queue-Frame none o = fail_queued-Frame _ o
stop_queue-Frame (some a) o = ground arith

-- Without a session the stop only ends the waiting workers.
pub begin_stop-Frame :
    (o : Owner) → o.generation ≡ none → Frame (record o { stopping = true }) (begin_stop o)
unfolding begin_stop
begin_stop-Frame o e =
    let p = record o { stopping = true } in
    let queued = stop_queue o.attempt (stop_idle p) in
    let f =
      Frame-trans p (stop_idle p) queued (stop_idle-Frame p)
        (stop_queue-Frame o.attempt (stop_idle p)) in
    ground (
      arith,
      Frame-trans p queued (cancel_active queued.workers queued) f
          (cancel_active-Frame queued.workers queued),
    )

pub answer_all-Frame :
    (chans : List ℕ) (e : Option Error) (o : Owner) → Frame o (answer_all chans e o)
unfolding answer_all
answer_all-Frame [] e o = ground arith
answer_all-Frame (chan ∷ chans) e o =
    ground (arith, answer_all-Frame chans e (emit (reply chan e) o))
