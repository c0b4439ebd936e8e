-- ===== src/Owner/Invariant/Workers.antt =====
-- internal/jetkvm/device_owner.go: the commands of workers keep the invariant.
use jetkvm_mcp.Base.{ℕ, Option, none, some, arith}
use jetkvm_mcp.Errors.{Error}
use jetkvm_mcp.Owner.State.{find, next, Owner, Env, Worker, Result, OperationClass, WorkerEvidence}
use jetkvm_mcp.Owner.Closures.{publish, answer, start_attempt, start_next, schedule_idle}
use jetkvm_mcp.Owner.Handlers.{
  observed, complete_one, on_register_worker, on_cancel_worker, on_complete_worker, register_after,
  enroll,
}
use jetkvm_mcp.Owner.Invariant.Defs.{
  Inv, start_attempt-Inv, publish-Inv, start_next-Inv, schedule_idle-Inv, emit-Inv, answer-Inv,
}

pub register_after-Inv :
    (env : Env) (k chan : ℕ) (e : Option Error) (o : Owner)
    → Inv o
    → Inv (register_after env k chan e o)
unfolding register_after
register_after-Inv env k chan (some e) o v = ground arith
register_after-Inv env k chan none o v = publish-Inv _ (start_next-Inv env _ (emit-Inv _ o v))

pub enroll-Inv : (class : OperationClass) (k : ℕ) (o : Owner) → Inv o → Inv (enroll class k o)
unfolding enroll
enroll-Inv class k o v = ground arith

pub on_register_worker-Inv :
    (env : Env) (class : OperationClass) (chan : ℕ) (o : Owner)
    → Inv o
    → Inv (on_register_worker env class chan o)
unfolding on_register_worker
on_register_worker-Inv env class chan o v =
    let k = next o.next_worker in
    let entered = enroll class k o in
    let w = enroll-Inv class k o v in
    let (tried, e) = start_attempt env.permit none entered in
    ground (
      arith,
      register_after-Inv env k chan e tried (start_attempt-Inv env.permit none entered w),
      register_after-Inv env k chan none entered w,
    )

pub on_cancel_worker-Inv :
    (evidence : WorkerEvidence) (e : Error) (chan : ℕ) (o : Owner)
    → Inv o
    → Inv (on_cancel_worker evidence e chan o)
unfolding on_cancel_worker publish answer
on_cancel_worker-Inv evidence e chan o v = ground arith

pub observed-Inv : (k : ℕ) (r : Result) (w : Worker) (o : Owner) → Inv o → Inv (observed k r w o)
unfolding observed
observed-Inv k r w o v = ground arith

pub complete_one-Inv :
    (env : Env) (evidence : WorkerEvidence) (r : Result) (w : Option Worker) (o : Owner)
    → Inv o
    → Inv (complete_one env evidence r w o)
complete_one-Inv env evidence r none o v = v
complete_one-Inv env evidence r (some w) o v =
    let answered = answer evidence.worker r (observed evidence.worker r w o) in
    let i = answer-Inv evidence.worker r _ (observed-Inv evidence.worker r w o v) in
    let started = start_next env answered in
    let j = start_next-Inv env answered i in
    ground (arith, publish-Inv (schedule_idle env started) (schedule_idle-Inv env started j))

pub on_complete_worker-Inv :
    (env : Env) (evidence : WorkerEvidence) (r : Result) (o : Owner)
    → Inv o
    → Inv (on_complete_worker env evidence r o)
unfolding on_complete_worker
on_complete_worker-Inv env evidence r o =
    complete_one-Inv env evidence r (find evidence.worker o.workers) o
