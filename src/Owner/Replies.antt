-- ===== src/Owner/Replies.antt =====
-- internal/jetkvm/device_owner.go: every worker that enters is answered exactly once.
pub mod Defs
mod Workers
mod Lifecycle
use jetkvm_mcp.Base.{
  ℕ, suc, ◌+◌, ◌%◌, ◌^◌, ◌≤◌, ◌<◌, Bool, true, false, Option, none, some, List, [], ◌∷◌, ◌≡◌, ◌⊎◌,
  inl, inr, refl, arith, length,
}
use jetkvm_mcp.Owner.State.{
  Owner, Env, Command, Ownership, Worker, register_worker, cancel_owner_worker, complete_worker,
  complete_attempt, generation_ended, takeover_recognized, idle_expired, demand_changed,
  complete_cleanup, stop_owner, release_session, take_over_session, complete_validation, find, next,
  new_owner,
}
use jetkvm_mcp.Owner.Closures.{publish}
use jetkvm_mcp.Owner.Step.{
  handle, step, finish_if_stopped, answer_all, cleanup_error, run, is_finished,
}
use Defs.{Books, answered, entered, held, unit, find_of_held, publish-Books, schedule_idle-Books}
use Workers.{
  Fresh, on_register_worker-Books, on_cancel_worker-Books, on_complete_worker-Books,
  on_complete_attempt-Books,
}
use Lifecycle.{
  on_generation_ended-Books, on_takeover_recognized-Books, on_idle_expired-Books,
  on_complete_cleanup-Books, on_release_session-Books, on_take_over_session-Books,
  on_complete_validation-Books, on_stop-Books, answer_all-Books,
}

-- What a command may do to the books: nothing, number a worker that it refuses, or enter one.
abbrev Moves : ℕ → ℕ → ℕ → ℕ → Owner → Type 0
Moves j n m q p =
    Books j n m q p
    ⊎ (Books j n m (next q) p ⊎ Books j (n + unit j (next q)) (m + unit j (next q)) (next q) p)

module _ (j n m q : ℕ) where
  handle-Moves :
      (env : Env) (c : Command) (o : Owner)
      → Fresh o
      → Books j n m q o
      → Moves j n m q (handle env c o)
  unfolding handle
  handle-Moves env (register_worker class chan) o f b =
      ground (arith, on_register_worker-Books j n m q env class chan o f b)
  handle-Moves env (cancel_owner_worker evidence e chan) o f b =
      inl (on_cancel_worker-Books j n m q evidence e chan o b)
  handle-Moves env (complete_worker evidence r) o f b =
      inl (on_complete_worker-Books j n m q env evidence r o b)
  handle-Moves env (complete_attempt c) o f b = inl (on_complete_attempt-Books j n m q env c o b)
  handle-Moves env (generation_ended id) o f b = inl (on_generation_ended-Books j n m q env id o b)
  handle-Moves env (takeover_recognized id) o f b =
      inl (on_takeover_recognized-Books j n m q id o b)
  handle-Moves env (idle_expired id) o f b = inl (on_idle_expired-Books j n m q env id o b)
  handle-Moves env demand_changed o f b = inl (schedule_idle-Books j n m q env o b)
  handle-Moves env (complete_cleanup id e) o f b =
      inl (on_complete_cleanup-Books j n m q env id e o b)
  handle-Moves env (stop_owner chan) o f b = inl (on_stop-Books j n m q chan o b)
  handle-Moves env (release_session chan) o f b =
      inl (on_release_session-Books j n m q env chan o b)
  handle-Moves env (take_over_session chan) o f b =
      inl (on_take_over_session-Books j n m q env chan o b)
  handle-Moves env (complete_validation id e) o f b =
      inl (on_complete_validation-Books j n m q env id e o b)

  finish-Books : (o : Owner) → Books j n m q o → Books j n m q (finish_if_stopped o).0
  unfolding finish_if_stopped
  finish-Books o b =
      let closed = publish o in
      ground (
        arith,
        answer_all-Books j n m q closed.stop_waiters (cleanup_error closed.cleanup) closed
            (publish-Books j n m q o b),
      )

step-Moves :
    (j : ℕ) (env : Env) (c : Command) (o : Owner)
    → Fresh o
    → Moves j
        (answered j o.effects + held j o.workers)
        (entered j o.effects)
        o.next_worker
        (step env c o).0
unfolding step
step-Moves j env c o f = elim (handle-Moves j _ _ _ env c o f (refl, refl, refl)) [
  | inl b ↦ inl (finish-Books j _ _ _ (handle env c o) b)
  | inr (inl b) ↦ inr (inl (finish-Books j _ _ _ (handle env c o) b))
  | inr (inr b) ↦ inr (inr (finish-Books j _ _ _ (handle env c o) b))
]

-- The books of a run: each worker that entered was answered or is held, none entered twice, and
-- the numbers above the counter are unused.
pub record Ledger (o : Owner) : Type 0 where
  pub balanced : (j : ℕ) → answered j o.effects + held j o.workers ≡ entered j o.effects
  pub once : (j : ℕ) → entered j o.effects ≤ 1
  pub unused : (j : ℕ) → o.next_worker < j → entered j o.effects ≡ 0

Ledger-Fresh : (o : Owner) → o.next_worker + 1 < 2 ^ 64 → Ledger o → Fresh o
Ledger-Fresh o h l =
    find_of_held (next o.next_worker) o.workers
      (omega (arith, l.balanced (next o.next_worker), l.unused (next o.next_worker)))

-- Every command keeps the ledger, as long as the worker counter does not wrap.
pub step-Ledger :
    (env : Env) (c : Command) (o : Owner)
    → o.next_worker + 1 < 2 ^ 64
    → Ledger o
    → Ledger (step env c o).0 × ((step env c o).0.next_worker ≤ o.next_worker + 1)
step-Ledger env c o h l = (
  record {
    balanced = λ j. ground (arith, step-Moves j env c o (Ledger-Fresh o h l), l.balanced j);
    once = λ j. ground (arith, step-Moves j env c o (Ledger-Fresh o h l), l.once j, l.unused j);
    unused = λ j p. ground (arith, step-Moves j env c o (Ledger-Fresh o h l), l.unused j);
  },
  ground (arith, step-Moves 0 env c o (Ledger-Fresh o h l)),
)

run-Ledger :
    (cs : List (Env × Command)) (o : Owner)
    → o.next_worker + length cs < 2 ^ 64
    → Ledger o
    → Ledger (run cs o)
unfolding run
run-Ledger [] o h l = l
run-Ledger ((env, c) ∷ cs) o h l =
    let (kept, grown) = step-Ledger env c o (omega arith) l in
    ground (arith, kept, run-Ledger cs (step env c o).0 (omega arith) kept)

new_owner-Ledger : (id revision : ℕ) (initial : Ownership) → Ledger (new_owner id initial revision)
unfolding new_owner
new_owner-Ledger id revision initial = record {
  balanced = λ j. refl;
  once = λ j. omega arith;
  unused = λ j h. refl;
}

pub run_answers :
    (id revision : ℕ) (initial : Ownership) (cs : List (Env × Command))
    → length cs < 2 ^ 64
    → (j : ℕ)
    → let o = run cs (new_owner id initial revision) in
      (answered j o.effects + held j o.workers ≡ entered j o.effects) × (entered j o.effects ≤ 1)
unfolding new_owner
run_answers id revision initial cs h j =
    let l =
      run-Ledger cs (new_owner id initial revision) (omega arith)
        (new_owner-Ledger id revision initial) in
    (l.balanced j, l.once j)

-- When the loop may return, every worker that entered has been answered, exactly once.
pub finished_answers :
    (id revision : ℕ) (initial : Ownership) (cs : List (Env × Command))
    → length cs < 2 ^ 64
    → is_finished (run cs (new_owner id initial revision)) ≡ true
    → (j : ℕ)
    → let o = run cs (new_owner id initial revision) in answered j o.effects ≡ entered j o.effects
unfolding is_finished
finished_answers id revision initial cs h f j =
    ground (arith, run_answers id revision initial cs h j)
