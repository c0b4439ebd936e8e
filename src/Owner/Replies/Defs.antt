-- ===== src/Owner/Replies/Defs.antt =====
-- internal/jetkvm/device_owner.go: the books over the workers: who entered, who was answered and
-- who is still held; and the shared closures, which keep them.
use jetkvm_mcp.Base.{
  ℕ, ◌+◌, Bool, true, Option, none, some, List, [], ◌∷◌, ◌≡◌, refl, arith, ◌==◌, if◌then◌else◌, inl,
  inr, Option-cases, ==_iff,
}
use jetkvm_mcp.Errors.{Error, classify, tool_outcome_not_sent}
use jetkvm_mcp.Owner.State.{
  Effect, registered, reply_worker, Owner, Env, Worker, Result, Generation, Ownership,
  dispatch_started, find, remove, update, fail_with,
}
use jetkvm_mcp.Owner.Closures.{
  publish, answer, fail_worker, fail_workers, fail_queued, stop_idle, start_attempt, dispatch,
  start_worker, start_workers, start_next_on, start_next, schedule_idle, start_cleanup, launch,
}

abbrev pub unit : ℕ → ℕ → ℕ
unit j k = if j == k then 1 else 0

abbrev answers : ℕ → Effect → ℕ
answers j (reply_worker k r) = unit j k
answers j _ = 0

abbrev enters : ℕ → Effect → ℕ
enters j (registered chan k) = unit j k
enters j _ = 0

-- How often worker `j` was answered, and how often its registration was accepted.
abbrev pub answered : ℕ → List Effect → ℕ
answered j [] = 0
answered j (e ∷ es) = answers j e + answered j es

abbrev pub entered : ℕ → List Effect → ℕ
entered j [] = 0
entered j (e ∷ es) = enters j e + entered j es

-- How often worker `j` stands in the map.
abbrev pub held : ℕ → List (ℕ × Worker) → ℕ
held j [] = 0
held j ((k, w) ∷ m) = unit j k + held j m

-- A number that is held nowhere is not found.
pub find_of_held : (k : ℕ) (m : List (ℕ × Worker)) → held k m ≡ 0 → find k m ≡ none
unfolding find
find_of_held k [] h = refl
find_of_held k ((i, w) ∷ m) h = ground (arith, find_of_held k m)

pub held-remove :
    (j k : ℕ) (m : List (ℕ × Worker)) (w : Worker)
    → find k m ≡ some w
    → held j (remove k m) + unit j k ≡ held j m
unfolding find remove
held-remove j k [] w e = absurd (cc)
held-remove j k ((i, v) ∷ m) w e = ground (arith, held-remove j k m w, ==_iff i k)

pub remove-absent : (k : ℕ) (m : List (ℕ × Worker)) → find k m ≡ none → remove k m ≡ m
unfolding find remove
remove-absent k [] e = refl
remove-absent k ((i, v) ∷ m) e = ground (arith, remove-absent k m)

pub held-update : (j k : ℕ) (v : Worker) (m : List (ℕ × Worker)) → held j (update k v m) ≡ held j m
unfolding update
held-update j k v [] = refl
held-update j k v ((i, w) ∷ m) = ground (arith, held-update j k v m)

-- The books on worker `j`: `n` times answered or held, `m` times entered; `q` workers numbered.
abbrev pub Books : ℕ → ℕ → ℕ → ℕ → Owner → Type 0
Books j n m q o =
    (answered j o.effects + held j o.workers ≡ n) × (entered j o.effects ≡ m) × (o.next_worker ≡ q)

module _ (j n m q : ℕ) where
  pub answer-Books :
      (k : ℕ) (r : Result) (w : Worker) (o : Owner)
      → find k o.workers ≡ some w
      → Books j n m q o
      → Books j n m q (answer k r o)
  unfolding answer
  answer-Books k r w o e b = ground (arith, held-remove j k o.workers w e)

  pub fail_worker-Books :
      (r : Result) (k : ℕ) (o : Owner) → Books j n m q o → Books j n m q (fail_worker r k o)
  unfolding fail_worker
  fail_worker-Books r k o b = elim (Option-cases (find k o.workers)) [
    | inl e ↦ ground arith
    | inr (w, e) ↦ ground (arith, answer-Books k r w o e b)
  ]

  fail_workers-Books :
      (r : Result) (ks : List ℕ) (o : Owner) → Books j n m q o → Books j n m q (fail_workers r ks o)
  unfolding fail_workers
  fail_workers-Books r [] o b = b
  fail_workers-Books r (k ∷ ks) o b =
      fail_workers-Books r ks (fail_worker r k o) (fail_worker-Books r k o b)

  pub fail_queued-Books :
      (r : Result) (o : Owner) → Books j n m q o → Books j n m q (fail_queued r o)
  unfolding fail_queued
  fail_queued-Books r o b = fail_workers-Books r o.queue o b

  pub publish-Books : (o : Owner) → Books j n m q o → Books j n m q (publish o)
  unfolding publish
  publish-Books o b = b

  pub stop_idle-Books : (o : Owner) → Books j n m q o → Books j n m q (stop_idle o)
  unfolding stop_idle
  stop_idle-Books o b = ground arith

  pub start_attempt-Books :
      (permit : Bool) (r : Option ℕ) (o : Owner)
      → Books j n m q o
      → Books j n m q (start_attempt permit r o).0
  unfolding start_attempt publish
  start_attempt-Books permit r o b = ground arith

  dispatch-Books :
      (k : ℕ) (w : Worker) (g : Option Generation) (o : Owner)
      → Books j n m q o
      → Books j n m q (dispatch k w g o)
  unfolding dispatch stop_idle
  dispatch-Books k w none o b = b
  dispatch-Books k w (some g) o b = ground (
    arith,
    held-update j k
        (record w {
          evidence = record (w.evidence) { generation = g.id; dispatch = dispatch_started };
          cancel = true;
        })
        o.workers,
  )

  launch-Books :
      (k : ℕ) (w : Worker) (e : Option Error) (o : Owner)
      → find k o.workers ≡ some w
      → Books j n m q o
      → Books j n m q (launch k w e o)
  launch-Books k w none o f b = dispatch-Books k w o.generation o b
  launch-Books k w (some e) o f b =
      answer-Books k (fail_with (classify e tool_outcome_not_sent)) w o f b

  start_worker-Books :
      (env : Env) (k : ℕ) (o : Owner) → Books j n m q o → Books j n m q (start_worker env k o)
  unfolding start_worker
  start_worker-Books env k o b = elim (Option-cases (find k o.workers)) [
    | inl e ↦ ground arith
    | inr (w, e) ↦ ground (arith, launch-Books k w (env.ctx_err k) o e b)
  ]

  start_workers-Books :
      (env : Env) (session : ℕ) (ks : List ℕ) (o : Owner)
      → Books j n m q o
      → Books j n m q (start_workers env session ks o)
  unfolding start_workers
  start_workers-Books env session [] o b = b
  start_workers-Books env session (k ∷ ks) o b = ground (
    arith,
    start_workers-Books env session ks (start_worker env k o) (start_worker-Books env k o b),
  )

  start_next_on-Books :
      (env : Env) (g : Option Generation) (o : Owner)
      → Books j n m q o
      → Books j n m q (start_next_on env g o)
  start_next_on-Books env none o b = b
  start_next_on-Books env (some g) o b =
      ground (arith, start_workers-Books env g.session o.queue o b)

  pub start_next-Books :
      (env : Env) (o : Owner) → Books j n m q o → Books j n m q (start_next env o)
  unfolding start_next
  start_next-Books env o b = start_next_on-Books env o.generation o b

  pub schedule_idle-Books :
      (env : Env) (o : Owner) → Books j n m q o → Books j n m q (schedule_idle env o)
  unfolding schedule_idle
  schedule_idle-Books env o b = ground arith

  pub start_cleanup-Books :
      (g : Generation) (t : Ownership) (r : Option ℕ) (o : Owner)
      → Books j n m q o
      → Books j n m q (start_cleanup g t r o)
  unfolding start_cleanup
  start_cleanup-Books g t r o b = ground arith
