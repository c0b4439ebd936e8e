-- ===== src/Owner/Invariant/Defs.antt =====
-- internal/jetkvm/device_owner.go: what the invariant says, and that the shared closures keep it.
use jetkvm_mcp.Base.{ℕ, Bool, true, false, Option, none, some, ◌≡◌, arith, is_some, ◌||◌}
use jetkvm_mcp.Owner.State.{
  Effect, emit, Ownership, active, uncertain, Owner, Env, Result, Generation, Cleanup,
}
use jetkvm_mcp.Owner.Closures.{
  publish, answer, fail_queued, start_attempt, start_next, schedule_idle, start_cleanup,
}
use jetkvm_mcp.Owner.Handlers.{cleanup_failed}
use jetkvm_mcp.Owner.Step.{is_active}
use jetkvm_mcp.Owner.Frame.{
  Frame, LeaseFrame, fail_queued-Frame, start_next-LeaseFrame, schedule_idle-Frame,
}

abbrev pub target_active : Option Cleanup → Bool
target_active none = false
target_active (some c) = is_active c.target

pub record Inv (o : Owner) : Type 0 where
  -- an attempt, a resident session and a cleanup exclude one another
  pub attempt_alone : is_some o.attempt ≡ true → (o.generation ≡ none) × (o.cleanup ≡ none)
  pub generation_alone : is_some o.generation ≡ true → o.cleanup ≡ none
  -- a resident session means ownership, and ownership a session that is resident or in cleanup
  pub resident_active : is_some o.generation ≡ true → o.ownership ≡ active
  pub active_resident :
      is_active o.ownership ≡ true → (is_some o.generation || is_some o.cleanup) ≡ true
  pub target_settled : target_active o.cleanup ≡ false
  pub unclean_uncertain : cleanup_failed o.cleanup ≡ true → o.ownership ≡ uncertain
  -- an owner that stops has no resident session
  pub stopping_vacant : o.stopping ≡ true → o.generation ≡ none

pub Inv-Frame : (o p : Owner) → Frame o p → Inv o → Inv p
Inv-Frame o p f v = ground arith

pub Inv-LeaseFrame : (o p : Owner) → LeaseFrame o p → Inv o → Inv p
Inv-LeaseFrame o p f v = ground arith

pub publish-Frame : (o : Owner) → Frame o (publish o)
unfolding publish
publish-Frame o = ground arith

pub start_attempt-Inv :
    (permit : Bool) (r : Option ℕ) (o : Owner) → Inv o → Inv (start_attempt permit r o).0
unfolding start_attempt publish
start_attempt-Inv permit r o v = ground arith

pub start_cleanup-Inv :
    (g : Generation) (t : Ownership) (r : Option ℕ) (o : Owner)
    → is_active t ≡ false
    → o.attempt ≡ none
    → o.generation ≡ some g
    → o.cleanup ≡ none
    → Inv (start_cleanup g t r o)
unfolding start_cleanup
start_cleanup-Inv g t r o n a e c = ground arith

pub publish-Inv : (o : Owner) → Inv o → Inv (publish o)
publish-Inv o = Inv-Frame o (publish o) (publish-Frame o)

pub start_next-Inv : (env : Env) (o : Owner) → Inv o → Inv (start_next env o)
start_next-Inv env o = Inv-LeaseFrame o (start_next env o) (start_next-LeaseFrame env o)

pub schedule_idle-Inv : (env : Env) (o : Owner) → Inv o → Inv (schedule_idle env o)
schedule_idle-Inv env o = Inv-Frame o (schedule_idle env o) (schedule_idle-Frame env o)

pub fail_queued-Inv : (r : Result) (o : Owner) → Inv o → Inv (fail_queued r o)
fail_queued-Inv r o = Inv-Frame o (fail_queued r o) (fail_queued-Frame r o)

pub emit-Inv : (e : Effect) (o : Owner) → Inv o → Inv (emit e o)
emit-Inv e o v = ground arith

pub answer-Inv : (k : ℕ) (r : Result) (o : Owner) → Inv o → Inv (answer k r o)
unfolding answer
answer-Inv k r o v = ground arith
