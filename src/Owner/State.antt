-- ===== src/Owner/State.antt =====
-- internal/jetkvm/device_owner.go: the variables of `loop`, its commands, and what it does to the
-- world. Channels, sessions and contexts are numbers: a worker's context and reply channel go by
-- the worker's number.
use jetkvm_mcp.Base.{
  ℕ, ◌+◌, ◌%◌, ◌^◌, Bool, false, Option, none, some, List, [], ◌∷◌, ◌==◌, if◌then◌else◌,
}
use jetkvm_mcp.Errors.{Error}

pub data Ownership : Type 0 where
  idle active taken_over uncertain released stopped : Ownership

pub data Transition : Type 0 where
  no_transition connecting draining closing : Transition

pub data Health : Type 0 where
  unavailable healthy degraded : Health

pub data Freshness : Type 0 where
  unknown current : Freshness

pub data Provenance : Type 0 where
  no_provenance from_operation : Provenance

pub record Observations : Type 0 where
  pub completed : ℕ  -- uint64
  pub failed : ℕ  -- uint64

pub record Snapshot : Type 0 where
  pub ownership : Ownership
  pub transition : Transition
  pub health : Health
  pub freshness : Freshness
  pub provenance : Provenance
  pub observations : Observations
  pub capability_profile_revision : ℕ

pub data DispatchEvidence : Type 0 where
  dispatch_not_sent dispatch_started dispatch_completed : DispatchEvidence

pub record WorkerEvidence : Type 0 where
  pub owner : ℕ
  pub generation : ℕ  -- 0 before dispatch
  pub worker : ℕ
  pub dispatch : DispatchEvidence

pub data OperationClass : Type 0 where
  ordinary mutation hid : OperationClass

-- ownerResult: `panic` says that a panic value is carried.
pub record Result : Type 0 where
  pub err : Option Error
  pub panic : Bool

-- ownerWorkerState: `cancel` says that its cancel function is set.
pub record Worker : Type 0 where
  pub evidence : WorkerEvidence
  pub class : OperationClass
  pub cancel : Bool
  pub canceled : Bool

pub record Attempt : Type 0 where
  pub generation : ℕ
  pub takeover_reply : Option ℕ

pub record Validation : Type 0 where
  pub generation : ℕ
  pub reply : ℕ

-- ownerGenerationState: `watched` says that watchDone is set.
pub record Generation : Type 0 where
  pub id : ℕ
  pub ref : ℕ
  pub leased : Bool
  pub session : ℕ
  pub watched : Bool

pub record Cleanup : Type 0 where
  pub generation : Generation
  pub target : Ownership
  pub err : Option Error
  pub reply : Option ℕ
  pub takeover_reply : Option ℕ

-- The telemetry events of a session.
pub data SessionEvent : Type 0 where
  connection_attempt_completed generation_active generation_reused idle_released : SessionEvent
  explicitly_released taken_over_event ownership_uncertain_event : SessionEvent
  cleanup_timeout shutdown_closed : SessionEvent

-- What the loop sends, starts and cancels.
pub data Effect : Type 0 where
  -- on the reply channel of a registration: the worker's number, or an error
  registered : ℕ → ℕ → Effect
  refused : ℕ → Error → Effect
  -- on a worker's reply channel
  reply_worker : ℕ → Result → Effect
  -- on the reply channel of a cancellation
  reply_canceled : ℕ → Bool → Effect
  -- on the reply channel of a release, a takeover or a stop
  reply : ℕ → Option Error → Effect
  run_attempt run_cleanup run_validation watch_generation close_detached : ℕ → Effect
  -- worker, generation
  run_operation : ℕ → ℕ → Effect
  cancel_attempt cancel_worker cancel_generation close_watch : ℕ → Effect
  arm_idle : ℕ → Effect
  stop_timer : Effect
  record_session : ℕ → SessionEvent → Option Error → Effect

pub record Owner : Type 0 where
  pub id : ℕ
  pub snapshot : Snapshot
  pub published : Snapshot
  pub workers : List (ℕ × Worker)
  pub queue : List ℕ
  pub next_generation : ℕ  -- uint64
  pub next_worker : ℕ  -- uint64
  pub attempt : Option Attempt
  pub validation : Option Validation
  pub generation : Option Generation
  pub last_session_ref : ℕ
  pub cleanup : Option Cleanup
  pub idle_timer : Bool
  pub stopping : Bool
  pub stop_waiters : List ℕ
  pub ownership : Ownership
  pub effects : List Effect  -- newest first

-- What one command reads of the world outside the loop.
pub record Env : Type 0 where
  pub demand : ℕ  -- callers inside RunPrepared
  pub ctx_err : ℕ → Option Error  -- of a worker's context
  pub takeover : ℕ → Bool  -- recognizedTakeover, of a session
  pub session_done : ℕ → Bool  -- whether session.Done() is closed
  pub permit : Bool  -- whether tryAcquire(connectionAttempts) succeeds
  pub permit_again : Bool  -- and a second time within the command

-- completeOwnerAttempt
pub record AttemptResult : Type 0 where
  pub generation : ℕ
  pub session : Option ℕ
  pub session_ref : ℕ
  pub err : Option Error
  pub cleanup_err : Option Error
  pub panic : Bool

pub data Command : Type 0 where
  -- class, reply
  register_worker : OperationClass → ℕ → Command
  -- evidence, the caller's error, reply
  cancel_owner_worker : WorkerEvidence → Error → ℕ → Command
  complete_worker : WorkerEvidence → Result → Command
  complete_attempt : AttemptResult → Command
  generation_ended takeover_recognized idle_expired : ℕ → Command
  demand_changed : Command
  complete_cleanup : ℕ → Option Error → Command
  stop_owner release_session take_over_session : ℕ → Command
  complete_validation : ℕ → Option Error → Command

-- The map from worker numbers.
unfoldable pub find : ℕ → List (ℕ × Worker) → Option Worker
find k [] = none
find k ((j, w) ∷ m) = if j == k then some w else find k m

unfoldable pub remove : ℕ → List (ℕ × Worker) → List (ℕ × Worker)
remove k [] = []
remove k ((j, w) ∷ m) = if j == k then m else (j, w) ∷ remove k m

unfoldable pub update : ℕ → Worker → List (ℕ × Worker) → List (ℕ × Worker)
update k v [] = []
update k v ((j, w) ∷ m) = if j == k then (j, v) ∷ m else (j, w) ∷ update k v m

-- `workers[k] = v`
unfoldable pub put : ℕ → Worker → List (ℕ × Worker) → List (ℕ × Worker)
put k v m = (k, v) ∷ remove k m

-- Counters are uint64.
abbrev pub u64_mod : ℕ
u64_mod = 2 ^ 64

abbrev pub next : ℕ → ℕ
next n = (n + 1) % u64_mod

abbrev pub emit : Effect → Owner → Owner
emit e o = record o { effects = e ∷ o.effects }

abbrev pub fail_with : Error → Result
fail_with e = record { err = some e; panic = false }

-- newDeviceOwnerWithSettings
unfoldable pub new_owner : ℕ → Ownership → ℕ → Owner
new_owner id initial revision =
    let snapshot : Snapshot = record {
      ownership = initial;
      transition = no_transition;
      health = unavailable;
      freshness = unknown;
      provenance = no_provenance;
      observations = record { completed = 0; failed = 0 };
      capability_profile_revision = if revision == 0 then 1 else revision;
    } in
    record {
      id = id;
      snapshot = snapshot;
      published = snapshot;
      workers = [];
      queue = [];
      next_generation = 0;
      next_worker = 0;
      attempt = none;
      validation = none;
      generation = none;
      last_session_ref = 0;
      cleanup = none;
      idle_timer = false;
      stopping = false;
      stop_waiters = [];
      ownership = initial;
      effects = [];
    }
