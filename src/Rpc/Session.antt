-- ===== src/Rpc/Session.antt =====
-- internal/jetkvm/rpc_session.go: a session's calls, each under the id of its request. Every stretch of
-- Call, HandleMessage and Close between two points where others may run is one step.
pub mod Steps
pub mod Sound
pub mod Runs
use jetkvm_mcp.Base.{
  ℕ, zero, suc, ◌+◌, ◌%◌, ◌^◌, Bool, true, false, not, ◌&&◌, ◌||◌, Option, none, some, List, [],
  ◌∷◌, ◌++◌, ◌==◌, leb, length, String, is_some, if◌then◌else◌,
}
use jetkvm_mcp.Base.Counting.{count, is_id, remove_id}
use jetkvm_mcp.Errors.{
  Error, busy, classify, device_unreachable, foreign, invalid_response, is, rpc_method_unavailable,
  sentinel, session_closed, tool_outcome_failed, tool_outcome_not_sent, tool_outcome_unknown, wrap,
}
use jetkvm_mcp.Rpc.Codec.{Decoded, Json, Response, RpcFailure, known, protocol_error}

-- Where a call stands: before it has an id, in `pending`, with its payload, with the send gate, past
-- the second look at the contexts, sent, and returned.
pub data CallStage : Type 0 where
  unbegun registered waiting holding sending sent returned : CallStage

-- `rpcOutcome`
pub record RpcOutcome : Type 0 where
  pub result : Option Json
  pub err : Option RpcFailure

pub record RpcSession : Type 0 where
  -- session.ctx is done
  pub ended : Bool
  -- closeOnce is done
  pub closed : Bool
  pub next_id : ℕ
  -- who took the token of `sendGate`
  pub gate : Option ℕ
  pub pending : List ℕ
  pub stages : ℕ → CallStage
  -- the channels of the waiters, of one place each
  pub waiters : ℕ → Option RpcOutcome
  -- outcomes whose entry has been deleted, and that are still to be put into their channel
  pub in_flight : List (ℕ × RpcOutcome)
  -- what happened, newest first: texts given to the sender, outcomes put into channels and outcomes
  -- for which there was no place, and what the calls returned
  pub texts : List ℕ
  pub delivered : List (ℕ × RpcOutcome)
  pub dropped : List (ℕ × RpcOutcome)
  pub returns : List (ℕ × Option Error)
  pub takeovers : ℕ

abbrev pub new_rpc_session : RpcSession
new_rpc_session = record {
  ended = false;
  closed = false;
  next_id = 0;
  gate = none;
  pending = [];
  stages = λ k. unbegun;
  waiters = λ k. none;
  in_flight = [];
  texts = [];
  delivered = [];
  dropped = [];
  returns = [];
  takeovers = 0;
}

abbrev pub max_pending_rpc_requests : ℕ
max_pending_rpc_requests = 64

unfoldable pub set_at {ℓ} : {A : Type ℓ} → ℕ → A → (ℕ → A) → ℕ → A
set_at k x f j = if k == j then x else f j

abbrev pub set_call_stage : ℕ → CallStage → RpcSession → RpcSession
set_call_stage k stage s = record s { stages = set_at k stage s.stages }

abbrev pub return_call : ℕ → Option Error → RpcSession → RpcSession
return_call k e s = record s { stages = set_at k returned s.stages; returns = (k, e) ∷ s.returns }

abbrev pub remove_pending : ℕ → RpcSession → RpcSession
remove_pending k s = record s { pending = remove_id k s.pending }

abbrev pub release_gate : RpcSession → RpcSession
release_gate s = record s { gate = none }

abbrev pub closed_with : String → Error
closed_with outcome = classify (sentinel session_closed) outcome

-- The id, and `addPending`.
unfoldable pub begin_call : RpcSession → RpcSession
begin_call s =
    let id = (s.next_id + 1) % 2 ^ 64 in
    let m = record s { next_id = id } in
    let entered = record m { pending = id ∷ s.pending; stages = set_at id registered s.stages } in
    if s.ended
    then return_call id (some (closed_with tool_outcome_not_sent)) m
    else if leb max_pending_rpc_requests (length s.pending)
    then return_call id (some (classify (sentinel busy) tool_outcome_not_sent)) m
    else entered

-- `marshalRPCRequest` succeeds or fails.
abbrev pub marshal_of : ℕ → Option Error → RpcSession → RpcSession
marshal_of k none s = set_call_stage k waiting s
marshal_of k (some e) s =
    return_call k (some (classify e tool_outcome_not_sent)) (remove_pending k s)

-- The request's context is done, with an error.
abbrev pub expire_call : ℕ → Error → RpcSession → RpcSession
expire_call k e s = elim (s.stages k) [
  | waiting ↦ return_call k (some (classify e tool_outcome_not_sent)) (remove_pending k s)
  | sent ↦ return_call k (some (classify e tool_outcome_unknown)) (remove_pending k s)
  | other ↦ s
]

-- The session's context is done.
abbrev pub notice : ℕ → RpcSession → RpcSession
notice k s = if s.ended then expire_call k (sentinel session_closed) s else s

abbrev pub take_gate : ℕ → RpcSession → RpcSession
take_gate k s =
    if is_some s.gate then s else record s { gate = some k; stages = set_at k holding s.stages }

-- The second look at the contexts.
abbrev pub recheck : ℕ → Option Error → RpcSession → RpcSession
recheck k (some e) s =
    return_call k (some (classify e tool_outcome_not_sent)) (remove_pending k (release_gate s))
recheck k none s =
    if s.ended
    then return_call k (some (closed_with tool_outcome_not_sent))
        (remove_pending k (release_gate s))
    else set_call_stage k sending s

-- `SendText`, which may fail, and the gate.
abbrev pub send_text : ℕ → Bool → RpcSession → RpcSession
send_text k ok s =
    let given = record (release_gate s) { texts = k ∷ s.texts } in
    if ok
    then set_call_stage k sent given
    else return_call k (some (classify (wrap (sentinel device_unreachable)) tool_outcome_unknown))
        (remove_pending k given)

abbrev pub failure_error : RpcFailure → Error
failure_error (known s) = sentinel s
failure_error (protocol_error _) = foreign 0

abbrev pub is_protocol_error : RpcFailure → Bool
is_protocol_error (known _) = false
is_protocol_error (protocol_error _) = true

abbrev pub invalid_unknown : Option Error
invalid_unknown = some (classify (sentinel invalid_response) tool_outcome_unknown)

-- What a call returns for an outcome: whether it wants a result, and whether the result decodes.
unfoldable pub rpc_answer : Bool → Bool → RpcOutcome → Option Error
rpc_answer wants decodes o = elim (o.err) [
  | some f ↦
      if is (failure_error f) rpc_method_unavailable || is_protocol_error f
      then some (classify (failure_error f) tool_outcome_failed)
      else some (classify (failure_error f) tool_outcome_unknown)
  | none ↦
      if not wants
      then none
      else if not (is_some o.result)
      then invalid_unknown
      else if decodes
      then none
      else invalid_unknown
]

abbrev pub receive_of : ℕ → Bool → Bool → Option RpcOutcome → RpcSession → RpcSession
receive_of k wants decodes none s = s
receive_of k wants decodes (some o) s =
    return_call k (rpc_answer wants decodes o) (record s { waiters = set_at k none s.waiters })

-- `HandleMessage` up to the end of its critical section.
abbrev pub outcome_of_message : Decoded → RpcOutcome
outcome_of_message d = record { result = d.response.result; err = d.err }

unfoldable pub handle_message : Decoded → RpcSession → RpcSession
handle_message d s =
    let id = d.response.id in
    let taken = record (remove_pending id s) {
      in_flight = (id, outcome_of_message d) ∷ s.in_flight;
    } in
    if not (is_some d.err) && d.response.other_session_connected
    then record s { takeovers = suc s.takeovers }
    else if id == 0
    then s
    else if count (is_id id) s.pending == 0
    then s
    else taken

-- `Close`: the waiters are taken out, each to be told.
unfoldable pub tell_all : List ℕ → List (ℕ × RpcOutcome)
tell_all [] = []
tell_all (k ∷ ks) = (k, record { result = none; err = some (known session_closed) }) ∷ tell_all ks

unfoldable pub close_rpc : RpcSession → RpcSession
close_rpc s =
    let told = record s {
      ended = true;
      closed = true;
      pending = [];
      in_flight = s.in_flight ++ tell_all s.pending;
    } in
    if s.closed then s else told

unfoldable pub find_flight : ℕ → List (ℕ × RpcOutcome) → Option RpcOutcome
find_flight k [] = none
find_flight k ((j, o) ∷ fs) = if j == k then some o else find_flight k fs

unfoldable pub drop_flight : ℕ → List (ℕ × RpcOutcome) → List (ℕ × RpcOutcome)
drop_flight k [] = []
drop_flight k ((j, o) ∷ fs) = let rest = drop_flight k fs in if j == k then fs else (j, o) ∷ rest

-- An outcome is put into its channel, if there is place.
abbrev pub deliver_of : ℕ → Option RpcOutcome → RpcSession → RpcSession
deliver_of k none s = s
deliver_of k (some o) s =
    let left = record s { in_flight = drop_flight k s.in_flight } in
    let put_in = record left {
      waiters = set_at k (some o) s.waiters;
      delivered = (k, o) ∷ s.delivered;
    } in
    if is_some (s.waiters k) then record left { dropped = (k, o) ∷ s.dropped } else put_in
