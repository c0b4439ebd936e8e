-- ===== src/Rpc/Session/Runs.antt =====
-- internal/jetkvm/rpc_session.go: the invariant of a session in every run.
use jetkvm_mcp.Base.{ℕ, ◌+◌, ◌^◌, true, some, List, [], ◌∷◌, ◌≡◌, ◌≤◌, ◌<◌, arith, length}
use jetkvm_mcp.Base.Counting.{count}
use jetkvm_mcp.Errors.{sentinel, session_closed}
use jetkvm_mcp.Rpc.Codec.{Decoded}
use jetkvm_mcp.Rpc.Session.{RpcSession, begin_call, close_rpc, handle_message, new_rpc_session}
use jetkvm_mcp.Rpc.Session.Steps.{
  RpcStep, begins, closes, delivers, ends, gives_up, handles, marshals, notices, receives, rechecks,
  rpc_step, rpc_steps, sends, takes_gate,
}
use jetkvm_mcp.Rpc.Session.Sound.{
  IsSound, begin_call-IsSound, close_rpc-IsSound, deliver_of-IsSound, ended-IsSound,
  expire_call-IsSound, handle_message-IsSound, has_gate, marshal_of-IsSound, receive_of-IsSound,
  recheck-IsSound, send_text-IsSound, take_gate-IsSound,
}

module _ (k : ℕ) where
  new_rpc_session-IsSound : IsSound k new_rpc_session
  unfolding count
  new_rpc_session-IsSound = ground arith

gate-holder :
    (j : ℕ) (s : RpcSession) → IsSound j s → has_gate (s.stages j) ≡ true → s.gate ≡ some j
gate-holder j s i h = ground arith

rpc_step-IsSound :
    (a : RpcStep) (s : RpcSession)
    → s.next_id + 1 < 2 ^ 64
    → ((k : ℕ) → IsSound k s)
    → (k : ℕ) → IsSound k (rpc_step a s)
unfolding rpc_step
rpc_step-IsSound begins s small i k = begin_call-IsSound k s small (i k)
rpc_step-IsSound (marshals j e) s small i k = ground (arith, marshal_of-IsSound k s j e, i k)
rpc_step-IsSound (gives_up j e) s small i k = expire_call-IsSound k s j e (i k)
rpc_step-IsSound (notices j) s small i k =
    ground (arith, expire_call-IsSound k s j (sentinel session_closed), i k)
rpc_step-IsSound (takes_gate j) s small i k = ground (arith, take_gate-IsSound k s j, i k)
rpc_step-IsSound (rechecks j e) s small i k =
    ground (arith, recheck-IsSound k s j e, gate-holder j s (i j), i k)
rpc_step-IsSound (sends j ok) s small i k =
    ground (arith, send_text-IsSound k s j ok, gate-holder j s (i j), i k)
rpc_step-IsSound (receives j w d) s small i k = ground (arith, receive_of-IsSound k s j w d, i k)
rpc_step-IsSound (handles d) s small i k = handle_message-IsSound k s d (i k)
rpc_step-IsSound (delivers j) s small i k = deliver_of-IsSound k s j (i k)
rpc_step-IsSound ends s small i k = ended-IsSound k s (i k)
rpc_step-IsSound closes s small i k = close_rpc-IsSound k s (i k)

begin_call-next_id : (s : RpcSession) → (begin_call s).next_id ≤ s.next_id + 1
unfolding begin_call
begin_call-next_id s = ground arith

handle_message-next_id : (d : Decoded) (s : RpcSession) → (handle_message d s).next_id ≡ s.next_id
unfolding handle_message
handle_message-next_id d s = ground arith

close_rpc-next_id : (s : RpcSession) → (close_rpc s).next_id ≡ s.next_id
unfolding close_rpc
close_rpc-next_id s = ground arith

rpc_step-next_id : (a : RpcStep) (s : RpcSession) → (rpc_step a s).next_id ≤ s.next_id + 1
unfolding rpc_step
rpc_step-next_id begins s = begin_call-next_id s
rpc_step-next_id (handles d) s = omega (arith, handle_message-next_id d s)
rpc_step-next_id closes s = omega (arith, close_rpc-next_id s)
rpc_step-next_id (marshals j e) s = ground arith
rpc_step-next_id (gives_up j e) s = ground arith
rpc_step-next_id (notices j) s = ground arith
rpc_step-next_id (takes_gate j) s = ground arith
rpc_step-next_id (rechecks j e) s = ground arith
rpc_step-next_id (sends j ok) s = ground arith
rpc_step-next_id (receives j w d) s = ground arith
rpc_step-next_id (delivers j) s = ground arith
rpc_step-next_id ends s = omega arith

rpc_steps-IsSound_from :
    (steps : List RpcStep) (s : RpcSession)
    → s.next_id + length steps < 2 ^ 64
    → ((k : ℕ) → IsSound k s)
    → (k : ℕ) → IsSound k (rpc_steps steps s)
unfolding rpc_steps
rpc_steps-IsSound_from [] s small i k = i k
rpc_steps-IsSound_from (a ∷ rest) s small i k =
    rpc_steps-IsSound_from rest (rpc_step a s) (omega (arith, rpc_step-next_id a s))
      (rpc_step-IsSound a s (omega arith) i) k

-- In every run of a session with fewer than 2^64 steps, for every request: its call returns at most
-- once, and is one of those that got an id; its text is sent at most once, and never if the call
-- returned an error with the outcome `not_sent`; one call at a time has the send gate; at most one
-- outcome is put into its channel, and none finds the channel full; a call that has not returned is
-- still pending or has its outcome on the way or in the channel; a call that has returned is not
-- pending; a success has been the result of a message; and at most 64 requests are pending.
pub rpc_steps-IsSound :
    (steps : List RpcStep) (k : ℕ)
    → length steps < 2 ^ 64
    → IsSound k (rpc_steps steps new_rpc_session)
rpc_steps-IsSound steps k small =
    rpc_steps-IsSound_from steps new_rpc_session (omega arith) new_rpc_session-IsSound k
