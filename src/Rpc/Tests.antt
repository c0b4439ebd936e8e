-- ===== src/Rpc/Tests.antt =====
-- internal/jetkvm/rpc_codec.go and rpc_session.go: the theorems at a concrete frame and a concrete run.
use jetkvm_mcp.Base.{true, none, some, List, [], ◌∷◌, ◌≡◌, refl, arith}
use jetkvm_mcp.Base.Counting.{count, remove_id}
use jetkvm_mcp.Base.Integers.{pos}
use jetkvm_mcp.Errors.{
  sentinel, deadline_exceeded, classify, session_closed, tool_outcome_not_sent,
  tool_outcome_unknown,
}
use jetkvm_mcp.Rpc.Codec.{
  RpcFrame, Json, bool_value, consume_unique, decode_members, decode_rpc_response, find_member,
  integer, member, no_members, note_member, object, read_members, text, unmarshal_uint64,
}
use jetkvm_mcp.Rpc.Codec.Replies.{reply}
use jetkvm_mcp.Rpc.Session.{
  rpc_answer, begin_call, close_rpc, drop_flight, find_flight, handle_message, new_rpc_session,
  set_at, tell_all,
}
use jetkvm_mcp.Rpc.Session.Steps.{
  RpcStep, begins, closes, delivers, gives_up, handles, marshals, notices, receives, rechecks,
  rpc_step, rpc_steps, sends, takes_gate,
}
use jetkvm_mcp.Rpc.Session.Sound.{IsSound}
use jetkvm_mcp.Rpc.Session.Runs.{rpc_steps-IsSound}

-- {"jsonrpc": "2.0", "id": 1, "result": {"ok": true}}
abbrev some_result : Json
some_result = object (member "ok" (bool_value true) no_members)

abbrev some_frame : RpcFrame
some_frame = record {
  size = 51;
  document = some (
      object (
        member "jsonrpc" (text "2.0")
          (member "id" (integer (pos 1)) (member "result" some_result no_members))));
}

some_frame-decoded : decode_rpc_response some_frame ≡ reply 1 some_result
unfolding decode_rpc_response read_members note_member find_member consume_unique decode_members
    unmarshal_uint64
some_frame-decoded = refl

-- One request is answered; a second one expires while it waits for the gate; a third one is sent, and the
-- session closes.
abbrev some_run : List RpcStep
some_run =
    begins
    ∷ begins
    ∷ begins
    ∷ marshals 1 none
    ∷ marshals 2 none
    ∷ marshals 3 none
    ∷ takes_gate 1
    ∷ takes_gate 2
    ∷ rechecks 1 none
    ∷ sends 1 true
    ∷ gives_up 2 (sentinel deadline_exceeded)
    ∷ takes_gate 3
    ∷ rechecks 3 none
    ∷ handles (reply 1 some_result)
    ∷ sends 3 true
    ∷ delivers 1
    ∷ receives 1 true true
    ∷ closes
    ∷ notices 3
    ∷ delivers 3
    ∷ []

rpc_steps-IsSound_example : IsSound 1 (rpc_steps some_run new_rpc_session)
rpc_steps-IsSound_example = rpc_steps-IsSound some_run 1 (omega arith)

some_run-returns : (rpc_steps some_run new_rpc_session).returns ≡ (
    (3, some (classify (sentinel session_closed) tool_outcome_unknown))
    ∷ (1, none)
    ∷ (2, some (classify (sentinel deadline_exceeded) tool_outcome_not_sent))
    ∷ [])
unfolding rpc_steps rpc_step begin_call set_at count remove_id handle_message find_flight
    drop_flight rpc_answer close_rpc tell_all
some_run-returns = refl
