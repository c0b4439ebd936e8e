-- ===== src/Rpc/Session/Steps.antt =====
-- internal/jetkvm/rpc_session.go: the steps of a session, each where it may be taken.
use jetkvm_mcp.Base.{ℕ, Bool, true, Option, List, [], ◌∷◌}
use jetkvm_mcp.Errors.{Error}
use jetkvm_mcp.Rpc.Codec.{Decoded}
use jetkvm_mcp.Rpc.Session.{
  begin_call, marshal_of, expire_call, notice, take_gate, recheck, send_text, receive_of,
  handle_message, close_rpc, find_flight, deliver_of, registered, waiting, holding, sending, sent,
  RpcSession,
}

pub data RpcStep : Type 0 where
  begins : RpcStep
  marshals : ℕ → Option Error → RpcStep
  gives_up : ℕ → Error → RpcStep
  notices : ℕ → RpcStep
  takes_gate : ℕ → RpcStep
  rechecks : ℕ → Option Error → RpcStep
  sends : ℕ → Bool → RpcStep
  receives : ℕ → Bool → Bool → RpcStep
  handles : Decoded → RpcStep
  delivers : ℕ → RpcStep
  ends closes : RpcStep

-- A step of a call that is at a stage.
abbrev pub when_registered : ℕ → (RpcSession → RpcSession) → RpcSession → RpcSession
when_registered k f s = elim (s.stages k) [ registered ↦ f s | other ↦ s ]

abbrev pub when_waiting : ℕ → (RpcSession → RpcSession) → RpcSession → RpcSession
when_waiting k f s = elim (s.stages k) [ waiting ↦ f s | other ↦ s ]

abbrev pub when_holding : ℕ → (RpcSession → RpcSession) → RpcSession → RpcSession
when_holding k f s = elim (s.stages k) [ holding ↦ f s | other ↦ s ]

abbrev pub when_sending : ℕ → (RpcSession → RpcSession) → RpcSession → RpcSession
when_sending k f s = elim (s.stages k) [ sending ↦ f s | other ↦ s ]

abbrev pub when_sent : ℕ → (RpcSession → RpcSession) → RpcSession → RpcSession
when_sent k f s = elim (s.stages k) [ sent ↦ f s | other ↦ s ]

unfoldable pub rpc_step : RpcStep → RpcSession → RpcSession
rpc_step begins s = begin_call s
rpc_step (marshals k e) s = when_registered k (marshal_of k e) s
rpc_step (gives_up k e) s = expire_call k e s
rpc_step (notices k) s = notice k s
rpc_step (takes_gate k) s = when_waiting k (take_gate k) s
rpc_step (rechecks k e) s = when_holding k (recheck k e) s
rpc_step (sends k ok) s = when_sending k (send_text k ok) s
rpc_step (receives k wants decodes) s = when_sent k (receive_of k wants decodes (s.waiters k)) s
rpc_step (handles d) s = handle_message d s
rpc_step (delivers k) s = deliver_of k (find_flight k s.in_flight) s
rpc_step ends s = record s { ended = true }
rpc_step closes s = close_rpc s

unfoldable pub rpc_steps : List RpcStep → RpcSession → RpcSession
rpc_steps [] s = s
rpc_steps (a ∷ rest) s = rpc_steps rest (rpc_step a s)
