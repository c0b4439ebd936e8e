-- ===== src/H264/Replay.antt =====
-- internal/jetkvm/video.go: packets of units that are done.
use jetkvm_mcp.Base.{ℕ, Bool, true, none, ◌≡◌, is_some, arith, Option-cases, inl, inr}
use jetkvm_mcp.Base.Assoc.{lookup}
use jetkvm_mcp.H264.Sequence.{Packet}
use jetkvm_mcp.H264.AccessUnit.{Codec}
use jetkvm_mcp.H264.State.{Stream, reject_completed, clear_sequence_anchor}
use jetkvm_mcp.H264.Ending.{Pushed, expire, poison_packet}
use jetkvm_mcp.H264.Process.{process_with, process}

-- The call yields nothing and takes nothing in: no unit opens or ends, and neither the parameter sets
-- nor the order of the units that are done change.
pub record IsIgnored (s : Stream) (r : Pushed) : Type 0 where
  pub no_candidate : r.candidate ≡ none
  pub same_parameters : r.stream.parameters ≡ s.parameters
  pub same_order : r.stream.history.completed_order ≡ s.history.completed_order
  pub same_pending : is_some r.stream.pending ≡ is_some s.pending
  pub same_draining : is_some r.stream.draining ≡ is_some s.draining

-- A packet whose timestamp is among the units that are done, once what has expired is, is ignored:
-- it yields no candidate, opens and ends no unit, and leaves parameter sets and order; well formed or
-- not, late or a replay.
pub process-IsIgnored :
    (c : Codec) (k : Packet) (g w o : ℕ) (want : Bool) (s : Stream)
    → is_some (lookup k.timestamp (expire o s).history.completed) ≡ true
    → IsIgnored (expire o s) (process c k g w o want s)
unfolding process process_with poison_packet reject_completed clear_sequence_anchor
process-IsIgnored c k g w o want s h =
    let t = expire o s in
    elim (Option-cases (lookup k.timestamp t.history.completed)) [
      | inl e ↦ absurd (ground arith)
      | inr (u, e) ↦ ground (arith, Option-cases t.pending, Option-cases t.draining)
    ]
