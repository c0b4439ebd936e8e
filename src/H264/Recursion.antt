-- ===== src/H264/Recursion.antt =====
-- internal/jetkvm/video.go: `process` calls itself at most once.
use jetkvm_mcp.Base.{ℕ, Bool, false, none, ◌≡◌, arith, Option-cases, inl, inr, ap}
use jetkvm_mcp.Base.Assoc.{lookup}
use jetkvm_mcp.H264.Sequence.{Packet}
use jetkvm_mcp.H264.AccessUnit.{Codec}
use jetkvm_mcp.H264.State.{Stream, reject_completed, clear_sequence_anchor}
use jetkvm_mcp.H264.Drain.{finish_drain_unit}
use jetkvm_mcp.H264.Ending.{expire, finish_at_timestamp_transition}
use jetkvm_mcp.H264.Process.{process_ready, process_draining, process_with, process_behind, process}
use jetkvm_mcp.H264.Invariant.{Inv, IsSound, finish_drain_unit-EndsDraining, reject_completed-Inv}
use jetkvm_mcp.H264.Invariant.Endings.{expire-Inv}
use jetkvm_mcp.H264.Invariant.Packets.{transition-EndsBoth}

-- Two continuations that agree where no unit is pending or draining.
abbrev Agree : (Stream → Stream) → (Stream → Stream) → Type 0
Agree a b = (t : Stream) → t.pending ≡ none → t.draining ≡ none → a t ≡ b t

module _ (c : Codec) (a b : Stream → Stream) (same : Agree a b) where
  process_ready-Agree :
      (k : Packet) (g w o : ℕ) (want : Bool) (s : Stream)
      → s.draining ≡ none
      → IsSound s
      → process_ready c a k g w o want s ≡ process_ready c b k g w o want s
  unfolding process_ready
  process_ready-Agree k g w o want s d v = elim (Option-cases s.pending) [
    | inl e ↦ ground arith
    | inr (p, e) ↦
        let r = finish_at_timestamp_transition c k.sequence_number w o want s in
        let x = transition-EndsBoth c k.sequence_number w o want s p e d v in
        ground (arith, same r.stream x.no_pending x.no_draining, Option-cases r.candidate)
  ]

  process_draining-Agree :
      (k : Packet) (g w o : ℕ) (want : Bool) (s : Stream)
      → Inv s
      → process_draining c a k g w o want s s.draining
        ≡ process_draining c b k g w o want s s.draining
  process_draining-Agree k g w o want s v = elim (Option-cases s.draining) [
    | inl e ↦ ground (arith, process_ready-Agree k g w o want s e v.sound)
    | inr (d, e) ↦
        let t = finish_drain_unit k.sequence_number false s in
        let x = finish_drain_unit-EndsDraining k.sequence_number false s v.sound in
        ground (arith, process_ready-Agree k g w o want t x.ended x.sound)
  ]

  process_with-Agree :
      (k : Packet) (g w o : ℕ) (want : Bool) (s : Stream)
      → Inv s
      → process_with c a k g w o want s ≡ process_with c b k g w o want s
  unfolding process_with
  process_with-Agree k g w o want s v =
      let t = expire o s in
      let q = reject_completed k t in
      ground (
        arith,
        process_draining-Agree k g w o want q.1 (reject_completed-Inv k t (expire-Inv o s v)),
      )

-- A packet that finds no unit calls back nowhere.
expire_idle : (o : ℕ) (t : Stream) → t.pending ≡ none → t.draining ≡ none → expire o t ≡ t
unfolding expire
expire_idle o t p d = ground arith

reject_completed_idle :
    (k : Packet) (t : Stream)
    → t.pending ≡ none
    → t.draining ≡ none
    → ((reject_completed k t).1.pending ≡ none) × ((reject_completed k t).1.draining ≡ none)
unfolding reject_completed clear_sequence_anchor
reject_completed_idle k t p d = elim (Option-cases (lookup k.timestamp t.history.completed)) [
  | inl e ↦ ground arith
  | inr (u, e) ↦ ground arith
]

process_with_idle :
    (c : Codec) (a b : Stream → Stream) (k : Packet) (g w o : ℕ) (want : Bool) (t : Stream)
    → t.pending ≡ none
    → t.draining ≡ none
    → process_with c a k g w o want t ≡ process_with c b k g w o want t
unfolding process_with process_ready
process_with_idle c a b k g w o want t p d =
    ground (arith, expire_idle o t p d, reject_completed_idle k t p d)

-- On a stream that keeps the invariant, `process` is the recursion of the source: where a unit ends
-- with a candidate at a change of timestamp, it calls itself, without wanting a candidate, and the
-- call of the model that recurs no further is enough.
pub process-recursion :
    (c : Codec) (k : Packet) (g w o : ℕ) (want : Bool) (s : Stream)
    → Inv s
    → process c k g w o want s
      ≡ process_with c (λ t. (process c k g w o false t).stream) k g w o want s
unfolding process process_behind
process-recursion c k g w o want s v =
    let inner = process_behind c k g w o in
    process_with-Agree c inner (λ t. (process_with c inner k g w o false t).stream)
      (λ t p d. ap (λ r. r.stream) (process_with_idle c (λ u. u) inner k g w o false t p d)) k g w o
      want s v
