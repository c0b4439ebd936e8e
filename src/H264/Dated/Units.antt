-- ===== src/H264/Dated/Units.antt =====
-- internal/jetkvm/video.go: no call that ends or drains a unit changes the date of the candidate.
use jetkvm_mcp.Base.{ℕ, Bool, true, false, some, ◌≡◌, arith, ◌==◌, Option-cases, inl, inr}
use jetkvm_mcp.Base.Assoc.{lookup}
use jetkvm_mcp.H264.Sequence.{Packet, Pending, add16}
use jetkvm_mcp.H264.State.{
  Stream, Drain, reject_completed, remember_completed, discard_pending, set_sequence_anchor,
  clear_sequence_anchor, put_draining,
}
use jetkvm_mcp.H264.Drain.{
  drain_packet, finish_drain_unit, drain_into, drain_fresh, drain_unit, note_sequence,
  drain_payload, count_payload,
}
use jetkvm_mcp.H264.Ending.{
  expire, expire_pending, expire_draining, close_units, close_pending, close_draining,
  poison_packet, leave_pending,
}

-- The date of the last candidate is as it was.
abbrev pub KeepsDate : Stream → Stream → Type 0
KeepsDate s t =
    (t.candidate_generation ≡ s.candidate_generation) × (t.candidate_at ≡ s.candidate_at)

remember_completed-KeepsDate :
    (t f : ℕ) (b : Bool) (s : Stream) → KeepsDate s (remember_completed t f b s)
unfolding remember_completed
remember_completed-KeepsDate t f b s = ground arith

pub leave_pending-KeepsDate : (n : ℕ) (p : Pending) (s : Stream) → KeepsDate s (leave_pending n p s)
unfolding remember_completed set_sequence_anchor
leave_pending-KeepsDate n p s = ground arith

pub discard_pending-KeepsDate : (s : Stream) → KeepsDate s (discard_pending s)
unfolding discard_pending remember_completed set_sequence_anchor clear_sequence_anchor
discard_pending-KeepsDate s = elim (Option-cases s.pending) [
  | inl n ↦ ground arith
  | inr (p, e) ↦ ground arith
]

pub finish_drain_unit-KeepsDate :
    (n : ℕ) (b : Bool) (s : Stream) → KeepsDate s (finish_drain_unit n b s)
unfolding finish_drain_unit remember_completed set_sequence_anchor clear_sequence_anchor
finish_drain_unit-KeepsDate n b s = elim (Option-cases s.draining) [
  | inl n ↦ ground arith
  | inr (p, e) ↦ ground arith
]

pub reject_completed-KeepsDate : (p : Packet) (s : Stream) → KeepsDate s (reject_completed p s).1
unfolding reject_completed clear_sequence_anchor
reject_completed-KeepsDate p s = elim (Option-cases (lookup p.timestamp s.history.completed)) [
  | inl e ↦ ground arith
  | inr (u, e) ↦ ground arith
]

drain_into-KeepsDate :
    (p : Packet) (o : ℕ) (s : Stream) (d : Drain) → KeepsDate s (drain_into p o s d)
unfolding drain_into
drain_into-KeepsDate p o s d =
    let seen = note_sequence s p.sequence_number (record d { last_observed = o }) in
    let drained = drain_payload p.payload (count_payload p.payload seen) in
    let next = put_draining (some drained) s in
    ground (arith, finish_drain_unit-KeepsDate (add16 p.sequence_number 1) true next)

drain_fresh-KeepsDate : (p : Packet) (o : ℕ) (s : Stream) → KeepsDate s (drain_fresh p o s)
unfolding drain_fresh
drain_fresh-KeepsDate p o s =
    let t = finish_drain_unit p.sequence_number false s in
    ground (
      arith,
      finish_drain_unit-KeepsDate p.sequence_number false s,
      drain_into-KeepsDate p o t (drain_unit p t t.draining),
      drain_into-KeepsDate p o s (drain_unit p s s.draining),
    )

pub drain_packet-KeepsDate : (p : Packet) (o : ℕ) (s : Stream) → KeepsDate s (drain_packet p o s)
unfolding drain_packet
drain_packet-KeepsDate p o s =
    let t = (reject_completed p s).1 in
    ground (arith, reject_completed-KeepsDate p s, drain_fresh-KeepsDate p o t)

expire_draining-KeepsDate : (o : ℕ) (s : Stream) → KeepsDate s (expire_draining o s s.draining)
unfolding remember_completed set_sequence_anchor clear_sequence_anchor
expire_draining-KeepsDate o s = elim (Option-cases s.draining) [
  | inl e ↦ ground arith
  | inr (d, e) ↦ ground arith
]

expire_pending-KeepsDate : (o : ℕ) (s : Stream) → KeepsDate s (expire_pending o s s.pending)
expire_pending-KeepsDate o s = elim (Option-cases s.pending) [
  | inl e ↦ ground arith
  | inr (p, e) ↦ ground (arith, discard_pending-KeepsDate s)
]

pub expire-KeepsDate : (o : ℕ) (s : Stream) → KeepsDate s (expire o s)
unfolding expire
expire-KeepsDate o s =
    let t = expire_pending o s s.pending in
    ground (arith, expire_pending-KeepsDate o s, expire_draining-KeepsDate o t)

close_draining-KeepsDate : (s : Stream) → KeepsDate s (close_draining s s.draining)
unfolding remember_completed
close_draining-KeepsDate s = elim (Option-cases s.draining) [
  | inl e ↦ ground arith
  | inr (d, e) ↦ ground arith
]

close_pending-KeepsDate : (s : Stream) → KeepsDate s (close_pending s s.pending)
unfolding remember_completed
close_pending-KeepsDate s = elim (Option-cases s.pending) [
  | inl e ↦ ground arith
  | inr (d, e) ↦ ground arith
]

close_units-KeepsDate : (s : Stream) → KeepsDate s (close_units s)
unfolding close_units
close_units-KeepsDate s =
    let t = close_pending s s.pending in
    ground (arith, close_pending-KeepsDate s, close_draining-KeepsDate t)

pub poison_packet-KeepsDate : (p : Packet) (s : Stream) → KeepsDate s (poison_packet p s)
unfolding poison_packet set_sequence_anchor clear_sequence_anchor
poison_packet-KeepsDate p s =
    let c = close_units s in
    ground (
      arith,
      close_units-KeepsDate s,
      remember_completed-KeepsDate p.timestamp p.sequence_number (p.version == 2) c,
    )
