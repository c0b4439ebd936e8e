-- ===== src/H264/Invariant.antt =====
-- internal/jetkvm/video.go: what holds of a stream after any calls.
pub mod Endings
pub mod Packets
use jetkvm_mcp.Base.{
  ℕ, suc, ◌+◌, ◌≤◌, Bool, true, false, Option, none, some, List, [], ◌∷◌, ◌++◌, ◌≡◌, refl, sym, ap,
  ◌∙◌, ◌==◌, length, is_some, if◌then◌else◌, arith, ==_iff, length-append, Option-cases, inl, inr,
  Bool-cases,
}
use jetkvm_mcp.Base.Assoc.{assign, delete, lookup}
use jetkvm_mcp.H264.Sequence.{Packet, Pending, add16}
use jetkvm_mcp.H264.AccessUnit.{Unit264, Codec}
use jetkvm_mcp.H264.Parameters.{Parameters, Accepted, accept, valid_h264_parameters}
use jetkvm_mcp.H264.State.{
  CompletedUnit, History, Stream, Drain, reject_completed, remember, remember_completed,
  discard_pending, set_sequence_anchor, clear_sequence_anchor, put_pending, put_draining,
}
use jetkvm_mcp.H264.Drain.{
  note_sequence, drain_payload, count_payload, other_drain, drain_unit, drain_packet,
  finish_drain_unit, drain_into, drain_fresh,
}
use jetkvm_mcp.H264.History.{IsBounded, remember-IsBounded, keys-assign_old}

abbrev pub HasValidParameters : Parameters → Type 0
HasValidParameters p = valid_h264_parameters p.sps p.pps ≡ true

-- The parts of a stream that outlive its units.
pub record IsSound (s : Stream) : Type 0 where
  pub bounded : IsBounded s.history
  pub parameters_valid : HasValidParameters s.parameters

pub record Inv (s : Stream) : Type 0 where
  -- a unit is pending or draining, not both
  pub exclusive : is_some s.pending ≡ true → s.draining ≡ none
  pub sound : IsSound s

pub accept-HasValidParameters :
    (u : Unit264) (want : Bool) (old : Parameters)
    → HasValidParameters old
    → HasValidParameters (accept u want old).parameters
unfolding accept
accept-HasValidParameters u want old v = ground arith

pub remember_completed-IsSound :
    (t f : ℕ) (b : Bool) (s : Stream) → IsSound s → IsSound (remember_completed t f b s)
unfolding remember_completed
remember_completed-IsSound t f b s v = ground (arith, remember-IsBounded t f b s.history v.bounded)

pub reject_completed-IsSound :
    (p : Packet) (s : Stream) → IsSound s → IsSound (reject_completed p s).1
unfolding reject_completed clear_sequence_anchor
reject_completed-IsSound p s v = elim (Option-cases (lookup p.timestamp s.history.completed)) [
  | inl n ↦ ground arith
  | inr (u, e) ↦ ground (
    arith,
    keys-assign_old p.timestamp (record { frontier = p.sequence_number; has_frontier = true }) u
        s.history.completed e,
  )
]

-- What a call leaves of the two units.
pub record SameUnits (s t : Stream) : Type 0 where
  pub same_pending : t.pending ≡ s.pending
  pub same_draining : t.draining ≡ s.draining

pub remember_completed-SameUnits :
    (t f : ℕ) (b : Bool) (s : Stream) → SameUnits s (remember_completed t f b s)
unfolding remember_completed
remember_completed-SameUnits t f b s = ground arith

-- What ends the pending unit.
pub record EndsPending (s t : Stream) : Type 0 where
  pub ended : t.pending ≡ none
  pub same_draining : t.draining ≡ s.draining
  pub sound : IsSound t

pub discard_pending-EndsPending : (s : Stream) → IsSound s → EndsPending s (discard_pending s)
unfolding discard_pending set_sequence_anchor clear_sequence_anchor
discard_pending-EndsPending s v = elim (Option-cases s.pending) [
  | inl n ↦ ground arith
  | inr (p, e) ↦ ground (
    arith,
    remember_completed-IsSound p.timestamp p.frontier p.frontier_set s v,
    remember_completed-SameUnits p.timestamp p.frontier p.frontier_set s,
  )
]

pub record EndsDraining (s t : Stream) : Type 0 where
  pub ended : t.draining ≡ none
  pub same_pending : t.pending ≡ s.pending
  pub sound : IsSound t

pub finish_drain_unit-EndsDraining :
    (n : ℕ) (b : Bool) (s : Stream) → IsSound s → EndsDraining s (finish_drain_unit n b s)
unfolding finish_drain_unit set_sequence_anchor clear_sequence_anchor
finish_drain_unit-EndsDraining n b s v = elim (Option-cases s.draining) [
  | inl e ↦ ground arith
  | inr (d, e) ↦
      let u : Unit264 = record {
        annex_b = [];
        nalus = [];
        has_idr = false;
        latest_sps = d.latest_sps;
        latest_pps = d.latest_pps;
      } in
      let t = put_draining none s in
      ground (
        arith,
        accept-HasValidParameters u false
            (remember_completed d.timestamp d.last_sequence d.have_sequence t).parameters,
        remember_completed-IsSound d.timestamp d.last_sequence d.have_sequence t,
        remember_completed-SameUnits d.timestamp d.last_sequence d.have_sequence t,
      )
]

-- A unit that is done: what rejectCompleted leaves.
pub reject_completed-Inv : (p : Packet) (s : Stream) → Inv s → Inv (reject_completed p s).1
unfolding reject_completed clear_sequence_anchor
reject_completed-Inv p s v = elim (Option-cases (lookup p.timestamp s.history.completed)) [
  | inl n ↦ ground arith
  | inr (u, e) ↦ ground (arith, reject_completed-IsSound p s v.sound)
]

pub drain_into-Inv :
    (p : Packet) (o : ℕ) (s : Stream) (d : Drain)
    → s.pending ≡ none
    → IsSound s
    → Inv (drain_into p o s d)
unfolding drain_into
drain_into-Inv p o s d n v =
    let seen = note_sequence s p.sequence_number (record d { last_observed = o }) in
    let drained = drain_payload p.payload (count_payload p.payload seen) in
    let next = put_draining (some drained) s in
    ground (arith, finish_drain_unit-EndsDraining (add16 p.sequence_number 1) true next)

pub drain_fresh-Inv :
    (p : Packet) (o : ℕ) (s : Stream) → s.pending ≡ none → IsSound s → Inv (drain_fresh p o s)
unfolding drain_fresh
drain_fresh-Inv p o s n v = elim (Bool-cases (other_drain p.timestamp s.draining)) [
  | inl e ↦
      let t = finish_drain_unit p.sequence_number false s in
      ground (
        arith,
        finish_drain_unit-EndsDraining p.sequence_number false s v,
        drain_into-Inv p o t (drain_unit p t t.draining),
      )
  | inr e ↦ ground (arith, drain_into-Inv p o s (drain_unit p s s.draining) n v)
]

-- With no pending unit, a rejected packet brings none back.
reject_completed-pending :
    (p : Packet) (s : Stream) → s.pending ≡ none → (reject_completed p s).1.pending ≡ none
unfolding reject_completed clear_sequence_anchor
reject_completed-pending p s n = elim (Option-cases (lookup p.timestamp s.history.completed)) [
  | inl e ↦ ground arith
  | inr (u, e) ↦ ground arith
]

pub drain_packet-Inv :
    (p : Packet) (o : ℕ) (s : Stream) → s.pending ≡ none → Inv s → Inv (drain_packet p o s)
unfolding drain_packet
drain_packet-Inv p o s n v = elim (Bool-cases (reject_completed p s).0) [
  | inl e ↦ ground (arith, reject_completed-Inv p s v)
  | inr e ↦ ground (
    arith,
    reject_completed-Inv p s v,
    reject_completed-pending p s n,
    drain_fresh-Inv p o (reject_completed p s).1,
  )
]
