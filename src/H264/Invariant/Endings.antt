-- ===== src/H264/Invariant/Endings.antt =====
-- internal/jetkvm/video.go: what ends a unit keeps the invariant.
use jetkvm_mcp.Base.{ℕ, Bool, none, ◌≡◌, ◌==◌, arith, Option-cases, inl, inr}
use jetkvm_mcp.H264.Sequence.{Packet, Pending}
use jetkvm_mcp.H264.AccessUnit.{Unit264, Parsed, bad, short, good}
use jetkvm_mcp.H264.State.{
  Stream, discard_pending, set_sequence_anchor, clear_sequence_anchor, put_pending, put_draining,
}
use jetkvm_mcp.H264.Ending.{
  expire, expire_pending, expire_draining, close_units, close_pending, close_draining,
  poison_packet, accept_unit, deliver, leave_pending,
}
use jetkvm_mcp.H264.Invariant.{
  IsSound, Inv, accept-HasValidParameters, remember_completed-IsSound, remember_completed-SameUnits,
  EndsPending, discard_pending-EndsPending,
}

expire_draining-Inv : (o : ℕ) (s : Stream) → Inv s → Inv (expire_draining o s s.draining)
unfolding set_sequence_anchor clear_sequence_anchor
expire_draining-Inv o s v = elim (Option-cases s.draining) [
  | inl e ↦ ground arith
  | inr (d, e) ↦
      let t = put_draining none s in
      ground (
        arith,
        remember_completed-IsSound d.timestamp d.last_sequence d.have_sequence t,
        remember_completed-SameUnits d.timestamp d.last_sequence d.have_sequence t,
      )
]

expire_pending-Inv : (o : ℕ) (s : Stream) → Inv s → Inv (expire_pending o s s.pending)
expire_pending-Inv o s v = elim (Option-cases s.pending) [
  | inl e ↦ ground arith
  | inr (p, e) ↦ ground (arith, discard_pending-EndsPending s v.sound)
]

pub expire-Inv : (o : ℕ) (s : Stream) → Inv s → Inv (expire o s)
unfolding expire
expire-Inv o s v = expire_draining-Inv o _ (expire_pending-Inv o s v)

-- What ends both units.
pub record EndsBoth (t : Stream) : Type 0 where
  pub no_pending : t.pending ≡ none
  pub no_draining : t.draining ≡ none
  pub sound : IsSound t

close_draining-EndsBoth :
    (s : Stream) → s.pending ≡ none → IsSound s → EndsBoth (close_draining s s.draining)
close_draining-EndsBoth s n v = elim (Option-cases s.draining) [
  | inl e ↦ ground arith
  | inr (d, e) ↦ ground (
    arith,
    remember_completed-IsSound d.timestamp d.last_sequence d.have_sequence s v,
    remember_completed-SameUnits d.timestamp d.last_sequence d.have_sequence s,
  )
]

close_pending-EndsPending : (s : Stream) → IsSound s → EndsPending s (close_pending s s.pending)
close_pending-EndsPending s v = elim (Option-cases s.pending) [
  | inl e ↦ ground arith
  | inr (p, e) ↦ ground (
    arith,
    remember_completed-IsSound p.timestamp p.frontier p.frontier_set s v,
    remember_completed-SameUnits p.timestamp p.frontier p.frontier_set s,
  )
]

close_units-EndsBoth : (s : Stream) → IsSound s → EndsBoth (close_units s)
unfolding close_units
close_units-EndsBoth s v =
    let e = close_pending-EndsPending s v in
    close_draining-EndsBoth (close_pending s s.pending) e.ended e.sound

pub poison_packet-Inv : (p : Packet) (s : Stream) → Inv s → Inv (poison_packet p s)
unfolding poison_packet set_sequence_anchor clear_sequence_anchor
poison_packet-Inv p s v =
    let c = close_units s in
    ground (
      arith,
      close_units-EndsBoth s v.sound,
      remember_completed-IsSound p.timestamp p.sequence_number (p.version == 2) c,
      remember_completed-SameUnits p.timestamp p.sequence_number (p.version == 2) c,
    )

accept_unit-EndsBoth :
    (u : Unit264) (w : Bool) (o g : ℕ) (s : Stream)
    → EndsBoth s
    → EndsBoth (accept_unit u w o g s).stream
unfolding accept_unit
accept_unit-EndsBoth u w o g s v =
    ground (arith, accept-HasValidParameters u w s.parameters v.sound.parameters_valid)

leave_pending-EndsBoth :
    (n : ℕ) (p : Pending) (s : Stream)
    → s.draining ≡ none
    → IsSound s
    → EndsBoth (leave_pending n p s)
unfolding set_sequence_anchor
leave_pending-EndsBoth n p s d v =
    let t = set_sequence_anchor p.timestamp n (put_pending none s) in
    ground (
      arith,
      remember_completed-IsSound p.timestamp p.frontier p.frontier_set t,
      remember_completed-SameUnits p.timestamp p.frontier p.frontier_set t,
    )

pub deliver-EndsBoth :
    (n w o : ℕ) (want : Bool) (p : Pending) (s : Stream) (r : Parsed Unit264)
    → s.draining ≡ none
    → IsSound s
    → EndsBoth (deliver n w o want p s r).stream
deliver-EndsBoth n w o want p s bad d v = leave_pending-EndsBoth n p s d v
deliver-EndsBoth n w o want p s short d v = leave_pending-EndsBoth n p s d v
deliver-EndsBoth n w o want p s (good u) d v =
    let left = leave_pending n p s in
    ground
      (arith, leave_pending-EndsBoth n p s d v, accept_unit-EndsBoth u want o p.min_generation left)

pub discard_pending-EndsBoth :
    (s : Stream) → s.draining ≡ none → IsSound s → EndsBoth (discard_pending s)
discard_pending-EndsBoth s d v = ground (arith, discard_pending-EndsPending s v)
