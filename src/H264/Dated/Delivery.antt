-- ===== src/H264/Dated/Delivery.antt =====
-- internal/jetkvm/video.go: the date that a candidate bears, from the unit to the pending packets.
use jetkvm_mcp.Base.{
  ℕ, Bool, true, false, ◌||◌, Option, none, some, ◌≡◌, ltb, is_some, arith, ◌==◌, Option-cases,
  Bool-cases, inl, inr,
}
use jetkvm_mcp.Base.Assoc.{lookup}
use jetkvm_mcp.H264.Sequence.{
  Packet, Pending, ObservedPacket, Ordered, add16, sub16, complete, incomplete, invalid,
  ordered_packets, observe_sequence, sequence_within_reorder_window,
}
use jetkvm_mcp.H264.AccessUnit.{
  Unit264, Codec, Parsed, bad, short, good, depacketize_h264_access_unit,
}
use jetkvm_mcp.H264.Parameters.{accept, Parameters}
use jetkvm_mcp.H264.State.{Stream, discard_pending, put_pending}
use jetkvm_mcp.H264.Ending.{
  Pushed, accept_unit, deliver, leave_pending, transition_ordered, transition_last, close_unit,
  finish_at_timestamp_transition,
}
use jetkvm_mcp.H264.Process.{
  insert_packet, mark, try_ordered, try_complete, admit, duplicate_or, join_pending,
}
use jetkvm_mcp.H264.Dated.Units.{KeepsDate, leave_pending-KeepsDate, discard_pending-KeepsDate}

-- A call at time `o` with watermark `w`, from a stream: without a candidate it keeps the date, a
-- candidate comes only where it is wanted, and it bears the time and a generation past the watermark.
pub record IsDated (w o : ℕ) (want : Bool) (s : Stream) (r : Pushed) : Type 0 where
  pub kept : r.candidate ≡ none → KeepsDate s r.stream
  pub wanted : want ≡ false → r.candidate ≡ none
  pub at : is_some r.candidate ≡ true → r.stream.candidate_at ≡ o
  pub fresh : is_some r.candidate ≡ true → (w == 0 || ltb w r.stream.candidate_generation) ≡ true

accept_unwanted : (u : Unit264) (old : Parameters) → (accept u false old).candidate ≡ none
unfolding accept
accept_unwanted u old = ground arith

deliver_good-IsDated :
    (n w o : ℕ) (want : Bool) (p : Pending) (s : Stream) (u : Unit264)
    → IsDated w o want s (deliver n w o want p s (good u))
unfolding accept_unit
deliver_good-IsDated n w o want p s u =
    let left = leave_pending n p s in
    elim (Bool-cases want) [
      | inl e ↦ ground (
        arith,
        leave_pending-KeepsDate n p s,
        Option-cases (accept u want left.parameters).candidate,
      )
      | inr e ↦ ground (arith, leave_pending-KeepsDate n p s, accept_unwanted u left.parameters)
    ]

deliver-IsDated :
    (n w o : ℕ) (want : Bool) (p : Pending) (s : Stream) (r : Parsed Unit264)
    → IsDated w o want s (deliver n w o want p s r)
deliver-IsDated n w o want p s bad = ground (arith, leave_pending-KeepsDate n p s)
deliver-IsDated n w o want p s short = ground (arith, leave_pending-KeepsDate n p s)
deliver-IsDated n w o want p s (good u) = deliver_good-IsDated n w o want p s u

discard-IsDated :
    (w o : ℕ) (want : Bool) (s : Stream)
    → IsDated w o want s (record { stream = discard_pending s; candidate = none })
discard-IsDated w o want s = ground (arith, discard_pending-KeepsDate s)

transition_ordered-IsDated :
    (c : Codec) (n w o : ℕ) (want : Bool) (p : Pending) (s : Stream) (r : Ordered)
    → IsDated w o want s (transition_ordered c n w o want p s r)
transition_ordered-IsDated c n w o want p s invalid = discard-IsDated w o want s
transition_ordered-IsDated c n w o want p s incomplete = discard-IsDated w o want s
transition_ordered-IsDated c n w o want p s (complete ps) =
    deliver-IsDated n w o want p s (depacketize_h264_access_unit c ps)

transition_last-IsDated :
    (c : Codec) (n w o : ℕ) (want : Bool) (p : Pending) (s : Stream) (r : Option ObservedPacket)
    → IsDated w o want s (transition_last c n w o want p s r)
transition_last-IsDated c n w o want p s none = discard-IsDated w o want s
transition_last-IsDated c n w o want p s (some last) =
    let closed = close_unit (sub16 n 1) last p in
    let t = put_pending (some closed) s in
    ground (arith, transition_ordered-IsDated c n w o want closed t (ordered_packets closed))

pub transition-IsDated :
    (c : Codec) (n w o : ℕ) (want : Bool) (s : Stream)
    → IsDated w o want s (finish_at_timestamp_transition c n w o want s)
unfolding finish_at_timestamp_transition
transition-IsDated c n w o want s = elim (Option-cases s.pending) [
  | inl e ↦ ground arith
  | inr (p, e) ↦ ground (
    arith,
    discard-IsDated w o want s,
    transition_last-IsDated c n w o want p s (lookup (sub16 n 1) p.packets),
  )
]

try_ordered-IsDated :
    (c : Codec) (w o : ℕ) (want : Bool) (p : Pending) (s : Stream) (r : Ordered)
    → IsDated w o want s (try_ordered c w o want p s r)
try_ordered-IsDated c w o want p s invalid = discard-IsDated w o want s
try_ordered-IsDated c w o want p s incomplete = ground arith
try_ordered-IsDated c w o want p s (complete ps) =
    ground
      (arith, deliver-IsDated (add16 p.marker 1) w o want p s (depacketize_h264_access_unit c ps))

try_complete-IsDated :
    (c : Codec) (k : Packet) (w o : ℕ) (want : Bool) (p : Pending) (s : Stream)
    → IsDated w o want s (try_complete c k w o want p s)
unfolding try_complete
try_complete-IsDated c k w o want p s =
    let m = mark k p in
    let t = put_pending (some m) s in
    ground (
      arith,
      discard_pending-KeepsDate (put_pending (some p) s),
      try_ordered-IsDated c w o want m t (ordered_packets m),
    )

admit-IsDated :
    (c : Codec) (k : Packet) (g w o : ℕ) (want : Bool) (s : Stream) (r : Bool × Pending)
    → IsDated w o want s (admit c k g w o want s r)
admit-IsDated c k g w o want s (false, p) =
    let t = put_pending (some (mark k (observe_sequence k.sequence_number p))) s in
    ground (arith, discard_pending-KeepsDate t)
admit-IsDated c k g w o want s (true, p) =
    let seen = observe_sequence k.sequence_number p in
    ground (
      arith,
      discard_pending-KeepsDate (put_pending (some seen) s),
      try_complete-IsDated c k w o want (insert_packet k g o seen) s,
    )

duplicate_or-IsDated :
    (c : Codec) (k : Packet) (g w o : ℕ) (want : Bool) (s : Stream) (p : Pending)
    (r : Option ObservedPacket)
    → IsDated w o want s (duplicate_or c k g w o want s p r)
duplicate_or-IsDated c k g w o want s p (some x) =
    ground (arith, discard_pending-KeepsDate (put_pending (some p) s))
duplicate_or-IsDated c k g w o want s p none =
    admit-IsDated c k g w o want s (sequence_within_reorder_window k.sequence_number p)

pub join_pending-IsDated :
    (c : Codec) (k : Packet) (g w o : ℕ) (want : Bool) (s : Stream)
    → IsDated w o want s (join_pending c k g w o want s)
unfolding join_pending
join_pending-IsDated c k g w o want s = duplicate_or-IsDated c k g w o want s _ _
