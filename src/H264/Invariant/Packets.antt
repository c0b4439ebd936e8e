-- ===== src/H264/Invariant/Packets.antt =====
-- internal/jetkvm/video.go: every call on a stream keeps its invariant.
use jetkvm_mcp.Base.{
  List, [], ◌∷◌, inl, inr, Option-cases, ℕ, Bool, true, false, Option, none, some, ◌≡◌, arith,
}
use jetkvm_mcp.Base.Assoc.{lookup}
use jetkvm_mcp.H264.Sequence.{
  Packet, Pending, ObservedPacket, Ordered, add16, sub16, complete, incomplete, invalid,
  ordered_packets, observe_sequence, sequence_within_reorder_window,
}
use jetkvm_mcp.H264.AccessUnit.{Codec, depacketize_h264_access_unit}
use jetkvm_mcp.H264.State.{reject_completed, Stream, discard_pending, put_pending}
use jetkvm_mcp.H264.Drain.{finish_drain_unit}
use jetkvm_mcp.H264.Ending.{
  expire, close_unit, transition_ordered, transition_last, finish_at_timestamp_transition,
}
use jetkvm_mcp.H264.Process.{
  insert_packet, mark, try_ordered, try_complete, admit, duplicate_or, join_pending, process_ready,
  process_draining, process_with, process_behind, process,
}
use jetkvm_mcp.H264.Events.{
  push, drain, begin_wait, end_wait, Event, pushed, drained, expired, wait_began, wait_ended,
  on_event, on_events,
}
use jetkvm_mcp.H264.Events.{
  push, drain, begin_wait, end_wait, Event, pushed, drained, expired, wait_began, wait_ended,
  on_event, on_events,
}
use jetkvm_mcp.H264.Drain.{finish_drain_unit}
use jetkvm_mcp.H264.Invariant.{
  discard_pending-EndsPending, finish_drain_unit-EndsDraining, reject_completed-Inv,
  drain_packet-Inv, IsSound, Inv,
}
use jetkvm_mcp.H264.Invariant.Endings.{
  EndsBoth, deliver-EndsBoth, discard_pending-EndsBoth, expire-Inv, poison_packet-Inv,
}

transition_ordered-EndsBoth :
    (c : Codec) (n w o : ℕ) (want : Bool) (p : Pending) (s : Stream) (r : Ordered)
    → s.draining ≡ none
    → IsSound s
    → EndsBoth (transition_ordered c n w o want p s r).stream
transition_ordered-EndsBoth c n w o want p s invalid d v = discard_pending-EndsBoth s d v
transition_ordered-EndsBoth c n w o want p s incomplete d v = discard_pending-EndsBoth s d v
transition_ordered-EndsBoth c n w o want p s (complete ps) d v =
    deliver-EndsBoth n w o want p s (depacketize_h264_access_unit c ps) d v

transition_last-EndsBoth :
    (c : Codec) (n w o : ℕ) (want : Bool) (p : Pending) (s : Stream) (r : Option ObservedPacket)
    → s.draining ≡ none
    → IsSound s
    → EndsBoth (transition_last c n w o want p s r).stream
transition_last-EndsBoth c n w o want p s none d v = discard_pending-EndsBoth s d v
transition_last-EndsBoth c n w o want p s (some last) d v =
    let closed = close_unit (sub16 n 1) last p in
    transition_ordered-EndsBoth c n w o want closed (put_pending (some closed) s)
      (ordered_packets closed) d (ground arith)

pub transition-EndsBoth :
    (c : Codec) (n w o : ℕ) (want : Bool) (s : Stream) (p : Pending)
    → s.pending ≡ some p
    → s.draining ≡ none
    → IsSound s
    → EndsBoth (finish_at_timestamp_transition c n w o want s).stream
unfolding finish_at_timestamp_transition
transition-EndsBoth c n w o want s p e d v = ground (
  arith,
  discard_pending-EndsBoth s d v,
  transition_last-EndsBoth c n w o want p s (lookup (sub16 n 1) p.packets) d v,
)

try_ordered-Inv :
    (c : Codec) (w o : ℕ) (want : Bool) (p : Pending) (s : Stream) (r : Ordered)
    → s.draining ≡ none
    → IsSound s
    → Inv (try_ordered c w o want p s r).stream
try_ordered-Inv c w o want p s invalid d v = ground (arith, discard_pending-EndsBoth s d v)
try_ordered-Inv c w o want p s incomplete d v = ground arith
try_ordered-Inv c w o want p s (complete ps) d v = ground (
  arith,
  deliver-EndsBoth (add16 p.marker 1) w o want p s (depacketize_h264_access_unit c ps) d v,
)

try_complete-Inv :
    (c : Codec) (k : Packet) (w o : ℕ) (want : Bool) (p : Pending) (s : Stream)
    → s.draining ≡ none
    → IsSound s
    → Inv (try_complete c k w o want p s).stream
unfolding try_complete
try_complete-Inv c k w o want p s d v = ground (
  arith,
  discard_pending-EndsBoth (put_pending (some p) s),
  try_ordered-Inv c w o want (mark k p) (put_pending (some (mark k p)) s)
      (ordered_packets (mark k p)),
)

admit-Inv :
    (c : Codec) (k : Packet) (g w o : ℕ) (want : Bool) (s : Stream) (r : Bool × Pending)
    → s.draining ≡ none
    → IsSound s
    → Inv (admit c k g w o want s r).stream
admit-Inv c k g w o want s (false, p) d v = ground (
  arith,
  discard_pending-EndsBoth (put_pending (some (mark k (observe_sequence k.sequence_number p))) s),
)
admit-Inv c k g w o want s (true, p) d v =
    let seen = observe_sequence k.sequence_number p in
    ground (
      arith,
      discard_pending-EndsBoth (put_pending (some seen) s),
      try_complete-Inv c k w o want (insert_packet k g o seen) s d v,
    )

duplicate_or-Inv :
    (c : Codec) (k : Packet) (g w o : ℕ) (want : Bool) (s : Stream) (p : Pending)
    (r : Option ObservedPacket)
    → s.draining ≡ none
    → IsSound s
    → Inv (duplicate_or c k g w o want s p r).stream
duplicate_or-Inv c k g w o want s p (some x) d v =
    ground (arith, discard_pending-EndsBoth (put_pending (some p) s))
duplicate_or-Inv c k g w o want s p none d v =
    admit-Inv c k g w o want s (sequence_within_reorder_window k.sequence_number p) d v

join_pending-Inv :
    (c : Codec) (k : Packet) (g w o : ℕ) (want : Bool) (s : Stream)
    → s.draining ≡ none
    → IsSound s
    → Inv (join_pending c k g w o want s).stream
unfolding join_pending
join_pending-Inv c k g w o want s d v = duplicate_or-Inv c k g w o want s _ _ d v

module _ (c : Codec) (again : Stream → Stream) (i : (s : Stream) → Inv s → Inv (again s)) where
  process_ready-Inv :
      (k : Packet) (g w o : ℕ) (want : Bool) (s : Stream)
      → s.draining ≡ none
      → IsSound s
      → Inv (process_ready c again k g w o want s).stream
  unfolding process_ready
  process_ready-Inv k g w o want s d v = elim (Option-cases s.pending) [
    | inl e ↦ ground (arith, join_pending-Inv c k g w o want s d v)
    | inr (p, e) ↦
        let r = finish_at_timestamp_transition c k.sequence_number w o want s in
        ground (
          arith,
          join_pending-Inv c k g w o want s d v,
          transition-EndsBoth c k.sequence_number w o want s p e d v,
          join_pending-Inv c k g w o want r.stream,
          i r.stream,
        )
  ]

  process_draining-Inv :
      (k : Packet) (g w o : ℕ) (want : Bool) (s : Stream)
      → Inv s
      → Inv (process_draining c again k g w o want s s.draining).stream
  process_draining-Inv k g w o want s v = elim (Option-cases s.draining) [
    | inl e ↦ ground (arith, process_ready-Inv k g w o want s e v.sound)
    | inr (d, e) ↦
        let t = finish_drain_unit k.sequence_number false s in
        ground (
          arith,
          finish_drain_unit-EndsDraining k.sequence_number false s v.sound,
          drain_packet-Inv k o s,
          process_ready-Inv k g w o want t,
        )
  ]

  process_with-Inv :
      (k : Packet) (g w o : ℕ) (want : Bool) (s : Stream)
      → Inv s
      → Inv (process_with c again k g w o want s).stream
  unfolding process_with
  process_with-Inv k g w o want s v =
      let t = expire o s in
      let q = reject_completed k t in
      ground (
        arith,
        expire-Inv o s v,
        poison_packet-Inv k t,
        reject_completed-Inv k t,
        process_draining-Inv k g w o want q.1,
      )

process-Inv :
    (c : Codec) (k : Packet) (g w o : ℕ) (want : Bool) (s : Stream)
    → Inv s
    → Inv (process c k g w o want s).stream
unfolding process process_behind
process-Inv c k g w o want s v =
    process_with-Inv c (process_behind c k g w o)
      (λ t. process_with-Inv c (λ u. u) (λ u i. i) k g w o false t) k g w o want s v

drain-Inv : (k : Option Packet) (o : ℕ) (s : Stream) → Inv s → Inv (drain k o s)
unfolding drain
drain-Inv none o s v = v
drain-Inv (some k) o s v =
    let t = expire o s in
    ground (
      arith,
      expire-Inv o s v,
      poison_packet-Inv k t,
      discard_pending-EndsPending t,
      drain_packet-Inv k o t,
      drain_packet-Inv k o (discard_pending t),
    )

begin_wait-Inv : (s : Stream) → Inv s → Inv (begin_wait s)
unfolding begin_wait
begin_wait-Inv s v = ground arith

end_wait-Inv : (s : Stream) → Inv s → Inv (end_wait s)
unfolding end_wait
end_wait-Inv s v = ground (arith, discard_pending-EndsPending s v.sound)

on_event-Inv : (c : Codec) (e : Event) (s : Stream) → Inv s → Inv (on_event c e s)
unfolding push
on_event-Inv c (pushed none g w o) s v = v
on_event-Inv c (pushed (some k) g w o) s v = process-Inv c k g w o true s v
on_event-Inv c (drained k o) s v = drain-Inv k o s v
on_event-Inv c (expired o) s v = expire-Inv o s v
on_event-Inv c wait_began s v = begin_wait-Inv s v
on_event-Inv c wait_ended s v = end_wait-Inv s v

-- A stream that keeps the invariant still does after any calls: at most one of a pending and a
-- draining unit is there, the map of completed units has exactly the timestamps of their order, at
-- most 64 of them, and the retained parameter sets pass validH264Parameters.
pub on_events-Inv : (c : Codec) (es : List Event) (s : Stream) → Inv s → Inv (on_events c es s)
unfolding on_events
on_events-Inv c [] s v = v
on_events-Inv c (e ∷ es) s v = on_events-Inv c es (on_event c e s) (on_event-Inv c e s v)
