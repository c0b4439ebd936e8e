-- ===== src/H264/Dated/Packets.antt =====
-- internal/jetkvm/video.go: the date that a candidate bears, for a whole packet.
use jetkvm_mcp.Base.{ℕ, Bool, false, Option, none, some, refl, arith, Option-cases}
use jetkvm_mcp.H264.Sequence.{Packet}
use jetkvm_mcp.H264.AccessUnit.{Codec}
use jetkvm_mcp.H264.State.{Stream, Drain, reject_completed}
use jetkvm_mcp.H264.Drain.{finish_drain_unit}
use jetkvm_mcp.H264.Ending.{expire, finish_at_timestamp_transition}
use jetkvm_mcp.H264.Process.{process_ready, process_draining, process_with, process_behind, process}
use jetkvm_mcp.H264.Dated.Units.{
  KeepsDate, finish_drain_unit-KeepsDate, reject_completed-KeepsDate, drain_packet-KeepsDate,
  expire-KeepsDate, poison_packet-KeepsDate,
}
use jetkvm_mcp.H264.Dated.Delivery.{IsDated, transition-IsDated, join_pending-IsDated}

-- What the recursive call leaves: the date.
abbrev KeepsAll : (Stream → Stream) → Type 0
KeepsAll again = (s : Stream) → KeepsDate s (again s)

module _ (c : Codec) (again : Stream → Stream) (keeps : KeepsAll again) where
  process_ready-IsDated :
      (k : Packet) (g w o : ℕ) (want : Bool) (s : Stream)
      → IsDated w o want s (process_ready c again k g w o want s)
  unfolding process_ready
  process_ready-IsDated k g w o want s =
      let r = finish_at_timestamp_transition c k.sequence_number w o want s in
      ground (
        arith,
        transition-IsDated c k.sequence_number w o want s,
        join_pending-IsDated c k g w o want s,
        join_pending-IsDated c k g w o want r.stream,
        keeps r.stream,
        Option-cases r.candidate,
      )

  process_draining-IsDated :
      (k : Packet) (g w o : ℕ) (want : Bool) (s : Stream) (r : Option Drain)
      → IsDated w o want s (process_draining c again k g w o want s r)
  process_draining-IsDated k g w o want s none = process_ready-IsDated k g w o want s
  process_draining-IsDated k g w o want s (some d) =
      let t = finish_drain_unit k.sequence_number false s in
      ground (
        arith,
        drain_packet-KeepsDate k o s,
        finish_drain_unit-KeepsDate k.sequence_number false s,
        process_ready-IsDated k g w o want t,
      )

  process_with-IsDated :
      (k : Packet) (g w o : ℕ) (want : Bool) (s : Stream)
      → IsDated w o want s (process_with c again k g w o want s)
  unfolding process_with
  process_with-IsDated k g w o want s =
      let t = expire o s in
      let q = reject_completed k t in
      ground (
        arith,
        expire-KeepsDate o s,
        poison_packet-KeepsDate k t,
        reject_completed-KeepsDate k t,
        process_draining-IsDated k g w o want q.1 q.1.draining,
      )

-- Without a candidate the recursive call keeps the date, and it wants none.
process_behind-KeepsDate :
    (c : Codec) (k : Packet) (g w o : ℕ) → KeepsAll (process_behind c k g w o)
unfolding process_behind
process_behind-KeepsDate c k g w o s =
    ground (arith, process_with-IsDated c (λ t. t) (λ t. (refl, refl)) k g w o false s)

-- A packet that yields a candidate leaves the stream with the time of the packet as the candidate's,
-- and with a generation that is past the watermark, if there is a watermark; a packet that yields none
-- leaves the last candidate's time and generation, and where no candidate is wanted there is none.
pub process-IsDated :
    (c : Codec) (k : Packet) (g w o : ℕ) (want : Bool) (s : Stream)
    → IsDated w o want s (process c k g w o want s)
unfolding process
process-IsDated c k g w o want s =
    process_with-IsDated c (process_behind c k g w o) (process_behind-KeepsDate c k g w o) k g w o
      want s
