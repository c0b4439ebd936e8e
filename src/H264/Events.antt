-- ===== src/H264/Events.antt =====
-- internal/jetkvm/video.go: the entry points of a stream (push, drain, beginWait, endWait). A nil
-- packet is `none`.
use jetkvm_mcp.Base.{ℕ, true, Option, none, some, List, [], ◌∷◌, is_some, if◌then◌else◌}
use jetkvm_mcp.H264.Sequence.{Packet}
use jetkvm_mcp.H264.AccessUnit.{Codec}
use jetkvm_mcp.H264.State.{Drain, Stream, discard_pending, put_draining}
use jetkvm_mcp.H264.Drain.{drain_packet}
use jetkvm_mcp.H264.Ending.{quiet, expire, poison_packet, malformed, Pushed}
use jetkvm_mcp.H264.Process.{process}

unfoldable pub push : Codec → Option Packet → ℕ → ℕ → ℕ → Stream → Pushed
push c none generation watermark observed_at s = quiet s
push c (some packet) generation watermark observed_at s =
    process c packet generation watermark observed_at true s

-- `drain` of a packet that is well formed.
abbrev pub drain_valid : Packet → ℕ → Stream → Stream
drain_valid packet observed_at s =
    drain_packet packet observed_at (if is_some s.pending then discard_pending s else s)

unfoldable pub drain : Option Packet → ℕ → Stream → Stream
drain none observed_at s = s
drain (some packet) observed_at s =
    let t = expire observed_at s in
    if malformed packet then poison_packet packet t else drain_valid packet observed_at t

abbrev straddling : Option Drain → Option Drain
straddling none = none
straddling (some d) =
    some (record d { invalid = true; fu_parameter = []; latest_sps = none; latest_pps = none })

unfoldable pub begin_wait : Stream → Stream
begin_wait s = put_draining (straddling s.draining) s

unfoldable pub end_wait : Stream → Stream
end_wait s = if is_some s.pending then discard_pending s else s

-- What the receiver does with a stream.
pub data Event : Type 0 where
  pushed : Option Packet → ℕ → ℕ → ℕ → Event
  drained : Option Packet → ℕ → Event
  expired : ℕ → Event
  wait_began wait_ended : Event

abbrev pub on_event : Codec → Event → Stream → Stream
on_event c (pushed p generation watermark observed_at) s =
    (push c p generation watermark observed_at s).stream
on_event c (drained p observed_at) s = drain p observed_at s
on_event c (expired observed_at) s = expire observed_at s
on_event c wait_began s = begin_wait s
on_event c wait_ended s = end_wait s

unfoldable pub on_events : Codec → List Event → Stream → Stream
on_events c [] s = s
on_events c (e ∷ es) s = on_events c es (on_event c e s)
