-- ===== src/Receiver/Answers.antt =====
-- internal/jetkvm/video_receiver.go: each capture is answered once, with a candidate of the stream.
use jetkvm_mcp.Base.Counting.{one_if}
use jetkvm_mcp.Base.{
  ℕ, ◌+◌, ◌%◌, ◌^◌, Bool, Option, none, some, List, [], ◌∷◌, ◌≡◌, refl, ◌==◌, arith, Option-cases,
  inl, inr,
}
use jetkvm_mcp.H264.Sequence.{Packet}
use jetkvm_mcp.H264.AccessUnit.{Codec}
use jetkvm_mcp.H264.Events.{push}
use jetkvm_mcp.H264.Candidate.{IsCandidate}
use jetkvm_mcp.Receiver.{
  Delivery, Receiver, Turn, capture, captured, captures, close, closed_with, closes, ends,
  new_video_receiver, observe_packet, observes, remove_waiter, sets_pli, turn, turns, waits_for,
}

-- How often a call is in a list, and how often it was answered.
unfoldable pub times : ℕ → List ℕ → ℕ
times call [] = 0
times call (x ∷ xs) = one_if (x == call) + times call xs

abbrev answers_call : ℕ → Delivery → Bool
answers_call call (captured x data_ at) = x == call
answers_call call (closed_with x) = x == call

unfoldable pub answers : ℕ → List Delivery → ℕ
answers call [] = 0
answers call (d ∷ ds) = one_if (answers_call call d) + answers call ds

-- A call that began has been answered, has left, or waits; of each as often as it began.
abbrev pub IsAccounted : ℕ → Receiver → Type 0
IsAccounted call r =
    answers call r.deliveries + times call r.removed + one_if (waits_for call r.waiter)
    ≡ times call r.begun

capture-IsAccounted :
    (call k : ℕ) (r : Receiver) → IsAccounted call r → IsAccounted call (capture k r)
unfolding capture times
capture-IsAccounted call k r v = ground (arith, Option-cases r.waiter)

close-IsAccounted : (call : ℕ) (r : Receiver) → IsAccounted call r → IsAccounted call (close r)
unfolding close answers
close-IsAccounted call r v = ground (arith, Option-cases r.waiter)

remove_waiter-IsAccounted :
    (call k : ℕ) (r : Receiver) → IsAccounted call r → IsAccounted call (remove_waiter k r)
unfolding remove_waiter times
remove_waiter-IsAccounted call k r v = ground (arith, Option-cases r.waiter)

observe_packet-IsAccounted :
    (c : Codec) (call : ℕ) (p : Option Packet) (o : ℕ) (r : Receiver)
    → IsAccounted call r
    → IsAccounted call (observe_packet c p o r)
unfolding observe_packet answers
observe_packet-IsAccounted c call none o r v = v
observe_packet-IsAccounted c call (some p) o r v = elim (Option-cases r.waiter) [
  | inl e ↦ ground arith
  | inr (w, e) ↦
      let q = push c (some p) ((r.generation + 1) % 2 ^ 64) w.watermark o r.stream in
      ground (arith, Option-cases q.candidate)
]

turn-IsAccounted :
    (c : Codec) (call : ℕ) (t : Turn) (r : Receiver)
    → IsAccounted call r
    → IsAccounted call (turn c t r)
turn-IsAccounted c call (captures k) r v = capture-IsAccounted call k r v
turn-IsAccounted c call (ends k) r v = remove_waiter-IsAccounted call k r v
turn-IsAccounted c call (observes p o) r v = observe_packet-IsAccounted c call p o r v
turn-IsAccounted c call (sets_pli b) r v = v
turn-IsAccounted c call closes r v = close-IsAccounted call r v

turns-IsAccounted_from :
    (c : Codec) (call : ℕ) (ts : List Turn) (r : Receiver)
    → IsAccounted call r
    → IsAccounted call (turns c ts r)
unfolding turns
turns-IsAccounted_from c call [] r v = v
turns-IsAccounted_from c call (t ∷ ts) r v =
    turns-IsAccounted_from c call ts (turn c t r) (turn-IsAccounted c call t r v)

-- Whatever happens to a new receiver, in any order: the times that a call of `Capture` began to wait
-- are those that it was answered, those that its context ended first, and the one that it waits. So
-- no call is answered twice and none is lost.
pub turns-IsAccounted :
    (c : Codec) (call : ℕ) (ts : List Turn) → IsAccounted call (turns c ts new_video_receiver)
unfolding answers times
turns-IsAccounted c call ts = turns-IsAccounted_from c call ts new_video_receiver refl

-- What is delivered to a capture is a candidate.
abbrev pub IsDeliverable : Delivery → Type 0
IsDeliverable (captured call data_ at) = IsCandidate data_
IsDeliverable (closed_with call) = call ≡ call
