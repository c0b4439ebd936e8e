-- ===== src/Receiver.antt =====
-- internal/jetkvm/video_receiver.go: one capture at a time waits on a stream (videoReceiver). Each
-- stretch under the mutex is one step.
pub mod Answers
pub mod Tests
use jetkvm_mcp.Base.{
  ℕ, ◌+◌, ◌%◌, ◌^◌, Bool, true, false, Option, none, some, List, [], ◌∷◌, ◌==◌, is_some,
  if◌then◌else◌,
}
use jetkvm_mcp.H264.Nal.{Bytes}
use jetkvm_mcp.H264.Sequence.{Packet}
use jetkvm_mcp.H264.AccessUnit.{Codec}
use jetkvm_mcp.H264.State.{Stream, new_h264_stream}
use jetkvm_mcp.H264.Ending.{Pushed}
use jetkvm_mcp.H264.Events.{begin_wait, drain, end_wait, push}

-- A call of `Capture`, by a number, and the generation that its unit must be past.
pub record VideoWaiter : Type 0 where
  pub call : ℕ
  pub watermark : ℕ

-- What a waiter's channel takes.
pub data Delivery : Type 0 where
  captured : ℕ → Bytes → ℕ → Delivery
  closed_with : ℕ → Delivery

-- The receiver. `deliveries` are newest first; `begun` and `removed` record the calls that began to
-- wait and those whose context ended before a delivery; `requests` counts the picture loss
-- indications.
pub record Receiver : Type 0 where
  pub stream : Stream
  pub generation : ℕ
  pub waiter : Option VideoWaiter
  pub request_pli : Bool
  pub closed : Bool
  pub deliveries : List Delivery
  pub begun : List ℕ
  pub removed : List ℕ
  pub requests : ℕ

abbrev pub new_video_receiver : Receiver
new_video_receiver = record {
  stream = new_h264_stream;
  generation = 0;
  waiter = none;
  request_pli = false;
  closed = false;
  deliveries = [];
  begun = [];
  removed = [];
  requests = 0;
}

pub data Refusal : Type 0 where
  session_closed video_busy : Refusal

abbrev pub refusal : Receiver → Option Refusal
refusal r =
    if r.closed then some session_closed else if is_some r.waiter then some video_busy else none

-- `Capture` until it waits; its error, if any, is `refusal`.
unfoldable pub capture : ℕ → Receiver → Receiver
capture call r =
    let waiting = record r {
      stream = begin_wait r.stream;
      waiter = some (record { call = call; watermark = r.generation });
      begun = call ∷ r.begun;
      requests = if r.request_pli then r.requests + 1 else r.requests;
    } in
    if is_some (refusal r) then r else waiting

abbrev or_time : ℕ → ℕ → ℕ
or_time a b = if a == 0 then b else a

abbrev pub pushed_to : ℕ → VideoWaiter → Receiver → Stream → Option Bytes → Receiver
pushed_to observed_at w r s none = record r { stream = s }
pushed_to observed_at w r s (some data_) =
    let after = end_wait s in
    record r {
      stream = after;
      waiter = none;
      deliveries = captured w.call data_ (or_time after.candidate_at observed_at) ∷ r.deliveries;
    }

abbrev pub observed_by : Codec → Packet → ℕ → Receiver → Option VideoWaiter → Receiver
observed_by c packet observed_at r none = record r {
  stream = drain (some packet) observed_at r.stream;
}
observed_by c packet observed_at r (some w) =
    let p = push c (some packet) r.generation w.watermark observed_at r.stream in
    pushed_to observed_at w r p.stream p.candidate

-- `Observe`, with the generation as a 64-bit number.
unfoldable pub observe_packet : Codec → Option Packet → ℕ → Receiver → Receiver
observe_packet c none observed_at r = r
observe_packet c (some packet) observed_at r =
    let next = record r { generation = (r.generation + 1) % 2 ^ 64 } in
    if r.closed then r else observed_by c packet observed_at next r.waiter

abbrev pub set_pli : Bool → Receiver → Receiver
set_pli request r = record r {
  request_pli = request;
  requests =
      if is_some r.waiter then (if request then r.requests + 1 else r.requests) else r.requests;
}

abbrev pub closed_for : Receiver → Option VideoWaiter → List Delivery
closed_for r none = r.deliveries
closed_for r (some w) = closed_with w.call ∷ r.deliveries

unfoldable pub close : Receiver → Receiver
close r =
    let shut = record r {
      closed = true;
      waiter = none;
      stream = end_wait r.stream;
      deliveries = closed_for r r.waiter;
    } in
    if r.closed then r else shut

abbrev pub waits_for : ℕ → Option VideoWaiter → Bool
waits_for call none = false
waits_for call (some w) = w.call == call

-- `removeWaiter`, as the context of a call ends.
unfoldable pub remove_waiter : ℕ → Receiver → Receiver
remove_waiter call r =
    let left = record r { waiter = none; stream = end_wait r.stream; removed = call ∷ r.removed } in
    if waits_for call r.waiter then left else r

pub data Turn : Type 0 where
  captures ends : ℕ → Turn
  observes : Option Packet → ℕ → Turn
  sets_pli : Bool → Turn
  closes : Turn

abbrev pub turn : Codec → Turn → Receiver → Receiver
turn c (captures call) r = capture call r
turn c (ends call) r = remove_waiter call r
turn c (observes packet observed_at) r = observe_packet c packet observed_at r
turn c (sets_pli request) r = set_pli request r
turn c closes r = close r

unfoldable pub turns : Codec → List Turn → Receiver → Receiver
turns c [] r = r
turns c (t ∷ ts) r = turns c ts (turn c t r)
