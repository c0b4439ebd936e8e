-- ===== src/Telemetry/Recorder.antt =====
-- internal/telemetry/recorder.go: the recorder, its two queues and the goroutine that writes. Every
-- stretch between two points where others may run is one step.
use jetkvm_mcp.Base.{
  ℕ, zero, suc, ◌+◌, ◌%◌, ◌^◌, Bool, true, false, not, ◌&&◌, ◌||◌, Option, none, some, List, [],
  ◌∷◌, ◌++◌, String, str_eq, ltb, length, is_some, if◌then◌else◌,
}
use jetkvm_mcp.Base.Integers.{ℤ}
use jetkvm_mcp.Telemetry.Names.{
  Line, Reference, Span, line_of_session, line_of_span, valid_transport,
}

-- `queuedEvent`. A line notes whether it was queued before the flush of `Close`.
pub data Queued : Type 0 where
  queued_line : Bool → Line → Queued
  queued_flush : Queued

-- Where `writeEvents` stands: at its outer and at its inner select; in `drain`, at its first and its
-- second select; before the summary; and returned, with the channel of the flush closed.
pub data Position : Type 0 where
  polling blocking draining_terminal draining_events summarizing finished : Position

-- What the shutdown summary says, and whether it was written.
pub record Summary : Type 0 where
  pub succeeded : Bool
  pub dropped_events : ℕ
  pub writer_failed : Bool
  pub was_written : Bool

pub record Recorder : Type 0 where
  pub transport : Option String
  pub closed : Bool
  pub flush_sent : Bool
  pub events : List Queued
  pub terminal : List Queued
  pub dropped_events : ℕ
  pub writer_failed : Bool
  pub position : Position
  -- lines that passed the checks, each with whether its stage is `tool`, and that are not queued yet
  pub ready : List (Bool × Line)
  -- what happened: the lines that passed the checks, those of them that were queued before the flush,
  -- and those that were given to the writer, newest first, with whether the writer took them
  pub accepted : ℕ
  pub queued_early : ℕ
  pub written : List (Queued × Bool)
  pub summary : Option Summary

abbrev pub new_recorder : Recorder
new_recorder = record {
  transport = none;
  closed = false;
  flush_sent = false;
  events = [];
  terminal = [];
  dropped_events = 0;
  writer_failed = false;
  position = polling;
  ready = [];
  accepted = 0;
  queued_early = 0;
  written = [];
  summary = none;
}

abbrev pub queue_size : ℕ
queue_size = 256

-- `transportOnce` of `Start`
abbrev pub start_transport : String → Recorder → Recorder
start_transport transport r =
    if valid_transport transport && not (is_some r.transport)
    then record r { transport = some transport }
    else r

-- The checks of `record` and of `RecordSession`.
abbrev pub accept_line : Bool → Option Line → Recorder → Recorder
accept_line tool none r = r
accept_line tool (some line) r =
    if r.closed then r else record r { ready = (tool, line) ∷ r.ready; accepted = suc r.accepted }

abbrev pub queue_event : Line → Recorder → Recorder
queue_event line r = record r {
  events = r.events ++ (queued_line (not r.flush_sent) line ∷ []);
  queued_early = if r.flush_sent then r.queued_early else suc r.queued_early;
}

abbrev pub queue_terminal : Line → Recorder → Recorder
queue_terminal line r = record r {
  terminal = r.terminal ++ (queued_line (not r.flush_sent) line ∷ []);
  queued_early = if r.flush_sent then r.queued_early else suc r.queued_early;
}

abbrev pub drop_event : Recorder → Recorder
drop_event r = record r { dropped_events = (r.dropped_events + 1) % 2 ^ 64 }

-- The end of `record`: the queue of events, the one of tool events behind it, or neither.
abbrev pub push_line : Bool → Line → Recorder → Recorder
push_line tool line r =
    if ltb (length r.events) queue_size
    then queue_event line r
    else if tool && ltb (length r.terminal) queue_size
    then queue_terminal line r
    else drop_event r

unfoldable pub pick : ℕ → List (Bool × Line) → Option (Bool × Line)
pick n [] = none
pick zero (x ∷ xs) = some x
pick (suc n) (x ∷ xs) = pick n xs

unfoldable pub omit : ℕ → List (Bool × Line) → List (Bool × Line)
omit n [] = []
omit zero (x ∷ xs) = xs
omit (suc n) (x ∷ xs) = x ∷ omit n xs

abbrev pub push_picked : ℕ → Option (Bool × Line) → Recorder → Recorder
push_picked n none r = r
push_picked n (some (tool, line)) r = push_line tool line (record r { ready = omit n r.ready })

-- `Close` up to the flush, and the flush, for which there must be place.
abbrev pub close_recorder : Recorder → Recorder
close_recorder r = record r { closed = true }

abbrev pub send_flush : Recorder → Recorder
send_flush r =
    if r.closed && not r.flush_sent && ltb (length r.events) queue_size
    then record r { events = r.events ++ (queued_flush ∷ []); flush_sent = true }
    else r

-- `writeQueued`, given whether the writer takes the whole line.
abbrev pub write_queued : Bool → Queued → Recorder → Recorder
write_queued ok queued_flush r = r
write_queued ok (queued_line early line) r = record r {
  written = (queued_line early line, ok) ∷ r.written;
  writer_failed = r.writer_failed || not ok;
}

-- `handleQueued`
abbrev pub handle_queued : Bool → Queued → Recorder → Recorder
handle_queued ok queued_flush r = record r { position = draining_terminal }
handle_queued ok (queued_line early line) r = record (write_queued ok (queued_line early line) r) {
  position = polling;
}

-- The receive from `events`, or what happens without one.
abbrev pub take_event :
    (Queued → Recorder → Recorder) → (Recorder → Recorder) → List Queued → Recorder → Recorder
take_event f g [] r = g r
take_event f g (q ∷ qs) r = f q (record r { events = qs })

abbrev pub take_terminal_event :
    (Queued → Recorder → Recorder) → (Recorder → Recorder) → List Queued → Recorder → Recorder
take_terminal_event f g [] r = g r
take_terminal_event f g (q ∷ qs) r = f q (record r { terminal = qs })

abbrev pub move : Position → Recorder → Recorder
move p r = record r { position = p }

abbrev pub write_and_move : Bool → Position → Queued → Recorder → Recorder
write_and_move ok p q r = move p (write_queued ok q r)

-- `writeShutdownSummary`, given whether the writer takes it. What becomes of the line that is tried
-- after a failure has no consequence.
abbrev pub has_transport : Option String → Bool
has_transport none = false
has_transport (some t) = valid_transport t

abbrev pub write_shutdown_summary : Bool → Recorder → Recorder
write_shutdown_summary ok r =
    let said : Summary = record {
      succeeded = not (ltb 0 r.dropped_events || r.writer_failed);
      dropped_events = r.dropped_events;
      writer_failed = r.writer_failed;
      was_written = ok;
    } in
    if has_transport r.transport
    then record r {
      position = finished;
      summary = some said;
      writer_failed = r.writer_failed || not ok;
    }
    else record r { position = finished }

-- One step of `writeEvents`; at the inner select, by the receive from `events`.
abbrev pub write_events : Bool → Recorder → Recorder
write_events ok r = elim (r.position) [
  | polling ↦ take_event (handle_queued ok) (move blocking) r.events r
  | blocking ↦ take_event (handle_queued ok) (move blocking) r.events r
  | draining_terminal ↦
      take_terminal_event (write_and_move ok draining_terminal) (move draining_events) r.terminal r
  | draining_events ↦ take_event (write_and_move ok draining_terminal) (move summarizing) r.events r
  | summarizing ↦ write_shutdown_summary ok r
  | finished ↦ r
]

-- The other receive of the inner select.
abbrev pub write_terminal : Bool → Recorder → Recorder
write_terminal ok r = elim (r.position) [
  | blocking ↦ take_terminal_event (write_and_move ok polling) (move blocking) r.terminal r
  | other ↦ r
]

pub data RecorderStep : Type 0 where
  starts : String → RecorderStep
  records : Span → String → String → String → ℤ → RecorderStep
  records_session : Reference → Reference → String → String → String → ℤ → RecorderStep
  pushes : ℕ → RecorderStep
  closes sends_flush : RecorderStep
  writes_event writes_terminal : Bool → RecorderStep

unfoldable pub recorder_step : RecorderStep → Recorder → Recorder
recorder_step (starts transport) r = start_transport transport r
recorder_step (records span stage code outcome elapsed) r =
    accept_line (str_eq stage "tool") (line_of_span span stage code outcome elapsed) r
recorder_step (records_session device session event code outcome elapsed) r =
    accept_line false (line_of_session device session event code outcome elapsed) r
recorder_step (pushes n) r = push_picked n (pick n r.ready) r
recorder_step closes r = close_recorder r
recorder_step sends_flush r = send_flush r
recorder_step (writes_event ok) r = write_events ok r
recorder_step (writes_terminal ok) r = write_terminal ok r

unfoldable pub recorder_steps : List RecorderStep → Recorder → Recorder
recorder_steps [] r = r
recorder_steps (a ∷ rest) r = recorder_steps rest (recorder_step a r)
