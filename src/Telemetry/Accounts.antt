-- ===== src/Telemetry/Accounts.antt =====
-- internal/telemetry/recorder.go: the accounts of a recorder: where the lines are that it accepted.
use jetkvm_mcp.Base.{
  ◌+◌, Bool, true, false, not, ◌&&◌, ◌||◌, Option, none, some, List, [], ◌∷◌, ◌++◌, ◌≡◌, ◌≤◌, ◌⊎◌,
  refl, arith, String, ◌==◌, leb, length, is_empty,
}
use jetkvm_mcp.Base.Integers.{ℤ}
use jetkvm_mcp.Base.Counting.{count, count-append, one_if}
use jetkvm_mcp.Telemetry.Names.{
  Line, Reference, Span, line_of_session, line_of_span, operation_line, session_line,
  valid_event_code, valid_event_outcome, valid_operation, valid_reference, valid_session_event,
  valid_stage, valid_transport, device_prefix, session_prefix,
}
use jetkvm_mcp.Telemetry.Recorder.{
  Position, Queued, Recorder, Summary, blocking, draining_events, finished, polling, queued_flush,
  queued_line, summarizing,
}

abbrev pub is_line : Queued → Bool
is_line (queued_line _ _) = true
is_line queued_flush = false

abbrev pub is_flush : Queued → Bool
is_flush (queued_line _ _) = false
is_flush queued_flush = true

abbrev pub is_early : Queued → Bool
is_early (queued_line early _) = early
is_early queued_flush = false

abbrev pub early_written : Queued × Bool → Bool
early_written (q, _) = is_early q

abbrev pub is_failed : Queued × Bool → Bool
is_failed (_, ok) = not ok

-- The names and the duration of a line are what the recorder allows.
unfoldable pub is_known : Line → Bool
is_known (operation_line span stage duration code outcome) =
    valid_transport span.transport
    && valid_operation span.operation
    && valid_stage stage
    && valid_event_code code
    && valid_event_outcome outcome
    && leb duration 60000
is_known (session_line device session event duration code outcome) =
    valid_reference device device_prefix
    && (is_empty session || valid_reference session session_prefix)
    && valid_session_event event
    && valid_event_code code
    && valid_event_outcome outcome
    && leb duration 60000

abbrev pub is_unknown : Queued → Bool
is_unknown (queued_line _ line) = not (is_known line)
is_unknown queued_flush = false

abbrev pub unknown_ready : Bool × Line → Bool
unknown_ready (_, line) = not (is_known line)

abbrev pub unknown_written : Queued × Bool → Bool
unknown_written (q, _) = is_unknown q

-- Nothing behind the flush was queued before it.
unfoldable pub late_behind : List Queued → Bool
late_behind [] = true
late_behind (queued_line _ _ ∷ qs) = late_behind qs
late_behind (queued_flush ∷ qs) = count is_early qs == 0

abbrev pub past_flush : Position → Bool
past_flush polling = false
past_flush blocking = false
past_flush _ = true

abbrev pub past_terminal : Position → Bool
past_terminal draining_events = true
past_terminal summarizing = true
past_terminal finished = true
past_terminal _ = false

abbrev pub has_finished : Position → Bool
has_finished finished = true
has_finished _ = false

abbrev pub summary_failed : Option Summary → Bool
summary_failed none = false
summary_failed (some s) = not s.was_written

-- The summary tells no more drops than there are, tells of failed writes exactly if a write failed, and
-- reports a success exactly if it tells of neither.
abbrev pub IsTruthful : Option Summary → Recorder → Type 0
IsTruthful none r = Unit
IsTruthful (some s) r =
    (s.dropped_events ≤ r.dropped_events)
    × (s.writer_failed ≡ not (count is_failed r.written == 0))
    × (s.succeeded ≡ (s.dropped_events == 0 && not s.writer_failed))
    × (has_finished r.position ≡ true)

pub record Accounts (r : Recorder) : Type 0 where
  pub bounds : (length r.events ≤ 256) × (length r.terminal ≤ 256)
  pub total :
      r.accepted
      ≡ length r.written
        + length r.ready
        + count is_line r.events
        + count is_line r.terminal
        + r.dropped_events
  pub early :
      r.queued_early
      ≡ count early_written r.written + count is_early r.events + count is_early r.terminal
  pub known :
      count unknown_ready r.ready
        + count is_unknown r.events
        + count is_unknown r.terminal
        + count unknown_written r.written
      ≡ 0
  pub flushes : count is_flush r.events + one_if (past_flush r.position) ≡ one_if r.flush_sent
  pub behind : late_behind r.events ≡ true
  pub events_drained : (past_flush r.position ≡ false) ⊎ (count is_early r.events ≡ 0)
  pub terminal_drained : (past_terminal r.position ≡ false) ⊎ (count is_early r.terminal ≡ 0)
  pub failed : r.writer_failed ≡ (not (count is_failed r.written == 0) || summary_failed r.summary)
  pub summary : IsTruthful r.summary r
  pub unsummarized : (has_finished r.position ≡ true) ⊎ (r.summary ≡ none)

pub line_of_span-known :
    (span : Span) (stage code outcome : String) (elapsed : ℤ) (line : Line)
    → line_of_span span stage code outcome elapsed ≡ some line
    → is_known line ≡ true
unfolding line_of_span is_known
line_of_span-known span stage code outcome elapsed line h = ground arith

pub line_of_session-known :
    (device session : Reference) (event code outcome : String) (elapsed : ℤ) (line : Line)
    → line_of_session device session event code outcome elapsed ≡ some line
    → is_known line ≡ true
unfolding line_of_session is_known
line_of_session-known device session event code outcome elapsed line h = ground arith

pub late_behind-append :
    (qs : List Queued) (q : Queued)
    → is_early q ≡ false
    → late_behind qs ≡ true
    → late_behind (qs ++ (q ∷ [])) ≡ true
unfolding late_behind count
late_behind-append [] q e h = ground arith
late_behind-append (queued_line e l ∷ qs) q i h = late_behind-append qs q i h
late_behind-append (queued_flush ∷ qs) q i h = ground (arith, count-append is_early qs (q ∷ []))

pub late_behind-append_line :
    (qs : List Queued) (early : Bool) (l : Line)
    → count is_flush qs ≡ 0
    → late_behind (qs ++ (queued_line early l ∷ [])) ≡ true
unfolding late_behind count
late_behind-append_line [] e l h = refl
late_behind-append_line (queued_line i m ∷ qs) e l h =
    late_behind-append_line qs e l (omega (arith, h))
late_behind-append_line (queued_flush ∷ qs) e l h = absurd (omega (arith, h))
