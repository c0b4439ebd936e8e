-- ===== src/Telemetry/Names.antt =====
-- internal/telemetry/recorder.go: the closed sets of names, references, and the events that are made of
-- them. A reference is its bytes.
use jetkvm_mcp.Base.{
  ℕ, ◌+◌, Bool, true, false, not, ◌&&◌, ◌||◌, Option, none, some, List, [], ◌∷◌, String, str_eq,
  ◌==◌, leb, ltb, length, is_empty, if◌then◌else◌,
}
use jetkvm_mcp.Base.Integers.{ℤ, negsuc, pos}

abbrev pub one_of : List String → String → Bool
one_of [] value = false
one_of (s ∷ names) value = str_eq value s || one_of names value

abbrev pub transports : List String
transports = "stdio" ∷ "http" ∷ []

abbrev pub operations : List String
operations =
    "inventory" ∷ "status" ∷ "power" ∷ "hid" ∷ "capture" ∷ "media" ∷ "debug_rpc" ∷ "lifecycle" ∷ []

abbrev pub stages : List String
stages =
    "tool" ∷ "admission" ∷ "connect" ∷ "auth" ∷ "signaling" ∷ "rpc" ∷ "capture" ∷ "cleanup"
    ∷ "shutdown" ∷ []

abbrev pub codes : List String
codes =
    "success" ∷ "operation_failed" ∷ "canceled" ∷ "timeout" ∷ "invalid_input" ∷ "busy"
    ∷ "authentication_failed" ∷ "device_unavailable" ∷ "video_unavailable" ∷ "no_signal"
    ∷ "protocol_error" ∷ "session_released" ∷ "session_taken_over" ∷ "ownership_uncertain"
    ∷ "telemetry_summary" ∷ "telemetry_writer_failure" ∷ []

abbrev pub session_events : List String
session_events =
    "connection_attempt_completed" ∷ "generation_active" ∷ "generation_reused" ∷ "idle_released"
    ∷ "explicitly_released" ∷ "session_taken_over" ∷ "ownership_uncertain" ∷ "cleanup_timeout"
    ∷ "shutdown_closed" ∷ []

abbrev pub outcomes : List String
outcomes = "succeeded" ∷ "failed" ∷ "not_sent" ∷ "unknown" ∷ []

-- validTransport, validOperation, validStage, validCode, validSessionEvent, validOutcome
unfoldable pub valid_transport : String → Bool
valid_transport = one_of transports

unfoldable pub valid_operation : String → Bool
valid_operation = one_of operations

unfoldable pub valid_stage : String → Bool
valid_stage = one_of stages

unfoldable pub valid_event_code : String → Bool
valid_event_code = one_of codes

unfoldable pub valid_session_event : String → Bool
valid_session_event = one_of session_events

unfoldable pub valid_event_outcome : String → Bool
valid_event_outcome = one_of outcomes

abbrev pub Reference : Type 0
Reference = List ℕ

-- "dev_" and "ses_"
abbrev pub device_prefix : Reference
device_prefix = 100 ∷ 101 ∷ 118 ∷ 95 ∷ []

abbrev pub session_prefix : Reference
session_prefix = 115 ∷ 101 ∷ 115 ∷ 95 ∷ []

abbrev pub is_hex : ℕ → Bool
is_hex b = leb 48 b && leb b 57 || leb 97 b && leb b 102 || leb 65 b && leb b 70

abbrev pub all_hex : Reference → Bool
all_hex [] = true
all_hex (b ∷ bs) = is_hex b && all_hex bs

-- The prefix, and hexadecimal digits behind it.
unfoldable pub hex_behind : Reference → Reference → Bool
hex_behind [] bs = all_hex bs
hex_behind (p ∷ ps) [] = false
hex_behind (p ∷ ps) (b ∷ bs) = b == p && hex_behind ps bs

unfoldable pub valid_reference : Reference → Reference → Bool
valid_reference value prefix = length value == length prefix + 24 && hex_behind prefix value

-- `Span`, without its recorder and the time it started.
pub record Span : Type 0 where
  pub correlation : ℕ
  pub transport : String
  pub operation : String
  pub device_ref : Reference
  pub session_ref : Reference

unfoldable pub bind_device : Reference → Span → Span
bind_device ref span =
    if valid_reference ref device_prefix then record span { device_ref = ref } else span

unfoldable pub bind_session : Reference → Span → Span
bind_session ref span =
    if valid_reference ref session_prefix then record span { session_ref = ref } else span

-- The fields of `event` and of `sessionEvent` that depend on the call.
pub data Line : Type 0 where
  operation_line : Span → String → ℕ → String → String → Line
  session_line : Reference → Reference → String → ℕ → String → String → Line

-- Milliseconds, from 0 to a minute.
abbrev pub clamp_duration : ℤ → ℕ
clamp_duration (pos n) = if ltb 60000 n then 60000 else n
clamp_duration (negsuc n) = 0

-- The line of `record`, if the names are known.
unfoldable pub line_of_span : Span → String → String → String → ℤ → Option Line
line_of_span span stage code outcome elapsed =
    if valid_transport span.transport
      && valid_operation span.operation
      && valid_stage stage
      && valid_event_code code
      && valid_event_outcome outcome
    then some (operation_line span stage (clamp_duration elapsed) code outcome)
    else none

-- The line of `RecordSession`.
unfoldable pub line_of_session : Reference → Reference → String → String → String → ℤ → Option Line
line_of_session device session event code outcome elapsed =
    let missing_allowed =
      str_eq event "connection_attempt_completed" && not (str_eq outcome "succeeded") in
    if valid_reference device device_prefix
      && (if is_empty session then missing_allowed else valid_reference session session_prefix)
      && valid_session_event event
      && valid_event_code code
      && valid_event_outcome outcome
    then some (session_line device session event (clamp_duration elapsed) code outcome)
    else none
