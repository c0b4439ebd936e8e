-- ===== src/Errors.antt =====
-- internal/jetkvm/errors.go, internal/toolresult/taxonomy.go and the classifiers of
-- internal/jetkvm/manager.go: error values, and how they are classified for a tool's caller.
pub mod Classify
mod Tests
use jetkvm_mcp.Base.{
  ℕ, Bool, true, false, ◌&&◌, ◌||◌, Option, none, some, String, str_eq, ◌==◌, if◌then◌else◌,
}

-- The package's `errors.New` values, and the two of package context.
pub data Sentinel : Type 0 where
  authentication device_unreachable invalid_response protocol unknown_device : Sentinel
  unknown_wake_target rpc_method_unavailable unsolicited_rpc session_closed : Sentinel
  session_released session_taken_over ownership_uncertain unsupported_input : Sentinel
  media_path media_directory_not_configured video_busy busy no_signal : Sentinel
  decoder_unavailable canceled deadline_exceeded : Sentinel

-- An error is a chain of wrappers over a sentinel or over an error of another package.
pub data Error : Type 0 where
  sentinel : Sentinel → Error
  -- fmt.Errorf("%w: ...", err)
  wrap : Error → Error
  -- *OperationError: cause, code, outcome, retryable
  operation : Error → String → String → Bool → Error
  foreign : ℕ → Error

abbrev pub tool_outcome_failed : String
tool_outcome_failed = "failed"

abbrev pub tool_outcome_not_sent : String
tool_outcome_not_sent = "not_sent"

abbrev pub tool_outcome_unknown : String
tool_outcome_unknown = "unknown"

-- Sentinels are compared by identity: each has a number of its own.
abbrev tag : Sentinel → ℕ
tag authentication = 0
tag device_unreachable = 1
tag invalid_response = 2
tag protocol = 3
tag unknown_device = 4
tag unknown_wake_target = 5
tag rpc_method_unavailable = 6
tag unsolicited_rpc = 7
tag session_closed = 8
tag session_released = 9
tag session_taken_over = 10
tag ownership_uncertain = 11
tag unsupported_input = 12
tag media_path = 13
tag media_directory_not_configured = 14
tag video_busy = 15
tag busy = 16
tag no_signal = 17
tag decoder_unavailable = 18
tag canceled = 19
tag deadline_exceeded = 20

-- errors.Is
unfoldable pub is : Error → Sentinel → Bool
is (sentinel t) s = tag t == tag s
is (wrap e) s = is e s
is (operation e _ _ _) s = is e s
is (foreign _) s = false

-- The code of `classifyOperationError`, with what its case says of a retry.
unfoldable pub code_of : Error → String
code_of e =
    if is e unsupported_input
      || is e unknown_device
      || is e unknown_wake_target
      || is e media_path
      || is e media_directory_not_configured
    then "invalid_input"
    else if is e video_busy || is e busy
    then "busy"
    else if is e session_released
    then "session_released"
    else if is e session_taken_over
    then "session_taken_over"
    else if is e ownership_uncertain
    then "ownership_uncertain"
    else if is e authentication
    then "authentication_failed"
    else if is e device_unreachable || is e session_closed
    then "device_unavailable"
    else if is e decoder_unavailable
    then "video_unavailable"
    else if is e no_signal
    then "no_signal"
    else if is e protocol || is e invalid_response || is e rpc_method_unavailable
    then "protocol_error"
    else if is e canceled
    then "canceled"
    else if is e deadline_exceeded
    then "timeout"
    else "operation_failed"

-- The cases that set `retryable = outcome == ToolOutcomeFailed`.
unfoldable pub retry_code : String → Bool
retry_code code =
    str_eq code "device_unavailable"
    || str_eq code "no_signal"
    || str_eq code "canceled"
    || str_eq code "timeout"

unfoldable pub classify : Error → String → Error
classify e outcome =
    let code = code_of e in
    let retryable = if retry_code code then str_eq outcome tool_outcome_failed else false in
    operation e code outcome (if str_eq outcome tool_outcome_failed then retryable else false)

-- `nil` stays `nil`.
unfoldable pub classify_operation_error : Option Error → String → Option Error
unfolding classify
classify_operation_error none outcome = none
classify_operation_error (some e) outcome = some (classify e outcome)

-- errors.As(err, &operationErr)
unfoldable pub as_operation : Error → Option Error
as_operation (sentinel _) = none
as_operation (wrap e) = as_operation e
as_operation (operation e code outcome retryable) = some (operation e code outcome retryable)
as_operation (foreign _) = none

-- An error that is classified already keeps its class.
unfoldable pub classify_read_failure : Option Error → Option Error
unfolding as_operation classify_operation_error
classify_read_failure none = none
classify_read_failure (some e) = elim (as_operation e) [
  | none ↦ classify_operation_error (some e) tool_outcome_failed
  | some _ ↦ some e
]

unfoldable pub busy_not_sent : Error
unfolding classify
busy_not_sent = classify (sentinel busy) tool_outcome_not_sent

-- mutationSequenceError
unfoldable pub mutation_sequence_error : Option Error → Bool → Option Error
unfolding classify_operation_error
mutation_sequence_error none prior_dispatch = none
mutation_sequence_error (some e) prior_dispatch =
    if prior_dispatch then classify_operation_error (some e) tool_outcome_unknown else some e

-- toolresult.ValidCode and toolresult.ValidOutcome
unfoldable pub valid_code : String → Bool
valid_code code =
    str_eq code "operation_failed"
    || str_eq code "canceled"
    || str_eq code "timeout"
    || str_eq code "invalid_input"
    || str_eq code "busy"
    || str_eq code "authentication_failed"
    || str_eq code "device_unavailable"
    || str_eq code "video_unavailable"
    || str_eq code "no_signal"
    || str_eq code "protocol_error"
    || str_eq code "session_released"
    || str_eq code "session_taken_over"
    || str_eq code "ownership_uncertain"

unfoldable pub valid_outcome : String → Bool
valid_outcome outcome =
    str_eq outcome "not_sent" || str_eq outcome "failed" || str_eq outcome "unknown"

-- OperationError.ToolErrorCode, ToolErrorOutcome and ToolErrorRetryable
abbrev pub tool_error_code : Error → Option String
tool_error_code (operation _ code _ _) = some code
tool_error_code _ = none

abbrev pub tool_error_outcome : Error → Option String
tool_error_outcome (operation _ _ outcome _) = some outcome
tool_error_outcome _ = none

abbrev pub tool_error_retryable : Error → Bool
tool_error_retryable (operation _ _ _ retryable) = retryable
tool_error_retryable _ = false
