-- ===== src/Manager/Capture.antt =====
-- internal/jetkvm/capture.go: a capture from its checks to its result, and how its failures are classified.
pub mod Answers
use jetkvm_mcp.Base.{
  ℕ, ◌≤◌, Bool, true, false, not, ◌&&◌, ◌||◌, Option, none, some, ◌≡◌, refl, sym, arith, String,
  str_eq, ◌==◌, ltb, leb, is_some, if◌then◌else◌, Option-cases,
}
use jetkvm_mcp.Base.Integers.{ℤ, amount, exceeds, is_zero, negsuc, pos, within}
use jetkvm_mcp.Errors.{
  Error, Sentinel, as_operation, busy, classify, classify_read_failure, deadline_exceeded,
  decoder_unavailable, foreign, invalid_response, is, no_signal, operation, sentinel,
  session_closed, tool_outcome_failed, tool_outcome_not_sent, unknown_device, unsupported_input,
  wrap,
}

-- A look at the context of a capture: its error, and whether its cause is the server's own deadline.
pub record Look : Type 0 where
  pub ended : Option Sentinel
  pub is_server_deadline : Bool

-- `classifyReadFailure` of an error.
abbrev pub or_error : Error → Option Error → Error
or_error e none = e
or_error e (some f) = f

abbrev pub read_failure : Error → Error
read_failure e = or_error e (classify_read_failure (some e))

abbrev pub context_error_of : Bool → Option Sentinel → Option Error
context_error_of server none = none
context_error_of server (some s) =
    if server
    then some (read_failure (sentinel deadline_exceeded))
    else some (read_failure (sentinel s))

unfoldable pub capture_context_error : Look → Option Error
capture_context_error c = context_error_of c.is_server_deadline c.ended

abbrev pub pre_dispatch_of : Bool → Option Sentinel → Option Error
pre_dispatch_of server none = none
pre_dispatch_of server (some s) =
    if server
    then some (read_failure (sentinel deadline_exceeded))
    else some (classify (sentinel s) tool_outcome_not_sent)

unfoldable pub capture_pre_dispatch_context_error : Look → Option Error
capture_pre_dispatch_context_error c = pre_dispatch_of c.is_server_deadline c.ended

-- The cause of an error that is classified, and its outcome.
abbrev pub cause_of : Error → Error
cause_of (operation cause _ _ _) = cause
cause_of e = e

abbrev pub outcome_text : Error → String
outcome_text (operation _ _ outcome _) = outcome
outcome_text _ = ""

-- The case of a classified error, when the context has ended.
abbrev pub classified_after : Look → Error → Error → Sentinel → Error
classified_after c e o s =
    if str_eq (outcome_text o) tool_outcome_not_sent && not (is e s)
    then (if c.is_server_deadline
        then read_failure (sentinel deadline_exceeded)
        else classify (sentinel s) tool_outcome_not_sent)
    else if not (is e s)
    then or_error e (capture_context_error c)
    else e

abbrev pub classified_failure : Look → Error → Error → Option Sentinel → Error
classified_failure c e o none = e
classified_failure c e o (some s) = classified_after c e o s

abbrev pub capture_failure_of : Look → Error → Option Error → Error
capture_failure_of c e (some o) =
    if c.is_server_deadline && is e deadline_exceeded
    then classify (cause_of o) tool_outcome_failed
    else classified_failure c e o c.ended
capture_failure_of c e none = or_error (read_failure e) (capture_context_error c)

unfoldable pub classify_capture_read_failure : Look → Error → Error
classify_capture_read_failure c e = capture_failure_of c e (as_operation e)

-- The bounds that a request asks for, and the pixels of an image.
pub record Size : Type 0 where
  pub width : ℤ
  pub height : ℤ

-- What happens during a capture, in its order.
pub record CaptureAnswers : Type 0 where
  pub has_device : Bool
  pub has_decoder : Bool
  pub request : Size
  pub before : Look
  -- an error of withOperation that is not the operation's, the error of the call, the `ready` of the
  -- video's state, the error of CaptureH264, and whether the frame has a time
  pub refused : Option Error
  pub call_error : Option Error
  pub video_ready : Option Bool
  pub frame_error : Option Error
  pub has_time : Bool
  pub after_failure : Look
  pub after_operation : Look
  pub has_permit : Bool
  pub is_open : Bool
  pub decode_error : Option Error
  pub png_size : ℕ
  pub decoded : Size
  pub after_decode_failure : Look
  pub after_decode : Look
  pub config : Option Size
  pub after_config : Look
  pub at_end : Look

pub record Image : Type 0 where
  pub size : Size
  pub png_size : ℕ

pub data CaptureResult : Type 0 where
  capture_failed : Error → CaptureResult
  captured : Image → CaptureResult

abbrev pub max_capture_png_bytes : ℕ
max_capture_png_bytes = 33554432

abbrev pub default_to : ℕ → ℤ → ℤ
default_to n i = if is_zero i then pos n else i

abbrev pub bounds_of : Size → Size
bounds_of s = record { width = default_to 1920 s.width; height = default_to 1080 s.height }

abbrev pub are_bounds : Size → Bool
are_bounds s = within 1 3840 s.width && within 1 2160 s.height

-- From the first failure on, or the rest.
abbrev pub stop_at : Option Error → CaptureResult → CaptureResult
stop_at none r = r
stop_at (some e) r = capture_failed e

abbrev pub fits_in : ℤ → ℤ → Bool
fits_in bound i = not (exceeds (pos 1) i) && not (exceeds i bound)

abbrev pub same_number : ℤ → ℤ → Bool
same_number (pos m) (pos n) = m == n
same_number (negsuc m) (negsuc n) = m == n
same_number _ _ = false

abbrev pub size_agrees : Size → Option Size → Bool
size_agrees s none = false
size_agrees s (some t) = same_number t.width s.width && same_number t.height s.height

-- Behind the decoder.
unfoldable pub finish_capture : CaptureAnswers → Size → CaptureResult
finish_capture a bounds =
    if a.png_size == 0
      || ltb max_capture_png_bytes a.png_size
      || not (fits_in bounds.width a.decoded.width)
      || not (fits_in bounds.height a.decoded.height)
      || not a.has_time
    then capture_failed (read_failure (sentinel invalid_response))
    else stop_at (capture_context_error a.after_config) (
        if not (size_agrees a.decoded a.config)
        then capture_failed (read_failure (sentinel invalid_response))
        else stop_at (capture_context_error a.at_end)
            (captured (record { size = a.decoded; png_size = a.png_size })))

abbrev pub failed_read : Look → Option Error → Option Error
failed_read c none = none
failed_read c (some e) = some (classify_capture_read_failure c e)

-- The decoder, for which there are permits, and which a manager that closes does not begin.
unfoldable pub decode_capture : CaptureAnswers → Size → CaptureResult
decode_capture a bounds =
    if not a.has_permit
    then capture_failed (read_failure (sentinel busy))
    else if not a.is_open
    then capture_failed (read_failure (sentinel session_closed))
    else stop_at (failed_read a.after_decode_failure a.decode_error)
        (stop_at (capture_context_error a.after_decode) (finish_capture a bounds))

-- What withOperation returns.
abbrev pub is_not_ready : Option Bool → Bool
is_not_ready none = false
is_not_ready (some ready) = not ready

abbrev pub session_error : CaptureAnswers → Option Error
session_error a =
    if is_some a.refused
    then a.refused
    else if is_some a.call_error
    then a.call_error
    else if is_not_ready a.video_ready
    then some (sentinel no_signal)
    else a.frame_error

unfoldable pub capture_screen : CaptureAnswers → CaptureResult
capture_screen a =
    let bounds = bounds_of a.request in
    if not a.has_device
    then capture_failed (classify (wrap (sentinel unknown_device)) tool_outcome_not_sent)
    else if not a.has_decoder
    then capture_failed (read_failure (sentinel decoder_unavailable))
    else if not (are_bounds bounds)
    then capture_failed (classify (wrap (sentinel unsupported_input)) tool_outcome_not_sent)
    else stop_at (capture_pre_dispatch_context_error a.before) (
        stop_at (failed_read a.after_failure (session_error a))
          (stop_at (capture_context_error a.after_operation) (decode_capture a bounds)))
