-- ===== src/Tools/Failure.antt =====
-- internal/mcpserver/errors.go: the failure that a tool reports for an error. An error with the three
-- methods of classifiedToolError is an `operation`, localToolError included.
use jetkvm_mcp.Base.{
  Bool, true, false, not, ◌&&◌, ◌||◌, Option, none, some, ◌≡◌, ◌⊎◌, refl, sym, ap, ◌∙◌, inl, inr,
  arith, String, str_eq, is_some, if◌then◌else◌,
}
use jetkvm_mcp.Errors.{
  Error, as_operation, canceled, deadline_exceeded, foreign, is, operation, sentinel,
  tool_error_outcome, valid_code, valid_outcome, wrap,
}

pub record ToolError : Type 0 where
  pub code : String
  pub message : String
  pub outcome : String
  pub retryable : Bool

unfoldable pub tool_error_message : String → String
tool_error_message code =
    if str_eq code "canceled"
    then "JetKVM operation was canceled"
    else if str_eq code "timeout"
    then "JetKVM operation timed out"
    else if str_eq code "invalid_input"
    then "JetKVM input is invalid"
    else if str_eq code "busy"
    then "JetKVM operation is busy"
    else if str_eq code "authentication_failed"
    then "JetKVM authentication failed"
    else if str_eq code "device_unavailable"
    then "JetKVM device is unavailable"
    else if str_eq code "video_unavailable"
    then "JetKVM video is unavailable"
    else if str_eq code "no_signal"
    then "JetKVM video signal is unavailable"
    else if str_eq code "protocol_error"
    then "JetKVM protocol operation failed"
    else if str_eq code "session_released"
    then "JetKVM session was explicitly released"
    else if str_eq code "session_taken_over"
    then "JetKVM session was taken over"
    else if str_eq code "ownership_uncertain"
    then "JetKVM session ownership is uncertain"
    else "JetKVM operation failed"

-- `invalidInput`, of an error that is not nil.
unfoldable pub invalid_input : Error → Error
invalid_input e = operation (wrap e) "invalid_input" "not_sent" false

abbrev pub general_failure : ToolError
general_failure = record {
  code = "operation_failed";
  message = "JetKVM operation failed";
  outcome = "failed";
  retryable = false;
}

-- The codes that a read may try again.
abbrev pub is_transient : String → Bool
is_transient code =
    str_eq code "timeout"
    || str_eq code "canceled"
    || str_eq code "device_unavailable"
    || str_eq code "no_signal"

abbrev pub reported_failure : String → String → Bool → Bool → ToolError
reported_failure code outcome retryable mutation =
    if valid_code code && valid_outcome outcome
    then record general_failure { code = code; outcome = outcome; retryable = retryable }
    else if mutation
    then record general_failure { outcome = "unknown" }
    else general_failure

abbrev pub context_failure : Error → Bool → ToolError
context_failure e mutation =
    if is e canceled
    then record general_failure { code = "canceled"; retryable = not mutation }
    else if is e deadline_exceeded
    then record general_failure { code = "timeout"; retryable = not mutation }
    else general_failure

abbrev pub first_failure : Error → Bool → Option Error → ToolError
first_failure e mutation (some (operation cause code outcome retryable)) =
    reported_failure code outcome retryable mutation
first_failure e mutation _ = context_failure e mutation

-- The second half, which settles the outcome and the retry.
abbrev pub settled_failure : Bool → Bool → ToolError → ToolError
settled_failure classified mutation f =
    if mutation
    then record f { outcome = if classified then f.outcome else "unknown"; retryable = false }
    else if not (str_eq f.outcome "not_sent") && is_transient f.code
    then record f { outcome = "failed"; retryable = true }
    else f

abbrev pub with_message : ToolError → ToolError
with_message f = record f { message = tool_error_message f.code }

unfoldable pub tool_failure : Error → Bool → ToolError
tool_failure e mutation =
    let classified = as_operation e in
    with_message
      (settled_failure (is_some classified) mutation (first_failure e mutation classified))

-- What a caller may rely on, where `found` is what errors.As finds of the error.
pub record IsReport (found : Option Error) (mutation : Bool) (f : ToolError) : Type 0 where
  pub code : valid_code f.code ≡ true
  pub outcome : valid_outcome f.outcome ≡ true
  pub message : f.message ≡ tool_error_message f.code
  pub no_retry : (mutation ≡ false) ⊎ (f.retryable ≡ false)
  pub uncertain : (mutation ≡ false) ⊎ (is_some found ≡ true) ⊎ (f.outcome ≡ "unknown")
  pub not_sent :
      (str_eq f.outcome "not_sent" ≡ false)
      ⊎ ((o : Error) × (found ≡ some o) × (tool_error_outcome o ≡ some f.outcome))

known_codes :
    (valid_code "operation_failed" ≡ true)
    × (valid_code "canceled" ≡ true)
    × (valid_code "timeout" ≡ true)
    × (valid_outcome "failed" ≡ true)
    × (valid_outcome "unknown" ≡ true)
unfolding valid_code valid_outcome
known_codes = (refl, refl, refl, refl, refl)

-- The outcomes that are not from an error that is classified.
abbrev IsOwn : String → Type 0
IsOwn outcome = (outcome ≡ "unknown") ⊎ (outcome ≡ "failed")

IsOwn-str_eq : (x : String) → IsOwn x → str_eq x "not_sent" ≡ false
IsOwn-str_eq x (inl e) = ap (λ y. str_eq y "not_sent") e
IsOwn-str_eq x (inr e) = ap (λ y. str_eq y "not_sent") e

context_failure-outcome : (e : Error) (m : Bool) → (context_failure e m).outcome ≡ "failed"
context_failure-outcome e m = ground arith

context_failure-code : (e : Error) (m : Bool) → valid_code (context_failure e m).code ≡ true
context_failure-code e m = ground (arith, known_codes)

reported_failure-outcome :
    (code outcome : String) (r m : Bool)
    → ((reported_failure code outcome r m).outcome ≡ outcome)
      ⊎ IsOwn (reported_failure code outcome r m).outcome
reported_failure-outcome code outcome r m = ground arith

settled_failure-outcome :
    (c m : Bool) (f : ToolError)
    → ((settled_failure c m f).outcome ≡ f.outcome) ⊎ IsOwn (settled_failure c m f).outcome
settled_failure-outcome c m f = ground arith

-- What the second half keeps of the first.
settled_failure-valid :
    (c m : Bool) (f : ToolError)
    → valid_code f.code ≡ true
    → valid_outcome f.outcome ≡ true
    → (valid_code (settled_failure c m f).code ≡ true)
      × (valid_outcome (settled_failure c m f).outcome ≡ true)
      × ((m ≡ false) ⊎ ((settled_failure c m f).retryable ≡ false))
      × ((m ≡ false) ⊎ (c ≡ true) ⊎ ((settled_failure c m f).outcome ≡ "unknown"))
settled_failure-valid c m f h i = ground (arith, known_codes)

settled-IsReport :
    (found : Option Error) (m : Bool) (f : ToolError)
    → valid_code f.code ≡ true
    → valid_outcome f.outcome ≡ true
    → IsOwn f.outcome ⊎ ((o : Error) × (found ≡ some o) × (tool_error_outcome o ≡ some f.outcome))
    → IsReport found m (with_message (settled_failure (is_some found) m f))
settled-IsReport found m f h i n =
    let v = settled_failure-valid (is_some found) m f h i in
    record {
      code = v.0;
      outcome = v.1;
      message = refl;
      no_retry = v.2;
      uncertain = v.3;
      not_sent = elim (settled_failure-outcome (is_some found) m f) [
        | inl e ↦ elim n [
          | inl own ↦ inl (ap (λ y. str_eq y "not_sent") e ∙ IsOwn-str_eq f.outcome own)
          | inr (o, q, t) ↦ inr (o, q, t ∙ ap some (sym e))
        ]
        | inr own ↦ inl (IsOwn-str_eq (settled_failure (is_some found) m f).outcome own)
      ];
    }

context-IsReport :
    (found : Option Error) (e : Error) (m : Bool)
    → IsReport found m (with_message (settled_failure (is_some found) m (context_failure e m)))
context-IsReport found e m =
    settled-IsReport found m (context_failure e m) (context_failure-code e m)
      (ap valid_outcome (context_failure-outcome e m) ∙ known_codes.3)
      (inl (inr (context_failure-outcome e m)))

abbrev failure_of : Error → Bool → Option Error → ToolError
failure_of e mutation found =
    with_message (settled_failure (is_some found) mutation (first_failure e mutation found))

failure_of-IsReport :
    (e : Error) (mutation : Bool) (found : Option Error)
    → IsReport found mutation (failure_of e mutation found)
failure_of-IsReport e mutation none = context-IsReport none e mutation
failure_of-IsReport e mutation (some (operation c code outcome r)) =
    settled-IsReport (some (operation c code outcome r)) mutation
      (reported_failure code outcome r mutation) (ground (arith, known_codes))
      (ground (arith, known_codes))
      (elim (reported_failure-outcome code outcome r mutation) [
        | inl e ↦ inr (operation c code outcome r, refl, ap some (sym e))
        | inr own ↦ inl own
      ])
failure_of-IsReport e mutation (some (sentinel t)) = context-IsReport (some (sentinel t)) e mutation
failure_of-IsReport e mutation (some (wrap f)) = context-IsReport (some (wrap f)) e mutation
failure_of-IsReport e mutation (some (foreign n)) = context-IsReport (some (foreign n)) e mutation

-- Whatever the error, a failure has a code and an outcome of the closed sets, and the fixed message of its
-- code; a mutation is never to be tried again, and has the outcome `unknown` where its error is
-- not classified; and `not_sent` is said only where the error says it.
pub tool_failure-IsReport :
    (e : Error) (mutation : Bool) → IsReport (as_operation e) mutation (tool_failure e mutation)
unfolding tool_failure
tool_failure-IsReport e mutation = failure_of-IsReport e mutation (as_operation e)
