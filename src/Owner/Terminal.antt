-- ===== src/Owner/Terminal.antt =====
-- internal/jetkvm/device_owner.go: the error of an operation whose session has ended
-- (classifyTerminalCompletion).
use jetkvm_mcp.Base.{
  Bool, true, false, not, ◌&&◌, ◌||◌, Option, none, some, String, str_eq, ◌≡◌, if◌then◌else◌, arith,
  Bool-cases, inl, inr, ◌⊎◌, ◌∙◌, ap,
}
use jetkvm_mcp.Errors.{
  Error, Sentinel, as_operation, canceled, classify_operation_error, is, operation,
  ownership_uncertain, sentinel, session_closed, session_taken_over, tool_outcome_failed,
  tool_outcome_not_sent, tool_outcome_unknown,
}
use jetkvm_mcp.Owner.State.{OperationClass, hid, mutation, ordinary}

-- What the code reads of the session and of the generation as the operation returns: whether the
-- session is a ConnectedSession with a Done channel, which channels are closed, and whether a takeover
-- was recognized.
pub record TerminalSignals : Type 0 where
  pub connected : Bool
  pub session_done : Bool
  pub generation_done : Bool
  pub recognized_takeover : Bool

abbrev outcome_of : Option Error → String → Bool
outcome_of (some (operation e code outcome retryable)) wanted = str_eq outcome wanted
outcome_of _ wanted = false

-- Whether the error is an OperationError with an outcome.
unfoldable pub has_outcome : Error → String → Bool
has_outcome e wanted = outcome_of (as_operation e) wanted

abbrev pub is_mutating : OperationClass → Bool
is_mutating ordinary = false
is_mutating mutation = true
is_mutating hid = true

abbrev pub is_terminal : TerminalSignals → Bool
is_terminal s = s.connected && (s.session_done || s.generation_done)

unfoldable pub terminal_outcome : OperationClass → Error → String
terminal_outcome class e =
    if has_outcome e tool_outcome_not_sent
    then tool_outcome_not_sent
    else if is_mutating class
    then tool_outcome_unknown
    else tool_outcome_failed

unfoldable pub classify_terminal_completion :
    TerminalSignals → OperationClass → Option Error → Option Error
classify_terminal_completion s class none = none
classify_terminal_completion s class (some e) =
    let reason = if s.recognized_takeover then session_taken_over else ownership_uncertain in
    if not (is_terminal s)
    then some e
    else if has_outcome e tool_outcome_failed && not (is e session_closed) && not (is e canceled)
    then some e
    else classify_operation_error (some (sentinel reason)) (terminal_outcome class e)

classify_operation_error-has_outcome :
    (t : Sentinel) (outcome wanted : String) (r : Error)
    → classify_operation_error (some (sentinel t)) outcome ≡ some r
    → has_outcome r wanted ≡ str_eq outcome wanted
unfolding has_outcome classify_operation_error as_operation
classify_operation_error-has_outcome t outcome wanted r h = ground arith

terminal_outcome-cases :
    (class : OperationClass) (e : Error)
    → is_mutating class ≡ true
    → (terminal_outcome class e ≡ tool_outcome_unknown)
      ⊎ ((terminal_outcome class e ≡ tool_outcome_not_sent) × (has_outcome e "not_sent" ≡ true))
unfolding terminal_outcome
terminal_outcome-cases class e m = elim (Bool-cases (has_outcome e "not_sent")) [
  | inl n ↦ inr (ground arith, n)
  | inr n ↦ inl (ground arith)
]

-- A mutation or a HID operation whose session has ended reports its own error, which it had classified
-- as failed, or that it was not sent, as it had classified it, or an unknown outcome: it does not claim
-- a clean failure, or that nothing was sent, on the ground of the end alone.
pub classify_terminal_completion-honest :
    (s : TerminalSignals) (class : OperationClass) (e r : Error)
    → is_mutating class ≡ true
    → is_terminal s ≡ true
    → classify_terminal_completion s class (some e) ≡ some r
    → ((r ≡ e) × (has_outcome e "failed" ≡ true))
      ⊎ (((has_outcome r "not_sent" ≡ true) × (has_outcome e "not_sent" ≡ true))
          ⊎ (has_outcome r "unknown" ≡ true))
unfolding classify_terminal_completion
classify_terminal_completion-honest s class e r m t h =
    let reason = if s.recognized_takeover then session_taken_over else ownership_uncertain in
    elim (Bool-cases (has_outcome e "failed" && not (is e session_closed) && not (is e canceled))) [
      | inl f ↦ inl (ground arith, ground arith)
      | inr f ↦
          let o = terminal_outcome class e in
          let q : classify_operation_error (some (sentinel reason)) o ≡ some r = ground arith in
          elim (terminal_outcome-cases class e m) [
            | inr (n, x) ↦
                let y = classify_operation_error-has_outcome reason o "not_sent" r q in
                inr (inl (y ∙ ap (λ w. str_eq w "not_sent") n, x))
            | inl n ↦
                let y = classify_operation_error-has_outcome reason o "unknown" r q in
                inr (inr (y ∙ ap (λ w. str_eq w "unknown") n))
          ]
    ]
