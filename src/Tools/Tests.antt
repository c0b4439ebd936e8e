-- ===== src/Tools/Tests.antt =====
-- internal/mcpserver: the theorems about failures and credentials at concrete errors and headers.
use jetkvm_mcp.Base.{ℕ, true, false, some, [], ◌∷◌, ◌≡◌, ◌↔◌, refl}
use jetkvm_mcp.Errors.{Error, as_operation, deadline_exceeded, is, sentinel, wrap}
use jetkvm_mcp.Tools.Failure.{IsReport, tool_error_message, tool_failure, tool_failure-IsReport}
use jetkvm_mcp.Tools.Bearer.{
  Text, bearer_token68_character, drop_spaces, equal_fold, parse_bearer_credential, scan_credential,
  split_space,
}
use jetkvm_mcp.Tools.Bearer.Grammar.{IsBearer, parse_bearer_credential-IsBearer}

-- A write whose context expired, with an error that is not classified.
abbrev late_write : Error
late_write = wrap (sentinel deadline_exceeded)

tool_failure-IsReport_example :
    IsReport (as_operation late_write) true (tool_failure late_write true)
tool_failure-IsReport_example = tool_failure-IsReport late_write true

late_write-reported : tool_failure late_write true ≡ record {
  code = "timeout";
  message = "JetKVM operation timed out";
  outcome = "unknown";
  retryable = false;
}
unfolding tool_failure as_operation is tool_error_message
late_write-reported = refl

-- "BEARER  aZ9="
abbrev some_header : Text
some_header = 66 ∷ 69 ∷ 65 ∷ 82 ∷ 69 ∷ 82 ∷ 32 ∷ 32 ∷ 97 ∷ 90 ∷ 57 ∷ 61 ∷ []

abbrev some_credential : Text
some_credential = 97 ∷ 90 ∷ 57 ∷ 61 ∷ []

parse_bearer_credential-IsBearer_example :
    (parse_bearer_credential (some_header ∷ []) ≡ some some_credential)
    ↔ ((scheme : Text) × (spaces : ℕ) × IsBearer (some_header ∷ []) scheme spaces some_credential)
parse_bearer_credential-IsBearer_example =
    parse_bearer_credential-IsBearer (some_header ∷ []) some_credential

some_header-parsed : parse_bearer_credential (some_header ∷ []) ≡ some some_credential
unfolding parse_bearer_credential split_space equal_fold drop_spaces scan_credential
    bearer_token68_character
some_header-parsed = refl
