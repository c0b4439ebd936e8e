-- ===== src/Errors/Classify.antt =====
-- What a classified error tells the caller: a reviewed code, and a retry only after a clean failure.
use jetkvm_mcp.Base.{true, String, ◌≡◌, refl, eq_iff, arith}
use jetkvm_mcp.Errors.{Error, is, code_of, retry_code, classify, valid_code, tool_error_retryable}

known_codes :
    (valid_code "operation_failed" ≡ true)
    × (valid_code "canceled" ≡ true)
    × (valid_code "timeout" ≡ true)
    × (valid_code "invalid_input" ≡ true)
    × (valid_code "busy" ≡ true)
    × (valid_code "authentication_failed" ≡ true)
    × (valid_code "device_unavailable" ≡ true)
    × (valid_code "video_unavailable" ≡ true)
    × (valid_code "no_signal" ≡ true)
    × (valid_code "protocol_error" ≡ true)
    × (valid_code "session_released" ≡ true)
    × (valid_code "session_taken_over" ≡ true)
    × (valid_code "ownership_uncertain" ≡ true)
unfolding valid_code
known_codes = (refl, refl, refl, refl, refl, refl, refl, refl, refl, refl, refl, refl, refl)

-- Every code that the classifier gives is in the closed set of `toolresult.ValidCode`.
pub code_of-valid : (e : Error) → valid_code (code_of e) ≡ true
unfolding code_of
code_of-valid e = ground (arith, known_codes)

-- A classified error is retryable only if its outcome is `failed` and its code is one of the four
-- transient ones.
pub classify-retryable :
    (e : Error) (outcome : String)
    → tool_error_retryable (classify e outcome) ≡ true
    → (outcome ≡ "failed") × (retry_code (code_of e) ≡ true)
unfolding classify
classify-retryable e outcome h = ground (arith, eq_iff outcome "failed")

-- Classifying again keeps the code: the cause is still found under the new wrapper.
pub code_of-classify : (e : Error) (outcome : String) → code_of (classify e outcome) ≡ code_of e
unfolding classify code_of is
code_of-classify e outcome = refl
