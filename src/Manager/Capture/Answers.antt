-- ===== src/Manager/Capture/Answers.antt =====
-- internal/jetkvm/capture.go: what a capture answers, on every path.
use jetkvm_mcp.Base.{
  ℕ, ◌≤◌, Bool, true, false, not, ◌||◌, Option, none, some, ◌≡◌, refl, inl, inr, arith, String,
  ◌==◌, ltb, is_some, if◌then◌else◌, Option-cases,
}
use jetkvm_mcp.Base.Integers.{ℤ, amount, within}
use jetkvm_mcp.Errors.{
  Error, as_operation, classify, classify_operation_error, classify_read_failure, busy,
  deadline_exceeded, decoder_unavailable, invalid_response, sentinel, session_closed,
  unknown_device, unsupported_input, wrap, tool_outcome_failed, tool_outcome_not_sent,
}
use jetkvm_mcp.Manager.Capture.{
  size_agrees, fits_in, max_capture_png_bytes, CaptureAnswers, CaptureResult, Image, Look, Size,
  are_bounds, bounds_of, capture_context_error, capture_failed, capture_pre_dispatch_context_error,
  capture_screen, captured, cause_of, classify_capture_read_failure, decode_capture, failed_read,
  finish_capture, or_error, read_failure, session_error, stop_at,
}

-- An error that tells the caller its code and its outcome.
abbrev pub IsClassified : Error → Type 0
IsClassified e = is_some (as_operation e) ≡ true

pub record IsBounded (a : CaptureAnswers) (i : Image) : Type 0 where
  pub width :
      (1 ≤ amount i.size.width)
      × (amount i.size.width ≤ amount (bounds_of a.request).width)
      × (amount (bounds_of a.request).width ≤ 3840)
  pub height :
      (1 ≤ amount i.size.height)
      × (amount i.size.height ≤ amount (bounds_of a.request).height)
      × (amount (bounds_of a.request).height ≤ 2160)
  pub bytes : (1 ≤ i.png_size) × (i.png_size ≤ 33554432)
  pub png : a.config ≡ some i.size
  pub dated : a.has_time ≡ true

-- A failure is classified, and an image is bounded.
unfoldable pub IsAnswer : CaptureAnswers → CaptureResult → Type 0
IsAnswer a (capture_failed e) = IsClassified e
IsAnswer a (captured i) = IsBounded a i

classify-IsClassified : (e : Error) (outcome : String) → IsClassified (classify e outcome)
unfolding classify as_operation
classify-IsClassified e outcome = refl

read_failure-IsClassified : (e : Error) → IsClassified (read_failure e)
unfolding classify_read_failure classify_operation_error
read_failure-IsClassified e = ground (arith, classify-IsClassified e tool_outcome_failed)

context_error-IsClassified :
    (c : Look) (e : Error) → capture_context_error c ≡ some e → IsClassified e
unfolding capture_context_error
context_error-IsClassified c e h = elim (Option-cases c.ended) [
  | inl q ↦ ground arith
  | inr (s, q) ↦ ground (
    arith,
    read_failure-IsClassified (sentinel deadline_exceeded),
    read_failure-IsClassified (sentinel s),
  )
]

pre_dispatch-IsClassified :
    (c : Look) (e : Error) → capture_pre_dispatch_context_error c ≡ some e → IsClassified e
unfolding capture_pre_dispatch_context_error
pre_dispatch-IsClassified c e h = elim (Option-cases c.ended) [
  | inl q ↦ ground arith
  | inr (s, q) ↦ ground (
    arith,
    read_failure-IsClassified (sentinel deadline_exceeded),
    classify-IsClassified (sentinel s) tool_outcome_not_sent,
  )
]

context_error-cases :
    (c : Look) (e : Error) → IsClassified e → IsClassified (or_error e (capture_context_error c))
context_error-cases c e i = elim (Option-cases (capture_context_error c)) [
  | inl q ↦ ground arith
  | inr (f, q) ↦ ground (arith, context_error-IsClassified c f)
]

pub classify_capture_read_failure-IsClassified :
    (c : Look) (e : Error) → IsClassified (classify_capture_read_failure c e)
unfolding classify_capture_read_failure
classify_capture_read_failure-IsClassified c e = elim (Option-cases (as_operation e)) [
  | inl q ↦ ground (arith, context_error-cases c (read_failure e), read_failure-IsClassified e)
  | inr (o, q) ↦ elim (Option-cases c.ended) [
    | inl n ↦ ground (arith, classify-IsClassified (cause_of o) tool_outcome_failed)
    | inr (s, n) ↦ ground (
      arith,
      classify-IsClassified (cause_of o) tool_outcome_failed,
      classify-IsClassified (sentinel s) tool_outcome_not_sent,
      read_failure-IsClassified (sentinel deadline_exceeded),
      context_error-cases c e,
    )
  ]
]

module _ (a : CaptureAnswers) where
  stop_at-IsAnswer :
      (o : Option Error) (r : CaptureResult)
      → ((e : Error) → o ≡ some e → IsClassified e)
      → IsAnswer a r
      → IsAnswer a (stop_at o r)
  unfolding IsAnswer
  stop_at-IsAnswer none r c i = i
  stop_at-IsAnswer (some e) r c i = c e refl

  if-IsAnswer :
      (b : Bool) (r s : CaptureResult)
      → IsAnswer a r
      → (b ≡ false → IsAnswer a s)
      → IsAnswer a (if b then r else s)
  if-IsAnswer true r s i j = i
  if-IsAnswer false r s i j = j refl

  size_agrees-eq : (s : Size) (o : Option Size) → size_agrees s o ≡ true → o ≡ some s
  size_agrees-eq s none h = absurd (cc)
  size_agrees-eq s (some t) h = ground arith

  refuses : (e : Error) → IsAnswer a (capture_failed (read_failure e))
  unfolding IsAnswer
  refuses e = read_failure-IsClassified e

  not_sent : (e : Error) → IsAnswer a (capture_failed (classify e tool_outcome_not_sent))
  unfolding IsAnswer
  not_sent e = classify-IsClassified e tool_outcome_not_sent

  fits_in-amount :
      (bound i : ℤ) → fits_in bound i ≡ true → (1 ≤ amount i) × (amount i ≤ amount bound)
  fits_in-amount bound i h = ground arith

  within-amount : (n : ℕ) (i : ℤ) → within 1 n i ≡ true → amount i ≤ n
  within-amount n i h = ground arith

  finished-IsBounded :
      are_bounds (bounds_of a.request) ≡ true
      → (a.png_size == 0
          || ltb max_capture_png_bytes a.png_size
          || not (fits_in (bounds_of a.request).width a.decoded.width)
          || not (fits_in (bounds_of a.request).height a.decoded.height)
          || not a.has_time)
        ≡ false
      → not (size_agrees a.decoded a.config) ≡ false
      → IsAnswer a (captured (record { size = a.decoded; png_size = a.png_size }))
  unfolding IsAnswer
  finished-IsBounded b h g = ground (
    arith,
    fits_in-amount (bounds_of a.request).width a.decoded.width,
    fits_in-amount (bounds_of a.request).height a.decoded.height,
    within-amount 3840 (bounds_of a.request).width,
    within-amount 2160 (bounds_of a.request).height,
    size_agrees-eq a.decoded a.config,
  )

  failed_read-IsClassified :
      (c : Look) (o : Option Error) (e : Error) → failed_read c o ≡ some e → IsClassified e
  failed_read-IsClassified c none e h = absurd (cc)
  failed_read-IsClassified c (some f) e h =
      ground (arith, classify_capture_read_failure-IsClassified c f)

  finish_capture-IsAnswer :
      are_bounds (bounds_of a.request) ≡ true → IsAnswer a (finish_capture a (bounds_of a.request))
  unfolding finish_capture
  finish_capture-IsAnswer b = if-IsAnswer _ _ _ (refuses (sentinel invalid_response)) (λ h.
      stop_at-IsAnswer _ _ (context_error-IsClassified a.after_config) (
        if-IsAnswer _ _ _ (refuses (sentinel invalid_response)) (λ g.
          stop_at-IsAnswer _ _ (context_error-IsClassified a.at_end) (finished-IsBounded b h g))))

  decode_capture-IsAnswer :
      are_bounds (bounds_of a.request) ≡ true → IsAnswer a (decode_capture a (bounds_of a.request))
  unfolding decode_capture
  decode_capture-IsAnswer b = if-IsAnswer (not a.has_permit) _ _ (refuses (sentinel busy)) (λ _.
      if-IsAnswer (not a.is_open) _ _ (refuses (sentinel session_closed)) (λ _.
        stop_at-IsAnswer _ _ (failed_read-IsClassified a.after_decode_failure a.decode_error) (
          stop_at-IsAnswer _ _ (context_error-IsClassified a.after_decode)
            (finish_capture-IsAnswer b))))

  bounds-IsAnswer : IsAnswer a (
      if not (are_bounds (bounds_of a.request))
      then capture_failed (classify (wrap (sentinel unsupported_input)) tool_outcome_not_sent)
      else stop_at (capture_pre_dispatch_context_error a.before) (
          stop_at (failed_read a.after_failure (session_error a)) (
            stop_at
              (capture_context_error a.after_operation)
              (decode_capture a (bounds_of a.request)))))
  bounds-IsAnswer = if-IsAnswer _ _ _ (not_sent (wrap (sentinel unsupported_input))) (λ b.
      stop_at-IsAnswer _ _ (pre_dispatch-IsClassified a.before) (
        stop_at-IsAnswer _ _ (failed_read-IsClassified a.after_failure (session_error a)) (
          stop_at-IsAnswer _ _ (context_error-IsClassified a.after_operation)
            (decode_capture-IsAnswer (ground arith)))))

-- Whatever the device, the decoder and the contexts answer, a capture ends in one of two ways: with an
-- error that is classified, or with an image of 1 byte to 32 MiB, as wide and as high as its PNG
-- header says, at least 1 and at most the bounds that were asked for, which are at most 3840 and 2160,
-- of a frame that has a time.
pub capture_screen-IsAnswer : (a : CaptureAnswers) → IsAnswer a (capture_screen a)
unfolding capture_screen
capture_screen-IsAnswer a =
    if-IsAnswer a (not a.has_device) _ _ (not_sent a (wrap (sentinel unknown_device))) (λ _.
      if-IsAnswer a (not a.has_decoder) _ _ (refuses a (sentinel decoder_unavailable))
        (λ _. bounds-IsAnswer a))
