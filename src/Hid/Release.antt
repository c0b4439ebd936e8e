-- ===== src/Hid/Release.antt =====
-- internal/jetkvm/hid.go and internal/jetkvm/scheduling.go: nothing stays pressed behind an operation.
use jetkvm_mcp.Base.{
  ℕ, Bool, true, false, ◌&&◌, ◌||◌, Option, none, some, List, [], ◌∷◌, ◌≡◌, refl, ◌==◌, is_empty,
  is_some, arith, Option-cases, inl, inr,
}
use jetkvm_mcp.Errors.{Error, classify_operation_error, mutation_sequence_error}
use jetkvm_mcp.Hid.Keys.{KeyReport}
use jetkvm_mcp.Hid.Session.{
  DeviceCall, HidPressed, HidSession, answer_of, arm_hid_neutralization, click_calls, finish_hid,
  key_press, key_release, keyboard_operation, keyboard_pressed, keyboard_report, mouse_buttons,
  mouse_motion, mouse_operation, move_mouse, new_hid_session, none_pressed, send, type_reports,
}

-- Whether the last keyboard report, and the last report of buttons, of the calls sent, newest first,
-- is a release, or there is none.
unfoldable pub keys_up : List DeviceCall → Bool
keys_up [] = true
keys_up (keyboard_report m ks ∷ cs) = m == 0 && is_empty ks
keys_up (mouse_buttons b ∷ cs) = keys_up cs
keys_up (mouse_motion n ∷ cs) = keys_up cs

unfoldable pub buttons_up : List DeviceCall → Bool
buttons_up [] = true
buttons_up (mouse_buttons b ∷ cs) = b == 0
buttons_up (keyboard_report m ks ∷ cs) = buttons_up cs
buttons_up (mouse_motion n ∷ cs) = buttons_up cs

abbrev is_keyboard : HidPressed → Bool
is_keyboard keyboard_pressed = true
is_keyboard _ = false

abbrev IsArmed : HidSession → Type 0
IsArmed s = (keys_up s.sent || is_keyboard s.pressed) ≡ true

type_reports-IsArmed :
    (prior : Bool) (rs : List KeyReport) (s : HidSession)
    → IsArmed s
    → IsArmed (type_reports prior rs s).session
unfolding type_reports keys_up send arm_hid_neutralization
type_reports-IsArmed prior [] s h = h
type_reports-IsArmed prior (r ∷ rs) s h =
    let armed = arm_hid_neutralization keyboard_pressed s in
    let down = send (key_press r) armed in
    let up = arm_hid_neutralization none_pressed (send key_release down) in
    ground (
      arith,
      Option-cases (answer_of armed.answers),
      Option-cases (answer_of down.answers),
      type_reports-IsArmed true rs up,
    )

-- Whatever the device answers, on success and on every error, the last keyboard report that a keyboard
-- operation sends is a release, unless it sends none or the session suppresses the clean-up.
pub keyboard_operation-keys_up :
    (reports : List KeyReport) (answers : List (Option Error))
    → keys_up (keyboard_operation false reports answers).session.sent ≡ true
unfolding keyboard_operation finish_hid send keys_up
keyboard_operation-keys_up reports answers =
    let start = new_hid_session answers in ground (arith, type_reports-IsArmed false reports start)

-- So it is with the buttons of a click.
pub mouse_operation-buttons_up :
    (button : ℕ) (answers : List (Option Error))
    → buttons_up (mouse_operation false true (click_calls button) answers).session.sent ≡ true
unfolding mouse_operation move_mouse finish_hid send arm_hid_neutralization buttons_up
mouse_operation-buttons_up button answers = ground (arith, Option-cases (answer_of answers))

-- The calls of a text, newest first, before those that were sent.
unfoldable pub typed_calls : List KeyReport → List DeviceCall → List DeviceCall
typed_calls [] sent = sent
typed_calls (r ∷ rs) sent = typed_calls rs (key_release ∷ key_press r ∷ sent)

mutation_sequence_error-is_some :
    (e : Error) (prior : Bool) → is_some (mutation_sequence_error (some e) prior) ≡ true
unfolding mutation_sequence_error classify_operation_error
mutation_sequence_error-is_some e prior = ground arith

type_reports-sent :
    (prior : Bool) (rs : List KeyReport) (s : HidSession)
    → s.pressed ≡ none_pressed
    → (type_reports prior rs s).error ≡ none
    → ((type_reports prior rs s).session.sent ≡ typed_calls rs s.sent)
      × ((type_reports prior rs s).session.pressed ≡ none_pressed)
unfolding type_reports typed_calls send arm_hid_neutralization
type_reports-sent prior [] s p h = (refl, p)
type_reports-sent prior (r ∷ rs) s p h =
    let armed = arm_hid_neutralization keyboard_pressed s in
    let down = send (key_press r) armed in
    let up = arm_hid_neutralization none_pressed (send key_release down) in
    elim (Option-cases (answer_of armed.answers)) [
      | inr (e, x) ↦ absurd (ground (arith, mutation_sequence_error-is_some e prior))
      | inl x ↦ elim (Option-cases (answer_of down.answers)) [
        | inr (e, y) ↦ absurd (ground (arith, mutation_sequence_error-is_some e true))
        | inl y ↦ ground (arith, type_reports-sent true rs up refl)
      ]
    ]

-- A keyboard operation that returns no error has sent, in order, the press and the release of each
-- report, and nothing else; suppressed or not.
pub keyboard_operation-sent :
    (suppress : Bool) (reports : List KeyReport) (answers : List (Option Error))
    → (keyboard_operation suppress reports answers).error ≡ none
    → (keyboard_operation suppress reports answers).session.sent ≡ typed_calls reports []
unfolding keyboard_operation finish_hid
keyboard_operation-sent suppress reports answers h =
    let start = new_hid_session answers in
    ground (arith, type_reports-sent false reports start refl h)
