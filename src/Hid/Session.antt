-- ===== src/Hid/Session.antt =====
-- internal/jetkvm/hid.go and internal/jetkvm/scheduling.go: the calls of a keyboard and of a mouse
-- operation, and the release that the scheduler makes behind them (finishHID). What the device answers
-- is given as a list, one entry for each call, and nothing more is an answer without an error.
use jetkvm_mcp.Base.{
  ℕ, Bool, true, false, not, ◌&&◌, Option, none, some, List, [], ◌∷◌, is_empty, if◌then◌else◌,
}
use jetkvm_mcp.Errors.{Error, mutation_sequence_error}
use jetkvm_mcp.Hid.Keys.{KeyReport}

pub data HidPressed : Type 0 where
  none_pressed keyboard_pressed mouse_pressed : HidPressed

-- `keyboardReport` with a modifier and keys; `relMouseReport` with both deltas 0 and buttons; other
-- calls of a mouse operation, by a number.
pub data DeviceCall : Type 0 where
  keyboard_report : ℕ → List ℕ → DeviceCall
  mouse_buttons : ℕ → DeviceCall
  mouse_motion : ℕ → DeviceCall

-- The calls sent, newest first, the answers to come, and what is armed.
pub record HidSession : Type 0 where
  pub sent : List DeviceCall
  pub answers : List (Option Error)
  pub pressed : HidPressed

abbrev pub answer_of : List (Option Error) → Option Error
answer_of [] = none
answer_of (a ∷ answers) = a

abbrev pub answers_after : List (Option Error) → List (Option Error)
answers_after [] = []
answers_after (a ∷ answers) = answers

-- `session.Call`: the session afterwards; the error is `answer_of` of the answers before.
unfoldable pub send : DeviceCall → HidSession → HidSession
send c s = record s { sent = c ∷ s.sent; answers = answers_after s.answers }

unfoldable pub arm_hid_neutralization : HidPressed → HidSession → HidSession
arm_hid_neutralization p s = record s { pressed = p }

abbrev pub key_release : DeviceCall
key_release = keyboard_report 0 []

abbrev pub button_release : DeviceCall
button_release = mouse_buttons 0

-- A session and the error that the operation returned.
pub record HidResult : Type 0 where
  pub session : HidSession
  pub error : Option Error

abbrev sequence_error : Error → Bool → HidSession → HidResult
sequence_error e prior s = record { session = s; error = mutation_sequence_error (some e) prior }

abbrev pub key_press : KeyReport → DeviceCall
key_press r = keyboard_report r.modifier (r.usage ∷ [])

-- The body of `Keyboard`, given whether a report went out before.
unfoldable pub type_reports : Bool → List KeyReport → HidSession → HidResult
unfolding send arm_hid_neutralization
type_reports prior [] s = record { session = s; error = none }
type_reports prior (r ∷ rs) s =
    let armed = arm_hid_neutralization keyboard_pressed s in
    let down = send (key_press r) armed in
    let up = send key_release down in
    elim (answer_of armed.answers) [
      | some e ↦ sequence_error e prior down
      | none ↦ elim (answer_of down.answers) [
        | some e ↦ sequence_error e true up
        | none ↦ type_reports true rs (arm_hid_neutralization none_pressed up)
      ]
    ]

-- The body of `Mouse`, given whether it is a click and whether a call went out before.
unfoldable pub move_mouse : Bool → Bool → List DeviceCall → HidSession → HidResult
unfolding send arm_hid_neutralization
move_mouse click prior [] s = record { session = s; error = none }
move_mouse click prior (c ∷ cs) s =
    let armed = if click && not prior then arm_hid_neutralization mouse_pressed s else s in
    let next = send c armed in
    let settled = if click && is_empty cs then arm_hid_neutralization none_pressed next else next in
    elim (answer_of armed.answers) [
      | some e ↦ sequence_error e prior next
      | none ↦ move_mouse click true cs settled
    ]

abbrev released_by : HidPressed → HidSession → HidSession
released_by none_pressed s = s
released_by keyboard_pressed s = send key_release s
released_by mouse_pressed s = send button_release s

-- `finishHID`, given whether the session suppresses the clean-up.
unfoldable pub finish_hid : Bool → HidSession → HidSession
unfolding send
finish_hid suppress s = record (if suppress then s else released_by s.pressed s) {
  pressed = none_pressed;
}

abbrev finished : Bool → HidResult → HidResult
finished suppress r = record r { session = finish_hid suppress r.session }

abbrev pub new_hid_session : List (Option Error) → HidSession
new_hid_session answers = record { sent = []; answers = answers; pressed = none_pressed }

-- An operation under the scheduler, which finishes it whatever it returned.
unfoldable pub keyboard_operation : Bool → List KeyReport → List (Option Error) → HidResult
unfolding type_reports finish_hid
keyboard_operation suppress reports answers =
    finished suppress (type_reports false reports (new_hid_session answers))

unfoldable pub mouse_operation : Bool → Bool → List DeviceCall → List (Option Error) → HidResult
unfolding move_mouse finish_hid
mouse_operation suppress click calls answers =
    finished suppress (move_mouse click false calls (new_hid_session answers))

-- The calls of a click.
abbrev pub click_calls : ℕ → List DeviceCall
click_calls button = mouse_buttons button ∷ mouse_buttons 0 ∷ []
