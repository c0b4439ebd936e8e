-- ===== src/Hid/Tests.antt =====
-- internal/jetkvm/hid.go and internal/jetkvm/scheduling.go: the theorems about reports at a concrete
-- text.
use jetkvm_mcp.Base.{ℕ, true, false, Option, none, some, List, [], ◌∷◌, ◌≡◌, refl, is_some}
use jetkvm_mcp.Base.Assoc.{lookup}
use jetkvm_mcp.Errors.{Error, foreign}
use jetkvm_mcp.Hid.Keys.{KeyReport, index_byte, keyboard_report_for_byte, reports_of_bytes}
use jetkvm_mcp.Hid.Layout.{
  is_supported, keyboard_report_for_byte-supported, reports_of_bytes-typed, typed_bytes,
  unified_text,
}
use jetkvm_mcp.Hid.Session.{
  arm_hid_neutralization, click_calls, finish_hid, keyboard_operation, mouse_operation, send,
  type_reports,
}
use jetkvm_mcp.Hid.Release.{
  buttons_up, keyboard_operation-keys_up, keyboard_operation-sent, keys_up,
  mouse_operation-buttons_up, typed_calls,
}

-- "A!", and its reports.
abbrev short_text : List ℕ
short_text = 65 ∷ 33 ∷ []

abbrev short_reports : List KeyReport
short_reports = record { modifier = 2; usage = 4 } ∷ record { modifier = 2; usage = 30 } ∷ []

short_text-reports : reports_of_bytes short_text ≡ some short_reports
unfolding reports_of_bytes keyboard_report_for_byte index_byte lookup
short_text-reports = refl

reports_of_bytes-typed_example : typed_bytes short_reports ≡ unified_text short_text
reports_of_bytes-typed_example = reports_of_bytes-typed short_text short_reports short_text-reports

keyboard_report_for_byte-supported_example :
    is_some (keyboard_report_for_byte 126) ≡ is_supported 126
keyboard_report_for_byte-supported_example = keyboard_report_for_byte-supported 126

-- The device refuses the first release.
abbrev refused : List (Option Error)
refused = none ∷ some (foreign 1) ∷ []

keyboard_operation-keys_up_example :
    keys_up (keyboard_operation false short_reports refused).session.sent ≡ true
keyboard_operation-keys_up_example = keyboard_operation-keys_up short_reports refused

mouse_operation-buttons_up_example :
    buttons_up (mouse_operation false true (click_calls 1) refused).session.sent ≡ true
mouse_operation-buttons_up_example = mouse_operation-buttons_up 1 refused

short_text-error : (keyboard_operation false short_reports []).error ≡ none
unfolding keyboard_operation type_reports finish_hid send arm_hid_neutralization
short_text-error = refl

keyboard_operation-sent_example :
    (keyboard_operation false short_reports []).session.sent ≡ typed_calls short_reports []
keyboard_operation-sent_example = keyboard_operation-sent false short_reports [] short_text-error
