-- ===== src/Manager/Tests.antt =====
-- internal/jetkvm/manager.go: the theorems about the manager at concrete limits and calls.
use jetkvm_mcp.Base.{some, false, true, none, List, [], ◌∷◌, ◌≡◌, refl}
use jetkvm_mcp.Base.Integers.{pos}
use jetkvm_mcp.Manager.Limits.{
  IsAdmissible, Limits, accepted, normalized, normalized-IsAdmissible, validate_limits,
  with_defaults,
}
use jetkvm_mcp.Manager.Admission.{
  ManagerAction, Capacity, acts, admits, captures_now, finishes, leaves, new_manager, permits,
  prepares,
}
use jetkvm_mcp.Manager.Admission.Exact.{IsExact, acts-IsExact_new}
use jetkvm_mcp.Manager.Admission.Spec.{no_admissions, spec_acts, view}
use jetkvm_mcp.Manager.Admission.Refines.{acts-refines}
use jetkvm_mcp.Errors.{rpc_method_unavailable, sentinel}
use jetkvm_mcp.Manager.Capture.{
  CaptureAnswers, Look, capture_context_error, capture_pre_dispatch_context_error, capture_screen,
  captured, decode_capture, finish_capture,
}
use jetkvm_mcp.Manager.Capture.Answers.{IsAnswer, capture_screen-IsAnswer}
use jetkvm_mcp.Manager.Status.{Probe, Status, StatusAnswers}
use jetkvm_mcp.Manager.Power.{find_target, magic_packet, power_call, power_request, wake_host_lan}

abbrev asked_limits : Limits
asked_limits = record {
  max_operations = pos 10;
  max_operations_per_device = pos 0;
  max_connection_attempts = pos 0;
  max_captures = pos 1;
  max_decoders = pos 0;
  session_idle_timeout = pos 0;
}

abbrev given_limits : Limits
given_limits = record {
  max_operations = pos 10;
  max_operations_per_device = pos 4;
  max_connection_attempts = pos 8;
  max_captures = pos 1;
  max_decoders = pos 2;
  session_idle_timeout = pos 60000000000;
}

asked_limits-accepted : normalized asked_limits ≡ accepted given_limits
unfolding normalized validate_limits with_defaults
asked_limits-accepted = refl

normalized-IsAdmissible_example :
    IsAdmissible asked_limits given_limits
    × (normalized given_limits ≡ accepted given_limits)
    × (validate_limits given_limits ≡ accepted given_limits)
normalized-IsAdmissible_example =
    normalized-IsAdmissible asked_limits given_limits asked_limits-accepted

abbrev small_capacity : Capacity
small_capacity = record { max_operations = 2; max_operations_per_device = 2; max_captures = 1 }

-- Two calls, of which one captures; a lifecycle change is refused, a third call as well; both leave, and
-- the lifecycle change is tried again, while another device's calls have both permits.
abbrev some_steps : List ManagerAction
some_steps =
    admits 0 1 7
    ∷ admits 0 2 7
    ∷ captures_now 1
    ∷ captures_now 2
    ∷ prepares 3 7 none
    ∷ admits 0 4 7
    ∷ finishes 1 none
    ∷ leaves 1
    ∷ leaves 2
    ∷ prepares 5 7 none
    ∷ admits 0 6 7
    ∷ permits 2 5
    ∷ []

acts-IsExact_new_example : IsExact small_capacity 7 (acts small_capacity some_steps new_manager)
acts-IsExact_new_example = acts-IsExact_new small_capacity some_steps 7

acts-refines_example :
    view (acts small_capacity some_steps new_manager)
    ≡ spec_acts small_capacity some_steps no_admissions
acts-refines_example = acts-refines small_capacity some_steps

abbrev quiet_look : Look
quiet_look = record { ended = none; is_server_deadline = false }

abbrev good_capture : CaptureAnswers
good_capture = record {
  has_device = true;
  has_decoder = true;
  request = record { width = pos 0; height = pos 600 };
  before = quiet_look;
  refused = none;
  call_error = none;
  video_ready = some true;
  frame_error = none;
  has_time = true;
  after_failure = quiet_look;
  after_operation = quiet_look;
  has_permit = true;
  is_open = true;
  decode_error = none;
  png_size = 2000;
  decoded = record { width = pos 800; height = pos 600 };
  after_decode_failure = quiet_look;
  after_decode = quiet_look;
  config = some (record { width = pos 800; height = pos 600 });
  after_config = quiet_look;
  at_end = quiet_look;
}

capture_screen-IsAnswer_example : IsAnswer good_capture (capture_screen good_capture)
capture_screen-IsAnswer_example = capture_screen-IsAnswer good_capture

good_capture-captured :
    capture_screen good_capture
    ≡ captured (record { size = record { width = pos 800; height = pos 600 }; png_size = 2000 })
unfolding capture_screen capture_pre_dispatch_context_error capture_context_error decode_capture
    finish_capture
good_capture-captured = refl

abbrev good_probe : Probe
good_probe = record { err = none; ended = false; caller = none; operation = none }

-- The device has an ATX board; its firmware does not tell its version.
abbrev some_answers : StatusAnswers
some_answers = record {
  ping = good_probe;
  pong = "pong";
  ended = false;
  version = record good_probe { err = some (sentinel rpc_method_unavailable) };
  application = "";
  system = "";
  extension = good_probe;
  extension_name = "atx-power";
  media = good_probe;
  media_state = none;
  video = good_probe;
  video_state = record { ready = some true; width = 800; height = 600; fps = 30 };
  usb = good_probe;
  usb_state = "configured";
  atx = good_probe;
  atx_power = some true;
  dc = good_probe;
  dc_on = none;
  dc_voltage = 0;
}

abbrev some_status : Status
some_status = record {
  connected = true;
  warnings = "version unavailable" ∷ [];
  application = "";
  system = "";
  extension = "atx-power";
  virtual_media = some (record { mounted = false; source_type = ""; mode = "" });
  video = some (record { ready = some true; width = 800; height = 600; fps = 30 });
  usb_state = "configured";
  usb_wake_attached = some true;
  atx_power_on = some true;
  dc_power_on = none;
  dc_voltage = 0;
}

wake_request_found :
    power_request
      (("nas", record { mac_address = "00:00:5e:00:53:01"; broadcast_ip = "" }) ∷ [])
      wake_host_lan
      "nas"
    ≡ power_call "sendWOLMagicPacket" (magic_packet "00:00:5e:00:53:01" none)
unfolding power_request find_target
wake_request_found = refl
