-- ===== src/Manager/Status.antt =====
-- internal/jetkvm/manager.go: Status, as its probes in their order, and Power. What the session and the
-- contexts answer is a record.
pub mod Probes
use jetkvm_mcp.Base.{
  ℕ, Bool, true, false, not, ◌&&◌, ◌||◌, Option, none, some, List, [], ◌∷◌, ◌++◌, String, str_eq,
  is_some, if◌then◌else◌,
}
use jetkvm_mcp.Errors.{
  Error, Sentinel, classify, classify_read_failure, foreign, invalid_response, is, sentinel,
  session_closed, tool_outcome_not_sent, unknown_wake_target, wrap,
}
use jetkvm_mcp.Media.Modes.{
  FirmwareState, MediaState, StateResult, public_virtual_media_state, state_failed, state_of,
}

-- A call of a probe: its error, and what is seen behind it: whether the generation has ended, and the
-- errors of the caller's and the operation's context.
pub record Probe : Type 0 where
  pub err : Option Error
  pub ended : Bool
  pub caller : Option Sentinel
  pub operation : Option Sentinel

pub record VideoState : Type 0 where
  pub ready : Option Bool
  pub width : ℕ
  pub height : ℕ
  pub fps : ℕ

-- `mcpserver.Status`, without the device's name.
pub record Status : Type 0 where
  pub connected : Bool
  pub warnings : List String
  pub application : String
  pub system : String
  pub extension : String
  pub virtual_media : Option MediaState
  pub video : Option VideoState
  pub usb_state : String
  pub usb_wake_attached : Option Bool
  pub atx_power_on : Option Bool
  pub dc_power_on : Option Bool
  pub dc_voltage : ℕ

pub record StatusAnswers : Type 0 where
  pub ping : Probe
  pub pong : String
  -- the generation has ended when the pong is known
  pub ended : Bool
  pub version : Probe
  pub application : String
  pub system : String
  pub extension : Probe
  pub extension_name : String
  pub media : Probe
  pub media_state : Option FirmwareState
  pub video : Probe
  pub video_state : VideoState
  pub usb : Probe
  pub usb_state : String
  pub atx : Probe
  pub atx_power : Option Bool
  pub dc : Probe
  pub dc_on : Option Bool
  pub dc_voltage : ℕ

pub data StatusResult : Type 0 where
  status_failed : Error → StatusResult
  status_done : Status → StatusResult

-- statusContextError
abbrev pub status_context_error : Probe → Option Sentinel
status_context_error p = if is_some p.caller then p.caller else p.operation

abbrev pub warn : String → Status → Status
warn w s = record s { warnings = s.warnings ++ (w ∷ []) }

abbrev pub ended_error : Option Error → Error
ended_error none = sentinel session_closed
ended_error (some e) = e

-- The error that is returned for a context that is over.
abbrev pub over_error : Option Error → Sentinel → Error
over_error none c = sentinel c
over_error (some e) c = if is e c then e else sentinel c

-- `statusProbeResult`, and what the status takes from a probe that did not fail.
abbrev pub taken : Option Error → String → (Status → Status) → Status → Status
taken none w update s = update s
taken (some e) w update s = warn w s

abbrev pub alive_result :
    Probe → Option Sentinel → String → (Status → Status) → Status → StatusResult
alive_result p none w update s = status_done (taken p.err w update s)
alive_result p (some c) w update s = status_failed (over_error p.err c)

unfoldable pub status_probe_result : Probe → String → (Status → Status) → Status → StatusResult
status_probe_result p w update s =
    if p.ended
    then status_failed (ended_error p.err)
    else alive_result p (status_context_error p) w update s

pub record ProbeStep : Type 0 where
  pub probe : Probe
  pub warning : String
  pub update : Status → Status

abbrev pub set_version : String → String → Status → Status
set_version application system s = record s { application = application; system = system }

abbrev pub set_media : StateResult → Status → Status
set_media (state_failed e) s = warn "virtual media unavailable" s
set_media (state_of m) s = record s { virtual_media = some m }

abbrev pub set_usb : String → Status → Status
set_usb usb s = record s {
  usb_state = usb;
  usb_wake_attached = some (not (str_eq usb "not attached") && not (str_eq usb ""));
}

-- What the extension is, as far as its probe tells.
abbrev pub extension_of : StatusAnswers → String
extension_of a = if is_some a.extension.err then "" else a.extension_name

abbrev pub atx_step : StatusAnswers → ProbeStep
atx_step a = record {
  probe = a.atx;
  warning = "ATX state unavailable";
  update = λ s. record s { atx_power_on = a.atx_power };
}

abbrev pub dc_step : StatusAnswers → ProbeStep
dc_step a = record {
  probe = a.dc;
  warning = "DC state unavailable";
  update = λ s. record s { dc_power_on = a.dc_on; dc_voltage = a.dc_voltage };
}

abbrev pub extension_steps : StatusAnswers → List ProbeStep
extension_steps a =
    if str_eq (extension_of a) "atx-power"
    then atx_step a ∷ []
    else if str_eq (extension_of a) "dc-power"
    then dc_step a ∷ []
    else []

abbrev pub version_step : StatusAnswers → ProbeStep
version_step a = record {
  probe = a.version;
  warning = "version unavailable";
  update = set_version a.application a.system;
}

abbrev pub extension_step : StatusAnswers → ProbeStep
extension_step a = record {
  probe = a.extension;
  warning = "active extension unavailable";
  update = λ s. record s { extension = a.extension_name };
}

abbrev pub media_step : StatusAnswers → ProbeStep
media_step a = record {
  probe = a.media;
  warning = "virtual media unavailable";
  update = set_media (public_virtual_media_state a.media_state);
}

abbrev pub video_step : StatusAnswers → ProbeStep
video_step a = record {
  probe = a.video;
  warning = "video unavailable";
  update = λ s. record s { video = some a.video_state };
}

abbrev pub usb_step : StatusAnswers → ProbeStep
usb_step a = record { probe = a.usb; warning = "USB unavailable"; update = set_usb a.usb_state }

abbrev pub probe_steps : StatusAnswers → List ProbeStep
probe_steps a =
    version_step a ∷ extension_step a ∷ media_step a ∷ video_step a ∷ usb_step a ∷ extension_steps a

-- The probes, one after the other.
abbrev pub continue_with : (Status → StatusResult) → StatusResult → StatusResult
continue_with f (status_failed e) = status_failed e
continue_with f (status_done s) = f s

unfoldable pub run_probes : List ProbeStep → Status → StatusResult
run_probes [] s = status_done s
run_probes (p ∷ ps) s =
    continue_with (run_probes ps) (status_probe_result p.probe p.warning p.update s)

abbrev pub no_status : Status
no_status = record {
  connected = false;
  warnings = [];
  application = "";
  system = "";
  extension = "";
  virtual_media = none;
  video = none;
  usb_state = "";
  usb_wake_attached = none;
  atx_power_on = none;
  dc_power_on = none;
  dc_voltage = 0;
}

abbrev pub stop_status : Option Error → StatusResult → StatusResult
stop_status none r = r
stop_status (some e) r = status_failed e

abbrev pub sentinel_error : Option Sentinel → Option Error
sentinel_error none = none
sentinel_error (some c) = some (sentinel c)

-- The operation on the session.
unfoldable pub probe_status : StatusAnswers → StatusResult
probe_status a = stop_status a.ping.err (
    stop_status (sentinel_error (status_context_error a.ping)) (
      if not (str_eq a.pong "pong")
      then status_failed (wrap (sentinel invalid_response))
      else if a.ended
      then status_failed (sentinel session_closed)
      else run_probes (probe_steps a) (record no_status { connected = true })))

abbrev pub read_failed : Option Error → Error → Error
read_failed none e = e
read_failed (some f) e = f

abbrev pub classified : StatusResult → StatusResult
classified (status_done s) = status_done s
classified (status_failed e) = status_failed (read_failed (classify_read_failure (some e)) e)

-- `Status`, behind the admission of the operation.
unfoldable pub device_status : StatusAnswers → StatusResult
device_status a = classified (probe_status a)
