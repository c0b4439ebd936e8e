-- ===== src/Manager/Status/Probes.antt =====
-- internal/jetkvm/manager.go: what a status says of its probes.
use jetkvm_mcp.Base.{
  Bool, true, false, not, ◌&&◌, ◌||◌, none, List, [], ◌∷◌, ◌++◌, ◌≡◌, String, str_eq, is_some,
  if◌then◌else◌,
}
use jetkvm_mcp.Media.Modes.{StateResult, public_virtual_media_state, state_failed, state_of}
use jetkvm_mcp.Manager.Status.{
  Probe, ProbeStep, Status, StatusAnswers, extension_of, extension_steps, no_status, probe_steps,
  taken, media_step, video_step, usb_step,
}

-- Behind the call the generation was there and no context was over.
abbrev pub is_alive : Probe → Bool
is_alive p = not p.ended && not (is_some p.caller) && not (is_some p.operation)

abbrev pub all_alive : List ProbeStep → Bool
all_alive [] = true
all_alive (p ∷ ps) = is_alive p.probe && all_alive ps

abbrev pub when : Bool → String → List String
when b w = if b then w ∷ [] else []

abbrev pub is_unknown_state : StateResult → Bool
is_unknown_state (state_failed _) = true
is_unknown_state (state_of _) = false

-- One warning for each probe that failed, and for a state of virtual media that is not known.
abbrev pub warnings_of : StatusAnswers → List String
warnings_of a =
    when (is_some a.version.err) "version unavailable"
    ++ (when (is_some a.extension.err) "active extension unavailable"
        ++ (when
              (is_some a.media.err || is_unknown_state (public_virtual_media_state a.media_state))
              "virtual media unavailable"
            ++ (when (is_some a.video.err) "video unavailable"
                ++ (when (is_some a.usb.err) "USB unavailable"
                    ++ (when (str_eq (extension_of a) "atx-power" && is_some a.atx.err)
                          "ATX state unavailable"
                        ++ when (str_eq (extension_of a) "dc-power" && is_some a.dc.err)
                            "DC state unavailable")))))

pub record IsStatus (a : StatusAnswers) (s : Status) : Type 0 where
  pub connected : (s.connected ≡ true) × (a.ping.err ≡ none) × (a.pong ≡ "pong") × (a.ended ≡ false)
  pub alive : all_alive (probe_steps a) ≡ true
  pub warnings : s.warnings ≡ warnings_of a

abbrev apply_all : List ProbeStep → Status → Status
apply_all [] s = s
apply_all (p ∷ ps) s = apply_all ps (taken p.probe.err p.warning p.update s)

-- A part of the probes adds these warnings, and leaves the connection as it is.
abbrev Adds : (Status → Status) → List String → Type 0
Adds f ws = (s : Status) → ((f s).warnings ≡ s.warnings ++ ws) × ((f s).connected ≡ s.connected)

abbrev take_step : ProbeStep → Status → Status
take_step p s = taken p.probe.err p.warning p.update s

abbrev from_media : StatusAnswers → List ProbeStep
from_media a = media_step a ∷ video_step a ∷ usb_step a ∷ extension_steps a

abbrev connected_status : Status
connected_status = record no_status { connected = true }
