-- ===== src/Manager/Power.antt =====
-- internal/jetkvm/manager.go: the requests of Power. The name of a target comes without the space around it.
use jetkvm_mcp.Base.{
  Bool, true, false, Option, none, some, List, [], ◌∷◌, String, str_eq, if◌then◌else◌,
}
use jetkvm_mcp.Errors.{
  Error, classify, foreign, sentinel, tool_outcome_not_sent, unknown_wake_target, wrap,
}

pub data PowerAction : Type 0 where
  press_host_power_button force_host_power_off press_host_reset_button : PowerAction
  turn_host_dc_power_on turn_host_dc_power_off wake_host_usb wake_host_lan : PowerAction
  other_action : PowerAction

pub record WakeTarget : Type 0 where
  pub mac_address : String
  pub broadcast_ip : String

pub data PowerParams : Type 0 where
  no_params : PowerParams
  action_param : String → PowerParams
  enabled_param : Bool → PowerParams
  magic_packet : String → Option String → PowerParams

pub data PowerRequest : Type 0 where
  power_refused : Error → PowerRequest
  power_call : String → PowerParams → PowerRequest

unfoldable pub find_target : String → List (String × WakeTarget) → Option WakeTarget
find_target name [] = none
find_target name ((n, t) ∷ ts) = if str_eq n name then some t else find_target name ts

abbrev pub wake_request : Option WakeTarget → PowerRequest
wake_request none =
    power_refused (classify (wrap (sentinel unknown_wake_target)) tool_outcome_not_sent)
wake_request (some t) =
    power_call "sendWOLMagicPacket"
      (magic_packet t.mac_address (if str_eq t.broadcast_ip "" then none else some t.broadcast_ip))

unfoldable pub power_request : List (String × WakeTarget) → PowerAction → String → PowerRequest
power_request targets press_host_power_button name =
    power_call "setATXPowerAction" (action_param "power-short")
power_request targets force_host_power_off name =
    power_call "setATXPowerAction" (action_param "power-long")
power_request targets press_host_reset_button name =
    power_call "setATXPowerAction" (action_param "reset")
power_request targets turn_host_dc_power_on name = power_call "setDCPowerState" (enabled_param true)
power_request targets turn_host_dc_power_off name =
    power_call "setDCPowerState" (enabled_param false)
power_request targets wake_host_usb name = power_call "wakeHost" no_params
power_request targets wake_host_lan name = wake_request (find_target name targets)
power_request targets other_action name = power_refused (classify (foreign 0) tool_outcome_not_sent)

-- `Power` behind the admission of the operation, given what the call returns.
abbrev pub power_answer : PowerRequest → Option Error → Option Error
power_answer (power_refused e) answer = some e
power_answer (power_call _ _) answer = answer

unfoldable pub power :
    List (String × WakeTarget) → PowerAction → String → Option Error → Option Error
power targets action name answer = power_answer (power_request targets action name) answer
