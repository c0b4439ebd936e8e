-- ===== src/Media/Modes.antt =====
-- internal/jetkvm/virtual_media.go: modes, the projection of a device's state, and the operations. Texts come
-- without the space around them.
use jetkvm_mcp.Base.{
  Bool, true, false, ◌||◌, Option, none, some, String, str_eq, if◌then◌else◌, ◌≡◌, refl, arith,
  eq_iff,
}
use jetkvm_mcp.Errors.{
  Error, classify, classify_read_failure, invalid_response, media_path, sentinel,
  tool_outcome_not_sent, unsupported_input, wrap,
}
use jetkvm_mcp.Media.Upload.{Progress, World, upload_local_media}

pub data MediaOperation : Type 0 where
  status_operation mount_url unmount upload_file mount_file other_operation : MediaOperation

pub data TextResult : Type 0 where
  text_failed : Error → TextResult
  text_of : String → TextResult

unfoldable pub firmware_media_mode : String → TextResult
firmware_media_mode value =
    if str_eq value "" || str_eq value "read_only"
    then text_of "CDROM"
    else if str_eq value "read_write"
    then text_of "Disk"
    else text_failed (wrap (sentinel unsupported_input))

unfoldable pub request_mode : String → TextResult
request_mode value =
    if str_eq value "CDROM"
    then text_of "read_only"
    else if str_eq value "Disk"
    then text_of "read_write"
    else text_failed (wrap (sentinel invalid_response))

pub record FirmwareState : Type 0 where
  pub source : String
  pub mode : String

pub record MediaState : Type 0 where
  pub mounted : Bool
  pub source_type : String
  pub mode : String

pub data StateResult : Type 0 where
  state_failed : Error → StateResult
  state_of : MediaState → StateResult

abbrev pub source_type_of : String → TextResult
source_type_of source =
    if str_eq source "Storage"
    then text_of "storage"
    else if str_eq source "HTTP"
    then text_of "http"
    else text_failed (wrap (sentinel invalid_response))

abbrev pub mounted_state : TextResult → TextResult → StateResult
mounted_state (text_failed e) source = state_failed e
mounted_state (text_of mode) (text_failed e) = state_failed e
mounted_state (text_of mode) (text_of source) =
    state_of (record { mounted = true; source_type = source; mode = mode })

unfoldable pub public_virtual_media_state : Option FirmwareState → StateResult
public_virtual_media_state none = state_of (record { mounted = false; source_type = ""; mode = "" })
public_virtual_media_state (some s) = mounted_state (request_mode s.mode) (source_type_of s.source)

-- `VirtualMediaResult`, without the device's name.
pub record MediaReport : Type 0 where
  pub operation : MediaOperation
  pub state : MediaState
  pub status : String

pub data MediaResult : Type 0 where
  media_failed : Error → MediaResult
  media_done : MediaReport → MediaResult

abbrev pub report : MediaOperation → Bool → String → String → String → MediaResult
report operation mounted source mode status = media_done (record {
  operation = operation;
  state = record { mounted = mounted; source_type = source; mode = mode };
  status = status;
})

abbrev pub failed_as : Option Error → Error → MediaResult
failed_as none e = media_failed e
failed_as (some f) e = media_failed f

abbrev pub observed_state : StateResult → MediaResult
observed_state (state_failed e) = media_failed e
observed_state (state_of s) =
    media_done (record { operation = status_operation; state = s; status = "observed" })

unfoldable pub virtual_media_status : Option Error → Option FirmwareState → MediaResult
virtual_media_status (some e) state = failed_as (classify_read_failure (some e)) e
virtual_media_status none state = observed_state (public_virtual_media_state state)

-- What a device and the local file answer to the operations, and the checks before them.
pub record MediaAnswers : Type 0 where
  pub state_error : Option Error
  pub state : Option FirmwareState
  pub mount_url_error : Option Error
  pub unmount_error : Option Error
  pub world : World
  -- parseAllowedMediaURL, and prepareLocalMedia: opening the file, its digest, and the context
  pub url_error : Option Error
  pub open_error : Option Error
  pub has_digest : Bool
  pub context : Option Error

abbrev pub done_unless : Option Error → MediaResult → MediaResult
done_unless none r = r
done_unless (some e) r = media_failed e

abbrev pub uploaded_as : MediaOperation → Bool → TextResult → Progress → MediaResult
uploaded_as operation mounts (text_failed e) p = done_unless p.error (media_failed e)
uploaded_as operation mounts (text_of mode) p =
    done_unless p.error (report operation mounts "storage" mode "completed")

abbrev pub unsupported : Error
unsupported = classify (wrap (sentinel unsupported_input)) tool_outcome_not_sent

-- `Manager.virtualMedia`, for a firmware's mode and the public one.
unfoldable pub virtual_media : MediaAnswers → MediaOperation → String → String → MediaResult
virtual_media a status_operation mode public_mode = virtual_media_status a.state_error a.state
virtual_media a mount_url mode public_mode =
    done_unless a.mount_url_error (report mount_url true "http" public_mode "completed")
virtual_media a unmount mode public_mode =
    done_unless a.unmount_error (report unmount false "" "" "completed")
virtual_media a upload_file mode public_mode =
    uploaded_as upload_file false (request_mode mode) (upload_local_media a.world false)
virtual_media a mount_file mode public_mode =
    uploaded_as mount_file true (request_mode mode) (upload_local_media a.world true)
virtual_media a other_operation mode public_mode = media_failed unsupported

abbrev pub not_sent_as : Option Error → Option Error
not_sent_as none = none
not_sent_as (some e) = some (classify e tool_outcome_not_sent)

abbrev pub digest_error : Bool → Option Error → Option Error
digest_error true context = none
digest_error false none = some (classify (wrap (sentinel media_path)) tool_outcome_not_sent)
digest_error false (some e) = some (classify e tool_outcome_not_sent)

abbrev pub open_or_digest : MediaAnswers → Option Error → Option Error
open_or_digest a (some e) = some (classify e tool_outcome_not_sent)
open_or_digest a none = digest_error a.has_digest a.context

unfoldable pub prepare_local_media : MediaAnswers → Option Error
prepare_local_media a = open_or_digest a a.open_error

-- What `VirtualMedia` prepares before the operation.
abbrev pub prepare_media : MediaAnswers → MediaOperation → Option Error
prepare_media a mount_url = not_sent_as a.url_error
prepare_media a upload_file = prepare_local_media a
prepare_media a mount_file = prepare_local_media a
prepare_media a _ = none

abbrev pub with_public_mode : MediaAnswers → MediaOperation → String → TextResult → MediaResult
with_public_mode a operation mode (text_failed e) = media_failed e
with_public_mode a other_operation mode (text_of public_mode) = media_failed unsupported
with_public_mode a operation mode (text_of public_mode) =
    done_unless (prepare_media a operation) (virtual_media a operation mode public_mode)

abbrev pub with_mode : MediaAnswers → MediaOperation → TextResult → MediaResult
with_mode a operation (text_failed e) = media_failed (classify e tool_outcome_not_sent)
with_mode a operation (text_of mode) = with_public_mode a operation mode (request_mode mode)

-- `VirtualMedia` behind the admission of the operation.
unfoldable pub virtual_media_request : MediaAnswers → MediaOperation → String → MediaResult
virtual_media_request a operation mode = with_mode a operation (firmware_media_mode mode)

known_modes :
    (request_mode "CDROM" ≡ text_of "read_only") × (request_mode "Disk" ≡ text_of "read_write")
unfolding request_mode
known_modes = (refl, refl)

-- A mode that is accepted is reported as it was asked for, and as read_only where none was.
pub firmware_media_mode-request_mode :
    (asked mode : String)
    → firmware_media_mode asked ≡ text_of mode
    → request_mode mode ≡ text_of (if str_eq asked "" then "read_only" else asked)
unfolding firmware_media_mode
firmware_media_mode-request_mode asked mode h =
    ground (arith, known_modes, eq_iff asked "read_only", eq_iff asked "read_write")
