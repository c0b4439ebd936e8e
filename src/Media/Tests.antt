-- ===== src/Media/Tests.antt =====
-- internal/jetkvm/virtual_media.go: the theorems about uploads at concrete answers.
use jetkvm_mcp.Base.{true, false, none, some, ◌≡◌, refl}
use jetkvm_mcp.Errors.{Error, classify, device_unreachable, sentinel, tool_outcome_unknown}
use jetkvm_mcp.Media.Files.{FileInfo, Opened, Recheck, open_media_file, verify_media_file_unchanged}
use jetkvm_mcp.Media.Upload.{World, discard_existing_upload_artifacts, upload_local_media}
use jetkvm_mcp.Media.Safe.{IsVerified, has_mount, upload_local_media-IsVerified}

abbrev some_info : FileInfo
some_info = record { identity = 7; size = 1000; modified = 3 }

abbrev some_opened : Opened
some_opened = record { info = some_info; is_regular = true }

abbrev unchanged_file : Recheck
unchanged_file = record {
  first_context = none;
  opened = some some_opened;
  digest = some 42;
  second_context = none;
  stat = some some_info;
  third_context = none;
  reopened = some some_opened;
}

-- The device takes everything; an older upload is in the way.
abbrev good_world : World
good_world = record {
  listed = none;
  has_incomplete = true;
  has_whole = false;
  deleted_incomplete = none;
  deleted_whole = none;
  started = none;
  already_uploaded = 0;
  valid_id = true;
  uploaded = none;
  uploaded_digest = 42;
  initial_digest = 42;
  before = some_info;
  recheck = unchanged_file;
  mounted = none;
  cleaned = none;
}

good_world-mounts : has_mount (upload_local_media good_world true).trace ≡ true
unfolding upload_local_media discard_existing_upload_artifacts verify_media_file_unchanged
    open_media_file
good_world-mounts = refl

upload_local_media-IsVerified_example : (true ≡ true) × IsVerified good_world
upload_local_media-IsVerified_example =
    upload_local_media-IsVerified good_world true good_world-mounts

-- The device is lost during the upload.
abbrev lost_world : World
lost_world = record good_world { uploaded = some (sentinel device_unreachable) }

abbrev lost_error : Error
lost_error = classify (sentinel device_unreachable) tool_outcome_unknown
