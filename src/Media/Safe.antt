-- ===== src/Media/Safe.antt =====
-- internal/jetkvm/virtual_media.go: what an upload leaves behind, and when an image is mounted.
use jetkvm_mcp.Base.{
  Bool, true, false, not, ◌&&◌, ◌||◌, Option, none, some, [], ◌∷◌, ◌≡◌, ◌⊎◌, refl, arith, is_some,
}
use jetkvm_mcp.Errors.{Error, mutation_sequence_error, tool_error_outcome, tool_error_retryable}
use jetkvm_mcp.Media.Files.{IsUnchanged, verify_media_file_unchanged-IsUnchanged}
use jetkvm_mcp.Media.Upload.{
  Artifact, MediaCall, Trace, World, abort_started_upload, delete_storage_file,
  discard_existing_upload_artifacts, incomplete, list_storage_files, mount_with_storage,
  start_storage_file_upload, upload, upload_local_media, whole,
}

-- A call that changed the device, as far as its answer tells.
abbrev pub is_change : MediaCall × Option Error → Bool
is_change (list_storage_files, _) = false
is_change (_, answer) = not (is_some answer)

abbrev pub has_change : Trace → Bool
has_change [] = false
has_change (c ∷ t) = is_change c || has_change t

abbrev pub same_artifact : Artifact → Artifact → Bool
same_artifact whole whole = true
same_artifact incomplete incomplete = true
same_artifact _ _ = false

abbrev pub is_incomplete : Artifact → Bool
is_incomplete incomplete = true
is_incomplete whole = false

-- An artifact that the upload may have made has been asked to be deleted since.
abbrev pub is_attended : Artifact → Trace → Bool
is_attended a [] = true
is_attended a ((delete_storage_file b, _) ∷ t) = same_artifact a b || is_attended a t
is_attended a ((start_storage_file_upload, none) ∷ t) = not (is_incomplete a) && is_attended a t
is_attended a ((upload, _) ∷ t) = false
is_attended a (_ ∷ t) = is_attended a t

abbrev pub has_mount : Trace → Bool
has_mount [] = false
has_mount ((mount_with_storage, _) ∷ t) = true
has_mount (_ ∷ t) = has_mount t

-- What a failure tells the caller, and what it leaves on the device.
pub record IsFailure (e : Error) (t : Trace) : Type 0 where
  pub outcome :
      (has_change t ≡ false)
      ⊎ ((tool_error_outcome e ≡ some "unknown") × (tool_error_retryable e ≡ false))
  pub incomplete_attended : is_attended incomplete t ≡ true
  pub whole_attended : is_attended whole t ≡ true

sequence_none : (mutated : Bool) → mutation_sequence_error none mutated ≡ none
unfolding mutation_sequence_error
sequence_none m = refl

sequence_unmutated : (e : Error) → mutation_sequence_error (some e) false ≡ some e
unfolding mutation_sequence_error
sequence_unmutated e = refl

-- What the device and the file must have answered for an image to be mounted.
pub record IsVerified (w : World) : Type 0 where
  pub listed : w.listed ≡ none
  pub started : (w.started ≡ none) × (w.already_uploaded ≡ 0) × (w.valid_id ≡ true)
  pub uploaded : w.uploaded ≡ none
  pub digest : w.uploaded_digest ≡ w.initial_digest
  pub file : IsUnchanged w.before w.initial_digest w.recheck

has_mount-discarded : (w : World) → has_mount (discard_existing_upload_artifacts w).trace ≡ false
unfolding discard_existing_upload_artifacts
has_mount-discarded w = ground arith

listed-discarded :
    (w : World) → (discard_existing_upload_artifacts w).error ≡ none → w.listed ≡ none
unfolding discard_existing_upload_artifacts
listed-discarded w h = ground arith

-- An image is mounted only if the upload was asked to mount one; the device listed its files, began the
-- upload at byte 0 under a valid id, and took it, without an error; the bytes that went out have the
-- digest of the file; and the file, looked at again after the upload, was unchanged and had that
-- digest.
pub upload_local_media-IsVerified :
    (w : World) (mounts : Bool)
    → has_mount (upload_local_media w mounts).trace ≡ true
    → (mounts ≡ true) × IsVerified w
unfolding upload_local_media abort_started_upload
upload_local_media-IsVerified w mounts h = ground (
  arith,
  has_mount-discarded w,
  listed-discarded w,
  verify_media_file_unchanged-IsUnchanged w.before w.initial_digest w.recheck,
)
