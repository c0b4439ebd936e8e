-- ===== src/Media/Upload.antt =====
-- internal/jetkvm/virtual_media.go: the calls of an upload. What a device answers is a record, with one
-- answer for each call that an upload can make; the answers to clean-up calls are ignored.
use jetkvm_mcp.Base.{
  ℕ, Bool, true, false, not, ◌||◌, Option, none, some, List, [], ◌∷◌, ◌==◌, is_some, if◌then◌else◌,
}
use jetkvm_mcp.Errors.{
  Error, classify, invalid_response, media_path, mutation_sequence_error, sentinel,
  tool_outcome_not_sent, tool_outcome_unknown, wrap,
}
use jetkvm_mcp.Media.Files.{FileInfo, Recheck, verify_media_file_unchanged}

-- `filename` and `filename + ".incomplete"`
pub data Artifact : Type 0 where
  whole incomplete : Artifact

-- Calls of the session, with the arguments that vary.
pub data MediaCall : Type 0 where
  list_storage_files : MediaCall
  delete_storage_file : Artifact → MediaCall
  start_storage_file_upload : MediaCall
  -- the stream of the whole file, and the empty one of `abortStartedUpload`
  upload : MediaCall
  abort_upload : MediaCall
  mount_with_storage : MediaCall

-- What the device and the local file answer.
pub record World : Type 0 where
  pub listed : Option Error
  pub has_incomplete : Bool
  pub has_whole : Bool
  pub deleted_incomplete : Option Error
  pub deleted_whole : Option Error
  pub started : Option Error
  -- AlreadyUploadedBytes, and whether the id has the pattern
  pub already_uploaded : ℕ
  pub valid_id : Bool
  pub uploaded : Option Error
  -- digest of the bytes that went out, and the one before the upload
  pub uploaded_digest : ℕ
  pub initial_digest : ℕ
  pub before : FileInfo
  pub recheck : Recheck
  pub mounted : Option Error
  -- answers to the clean-up
  pub cleaned : Option Error

-- The calls so far, newest first, each with its answer, whether something has been changed, and the
-- error once there is one.
abbrev pub Trace : Type 0
Trace = List (MediaCall × Option Error)

pub record Progress : Type 0 where
  pub trace : Trace
  pub mutated : Bool
  pub error : Option Error

abbrev pub fail : Error → Trace → Bool → Progress
fail e trace mutated = record { trace = trace; mutated = mutated; error = some e }

abbrev pub pass : Trace → Bool → Progress
pass trace mutated = record { trace = trace; mutated = mutated; error = none }

-- One round of the loop of `discardExistingUploadArtifacts`.
abbrev pub discard_present : Artifact → Option Error → Progress → Progress
discard_present a none p = pass ((delete_storage_file a, none) ∷ p.trace) true
discard_present a (some e) p = fail e ((delete_storage_file a, some e) ∷ p.trace) p.mutated

abbrev pub discard_one : Bool → Artifact → Option Error → Progress → Progress
discard_one present a answer p =
    if is_some p.error then p else if present then discard_present a answer p else p

abbrev pub discard_listed : World → Option Error → Progress
discard_listed w (some e) =
    fail (classify e tool_outcome_not_sent) ((list_storage_files, some e) ∷ []) false
discard_listed w none = discard_one w.has_whole whole w.deleted_whole (
    discard_one w.has_incomplete incomplete w.deleted_incomplete
      (pass ((list_storage_files, none) ∷ []) false))

unfoldable pub discard_existing_upload_artifacts : World → Progress
discard_existing_upload_artifacts w = discard_listed w w.listed

abbrev pub best_effort_delete : World → Artifact → Trace → Trace
best_effort_delete w a t = (delete_storage_file a, w.cleaned) ∷ t

abbrev pub best_effort_delete_upload_artifacts : World → Trace → Trace
best_effort_delete_upload_artifacts w t =
    best_effort_delete w whole (best_effort_delete w incomplete t)

unfoldable pub abort_started_upload : World → Trace → Trace
abort_started_upload w t =
    best_effort_delete w incomplete (if w.valid_id then (abort_upload, w.cleaned) ∷ t else t)

-- `mutationSequenceError` of an error.
abbrev pub sequence_failure : Option Error → Trace → Bool → Progress
sequence_failure e trace mutated = record {
  trace = trace;
  mutated = mutated;
  error = mutation_sequence_error e mutated;
}

abbrev pub mount_answered : World → Option Error → Trace → Progress
mount_answered w none t = pass ((mount_with_storage, none) ∷ t) true
mount_answered w (some e) t =
    sequence_failure (some e)
      (best_effort_delete_upload_artifacts w ((mount_with_storage, some e) ∷ t)) true

-- Behind the check that the file has not changed.
abbrev pub mount_verified : World → Bool → Option Error → Trace → Progress
mount_verified w mounts (some e) t =
    sequence_failure (some e) (best_effort_delete_upload_artifacts w t) true
mount_verified w mounts none t = if mounts then mount_answered w w.mounted t else pass t true

abbrev pub upload_answered : World → Bool → Option Error → Trace → Progress
upload_answered w mounts (some e) t =
    sequence_failure (some e) (best_effort_delete_upload_artifacts w ((upload, some e) ∷ t)) true
upload_answered w mounts none t =
    let sent = (upload, none) ∷ t in
    if not (w.uploaded_digest == w.initial_digest)
    then fail (classify (wrap (sentinel media_path)) tool_outcome_unknown)
        (best_effort_delete_upload_artifacts w sent) true
    else mount_verified w mounts (verify_media_file_unchanged w.before w.initial_digest w.recheck)
        sent

abbrev pub start_answered : World → Bool → Bool → Option Error → Trace → Progress
start_answered w mounts mutated (some e) t =
    sequence_failure (some e) ((start_storage_file_upload, some e) ∷ t) mutated
start_answered w mounts mutated none t =
    let begun = (start_storage_file_upload, none) ∷ t in
    if not (w.already_uploaded == 0) || not w.valid_id
    then fail (classify (wrap (sentinel invalid_response)) tool_outcome_unknown)
        (abort_started_upload w begun) true
    else upload_answered w mounts w.uploaded begun

abbrev pub upload_discarded : World → Bool → Progress → Progress
upload_discarded w mounts p =
    if is_some p.error
    then sequence_failure p.error p.trace p.mutated
    else start_answered w mounts p.mutated w.started p.trace

-- The body of `uploadLocalMedia`, for mount_file or for upload.
unfoldable pub upload_local_media : World → Bool → Progress
upload_local_media w mounts = upload_discarded w mounts (discard_existing_upload_artifacts w)
