-- ===== src/Media/Files.antt =====
-- internal/jetkvm/virtual_media.go: the local file of an upload, and the proof that it has not changed. What
-- the file system and the contexts answer is a record.
use jetkvm_mcp.Base.{
  ℕ, Bool, true, false, not, ◌&&◌, ◌||◌, Option, none, some, ◌≡◌, arith, ◌==◌, ltb, if◌then◌else◌,
}
use jetkvm_mcp.Errors.{Error, media_path, sentinel, wrap}

-- os.FileInfo: what os.SameFile compares, the size, and the time of the last change.
pub record FileInfo : Type 0 where
  pub identity : ℕ
  pub size : ℕ
  pub modified : ℕ

abbrev pub is_unchanged : FileInfo → FileInfo → Bool
is_unchanged before after =
    before.identity == after.identity
    && before.size == after.size
    && before.modified == after.modified

abbrev pub max_virtual_media_bytes : ℕ
max_virtual_media_bytes = 68719476736

-- What `openMediaFile` finds of a path, and its check of it.
pub record Opened : Type 0 where
  pub info : FileInfo
  pub is_regular : Bool

unfoldable pub open_media_file : Option Opened → Option FileInfo
open_media_file none = none
open_media_file (some o) =
    if not o.is_regular || o.info.size == 0 || ltb max_virtual_media_bytes o.info.size
    then none
    else some o.info

-- The answers to `verifyMediaFileUnchanged`: its looks at the context, the two times it opens the file,
-- the digest, and the stat behind it.
pub record Recheck : Type 0 where
  pub first_context : Option Error
  pub opened : Option Opened
  pub digest : Option ℕ
  pub second_context : Option Error
  pub stat : Option FileInfo
  pub third_context : Option Error
  pub reopened : Option Opened

abbrev pub changed : Error
changed = wrap (sentinel media_path)

abbrev pub unchanged_info : FileInfo → Option FileInfo → Bool
unchanged_info before none = false
unchanged_info before (some after) = is_unchanged before after

abbrev pub has_digest : ℕ → Option ℕ → Bool
has_digest expected none = false
has_digest expected (some d) = d == expected

-- From the second opening on.
abbrev pub verify_reopened : FileInfo → Recheck → Option Error → Option Error
verify_reopened after c (some e) = some e
verify_reopened after c none =
    if unchanged_info after (open_media_file c.reopened) then none else some changed

-- From the digest on.
abbrev pub verify_digest : ℕ → FileInfo → Recheck → Option Error → Option Error
verify_digest expected after c (some e) = some e
verify_digest expected after c none =
    if not (has_digest expected c.digest)
    then some changed
    else if not (unchanged_info after c.stat)
    then some changed
    else verify_reopened after c c.third_context

abbrev pub verify_opened : FileInfo → ℕ → Recheck → Option FileInfo → Option Error
verify_opened before expected c none = some changed
verify_opened before expected c (some after) =
    if not (is_unchanged before after)
    then some changed
    else verify_digest expected after c c.second_context

abbrev pub verify_from : FileInfo → ℕ → Recheck → Option Error → Option Error
verify_from before expected c (some e) = some e
verify_from before expected c none = verify_opened before expected c (open_media_file c.opened)

unfoldable pub verify_media_file_unchanged : FileInfo → ℕ → Recheck → Option Error
verify_media_file_unchanged before expected c = verify_from before expected c c.first_context

-- The file was what it had been each time it was looked at, and has the digest.
pub record IsUnchanged (before : FileInfo) (expected : ℕ) (c : Recheck) : Type 0 where
  pub opened : open_media_file c.opened ≡ some before
  pub digest : c.digest ≡ some expected
  pub stat : c.stat ≡ some before
  pub reopened : open_media_file c.reopened ≡ some before

unchanged_info-eq :
    (before : FileInfo) (o : Option FileInfo) → unchanged_info before o ≡ true → o ≡ some before
unchanged_info-eq before none h = absurd (cc)
unchanged_info-eq before (some after) h = ground arith

has_digest-eq : (d : ℕ) (o : Option ℕ) → has_digest d o ≡ true → o ≡ some d
has_digest-eq d none h = absurd (cc)
has_digest-eq d (some e) h = ground arith

pub verify_media_file_unchanged-IsUnchanged :
    (before : FileInfo) (expected : ℕ) (c : Recheck)
    → verify_media_file_unchanged before expected c ≡ none
    → IsUnchanged before expected c
unfolding verify_media_file_unchanged
verify_media_file_unchanged-IsUnchanged before expected c h = ground (
  arith,
  unchanged_info-eq before (open_media_file c.opened),
  unchanged_info-eq before c.stat,
  unchanged_info-eq before (open_media_file c.reopened),
  has_digest-eq expected c.digest,
)
