-- ===== src/Host/LeaseFiles.antt =====
-- internal/host/workspace_lease.go: the leases of one context on disk, and how a run gets one,
-- gives it back, and how leases are listed, deleted and pruned. `wide_word` is the part of
-- unicode.IsLetter and unicode.IsDigit beyond Latin-1; times count nanoseconds from Go's zero time.
pub mod Files
pub mod Remove
pub mod Prepare
pub mod Stored
pub mod Calls
pub mod Written
pub mod Saved
pub mod Held
pub mod Later
pub mod Abandoned
pub mod Locks
pub mod Pruning
pub mod Pruned
pub mod Fresh
pub mod Returned
use rmtx.Base.{
  ℕ, Bool, true, false, ◌&&◌, ◌||◌, Option, none, some, List, [], ◌++◌, Result, ok, err, leb, ltb,
  ◌==◌, if◌then◌else◌, all,
}
use rmtx.Base.Dict.{Dict}
use rmtx.Base.Text.{
  codes, Text, text_beq, is_empty, byte_length, trim_space, is_ascii_digit, is_ascii_lower,
  is_ascii_upper,
}
use rmtx.Syncfs.Manifest.{Entry}

pub record LeaseMetadata : Type 0 where
  pub id : Text
  pub context_id : Text
  pub created_at : ℕ
  pub updated_at : ℕ
  pub expires_at : ℕ
  pub dirty : Bool
  pub last_session : Text

-- The fields of `workspaceLeaseState` that the metadata has too stand in one record.
pub record LeaseState : Type 0 where
  pub meta : LeaseMetadata
  pub workspace_manifest : List Entry

-- What the directory of a lease holds: the two files, and whether the workspace is there.
pub record LeaseDir : Type 0 where
  pub metadata : Option LeaseMetadata
  pub manifest : Option (List Entry)
  pub has_workspace : Bool

-- The directories in `workspaces`, by name.
abbrev pub LeaseDirs : Type 0
LeaseDirs = Dict Text LeaseDir

pub data LeaseFault : Type 0 where
  id_required invalid_id lease_not_found read_failed write_failed remove_failed list_failed is_dirty
        has_expired workspace_missing create_failed nonce_failed stat_failed no_free_id lock_refused
        bad_duration not_positive :
      LeaseFault

-- unicode.IsLetter and unicode.IsDigit within Latin-1.
abbrev pub is_latin_letter : ℕ → Bool
is_latin_letter c =
    is_ascii_lower c
    || is_ascii_upper c
    || (c == 0xaa || c == 0xb5 || c == 0xba)
    || (leb 0xc0 c && leb c 0xd6)
    || (leb 0xd8 c && leb c 0xf6)
    || (leb 0xf8 c && leb c 0xff)

module _ (wide_word : ℕ → Bool) where
  unfoldable pub is_lease_rune : ℕ → Bool
  is_lease_rune c =
      is_latin_letter c
      || is_ascii_digit c
      || (ltb 255 c && wide_word c)
      || (c == b'_' || c == b'-')

  abbrev pub is_lease_id : Text → Bool
  is_lease_id id =
      if text_beq id (codes ".") || text_beq id (codes "..") || ltb 80 (byte_length id)
      then false
      else all is_lease_rune id

  -- The checks behind strings.TrimSpace.
  abbrev pub checked_id : Text → Result LeaseFault Text
  checked_id id =
      if is_empty id then err id_required else if is_lease_id id then ok id else err invalid_id

  unfoldable pub normalize_lease_id : Text → Result LeaseFault Text
  normalize_lease_id id = checked_id (trim_space id)

-- parseWorkspaceKeepDuration behind strings.TrimSpace: `parse_duration` is time.ParseDuration, with
-- the nanoseconds of a duration that is positive, and `some 0` for one that is not.
abbrev pub positive : Option ℕ → Result LeaseFault ℕ
positive none = err bad_duration
positive (some ttl) = if ttl == 0 then err not_positive else ok ttl

abbrev pub parse_keep_of : (Text → Option ℕ) → Text → Result LeaseFault ℕ
parse_keep_of parse_duration value =
    if is_empty value then ok 0 else positive (parse_duration value)

unfoldable pub parse_workspace_keep_duration : (Text → Option ℕ) → Text → Result LeaseFault ℕ
parse_workspace_keep_duration parse_duration value = parse_keep_of parse_duration (trim_space value)

-- How the disk answers in the course of one call. A write that fails may have made the directory,
-- or even replaced the file; a removal that fails may have removed any part.
pub data WriteAnswer : Type 0 where
  saved failed_before failed_in_dir failed_after : WriteAnswer

pub data RemoveAnswer : Type 0 where
  removed : RemoveAnswer
  keeps : Bool → Bool → Bool → RemoveAnswer

pub record LeaseDisk : Type 0 where
  pub lists : Bool
  pub reads_metadata : Text → Bool
  pub reads_manifest : Text → Bool
  pub writes_metadata : Text → WriteAnswer
  pub writes_manifest : Text → WriteAnswer
  pub stats_lease : Text → Bool
  pub stats_workspace : Text → Bool
  pub makes_workspace : Text → Bool
  pub removes : Text → RemoveAnswer
