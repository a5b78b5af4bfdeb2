-- ===== src/Syncfs/Apply.antt =====
-- internal/syncfs/apply.go: the check of a set of changes before any of it touches the disk.
pub mod Kept
pub mod Inside
use rmtx.Base.{
  ◌==◌, Bool, true, false, not, ◌&&◌, ◌||◌, Option, none, some, List, [], ◌∷◌, ◌++◌, if◌then◌else◌,
  is_some, any, length, Result, ok, err, ◌>>=◌, ◌>>◌, fail_if,
}
use rmtx.Base.Dict.{Dict, lookup, insert}
use rmtx.Base.Path.{dot, clean, is_local, parents}
use rmtx.Base.Text.{Text, text_beq, text_key, trim_space}
use rmtx.Syncfs.Manifest.{Entry, EntryKind, file, dir, symlink, is_kind}

-- The errors of `cleanApplyChanges`, without their texts.
pub data ApplyFault : Type 0 where
  escapes_workspace replaces_root duplicate_entry unsupported_kind nested_entry : ApplyFault

unfoldable pub local_apply_path : Text → Result ApplyFault Text
local_apply_path name =
    let rel = clean (trim_space name) in
    if is_local rel then ok rel else err ApplyFault.escapes_workspace

abbrev pub is_known_kind : EntryKind → Bool
is_known_kind kind = is_kind kind file || (is_kind kind dir || is_kind kind symlink)

-- The body of the loop over the entries, behind `localApplyPath`.
unfoldable pub check_entry : Text → Entry → Dict Text EntryKind → Result ApplyFault (Unit {0})
check_entry rel entry kinds =
    fail_if (text_beq rel dot && not (is_kind entry.kind dir)) ApplyFault.replaces_root
    >> fail_if (is_some (lookup rel kinds)) ApplyFault.duplicate_entry
    >> fail_if (not (is_known_kind entry.kind)) ApplyFault.unsupported_kind

abbrev pub Cleaned : Type 0
Cleaned = List Entry × Dict Text EntryKind

unfoldable pub clean_entries : List Entry → Cleaned → Result ApplyFault Cleaned
clean_entries [] state = ok state
clean_entries (entry ∷ entries) (cleaned, kinds) = local_apply_path entry.path >>= (λ rel.
    check_entry rel entry kinds
    >> clean_entries entries
        (cleaned ++ (record entry { path = rel } ∷ []), insert rel entry.kind kinds))

abbrev pub is_not_dir : Option EntryKind → Bool
is_not_dir none = false
is_not_dir (some kind) = not (is_kind kind dir)

-- The inner loop over the directories above `rel`, which are at most as many as it is long.
unfoldable pub is_nested : Dict Text EntryKind → Text → Bool
is_nested kinds rel = any (λ parent. is_not_dir (lookup parent kinds)) (parents (length rel) rel)

-- The loop over the names that were deleted; `seen` holds those that `cleaned` lists.
unfoldable pub clean_deleted : List Text → List Text → Result ApplyFault (List Text)
clean_deleted [] cleaned = ok cleaned
clean_deleted (name ∷ deleted) cleaned = local_apply_path name >>= (λ rel. clean_deleted deleted (
    if text_beq rel dot || any (λ seen. text_beq seen rel) cleaned
    then cleaned
    else cleaned ++ (rel ∷ [])))

unfoldable pub clean_apply_changes :
    List Entry → List Text → Result ApplyFault (List Entry × List Text)
clean_apply_changes entries deleted = clean_entries entries ([], []) >>= (λ state.
    fail_if (any (λ kind. is_nested state.1 kind.0) state.1) ApplyFault.nested_entry
    >> (clean_deleted deleted [] >>= (λ gone. ok (state.0, gone))))
