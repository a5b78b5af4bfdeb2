-- ===== src/Syncfs/Manifest.antt =====
-- internal/syncfs/manifest.go: the entries of a manifest, what two manifests differ in, and the
-- lists that a host makes of them before it sends them back. `filepath.Clean` is a parameter.
pub mod Diff
pub mod Patch
pub mod Modes
pub mod Mounts
pub mod Preserve
pub mod Pattern
use rmtx.Base.{
  ℕ, ◌-◌, ltb, ◌==◌, Bool, true, false, not, ◌&&◌, ◌||◌, Option, none, some, List, [], ◌∷◌, ◌++◌,
  if◌then◌else◌, length, filter, keep, map,
}
use rmtx.Base.Int.{ℤ, pos, int_beq}
use rmtx.Base.Dict.{Dict, lookup, insert}
use rmtx.Base.Sort.{sort_by}
use rmtx.Base.Text.{codes, Text, text_beq, text_key, is_empty, split, is_before}

-- Any string: entries come from the other side.
abbrev pub EntryKind : Type 0
EntryKind = Text

abbrev pub file : EntryKind
file = codes "file"

abbrev pub dir : EntryKind
dir = codes "dir"

abbrev pub symlink : EntryKind
symlink = codes "symlink"

abbrev pub is_kind : EntryKind → EntryKind → Bool
is_kind = text_beq

pub record Entry : Type 0 where
  pub path : Text
  pub kind : EntryKind
  pub hash : Text
  pub size : ℤ
  pub mode : ℕ
  pub mod_time : ℤ
  pub linkname : Text

-- Each path with its last entry: `for _, e := range entries { m[e.Path] = e }`.
unfoldable pub add_all : List Entry → Dict Text Entry → Dict Text Entry
add_all [] m = m
add_all (e ∷ entries) m = add_all entries (insert e.path e m)

abbrev pub by_path : List Entry → Dict Text Entry
by_path entries = add_all entries []

abbrev pub non_file_entries : List Entry → List Entry
non_file_entries entries = filter (λ entry. not (is_kind entry.kind file)) entries

unfoldable pub same_entry_except_mode : Entry → Entry → Bool
same_entry_except_mode a b =
    is_kind a.kind b.kind
    && (text_beq a.hash b.hash && (int_beq a.size b.size && text_beq a.linkname b.linkname))

unfoldable pub same_entry : Entry → Entry → Bool → Bool
same_entry a b ignore_mode = same_entry_except_mode a b && (ignore_mode || a.mode == b.mode)

-- The test that the loop over `afterMap` makes of an entry.
unfoldable pub is_changed : Option Entry → Entry → Bool → Bool
is_changed none cur ignore_mode = true
is_changed (some prev) cur ignore_mode = not (same_entry prev cur ignore_mode)

unfoldable pub changed_loop : Dict Text Entry → Dict Text Entry → Bool → List Entry
changed_loop before [] ignore_mode = []
changed_loop before ((path, cur) ∷ after) ignore_mode =
    keep (is_changed (lookup path before) cur ignore_mode) cur
      (changed_loop before after ignore_mode)

abbrev pub is_missing : Dict Text Entry → Text → Bool
is_missing m path = elim (lookup path m) [ none ↦ true | some e ↦ false ]

unfoldable pub deleted_loop : Dict Text Entry → Dict Text Entry → List Text
deleted_loop [] after = []
deleted_loop ((path, prev) ∷ before) after =
    keep (is_missing after path) path (deleted_loop before after)

abbrev pub path_before : Entry → Entry → Bool
path_before a b = is_before a.path b.path

module _ (clean : Text → Text) where
  unfoldable pub normalize_rel : Text → Text
  normalize_rel rel = if is_empty rel then b'.' ∷ [] else clean rel

  unfoldable pub depth : Text → ℕ
  depth path =
      if text_beq (normalize_rel path) (b'.' ∷ [])
      then 0
      else length (split b'/' (normalize_rel path))

  abbrev pub deeper : Text → Text → Bool
  deeper a b = ltb (depth b) (depth a)

  unfoldable pub diff : List Entry → List Entry → Bool → List Entry × List Text
  diff before after ignore_mode = (
    sort_by path_before (changed_loop (by_path before) (by_path after) ignore_mode),
    sort_by deeper (deleted_loop (by_path before) (by_path after)),
  )

abbrev pub default_dir_mode : ℕ
default_dir_mode = 0o755

abbrev pub default_file_mode : ℕ
default_file_mode = 0o644

abbrev pub default_mode : EntryKind → ℕ → ℕ
default_mode kind mode =
    if is_kind kind dir
    then default_dir_mode
    else if is_kind kind file
    then default_file_mode
    else mode

abbrev pub or_default_mode : Entry → Entry
or_default_mode entry =
    if entry.mode == 0 then record entry { mode = default_mode entry.kind entry.mode } else entry

-- The body of the loop of `NormalizeModes`.
unfoldable pub normalize_mode : Option Entry → Entry → Entry
normalize_mode none entry = or_default_mode entry
normalize_mode (some ref) entry =
    if same_entry_except_mode ref entry
    then record entry { mode = ref.mode }
    else or_default_mode entry

unfoldable pub normalize_modes : List Entry → List Entry → List Entry
normalize_modes entries reference =
    map (λ entry. normalize_mode (lookup entry.path (by_path reference)) entry) entries

-- Whether the map `seen` has a path: it has those of the entries in `out`.
abbrev pub has_path : List Entry → Text → Bool
has_path [] path = false
has_path (e ∷ out) path = text_beq e.path path || has_path out path

unfoldable pub preserve_loop : List Entry → List Entry → EntryKind → List Entry
preserve_loop out [] kind = out
preserve_loop out (entry ∷ preserve) kind =
    preserve_loop
      (if is_kind entry.kind kind && not (has_path out entry.path)
        then out ++ (entry ∷ [])
        else out)
      preserve kind

unfoldable pub preserve_missing_entries : List Entry → List Entry → EntryKind → List Entry
preserve_missing_entries entries preserve kind =
    sort_by path_before (preserve_loop entries preserve kind)
