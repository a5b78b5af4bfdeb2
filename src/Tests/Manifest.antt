-- ===== src/Tests/Manifest.antt =====
-- internal/syncfs/manifest.go: a tree of four entries, of which a run changes two, deletes two and
-- makes one.
use rmtx.Base.{
  inr, ◌≡◌, ◌↔◌, ◌⊎◌, refl, Bool, true, false, Option, none, some, List, [], ◌∷◌, any, Member,
}
use rmtx.Base.Int.{pos}
use rmtx.Base.Dict.{lookup, insert}
use rmtx.Base.Sort.{sort_by, insert_by, Sorted}
use rmtx.Base.Text.{Text, codes, text_beq, text_key, compare_text, split, has_prefix, trim_space}
use rmtx.Syncfs.Manifest.{
  Entry, file, dir, add_all, by_path, diff, changed_loop, deleted_loop, is_changed, same_entry,
  same_entry_except_mode, depth, normalize_rel, normalize_modes, preserve_missing_entries,
  path_before, is_kind, has_path,
}
use rmtx.Syncfs.Manifest.Diff.{Reported, Gone, diff-exact}
use rmtx.Syncfs.Manifest.Patch.{patch, Agrees, patch-diff}
use rmtx.Base.Path.Clean.{IsInside}
use rmtx.Syncfs.Manifest.Modes.{diff-normalize_modes}
use rmtx.Syncfs.Manifest.Preserve.{At, preserve_missing_entries-exact}
use rmtx.Syncfs.Manifest.Pattern.{
  match_segments, filter_entries_by_path, new_include_matcher, include_loop, normalize_pattern,
  has_glob, include_match,
}
use rmtx.Syncfs.Manifest.Pattern.Segments.{Matches, match_segments_iff}
use rmtx.Syncfs.Manifest.Pattern.Include.{covers, filter_entries_by_path-covers}

abbrev clean : Text → Text
clean path = path

-- A segment without wildcards matches itself.
abbrev path_match : Text → Text → Option Bool
path_match pattern name = some (text_beq pattern name)

abbrev file_at : Text → Text → Entry
file_at path hash = record {
  path = path;
  kind = file;
  hash = hash;
  size = pos 3;
  mode = 0o644;
  mod_time = pos 7;
  linkname = [];
}

abbrev dir_at : Text → Entry
dir_at path = record {
  path = path;
  kind = dir;
  hash = [];
  size = pos 0;
  mode = 0o755;
  mod_time = pos 7;
  linkname = [];
}

abbrev before : List Entry
before =
    file_at (codes "b") (codes "1")
    ∷ dir_at (codes "d")
    ∷ file_at (codes "d/x") (codes "2")
    ∷ file_at (codes "k") (codes "3")
    ∷ []

abbrev after : List Entry
after =
    file_at (codes "b") (codes "4")
    ∷ file_at (codes "a") (codes "5")
    ∷ file_at (codes "k") (codes "3")
    ∷ []

diff_run : diff clean before after false ≡ (
  file_at (codes "a") (codes "5") ∷ file_at (codes "b") (codes "4") ∷ [],
  codes "d/x" ∷ codes "d" ∷ [],
)
unfolding diff sort_by changed_loop deleted_loop add_all insert is_changed lookup same_entry
    insert_by same_entry_except_mode depth compare_text normalize_rel split
diff_run = refl

patch-diff_example :
    Agrees false
      (lookup (codes "b") (patch (diff clean before after false) (by_path before)))
      (lookup (codes "b") (by_path after))
patch-diff_example = patch-diff clean before after false (codes "b")

diff-exact_example :
    (Member (file_at (codes "a") (codes "5")) (diff clean before after false).0
      ↔ Reported (by_path before) (by_path after) false (file_at (codes "a") (codes "5")))
    × (Member (codes "d") (diff clean before after false).1
        ↔ Gone (by_path before) (by_path after) (codes "d"))
diff-exact_example =
    diff-exact clean before after false (file_at (codes "a") (codes "5")) (codes "d")

diff-normalize_modes_example :
    diff clean before (normalize_modes after before) false
    ≡ diff clean before (normalize_modes after before) true
diff-normalize_modes_example = diff-normalize_modes clean after before

preserve_missing_entries-exact_example :
    ((e : Entry) → Member e after → Member e (preserve_missing_entries after before dir))
    × ((e : Entry)
        → Member e before
        → is_kind e.kind dir ≡ true
        → At (preserve_missing_entries after before dir) e.path)
    × ((e : Entry)
        → Member e (preserve_missing_entries after before dir)
        → Member e after
          ⊎ (Member e before × (is_kind e.kind dir ≡ true) × (has_path after e.path ≡ false)))
    × Sorted path_before (preserve_missing_entries after before dir)
preserve_missing_entries-exact_example = preserve_missing_entries-exact after before dir

abbrev pattern : List Text
pattern = codes "**" ∷ codes "x" ∷ []

abbrev deep : List Text
deep = codes "a" ∷ codes "d" ∷ codes "x" ∷ []

match_segments_run : match_segments path_match pattern deep ≡ true
unfolding match_segments
match_segments_run = refl

match_segments_iff_example :
    (match_segments path_match pattern deep ≡ true) ↔ Matches path_match pattern deep
match_segments_iff_example = match_segments_iff path_match pattern deep

filter_entries_by_path_run :
    filter_entries_by_path clean path_match before (some (codes "d" ∷ codes " " ∷ []))
    ≡ dir_at (codes "d") ∷ file_at (codes "d/x") (codes "2") ∷ []
unfolding filter_entries_by_path new_include_matcher include_loop trim_space normalize_pattern
    has_glob include_match normalize_rel has_prefix
filter_entries_by_path_run = refl

filter_entries_by_path-covers_example :
    (filter_entries_by_path clean path_match before none ≡ before)
    × (Member
          (dir_at (codes "d"))
          (filter_entries_by_path clean path_match before (some (codes "d" ∷ [])))
        ↔ (Member (dir_at (codes "d")) before
            × (any (λ include. covers clean path_match include (codes "d")) (codes "d" ∷ [])
                ≡ true)))
filter_entries_by_path-covers_example =
    filter_entries_by_path-covers clean path_match before (codes "d" ∷ []) (dir_at (codes "d"))

abbrev mount : Text
mount = codes "a/b"

mount-IsInside : IsInside mount
unfolding split
mount-IsInside = inr ((refl, refl, refl, refl), ((refl, refl, refl, refl), tt))

name-IsInside : IsInside (codes "c")
unfolding split
name-IsInside = inr ((refl, refl, refl, refl), tt)
