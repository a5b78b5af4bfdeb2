-- ===== src/Tests/Apply.antt =====
-- internal/syncfs/apply.go: a directory, a file in it and a name with a way up that stays inside.
use rmtx.Base.{ℕ, any, inr, arith, ◌≡◌, refl, Bool, List, [], ◌∷◌, ok, err, All}
use rmtx.Base.Int.{pos}
use rmtx.Base.Dict.{Dict, lookup, insert}
use rmtx.Base.Path.{clean, is_local, walk, parents}
use rmtx.Base.Text.{text_key, Text, codes, trim_space, join, split, has_prefix}
use rmtx.Syncfs.Manifest.{Entry, EntryKind, file, dir}
use rmtx.Syncfs.Apply.{
  is_not_dir, ApplyFault, clean_apply_changes, clean_entries, local_apply_path, check_entry,
  is_nested, clean_deleted,
}
use rmtx.Syncfs.Apply.Inside.{IsNestedWell, clean_apply_changes-Inside, is_nested_ends}
use rmtx.Syncfs.Apply.Kept.{IsWritable, Distinct}
use rmtx.Base.Path.Clean.{IsInside}
use rmtx.Base.Path.Parents.{AllPlain, Tops, climb}

abbrev entry : EntryKind → Text → Entry
entry kind path = record {
  path = path;
  kind = kind;
  hash = [];
  size = pos 0;
  mode = 0;
  mod_time = pos 0;
  linkname = [];
}

abbrev sent : List Entry
sent = entry dir (codes "a/./") ∷ entry file (codes " a//b ") ∷ []

abbrev cleaned : List Entry
cleaned = entry dir (codes "a") ∷ entry file (codes "a/b") ∷ []

clean_run :
    clean_apply_changes sent (codes "c/../d" ∷ codes "." ∷ []) ≡ ok (cleaned, codes "d" ∷ [])
unfolding clean_apply_changes clean_entries local_apply_path is_local clean trim_space join walk
    split has_prefix check_entry lookup insert is_nested parents rmtx.Base.Path.dir clean_deleted
clean_run = refl

escape_run :
    clean_apply_changes (entry file (codes "a/../../b") ∷ []) [] ≡ err ApplyFault.escapes_workspace
unfolding clean_apply_changes clean_entries local_apply_path is_local clean trim_space join walk
    split has_prefix check_entry lookup insert is_nested parents rmtx.Base.Path.dir clean_deleted
escape_run = refl

nested_run :
    clean_apply_changes (entry file (codes "a") ∷ entry file (codes "a/b/c") ∷ []) []
    ≡ err ApplyFault.nested_entry
unfolding clean_apply_changes clean_entries local_apply_path is_local clean trim_space join walk
    split has_prefix check_entry lookup insert is_nested parents rmtx.Base.Path.dir clean_deleted
nested_run = refl

clean_apply_changes-Inside_example :
    All IsWritable cleaned × Distinct cleaned × IsNestedWell cleaned × All AllPlain (codes "d" ∷ [])
clean_apply_changes-Inside_example =
    clean_apply_changes-Inside sent (codes "c/../d" ∷ codes "." ∷ []) cleaned (codes "d" ∷ [])
      clean_run

abbrev kinds : Dict Text EntryKind
kinds = (codes "a", file) ∷ []

path-IsInside : IsInside (codes "a/b")
unfolding split
path-IsInside = inr ((refl, refl, refl, refl), ((refl, refl, refl, refl), tt))

is_nested_ends_example :
    (k : ℕ) × Tops k (codes "a/b")
    × (is_nested kinds (codes "a/b")
        ≡ any (λ parent. is_not_dir (lookup parent kinds)) (climb k (codes "a/b")))
is_nested_ends_example = is_nested_ends kinds (codes "a/b") path-IsInside
