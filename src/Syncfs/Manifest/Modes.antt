-- ===== src/Syncfs/Manifest/Modes.antt =====
-- internal/syncfs/manifest.go: once `NormalizeModes` has been given the manifest that a run started
-- from, no difference in modes is left for `Diff` to report.
use rmtx.Base.{◌≡◌, refl, true, false, Option, none, some, List, [], ◌∷◌, All, map, arith}
use rmtx.Base.Dict.{Dict, lookup}
use rmtx.Base.Text.{Text, text_key}
use rmtx.Syncfs.Manifest.{
  Entry, by_path, same_entry, same_entry_except_mode, is_changed, changed_loop, diff,
  normalize_mode, normalize_modes, or_default_mode,
}
use rmtx.Syncfs.Manifest.Diff.{All-add_all}

-- Whether an entry is reported does not depend on its mode.
abbrev IsModeless : Dict Text Entry → Text × Entry → Type 0
IsModeless old entry =
    is_changed (lookup entry.0 old) entry.1 false ≡ is_changed (lookup entry.0 old) entry.1 true

changed_loop-Modeless :
    (old m : Dict Text Entry)
    → All (IsModeless old) m
    → changed_loop old m false ≡ changed_loop old m true
unfolding changed_loop
changed_loop-Modeless old [] h = refl
changed_loop-Modeless old ((path, cur) ∷ m) (p, h) = simp (p, changed_loop-Modeless old m h)

or_default_mode-path : (e : Entry) → (or_default_mode e).path ≡ e.path
or_default_mode-path e = ground arith

normalize_mode-path : (ref : Option Entry) (e : Entry) → (normalize_mode ref e).path ≡ e.path
unfolding normalize_mode
normalize_mode-path none e = ground arith
normalize_mode-path (some r) e = ground arith

normalize_mode-is_changed :
    (ref : Option Entry) (e : Entry)
    → is_changed ref (normalize_mode ref e) false ≡ is_changed ref (normalize_mode ref e) true
unfolding normalize_mode is_changed same_entry same_entry_except_mode
normalize_mode-is_changed none e = refl
normalize_mode-is_changed (some r) e = ground arith

normalize_modes-Modeless :
    (old : Dict Text Entry) (entries : List Entry)
    → All
        (λ e. IsModeless old (e.path, e))
        (map (λ entry. normalize_mode (lookup entry.path old) entry) entries)
normalize_modes-Modeless old [] = tt
normalize_modes-Modeless old (e ∷ entries) = (
  simp (normalize_mode-path (lookup e.path old) e)
      (normalize_mode-is_changed (lookup e.path old) e),
  normalize_modes-Modeless old entries,
)

-- Between a manifest and entries that `NormalizeModes` has normalised by it, `Diff` reports the same
-- whether it is told to ignore modes or not.
pub diff-normalize_modes :
    (clean : Text → Text) (entries reference : List Entry)
    → diff clean reference (normalize_modes entries reference) false
      ≡ diff clean reference (normalize_modes entries reference) true
unfolding diff normalize_modes
diff-normalize_modes clean entries reference =
    let old = by_path reference in
    let new = normalize_modes entries reference in
    let modeless = All-add_all (IsModeless old) new [] (normalize_modes-Modeless old entries) tt in
    simp (changed_loop-Modeless old (by_path new) modeless)
