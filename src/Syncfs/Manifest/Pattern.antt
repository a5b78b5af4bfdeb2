-- ===== src/Syncfs/Manifest/Pattern.antt =====
-- internal/syncfs/manifest.go: the patterns of mounts and of sync-back lists. `filepath.Clean`
-- (which ToSlash leaves alone on Linux) and `path.Match` are parameters; `path.Match` gives none for
-- its error.
pub mod Segments
pub mod Include
use rmtx.Base.{
  ℕ, ◌==◌, Bool, true, false, not, ◌&&◌, ◌||◌, Option, none, some, List, [], ◌∷◌, ◌++◌,
  if◌then◌else◌, any, filter,
}
use rmtx.Base.Text.{
  Text, text_beq, is_empty, trim_left, trim_right, trim_space, has_prefix, split, contains,
}
use rmtx.Syncfs.Manifest.{Entry, normalize_rel}

abbrev pub is_nil {ℓ} : {A : Type ℓ} → List A → Bool
is_nil [] = true
is_nil (x ∷ xs) = false

abbrev pub is_slash : ℕ → Bool
is_slash c = c == b'/'

abbrev pub dot : Text
dot = b'.' ∷ []

abbrev pub slash : Text
slash = b'/' ∷ []

abbrev pub glob_all : Text
glob_all = b'*' ∷ b'*' ∷ []

-- strings.Trim(v, "/")
abbrev pub trim_slashes : Text → Text
trim_slashes v = trim_right is_slash (trim_left is_slash v)

unfoldable pub split_path : Text → List Text
split_path v =
    let trimmed = trim_slashes v in
    if is_empty trimmed || text_beq trimmed dot then [] else split b'/' trimmed

unfoldable pub has_glob : Text → Bool
has_glob pattern = contains pattern b'*' || (contains pattern b'?' || contains pattern b'[')

-- strings.HasSuffix(s, "/")
abbrev pub ends_with_slash : Text → Bool
ends_with_slash [] = false
ends_with_slash (c ∷ []) = is_slash c
ends_with_slash (c ∷ d ∷ s) = ends_with_slash (d ∷ s)

-- `for i := 0; i <= len(candidate); i++ { if f(candidate[i:]) { return true } }`
abbrev pub any_suffix : (List Text → Bool) → List Text → Bool
any_suffix f [] = f []
any_suffix f (c ∷ candidate) = f (c ∷ candidate) || any_suffix f candidate

abbrev pub is_match : Option Bool → Bool
is_match none = false
is_match (some matched) = matched

module _ (path_match : Text → Text → Option Bool) where
  unfoldable pub match_segments : List Text → List Text → Bool
  match_segments [] candidate = is_nil candidate
  match_segments (p ∷ pattern) [] =
      if text_beq p glob_all then is_nil pattern || match_segments pattern [] else false
  match_segments (p ∷ pattern) (c ∷ candidate) =
      if text_beq p glob_all
      then is_nil pattern || any_suffix (match_segments pattern) (c ∷ candidate)
      else is_match (path_match p c) && match_segments pattern candidate

pub record IncludeMatcher : Type 0 where
  pub everything : Bool
  pub literals : List Text
  pub patterns : List (List Text)

abbrev pub is_root : Text → Bool
is_root raw = text_beq raw dot || text_beq raw slash

abbrev pub with_include : Text → IncludeMatcher → IncludeMatcher
with_include normalized m =
    if has_glob normalized
    then record m { patterns = m.patterns ++ (split_path normalized ∷ []) }
    else record m { literals = m.literals ++ (normalized ∷ []) }

abbrev pub match_everything : IncludeMatcher
match_everything = record { everything = true; literals = []; patterns = [] }

module _ (clean : Text → Text) where
  unfoldable pub normalize_pattern : Text → Text
  normalize_pattern pattern =
      let trimmed = trim_space pattern in
      if is_empty trimmed
      then []
      else clean (
          if ends_with_slash trimmed
          then trim_right is_slash trimmed ++ (b'/' ∷ glob_all)
          else trimmed)

  -- The tests that the loop of `newIncludeMatcher` makes of one include.
  abbrev pub is_whole : Text → Bool
  is_whole raw =
      is_root raw || (is_empty (normalize_pattern raw) || text_beq (normalize_pattern raw) dot)

  unfoldable pub include_loop : List Text → IncludeMatcher → IncludeMatcher
  include_loop [] m = m
  include_loop (include ∷ includes) m =
      let raw = trim_space include in
      let rest =
        include_loop includes
          (if is_empty raw then m else with_include (normalize_pattern raw) m) in
      if is_empty raw then rest else if is_whole raw then match_everything else rest

  -- A nil list of includes is none.
  unfoldable pub new_include_matcher : Option (List Text) → IncludeMatcher
  new_include_matcher none = match_everything
  new_include_matcher (some includes) =
      include_loop includes (record { everything = false; literals = []; patterns = [] })

  -- The loop of `newExcludeMatcher`.
  unfoldable pub new_exclude_matcher : List Text → List (List Text)
  new_exclude_matcher [] = []
  new_exclude_matcher (pattern ∷ patterns) =
      let rest = new_exclude_matcher patterns in
      if is_empty (normalize_pattern pattern)
      then rest
      else split_path (normalize_pattern pattern) ∷ rest

abbrev pub is_under : Text → Text → Bool
is_under rel literal = text_beq rel literal || has_prefix rel (literal ++ slash)

module _ (path_match : Text → Text → Option Bool) where
  abbrev pub matches_path : List Text → Text → Bool
  matches_path pattern rel =
      not (text_beq rel dot) && match_segments path_match pattern (split_path rel)

  unfoldable pub exclude_match : List (List Text) → Text → Text → Bool
  exclude_match patterns rel_root rel_mount =
      any (λ pattern. matches_path pattern rel_root || matches_path pattern rel_mount) patterns

  -- Whether a walk skips the directory, and whether it skips the entry.
  unfoldable pub should_skip_entry : Text → Text → List (List Text) → Bool → Bool × Bool
  should_skip_entry rel_root rel_mount matcher is_dir =
      if exclude_match matcher rel_root rel_mount then (is_dir, true) else (false, false)

module _ (clean : Text → Text) (path_match : Text → Text → Option Bool) where
  unfoldable pub include_match : IncludeMatcher → Text → Bool
  include_match m rel =
      m.everything
      || (any (is_under (normalize_rel clean rel)) m.literals
          || any
              (λ pattern. match_segments path_match pattern (split_path (normalize_rel clean rel)))
              m.patterns)

  unfoldable pub filter_entries_by_path : List Entry → Option (List Text) → List Entry
  filter_entries_by_path entries includes =
      let m = new_include_matcher clean includes in
      if m.everything then entries else filter (λ entry. include_match m entry.path) entries
