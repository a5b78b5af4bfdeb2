-- ===== src/Syncfs/Manifest/Pattern/Include.antt =====
-- internal/syncfs/manifest.go: the matcher that `newIncludeMatcher` compiles says what its includes
-- say one by one.
use rmtx.Base.{
  ◌≡◌, ◌↔◌, inl, inr, refl, ap, sym, ◌∙◌, Bool, true, false, ◌||◌, Option, none, some, List, [],
  ◌∷◌, ◌++◌, Bool-cases, arith, if◌then◌else◌, any, filter, Member, Member-keep, keep-here,
  keep-there,
}
use rmtx.Base.Text.{Text, is_empty, trim_space}
use rmtx.Syncfs.Manifest.{Entry, normalize_rel}
use rmtx.Syncfs.Manifest.Pattern.{
  match_segments, normalize_pattern, IncludeMatcher, is_whole, with_include, include_loop,
  new_include_matcher, include_match, is_under, has_glob, split_path, filter_entries_by_path,
}

module _ (clean : Text → Text) (path_match : Text → Text → Option Bool) where
  -- What one include takes in: nothing when it is blank, everything when it names the root, what
  -- its segments match when it has a wildcard, and else its path and what lies under it.
  abbrev pub covers : Text → Text → Bool
  covers include rel =
      let raw = trim_space include in
      let normalized = normalize_pattern clean raw in
      if is_empty raw
      then false
      else if is_whole clean raw
      then true
      else if has_glob normalized
      then match_segments path_match (split_path normalized) (split_path (normalize_rel clean rel))
      else is_under (normalize_rel clean rel) normalized

  any-append :
      {A : Type 0} (p : A → Bool) (xs ys : List A) → any p (xs ++ ys) ≡ (any p xs || any p ys)
  any-append p [] ys = refl
  any-append p (x ∷ xs) ys = ground (arith, any-append p xs ys)

  with_include-match :
      (normalized : Text) (m : IncludeMatcher) (rel : Text)
      → include_match clean path_match (with_include normalized m) rel ≡ (
          include_match clean path_match m rel
          || (if has_glob normalized
              then match_segments path_match
                  (split_path normalized)
                  (split_path (normalize_rel clean rel))
              else is_under (normalize_rel clean rel) normalized))
  unfolding include_match
  with_include-match normalized m rel =
      let rel_path = normalize_rel clean rel in
      let matches : List Text → Bool =
        λ pattern. match_segments path_match pattern (split_path rel_path) in
      ground (
        arith,
        any-append matches m.patterns (split_path normalized ∷ []),
        any-append (is_under rel_path) m.literals (normalized ∷ []),
      )

  include_loop-any :
      (includes : List Text) (m : IncludeMatcher) (rel : Text)
      → include_match clean path_match (include_loop clean includes m) rel
        ≡ (include_match clean path_match m rel || any (λ include. covers include rel) includes)
  unfolding include_loop include_match
  include_loop-any [] m rel = ground arith
  include_loop-any (include ∷ includes) m rel =
      let raw = trim_space include in
      elim (Bool-cases (is_empty raw)) [
        | inl blank ↦ simp blank (include_loop-any includes m rel)
        | inr written ↦ elim (Bool-cases (is_whole clean raw)) [
          | inl whole ↦ simp (written, whole) (ground arith)
          | inr part ↦
              simp (written, part)
                (include_loop-any includes (with_include (normalize_pattern clean raw) m) rel
                  ∙ ground (arith, with_include-match (normalize_pattern clean raw) m rel))
        ]
      ]

  -- The compiled matcher accepts a path if and only if one of the includes covers it.
  pub include_match-covers :
      (includes : List Text) (rel : Text)
      → include_match clean path_match (new_include_matcher clean (some includes)) rel
        ≡ any (λ include. covers include rel) includes
  unfolding new_include_matcher include_match
  include_match-covers includes rel =
      include_loop-any includes (record { everything = false; literals = []; patterns = [] }) rel

  filter-Member :
      (p : Entry → Bool) (a : Entry) (xs : List Entry)
      → Member a (filter p xs)
      → Member a xs × (p a ≡ true)
  filter-Member p a [] m = absurd m
  filter-Member p a (x ∷ xs) m = elim (Member-keep (p x) a x (filter p xs) m) [
    | inl (same, h) ↦ (inl same, ap p same ∙ h)
    | inr rest ↦ let r = filter-Member p a xs rest in (inr r.0, r.1)
  ]

  Member-filter :
      (p : Entry → Bool) (a : Entry) (xs : List Entry)
      → Member a xs
      → p a ≡ true
      → Member a (filter p xs)
  Member-filter p a [] m h = absurd m
  Member-filter p a (x ∷ xs) (inl same) h =
      simp same (keep-here (p x) x (filter p xs) (ap p (sym same) ∙ h))
  Member-filter p a (x ∷ xs) (inr m) h =
      keep-there (p x) a x (filter p xs) (Member-filter p a xs m h)

  -- `FilterEntriesByPath` keeps an entry if and only if the list of includes is nil or one of the
  -- includes covers the entry's path.
  pub filter_entries_by_path-covers :
      (entries : List Entry) (includes : List Text) (e : Entry)
      → (filter_entries_by_path clean path_match entries none ≡ entries)
        × (Member e (filter_entries_by_path clean path_match entries (some includes))
            ↔ (Member e entries × (any (λ include. covers include e.path) includes ≡ true)))
  unfolding filter_entries_by_path new_include_matcher
  filter_entries_by_path-covers entries includes e =
      let m = new_include_matcher clean (some includes) in
      let says = include_match-covers includes e.path in
      elim (Bool-cases m.everything) [
        | inl whole ↦
            simp whole
              (refl, (λ there. (there, sym says ∙ unfold include_match in ground arith), λ r. r.0))
        | inr part ↦ simp part (
          refl,
          (
            λ there.
                (let r =
                    filter-Member (λ entry. include_match clean path_match m entry.path) e entries
                      there in
                  (r.0, sym says ∙ r.1)),
            λ r.
                Member-filter (λ entry. include_match clean path_match m entry.path) e entries r.0
                  (says ∙ r.1),
          ),
        )
      ]
