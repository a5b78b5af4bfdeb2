-- ===== src/Version.antt =====
-- internal/version/semver.go: release versions and their order.
-- `wide_digit` is the part of unicode.IsDigit beyond Latin-1.
pub mod Order
use rmtx.Base.{
  ℕ, Bool, true, false, not, ◌&&◌, ◌||◌, Option, none, some, List, [], ◌∷◌, ltb, leb, ◌==◌,
  if◌then◌else◌, all, is_some,
}
use rmtx.Base.Text.{
  Text, Sign, less, same, greater, sign, then_sign, compare_text, trim_space, has_prefix, cut,
  split, is_empty, byte_length, atoi, is_ascii_digit, is_ascii_lower, is_ascii_upper,
}

pub record ReleaseVersion : Type 0 where
  pub major : ℕ
  pub minor : ℕ
  pub patch : ℕ
  pub pre : List Text

-- An absent part leaves its default: no prerelease, and no build metadata to check.
pub record Split : Type 0 where
  pub first : Text
  pub rest : Option Text

abbrev pub cut_at : ℕ → Text → Split
cut_at sep s = elim (cut sep s) [
  | none ↦ record { first = s; rest = none }
  | some (before, after) ↦ record { first = before; rest = some after }
]

-- An identifier of digits that fits int is a number. Numbers stand before other identifiers.
abbrev pub compare_numbers : Option ℕ → Option ℕ → Sign → Sign
compare_numbers (some a) (some b) texts = sign a b
compare_numbers (some a) none texts = less
compare_numbers none (some b) texts = greater
compare_numbers none none texts = texts

module _ (wide_digit : ℕ → Bool) where
  -- unicode.IsDigit
  unfoldable pub is_digit : ℕ → Bool
  is_digit c = is_ascii_digit c || (ltb 255 c && wide_digit c)

  unfoldable pub parse_digits : Text → Option ℕ
  parse_digits value =
      if is_empty value then none else if all is_digit value then atoi value else none

  -- No leading zero, then digits.
  unfoldable pub parse_numeric_part : Text → Option ℕ
  parse_numeric_part value =
      if ltb 1 (byte_length value) && has_prefix value (b'0' ∷ []) then none else parse_digits value

  abbrev pub is_identifier_char : ℕ → Bool
  is_identifier_char c = is_digit c || is_ascii_upper c || is_ascii_lower c || c == b'-'

  unfoldable pub valid_dot_identifiers : Text → Bool
  valid_dot_identifiers value =
      not (is_empty value)
      && all (λ part. not (is_empty part) && all is_identifier_char part) (split b'.' value)

  -- What stands behind a `-` or a `+`, when there is one, is dotted identifiers.
  abbrev pub valid_part : Option Text → Bool
  valid_part none = true
  valid_part (some value) = valid_dot_identifiers value

  abbrev pub pre_parts : Option Text → List Text
  pre_parts none = []
  pre_parts (some pre) = split b'.' pre

  -- The three numbers of `major.minor.patch`.
  unfoldable pub parse_core : List Text → Option (ℕ × ℕ × ℕ)
  parse_core (a ∷ b ∷ c ∷ []) = elim (parse_numeric_part a) [
    | none ↦ none
    | some major ↦ elim (parse_numeric_part b) [
      | none ↦ none
      | some minor ↦ elim (parse_numeric_part c) [
        | none ↦ none
        | some patch ↦ some (major, minor, patch)
      ]
    ]
  ]
  parse_core _ = none

  -- `parseRelease` behind the prefix: `core+metadata`, and `base-pre` in the core.
  unfoldable pub parse_tail : Text → Option ReleaseVersion
  parse_tail v =
      let build = cut_at b'+' v in
      let core = cut_at b'-' build.first in
      if is_empty build.first then none else elim (parse_core (split b'.' core.first)) [
        | none ↦ none
        | some (major, minor, patch) ↦
            if valid_part core.rest && valid_part build.rest
            then some
                (record { major = major; minor = minor; patch = patch; pre = pre_parts core.rest })
            else none
      ]

  unfoldable pub parse_prefixed : Text → Option ReleaseVersion
  parse_prefixed [] = none
  parse_prefixed (c ∷ v) = if c == b'v' then parse_tail v else none

  unfoldable pub parse_release : Text → Option ReleaseVersion
  parse_release v = parse_prefixed (trim_space v)

  unfoldable pub valid_release : Text → Bool
  valid_release v = is_some (parse_release v)

  unfoldable pub compare_prerelease_identifier : Text → Text → Sign
  compare_prerelease_identifier a b =
      compare_numbers (parse_digits a) (parse_digits b) (compare_text a b)

  -- The loop over the common length, and then the lengths.
  unfoldable pub compare_identifiers : List Text → List Text → Sign
  compare_identifiers [] [] = same
  compare_identifiers [] (b ∷ ys) = less
  compare_identifiers (a ∷ xs) [] = greater
  compare_identifiers (a ∷ xs) (b ∷ ys) =
      then_sign (compare_prerelease_identifier a b) (compare_identifiers xs ys)

  -- A release stands behind its prereleases.
  unfoldable pub compare_prerelease : List Text → List Text → Sign
  compare_prerelease [] [] = same
  compare_prerelease [] (b ∷ ys) = greater
  compare_prerelease (a ∷ xs) [] = less
  compare_prerelease (a ∷ xs) (b ∷ ys) = compare_identifiers (a ∷ xs) (b ∷ ys)

  unfoldable pub compare_versions : ReleaseVersion → ReleaseVersion → Sign
  compare_versions a b = then_sign (sign a.major b.major) (
      then_sign (sign a.minor b.minor)
        (then_sign (sign a.patch b.patch) (compare_prerelease a.pre b.pre)))

  unfoldable pub compare_release : Text → Text → Option Sign
  compare_release a b = elim (parse_release a) [
    | none ↦ none
    | some av ↦ elim (parse_release b) [ none ↦ none | some bv ↦ some (compare_versions av bv) ]
  ]
