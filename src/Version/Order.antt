-- ===== src/Version/Order.antt =====
-- The order of release versions.
use rmtx.Base.{
  ℕ, ◌≡◌, ap, ◌&&◌, refl, Bool, Option, none, some, List, [], ◌∷◌, arith, is_some, Option-cases,
  inl, inr,
}
use rmtx.Base.Text.{
  Text, Sign, less, same, greater, flip, sign, then_sign, compare_text, trim_space,
}
use rmtx.Base.Text.Laws.{compare_text-flip, trim_space_idem}
use rmtx.Version.{
  ReleaseVersion, parse_digits, parse_prefixed, parse_release, valid_release, compare_numbers,
  compare_prerelease_identifier, compare_identifiers, compare_prerelease, compare_versions,
  compare_release,
}

-- What the signs of (x, y) and (y, z) say about the sign of (x, z).
abbrev pub Chains : Sign → Sign → Sign → Type 0
Chains same t r = r ≡ t
Chains less same r = r ≡ less
Chains less less r = r ≡ less
Chains less greater r = Unit
Chains greater same r = r ≡ greater
Chains greater greater r = r ≡ greater
Chains greater less r = Unit

-- Whatever t is: (less, t) cannot contradict `less`, and (t, less) cannot either.
Chains-less : (t : Sign) → Chains less t less × Chains t less less
Chains-less less = (refl, refl)
Chains-less same = (refl, refl)
Chains-less greater = (tt, tt)

Chains-greater : (t : Sign) → Chains greater t greater × Chains t greater greater
Chains-greater less = (tt, tt)
Chains-greater same = (refl, refl)
Chains-greater greater = (refl, refl)

then_sign-Chains :
    (s t r s' t' r' : Sign)
    → Chains s t r
    → Chains s' t' r'
    → Chains (then_sign s s') (then_sign t t') (then_sign r r')
then_sign-Chains less less r s' t' r' h k = rw h refl
then_sign-Chains less same r s' t' r' h k = rw h ((Chains-less t').0)
then_sign-Chains less greater r s' t' r' h k = tt
then_sign-Chains greater greater r s' t' r' h k = rw h refl
then_sign-Chains greater same r s' t' r' h k = rw h ((Chains-greater t').0)
then_sign-Chains greater less r s' t' r' h k = tt
then_sign-Chains same less r s' t' r' h k = rw h ((Chains-less s').1)
then_sign-Chains same greater r s' t' r' h k = rw h ((Chains-greater s').1)
then_sign-Chains same same r s' t' r' h k = rw h k

sign-Chains : (a b c : ℕ) → Chains (sign a b) (sign b c) (sign a c)
sign-Chains a b c = ground arith

flip-then_sign :
    (s t s' t' : Sign) → s' ≡ flip s → t' ≡ flip t → then_sign s' t' ≡ flip (then_sign s t)
flip-then_sign less t s' t' h k = rw h refl
flip-then_sign same t s' t' h k = rw h k
flip-then_sign greater t s' t' h k = rw h refl

sign-flip : (a b : ℕ) → sign b a ≡ flip (sign a b)
sign-flip a b = ground arith

compare_text-Chains :
    (s t u : Text) → Chains (compare_text s t) (compare_text t u) (compare_text s u)
unfolding compare_text
compare_text-Chains [] [] u = refl
compare_text-Chains [] (d ∷ t) [] = tt
compare_text-Chains [] (d ∷ t) (e ∷ u) = (Chains-less (compare_text (d ∷ t) (e ∷ u))).0
compare_text-Chains (c ∷ s) [] [] = refl
compare_text-Chains (c ∷ s) [] (e ∷ u) = tt
compare_text-Chains (c ∷ s) (d ∷ t) [] = (Chains-greater (compare_text (c ∷ s) (d ∷ t))).1
compare_text-Chains (c ∷ s) (d ∷ t) (e ∷ u) =
    then_sign-Chains _ _ _ _ _ _ (sign-Chains c d e) (compare_text-Chains s t u)

compare_numbers-Chains :
    (a b c : Option ℕ) (s t r : Sign)
    → Chains s t r
    → Chains (compare_numbers a b s) (compare_numbers b c t) (compare_numbers a c r)
compare_numbers-Chains (some a) (some b) (some c) s t r h = sign-Chains a b c
compare_numbers-Chains (some a) (some b) none s t r h = (Chains-less (sign a b)).1
compare_numbers-Chains (some a) none (some c) s t r h = tt
compare_numbers-Chains (some a) none none s t r h = (Chains-less t).0
compare_numbers-Chains none (some b) (some c) s t r h = (Chains-greater (sign b c)).0
compare_numbers-Chains none (some b) none s t r h = tt
compare_numbers-Chains none none (some c) s t r h = (Chains-greater s).1
compare_numbers-Chains none none none s t r h = h

abbrev pub flip_option : Option Sign → Option Sign
flip_option none = none
flip_option (some s) = some (flip s)

module _ (wide_digit : ℕ → Bool) where
  identifier-Chains :
      (a b c : Text)
      → Chains
          (compare_prerelease_identifier wide_digit a b)
          (compare_prerelease_identifier wide_digit b c)
          (compare_prerelease_identifier wide_digit a c)
  unfolding compare_prerelease_identifier
  identifier-Chains a b c =
      compare_numbers-Chains (parse_digits wide_digit a) (parse_digits wide_digit b)
        (parse_digits wide_digit c) _ _ _ (compare_text-Chains a b c)

  identifiers-Chains :
      (a b c : List Text)
      → Chains
          (compare_identifiers wide_digit a b)
          (compare_identifiers wide_digit b c)
          (compare_identifiers wide_digit a c)
  unfolding compare_identifiers
  identifiers-Chains [] [] u = refl
  identifiers-Chains [] (d ∷ t) [] = tt
  identifiers-Chains [] (d ∷ t) (e ∷ u) =
      (Chains-less (compare_identifiers wide_digit (d ∷ t) (e ∷ u))).0
  identifiers-Chains (c ∷ s) [] [] = refl
  identifiers-Chains (c ∷ s) [] (e ∷ u) = tt
  identifiers-Chains (c ∷ s) (d ∷ t) [] =
      (Chains-greater (compare_identifiers wide_digit (c ∷ s) (d ∷ t))).1
  identifiers-Chains (c ∷ s) (d ∷ t) (e ∷ u) =
      then_sign-Chains _ _ _ _ _ _ (identifier-Chains c d e) (identifiers-Chains s t u)

  prerelease-Chains :
      (a b c : List Text)
      → Chains
          (compare_prerelease wide_digit a b)
          (compare_prerelease wide_digit b c)
          (compare_prerelease wide_digit a c)
  unfolding compare_prerelease
  prerelease-Chains [] [] u = refl
  prerelease-Chains [] (d ∷ t) [] = tt
  prerelease-Chains [] (d ∷ t) (e ∷ u) =
      (Chains-greater (compare_identifiers wide_digit (d ∷ t) (e ∷ u))).0
  prerelease-Chains (c ∷ s) [] [] = refl
  prerelease-Chains (c ∷ s) [] (e ∷ u) = tt
  prerelease-Chains (c ∷ s) (d ∷ t) [] =
      (Chains-less (compare_identifiers wide_digit (c ∷ s) (d ∷ t))).1
  prerelease-Chains (c ∷ s) (d ∷ t) (e ∷ u) = identifiers-Chains (c ∷ s) (d ∷ t) (e ∷ u)

  versions-Chains :
      (a b c : ReleaseVersion)
      → Chains
          (compare_versions wide_digit a b)
          (compare_versions wide_digit b c)
          (compare_versions wide_digit a c)
  unfolding compare_versions
  versions-Chains a b c = then_sign-Chains _ _ _ _ _ _ (sign-Chains a.major b.major c.major) (
      then_sign-Chains _ _ _ _ _ _ (sign-Chains a.minor b.minor c.minor) (
        then_sign-Chains _ _ _ _ _ _ (sign-Chains a.patch b.patch c.patch)
          (prerelease-Chains a.pre b.pre c.pre)))

  compare_release-parses :
      (a b : Text) (s : Sign)
      → compare_release wide_digit a b ≡ some s
      → (av : ReleaseVersion) × (bv : ReleaseVersion) × (parse_release wide_digit a ≡ some av)
        × (parse_release wide_digit b ≡ some bv)
        × (s ≡ compare_versions wide_digit av bv)
  unfolding compare_release
  compare_release-parses a b s h = elim (Option-cases (parse_release wide_digit a)) [
    | inl e ↦ absurd (ground arith)
    | inr (av, e) ↦ elim (Option-cases (parse_release wide_digit b)) [
      | inl d ↦ absurd (ground arith)
      | inr (bv, d) ↦ (av, bv, e, d, ground arith)
    ]
  ]

  -- The order of releases chains: from the results for (a, b) and (b, c) follows the one for (a, c)
  -- wherever they point the same way, so it is transitive, and releases that compare as equal
  -- compare alike with every other one.
  pub compare_release-Chains :
      (a b c : Text) (s t r : Sign)
      → compare_release wide_digit a b ≡ some s
      → compare_release wide_digit b c ≡ some t
      → compare_release wide_digit a c ≡ some r
      → Chains s t r
  compare_release-Chains a b c s t r h k l =
      let (av, bv, p, q, e) = compare_release-parses a b s h in
      let (bv', cv, p', q', e') = compare_release-parses b c t k in
      let (av'', cv'', p'', q'', e'') = compare_release-parses a c r l in
      let f : t ≡ compare_versions wide_digit bv cv = cc in
      let g : r ≡ compare_versions wide_digit av cv = cc in rw (e, f, g) (versions-Chains av bv cv)

  identifier_flip :
      (a b : Text)
      → compare_prerelease_identifier wide_digit b a
        ≡ flip (compare_prerelease_identifier wide_digit a b)
  unfolding compare_prerelease_identifier
  identifier_flip a b = flipped (parse_digits wide_digit a) (parse_digits wide_digit b)
    where
      flipped :
          (m n : Option ℕ)
          → compare_numbers n m (compare_text b a) ≡ flip (compare_numbers m n (compare_text a b))
      flipped (some m) (some n) = sign-flip m n
      flipped (some m) none = refl
      flipped none (some n) = refl
      flipped none none = compare_text-flip a b

  identifiers_flip :
      (a b : List Text)
      → compare_identifiers wide_digit b a ≡ flip (compare_identifiers wide_digit a b)
  unfolding compare_identifiers
  identifiers_flip [] [] = refl
  identifiers_flip [] (d ∷ t) = refl
  identifiers_flip (c ∷ s) [] = refl
  identifiers_flip (c ∷ s) (d ∷ t) =
      flip-then_sign _ _ _ _ (identifier_flip c d) (identifiers_flip s t)

  prerelease_flip :
      (a b : List Text)
      → compare_prerelease wide_digit b a ≡ flip (compare_prerelease wide_digit a b)
  unfolding compare_prerelease
  prerelease_flip [] [] = refl
  prerelease_flip [] (d ∷ t) = refl
  prerelease_flip (c ∷ s) [] = refl
  prerelease_flip (c ∷ s) (d ∷ t) = identifiers_flip (c ∷ s) (d ∷ t)

  versions_flip :
      (a b : ReleaseVersion)
      → compare_versions wide_digit b a ≡ flip (compare_versions wide_digit a b)
  unfolding compare_versions
  versions_flip a b = flip-then_sign _ _ _ _ (sign-flip a.major b.major) (
      flip-then_sign _ _ _ _ (sign-flip a.minor b.minor)
        (flip-then_sign _ _ _ _ (sign-flip a.patch b.patch) (prerelease_flip a.pre b.pre)))

  -- `CompareRelease` answers exactly for two valid releases, and swapping them turns the sign.
  pub compare_release_flip :
      (a b : Text)
      → (is_some (compare_release wide_digit a b)
          ≡ (valid_release wide_digit a && valid_release wide_digit b))
        × (compare_release wide_digit b a ≡ flip_option (compare_release wide_digit a b))
  unfolding compare_release valid_release
  compare_release_flip a b = elim (Option-cases (parse_release wide_digit a)) [
    | inl e ↦ ground arith
    | inr (av, e) ↦ elim (Option-cases (parse_release wide_digit b)) [
      | inl d ↦ ground arith
      | inr (bv, d) ↦ ground (arith, versions_flip av bv)
    ]
  ]

  -- White space around a version changes nothing.
  pub valid_release-trim_space :
      (v : Text) → valid_release wide_digit (trim_space v) ≡ valid_release wide_digit v
  unfolding valid_release parse_release
  valid_release-trim_space v = ap (λ t. is_some (parse_prefixed wide_digit t)) (trim_space_idem v)
