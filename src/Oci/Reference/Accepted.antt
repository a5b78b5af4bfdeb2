-- ===== src/Oci/Reference/Accepted.antt =====
-- internal/oci/reference.go: what holds of every reference that ParseReference accepts.
use rmtx.Base.{
  ◌≡◌, ◌⊎◌, refl, inl, inr, true, false, ◌||◌, Option, none, some, List, [], ◌∷◌, if◌then◌else◌, ok,
  fail_if, >>=-parts, fail_if-ok, Bool-cases, arith,
}
use rmtx.Base.Text.{Text, is_empty, trim_space, cut, split}
use rmtx.Oci.Reference.{
  Reference, reference_required, invalid_repository, matches_digest_pattern, has_two_dots,
  checked_digest, split_tag, locate, tag_or_default, build_reference, parse_reference,
  registry_host,
}

-- A reference that can be asked for: a repository without a way up at a registry that is not empty,
-- and in it a digest of the pattern, or a tag.
abbrev pub IsAskable : Reference → Type 0
IsAskable r =
    (is_empty r.repository ≡ false)
    × (has_two_dots r.repository ≡ false)
    × (is_empty (registry_host r) ≡ false)
    × (is_empty r.reference ≡ false)
    × (if is_empty r.digest
        then r.reference ≡ r.tag
        else (matches_digest_pattern r.digest ≡ true) × (r.reference ≡ r.digest))

locate-registry : (parts : List Text) → is_empty (locate parts).0 ≡ false
unfolding locate
locate-registry [] = refl
locate-registry (part ∷ []) = refl
locate-registry ([] ∷ next ∷ parts) = refl
locate-registry ((c ∷ part) ∷ next ∷ parts) = ground arith

checked_digest-matches :
    (o : Option (Text × Text)) (value name digest : Text)
    → checked_digest o value ≡ ok (name, digest)
    → (is_empty digest ≡ true) ⊎ (matches_digest_pattern digest ≡ true)
checked_digest-matches none value name digest h =
    let same : [] ≡ digest = cc in inl (rw⁻¹ same refl)
checked_digest-matches (some (n, d)) value name digest h =
    elim (Bool-cases (matches_digest_pattern d)) [
      | inl fits ↦ let same : d ≡ digest = (let done = simp fits at h in cc) in inr (rw⁻¹ same fits)
      | inr fails ↦ absurd (let done = simp fails at h in cc)
    ]

registry_host-some :
    (r : Reference) → is_empty r.registry ≡ false → is_empty (registry_host r) ≡ false
unfolding registry_host
registry_host-some r h = ground (arith, h)

reference-some :
    (digest written : Text)
    → is_empty (if is_empty digest then tag_or_default digest written else digest) ≡ false
reference-some [] [] = refl
reference-some [] (c ∷ written) = refl
reference-some (d ∷ digest) written = refl

reference-kind :
    (digest tag : Text)
    → (is_empty digest ≡ true) ⊎ (matches_digest_pattern digest ≡ true)
    → (if is_empty digest
        then (if is_empty digest then tag else digest) ≡ tag
        else (matches_digest_pattern digest ≡ true)
          × ((if is_empty digest then tag else digest) ≡ digest))
reference-kind [] tag h = refl
reference-kind (d ∷ digest) tag (inl h) = cc
reference-kind (d ∷ digest) tag (inr h) = (h, refl)

-- Behind its check, a reference is built from the parts.
build_reference-IsAskable :
    (value name digest : Text) (r : Reference)
    → (is_empty digest ≡ true) ⊎ (matches_digest_pattern digest ≡ true)
    → build_reference value (name, digest) ≡ ok r
    → IsAskable r
unfolding build_reference
build_reference-IsAskable value name digest r checked h =
    let (bare, written) = split_tag name in
    let (registry, repository) = locate (split b'/' bare) in
    let (passed, calm, last) =
      >>=-parts (fail_if (is_empty repository || has_two_dots repository) invalid_repository) _ h in
    let fine =
      fail_if-ok (is_empty repository || has_two_dots repository) invalid_repository passed calm in
    let tag = tag_or_default digest written in
    let built : Reference = record {
      registry = registry;
      repository = repository;
      reference = if is_empty digest then tag else digest;
      digest = digest;
      tag = tag;
      original = value;
    } in
    let same : built ≡ r = cc in
    rw⁻¹ same (
      ground (arith, fine),
      ground (arith, fine),
      registry_host-some built (locate-registry (split b'/' bare)),
      reference-some digest written,
      reference-kind digest tag checked,
    )

-- A reference that `ParseReference` accepts has a repository that is not empty and holds no `..`, a
-- registry host and a reference that are not empty, and asks for its digest, which is one of the
-- pattern, if it has one, and else for its tag.
pub parse_reference-IsAskable :
    (raw : Text) (r : Reference) → parse_reference raw ≡ ok r → IsAskable r
unfolding parse_reference
parse_reference-IsAskable raw r h =
    let value = trim_space raw in
    let (_, _, rest) = >>=-parts (fail_if (is_empty value) reference_required) _ h in
    let ((name, digest), checked, built) =
      >>=-parts (checked_digest (cut b'@' value) value) _ rest in
    build_reference-IsAskable value name digest r
      (checked_digest-matches (cut b'@' value) value name digest checked) built
