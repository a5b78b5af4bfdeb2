-- ===== src/Oci/Reference.antt =====
-- internal/oci/reference.go: references to container images.
pub mod Accepted
use rmtx.Base.{
  ℕ, zero, suc, ◌+◌, Bool, true, false, not, ◌&&◌, ◌||◌, Option, none, some, List, [], ◌∷◌, ◌++◌,
  if◌then◌else◌, ◌==◌, ltb, leb, all, take, drop, Result, ok, err, ◌>>=◌, ◌>>◌, fail_if,
}
use rmtx.Base.Text.{
  Text, text_beq, codes, is_empty, is_ascii_digit, is_ascii_lower, is_ascii_upper, trim_space, cut,
  split, join, contains,
}

abbrev pub default_registry : Text
default_registry = codes "docker.io"

abbrev pub docker_hub_host : Text
docker_hub_host = codes "registry-1.docker.io"

abbrev pub default_tag : Text
default_tag = codes "latest"

pub record Reference : Type 0 where
  pub registry : Text
  pub repository : Text
  pub reference : Text
  pub digest : Text
  pub tag : Text
  pub original : Text

pub data ReferenceError : Type 0 where
  reference_required invalid_digest invalid_repository : ReferenceError

-- digestPattern
abbrev pub is_algorithm_letter : ℕ → Bool
is_algorithm_letter c =
    is_ascii_digit c
    || (is_ascii_lower c
        || (is_ascii_upper c || (c == b'_' || (c == b'+' || (c == b'.' || c == b'-')))))

abbrev pub is_hex_letter : ℕ → Bool
is_hex_letter c = is_ascii_digit c || ((leb b'a' c && leb c b'f') || (leb b'A' c && leb c b'F'))

abbrev pub is_some_of : (ℕ → Bool) → Text → Bool
is_some_of p s = not (is_empty s) && all p s

unfoldable pub matches_digest_pattern : Text → Bool
matches_digest_pattern digest = elim (cut b':' digest) [
  | none ↦ false
  | some (algorithm, value) ↦
      is_some_of is_algorithm_letter algorithm && is_some_of is_hex_letter value
]

-- strings.LastIndex for one code point; none is -1.
unfoldable pub last_index : Text → ℕ → Option ℕ
last_index [] c = none
last_index (d ∷ s) c = elim (last_index s c) [
  | some i ↦ some (suc i)
  | none ↦ if d == c then some 0 else none
]

-- strings.Contains(s, "..")
abbrev pub has_two_dots : Text → Bool
has_two_dots [] = false
has_two_dots (c ∷ []) = false
has_two_dots (c ∷ d ∷ s) = (c == b'.' && d == b'.') || has_two_dots (d ∷ s)

-- The name and the digest: `strings.Cut(value, "@")` and its check.
abbrev pub checked_digest : Option (Text × Text) → Text → Result ReferenceError (Text × Text)
checked_digest none value = ok (value, [])
checked_digest (some (name, digest)) value =
    if matches_digest_pattern digest then ok (name, digest) else err invalid_digest

-- The name without its tag, and the tag: a colon behind the last slash.
abbrev pub tag_at : Text → Option ℕ → Option ℕ → Text × Text
tag_at name slash none = (name, [])
tag_at name none (some colon) = (take colon name, drop (suc colon) name)
tag_at name (some slash) (some colon) =
    if ltb slash colon then (take colon name, drop (suc colon) name) else (name, [])

unfoldable pub split_tag : Text → Text × Text
split_tag name = tag_at name (last_index name b'/') (last_index name b':')

-- The registry and the repository.
abbrev pub is_registry : Text → Bool
is_registry part = contains part b'.' || (contains part b':' || text_beq part (codes "localhost"))

unfoldable pub locate : List Text → Text × Text
locate [] = (default_registry, [])
locate (part ∷ []) = (default_registry, codes "library/" ++ part)
locate (part ∷ next ∷ parts) =
    if is_registry part
    then (part, join b'/' (next ∷ parts))
    else (default_registry, join b'/' (part ∷ next ∷ parts))

abbrev pub tag_or_default : Text → Text → Text
tag_or_default digest tag = if is_empty digest && is_empty tag then default_tag else tag

-- `ParseReference` behind the digest.
unfoldable pub build_reference : Text → Text × Text → Result ReferenceError Reference
build_reference value (name, digest) =
    let (bare, written_tag) = split_tag name in
    let tag = tag_or_default digest written_tag in
    let (registry, repository) = locate (split b'/' bare) in
    fail_if (is_empty repository || has_two_dots repository) invalid_repository
    >> ok (record {
      registry = registry;
      repository = repository;
      reference = if is_empty digest then tag else digest;
      digest = digest;
      tag = tag;
      original = value;
    })

unfoldable pub parse_reference : Text → Result ReferenceError Reference
parse_reference raw =
    let value = trim_space raw in
    fail_if (is_empty value) reference_required
    >> (checked_digest (cut b'@' value) value >>= build_reference value)

unfoldable pub registry_host : Reference → Text
registry_host r = if text_beq r.registry default_registry then docker_hub_host else r.registry

unfoldable pub normalized : Reference → Text
normalized r =
    let s = r.registry ++ (b'/' ∷ r.repository) in
    if is_empty r.digest then s ++ (b':' ∷ r.tag) else s ++ (b'@' ∷ r.digest)
