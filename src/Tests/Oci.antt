-- ===== src/Tests/Oci.antt =====
-- internal/oci/reference.go: references with a tag, with a digest, and without a name.
use rmtx.Base.{◌≡◌, refl, ok, []}
use rmtx.Base.Text.{codes, trim_space, cut, split, join}
use rmtx.Oci.Reference.{
  Reference, parse_reference, build_reference, split_tag, last_index, locate,
  matches_digest_pattern, normalized,
}
use rmtx.Oci.Reference.Accepted.{IsAskable, parse_reference-IsAskable}

abbrev node : Reference
node = record {
  registry = codes "docker.io";
  repository = codes "library/node";
  reference = codes "latest";
  digest = [];
  tag = codes "latest";
  original = codes "node";
}

node_run : parse_reference (codes " node ") ≡ ok node
unfolding parse_reference trim_space cut build_reference locate split split_tag last_index
node_run = refl

normalized_run : normalized node ≡ codes "docker.io/library/node:latest"
unfolding normalized
normalized_run = refl

digest_run :
    parse_reference (codes "localhost:5000/team/app@sha256:ab")
    ≡ ok (record {
      registry = codes "localhost:5000";
      repository = codes "team/app";
      reference = codes "sha256:ab";
      digest = codes "sha256:ab";
      tag = [];
      original = codes "localhost:5000/team/app@sha256:ab";
    })
unfolding parse_reference trim_space cut matches_digest_pattern build_reference locate split
    split_tag last_index join
digest_run = refl

-- A reference without a name is accepted.
nameless_run :
    parse_reference (codes ":v1")
    ≡ ok (record {
      registry = codes "docker.io";
      repository = codes "library/";
      reference = codes "v1";
      digest = [];
      tag = codes "v1";
      original = codes ":v1";
    })
unfolding parse_reference trim_space cut build_reference locate split split_tag last_index
nameless_run = refl

parse_reference-IsAskable_example : IsAskable node
parse_reference-IsAskable_example = parse_reference-IsAskable (codes " node ") node node_run
