-- ===== src/Config/Runtime/Safe.antt =====
-- internal/config/config.go: what a runtime that is accepted may name.
use rmtx.Base.{
  arith, ◌++◌, ◌≡◌, refl, Bool, true, false, not, ◌||◌, List, [], ◌∷◌, Result, ok, ◌>>◌, >>=-parts,
  fail_if, fail_if-ok, any, All, Bool-cases, inl, inr,
}
use rmtx.Base.Path.{dots, dot, slash, is_rooted, clean}
use rmtx.Base.Path.Below.{clean-below}
use rmtx.Base.Path.Parents.{AllPlain}
use rmtx.Base.Path.Clean.{Plain}
use rmtx.Base.Text.{
  Text, text_beq, is_empty, trim_space, trim_left, trim_right, split, join, contains,
}
use rmtx.Config.Runtime.{
  unsupported_type, image_required, unsupported_pull_policy, unsupported_network, unsupported_gpu,
  unsupported_user, invalid_workdir, volume_name_required, invalid_volume_name,
  invalid_volume_target, RuntimeVolume, RuntimeConfig, RuntimeFault, normalize_runtime,
  valid_runtime_target, bad_volume_name, check_volume, check_volumes, check_oci, check_runtime,
  validate_runtime,
}

-- A path in the container that stays where the container's root is put: behind any directory
-- `base`, it is cleaned to the names of `base` and, below these, names alone.
abbrev pub IsBelow : Text → Text → Type 0
IsBelow base target =
    (names : List Text) × All Plain names
    × (clean (slash ∷ (base ++ target)) ≡ slash ∷ join slash (split slash base ++ names))

rooted-IsBelow :
    (base target : Text)
    → AllPlain base
    → is_rooted target ≡ true
    → any (λ segment. text_beq segment dots) (split slash target) ≡ false
    → IsBelow base target
unfolding split
rooted-IsBelow base [] h r up = cc
rooted-IsBelow base (c ∷ rest) h r up =
    let e : c ≡ slash = ground (arith, r) in rw e (clean-below base rest h (simp r at up))

valid_runtime_target-IsBelow :
    (base target : Text) → AllPlain base → valid_runtime_target target ≡ true → IsBelow base target
unfolding valid_runtime_target
valid_runtime_target-IsBelow base target h valid = elim (Bool-cases (is_rooted target)) [
  | inr r ↦ let bad = simp r at valid in cc
  | inl r ↦ elim (Bool-cases (contains target 0)) [
    | inl z ↦ let bad = simp (r, z) at valid in cc
    | inr z ↦ elim (Bool-cases (any (λ segment. text_beq segment dots) (split slash target))) [
      | inl u ↦ let bad = simp (r, z, u) at valid in cc
      | inr u ↦ rooted-IsBelow base target h r u
    ]
  ]
]

-- What `check >> rest` says of both, where the check is an `if`.
fail_if-parts :
    (bad : Bool) (fault : RuntimeFault) (rest : Result RuntimeFault (Unit {0})) (u : Unit {0})
    → (fail_if bad fault >> rest) ≡ ok u
    → (bad ≡ false) × (rest ≡ ok u)
fail_if-parts true fault rest u e = cc
fail_if-parts false fault rest u e = (refl, e)

parts :
    {bad : Bool} {rest : Result RuntimeFault (Unit {0})} {u : Unit {0}} (fault : RuntimeFault)
    → (fail_if bad fault >> rest) ≡ ok u
    → (bad ≡ false) × (rest ≡ ok u)
parts {bad} {rest} {u} fault e = fail_if-parts bad fault rest u e

not-false : (b : Bool) → not b ≡ false → b ≡ true
not-false true e = refl
not-false false e = cc

none_of-parts :
    (a b c d : Bool)
    → (a || b || c || d) ≡ false
    → (a ≡ false) × (b ≡ false) × (c ≡ false) × (d ≡ false)
none_of-parts false false false false e = (refl, refl, refl, refl)
none_of-parts false false false true e = cc
none_of-parts false false true d e = cc
none_of-parts false true c d e = cc
none_of-parts true b c d e = cc

-- A name for one entry of a directory, and a target that stays below the root.
abbrev pub IsVolume : Text → RuntimeVolume → Type 0
IsVolume base v = Plain v.name × IsBelow base v.target

Plain-name :
    (name : Text) → is_empty (trim_space name) ≡ false → bad_volume_name name ≡ false → Plain name
unfolding trim_space trim_left trim_right
Plain-name [] filled good = cc
Plain-name (c ∷ s) filled good =
    let (no_slash, _, not_dot, not_dots) =
      none_of-parts (contains (c ∷ s) b'/') (contains (c ∷ s) b'\\') (text_beq (c ∷ s) dot)
        (text_beq (c ∷ s) dots) good in
    (refl, not_dot, not_dots, no_slash)

check_volumes-IsVolume :
    (base : Text) (volumes : List RuntimeVolume) (u : Unit {0})
    → AllPlain base
    → check_volumes volumes ≡ ok u
    → All (IsVolume base) volumes
unfolding check_volumes
check_volumes-IsVolume base [] u h e = tt
check_volumes-IsVolume base (v ∷ volumes) u h e =
    let (first, checked, rest) = >>=-parts (check_volume v) (λ _. check_volumes volumes) e in
    let (filled, later) =
      fail_if-parts (is_empty (trim_space v.name)) volume_name_required
        (fail_if (bad_volume_name v.name) invalid_volume_name
          >> fail_if (not (valid_runtime_target v.target)) invalid_volume_target)
        first checked in
    let (good, last) =
      fail_if-parts (bad_volume_name v.name) invalid_volume_name
        (fail_if (not (valid_runtime_target v.target)) invalid_volume_target) first later in
    let target =
      fail_if-ok (not (valid_runtime_target v.target)) invalid_volume_target first last in
    (
      (
        Plain-name v.name filled good,
        valid_runtime_target-IsBelow base v.target h
            (not-false (valid_runtime_target v.target) target),
      ),
      check_volumes-IsVolume base volumes u h rest,
    )

-- What a run may rely on of the paths of a runtime that is set.
pub record IsSafe (base : Text) (r : RuntimeConfig) : Type 0 where
  pub work_dir_below : IsBelow base r.work_dir
  pub volumes_below : All (IsVolume base) r.volumes

normalize-kind :
    (r : RuntimeConfig)
    → is_empty (trim_space r.kind) ≡ false
    → is_empty (trim_space (normalize_runtime r).kind) ≡ false
unfolding normalize_runtime
normalize-kind r typed = simp typed refl

module _ (equal_fold : Text → Text → Bool) where
  check_oci-IsSafe :
      (base : Text) (r : RuntimeConfig) (u : Unit {0})
      → AllPlain base
      → check_oci equal_fold r ≡ ok u
      → IsSafe base r
  check_oci-IsSafe base r u h e =
      let (kind, e1) = parts unsupported_type e in
      let (image, e2) = parts image_required e1 in
      let (policy, e3) = parts unsupported_pull_policy e2 in
      let (network, e4) = parts unsupported_network e3 in
      let (gpu, e5) = parts unsupported_gpu e4 in
      let (user, e6) = parts unsupported_user e5 in
      let (work_dir, e7) = parts invalid_workdir e6 in
      record {
        work_dir_below = valid_runtime_target-IsBelow base r.work_dir h (not-false _ work_dir);
        volumes_below = check_volumes-IsVolume base r.volumes u h e7;
      }

  -- If validateRuntime accepts a runtime whose type is not blank, then, with the defaults filled in,
  -- its working directory and the targets of its volumes do not lead out of a container's root, on
  -- whatever directory that stands: put behind a rooted path of names alone, they are cleaned to
  -- these names with none or more names below them. The name of each volume is a name for one entry
  -- of a directory.
  pub validate_runtime-IsSafe :
      (base : Text) (r : RuntimeConfig) (u : Unit {0})
      → AllPlain base
      → is_empty (trim_space r.kind) ≡ false
      → validate_runtime equal_fold r ≡ ok u
      → IsSafe base (normalize_runtime r)
  unfolding validate_runtime check_runtime
  validate_runtime-IsSafe base r u h typed e =
      check_oci-IsSafe base (normalize_runtime r) u h (simp (normalize-kind r typed) at e)
