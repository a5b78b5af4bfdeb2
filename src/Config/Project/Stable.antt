-- ===== src/Config/Project/Stable.antt =====
-- internal/config/config.go: what Load makes of a configuration; normalizing it once is enough.
use mathlib.Core.Path.{subst}
use rmtx.Config.Project.Filled.{Defaulted, normalize_config-Defaulted, int_beq-one, or_one-version}
use rmtx.Base.{
  ap, sym, ◌∙◌, ◌⊎◌, zero, suc, ◌≡◌, refl, Bool, false, Option, List, [], ◌∷◌, Result, ok, err,
  if◌then◌else◌, Bool-cases, inl, inr, arith,
}
use rmtx.Base.Int.{ℤ, pos, negsuc, int_beq}
use rmtx.Base.Text.{codes, Text, is_empty, trim_space, trim_left, trim_right, is_space}
use rmtx.Config.Runtime.{
  RuntimeConfig, RuntimeFault, or_default, normalize_runtime, validate_runtime,
}
use rmtx.Config.Project.{
  Config, Mount, or_whole, normalize_config, is_bad_timeout, with_runtime, check_config,
  load_decoded,
}

-- A default that is not blank stays.
or_default_twice :
    (value fallback : Text)
    → is_empty (trim_space fallback) ≡ false
    → or_default (or_default value fallback) fallback ≡ or_default value fallback
or_default_twice value fallback filled = elim (Bool-cases (is_empty (trim_space value))) [
  | inl y ↦ simp (y, filled) refl
  | inr n ↦ simp (n, n) refl
]

normalize_runtime_twice :
    (r : RuntimeConfig) → normalize_runtime (normalize_runtime r) ≡ normalize_runtime r
unfolding normalize_runtime trim_space trim_left trim_right is_space
normalize_runtime_twice r = elim (Bool-cases (is_empty (trim_space r.kind))) [
  | inl y ↦ simp (y, y) refl
  | inr n ↦
      simp
        (
          n,
          or_default_twice r.pull_policy (codes "if_missing") refl,
          or_default_twice r.work_dir (codes "/workspace") refl,
          or_default_twice r.network (codes "host") refl,
          or_default_twice r.user (codes "root") refl,
          or_default_twice r.gpu (codes "none") refl,
        )
        refl
]

or_one_twice :
    (v : ℤ)
    → let w = (if int_beq v (pos 0) then pos 1 else v) in
      (if int_beq w (pos 0) then pos 1 else w) ≡ w
or_one_twice (pos zero) = refl
or_one_twice (pos (suc n)) = ground arith
or_one_twice (negsuc n) = ground arith

or_whole_twice : (mounts : List Mount) → or_whole (or_whole mounts) ≡ or_whole mounts
or_whole_twice [] = refl
or_whole_twice (m ∷ mounts) = refl

normalize_config_twice :
    (cfg : Config) → normalize_config (normalize_config cfg) ≡ normalize_config cfg
unfolding normalize_config trim_space trim_left trim_right is_space
normalize_config_twice cfg =
    simp
      (
        or_one_twice cfg.version,
        or_whole_twice cfg.mounts,
        or_default_twice (cfg.discovery.service) (codes "rmtx") refl,
        or_default_twice (cfg.discovery.timeout) (codes "750ms") refl,
        normalize_runtime_twice cfg.runtime,
      )
      refl

module _ (equal_fold : Text → Text → Bool) (parse_duration : Text → Option ℤ) where
  with_runtime-same :
      (cfg loaded : Config) (r : Result RuntimeFault (Unit {0}))
      → with_runtime cfg r ≡ ok loaded
      → cfg ≡ loaded
  with_runtime-same cfg loaded (err fault) e = cc
  with_runtime-same cfg loaded (ok u) e = cc

  check_config-same :
      (cfg loaded : Config) → check_config equal_fold parse_duration cfg ≡ ok loaded → cfg ≡ loaded
  check_config-same cfg loaded e = elim (Bool-cases (int_beq cfg.version (pos 1))) [
    | inr n ↦ let bad = simp n at e in cc
    | inl y ↦ elim (Bool-cases (is_bad_timeout (parse_duration (cfg.discovery.timeout)))) [
      | inl b ↦ let bad = simp (y, b) at e in cc
      | inr g ↦
          with_runtime-same cfg loaded (validate_runtime equal_fold cfg.runtime) (simp (y, g) at e)
    ]
  ]

  check_config-version :
      (cfg loaded : Config)
      → check_config equal_fold parse_duration cfg ≡ ok loaded
      → cfg.version ≡ pos 1
  check_config-version cfg loaded e = elim (Bool-cases (int_beq cfg.version (pos 1))) [
    | inr n ↦ let bad = simp n at e in cc
    | inl y ↦ int_beq-one cfg.version y
  ]

  -- A configuration that Load accepts had the version 0 or 1 and has the version 1. Its defaults are
  -- filled in: the service and the timeout of the discovery, and, in a runtime with a type, the pull
  -- policy, the working directory, the network, the user and the gpu are the default where they were
  -- blank and stay as they were otherwise; without mounts it has the whole directory as one; all else
  -- is unchanged. Normalizing it again changes nothing, and checked again it is accepted as it is.
  pub load_decoded_stable :
      (cfg loaded : Config)
      → load_decoded equal_fold parse_duration cfg ≡ ok loaded
      → ((cfg.version ≡ pos 0) ⊎ (cfg.version ≡ pos 1))
        × (loaded.version ≡ pos 1)
        × Defaulted cfg loaded
        × (normalize_config loaded ≡ loaded)
        × (load_decoded equal_fold parse_duration loaded ≡ ok loaded)
  unfolding load_decoded
  load_decoded_stable cfg loaded e =
      let same = check_config-same (normalize_config cfg) loaded e in
      let fixed : normalize_config loaded ≡ loaded = rw⁻¹ same (normalize_config_twice cfg) in
      let version = check_config-version (normalize_config cfg) loaded e in
      (
        or_one-version cfg.version (unfold normalize_config in version),
        ap (λ c. c.version) (sym same) ∙ version,
        subst (Defaulted cfg) same (normalize_config-Defaulted cfg),
        fixed,
        rw fixed (rw same at e),
      )
