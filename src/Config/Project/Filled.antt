-- ===== src/Config/Project/Filled.antt =====
-- internal/config/config.go: the defaults of a configuration, field by field.
use rmtx.Base.{
  ◌≡◌, ◌<◌, ◌⊎◌, refl, true, false, List, [], ◌∷◌, if◌then◌else◌, Bool-cases, inl, inr, arith,
  length,
}
use rmtx.Base.Int.{ℤ, pos, negsuc, int_beq}
use rmtx.Base.Text.{codes, Text, is_empty, trim_space}
use rmtx.Config.Runtime.{RuntimeConfig, or_default, normalize_runtime}
use rmtx.Config.Project.{Config, Mount, or_whole, normalize_config}

abbrev IsBlank : Text → Type 0
IsBlank value = is_empty (trim_space value) ≡ true

abbrev IsGiven : Text → Type 0
IsGiven value = is_empty (trim_space value) ≡ false

-- A text that is blank is the default, and another one stays.
abbrev IsFilled : Text → Text → Text → Type 0
IsFilled old new fallback = IsBlank old × (new ≡ fallback) ⊎ IsGiven old × (new ≡ old)

-- Without mounts, the whole directory is one.
abbrev MountsFilled : List Mount → List Mount → Type 0
MountsFilled old new =
    (old ≡ []) × (new ≡ record { path = codes "."; exclude = [] } ∷ [])
    ⊎ (0 < length old) × (new ≡ old)

-- A runtime without a type is left as it is.
abbrev RuntimeFilled : RuntimeConfig → RuntimeConfig → Type 0
RuntimeFilled old new =
    IsBlank old.kind × (new ≡ old)
    ⊎ IsGiven old.kind
      × IsFilled old.pull_policy new.pull_policy (codes "if_missing")
      × IsFilled old.work_dir new.work_dir (codes "/workspace")
      × IsFilled old.network new.network (codes "host")
      × IsFilled old.user new.user (codes "root")
      × IsFilled old.gpu new.gpu (codes "none")
      × (new.kind ≡ old.kind)
      × (new.image ≡ old.image)
      × (new.wsl_distro ≡ old.wsl_distro)
      × (new.setup ≡ old.setup)
      × (new.volumes ≡ old.volumes)

-- Everything but the version.
abbrev pub Defaulted : Config → Config → Type 0
Defaulted old new =
    (new.context_name ≡ old.context_name)
    × (new.discovery.enabled ≡ old.discovery.enabled)
    × IsFilled (old.discovery.service) (new.discovery.service) (codes "rmtx")
    × IsFilled (old.discovery.timeout) (new.discovery.timeout) (codes "750ms")
    × MountsFilled old.mounts new.mounts
    × RuntimeFilled old.runtime new.runtime

or_default-IsFilled : (value fallback : Text) → IsFilled value (or_default value fallback) fallback
or_default-IsFilled value fallback = elim (Bool-cases (is_empty (trim_space value))) [
  | inl y ↦ inl (y, simp y refl)
  | inr n ↦ inr (n, simp n refl)
]

or_whole-MountsFilled : (mounts : List Mount) → MountsFilled mounts (or_whole mounts)
or_whole-MountsFilled [] = inl (refl, refl)
or_whole-MountsFilled (m ∷ mounts) = inr (omega arith, refl)

normalize_runtime-RuntimeFilled : (r : RuntimeConfig) → RuntimeFilled r (normalize_runtime r)
unfolding normalize_runtime
normalize_runtime-RuntimeFilled r = elim (Bool-cases (is_empty (trim_space r.kind))) [
  | inl y ↦ inl (y, simp y refl)
  | inr n ↦ inr (
    n,
    simp n (or_default-IsFilled r.pull_policy (codes "if_missing")),
    simp n (or_default-IsFilled r.work_dir (codes "/workspace")),
    simp n (or_default-IsFilled r.network (codes "host")),
    simp n (or_default-IsFilled r.user (codes "root")),
    simp n (or_default-IsFilled r.gpu (codes "none")),
    simp n refl,
    simp n refl,
    simp n refl,
    simp n refl,
    simp n refl,
  )
]

pub normalize_config-Defaulted : (cfg : Config) → Defaulted cfg (normalize_config cfg)
unfolding normalize_config
normalize_config-Defaulted cfg = (
  refl,
  refl,
  or_default-IsFilled (cfg.discovery.service) (codes "rmtx"),
  or_default-IsFilled (cfg.discovery.timeout) (codes "750ms"),
  or_whole-MountsFilled cfg.mounts,
  normalize_runtime-RuntimeFilled cfg.runtime,
)

pub int_beq-one : (v : ℤ) → int_beq v (pos 1) ≡ true → v ≡ pos 1
int_beq-one (pos n) e = ground (arith, e)
int_beq-one (negsuc n) e = absurd (ground (arith, e))

-- Only a version 0 or 1 becomes 1.
pub or_one-version :
    (v : ℤ) → (if int_beq v (pos 0) then pos 1 else v) ≡ pos 1 → (v ≡ pos 0) ⊎ (v ≡ pos 1)
or_one-version v e = elim (Bool-cases (int_beq v (pos 0))) [
  | inr n ↦ inr (simp n at e)
  | inl y ↦ inl (zero_of v y)
]
  where
    zero_of : (w : ℤ) → int_beq w (pos 0) ≡ true → w ≡ pos 0
    zero_of (pos n) h = ground (arith, h)
    zero_of (negsuc n) h = absurd (ground (arith, h))
