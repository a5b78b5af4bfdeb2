-- ===== src/Config/Project.antt =====
-- internal/config/config.go: the defaults of a configuration, and what Load checks of the one that
-- it decoded. `parse_duration` is time.ParseDuration.
pub mod Stable
pub mod Filled
use rmtx.Base.{
  ℕ, ◌==◌, Bool, true, false, not, Option, none, some, List, [], ◌∷◌, Result, ok, err,
  if◌then◌else◌,
}
use rmtx.Base.Int.{ℤ, pos, int_beq, is_nonpos}
use rmtx.Base.Text.{codes, Text, is_empty, trim_space}
use rmtx.Config.Runtime.{
  RuntimeConfig, RuntimeFault, or_default, normalize_runtime, validate_runtime,
}

pub record Mount : Type 0 where
  pub path : Text
  pub exclude : List Text

pub record DiscoveryConfig : Type 0 where
  pub enabled : Option Bool
  pub service : Text
  pub timeout : Text

-- The parts that the checks and the context's id read.
pub record Config : Type 0 where
  pub version : ℤ
  pub context_name : Text
  pub runtime : RuntimeConfig
  pub discovery : DiscoveryConfig
  pub mounts : List Mount

-- `if len(cfg.Mounts) == 0 { cfg.Mounts = []Mount{{Path: "."}} }`
abbrev pub or_whole : List Mount → List Mount
or_whole [] = record { path = codes "."; exclude = [] } ∷ []
or_whole (m ∷ mounts) = m ∷ mounts

unfoldable pub normalize_config : Config → Config
normalize_config cfg = record cfg {
  version = (if int_beq cfg.version (pos 0) then pos 1 else cfg.version);
  mounts = or_whole cfg.mounts;
  discovery = record (cfg.discovery) {
    service = or_default (cfg.discovery.service) (codes "rmtx");
    timeout = or_default (cfg.discovery.timeout) (codes "750ms");
  };
  runtime = normalize_runtime cfg.runtime;
}

pub data ConfigFault : Type 0 where
  unsupported_version invalid_timeout : ConfigFault
  invalid_runtime : RuntimeFault → ConfigFault

-- `err != nil || timeout <= 0`
abbrev pub is_bad_timeout : Option ℤ → Bool
is_bad_timeout none = true
is_bad_timeout (some timeout) = is_nonpos timeout

abbrev pub with_runtime : Config → Result RuntimeFault (Unit {0}) → Result ConfigFault Config
with_runtime cfg (err fault) = err (invalid_runtime fault)
with_runtime cfg (ok u) = ok cfg

module _ (equal_fold : Text → Text → Bool) (parse_duration : Text → Option ℤ) where
  abbrev pub check_config : Config → Result ConfigFault Config
  check_config cfg =
      if not (int_beq cfg.version (pos 1))
      then err unsupported_version
      else if is_bad_timeout (parse_duration (cfg.discovery.timeout))
      then err invalid_timeout
      else with_runtime cfg (validate_runtime equal_fold cfg.runtime)

  -- Load, behind the decoder.
  unfoldable pub load_decoded : Config → Result ConfigFault Config
  load_decoded cfg = check_config (normalize_config cfg)

-- DiscoveryEnabled
unfoldable pub discovery_enabled : Config → Bool
discovery_enabled cfg = elim cfg.discovery.enabled [ none ↦ true | some on ↦ on ]
