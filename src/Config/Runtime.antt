-- ===== src/Config/Runtime.antt =====
-- internal/config/config.go: the runtime of a configuration. `equal_fold` is strings.EqualFold.
pub mod Safe
use rmtx.Base.{
  ℕ, ltb, ◌==◌, Bool, true, false, not, ◌&&◌, ◌||◌, List, [], ◌∷◌, Result, ok, err, ◌>>◌, fail_if,
  if◌then◌else◌, any, length,
}
use rmtx.Base.Path.{clean, dots, dot, slash, is_rooted}
use rmtx.Base.Text.{codes, Text, text_beq, is_empty, trim_space, split, contains}

pub record RuntimeVolume : Type 0 where
  pub name : Text
  pub target : Text

pub record RuntimeSetup : Type 0 where
  pub image_commands : List Text
  pub context_commands : List Text
  pub context_inputs : List Text

-- `type` is a word of the language.
pub record RuntimeConfig : Type 0 where
  pub kind : Text
  pub image : Text
  pub pull_policy : Text
  pub work_dir : Text
  pub network : Text
  pub user : Text
  pub gpu : Text
  pub wsl_distro : Text
  pub setup : RuntimeSetup
  pub volumes : List RuntimeVolume

-- `if strings.TrimSpace(value) == "" { value = fallback }`
abbrev pub or_default : Text → Text → Text
or_default value fallback = if is_empty (trim_space value) then fallback else value

unfoldable pub normalize_runtime : RuntimeConfig → RuntimeConfig
normalize_runtime r = if is_empty (trim_space r.kind) then r else record r {
  pull_policy = or_default r.pull_policy (codes "if_missing");
  work_dir = or_default r.work_dir (codes "/workspace");
  network = or_default r.network (codes "host");
  user = or_default r.user (codes "root");
  gpu = or_default r.gpu (codes "none");
}

abbrev pub is_set : Text → Bool
is_set value = not (is_empty (trim_space value))

abbrev pub has_items : {A : Type 0} → List A → Bool
has_items xs = ltb 0 (length xs)

unfoldable pub runtime_configured : RuntimeConfig → Bool
runtime_configured r =
    if is_set r.image
      || is_set r.pull_policy
      || is_set r.wsl_distro
      || is_set r.work_dir
      || is_set r.network
      || is_set r.user
      || is_set r.gpu
    then true
    else has_items r.setup.image_commands
      || has_items r.setup.context_commands
      || has_items r.setup.context_inputs
      || has_items r.volumes

-- path.Clean is filepath.Clean on Unix.
unfoldable pub valid_runtime_target : Text → Bool
valid_runtime_target target =
    if not (is_rooted target) || contains target 0
    then false
    else if any (λ segment. text_beq segment dots) (split slash target)
    then false
    else not (text_beq (clean target) dot)

pub data RuntimeFault : Type 0 where
  type_required unsupported_type image_required unsupported_pull_policy unsupported_network
        unsupported_gpu unsupported_user invalid_workdir volume_name_required invalid_volume_name
        invalid_volume_target :
      RuntimeFault

abbrev pub bad_volume_name : Text → Bool
bad_volume_name name =
    contains name b'/' || contains name b'\\' || text_beq name dot || text_beq name dots

abbrev pub check_volume : RuntimeVolume → Result RuntimeFault (Unit {0})
check_volume v =
    fail_if (is_empty (trim_space v.name)) volume_name_required
    >> (fail_if (bad_volume_name v.name) invalid_volume_name
        >> fail_if (not (valid_runtime_target v.target)) invalid_volume_target)

unfoldable pub check_volumes : List RuntimeVolume → Result RuntimeFault (Unit {0})
check_volumes [] = ok tt
check_volumes (v ∷ volumes) = check_volume v >> check_volumes volumes

module _ (equal_fold : Text → Text → Bool) where
  abbrev pub equal_any : Text → List Text → Bool
  equal_any value allowed = any (λ item. equal_fold value item) allowed

  abbrev pub check_oci : RuntimeConfig → Result RuntimeFault (Unit {0})
  check_oci r =
      fail_if (not (equal_any (trim_space r.kind) (codes "oci" ∷ []))) unsupported_type
      >> (fail_if (is_empty (trim_space r.image)) image_required
          >> (fail_if
                (not (
                  equal_any r.pull_policy
                    (codes "if_missing" ∷ codes "always" ∷ codes "never" ∷ [])))
                unsupported_pull_policy
              >> (fail_if (not (equal_any r.network (codes "host" ∷ codes "none" ∷ [])))
                    unsupported_network
                  >> (fail_if (not (equal_any r.gpu (codes "none" ∷ codes "nvidia" ∷ [])))
                        unsupported_gpu
                      >> (fail_if (not (equal_any r.user (codes "root" ∷ []))) unsupported_user
                          >> (fail_if (not (valid_runtime_target r.work_dir)) invalid_workdir
                              >> check_volumes r.volumes))))))

  -- validateRuntime
  unfoldable pub check_runtime : RuntimeConfig → Result RuntimeFault (Unit {0})
  check_runtime r =
      if is_empty (trim_space r.kind)
      then fail_if (runtime_configured r) type_required
      else check_oci r

  unfoldable pub validate_runtime : RuntimeConfig → Result RuntimeFault (Unit {0})
  validate_runtime r = check_runtime (normalize_runtime r)
