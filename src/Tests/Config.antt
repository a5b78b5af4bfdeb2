-- ===== src/Tests/Config.antt =====
-- The theorems on configurations and contexts at concrete inputs.
use rmtx.Base.{
  ℕ, ◌⊎◌, ◌≡◌, ◌<◌, refl, true, false, not, ◌&&◌, ◌||◌, Option, none, some, List, [], ◌∷◌, ok, All,
  is_some, filter, replicate, zero, suc, arith,
}
use rmtx.Base.Int.{ℤ, pos}
use rmtx.Base.Dict.{lookup, insert}
use rmtx.Base.Text.{
  codes, Text, text_beq, text_key, is_empty, trim_space, trim_left, trim_right, is_space, split,
}
use rmtx.Base.Path.{clean, walk}
use rmtx.Base.Path.Parents.{AllPlain}
use rmtx.Config.Project.Filled.{Defaulted}
use rmtx.Config.Runtime.{
  RuntimeConfig, normalize_runtime, validate_runtime, check_runtime, check_volumes,
  valid_runtime_target,
}
use rmtx.Config.Runtime.Safe.{IsSafe, validate_runtime-IsSafe}
use rmtx.Config.Project.{Config, normalize_config, load_decoded}
use rmtx.Config.Project.Stable.{load_decoded_stable}
use rmtx.Config.Context.{Loaded, context_id}
use rmtx.Config.Context.Accepted.{context_id-accepted}
use rmtx.Host.Contexts.{
  ContextSummary, DeleteRequest, Targets, add_all_targets, map_contexts_by_id, add_older_loop,
  add_older_targets, add_explicit_targets, normalize_context_id, select_delete_targets,
}
use rmtx.Host.Contexts.Selected.{has_context, is_listed, older_test, select_delete_targets_exact}

abbrev gpu_runtime : RuntimeConfig
gpu_runtime = record {
  kind = codes "oci";
  image = codes "alpine";
  pull_policy = [];
  work_dir = [];
  network = [];
  user = [];
  gpu = codes "nvidia";
  wsl_distro = [];
  setup = record { image_commands = []; context_commands = []; context_inputs = [] };
  volumes = record { name = codes "data"; target = codes "/data" } ∷ [];
}

gpu_is_valid : validate_runtime text_beq gpu_runtime ≡ ok tt
unfolding validate_runtime normalize_runtime check_runtime check_volumes valid_runtime_target
    trim_space trim_left trim_right is_space split clean walk
gpu_is_valid = refl

gpu_is_typed : is_empty (trim_space gpu_runtime.kind) ≡ false
unfolding trim_space trim_left trim_right is_space
gpu_is_typed = refl

host_root_is_plain : AllPlain (codes "srv/root")
unfolding split
host_root_is_plain = ((refl, refl, refl, refl), ((refl, refl, refl, refl), tt))

validate_runtime-IsSafe_example : IsSafe (codes "srv/root") (normalize_runtime gpu_runtime)
validate_runtime-IsSafe_example =
    validate_runtime-IsSafe text_beq (codes "srv/root") gpu_runtime tt host_root_is_plain
      gpu_is_typed gpu_is_valid

abbrev gpu_config : Config
gpu_config = record {
  version = pos 0;
  context_name = [];
  runtime = gpu_runtime;
  discovery = record { enabled = none; service = []; timeout = [] };
  mounts = [];
}

abbrev one_second : Text → Option ℤ
one_second value = some (pos 1_000_000_000)

gpu_loads : load_decoded text_beq one_second gpu_config ≡ ok (normalize_config gpu_config)
unfolding load_decoded normalize_config validate_runtime normalize_runtime check_runtime
    check_volumes valid_runtime_target trim_space trim_left trim_right is_space split clean walk
gpu_loads = refl

load_decoded_stable_example :
    ((gpu_config.version ≡ pos 0) ⊎ (gpu_config.version ≡ pos 1))
    × ((normalize_config gpu_config).version ≡ pos 1)
    × Defaulted gpu_config (normalize_config gpu_config)
    × (normalize_config (normalize_config gpu_config) ≡ normalize_config gpu_config)
    × (load_decoded text_beq one_second (normalize_config gpu_config)
        ≡ ok (normalize_config gpu_config))
load_decoded_stable_example =
    load_decoded_stable text_beq one_second gpu_config (normalize_config gpu_config) gpu_loads

abbrev project : Loaded
project = record { path = []; root = codes "/home/me/My App"; name = codes "My App" }

abbrev zeros : Text → List ℕ
zeros s = replicate 32 0

zeros-small : (s : Text) → All (λ b. b < 256) (zeros s)
zeros-small s = zeros_small 32
  where
    zeros_small : (n : ℕ) → All (λ b. b < 256) (replicate n 0)
    zeros_small zero = tt
    zeros_small (suc n) = (omega arith, zeros_small n)

context_id-accepted_example :
    normalize_context_id (context_id (λ s. s) (λ s. s) zeros project)
    ≡ ok (context_id (λ s. s) (λ s. s) zeros project)
context_id-accepted_example = context_id-accepted (λ s. s) (λ s. s) zeros zeros-small project

abbrev two_contexts : List ContextSummary
two_contexts =
    record { id = codes "a"; updated_at = 100 } ∷ record { id = codes "b"; updated_at = 900 } ∷ []

abbrev old_or_named : DeleteRequest
old_or_named = record { ids = codes "b" ∷ codes "c" ∷ []; every = false; older_than = codes "5s" }

abbrev five : Text → Option ℤ
five value = some (pos 500)

abbrev both : Targets
both =
    (codes "a", record { id = codes "a"; updated_at = 100 })
    ∷ (codes "b", record { id = codes "b"; updated_at = 900 })
    ∷ []

selects_both : select_delete_targets five 1000 old_or_named two_contexts ≡ ok (both, codes "c" ∷ [])
unfolding select_delete_targets add_older_targets add_older_loop add_explicit_targets
    map_contexts_by_id add_all_targets lookup insert trim_space trim_left trim_right is_space
selects_both = refl

select_delete_targets_exact_example :
    ((id : Text)
      → is_some (lookup id both)
        ≡ (is_listed id old_or_named.ids && has_context (λ c. true) id two_contexts)
          || (has_context (older_test five 1000 old_or_named.older_than) id two_contexts
              || (old_or_named.every && has_context (λ c. true) id two_contexts)))
    × (codes "c" ∷ []
        ≡ filter (λ id. not (has_context (λ c. true) id two_contexts)) old_or_named.ids)
select_delete_targets_exact_example =
    select_delete_targets_exact five 1000 old_or_named two_contexts both (codes "c" ∷ [])
      selects_both
