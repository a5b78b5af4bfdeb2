-- ===== src/Tests/Leases.antt =====
-- The theorems on leases at concrete inputs.
use rmtx.Base.{
  ℕ, ◌≡◌, refl, Bool, true, false, Option, none, some, List, [], ◌∷◌, ok, is_ok, arith, replicate,
  if◌then◌else◌, ◌<◌, All, ltb, ltb→lt, is_some, Bool-cases, inl, inr, ◌&&◌,
}
use rmtx.Base.Sort.{sort_by, insert_by}
use rmtx.Syncfs.Hash.{hex_encode, to_hex}
use rmtx.Base.Dict.{lookup, insert, remove}
use rmtx.Base.Text.{
  codes, Text, text_key, text_beq, text_beq_iff, compare_text, trim_space, trim_left, trim_right,
  is_space,
}
use rmtx.Host.Leases.{
  no_leases, lease_key, is_deleting, acquire_key, acquire_workspace_lease,
  workspace_lease_is_active,
}
use rmtx.Host.LeaseFiles.{
  LeaseDir, LeaseDirs, LeaseDisk, saved, removed, normalize_lease_id, is_lease_rune,
  parse_workspace_keep_duration,
}
use rmtx.Host.LeaseFiles.Prepare.{
  RunRequest, LeaseRun, LeaseStore, new_state, prepare_run_workspace, lease_id_of, finalize_lease,
  new_lease_id, new_id_loop, prepare_new, prepare_reused,
}
use rmtx.Host.LeaseFiles.Remove.{prune_expired, prune_loop, prune_one, lease_dir_names}
use rmtx.Host.LeaseFiles.Files.{workspace_in, save_lease, remove_lease, load_lease_metadata}
use rmtx.Host.LeaseFiles.Later.{here, pruned}
use rmtx.Host.LeaseFiles.Abandoned.{abandoned_lease_refused}
use rmtx.Host.LeaseFiles.Pruning.{IsNamed, is_stale, is_id}
use rmtx.Host.LeaseFiles.Pruned.{prune_expired_exact}
use rmtx.Host.LeaseFiles.Locks.{SameLocks, released_by, prepare_run_workspace_balanced}
use rmtx.Host.LeaseFiles.Fresh.{new_lease_id_finds}
use rmtx.Host.LeaseFiles.Returned.{Works, store_of, finalized_lease_reused}

abbrev narrow : ℕ → Bool
narrow c = false

abbrev one_minute : Text → Option ℕ
one_minute value = some 60

abbrev good : LeaseDisk
good = record {
  lists = true;
  reads_metadata = λ id. true;
  reads_manifest = λ id. true;
  writes_metadata = λ id. saved;
  writes_manifest = λ id. saved;
  stats_lease = λ id. true;
  stats_workspace = λ id. true;
  makes_workspace = λ id. true;
  removes = λ id. removed;
}

abbrev bytes : ℕ → Option (List ℕ)
bytes i = some (replicate 16 i)

-- The round's number, as long as it fits a byte.
abbrev small_bytes : ℕ → Option (List ℕ)
small_bytes i = if ltb i 256 then some (replicate 16 i) else none

small_bytes-small : (j : ℕ) (n : List ℕ) → small_bytes j ≡ some n → All (λ b. b < 256) n
small_bytes-small j n drawn = elim (Bool-cases (ltb j 256)) [
  | inl y ↦
      let is : some (replicate 16 j) ≡ some n = rw y at drawn in
      let same : replicate 16 j ≡ n = cc in
      let h : j < 256 = ltb→lt j 256 y in
      rw⁻¹ same (h, (h, (h, (h, (h, (h, (h, (h, (h, (h, (h, (h, (h, (h, (h, (h, tt))))))))))))))))
  | inr n' ↦ let missing = rw n' at drawn in cc
]

small_bytes-drawn : (j : ℕ) → j < 1 → is_some (small_bytes j) ≡ true
small_bytes-drawn j h = ground arith

abbrev first_id : Text
first_id = codes "ws_0000000000000000"

abbrev keeping : RunRequest
keeping = record {
  context_id = codes "c";
  session = codes "s1";
  keep_workspace = codes "1m";
  reuse_workspace = [];
}

abbrev asking : RunRequest
asking = record {
  context_id = codes "c";
  session = codes "s2";
  keep_workspace = [];
  reuse_workspace = first_id;
}

abbrev nothing : LeaseStore
nothing = record { locks = no_leases; leases = [] }

abbrev first_run : LeaseRun
first_run = record {
  lock_id = first_id;
  state = new_state 1000 60 (codes "c") (codes "s1") first_id;
  reused = false;
  keep = 60;
}

abbrev after_first : LeaseStore
after_first = (prepare_run_workspace narrow good one_minute 1000 keeping bytes nothing).1

abbrev later_store : LeaseStore
later_store = record after_first {
  leases = (prune_expired narrow good 5000 after_first.locks after_first.leases).1;
}

gets_first :
    (prepare_run_workspace narrow good one_minute 1000 keeping bytes nothing).0
    ≡ ok (some first_run)
unfolding prepare_run_workspace parse_workspace_keep_duration trim_space trim_left trim_right
    is_space prepare_new prune_expired prune_loop lease_dir_names sort_by insert_by compare_text
    new_lease_id new_id_loop lookup insert acquire_workspace_lease acquire_key hex_encode to_hex
    save_lease normalize_lease_id is_lease_rune
gets_first = refl

is_first_id : normalize_lease_id narrow first_id ≡ ok first_id
unfolding normalize_lease_id trim_space trim_left trim_right is_space is_lease_rune
is_first_id = refl

abandoned_lease_refused_example :
    is_ok (prepare_run_workspace narrow good one_minute 6000 asking bytes later_store).0 ≡ false
abandoned_lease_refused_example =
    abandoned_lease_refused narrow one_minute good 1000 keeping bytes nothing first_run gets_first
      later_store (pruned good 5000 here) good 6000 asking bytes is_first_id

-- The lease of the run, expired, and a directory without metadata; no run holds either.
abbrev stale_dir : LeaseDir
stale_dir = record { metadata = some first_run.state.meta; manifest = none; has_workspace = true }

abbrev stale_leases : LeaseDirs
stale_leases = (first_id, stale_dir) ∷ []

stale_leases-IsNamed : IsNamed stale_leases
unfolding lookup
stale_leases-IsNamed j meta found = elim (Bool-cases (text_beq first_id j)) [
  | inl own ↦
      let is : some first_run.state.meta ≡ some meta = rw own at found in
      let same : first_run.state.meta ≡ meta = cc in rw⁻¹ same ((text_beq_iff first_id j).0 own)
  | inr other ↦ let missing = rw other at found in cc
]

prune_done : (prune_expired narrow good 5000 no_leases stale_leases).0 ≡ ok (first_id ∷ [])
unfolding prune_expired prune_loop prune_one lease_dir_names sort_by insert_by lookup
    load_lease_metadata remove_lease remove normalize_lease_id trim_space trim_left trim_right
    is_space is_lease_rune workspace_lease_is_active
prune_done = refl

first_is_trimmed : trim_space first_id ≡ first_id
unfolding trim_space trim_left trim_right is_space
first_is_trimmed = refl

prune_expired_exact_example :
    lookup first_id (prune_expired narrow good 5000 no_leases stale_leases).1 ≡ (
      if is_id narrow first_id && is_stale narrow good 5000 no_leases stale_leases first_id
      then none
      else lookup first_id stale_leases)
prune_expired_exact_example =
    prune_expired_exact narrow good 5000 no_leases stale_leases (first_id ∷ [])
      (first_is_trimmed, tt) stale_leases-IsNamed prune_done first_id

second_is_free : lookup (lease_id_of (replicate 16 1)) stale_leases ≡ none
unfolding lookup hex_encode to_hex
second_is_free = refl

new_lease_id_finds_example :
    (id : Text) × (new_lease_id narrow good small_bytes stale_leases ≡ ok id)
    × (lookup id stale_leases ≡ none)
    × (normalize_lease_id narrow id ≡ ok id)
new_lease_id_finds_example =
    new_lease_id_finds narrow good stale_leases small_bytes 1 (replicate 16 1) (λ id. refl)
      small_bytes-small (omega arith) refl second_is_free (λ j h. small_bytes-drawn j h)

abbrev final_leases : LeaseDirs
final_leases = (finalize_lease narrow good 2000 (codes "s1") [] first_run stale_leases).0.1

finalized : (finalize_lease narrow good 2000 (codes "s1") [] first_run stale_leases).0.0 ≡ ok tt
unfolding finalize_lease save_lease normalize_lease_id trim_space trim_left trim_right is_space
    is_lease_rune
finalized = refl

good-Works : Works first_id good
good-Works = record {
  reads_meta = refl;
  reads_list = refl;
  stats = refl;
  writes_meta = refl;
  writes_list = refl;
}

workspace_is_in : workspace_in (lookup first_id stale_leases) ≡ true
unfolding lookup
workspace_is_in = refl

nothing_deleting : is_deleting (lease_key (codes "c") first_id) no_leases ≡ false
unfolding lookup
nothing_deleting = refl

finalized_lease_reused_example :
    (next : LeaseRun) × ((prepare_reused narrow good 2010 0 asking first_id
        (store_of no_leases final_leases)).0
      ≡ ok next)
    × (next.state.workspace_manifest ≡ [])
    × (next.state.meta.id ≡ first_id)
    × (next.reused ≡ true)
finalized_lease_reused_example =
    finalized_lease_reused narrow good 2000 (codes "s1") [] first_run stale_leases tt
      workspace_is_in finalized good 2010 0 asking first_id no_leases good-Works is_first_id
      is_first_id nothing_deleting refl

prepare_run_workspace_balanced_example : SameLocks no_leases (
    released_by
      (codes "c")
      (prepare_run_workspace narrow good one_minute 1000 keeping bytes nothing))
prepare_run_workspace_balanced_example =
    prepare_run_workspace_balanced narrow good 1000 keeping bytes nothing one_minute
