-- ===== src/Host/LeaseFiles/Files.antt =====
-- internal/host/workspace_lease.go: reading, writing and removing the files of a lease.
use rmtx.Base.{
  ℕ, Bool, true, false, ◌&&◌, Option, none, some, List, [], Result, ok, err, ◌>>=◌, if◌then◌else◌,
}
use rmtx.Base.Dict.{lookup, insert, remove}
use rmtx.Base.Text.{Text, text_key, is_empty}
use rmtx.Syncfs.Manifest.{Entry}
use rmtx.Host.LeaseFiles.{
  LeaseMetadata, LeaseState, LeaseDir, LeaseDirs, LeaseFault, lease_not_found, read_failed,
  write_failed, remove_failed, WriteAnswer, saved, failed_before, failed_in_dir, failed_after,
  RemoveAnswer, removed, keeps, LeaseDisk, normalize_lease_id,
}

-- A call that may fail behind a change of the directories.
abbrev pub Outcome : Type 0 → Type 0
Outcome A = Result LeaseFault A × LeaseDirs

-- `if meta.ID == "" { meta.ID = id }`
abbrev pub own_id : Text → Text → Text
own_id id written = if is_empty written then id else written

abbrev pub named : Text → LeaseMetadata → LeaseMetadata
named id meta = record meta { id = own_id id meta.id }

abbrev pub metadata_in : Option LeaseDir → Option LeaseMetadata
metadata_in none = none
metadata_in (some d) = d.metadata

abbrev pub manifest_in : Option LeaseDir → Option (List Entry)
manifest_in none = none
manifest_in (some d) = d.manifest

abbrev pub workspace_in : Option LeaseDir → Bool
workspace_in none = false
workspace_in (some d) = d.has_workspace

-- os.ReadFile and json.Unmarshal of the metadata: a missing file, one that cannot be read, or one
-- of a lease.
abbrev pub read_metadata : Bool → Text → Option LeaseMetadata → Result LeaseFault LeaseMetadata
read_metadata reads id none = err lease_not_found
read_metadata false id (some meta) = err read_failed
read_metadata true id (some meta) = ok (named id meta)

abbrev pub read_manifest : Bool → LeaseMetadata → Option (List Entry) → Result LeaseFault LeaseState
read_manifest reads meta none = ok (record { meta = meta; workspace_manifest = [] })
read_manifest false meta (some entries) = err read_failed
read_manifest true meta (some entries) = ok (record { meta = meta; workspace_manifest = entries })

abbrev pub empty_dir : LeaseDir
empty_dir = record { metadata = none; manifest = none; has_workspace = false }

abbrev pub dir_or_new : Option LeaseDir → LeaseDir
dir_or_new none = empty_dir
dir_or_new (some d) = d

-- writeJSONAtomically of a file of the lease: `change` writes the file.
abbrev pub write_file : WriteAnswer → Text → (LeaseDir → LeaseDir) → LeaseDirs → Outcome (Unit {0})
write_file saved id change leases =
    (ok tt, insert id (change (dir_or_new (lookup id leases))) leases)
write_file failed_before id change leases = (err write_failed, leases)
write_file failed_in_dir id change leases =
    (err write_failed, insert id (dir_or_new (lookup id leases)) leases)
write_file failed_after id change leases =
    (err write_failed, insert id (change (dir_or_new (lookup id leases))) leases)

abbrev pub set_metadata : LeaseMetadata → LeaseDir → LeaseDir
set_metadata meta d = record d { metadata = some meta }

abbrev pub set_manifest : List Entry → LeaseDir → LeaseDir
set_manifest entries d = record d { manifest = some entries }

abbrev pub kept_if {ℓ} : {A : Type ℓ} → Bool → Option A → Option A
kept_if keep o = if keep then o else none

-- What a failed removal leaves of a directory that was there.
abbrev pub left_of : Bool → Bool → Bool → LeaseDir → LeaseDir
left_of meta manifest workspace d = record {
  metadata = kept_if meta d.metadata;
  manifest = kept_if manifest d.manifest;
  has_workspace = workspace && d.has_workspace;
}

abbrev pub leave_dir : Text → (LeaseDir → LeaseDir) → Option LeaseDir → LeaseDirs → LeaseDirs
leave_dir id change none leases = leases
leave_dir id change (some d) leases = insert id (change d) leases

-- pathutil.RemoveAll of the directory
abbrev pub remove_all : RemoveAnswer → Text → LeaseDirs → Outcome (Unit {0})
remove_all removed id leases = (ok tt, remove id leases)
remove_all (keeps meta manifest workspace) id leases =
    (err remove_failed, leave_dir id (left_of meta manifest workspace) (lookup id leases) leases)

-- The manifest is written only behind the metadata.
abbrev pub after_metadata : LeaseDisk → LeaseState → Outcome (Unit {0}) → Outcome (Unit {0})
after_metadata disk state (err fault, leases) = (err fault, leases)
after_metadata disk state (ok u, leases) =
    write_file (disk.writes_manifest state.meta.id) state.meta.id
      (set_manifest state.workspace_manifest) leases

abbrev pub save_checked :
    LeaseDisk → LeaseState → Result LeaseFault Text → LeaseDirs → Outcome (Unit {0})
save_checked disk state (err fault) leases = (err fault, leases)
save_checked disk state (ok id) leases =
    after_metadata disk state (
      write_file (disk.writes_metadata state.meta.id) state.meta.id (set_metadata state.meta)
        leases)

abbrev pub remove_checked : LeaseDisk → Result LeaseFault Text → LeaseDirs → Outcome (Unit {0})
remove_checked disk (err fault) leases = (err fault, leases)
remove_checked disk (ok id) leases = remove_all (disk.removes id) id leases

module _ (wide_word : ℕ → Bool) (disk : LeaseDisk) where
  unfoldable pub load_lease_metadata : Text → LeaseDirs → Result LeaseFault LeaseMetadata
  load_lease_metadata raw leases =
      normalize_lease_id wide_word raw
      >>= (λ id. read_metadata (disk.reads_metadata id) id (metadata_in (lookup id leases)))

  -- loadWorkspaceLease
  unfoldable pub load_lease : Text → LeaseDirs → Result LeaseFault LeaseState
  load_lease raw leases = load_lease_metadata raw leases >>= (λ meta.
      read_manifest (disk.reads_manifest meta.id) meta (manifest_in (lookup meta.id leases)))

  -- saveWorkspaceLease: the id is checked as it stands behind the trim, and used as it is.
  unfoldable pub save_lease : LeaseState → LeaseDirs → Outcome (Unit {0})
  save_lease state leases =
      save_checked disk state (normalize_lease_id wide_word state.meta.id) leases

  -- removeWorkspaceLease
  unfoldable pub remove_lease : Text → LeaseDirs → Outcome (Unit {0})
  remove_lease raw leases = remove_checked disk (normalize_lease_id wide_word raw) leases
