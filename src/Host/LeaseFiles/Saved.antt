-- ===== src/Host/LeaseFiles/Saved.antt =====
-- internal/host/workspace_lease.go: what stands on disk behind a save that succeeded.
use rmtx.Base.{
  ℕ, ◌≡◌, refl, Bool, Option, none, some, Result, ok, err, if◌then◌else◌, Bool-cases, inl, inr,
}
use rmtx.Base.Dict.{lookup, insert, lookup-insert}
use rmtx.Base.Text.{Text, text_key, text_beq, text_beq_iff}
use rmtx.Host.LeaseFiles.{
  LeaseState, LeaseDir, LeaseDirs, LeaseFault, WriteAnswer, saved, failed_before, failed_in_dir,
  failed_after, LeaseDisk, normalize_lease_id,
}
use rmtx.Host.LeaseFiles.Files.{
  Outcome, workspace_in, dir_or_new, write_file, set_metadata, set_manifest, after_metadata,
  save_checked, save_lease,
}

abbrev pub dir_of : LeaseState → Bool → LeaseDir
dir_of state workspace = record {
  metadata = some state.meta;
  manifest = some state.workspace_manifest;
  has_workspace = workspace;
}

write_file-saved :
    (answer : WriteAnswer) (id : Text) (change : LeaseDir → LeaseDir) (leases : LeaseDirs)
    (u : Unit {0})
    → (write_file answer id change leases).0 ≡ ok u
    → (write_file answer id change leases).1
      ≡ insert id (change (dir_or_new (lookup id leases))) leases
write_file-saved saved id change leases u e = refl
write_file-saved failed_before id change leases u e = cc
write_file-saved failed_in_dir id change leases u e = cc
write_file-saved failed_after id change leases u e = cc

workspace_in-dir_or_new : (o : Option LeaseDir) → (dir_or_new o).has_workspace ≡ workspace_in o
workspace_in-dir_or_new none = refl
workspace_in-dir_or_new (some d) = refl

-- What a save does to each name.
abbrev pub SavedAs : LeaseState → LeaseDirs → LeaseDirs → Type 0
SavedAs state leases after =
    (j : Text)
    → lookup j after ≡ (
        if text_beq state.meta.id j
        then some (dir_of state (workspace_in (lookup (state.meta.id) leases)))
        else lookup j leases)

after_metadata-SavedAs :
    (disk : LeaseDisk) (state : LeaseState) (leases : LeaseDirs) (o : Outcome (Unit {0}))
    (u : Unit {0})
    → ((v : Unit {0})
        → o.0 ≡ ok v
        → o.1
          ≡ insert
              (state.meta.id)
              (set_metadata (state.meta) (dir_or_new (lookup (state.meta.id) leases)))
              leases)
    → (after_metadata disk state o).0 ≡ ok u
    → SavedAs state leases (after_metadata disk state o).1
after_metadata-SavedAs disk state leases (err fault, mid) u first e j = cc
after_metadata-SavedAs disk state leases (ok v, mid) u first e j =
    let key = state.meta.id in
    let old = dir_or_new (lookup key leases) in
    let with_meta = set_metadata (state.meta) old in
    let put =
      write_file-saved (disk.writes_manifest key) key (set_manifest (state.workspace_manifest)) mid
        u e in
    let at_mid = first v refl in
    let self = (text_beq_iff key key).1 refl in
    let there : lookup key mid ≡ some with_meta =
      rw (at_mid, lookup-insert key key with_meta leases, self) refl in
    rw
      (
        put,
        there,
        lookup-insert key j (set_manifest (state.workspace_manifest) with_meta) mid,
        at_mid,
        lookup-insert key j with_meta leases,
        workspace_in-dir_or_new (lookup key leases),
      )
      (elim (Bool-cases (text_beq key j)) [ inl own ↦ rw own refl | inr other ↦ rw other refl ])

module _ (wide_word : ℕ → Bool) (disk : LeaseDisk) where
  pub save_lease-SavedAs :
      (state : LeaseState) (leases : LeaseDirs) (u : Unit {0})
      → (save_lease wide_word disk state leases).0 ≡ ok u
      → SavedAs state leases (save_lease wide_word disk state leases).1
  unfolding save_lease
  save_lease-SavedAs state leases u = go (normalize_lease_id wide_word (state.meta.id))
    where
      go :
          (r : Result LeaseFault Text)
          → (save_checked disk state r leases).0 ≡ ok u
          → SavedAs state leases (save_checked disk state r leases).1
      go (err fault) e = cc
      go (ok id) e =
          let key = state.meta.id in
          let change = set_metadata (state.meta) in
          after_metadata-SavedAs disk state leases
            (write_file (disk.writes_metadata key) key change leases) u
            (λ v f. write_file-saved (disk.writes_metadata key) key change leases v f) e
