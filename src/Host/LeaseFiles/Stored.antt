-- ===== src/Host/LeaseFiles/Stored.antt =====
-- internal/host/workspace_lease.go: what a call leaves of the metadata of all leases.
use rmtx.Base.{
  ℕ, ◌≡◌, refl, Bool, true, false, Option, none, some, Result, ok, err, Bool-cases, inl, inr,
}
use rmtx.Base.Dict.{lookup, insert, remove, lookup-insert, lookup-remove}
use rmtx.Base.Text.{Text, text_key, text_beq, text_beq_iff}
use rmtx.Host.LeaseFiles.{
  LeaseMetadata, LeaseState, LeaseDir, LeaseDirs, LeaseFault, WriteAnswer, saved, failed_before,
  failed_in_dir, failed_after, RemoveAnswer, removed, keeps, LeaseDisk, normalize_lease_id,
}
use rmtx.Host.LeaseFiles.Files.{
  Outcome, metadata_in, dir_or_new, write_file, set_metadata, set_manifest, left_of, leave_dir,
  remove_all, after_metadata, save_checked, remove_checked, save_lease, remove_lease,
}

abbrev pub AllMeta : (Text → LeaseMetadata → Type 0) → LeaseDirs → Type 0
AllMeta Q leases =
    (j : Text) (meta : LeaseMetadata) → metadata_in (lookup j leases) ≡ some meta → Q j meta

module _ (Q : Text → LeaseMetadata → Type 0) where
  AllMeta-insert :
      (id : Text) (d : LeaseDir) (leases : LeaseDirs)
      → ((meta : LeaseMetadata) → d.metadata ≡ some meta → Q id meta)
      → AllMeta Q leases
      → AllMeta Q (insert id d leases)
  AllMeta-insert id d leases new all j meta found = elim (Bool-cases (text_beq id j)) [
    | inl own ↦
        let at_d = rw (lookup-insert id j d leases, own) at found in
        rw⁻¹ ((text_beq_iff id j).0 own) (new meta at_d)
    | inr other ↦ all j meta (rw (lookup-insert id j d leases, other) at found)
  ]

  AllMeta-remove :
      (id : Text) (leases : LeaseDirs) → AllMeta Q leases → AllMeta Q (remove id leases)
  AllMeta-remove id leases all j meta found = elim (Bool-cases (text_beq id j)) [
    | inl own ↦ let gone = rw (lookup-remove id j leases, own) at found in cc
    | inr other ↦ all j meta (rw (lookup-remove id j leases, other) at found)
  ]

  dir_or_new-meta :
      (id : Text) (o : Option LeaseDir)
      → ((meta : LeaseMetadata) → metadata_in o ≡ some meta → Q id meta)
      → (meta : LeaseMetadata) → (dir_or_new o).metadata ≡ some meta
      → Q id meta
  dir_or_new-meta id none all meta found = cc
  dir_or_new-meta id (some d) all meta found = all meta found

  write_file-AllMeta :
      (answer : WriteAnswer) (id : Text) (change : LeaseDir → LeaseDir) (leases : LeaseDirs)
      → ((d : LeaseDir)
          → ((meta : LeaseMetadata) → d.metadata ≡ some meta → Q id meta)
          → (meta : LeaseMetadata) → (change d).metadata ≡ some meta
          → Q id meta)
      → AllMeta Q leases
      → AllMeta Q (write_file answer id change leases).1
  write_file-AllMeta saved id change leases new all =
      let old = lookup id leases in
      AllMeta-insert id (change (dir_or_new old)) leases
        (new (dir_or_new old) (dir_or_new-meta id old (all id))) all
  write_file-AllMeta failed_before id change leases new all = all
  write_file-AllMeta failed_in_dir id change leases new all =
      let old = lookup id leases in
      AllMeta-insert id (dir_or_new old) leases (dir_or_new-meta id old (all id)) all
  write_file-AllMeta failed_after id change leases new all =
      let old = lookup id leases in
      AllMeta-insert id (change (dir_or_new old)) leases
        (new (dir_or_new old) (dir_or_new-meta id old (all id))) all

  after_metadata-AllMeta :
      (disk : LeaseDisk) (state : LeaseState) (o : Outcome (Unit {0}))
      → AllMeta Q o.1
      → AllMeta Q (after_metadata disk state o).1
  after_metadata-AllMeta disk state (err fault, leases) all = all
  after_metadata-AllMeta disk state (ok u, leases) all =
      write_file-AllMeta (disk.writes_manifest (state.meta.id)) (state.meta.id)
        (set_manifest (state.workspace_manifest)) leases (λ d old. old) all

  save_checked-AllMeta :
      (disk : LeaseDisk) (state : LeaseState) (r : Result LeaseFault Text) (leases : LeaseDirs)
      → Q (state.meta.id) (state.meta)
      → AllMeta Q leases
      → AllMeta Q (save_checked disk state r leases).1
  save_checked-AllMeta disk state (err fault) leases new all = all
  save_checked-AllMeta disk state (ok id) leases new all =
      let key = state.meta.id in
      let change = set_metadata (state.meta) in
      after_metadata-AllMeta disk state (write_file (disk.writes_metadata key) key change leases) (
        write_file-AllMeta (disk.writes_metadata key) key change leases
          (λ d old meta found. let same : state.meta ≡ meta = cc in rw⁻¹ same new) all)

  leave_dir-AllMeta :
      (id : Text) (meta manifest workspace : Bool) (o : Option LeaseDir) (leases : LeaseDirs)
      → lookup id leases ≡ o
      → AllMeta Q leases
      → AllMeta Q (leave_dir id (left_of meta manifest workspace) o leases)
  leave_dir-AllMeta id m f w none leases found all = all
  leave_dir-AllMeta id false f w (some d) leases found all =
      AllMeta-insert id (left_of false f w d) leases (λ meta h. cc) all
  leave_dir-AllMeta id true f w (some d) leases found all =
      AllMeta-insert id (left_of true f w d) leases (λ meta h. all id meta (rw found h)) all

  remove_checked-AllMeta :
      (disk : LeaseDisk) (r : Result LeaseFault Text) (leases : LeaseDirs)
      → AllMeta Q leases
      → AllMeta Q (remove_checked disk r leases).1
  remove_checked-AllMeta disk (err fault) leases all = all
  remove_checked-AllMeta disk (ok id) leases all = remove_all-AllMeta (disk.removes id)
    where
      remove_all-AllMeta : (answer : RemoveAnswer) → AllMeta Q (remove_all answer id leases).1
      remove_all-AllMeta removed = AllMeta-remove id leases all
      remove_all-AllMeta (keeps m f w) =
          leave_dir-AllMeta id m f w (lookup id leases) leases refl all

  pub AllMeta-workspace :
      (id : Text) (leases : LeaseDirs)
      → AllMeta Q leases
      → AllMeta Q
          (insert id (record (dir_or_new (lookup id leases)) { has_workspace = true }) leases)
  AllMeta-workspace id leases all =
      let old = lookup id leases in
      AllMeta-insert id (record (dir_or_new old) { has_workspace = true }) leases
        (dir_or_new-meta id old (all id)) all

  module _ (wide_word : ℕ → Bool) (disk : LeaseDisk) where
    pub save_lease-AllMeta :
        (state : LeaseState) (leases : LeaseDirs)
        → Q (state.meta.id) (state.meta)
        → AllMeta Q leases
        → AllMeta Q (save_lease wide_word disk state leases).1
    unfolding save_lease
    save_lease-AllMeta state leases =
        save_checked-AllMeta disk state (normalize_lease_id wide_word (state.meta.id)) leases

    pub remove_lease-AllMeta :
        (raw : Text) (leases : LeaseDirs)
        → AllMeta Q leases
        → AllMeta Q (remove_lease wide_word disk raw leases).1
    unfolding remove_lease
    remove_lease-AllMeta raw leases =
        remove_checked-AllMeta disk (normalize_lease_id wide_word raw) leases
