-- ===== src/Host/LeaseFiles/Returned.antt =====
-- internal/host/workspace_lease.go: a lease that was finalized, and is asked for again.
use rmtx.Base.{
  ℕ, ◌+◌, ◌≡◌, refl, ap, sym, ◌∙◌, Bool, true, false, some, List, Result, ok, err, Bool-cases, inl,
  inr, ◌>>=◌,
}
use rmtx.Base.Dict.{lookup, insert}
use rmtx.Base.Text.{Text, text_key, text_beq_iff, trim_space, is_empty}
use rmtx.Syncfs.Manifest.{Entry}
use rmtx.Host.Leases.{
  LeaseLocks, LeaseError, lease_key, is_deleting, active_count, acquire_key,
  acquire_workspace_lease,
}
use rmtx.Host.LeaseFiles.{
  LeaseMetadata, LeaseState, LeaseDirs, LeaseFault, saved, LeaseDisk, normalize_lease_id,
}
use rmtx.Host.LeaseFiles.Files.{
  Outcome, named, own_id, manifest_in, workspace_in, read_metadata, read_manifest, load_lease,
  load_lease_metadata, save_lease,
}
use rmtx.Host.LeaseFiles.Prepare.{
  RunRequest, LeaseRun, LeaseStore, is_expired_at, taken_up, final_state, saved_run, with_lock,
  workspace_is_there, reuse_loaded, prepare_reused, finalize_lease,
}
use rmtx.Host.LeaseFiles.Saved.{dir_of, save_lease-SavedAs}

-- A disk on which reading, looking up and writing the files of one lease works.
pub record Works (id : Text) (disk : LeaseDisk) : Type 0 where
  pub reads_meta : disk.reads_metadata id ≡ true
  pub reads_list : disk.reads_manifest id ≡ true
  pub stats : disk.stats_workspace id ≡ true
  pub writes_meta : disk.writes_metadata id ≡ saved
  pub writes_list : disk.writes_manifest id ≡ saved

own_id_self : (id : Text) → own_id id id ≡ id
own_id_self id = elim (Bool-cases (is_empty id)) [ inl y ↦ rw y refl | inr n ↦ rw n refl ]

named_self : (meta : LeaseMetadata) → named (meta.id) meta ≡ meta
named_self meta = ap (λ i. record meta { id = i }) (own_id_self (meta.id))

module _ (wide_word : ℕ → Bool) (id : Text) (normal : normalize_lease_id wide_word id ≡ ok id)
    (disk : LeaseDisk) (works : Works id disk) where
  load-dir :
      (state : LeaseState) (leases : LeaseDirs)
      → id ≡ state.meta.id
      → manifest_in (lookup id leases) ≡ some state.workspace_manifest
      → (read_metadata true id (some state.meta) >>= (λ meta.
          read_manifest
            (disk.reads_manifest (meta.id))
            meta
            (manifest_in (lookup (meta.id) leases))))
        ≡ ok state
  load-dir state leases own listed =
      let same : named id state.meta ≡ state.meta = rw own (named_self state.meta) in
      let reads : disk.reads_manifest (state.meta.id) ≡ true = rw⁻¹ own works.reads_list in
      let there : manifest_in (lookup (state.meta.id) leases) ≡ some state.workspace_manifest =
        rw⁻¹ own listed in
      let next : LeaseMetadata → Result LeaseFault LeaseState = λ meta.
        read_manifest (disk.reads_manifest (meta.id)) meta
          (manifest_in (lookup (meta.id) leases)) in
      let last : next state.meta ≡ ok state = simp (reads, there) refl in ap next same ∙ last

  -- A load gives what was saved.
  load_lease-saved :
      (state : LeaseState) (workspace : Bool) (leases : LeaseDirs)
      → id ≡ state.meta.id
      → lookup id leases ≡ some (dir_of state workspace)
      → load_lease wide_word disk id leases ≡ ok state
  unfolding load_lease load_lease_metadata
  load_lease-saved state workspace leases own found =
      simp (normal, found, works.reads_meta) (load-dir state leases own (ap manifest_in found))

  save_lease-ok :
      (state : LeaseState) (leases : LeaseDirs)
      → state.meta.id ≡ id
      → (save_lease wide_word disk state leases).0 ≡ ok tt
  unfolding save_lease
  save_lease-ok state leases own = simp (own, normal, works.writes_meta, works.writes_list) refl

  -- What is handed out.
  abbrev pub taken_run : ℕ → ℕ → Text → LeaseState → LeaseRun
  taken_run now keep session state = record {
    lock_id = id;
    state = taken_up now keep session state;
    reused = true;
    keep = keep;
  }

  saved_run-ok :
      (run : LeaseRun) (o : Outcome (Unit {0})) → o.0 ≡ ok tt → (saved_run run o).0 ≡ ok run
  saved_run-ok run (err fault, after) e = cc
  saved_run-ok run (ok u, after) e = refl

  with_lock-ok :
      (context : Text) (old locks : LeaseLocks) (r : Result LeaseError LeaseLocks)
      (leases : LeaseDirs) (o : Outcome LeaseRun) (run : LeaseRun)
      → r ≡ ok locks
      → o.0 ≡ ok run
      → (with_lock context id old r leases o).0 ≡ ok run
  with_lock-ok context old locks (err e) leases o run acquired got = cc
  with_lock-ok context old locks (ok l) leases (err fault, after) run acquired got = cc
  with_lock-ok context old locks (ok l) leases (ok r, after) run acquired got = got

  prepare_reused-ok :
      (now keep : ℕ) (req : RunRequest) (raw : Text) (s : LeaseStore) (state : LeaseState)
      (locks : LeaseLocks)
      → normalize_lease_id wide_word raw ≡ ok id
      → id ≡ state.meta.id
      → lookup id s.leases ≡ some (dir_of state true)
      → state.meta.dirty ≡ false
      → is_expired_at now state.meta ≡ false
      → acquire_workspace_lease req.context_id id s.locks ≡ ok locks
      → (prepare_reused wide_word disk now keep req raw s).0
        ≡ ok (taken_run now keep req.session state)
  unfolding prepare_reused
  prepare_reused-ok now keep req raw s state locks named_id own found clean fresh acquired =
      let loaded = load_lease-saved state true s.leases own found in
      let there : workspace_is_there wide_word disk id s.leases ≡ true =
        simp (works.stats, found) refl in
      let used = taken_up now keep req.session state in
      simp named_id (
        with_lock-ok req.context_id s.locks locks
          (acquire_workspace_lease req.context_id id s.locks) s.leases
          (reuse_loaded wide_word disk now keep req.session id s.leases
            (load_lease wide_word disk id s.leases))
          (taken_run now keep req.session state) acquired
          (simp (loaded, clean, fresh, there)
            (saved_run-ok (taken_run now keep req.session state)
              (save_lease wide_word disk used s.leases) (save_lease-ok used s.leases (sym own)))))

-- The lease is not being deleted, so the lock is granted.
acquire-ok :
    (context id : Text) (l : LeaseLocks)
    → is_deleting (lease_key context id) l ≡ false
    → (locks : LeaseLocks) × (acquire_workspace_lease context id l ≡ ok locks)
unfolding acquire_workspace_lease acquire_key
acquire-ok context id l free = elim (Bool-cases (is_empty (trim_space id))) [
  | inl blank ↦ (l, simp blank refl)
  | inr named ↦
      let key = lease_key context id in
      (record l { active = insert key (active_count key l + 1) l.active }, simp (named, free) refl)
]

abbrev pub store_of : LeaseLocks → LeaseDirs → LeaseStore
store_of locks leases = record { locks = locks; leases = leases }

-- If a run finalizes a lease whose workspace is there, and this succeeds, then a later run that asks
-- for the lease by its id, before it expires, while it is not being deleted, and on a disk that
-- works for it, gets it with the manifest that was given to the finalizing call.
pub finalized_lease_reused :
    (wide_word : ℕ → Bool) (disk : LeaseDisk) (now : ℕ) (session : Text) (entries : List Entry)
    (run : LeaseRun) (leases : LeaseDirs) (u : Unit {0})
    → workspace_in (lookup (run.state.meta.id) leases) ≡ true
    → (finalize_lease wide_word disk now session entries run leases).0.0 ≡ ok u
    → (disk' : LeaseDisk) (later keep : ℕ) (req : RunRequest) (raw : Text) (locks : LeaseLocks)
    → Works (run.state.meta.id) disk'
    → normalize_lease_id wide_word (run.state.meta.id) ≡ ok run.state.meta.id
    → normalize_lease_id wide_word raw ≡ ok run.state.meta.id
    → is_deleting (lease_key req.context_id (run.state.meta.id)) locks ≡ false
    → is_expired_at later (final_state now session entries run).meta ≡ false
    → let after = (finalize_lease wide_word disk now session entries run leases).0.1 in
      (next : LeaseRun) × ((prepare_reused wide_word disk' later keep req raw
          (store_of locks after)).0
        ≡ ok next)
      × (next.state.workspace_manifest ≡ entries)
      × (next.state.meta.id ≡ run.state.meta.id)
      × (next.reused ≡ true)
unfolding finalize_lease
finalized_lease_reused wide_word disk now session entries run leases u there done disk' later keep
      req raw locks works normal named_id free fresh =
    let id = run.state.meta.id in
    let final = final_state now session entries run in
    let after = (save_lease wide_word disk final leases).1 in
    let found : lookup id after ≡ some (dir_of final true) =
      rw
        (
          save_lease-SavedAs wide_word disk final leases u done id,
          (text_beq_iff id id).1 refl,
          there,
        )
        refl in
    let (held, acquired) = acquire-ok req.context_id id locks free in
    let s = store_of locks after in
    (
      taken_run wide_word id normal disk' works later keep req.session final,
      prepare_reused-ok wide_word id normal disk' works later keep req raw s final held named_id
          refl found refl fresh acquired,
      refl,
      refl,
      refl,
    )
