-- ===== src/Host/LeaseFiles/Abandoned.antt =====
-- internal/host/workspace_lease.go: a lease that a run got and did not give back.
use rmtx.Base.{
  ℕ, ◌≡◌, refl, ap, sym, ◌∙◌, Bool, true, false, Option, none, some, List, [], ◌∷◌, Result, ok, err,
  is_ok, ◌==◌, Bool-cases, inl, inr, ◌>>=◌,
}
use rmtx.Base.Dict.{lookup}
use rmtx.Base.Text.{Text, text_key, text_beq_iff, trim_space}
use rmtx.Base.Text.Laws.{trim_space_idem}
use rmtx.Syncfs.Manifest.{Entry}
use rmtx.Host.Leases.{LeaseLocks, LeaseError, acquire_workspace_lease}
use rmtx.Host.LeaseFiles.{
  LeaseMetadata, LeaseState, LeaseDirs, LeaseFault, LeaseDisk, normalize_lease_id, checked_id,
  is_lease_id, parse_workspace_keep_duration,
}
use rmtx.Host.LeaseFiles.Files.{
  Outcome, metadata_in, manifest_in, read_metadata, read_manifest, load_lease, load_lease_metadata,
  named,
}
use rmtx.Host.LeaseFiles.Prepare.{
  RunRequest, LeaseRun, LeaseStore, Prepared, with_lock, reuse_loaded, prepare_reused, some_run,
  prepare_kept, prepare_run_workspace,
}
use rmtx.Host.LeaseFiles.Stored.{AllMeta}
use rmtx.Host.LeaseFiles.Held.{prepare_run_workspace-IsHeld}
use rmtx.Host.LeaseFiles.Later.{Later, IsLeft, Later-IsLeft}

module _ (wide_word : ℕ → Bool) (parse_duration : Text → Option ℕ) (id : Text) where
  -- A load of it, if it succeeds, finds it dirty.
  IsDirty : Result LeaseFault LeaseState → Type 0
  IsDirty r = (state : LeaseState) → r ≡ ok state → state.meta.dirty ≡ true

  module _ (disk : LeaseDisk) where
    read_manifest-meta :
        (reads : Bool) (meta : LeaseMetadata) (o : Option (List Entry)) (state : LeaseState)
        → read_manifest reads meta o ≡ ok state
        → state.meta.dirty ≡ meta.dirty
    read_manifest-meta reads meta none state e =
        let same : record { meta = meta; workspace_manifest = [] } ≡ state = cc in
        ap (λ s. s.meta.dirty) (sym same)
    read_manifest-meta false meta (some entries) state e = cc
    read_manifest-meta true meta (some entries) state e =
        let same : record { meta = meta; workspace_manifest = entries } ≡ state = cc in
        ap (λ s. s.meta.dirty) (sym same)

    load-dirty :
        (leases : LeaseDirs) (reads : Bool) (o : Option LeaseMetadata)
        → ((meta : LeaseMetadata) → o ≡ some meta → meta.dirty ≡ true)
        → IsDirty (
            read_metadata reads id o >>= (λ meta.
              read_manifest
                (disk.reads_manifest (meta.id))
                meta
                (manifest_in (lookup (meta.id) leases))))
    unfolding IsDirty
    load-dirty leases reads none all state e = cc
    load-dirty leases false (some meta) all state e = cc
    load-dirty leases true (some meta) all state e =
        read_manifest-meta (disk.reads_manifest ((named id meta).id)) (named id meta)
          (manifest_in (lookup ((named id meta).id) leases)) state e
        ∙ all meta refl

    load_lease-IsDirty :
        (leases : LeaseDirs)
        → normalize_lease_id wide_word id ≡ ok id
        → AllMeta (IsLeft wide_word parse_duration id) leases
        → IsDirty (load_lease wide_word disk id leases)
    unfolding load_lease load_lease_metadata
    load_lease-IsDirty leases normal left = simp normal (
        load-dirty leases (disk.reads_metadata id) (metadata_in (lookup id leases))
          (λ meta found. left id meta found ((text_beq_iff id id).1 refl)))

    reuse_loaded-refused :
        (now keep : ℕ) (session : Text) (leases : LeaseDirs) (r : Result LeaseFault LeaseState)
        → IsDirty r
        → is_ok (reuse_loaded wide_word disk now keep session id leases r).0 ≡ false
    unfolding IsDirty
    reuse_loaded-refused now keep session leases (err fault) dirty = refl
    reuse_loaded-refused now keep session leases (ok state) dirty = simp (dirty state refl) refl

    with_lock-refused :
        (context : Text) (old : LeaseLocks) (r : Result LeaseError LeaseLocks) (leases : LeaseDirs)
        (o : Outcome LeaseRun)
        → is_ok o.0 ≡ false
        → is_ok (with_lock context id old r leases o).0 ≡ false
    with_lock-refused context old (err e) leases o bad = refl
    with_lock-refused context old (ok locks) leases (err fault, after) bad = refl
    with_lock-refused context old (ok locks) leases (ok run, after) bad = cc

    some_run-refused :
        (p : Prepared) → is_ok p.0 ≡ false → is_ok (some_run wide_word disk p).0 ≡ false
    some_run-refused (err fault, s) bad = refl
    some_run-refused (ok run, s) bad = cc

    prepare_reused-refused :
        (now keep : ℕ) (req : RunRequest) (reuse_id : Text) (t : LeaseStore)
        → normalize_lease_id wide_word reuse_id ≡ ok id
        → normalize_lease_id wide_word id ≡ ok id
        → AllMeta (IsLeft wide_word parse_duration id) t.leases
        → is_ok (prepare_reused wide_word disk now keep req reuse_id t).0 ≡ false
    unfolding prepare_reused
    prepare_reused-refused now keep req reuse_id t named_id normal left =
        let loaded = load_lease wide_word disk id t.leases in
        simp named_id (
          with_lock-refused req.context_id t.locks
            (acquire_workspace_lease req.context_id id t.locks) t.leases
            (reuse_loaded wide_word disk now keep req.session id t.leases loaded)
            (reuse_loaded-refused now keep req.session t.leases loaded
              (load_lease-IsDirty t.leases normal left)))

    checked_id-same : (s : Text) → checked_id wide_word s ≡ ok id → s ≡ id
    checked_id-same [] e = cc
    checked_id-same (c ∷ s) e = elim (Bool-cases (is_lease_id wide_word (c ∷ s))) [
      | inl y ↦ let same : ok (c ∷ s) ≡ ok id = simp y at e in cc
      | inr n ↦ let no = simp n at e in cc
    ]

    prepare_run_workspace-refused :
        (now : ℕ) (req : RunRequest) (nonces : ℕ → Option (List ℕ)) (t : LeaseStore)
        → normalize_lease_id wide_word req.reuse_workspace ≡ ok id
        → AllMeta (IsLeft wide_word parse_duration id) t.leases
        → is_ok (prepare_run_workspace wide_word disk parse_duration now req nonces t).0 ≡ false
    unfolding prepare_run_workspace normalize_lease_id
    prepare_run_workspace-refused now req nonces t named_id left =
        go (trim_space req.reuse_workspace)
          (parse_workspace_keep_duration parse_duration req.keep_workspace) named_id
          (trim_space_idem req.reuse_workspace)
      where
        go :
            (s : Text) (r : Result LeaseFault ℕ)
            → checked_id wide_word s ≡ ok id
            → trim_space s ≡ s
            → is_ok (prepare_kept wide_word disk now req nonces t s r).0 ≡ false
        go s (err fault) checked trimmed = refl
        go [] (ok keep) checked trimmed = cc
        go (c ∷ s) (ok keep) checked trimmed =
            let same = checked_id-same (c ∷ s) checked in
            let normal : normalize_lease_id wide_word (c ∷ s) ≡ ok id =
              rw (trimmed, checked) refl in
            let refused =
              some_run-refused (prepare_reused wide_word disk now keep req (c ∷ s) t)
                (prepare_reused-refused now keep req (c ∷ s) t normal (rw same at normal) left) in
            elim (Bool-cases (keep == 0)) [ inl z ↦ simp z refused | inr z ↦ simp z refused ]

module _ (wide_word : ℕ → Bool) (parse_duration : Text → Option ℕ) where
  -- If a run got a lease, then whatever calls follow in any order, however the disk answers and
  -- whatever time they read, as long as none finalizes this lease: a run that asks for it by its id
  -- gets an error.
  pub abandoned_lease_refused :
      (disk : LeaseDisk) (now : ℕ) (req : RunRequest) (nonces : ℕ → Option (List ℕ))
      (s : LeaseStore) (run : LeaseRun)
      → (prepare_run_workspace wide_word disk parse_duration now req nonces s).0 ≡ ok (some run)
      → (t : LeaseStore)
      → Later wide_word parse_duration
          (run.state.meta.id)
          (prepare_run_workspace wide_word disk parse_duration now req nonces s).1
          t
      → (disk' : LeaseDisk) (now' : ℕ) (req' : RunRequest) (nonces' : ℕ → Option (List ℕ))
      → normalize_lease_id wide_word req'.reuse_workspace ≡ ok run.state.meta.id
      → is_ok (prepare_run_workspace wide_word disk' parse_duration now' req' nonces' t).0 ≡ false
  abandoned_lease_refused disk now req nonces s run got t later disk' now' req' nonces' named_id =
      let id = run.state.meta.id in
      let after = (prepare_run_workspace wide_word disk parse_duration now req nonces s).1 in
      let held =
        prepare_run_workspace-IsHeld wide_word disk parse_duration now req nonces s run got in
      prepare_run_workspace-refused wide_word parse_duration id disk' now' req' nonces' t named_id (
        Later-IsLeft wide_word parse_duration id after t later (λ j meta found same.
          let j_is : j ≡ id = (text_beq_iff j id).0 same in
          let found' : metadata_in (lookup id after.leases) ≡ some meta = rw j_is at found in
          let is : some run.state.meta ≡ some meta = sym held.written ∙ found' in
          let meta_is : run.state.meta ≡ meta = cc in rw⁻¹ meta_is held.is_marked))
