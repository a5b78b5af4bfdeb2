-- ===== src/Host/LeaseFiles/Written.antt =====
-- internal/host/workspace_lease.go: what preparing a run leaves of the metadata of all leases:
-- it writes only metadata that is dirty.
use rmtx.Base.{
  ℕ, ◌≡◌, refl, Bool, true, false, Option, List, [], ◌∷◌, Result, ok, err, ◌==◌, Bool-cases, inl,
  inr,
}
use rmtx.Base.Text.{Text, text_key, trim_space}
use rmtx.Host.Leases.{LeaseLocks, LeaseError, acquire_workspace_lease}
use rmtx.Host.LeaseFiles.{
  LeaseMetadata, LeaseState, LeaseDirs, LeaseFault, LeaseDisk, normalize_lease_id,
  parse_workspace_keep_duration,
}
use rmtx.Host.LeaseFiles.Files.{Outcome, load_lease, save_lease}
use rmtx.Host.LeaseFiles.Remove.{prune_expired}
use rmtx.Host.LeaseFiles.Prepare.{
  RunRequest, LeaseRun, LeaseStore, Prepared, is_expired_at, found_missing, taken_up, new_state,
  saved_run, keep_lock, with_lock, workspace_is_there, reuse_loaded, reuse_normal, prepare_reused,
  make_workspace, create_lease, new_with_id, new_pruned, new_lease_id, prepare_new, some_run,
  prepare_kept, prepare_run_workspace, mark_lease_dirty,
}
use rmtx.Host.LeaseFiles.Calls.{prune_expired-AllMeta}
use rmtx.Host.LeaseFiles.Stored.{
  AllMeta, AllMeta-workspace, save_lease-AllMeta, remove_lease-AllMeta,
}

module _ (Q : Text → LeaseMetadata → Type 0) (wide_word : ℕ → Bool) (disk : LeaseDisk)
    (dirty_ok : (meta : LeaseMetadata) → meta.dirty ≡ true → Q meta.id meta) where
  keep_lock-AllMeta :
      (context id : Text) (locks : LeaseLocks) (o : Outcome LeaseRun)
      → AllMeta Q o.1
      → AllMeta Q ((keep_lock context id locks o).1).leases
  keep_lock-AllMeta context id locks (err fault, leases) all = all
  keep_lock-AllMeta context id locks (ok run, leases) all = all

  with_lock-AllMeta :
      (context id : Text) (old : LeaseLocks) (r : Result LeaseError LeaseLocks) (leases : LeaseDirs)
      (rest : Outcome LeaseRun)
      → AllMeta Q leases
      → AllMeta Q rest.1
      → AllMeta Q ((with_lock context id old r leases rest).1).leases
  with_lock-AllMeta context id old (err e) leases rest all after = all
  with_lock-AllMeta context id old (ok locks) leases rest all after =
      keep_lock-AllMeta context id locks rest after

  saved_run-AllMeta :
      (run : LeaseRun) (o : Outcome (Unit {0})) → AllMeta Q o.1 → AllMeta Q (saved_run run o).1
  saved_run-AllMeta run (err fault, leases) all = all
  saved_run-AllMeta run (ok u, leases) all = all

  save_dirty :
      (state : LeaseState) (leases : LeaseDirs)
      → state.meta.dirty ≡ true
      → AllMeta Q leases
      → AllMeta Q (save_lease wide_word disk state leases).1
  save_dirty state leases e =
      save_lease-AllMeta Q wide_word disk state leases (dirty_ok state.meta e)

  reuse_loaded-AllMeta :
      (now keep : ℕ) (session id : Text) (leases : LeaseDirs) (r : Result LeaseFault LeaseState)
      → AllMeta Q leases
      → AllMeta Q (reuse_loaded wide_word disk now keep session id leases r).1
  reuse_loaded-AllMeta now keep session id leases (err fault) all = all
  reuse_loaded-AllMeta now keep session id leases (ok state) all =
      elim (Bool-cases state.meta.dirty) [
        | inl d ↦ simp d all
        | inr d ↦ simp d (elim (Bool-cases (is_expired_at now state.meta)) [
          | inl x ↦ simp x (remove_lease-AllMeta Q wide_word disk id leases all)
          | inr x ↦ simp x (elim (Bool-cases (workspace_is_there wide_word disk id leases)) [
            | inl w ↦ simp w (
                saved_run-AllMeta
                  (record {
                    lock_id = id;
                    state = taken_up now keep session state;
                    reused = true;
                    keep = keep;
                  })
                  (save_lease wide_word disk (taken_up now keep session state) leases)
                  (save_dirty (taken_up now keep session state) leases refl all))
            | inr w ↦ simp w (save_dirty (found_missing now state) leases refl all)
          ])
        ])
      ]

  pub prepare_reused-AllMeta :
      (now keep : ℕ) (req : RunRequest) (reuse_id : Text) (s : LeaseStore)
      → AllMeta Q s.leases
      → AllMeta Q ((prepare_reused wide_word disk now keep req reuse_id s).1).leases
  unfolding prepare_reused
  prepare_reused-AllMeta now keep req reuse_id s all = go (normalize_lease_id wide_word reuse_id)
    where
      go :
          (r : Result LeaseFault Text)
          → AllMeta Q ((reuse_normal wide_word disk now keep req s r).1).leases
      go (err fault) = all
      go (ok id) =
          let loaded = load_lease wide_word disk id s.leases in
          with_lock-AllMeta req.context_id id s.locks
            (acquire_workspace_lease req.context_id id s.locks) s.leases
            (reuse_loaded wide_word disk now keep req.session id s.leases loaded) all
            (reuse_loaded-AllMeta now keep req.session id s.leases loaded all)

  make_workspace-AllMeta :
      (run : LeaseRun) (id : Text) (o : Outcome (Unit {0}))
      → AllMeta Q o.1
      → AllMeta Q (make_workspace wide_word disk run id o).1
  make_workspace-AllMeta run id (err fault, leases) all = all
  make_workspace-AllMeta run id (ok u, leases) all = elim (Bool-cases (disk.makes_workspace id)) [
    | inl e ↦ simp e (AllMeta-workspace Q id leases all)
    | inr e ↦ simp e (remove_lease-AllMeta Q wide_word disk id leases all)
  ]

  create_lease-AllMeta :
      (run : LeaseRun) (leases : LeaseDirs)
      → run.state.meta.dirty ≡ true
      → AllMeta Q leases
      → AllMeta Q (create_lease wide_word disk run leases).1
  create_lease-AllMeta run leases e all =
      make_workspace-AllMeta run run.state.meta.id (save_lease wide_word disk run.state leases)
        (save_dirty run.state leases e all)

  new_with_id-AllMeta :
      (now keep : ℕ) (req : RunRequest) (locks : LeaseLocks) (leases : LeaseDirs)
      (r : Result LeaseFault Text)
      → AllMeta Q leases
      → AllMeta Q ((new_with_id wide_word disk now keep req locks leases r).1).leases
  new_with_id-AllMeta now keep req locks leases (err fault) all = all
  new_with_id-AllMeta now keep req locks leases (ok id) all =
      let run : LeaseRun = record {
        lock_id = id;
        state = new_state now keep req.context_id req.session id;
        reused = false;
        keep = keep;
      } in
      with_lock-AllMeta req.context_id id locks (acquire_workspace_lease req.context_id id locks)
        leases (create_lease wide_word disk run leases) all
        (create_lease-AllMeta run leases refl all)

  pub prepare_new-AllMeta :
      (now keep : ℕ) (req : RunRequest) (nonces : ℕ → Option (List ℕ)) (s : LeaseStore)
      → AllMeta Q s.leases
      → AllMeta Q ((prepare_new wide_word disk now keep req nonces s).1).leases
  unfolding prepare_new
  prepare_new-AllMeta now keep req nonces s all =
      go (prune_expired wide_word disk now s.locks s.leases)
        (prune_expired-AllMeta Q wide_word disk now s.locks s.leases all)
    where
      go :
          (o : Outcome (List Text))
          → AllMeta Q o.1
          → AllMeta Q ((new_pruned wide_word disk now keep req nonces s.locks o).1).leases
      go (err fault, leases) pruned = pruned
      go (ok gone, leases) pruned =
          new_with_id-AllMeta now keep req s.locks leases
            (new_lease_id wide_word disk nonces leases) pruned

  some_run-AllMeta :
      (p : Prepared) → AllMeta Q (p.1).leases → AllMeta Q ((some_run wide_word disk p).1).leases
  some_run-AllMeta (err fault, s) all = all
  some_run-AllMeta (ok run, s) all = all

  pub prepare_run_workspace-AllMeta :
      (parse_duration : Text → Option ℕ) (now : ℕ) (req : RunRequest) (nonces : ℕ → Option (List ℕ))
      (s : LeaseStore)
      → AllMeta Q s.leases
      → AllMeta Q ((prepare_run_workspace wide_word disk parse_duration now req nonces s).1).leases
  unfolding prepare_run_workspace
  prepare_run_workspace-AllMeta parse_duration now req nonces s all =
      go (trim_space req.reuse_workspace)
        (parse_workspace_keep_duration parse_duration req.keep_workspace)
    where
      go :
          (reuse_id : Text) (r : Result LeaseFault ℕ)
          → AllMeta Q ((prepare_kept wide_word disk now req nonces s reuse_id r).1).leases
      go reuse_id (err fault) = all
      go [] (ok keep) = elim (Bool-cases (keep == 0)) [
        | inl e ↦ simp e all
        | inr e ↦ simp e (
            some_run-AllMeta (prepare_new wide_word disk now keep req nonces s)
              (prepare_new-AllMeta now keep req nonces s all))
      ]
      go (c ∷ id) (ok keep) = elim (Bool-cases (keep == 0)) [
        | inl e ↦ simp e (
            some_run-AllMeta (prepare_reused wide_word disk now keep req (c ∷ id) s)
              (prepare_reused-AllMeta now keep req (c ∷ id) s all))
        | inr e ↦ simp e (
            some_run-AllMeta (prepare_reused wide_word disk now keep req (c ∷ id) s)
              (prepare_reused-AllMeta now keep req (c ∷ id) s all))
      ]

  pub mark_lease_dirty-AllMeta :
      (now : ℕ) (run : LeaseRun) (leases : LeaseDirs)
      → AllMeta Q leases
      → AllMeta Q (mark_lease_dirty wide_word disk now run leases).0
  unfolding mark_lease_dirty
  mark_lease_dirty-AllMeta now run leases = save_dirty (found_missing now run.state) leases refl
