-- ===== src/Host/LeaseFiles/Held.antt =====
-- internal/host/workspace_lease.go: what stands on disk and in the locks behind a lease that was
-- handed out.
use rmtx.Base.{
  ℕ, ◌≡◌, refl, Bool, true, false, Option, none, some, List, [], ◌∷◌, Result, ok, err, Bool-cases,
  inl, inr, ◌==◌,
}
use rmtx.Base.Dict.{lookup, lookup-insert}
use rmtx.Base.Text.{Text, text_key, text_beq_iff, trim_space}
use rmtx.Host.Leases.{LeaseLocks, LeaseError, acquire_workspace_lease}
use rmtx.Host.LeaseFiles.{
  LeaseMetadata, LeaseState, LeaseDir, LeaseDirs, LeaseFault, LeaseDisk, normalize_lease_id,
  parse_workspace_keep_duration,
}
use rmtx.Host.LeaseFiles.Files.{Outcome, metadata_in, dir_or_new, save_lease, load_lease}
use rmtx.Host.LeaseFiles.Remove.{prune_expired}
use rmtx.Host.LeaseFiles.Saved.{save_lease-SavedAs}
use rmtx.Host.LeaseFiles.Prepare.{
  RunRequest, LeaseRun, LeaseStore, Prepared, is_expired_at, taken_up, new_state, saved_run,
  with_lock, workspace_is_there, reuse_loaded, reuse_normal, prepare_reused, make_workspace,
  create_lease, new_with_id, new_pruned, new_lease_id, prepare_new, some_run, prepare_kept,
  prepare_run_workspace,
}

-- What a run holds that got a lease: its lock, and the directory of a lease that is marked dirty.
pub record IsHeld (context session : Text) (old : LeaseLocks) (run : LeaseRun) (s : LeaseStore)
    : Type 0 where
  pub locked : acquire_workspace_lease context run.lock_id old ≡ ok s.locks
  pub is_marked : run.state.meta.dirty ≡ true
  pub in_session : run.state.meta.last_session ≡ session
  pub written : metadata_in (lookup (run.state.meta.id) s.leases) ≡ some run.state.meta

module _ (session id : Text) where
  -- What must hold of a run before the lock is counted in.
  abbrev pub Marked : Outcome LeaseRun → Type 0
  Marked o =
      (run : LeaseRun)
      → o.0 ≡ ok run
      → (run.lock_id ≡ id)
        × (run.state.meta.dirty ≡ true)
        × (run.state.meta.last_session ≡ session)
        × (metadata_in (lookup (run.state.meta.id) o.1) ≡ some run.state.meta)

  saved_run-Marked :
      (run : LeaseRun) (o : Outcome (Unit {0}))
      → run.lock_id ≡ id
      → run.state.meta.dirty ≡ true
      → run.state.meta.last_session ≡ session
      → ((u : Unit {0})
          → o.0 ≡ ok u
          → metadata_in (lookup (run.state.meta.id) o.1) ≡ some run.state.meta)
      → Marked (saved_run run o)
  saved_run-Marked run (err fault, after) lock dirty in_session written got e = cc
  saved_run-Marked run (ok u, after) lock dirty in_session written got e =
      let same : run ≡ got = cc in rw⁻¹ same (lock, dirty, in_session, written u refl)

module _ (context session id : Text) (old : LeaseLocks) where
  with_lock-IsHeld :
      (r : Result LeaseError LeaseLocks) (leases : LeaseDirs) (o : Outcome LeaseRun)
      (run : LeaseRun)
      → acquire_workspace_lease context id old ≡ r
      → Marked session id o
      → (with_lock context id old r leases o).0 ≡ ok run
      → IsHeld context session old run (with_lock context id old r leases o).1
  with_lock-IsHeld (err fault) leases o run acquired marked e = cc
  with_lock-IsHeld (ok locks) leases (err fault, after) run acquired marked e = cc
  with_lock-IsHeld (ok locks) leases (ok got, after) run acquired marked e =
      let same : got ≡ run = cc in
      let (lock, dirty, in_session, written) = marked run e in
      record {
        locked = rw (lock, acquired) refl;
        is_marked = dirty;
        in_session = in_session;
        written = written;
      }

module _ (wide_word : ℕ → Bool) (disk : LeaseDisk) where
  meta-dir_or_new :
      (o : Option LeaseDir) (meta : LeaseMetadata)
      → metadata_in o ≡ some meta
      → (dir_or_new o).metadata ≡ some meta
  meta-dir_or_new none meta e = cc
  meta-dir_or_new (some d) meta e = e

  saved-meta :
      (state : LeaseState) (leases : LeaseDirs) (u : Unit {0})
      → (save_lease wide_word disk state leases).0 ≡ ok u
      → metadata_in (lookup (state.meta.id) (save_lease wide_word disk state leases).1)
        ≡ some state.meta
  saved-meta state leases u e =
      let key = state.meta.id in
      let self = (text_beq_iff key key).1 refl in
      rw (save_lease-SavedAs wide_word disk state leases u e key, self) refl

  reuse_loaded-Marked :
      (now keep : ℕ) (session id : Text) (leases : LeaseDirs) (r : Result LeaseFault LeaseState)
      → Marked session id (reuse_loaded wide_word disk now keep session id leases r)
  reuse_loaded-Marked now keep session id leases (err fault) got e = cc
  reuse_loaded-Marked now keep session id leases (ok state) got e =
      elim (Bool-cases state.meta.dirty) [
        | inl d ↦ let no = simp d at e in cc
        | inr d ↦ elim (Bool-cases (is_expired_at now state.meta)) [
          | inl x ↦ let no = simp (d, x) at e in cc
          | inr x ↦ elim (Bool-cases (workspace_is_there wide_word disk id leases)) [
            | inl w ↦
                let used = taken_up now keep session state in
                let run : LeaseRun = record {
                  lock_id = id;
                  state = used;
                  reused = true;
                  keep = keep;
                } in
                simp (d, x, w)
                  (saved_run-Marked session id run (save_lease wide_word disk used leases) refl refl
                    refl (saved-meta used leases) got (simp (d, x, w) at e))
            | inr w ↦ let no = simp (d, x, w) at e in cc
          ]
        ]
      ]

  prepare_reused-IsHeld :
      (now keep : ℕ) (req : RunRequest) (reuse_id : Text) (s : LeaseStore) (run : LeaseRun)
      → (prepare_reused wide_word disk now keep req reuse_id s).0 ≡ ok run
      → IsHeld req.context_id req.session s.locks run
          (prepare_reused wide_word disk now keep req reuse_id s).1
  unfolding prepare_reused
  prepare_reused-IsHeld now keep req reuse_id s run = go (normalize_lease_id wide_word reuse_id)
    where
      go :
          (r : Result LeaseFault Text)
          → (reuse_normal wide_word disk now keep req s r).0 ≡ ok run
          → IsHeld req.context_id req.session s.locks run
              (reuse_normal wide_word disk now keep req s r).1
      go (err fault) e = cc
      go (ok id) e =
          let loaded = load_lease wide_word disk id s.leases in
          with_lock-IsHeld req.context_id req.session id s.locks
            (acquire_workspace_lease req.context_id id s.locks) s.leases
            (reuse_loaded wide_word disk now keep req.session id s.leases loaded) run refl
            (reuse_loaded-Marked now keep req.session id s.leases loaded) e

  make_workspace-Marked :
      (session id : Text) (run : LeaseRun) (o : Outcome (Unit {0}))
      → run.lock_id ≡ id
      → run.state.meta.dirty ≡ true
      → run.state.meta.last_session ≡ session
      → ((u : Unit {0})
          → o.0 ≡ ok u
          → metadata_in (lookup (run.state.meta.id) o.1) ≡ some run.state.meta)
      → Marked session id (make_workspace wide_word disk run (run.state.meta.id) o)
  make_workspace-Marked session id run (err fault, after) lock dirty in_session written got e = cc
  make_workspace-Marked session id run (ok u, after) lock dirty in_session written got e =
      let key = run.state.meta.id in
      elim (Bool-cases (disk.makes_workspace key)) [
        | inl m ↦
            let made : ok run ≡ ok got = simp m at e in
            let same : run ≡ got = cc in
            let old = dir_or_new (lookup key after) in
            let self = (text_beq_iff key key).1 refl in
            simp m (
              rw⁻¹ same (
                lock,
                dirty,
                in_session,
                simp (lookup-insert key key (record old { has_workspace = true }) after, self)
                    (meta-dir_or_new (lookup key after) run.state.meta (written u refl)),
              ))
        | inr m ↦ let no = simp m at e in cc
      ]

  prepare_new-IsHeld :
      (now keep : ℕ) (req : RunRequest) (nonces : ℕ → Option (List ℕ)) (s : LeaseStore)
      (run : LeaseRun)
      → (prepare_new wide_word disk now keep req nonces s).0 ≡ ok run
      → IsHeld req.context_id req.session s.locks run
          (prepare_new wide_word disk now keep req nonces s).1
  unfolding prepare_new
  prepare_new-IsHeld now keep req nonces s run =
      go (prune_expired wide_word disk now s.locks s.leases)
    where
      with_id :
          (leases : LeaseDirs) (r : Result LeaseFault Text)
          → (new_with_id wide_word disk now keep req s.locks leases r).0 ≡ ok run
          → IsHeld req.context_id req.session s.locks run
              (new_with_id wide_word disk now keep req s.locks leases r).1
      with_id leases (err fault) e = cc
      with_id leases (ok id) e =
          let new : LeaseRun = record {
            lock_id = id;
            state = new_state now keep req.context_id req.session id;
            reused = false;
            keep = keep;
          } in
          with_lock-IsHeld req.context_id req.session id s.locks
            (acquire_workspace_lease req.context_id id s.locks) leases
            (create_lease wide_word disk new leases) run refl
            (make_workspace-Marked req.session id new (save_lease wide_word disk new.state leases)
              refl refl refl (saved-meta new.state leases))
            e

      go :
          (o : Outcome (List Text))
          → (new_pruned wide_word disk now keep req nonces s.locks o).0 ≡ ok run
          → IsHeld req.context_id req.session s.locks run
              (new_pruned wide_word disk now keep req nonces s.locks o).1
      go (err fault, leases) e = cc
      go (ok gone, leases) e = with_id leases (new_lease_id wide_word disk nonces leases) e

  some_run-IsHeld :
      (context session : Text) (old : LeaseLocks) (run : LeaseRun) (p : Prepared)
      → ((r : LeaseRun) → p.0 ≡ ok r → IsHeld context session old r p.1)
      → (some_run wide_word disk p).0 ≡ ok (some run)
      → IsHeld context session old run (some_run wide_word disk p).1
  some_run-IsHeld context session old run (err fault, s) held e = cc
  some_run-IsHeld context session old run (ok r, s) held e =
      let same : r ≡ run = cc in rw⁻¹ same (held r refl)

  pub prepare_run_workspace-IsHeld :
      (parse_duration : Text → Option ℕ) (now : ℕ) (req : RunRequest) (nonces : ℕ → Option (List ℕ))
      (s : LeaseStore) (run : LeaseRun)
      → (prepare_run_workspace wide_word disk parse_duration now req nonces s).0 ≡ ok (some run)
      → IsHeld req.context_id req.session s.locks run
          (prepare_run_workspace wide_word disk parse_duration now req nonces s).1
  unfolding prepare_run_workspace
  prepare_run_workspace-IsHeld parse_duration now req nonces s run =
      go (trim_space req.reuse_workspace)
        (parse_workspace_keep_duration parse_duration req.keep_workspace)
    where
      Held : Text → Result LeaseFault ℕ → Type 0
      Held reuse_id r =
          (prepare_kept wide_word disk now req nonces s reuse_id r).0 ≡ ok (some run)
          → IsHeld req.context_id req.session s.locks run
              (prepare_kept wide_word disk now req nonces s reuse_id r).1

      go : (reuse_id : Text) (r : Result LeaseFault ℕ) → Held reuse_id r
      go reuse_id (err fault) = λ e. cc
      go [] (ok keep) = elim (Bool-cases (keep == 0)) [
        | inl z ↦ simp z (λ e. cc)
        | inr z ↦ simp z (
            some_run-IsHeld req.context_id req.session s.locks run
              (prepare_new wide_word disk now keep req nonces s)
              (λ r. prepare_new-IsHeld now keep req nonces s r))
      ]
      go (c ∷ id) (ok keep) = elim (Bool-cases (keep == 0)) [
        | inl z ↦ simp z (
            some_run-IsHeld req.context_id req.session s.locks run
              (prepare_reused wide_word disk now keep req (c ∷ id) s)
              (λ r. prepare_reused-IsHeld now keep req (c ∷ id) s r))
        | inr z ↦ simp z (
            some_run-IsHeld req.context_id req.session s.locks run
              (prepare_reused wide_word disk now keep req (c ∷ id) s)
              (λ r. prepare_reused-IsHeld now keep req (c ∷ id) s r))
      ]
