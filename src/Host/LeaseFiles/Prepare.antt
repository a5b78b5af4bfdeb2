-- ===== src/Host/LeaseFiles/Prepare.antt =====
-- internal/host/workspace_lease.go: how a run gets a lease, and what it leaves of it. A run of a
-- context holds the context's lock, so each function here is one step.
use rmtx.Base.{
  ℕ, zero, suc, ◌+◌, Bool, true, false, not, ◌&&◌, Option, none, some, List, [], ◌++◌, Result, ok,
  err, leb, ltb, ◌==◌, if◌then◌else◌, take, is_some,
}
use rmtx.Base.Dict.{lookup, insert}
use rmtx.Base.Text.{codes, Text, text_key, is_empty, trim_space}
use rmtx.Syncfs.Manifest.{Entry}
use rmtx.Syncfs.Hash.{hex_encode}
use rmtx.Host.Leases.{LeaseLocks, LeaseError, lease_key, acquire_workspace_lease, release_key}
use rmtx.Host.LeaseFiles.{
  LeaseMetadata, LeaseState, LeaseDirs, LeaseFault, is_dirty, has_expired, workspace_missing,
  create_failed, nonce_failed, stat_failed, no_free_id, lock_refused, LeaseDisk, normalize_lease_id,
  parse_workspace_keep_duration,
}
use rmtx.Host.LeaseFiles.Files.{
  Outcome, dir_or_new, workspace_in, load_lease, save_lease, remove_lease,
}
use rmtx.Host.LeaseFiles.Remove.{prune_expired}

-- The fields of protocol.RunRequest that leases read.
pub record RunRequest : Type 0 where
  pub context_id : Text
  pub session : Text
  pub keep_workspace : Text
  pub reuse_workspace : Text

-- The function `release` is `release_lease` of the context and `lock_id`.
pub record LeaseRun : Type 0 where
  pub lock_id : Text
  pub state : LeaseState
  pub reused : Bool
  pub keep : ℕ

pub record LeaseStore : Type 0 where
  pub locks : LeaseLocks
  pub leases : LeaseDirs

-- A call that may fail behind a change of the locks and the directories.
abbrev pub Prepared : Type 0
Prepared = Result LeaseFault LeaseRun × LeaseStore

-- The function that `acquireWorkspaceLease` returned for this lease.
abbrev pub release_lease : Text → Text → LeaseLocks → LeaseLocks
release_lease context id locks =
    if is_empty (trim_space id) then locks else release_key (lease_key context id) locks

-- `!state.ExpiresAt.IsZero() && !state.ExpiresAt.After(now)`
abbrev pub is_expired_at : ℕ → LeaseMetadata → Bool
is_expired_at now meta = not (meta.expires_at == 0) && leb meta.expires_at now

abbrev pub found_missing : ℕ → LeaseState → LeaseState
found_missing now state = record state {
  meta = record (state.meta) { dirty = true; updated_at = now };
}

-- `if keep > 0 { state.ExpiresAt = now.Add(keep) }`
abbrev pub expiry : ℕ → ℕ → ℕ → ℕ
expiry now keep old = if ltb 0 keep then now + keep else old

abbrev pub taken_up : ℕ → ℕ → Text → LeaseState → LeaseState
taken_up now keep session state = record state {
  meta = record (state.meta) {
    expires_at = expiry now keep (state.meta.expires_at);
    updated_at = now;
    last_session = session;
    dirty = true;
  };
}

abbrev pub new_state : ℕ → ℕ → Text → Text → Text → LeaseState
new_state now keep context session id = record {
  meta = record {
    id = id;
    context_id = context;
    created_at = now;
    updated_at = now;
    expires_at = now + keep;
    dirty = true;
    last_session = session;
  };
  workspace_manifest = [];
}

abbrev pub saved_run : LeaseRun → Outcome (Unit {0}) → Outcome LeaseRun
saved_run run (err fault, leases) = (err fault, leases)
saved_run run (ok u, leases) = (ok run, leases)

-- The outcome behind an acquired lock: it is kept on success, and released on any fault.
abbrev pub keep_lock : Text → Text → LeaseLocks → Outcome LeaseRun → Prepared
keep_lock context id locks (err fault, leases) =
    (err fault, record { locks = release_lease context id locks; leases = leases })
keep_lock context id locks (ok run, leases) = (ok run, record { locks = locks; leases = leases })

abbrev pub with_lock :
    Text
    → Text
    → LeaseLocks
    → Result LeaseError LeaseLocks
    → LeaseDirs
    → Outcome LeaseRun
    → Prepared
with_lock context id old (err e) leases rest =
    (err lock_refused, record { locks = old; leases = leases })
with_lock context id old (ok locks) leases rest = keep_lock context id locks rest

-- releaseActive, which sets the function to nil: it is called once.
unfoldable pub release_active : Text → LeaseRun → LeaseLocks → LeaseLocks
release_active context run locks = release_lease context run.lock_id locks

abbrev pub final_state : ℕ → Text → List Entry → LeaseRun → LeaseState
final_state now session entries run = record {
  meta = record (run.state.meta) {
    updated_at = now;
    expires_at = expiry now run.keep (run.state.meta.expires_at);
    dirty = false;
    last_session = session;
  };
  workspace_manifest = entries;
}

abbrev pub lease_id_of : List ℕ → Text
lease_id_of nonce = codes "ws_" ++ take 16 (hex_encode nonce)

module _ (wide_word : ℕ → Bool) (disk : LeaseDisk) where
  -- os.Stat of the workspace
  abbrev pub workspace_is_there : Text → LeaseDirs → Bool
  workspace_is_there id leases = disk.stats_workspace id && workspace_in (lookup id leases)

  abbrev pub reuse_loaded :
      ℕ → ℕ → Text → Text → LeaseDirs → Result LeaseFault LeaseState → Outcome LeaseRun
  reuse_loaded now keep session id leases (err fault) = (err fault, leases)
  reuse_loaded now keep session id leases (ok state) =
      if state.meta.dirty
      then (err is_dirty, leases)
      else if is_expired_at now state.meta
      then (err has_expired, (remove_lease wide_word disk id leases).1)
      else if not (workspace_is_there id leases)
      then (err workspace_missing, (save_lease wide_word disk (found_missing now state) leases).1)
      else saved_run
          (record {
            lock_id = id;
            state = taken_up now keep session state;
            reused = true;
            keep = keep;
          })
          (save_lease wide_word disk (taken_up now keep session state) leases)

  abbrev pub reuse_normal : ℕ → ℕ → RunRequest → LeaseStore → Result LeaseFault Text → Prepared
  reuse_normal now keep req s (err fault) = (err fault, s)
  reuse_normal now keep req s (ok id) =
      with_lock req.context_id id s.locks (acquire_workspace_lease req.context_id id s.locks)
        s.leases
        (reuse_loaded now keep req.session id s.leases (load_lease wide_word disk id s.leases))

  -- prepareReusedWorkspaceLease
  unfoldable pub prepare_reused : ℕ → ℕ → RunRequest → Text → LeaseStore → Prepared
  prepare_reused now keep req reuse_id s =
      reuse_normal now keep req s (normalize_lease_id wide_word reuse_id)

  -- One round: os.Stat answers that the directory is missing, or there, or fails.
  abbrev pub try_id : Text → LeaseDirs → Result LeaseFault Text → Result LeaseFault Text
  try_id id leases later =
      if not (disk.stats_lease id)
      then err stat_failed
      else if is_some (lookup id leases)
      then later
      else ok id

  abbrev pub try_nonce :
      Option (List ℕ) → LeaseDirs → Result LeaseFault Text → Result LeaseFault Text
  try_nonce none leases later = err nonce_failed
  try_nonce (some nonce) leases later = try_id (lease_id_of nonce) leases later

  -- `nonces i` are the random bytes of round i, if there are any.
  unfoldable pub new_id_loop : ℕ → ℕ → (ℕ → Option (List ℕ)) → LeaseDirs → Result LeaseFault Text
  new_id_loop zero i nonces leases = err no_free_id
  new_id_loop (suc rounds) i nonces leases =
      try_nonce (nonces i) leases (new_id_loop rounds (suc i) nonces leases)

  -- newWorkspaceLeaseID
  unfoldable pub new_lease_id : (ℕ → Option (List ℕ)) → LeaseDirs → Result LeaseFault Text
  new_lease_id nonces leases = new_id_loop 16 0 nonces leases

  -- os.MkdirAll of the workspace, and what is done if it fails
  abbrev pub make_workspace : LeaseRun → Text → Outcome (Unit {0}) → Outcome LeaseRun
  make_workspace run id (err fault, leases) = (err fault, leases)
  make_workspace run id (ok u, leases) =
      if disk.makes_workspace id
      then (
        ok run,
        insert id (record (dir_or_new (lookup id leases)) { has_workspace = true }) leases,
      )
      else (err create_failed, (remove_lease wide_word disk id leases).1)

  abbrev pub create_lease : LeaseRun → LeaseDirs → Outcome LeaseRun
  create_lease run leases =
      make_workspace run run.state.meta.id (save_lease wide_word disk run.state leases)

  abbrev pub new_with_id :
      ℕ → ℕ → RunRequest → LeaseLocks → LeaseDirs → Result LeaseFault Text → Prepared
  new_with_id now keep req locks leases (err fault) =
      (err fault, record { locks = locks; leases = leases })
  new_with_id now keep req locks leases (ok id) =
      with_lock req.context_id id locks (acquire_workspace_lease req.context_id id locks) leases (
        create_lease
          (record {
            lock_id = id;
            state = new_state now keep req.context_id req.session id;
            reused = false;
            keep = keep;
          })
          leases)

  abbrev pub new_pruned :
      ℕ → ℕ → RunRequest → (ℕ → Option (List ℕ)) → LeaseLocks → Outcome (List Text) → Prepared
  new_pruned now keep req nonces locks (err fault, leases) =
      (err fault, record { locks = locks; leases = leases })
  new_pruned now keep req nonces locks (ok gone, leases) =
      new_with_id now keep req locks leases (new_lease_id nonces leases)

  -- prepareNewWorkspaceLease
  unfoldable pub prepare_new : ℕ → ℕ → RunRequest → (ℕ → Option (List ℕ)) → LeaseStore → Prepared
  prepare_new now keep req nonces s =
      new_pruned now keep req nonces s.locks (prune_expired wide_word disk now s.locks s.leases)

  -- prepareRunWorkspace: none stands for the context's own workspace, without a lease.
  abbrev pub some_run : Prepared → Result LeaseFault (Option LeaseRun) × LeaseStore
  some_run (err fault, s) = (err fault, s)
  some_run (ok run, s) = (ok (some run), s)

  abbrev pub prepare_kept :
      ℕ
      → RunRequest
      → (ℕ → Option (List ℕ))
      → LeaseStore
      → Text
      → Result LeaseFault ℕ
      → Result LeaseFault (Option LeaseRun) × LeaseStore
  prepare_kept now req nonces s reuse_id (err fault) = (err fault, s)
  prepare_kept now req nonces s reuse_id (ok keep) =
      if keep == 0 && is_empty reuse_id
      then (ok none, s)
      else some_run (
          if is_empty reuse_id
          then prepare_new now keep req nonces s
          else prepare_reused now keep req reuse_id s)

  unfoldable pub prepare_run_workspace :
      (Text → Option ℕ)
      → ℕ
      → RunRequest
      → (ℕ → Option (List ℕ))
      → LeaseStore
      → Result LeaseFault (Option LeaseRun) × LeaseStore
  prepare_run_workspace parse_duration now req nonces s =
      prepare_kept now req nonces s (trim_space req.reuse_workspace)
        (parse_workspace_keep_duration parse_duration req.keep_workspace)

  -- finalizeWorkspaceLease, with the lease of the run behind it.
  unfoldable pub finalize_lease :
      ℕ → Text → List Entry → LeaseRun → LeaseDirs → Outcome (Unit {0}) × LeaseRun
  finalize_lease now session entries run leases = (
    save_lease wide_word disk (final_state now session entries run) leases,
    record run { state = final_state now session entries run },
  )

  -- markWorkspaceLeaseDirty: a failed save is only logged.
  unfoldable pub mark_lease_dirty : ℕ → LeaseRun → LeaseDirs → LeaseDirs × LeaseRun
  mark_lease_dirty now run leases = (
    (save_lease wide_word disk (found_missing now run.state) leases).1,
    record run { state = found_missing now run.state },
  )
