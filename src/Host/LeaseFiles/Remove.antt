-- ===== src/Host/LeaseFiles/Remove.antt =====
-- internal/host/workspace_lease.go: pruning, listing and deleting the leases of a context.
use rmtx.Base.{
  ℕ, Bool, true, false, not, ◌||◌, Option, none, some, List, [], ◌∷◌, ◌++◌, Result, ok, err, is_ok,
  leb, ◌==◌, if◌then◌else◌, filter, map,
}
use rmtx.Base.Sort.{sort_by}
use rmtx.Base.Text.{Text, is_before, trim_space}
use rmtx.Host.Leases.{
  LeaseLocks, LeaseError, lease_key, workspace_lease_is_active, begin_delete, end_delete,
}
use rmtx.Host.LeaseFiles.{
  LeaseMetadata, LeaseDirs, LeaseFault, lease_not_found, list_failed, lock_refused, LeaseDisk,
  normalize_lease_id,
}
use rmtx.Host.LeaseFiles.Files.{Outcome, load_lease_metadata, remove_lease}

-- The path follows from the id, and is left out.
pub record LeaseSummary : Type 0 where
  pub id : Text
  pub context_id : Text
  pub created_at : ℕ
  pub updated_at : ℕ
  pub expires_at : ℕ
  pub dirty : Bool
  pub active : Bool

unfoldable pub lease_summary : Text → LeaseLocks → LeaseMetadata → LeaseSummary
lease_summary context locks meta = record {
  id = meta.id;
  context_id = context;
  created_at = meta.created_at;
  updated_at = meta.updated_at;
  expires_at = meta.expires_at;
  dirty = meta.dirty;
  active = workspace_lease_is_active context meta.id locks;
}

abbrev pub is_not_found : LeaseFault → Bool
is_not_found lease_not_found = true
is_not_found _ = false

-- `state.ExpiresAt.IsZero() || state.ExpiresAt.After(now)`
abbrev pub is_kept_at : ℕ → LeaseMetadata → Bool
is_kept_at now meta = meta.expires_at == 0 || not (leb meta.expires_at now)

-- Go on with what was removed, unless the removal failed.
abbrev pub after_removal : Text → Outcome (Unit {0}) → Outcome (List Text)
after_removal name (err fault, leases) = (err fault, leases)
after_removal name (ok u, leases) = (ok (name ∷ []), leases)

abbrev pub add_removed : List Text → Outcome (List Text) → Outcome (List Text)
add_removed names (err fault, leases) = (err fault, leases)
add_removed names (ok later, leases) = (ok (names ++ later), leases)

abbrev pub prune_on : Outcome (List Text) → (LeaseDirs → Outcome (List Text)) → Outcome (List Text)
prune_on (err fault, leases) rest = (err fault, leases)
prune_on (ok names, leases) rest = add_removed names (rest leases)

module _ (wide_word : ℕ → Bool) (disk : LeaseDisk) where
  -- forEachWorkspaceLeaseDir: the names it calls the function with. `ReadDir` gives them in order.
  unfoldable pub lease_dir_names : LeaseDirs → List Text
  lease_dir_names leases =
      filter (λ name. is_ok (normalize_lease_id wide_word name))
        (sort_by is_before (map (λ e. e.0) leases))

  -- The callback of a prune, with the names it adds to what was removed.
  abbrev pub prune_loaded :
      ℕ → LeaseLocks → Text → LeaseDirs → Result LeaseFault LeaseMetadata → Outcome (List Text)
  prune_loaded now locks name leases (err fault) =
      if is_not_found fault
      then after_removal name (remove_lease wide_word disk name leases)
      else (err fault, leases)
  prune_loaded now locks name leases (ok meta) =
      if is_kept_at now meta || workspace_lease_is_active meta.context_id meta.id locks
      then (ok [], leases)
      else after_removal meta.id (remove_lease wide_word disk meta.id leases)

  unfoldable pub prune_one : ℕ → LeaseLocks → Text → LeaseDirs → Outcome (List Text)
  prune_one now locks name leases =
      prune_loaded now locks name leases (load_lease_metadata wide_word disk name leases)

  unfoldable pub prune_loop : ℕ → LeaseLocks → List Text → LeaseDirs → Outcome (List Text)
  prune_loop now locks [] leases = (ok [], leases)
  prune_loop now locks (name ∷ names) leases =
      prune_on (prune_one now locks name leases) (prune_loop now locks names)

  abbrev pub sorted_names : Outcome (List Text) → Outcome (List Text)
  sorted_names (err fault, leases) = (err fault, leases)
  sorted_names (ok names, leases) = (ok (sort_by is_before names), leases)

  -- pruneExpiredWorkspaceLeasesInContext. The names that it has removed before a fault are left
  -- out: no caller reads them.
  unfoldable pub prune_expired : ℕ → LeaseLocks → LeaseDirs → Outcome (List Text)
  prune_expired now locks leases =
      if disk.lists
      then sorted_names (prune_loop now locks (lease_dir_names leases) leases)
      else (err list_failed, leases)

  abbrev pub add_summary :
      LeaseSummary → Result LeaseFault (List LeaseSummary) → Result LeaseFault (List LeaseSummary)
  add_summary summary (err fault) = err fault
  add_summary summary (ok later) = ok (summary ∷ later)

  abbrev pub summary_then :
      Text
      → LeaseLocks
      → Result LeaseFault LeaseMetadata
      → Result LeaseFault (List LeaseSummary)
      → Result LeaseFault (List LeaseSummary)
  summary_then context locks (err fault) later = err fault
  summary_then context locks (ok meta) later = add_summary (lease_summary context locks meta) later

  unfoldable pub list_loop :
      Text → LeaseLocks → List Text → LeaseDirs → Result LeaseFault (List LeaseSummary)
  list_loop context locks [] leases = ok []
  list_loop context locks (name ∷ names) leases =
      summary_then context locks (load_lease_metadata wide_word disk name leases)
        (list_loop context locks names leases)

  abbrev pub by_id : LeaseSummary → LeaseSummary → Bool
  by_id a b = is_before a.id b.id

  abbrev pub sorted_summaries :
      Result LeaseFault (List LeaseSummary) → Result LeaseFault (List LeaseSummary)
  sorted_summaries (err fault) = err fault
  sorted_summaries (ok out) = ok (sort_by by_id out)

  abbrev pub list_pruned : Text → LeaseLocks → Outcome (List Text) → Outcome (List LeaseSummary)
  list_pruned context locks (err fault, leases) = (err fault, leases)
  list_pruned context locks (ok gone, leases) =
      (sorted_summaries (list_loop context locks (lease_dir_names leases) leases), leases)

  -- listWorkspaceLeases
  unfoldable pub list_leases : Text → ℕ → LeaseLocks → LeaseDirs → Outcome (List LeaseSummary)
  list_leases context now locks leases = list_pruned context locks (prune_expired now locks leases)

  -- One id of deleteWorkspaceLeases: the summary of what was deleted, or none where no lease is.
  abbrev pub after_delete : LeaseSummary → Outcome (Unit {0}) → Outcome (Option LeaseSummary)
  after_delete summary (err fault, leases) = (err fault, leases)
  after_delete summary (ok u, leases) = (ok (some summary), leases)

  abbrev pub delete_loaded :
      Text
      → LeaseLocks
      → Text
      → LeaseDirs
      → Result LeaseFault LeaseMetadata
      → Outcome (Option LeaseSummary)
  delete_loaded context locks id leases (err fault) =
      if is_not_found fault
      then (ok none, (remove_lease wide_word disk id leases).1)
      else (err fault, leases)
  delete_loaded context locks id leases (ok meta) =
      after_delete (lease_summary context locks meta) (remove_lease wide_word disk id leases)

  -- The locks while the lease is being deleted, and behind that.
  abbrev pub delete_locked :
      Text
      → Text
      → LeaseDirs
      → LeaseLocks
      → Result LeaseError LeaseLocks
      → Outcome (Option LeaseSummary) × LeaseLocks
  delete_locked context id leases old (err e) = ((err lock_refused, leases), old)
  delete_locked context id leases old (ok locks) = (
    delete_loaded context locks id leases (load_lease_metadata wide_word disk id leases),
    end_delete (lease_key context id) locks,
  )

  abbrev pub delete_normal :
      Text
      → LeaseDirs
      → LeaseLocks
      → Result LeaseFault Text
      → Outcome (Option LeaseSummary) × LeaseLocks
  delete_normal context leases locks (err fault) = ((err fault, leases), locks)
  delete_normal context leases locks (ok id) =
      delete_locked context id leases locks (begin_delete (lease_key context id) locks)

  unfoldable pub delete_one :
      Text → Text → LeaseDirs → LeaseLocks → Outcome (Option LeaseSummary) × LeaseLocks
  delete_one context raw leases locks =
      delete_normal context leases locks (normalize_lease_id wide_word raw)

  abbrev pub Deletion : Type 0
  Deletion = Outcome (List LeaseSummary × List Text) × LeaseLocks

  abbrev pub add_deleted : Text → Option LeaseSummary → Deletion → Deletion
  add_deleted id o ((err fault, leases), locks) = ((err fault, leases), locks)
  add_deleted id none ((ok (deleted, not_found), leases), locks) =
      ((ok (deleted, id ∷ not_found), leases), locks)
  add_deleted id (some summary) ((ok (deleted, not_found), leases), locks) =
      ((ok (summary ∷ deleted, not_found), leases), locks)

  abbrev pub delete_on :
      Text
      → Outcome (Option LeaseSummary) × LeaseLocks
      → (LeaseDirs → LeaseLocks → Deletion)
      → Deletion
  delete_on id ((err fault, leases), locks) rest = ((err fault, leases), locks)
  delete_on id ((ok o, leases), locks) rest = add_deleted id o (rest leases locks)

  unfoldable pub delete_loop : Text → List Text → LeaseDirs → LeaseLocks → Deletion
  delete_loop context [] leases locks = ((ok ([], []), leases), locks)
  delete_loop context (raw ∷ ids) leases locks =
      delete_on (trim_space raw) (delete_one context raw leases locks) (delete_loop context ids)

  abbrev pub sorted_deletion : Deletion → Deletion
  sorted_deletion ((err fault, leases), locks) = ((err fault, leases), locks)
  sorted_deletion ((ok (deleted, not_found), leases), locks) =
      ((ok (sort_by by_id deleted, sort_by is_before not_found), leases), locks)

  -- deleteWorkspaceLeases
  unfoldable pub delete_leases : Text → List Text → LeaseDirs → LeaseLocks → Deletion
  delete_leases context ids leases locks = sorted_deletion (delete_loop context ids leases locks)
