-- ===== src/Host/LeaseFiles/Later.antt =====
-- internal/host/workspace_lease.go: what calls follow on each other, but for one finalization.
use rmtx.Base.{ℕ, ◌≡◌, Bool, true, false, Option, List}
use rmtx.Base.Text.{Text, text_key, text_beq}
use rmtx.Syncfs.Manifest.{Entry}
use rmtx.Host.LeaseFiles.{LeaseMetadata, LeaseDirs, LeaseDisk}
use rmtx.Host.LeaseFiles.Remove.{prune_expired, list_leases, delete_leases}
use rmtx.Host.LeaseFiles.Prepare.{
  RunRequest, LeaseRun, LeaseStore, prepare_run_workspace, release_active, finalize_lease,
  mark_lease_dirty, final_state,
}
use rmtx.Host.LeaseFiles.Stored.{AllMeta, save_lease-AllMeta}
use rmtx.Host.LeaseFiles.Calls.{prune_expired-AllMeta, list_leases-AllMeta, delete_leases-AllMeta}
use rmtx.Host.LeaseFiles.Written.{prepare_run_workspace-AllMeta, mark_lease_dirty-AllMeta}

abbrev pub with_leases : LeaseStore → LeaseDirs → LeaseStore
with_leases s leases = record s { leases = leases }

module _ (wide_word : ℕ → Bool) (parse_duration : Text → Option ℕ) (id : Text) where
  abbrev pub deleted_from : LeaseDisk → Text → List Text → LeaseStore → LeaseStore
  deleted_from disk context ids t = record {
    locks = (delete_leases wide_word disk context ids t.leases t.locks).1;
    leases = (delete_leases wide_word disk context ids t.leases t.locks).0.1;
  }

  -- Any calls on the leases of a context, on disks that answer in any way, at any times, but for
  -- the one that finalizes the lease of the given id.
  pub data Later : LeaseStore → LeaseStore → Type 0 where
    here : {s : LeaseStore} → Later s s
    prepared :
        {s t : LeaseStore} (disk : LeaseDisk) (now : ℕ) (req : RunRequest)
        (nonces : ℕ → Option (List ℕ))
        → Later s t
        → Later s (prepare_run_workspace wide_word disk parse_duration now req nonces t).1
    finalized :
        {s t : LeaseStore} (disk : LeaseDisk) (now : ℕ) (session : Text) (entries : List Entry)
        (run : LeaseRun)
        → Later s t
        → text_beq (run.state.meta.id) id ≡ false
        → Later s
            (with_leases t (finalize_lease wide_word disk now session entries run t.leases).0.1)
    marked :
        {s t : LeaseStore} (disk : LeaseDisk) (now : ℕ) (run : LeaseRun)
        → Later s t
        → Later s (with_leases t (mark_lease_dirty wide_word disk now run t.leases).0)
    released :
        {s t : LeaseStore} (context : Text) (run : LeaseRun)
        → Later s t
        → Later s (record t { locks = release_active context run t.locks })
    listed :
        {s t : LeaseStore} (disk : LeaseDisk) (context : Text) (now : ℕ)
        → Later s t
        → Later s (with_leases t (list_leases wide_word disk context now t.locks t.leases).1)
    pruned :
        {s t : LeaseStore} (disk : LeaseDisk) (now : ℕ)
        → Later s t
        → Later s (with_leases t (prune_expired wide_word disk now t.locks t.leases).1)
    deleted :
        {s t : LeaseStore} (disk : LeaseDisk) (context : Text) (ids : List Text)
        → Later s t
        → Later s (deleted_from disk context ids t)

  -- Nothing but dirty metadata stands in the directory of the lease.
  abbrev pub IsLeft : Text → LeaseMetadata → Type 0
  IsLeft j meta = text_beq j id ≡ true → meta.dirty ≡ true

  pub Later-IsLeft :
      (s t : LeaseStore) → Later s t → AllMeta IsLeft s.leases → AllMeta IsLeft t.leases
  unfolding finalize_lease
  Later-IsLeft s t here left = left
  Later-IsLeft s _ (prepared {t = t} disk now req nonces past) left =
      prepare_run_workspace-AllMeta IsLeft wide_word disk (λ meta d _. d) parse_duration now req
        nonces t (Later-IsLeft s t past left)
  Later-IsLeft s _ (finalized {t = t} disk now session entries run past other) left =
      save_lease-AllMeta IsLeft wide_word disk (final_state now session entries run) t.leases
        (λ same. cc) (Later-IsLeft s t past left)
  Later-IsLeft s _ (marked {t = t} disk now run past) left =
      mark_lease_dirty-AllMeta IsLeft wide_word disk (λ meta d _. d) now run t.leases
        (Later-IsLeft s t past left)
  Later-IsLeft s _ (released {t = t} context run past) left = Later-IsLeft s t past left
  Later-IsLeft s _ (listed {t = t} disk context now past) left =
      list_leases-AllMeta IsLeft wide_word disk context now t.locks t.leases
        (Later-IsLeft s t past left)
  Later-IsLeft s _ (pruned {t = t} disk now past) left =
      prune_expired-AllMeta IsLeft wide_word disk now t.locks t.leases (Later-IsLeft s t past left)
  Later-IsLeft s _ (deleted {t = t} disk context ids past) left =
      delete_leases-AllMeta IsLeft wide_word disk context ids t.leases t.locks
        (Later-IsLeft s t past left)
