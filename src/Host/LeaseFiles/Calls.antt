-- ===== src/Host/LeaseFiles/Calls.antt =====
-- internal/host/workspace_lease.go: what pruning, listing and deleting leave of the metadata of all
-- leases.
use rmtx.Base.{
  ℕ, Bool, ◌||◌, Option, none, some, List, [], ◌∷◌, Result, ok, err, Bool-cases, inl, inr,
}
use rmtx.Base.Text.{Text, text_key, trim_space}
use rmtx.Host.Leases.{LeaseLocks, LeaseError, lease_key, workspace_lease_is_active, begin_delete}
use rmtx.Host.LeaseFiles.{LeaseMetadata, LeaseDirs, LeaseFault, LeaseDisk, normalize_lease_id}
use rmtx.Host.LeaseFiles.Files.{Outcome, load_lease_metadata, remove_lease}
use rmtx.Host.LeaseFiles.Remove.{
  LeaseSummary, is_not_found, is_kept_at, after_removal, add_removed, prune_on, prune_loaded,
  prune_one, prune_loop, sorted_names, prune_expired, lease_dir_names, list_pruned, list_leases,
  after_delete, delete_loaded, delete_locked, delete_normal, delete_one, Deletion, add_deleted,
  delete_on, delete_loop, sorted_deletion, delete_leases, lease_summary,
}
use rmtx.Host.LeaseFiles.Stored.{AllMeta, remove_lease-AllMeta}

module _ (Q : Text → LeaseMetadata → Type 0) (wide_word : ℕ → Bool) (disk : LeaseDisk) where
  after_removal-AllMeta :
      (name : Text) (o : Outcome (Unit {0})) → AllMeta Q o.1 → AllMeta Q (after_removal name o).1
  after_removal-AllMeta name (err fault, leases) all = all
  after_removal-AllMeta name (ok u, leases) all = all

  prune_one-AllMeta :
      (now : ℕ) (locks : LeaseLocks) (name : Text) (leases : LeaseDirs)
      → AllMeta Q leases
      → AllMeta Q (prune_one wide_word disk now locks name leases).1
  unfolding prune_one
  prune_one-AllMeta now locks name leases all =
      prune_loaded-AllMeta (load_lease_metadata wide_word disk name leases)
    where
      removal : (id : Text) → AllMeta Q (after_removal id (remove_lease wide_word disk id leases)).1
      removal id =
          after_removal-AllMeta id (remove_lease wide_word disk id leases)
            (remove_lease-AllMeta Q wide_word disk id leases all)

      prune_loaded-AllMeta :
          (r : Result LeaseFault LeaseMetadata)
          → AllMeta Q (prune_loaded wide_word disk now locks name leases r).1
      prune_loaded-AllMeta (err fault) = elim (Bool-cases (is_not_found fault)) [
        | inl e ↦ rw e (removal name)
        | inr e ↦ rw e all
      ]
      prune_loaded-AllMeta (ok meta) =
          elim (Bool-cases
            (is_kept_at now meta || workspace_lease_is_active meta.context_id meta.id locks)) [
              | inl e ↦ rw e all
              | inr e ↦ rw e (removal meta.id)
            ]

  add_removed-AllMeta :
      (names : List Text) (o : Outcome (List Text))
      → AllMeta Q o.1
      → AllMeta Q (add_removed names o).1
  add_removed-AllMeta names (err fault, leases) all = all
  add_removed-AllMeta names (ok later, leases) all = all

  prune_on-AllMeta :
      (o : Outcome (List Text)) (rest : LeaseDirs → Outcome (List Text))
      → ((leases : LeaseDirs) → AllMeta Q leases → AllMeta Q (rest leases).1)
      → AllMeta Q o.1
      → AllMeta Q (prune_on o rest).1
  prune_on-AllMeta (err fault, leases) rest keeps all = all
  prune_on-AllMeta (ok names, leases) rest keeps all =
      add_removed-AllMeta names (rest leases) (keeps leases all)

  prune_loop-AllMeta :
      (now : ℕ) (locks : LeaseLocks) (names : List Text) (leases : LeaseDirs)
      → AllMeta Q leases
      → AllMeta Q (prune_loop wide_word disk now locks names leases).1
  unfolding prune_loop
  prune_loop-AllMeta now locks [] leases all = all
  prune_loop-AllMeta now locks (name ∷ names) leases all =
      prune_on-AllMeta (prune_one wide_word disk now locks name leases)
        (prune_loop wide_word disk now locks names) (prune_loop-AllMeta now locks names)
        (prune_one-AllMeta now locks name leases all)

  sorted_names-AllMeta :
      (o : Outcome (List Text)) → AllMeta Q o.1 → AllMeta Q (sorted_names wide_word disk o).1
  sorted_names-AllMeta (err fault, leases) all = all
  sorted_names-AllMeta (ok names, leases) all = all

  pub prune_expired-AllMeta :
      (now : ℕ) (locks : LeaseLocks) (leases : LeaseDirs)
      → AllMeta Q leases
      → AllMeta Q (prune_expired wide_word disk now locks leases).1
  unfolding prune_expired
  prune_expired-AllMeta now locks leases all = elim (Bool-cases disk.lists) [
    | inl e ↦ simp e (
        sorted_names-AllMeta
          (prune_loop wide_word disk now locks (lease_dir_names wide_word disk leases) leases)
          (prune_loop-AllMeta now locks (lease_dir_names wide_word disk leases) leases all))
    | inr e ↦ simp e all
  ]

  list_pruned-AllMeta :
      (context : Text) (locks : LeaseLocks) (o : Outcome (List Text))
      → AllMeta Q o.1
      → AllMeta Q (list_pruned wide_word disk context locks o).1
  list_pruned-AllMeta context locks (err fault, leases) all = all
  list_pruned-AllMeta context locks (ok gone, leases) all = all

  pub list_leases-AllMeta :
      (context : Text) (now : ℕ) (locks : LeaseLocks) (leases : LeaseDirs)
      → AllMeta Q leases
      → AllMeta Q (list_leases wide_word disk context now locks leases).1
  unfolding list_leases
  list_leases-AllMeta context now locks leases all =
      list_pruned-AllMeta context locks (prune_expired wide_word disk now locks leases)
        (prune_expired-AllMeta now locks leases all)

  after_delete-AllMeta :
      (summary : LeaseSummary) (o : Outcome (Unit {0}))
      → AllMeta Q o.1
      → AllMeta Q (after_delete wide_word disk summary o).1
  after_delete-AllMeta summary (err fault, leases) all = all
  after_delete-AllMeta summary (ok u, leases) all = all

  module _ (context : Text) (leases : LeaseDirs) (all : AllMeta Q leases) where
    delete_loaded-AllMeta :
        (locks : LeaseLocks) (id : Text) (r : Result LeaseFault LeaseMetadata)
        → AllMeta Q (delete_loaded wide_word disk context locks id leases r).1
    delete_loaded-AllMeta locks id (err fault) = elim (Bool-cases (is_not_found fault)) [
      | inl e ↦ rw e (remove_lease-AllMeta Q wide_word disk id leases all)
      | inr e ↦ rw e all
    ]
    delete_loaded-AllMeta locks id (ok meta) =
        after_delete-AllMeta (lease_summary context locks meta)
          (remove_lease wide_word disk id leases)
          (remove_lease-AllMeta Q wide_word disk id leases all)

    delete_locked-AllMeta :
        (id : Text) (old : LeaseLocks) (r : Result LeaseError LeaseLocks)
        → AllMeta Q (delete_locked wide_word disk context id leases old r).0.1
    delete_locked-AllMeta id old (err e) = all
    delete_locked-AllMeta id old (ok locks) =
        delete_loaded-AllMeta locks id (load_lease_metadata wide_word disk id leases)

    delete_normal-AllMeta :
        (locks : LeaseLocks) (r : Result LeaseFault Text)
        → AllMeta Q (delete_normal wide_word disk context leases locks r).0.1
    delete_normal-AllMeta locks (err fault) = all
    delete_normal-AllMeta locks (ok id) =
        delete_locked-AllMeta id locks (begin_delete (lease_key context id) locks)

    delete_one-AllMeta :
        (raw : Text) (locks : LeaseLocks)
        → AllMeta Q (delete_one wide_word disk context raw leases locks).0.1
    unfolding delete_one
    delete_one-AllMeta raw locks = delete_normal-AllMeta locks (normalize_lease_id wide_word raw)

  add_deleted-AllMeta :
      (id : Text) (o : Option LeaseSummary) (d : Deletion wide_word disk)
      → AllMeta Q d.0.1
      → AllMeta Q (add_deleted wide_word disk id o d).0.1
  add_deleted-AllMeta id o ((err fault, leases), locks) all = all
  add_deleted-AllMeta id none ((ok (deleted, not_found), leases), locks) all = all
  add_deleted-AllMeta id (some s) ((ok (deleted, not_found), leases), locks) all = all

  delete_on-AllMeta :
      (id : Text) (o : Outcome (Option LeaseSummary) × LeaseLocks)
      (rest : LeaseDirs → LeaseLocks → Deletion wide_word disk)
      → ((leases : LeaseDirs) (locks : LeaseLocks)
          → AllMeta Q leases
          → AllMeta Q (rest leases locks).0.1)
      → AllMeta Q o.0.1
      → AllMeta Q (delete_on wide_word disk id o rest).0.1
  delete_on-AllMeta id ((err fault, leases), locks) rest keeps all = all
  delete_on-AllMeta id ((ok o, leases), locks) rest keeps all =
      add_deleted-AllMeta id o (rest leases locks) (keeps leases locks all)

  delete_loop-AllMeta :
      (context : Text) (ids : List Text) (leases : LeaseDirs) (locks : LeaseLocks)
      → AllMeta Q leases
      → AllMeta Q (delete_loop wide_word disk context ids leases locks).0.1
  unfolding delete_loop
  delete_loop-AllMeta context [] leases locks all = all
  delete_loop-AllMeta context (raw ∷ ids) leases locks all =
      delete_on-AllMeta (trim_space raw) (delete_one wide_word disk context raw leases locks)
        (delete_loop wide_word disk context ids) (delete_loop-AllMeta context ids)
        (delete_one-AllMeta context leases all raw locks)

  sorted_deletion-AllMeta :
      (d : Deletion wide_word disk)
      → AllMeta Q d.0.1
      → AllMeta Q (sorted_deletion wide_word disk d).0.1
  sorted_deletion-AllMeta ((err fault, leases), locks) all = all
  sorted_deletion-AllMeta ((ok (deleted, not_found), leases), locks) all = all

  pub delete_leases-AllMeta :
      (context : Text) (ids : List Text) (leases : LeaseDirs) (locks : LeaseLocks)
      → AllMeta Q leases
      → AllMeta Q (delete_leases wide_word disk context ids leases locks).0.1
  unfolding delete_leases
  delete_leases-AllMeta context ids leases locks all =
      sorted_deletion-AllMeta (delete_loop wide_word disk context ids leases locks)
        (delete_loop-AllMeta context ids leases locks all)
