-- ===== src/Host/Leases.antt =====
-- internal/host/context_store.go: which workspace leases are in use by runs, and which are being
-- deleted. `activeMu` makes each operation one step.
pub mod Exclusion
use rmtx.Base.{
  ℕ, ◌+◌, ◌-◌, Bool, true, false, Option, none, some, List, [], ◌∷◌, ◌++◌, Result, ok, err, ltb,
  leb, if◌then◌else◌,
}
use rmtx.Base.Dict.{Dict, lookup, insert, remove}
use rmtx.Base.Text.{Text, text_key, is_empty, trim_space}

-- The keys are those of `workspaceLeaseActiveKey`.
pub record LeaseLocks : Type 0 where
  pub active : Dict Text ℕ
  pub deleting : Dict Text Bool

abbrev pub no_leases : LeaseLocks
no_leases = record { active = []; deleting = [] }

pub data LeaseError : Type 0 where
  being_deleted in_use : LeaseError

abbrev pub lease_key : Text → Text → Text
lease_key context lease = context ++ (0 ∷ lease)

-- s.activeLeases[key] and s.deletingLeases[key]
abbrev pub active_count : Text → LeaseLocks → ℕ
active_count key l = elim (lookup key l.active) [ none ↦ 0 | some n ↦ n ]

abbrev pub is_deleting : Text → LeaseLocks → Bool
is_deleting key l = elim (lookup key l.deleting) [ none ↦ false | some b ↦ b ]

-- `acquireWorkspaceLease` of a lease that is named.
unfoldable pub acquire_key : Text → LeaseLocks → Result LeaseError LeaseLocks
acquire_key key l =
    if is_deleting key l
    then err being_deleted
    else ok (record l { active = insert key (active_count key l + 1) l.active })

-- A blank lease is always granted, and its release does nothing.
unfoldable pub acquire_workspace_lease : Text → Text → LeaseLocks → Result LeaseError LeaseLocks
acquire_workspace_lease context lease l =
    if is_empty (trim_space lease) then ok l else acquire_key (lease_key context lease) l

-- The function that `acquireWorkspaceLease` returns.
unfoldable pub release_key : Text → LeaseLocks → LeaseLocks
release_key key l = record l {
  active =
      (if leb (active_count key l) 1
        then remove key l.active
        else insert key (active_count key l - 1) l.active);
}

unfoldable pub workspace_lease_is_active : Text → Text → LeaseLocks → Bool
workspace_lease_is_active context lease l = ltb 0 (active_count (lease_key context lease) l)

-- `beginWorkspaceLeaseDelete`
unfoldable pub begin_delete : Text → LeaseLocks → Result LeaseError LeaseLocks
begin_delete key l =
    if ltb 0 (active_count key l)
    then err in_use
    else if is_deleting key l
    then err being_deleted
    else ok (record l { deleting = insert key true l.deleting })

-- The function that `beginWorkspaceLeaseDelete` returns.
unfoldable pub end_delete : Text → LeaseLocks → LeaseLocks
end_delete key l = record l { deleting = remove key l.deleting }
