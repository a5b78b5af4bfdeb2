-- ===== src/Host/LeaseFiles/Locks.antt =====
-- internal/host/workspace_lease.go: the lock that preparing a run takes.
use rmtx.Base.{
  ℕ, ◌+◌, ◌≡◌, refl, ap, sym, Bool, true, false, Option, none, some, List, [], ◌∷◌, Result, ok, err,
  ◌==◌, Bool-cases, inl, inr, arith,
}
use rmtx.Base.Dict.{insert, lookup-insert, lookup-remove}
use rmtx.Base.Text.{Text, text_key, text_beq_iff, trim_space, is_empty}
use rmtx.Host.Leases.{
  LeaseLocks, LeaseError, lease_key, active_count, is_deleting, acquire_key,
  acquire_workspace_lease, release_key,
}
use rmtx.Host.LeaseFiles.{
  LeaseState, LeaseDirs, LeaseFault, LeaseDisk, normalize_lease_id, parse_workspace_keep_duration,
}
use rmtx.Host.LeaseFiles.Files.{Outcome, load_lease, save_lease}
use rmtx.Host.LeaseFiles.Remove.{prune_expired}
use rmtx.Host.LeaseFiles.Prepare.{
  RunRequest, LeaseRun, LeaseStore, Prepared, release_lease, release_active, with_lock,
  is_expired_at, taken_up, new_state, saved_run, workspace_is_there, reuse_loaded, reuse_normal,
  prepare_reused, make_workspace, create_lease, new_with_id, new_pruned, new_lease_id, prepare_new,
  some_run, prepare_kept, prepare_run_workspace,
}

-- The same holds and the same deletions.
abbrev pub SameLocks : LeaseLocks → LeaseLocks → Type 0
SameLocks l m =
    (key : Text)
    → (active_count key m ≡ active_count key l) × (is_deleting key m ≡ is_deleting key l)

release-acquire_key :
    (key : Text) (l m : LeaseLocks) → acquire_key key l ≡ ok m → SameLocks l (release_key key m)
unfolding acquire_key release_key
release-acquire_key key l m acquired k =
    let held : LeaseLocks = record l { active = insert key (active_count key l + 1) l.active } in
    let counts = lookup-insert key k (active_count key l + 1) l.active in
    let own = lookup-insert key key (active_count key l + 1) l.active in
    let dropped = lookup-remove key k (insert key (active_count key l + 1) l.active) in
    let lowered = lookup-insert key k (active_count key l) (held.active) in
    elim (Bool-cases (is_deleting key l)) [
      | inl d ↦ let refused = simp d at acquired in cc
      | inr d ↦
          let done : ok held ≡ ok m = simp d at acquired in
          let same : held ≡ m = cc in
          rw⁻¹ same (
            ground (arith, counts, own, dropped, lowered, text_beq_iff key k, text_beq_iff key key))
    ]

release-acquire :
    (context id : Text) (l m : LeaseLocks)
    → acquire_workspace_lease context id l ≡ ok m
    → SameLocks l (release_lease context id m)
unfolding acquire_workspace_lease
release-acquire context id l m acquired k = elim (Bool-cases (is_empty (trim_space id))) [
  | inl blank ↦
      let same : ok l ≡ ok m = simp blank at acquired in
      let same' : l ≡ m = cc in simp blank (rw⁻¹ same' (refl, refl))
  | inr named ↦
      simp named (release-acquire_key (lease_key context id) l m (simp named at acquired) k)
]

-- The locks after what was handed out, if anything, is released.
abbrev pub released_by : Text → Result LeaseFault (Option LeaseRun) × LeaseStore → LeaseLocks
released_by context (err fault, s) = s.locks
released_by context (ok none, s) = s.locks
released_by context (ok (some run), s) = release_active context run s.locks

module _ (context : Text) (old : LeaseLocks) where
  abbrev Balanced : Prepared → Type 0
  Balanced (err fault, s) = SameLocks old s.locks
  Balanced (ok run, s) = SameLocks old (release_active context run s.locks)

  -- Every run of the outcome carries the lock that was taken.
  abbrev Carries : Text → Outcome LeaseRun → Type 0
  Carries id o = (run : LeaseRun) → o.0 ≡ ok run → run.lock_id ≡ id

  with_lock-Balanced :
      (id : Text) (r : Result LeaseError LeaseLocks) (leases : LeaseDirs) (o : Outcome LeaseRun)
      → acquire_workspace_lease context id old ≡ r
      → Carries id o
      → Balanced (with_lock context id old r leases o)
  unfolding release_active
  with_lock-Balanced id (err e) leases o acquired carries = λ k. (refl, refl)
  with_lock-Balanced id (ok locks) leases (err fault, after) acquired carries =
      release-acquire context id old locks acquired
  with_lock-Balanced id (ok locks) leases (ok run, after) acquired carries =
      rw (carries run refl) (release-acquire context id old locks acquired)

  saved_run-Carries :
      (run : LeaseRun) (o : Outcome (Unit {0})) → Carries run.lock_id (saved_run run o)
  saved_run-Carries run (err fault, after) got e = cc
  saved_run-Carries run (ok u, after) got e =
      let same : run ≡ got = cc in ap (λ r. r.lock_id) (sym same)

  module _ (wide_word : ℕ → Bool) (disk : LeaseDisk) where
    reuse_loaded-Carries :
        (now keep : ℕ) (session id : Text) (leases : LeaseDirs) (r : Result LeaseFault LeaseState)
        → Carries id (reuse_loaded wide_word disk now keep session id leases r)
    reuse_loaded-Carries now keep session id leases (err fault) got e = cc
    reuse_loaded-Carries now keep session id leases (ok state) got e =
        elim (Bool-cases state.meta.dirty) [
          | inl d ↦ let none_got = simp d at e in cc
          | inr d ↦ elim (Bool-cases (is_expired_at now state.meta)) [
            | inl x ↦ let none_got = simp (d, x) at e in cc
            | inr x ↦ elim (Bool-cases (workspace_is_there wide_word disk id leases)) [
              | inl w ↦
                  let used = taken_up now keep session state in
                  let run : LeaseRun = record {
                    lock_id = id;
                    state = used;
                    reused = true;
                    keep = keep;
                  } in
                  saved_run-Carries run (save_lease wide_word disk used leases) got
                    (simp (d, x, w) at e)
              | inr w ↦ let none_got = simp (d, x, w) at e in cc
            ]
          ]
        ]

    make_workspace-Carries :
        (run : LeaseRun) (id : Text) (o : Outcome (Unit {0}))
        → Carries run.lock_id (make_workspace wide_word disk run id o)
    make_workspace-Carries run id (err fault, after) got e = cc
    make_workspace-Carries run id (ok u, after) got e =
        elim (Bool-cases (disk.makes_workspace id)) [
          | inl m ↦
              let made : ok run ≡ ok got = simp m at e in
              let same : run ≡ got = cc in ap (λ r. r.lock_id) (sym same)
          | inr m ↦ let none_got = simp m at e in cc
        ]

module _ (wide_word : ℕ → Bool) (disk : LeaseDisk) (now : ℕ) (req : RunRequest)
    (nonces : ℕ → Option (List ℕ)) (s : LeaseStore) where
  prepare_reused-Balanced :
      (keep : ℕ) (reuse_id : Text)
      → Balanced req.context_id s.locks (prepare_reused wide_word disk now keep req reuse_id s)
  unfolding prepare_reused
  prepare_reused-Balanced keep reuse_id = go (normalize_lease_id wide_word reuse_id)
    where
      go :
          (r : Result LeaseFault Text)
          → Balanced req.context_id s.locks (reuse_normal wide_word disk now keep req s r)
      go (err fault) = λ k. (refl, refl)
      go (ok id) =
          let loaded = load_lease wide_word disk id s.leases in
          with_lock-Balanced req.context_id s.locks id
            (acquire_workspace_lease req.context_id id s.locks) s.leases
            (reuse_loaded wide_word disk now keep req.session id s.leases loaded) refl
            (reuse_loaded-Carries req.context_id s.locks wide_word disk now keep req.session id
              s.leases loaded)

  prepare_new-Balanced :
      (keep : ℕ)
      → Balanced req.context_id s.locks (prepare_new wide_word disk now keep req nonces s)
  unfolding prepare_new
  prepare_new-Balanced keep = go (prune_expired wide_word disk now s.locks s.leases)
    where
      with_id :
          (leases : LeaseDirs) (r : Result LeaseFault Text)
          → Balanced req.context_id s.locks
              (new_with_id wide_word disk now keep req s.locks leases r)
      with_id leases (err fault) = λ k. (refl, refl)
      with_id leases (ok id) =
          let new : LeaseRun = record {
            lock_id = id;
            state = new_state now keep req.context_id req.session id;
            reused = false;
            keep = keep;
          } in
          with_lock-Balanced req.context_id s.locks id
            (acquire_workspace_lease req.context_id id s.locks) leases
            (create_lease wide_word disk new leases) refl
            (make_workspace-Carries req.context_id s.locks wide_word disk new id
              (save_lease wide_word disk (new.state) leases))

      go :
          (o : Outcome (List Text))
          → Balanced req.context_id s.locks
              (new_pruned wide_word disk now keep req nonces s.locks o)
      go (err fault, leases) = λ k. (refl, refl)
      go (ok gone, leases) = with_id leases (new_lease_id wide_word disk nonces leases)

  some_run-released :
      (p : Prepared)
      → Balanced req.context_id s.locks p
      → SameLocks s.locks (released_by req.context_id (some_run wide_word disk p))
  some_run-released (err fault, t) balanced = balanced
  some_run-released (ok run, t) balanced = balanced

  -- Whatever prepareRunWorkspace answers: once the lock of the lease that it handed out, if any, is
  -- released, each lease is held as often, and is being deleted or not, as before the call.
  pub prepare_run_workspace_balanced :
      (parse_duration : Text → Option ℕ)
      → SameLocks s.locks (
          released_by req.context_id
            (prepare_run_workspace wide_word disk parse_duration now req nonces s))
  unfolding prepare_run_workspace
  prepare_run_workspace_balanced parse_duration =
      go (trim_space req.reuse_workspace)
        (parse_workspace_keep_duration parse_duration req.keep_workspace)
    where
      go :
          (reuse_id : Text) (r : Result LeaseFault ℕ)
          → SameLocks s.locks
              (released_by req.context_id (prepare_kept wide_word disk now req nonces s reuse_id r))
      go reuse_id (err fault) = λ k. (refl, refl)
      go [] (ok keep) = elim (Bool-cases (keep == 0)) [
        | inl z ↦ simp z (λ k. (refl, refl))
        | inr z ↦ simp z (
            some_run-released (prepare_new wide_word disk now keep req nonces s)
              (prepare_new-Balanced keep))
      ]
      go (c ∷ id) (ok keep) =
          let reused =
            some_run-released (prepare_reused wide_word disk now keep req (c ∷ id) s)
              (prepare_reused-Balanced keep (c ∷ id)) in
          elim (Bool-cases (keep == 0)) [ inl z ↦ simp z reused | inr z ↦ simp z reused ]
