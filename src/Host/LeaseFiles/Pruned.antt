-- ===== src/Host/LeaseFiles/Pruned.antt =====
-- internal/host/workspace_lease.go: which leases a prune removes.
use rmtx.Base.{
  ℕ, ◌≡◌, refl, sym, Bool, true, ◌&&◌, none, some, List, [], ◌∷◌, ok, err, is_ok, if◌then◌else◌,
  Bool-cases, Option-cases, inl, inr, arith, All, filter, map, Member, Member-map,
}
use rmtx.Base.Sort.{sort_by, Member-sort_by, All-sort_by}
use rmtx.Base.Dict.{lookup, Member-lookup}
use rmtx.Base.Text.{Text, text_key, text_beq, text_beq_iff, is_before, trim_space}
use rmtx.Host.Leases.{LeaseLocks}
use rmtx.Host.LeaseFiles.{
  LeaseDir, LeaseDirs, LeaseDisk, normalize_lease_id, checked_id, is_lease_id,
}
use rmtx.Host.LeaseFiles.Files.{Outcome}
use rmtx.Host.LeaseFiles.Remove.{prune_loop, sorted_names, prune_expired, lease_dir_names}
use rmtx.Host.LeaseFiles.Pruning.{
  IsNamed, is_id, is_in, is_stale, AllHandled, AllNormal, prune_loop-AllHandled,
}

module _ (wide_word : ℕ → Bool) (disk : LeaseDisk) (now : ℕ) (locks : LeaseLocks) where
  checked_id_self :
      (s : Text) → is_ok (checked_id wide_word s) ≡ true → checked_id wide_word s ≡ ok s
  checked_id_self [] e = cc
  checked_id_self (c ∷ s) e = elim (Bool-cases (is_lease_id wide_word (c ∷ s))) [
    | inl y ↦ simp y refl
    | inr n ↦ let bad = simp n at e in cc
  ]

  -- A name without white space around it.
  abbrev pub IsTrimmed : Text → Type 0
  IsTrimmed name = trim_space name ≡ name

  filter-AllNormal :
      (names : List Text)
      → All IsTrimmed names
      → AllNormal wide_word disk now locks (filter (is_id wide_word) names)
  unfolding normalize_lease_id
  filter-AllNormal [] trimmed = tt
  filter-AllNormal (name ∷ names) (first, trimmed) =
      elim (Bool-cases (is_ok (checked_id wide_word (trim_space name)))) [
        | inl y ↦
            rw y (rw first (checked_id_self name (rw first at y)), filter-AllNormal names trimmed)
        | inr n ↦ rw n (filter-AllNormal names trimmed)
      ]

  All-names :
      (leases : LeaseDirs) → All (λ e. IsTrimmed e.0) leases → All IsTrimmed (map (λ e. e.0) leases)
  All-names [] trimmed = tt
  All-names (e ∷ leases) (first, trimmed) = (first, All-names leases trimmed)

  is_in-filter :
      (p : Text → Bool) (j : Text) (names : List Text)
      → is_in wide_word disk now locks j (filter p names)
        ≡ p j && is_in wide_word disk now locks j names
  is_in-filter p j [] = ground arith
  is_in-filter p j (name ∷ names) = elim (Bool-cases (text_beq name j)) [
    | inl own ↦
        let same : name ≡ j = (text_beq_iff name j).0 own in
        elim (Bool-cases (p j)) [
          | inl y ↦ rw (same, y, (text_beq_iff j j).1 refl) refl
          | inr n ↦ rw (same, n, is_in-filter p j names, n) refl
        ]
    | inr other ↦ elim (Bool-cases (p name)) [
      | inl y ↦ rw (y, other, is_in-filter p j names) refl
      | inr n ↦ rw (n, other, is_in-filter p j names) refl
    ]
  ]

  Member-is_in :
      (j : Text) (names : List Text)
      → Member j names
      → is_in wide_word disk now locks j names ≡ true
  Member-is_in j [] m = absurd m
  Member-is_in j (name ∷ names) (inl e) = rw ((text_beq_iff name j).1 (sym e)) refl
  Member-is_in j (name ∷ names) (inr m) = elim (Bool-cases (text_beq name j)) [
    | inl y ↦ rw y refl
    | inr n ↦ rw (n, Member-is_in j names m) refl
  ]

  is_in-names :
      (leases : LeaseDirs) (j : Text) (d : LeaseDir)
      → lookup j leases ≡ some d
      → is_in wide_word disk now locks j (lease_dir_names wide_word disk leases) ≡ is_id wide_word j
  unfolding lease_dir_names
  is_in-names leases j d found =
      let names = map (λ e. e.0) leases in
      let listed = Member-map (λ e. e.0) (j, d) leases (Member-lookup j d leases found) in
      rw
        (
          is_in-filter (is_id wide_word) j (sort_by is_before names),
          Member-is_in j (sort_by is_before names) (Member-sort_by is_before j names listed),
        )
        (ground arith)

  -- If the metadata of each lease names its own directory, no name has white space around it, and
  -- the prune succeeds, then exactly those leases are gone that have no metadata, or that have
  -- expired by the given time and that no run holds. All others are as they were.
  pub prune_expired_exact :
      (leases : LeaseDirs) (gone : List Text)
      → All (λ e. IsTrimmed e.0) leases
      → IsNamed leases
      → (prune_expired wide_word disk now locks leases).0 ≡ ok gone
      → (id : Text)
      → lookup id (prune_expired wide_word disk now locks leases).1 ≡ (
          if is_id wide_word id && is_stale wide_word disk now locks leases id
          then none
          else lookup id leases)
  unfolding prune_expired AllHandled lease_dir_names
  prune_expired_exact leases gone trimmed own e id = elim (Bool-cases disk.lists) [
    | inl y ↦ simp y (
        go (prune_loop wide_word disk now locks names leases)
          (λ g. prune_loop-AllHandled wide_word disk now locks names leases g normal own)
          (simp y at e))
    | inr n ↦ let bad = simp n at e in cc
  ]
    where
      names : List Text
      names = lease_dir_names wide_word disk leases

      normal : AllNormal wide_word disk now locks names
      normal =
          filter-AllNormal (sort_by is_before (map (λ e. e.0) leases))
            (All-sort_by is_before IsTrimmed (map (λ e. e.0) leases) (All-names leases trimmed))

      go :
          (o : Outcome (List Text))
          → ((g : List Text) → o.0 ≡ ok g → AllHandled wide_word disk now locks names leases o.1)
          → (sorted_names wide_word disk o).0 ≡ ok gone
          → lookup id (sorted_names wide_word disk o).1 ≡ (
              if is_id wide_word id && is_stale wide_word disk now locks leases id
              then none
              else lookup id leases)
      go (err fault, after) all done = cc
      go (ok g, after) all done = elim (Option-cases (lookup id leases)) [
        | inl missing ↦ rw (all g refl id, missing) (ground arith)
        | inr (d, found) ↦ rw (all g refl id, is_in-names leases id d found) refl
      ]
