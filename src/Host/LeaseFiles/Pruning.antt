-- ===== src/Host/LeaseFiles/Pruning.antt =====
-- internal/host/workspace_lease.go: what the loop of a prune does to each lease.
use rmtx.Base.{
  ℕ, ◌≡◌, refl, Bool, true, false, not, ◌&&◌, ◌||◌, Option, none, some, List, [], ◌∷◌, ok, err,
  is_ok, if◌then◌else◌, Bool-cases, inl, inr, arith, All, any,
}
use rmtx.Base.Dict.{lookup, lookup-remove}
use rmtx.Base.Text.{Text, text_key, text_beq, text_beq_iff}
use rmtx.Host.Leases.{LeaseLocks, workspace_lease_is_active}
use rmtx.Host.LeaseFiles.{
  LeaseMetadata, LeaseDirs, RemoveAnswer, removed, keeps, LeaseDisk, normalize_lease_id,
}
use rmtx.Host.LeaseFiles.Files.{
  Outcome, own_id, metadata_in, read_metadata, load_lease_metadata, remove_all, remove_lease,
}
use rmtx.Host.LeaseFiles.Remove.{
  is_kept_at, after_removal, add_removed, prune_on, prune_loaded, prune_one, prune_loop,
}

-- Each lease's metadata, where it names the lease, names the one whose directory it stands in.
abbrev pub IsNamed : LeaseDirs → Type 0
IsNamed leases =
    (j : Text) (meta : LeaseMetadata)
    → metadata_in (lookup j leases) ≡ some meta
    → own_id j meta.id ≡ j

-- What a prune takes away: directories without metadata, and those of leases that have expired and
-- that no run uses.
abbrev pub is_stale_meta : ℕ → LeaseLocks → Text → Option LeaseMetadata → Bool
is_stale_meta now locks id none = true
is_stale_meta now locks id (some meta) =
    not (is_kept_at now meta || workspace_lease_is_active meta.context_id id locks)

module _ (wide_word : ℕ → Bool) where
  -- Other names are passed over.
  abbrev pub is_id : Text → Bool
  is_id name = is_ok (normalize_lease_id wide_word name)

module _ (wide_word : ℕ → Bool) (disk : LeaseDisk) (now : ℕ) (locks : LeaseLocks) where
  abbrev pub is_stale : LeaseDirs → Text → Bool
  is_stale leases id = is_stale_meta now locks id (metadata_in (lookup id leases))

  -- The lease of one name is gone, and the others are as they were.
  abbrev Gone : Text → LeaseDirs → LeaseDirs → Type 0
  Gone id leases after =
      (j : Text) → lookup j after ≡ (if text_beq id j then none else lookup j leases)

  abbrev Same : LeaseDirs → LeaseDirs → Type 0
  Same leases after = (j : Text) → lookup j after ≡ lookup j leases

  remove_lease-Gone :
      (id : Text) (leases : LeaseDirs) (u : Unit {0})
      → normalize_lease_id wide_word id ≡ ok id
      → (remove_lease wide_word disk id leases).0 ≡ ok u
      → Gone id leases (remove_lease wide_word disk id leases).1
  unfolding remove_lease
  remove_lease-Gone id leases u normal e j = simp normal (go (disk.removes id) (simp normal at e))
    where
      go :
          (answer : RemoveAnswer)
          → (remove_all answer id leases).0 ≡ ok u
          → lookup j (remove_all answer id leases).1
            ≡ (if text_beq id j then none else lookup j leases)
      go removed done = lookup-remove id j leases
      go (keeps m f w) done = cc

  -- After one name: it is gone if it was stale.
  abbrev Handled : Text → LeaseDirs → LeaseDirs → Type 0
  Handled id leases after =
      (j : Text)
      → lookup j after ≡ (if text_beq id j && is_stale leases id then none else lookup j leases)

  module _ (name : Text) (leases : LeaseDirs)
      (normal : normalize_lease_id wide_word name ≡ ok name) where
    removal-Gone :
        (gone : List Text)
        → (after_removal name (remove_lease wide_word disk name leases)).0 ≡ ok gone
        → Gone name leases (after_removal name (remove_lease wide_word disk name leases)).1
    removal-Gone gone e =
        go (remove_lease wide_word disk name leases) (λ u. remove_lease-Gone name leases u normal) e
      where
        go :
            (o : Outcome (Unit {0}))
            → ((u : Unit {0}) → o.0 ≡ ok u → Gone name leases o.1)
            → (after_removal name o).0 ≡ ok gone
            → Gone name leases (after_removal name o).1
        go (err fault, after) all done = cc
        go (ok u, after) all done = all u refl

    prune_one-Handled :
        (gone : List Text)
        → IsNamed leases
        → (prune_one wide_word disk now locks name leases).0 ≡ ok gone
        → Handled name leases (prune_one wide_word disk now locks name leases).1
    unfolding prune_one load_lease_metadata
    prune_one-Handled gone names =
        simp normal (go (metadata_in (lookup name leases)) (disk.reads_metadata name) (names name))
      where
        Done : Option LeaseMetadata → Outcome (List Text) → Type 0
        Done o out =
            out.0 ≡ ok gone
            → (j : Text)
            → lookup j out.1 ≡ (
                if text_beq name j && is_stale_meta now locks name o then none else lookup j leases)

        go :
            (o : Option LeaseMetadata) (reads : Bool)
            → ((meta : LeaseMetadata) → o ≡ some meta → own_id name meta.id ≡ name)
            → Done o
                (prune_loaded wide_word disk now locks name leases (read_metadata reads name o))
        go none reads own = λ e j.
            rw (removal-Gone gone e j)
              (elim (Bool-cases (text_beq name j)) [ inl y ↦ rw y refl | inr n ↦ rw n refl ])
        go (some meta) false own = λ e j. cc
        go (some meta) true own =
            let id_is = own meta refl in
            let kept =
              is_kept_at now meta || workspace_lease_is_active meta.context_id name locks in
            simp id_is (elim (Bool-cases kept) [
              | inl y ↦ simp y (λ e j. ground arith)
              | inr n ↦ simp n (λ e j. rw (removal-Gone gone e j) (ground arith))
            ])

  -- The names stay right, since metadata only goes away.
  Handled-IsNamed :
      (id : Text) (leases after : LeaseDirs)
      → Handled id leases after
      → IsNamed leases
      → IsNamed after
  Handled-IsNamed id leases after handled names j meta found =
      elim (Bool-cases (text_beq id j && is_stale leases id)) [
        | inl gone ↦ let empty = rw (handled j, gone) at found in cc
        | inr same ↦ names j meta (rw (handled j, same) at found)
      ]

  abbrev pub is_in : Text → List Text → Bool
  is_in j names = any (λ n. text_beq n j) names

  unfoldable pub AllHandled : List Text → LeaseDirs → LeaseDirs → Type 0
  AllHandled names leases after =
      (j : Text)
      → lookup j after ≡ (if is_in j names && is_stale leases j then none else lookup j leases)

  AllHandled-cons :
      (name : Text) (names : List Text) (leases mid after : LeaseDirs)
      → Handled name leases mid
      → AllHandled names mid after
      → AllHandled (name ∷ names) leases after
  unfolding AllHandled
  AllHandled-cons name names leases mid after first rest j = elim (Bool-cases (text_beq name j)) [
    | inl own ↦
        let same : name ≡ j = (text_beq_iff name j).0 own in
        elim (Bool-cases (is_stale leases j)) [
          | inl stale ↦
              let gone : lookup j mid ≡ none = rw (first j, own, same, stale) refl in
              rw (rest j, gone, own, stale)
                (elim (Bool-cases (is_in j names)) [ inl y ↦ rw y refl | inr n ↦ rw n refl ])
          | inr fresh ↦
              let kept : lookup j mid ≡ lookup j leases = rw (first j, own, same, fresh) refl in
              rw (rest j, kept, own, fresh)
                (elim (Bool-cases (is_in j names)) [ inl y ↦ rw y refl | inr n ↦ rw n refl ])
        ]
    | inr other ↦
        let kept : lookup j mid ≡ lookup j leases = rw (first j, other) refl in
        rw (rest j, kept, other) refl
  ]

  abbrev pub AllNormal : List Text → Type 0
  AllNormal names = All (λ name. normalize_lease_id wide_word name ≡ ok name) names

  pub prune_loop-AllHandled :
      (names : List Text) (leases : LeaseDirs) (gone : List Text)
      → AllNormal names
      → IsNamed leases
      → (prune_loop wide_word disk now locks names leases).0 ≡ ok gone
      → AllHandled names leases (prune_loop wide_word disk now locks names leases).1
  unfolding prune_loop AllHandled
  prune_loop-AllHandled [] leases gone normal own e = λ j. refl
  prune_loop-AllHandled (name ∷ names) leases gone (first, normal) own e =
      go (prune_one wide_word disk now locks name leases)
        (λ g. prune_one-Handled name leases first g own)
        (λ mid h. prune_loop-AllHandled names mid h normal) e
    where
      rest_of : LeaseDirs → Outcome (List Text)
      rest_of = prune_loop wide_word disk now locks names

      add :
          (g : List Text) (mid : LeaseDirs) (out : Outcome (List Text))
          → Handled name leases mid
          → ((h : List Text) → out.0 ≡ ok h → AllHandled names mid out.1)
          → (add_removed g out).0 ≡ ok gone
          → AllHandled (name ∷ names) leases (add_removed g out).1
      add g mid (err fault, after) one all done = λ j. cc
      add g mid (ok h, after) one all done =
          AllHandled-cons name names leases mid after one (all h refl)

      go :
          (o : Outcome (List Text))
          → ((g : List Text) → o.0 ≡ ok g → Handled name leases o.1)
          → ((mid : LeaseDirs) (h : List Text)
              → IsNamed mid
              → (rest_of mid).0 ≡ ok h
              → AllHandled names mid (rest_of mid).1)
          → (prune_on o rest_of).0 ≡ ok gone
          → AllHandled (name ∷ names) leases (prune_on o rest_of).1
      go (err fault, mid) one rest done = λ j. cc
      go (ok g, mid) one rest done =
          let first = one g refl in
          add g mid (rest_of mid) first
            (λ h. rest mid h (Handled-IsNamed name leases mid first own)) done
