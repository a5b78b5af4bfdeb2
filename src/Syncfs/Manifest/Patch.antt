-- ===== src/Syncfs/Manifest/Patch.antt =====
-- internal/syncfs/manifest.go: the changes and the deletions of `Diff`, carried out on a tree.
use rmtx.Base.{
  ◌≡◌, ◌≢◌, ◌↔◌, ◌⊎◌, inl, inr, refl, sym, ap, ◌∙◌, Bool, true, false, Option, none, some, List, [],
  ◌∷◌, Bool-cases, Option-cases, is_key_self, All, Member, All-members, arith,
}
use rmtx.Base.Int.{int_beq_self}
use rmtx.Base.Dict.{Dict, lookup, insert, remove, lookup-insert, lookup-remove}
use rmtx.Base.Text.{Text, text_beq, text_beq_iff, text_key}
use rmtx.Syncfs.Manifest.{
  Entry, add_all, by_path, same_entry, same_entry_except_mode, is_changed, diff, is_missing,
}
use rmtx.Syncfs.Manifest.Diff.{by_path-IsIndex, Reported, Gone, diff-exact}

-- The tree that a receiver makes: what is deleted goes, then what changed is put in its place.
abbrev pub remove_all : List Text → Dict Text Entry → Dict Text Entry
remove_all [] m = m
remove_all (path ∷ paths) m = remove_all paths (remove path m)

abbrev pub patch : List Entry × List Text → Dict Text Entry → Dict Text Entry
patch (changed, deleted) m = add_all changed (remove_all deleted m)

-- The same entry, as far as `Diff` compares.
abbrev pub Agrees : Bool → Option Entry → Option Entry → Type 0
Agrees ignore_mode none none = Unit
Agrees ignore_mode (some a) (some b) = same_entry a b ignore_mode ≡ true
Agrees ignore_mode none (some b) = ⊥
Agrees ignore_mode (some a) none = ⊥

lookup-remove_all :
    (path : Text) (paths : List Text) (m : Dict Text Entry)
    → All (λ p. p ≢ path) paths
    → lookup path (remove_all paths m) ≡ lookup path m
lookup-remove_all path [] m h = refl
lookup-remove_all path (p ∷ paths) m (ne, h) =
    lookup-remove_all path paths (remove p m) h
    ∙ ground (arith, lookup-remove p path m, text_beq_iff p path)

remove_all-none :
    (path : Text) (paths : List Text) (m : Dict Text Entry)
    → Member path paths ⊎ (lookup path m ≡ none)
    → lookup path (remove_all paths m) ≡ none
remove_all-none path [] m (inl h) = absurd h
remove_all-none path [] m (inr h) = h
remove_all-none path (p ∷ paths) m (inl (inl same)) =
    remove_all-none path paths (remove p m)
      (inr (ground (arith, lookup-remove p path m, text_beq_iff p path)))
remove_all-none path (p ∷ paths) m (inl (inr h)) = remove_all-none path paths (remove p m) (inl h)
remove_all-none path (p ∷ paths) m (inr h) =
    remove_all-none path paths (remove p m) (inr (ground (arith, lookup-remove p path m)))

lookup-add_all :
    (path : Text) (entries : List Entry) (m : Dict Text Entry)
    → All (λ e. e.path ≢ path) entries
    → lookup path (add_all entries m) ≡ lookup path m
unfolding add_all
lookup-add_all path [] m h = refl
lookup-add_all path (e ∷ entries) m (ne, h) =
    lookup-add_all path entries (insert e.path e m) h
    ∙ ground (arith, lookup-insert e.path path e m, text_beq_iff e.path path)

add_all-some :
    (path : Text) (t : Entry) (entries : List Entry) (m : Dict Text Entry)
    → All (λ e. e.path ≡ path → e ≡ t) entries
    → Member t entries ⊎ (lookup path m ≡ some t)
    → t.path ≡ path
    → lookup path (add_all entries m) ≡ some t
unfolding add_all
add_all-some path t [] m only (inl h) at_path = absurd h
add_all-some path t [] m only (inr h) at_path = h
add_all-some path t (e ∷ entries) m (one, only) (inl (inr h)) at_path =
    add_all-some path t entries (insert e.path e m) only (inl h) at_path
add_all-some path t (e ∷ entries) m (one, only) (inl (inl same)) at_path =
    add_all-some path t entries (insert e.path e m) only
      (inr (lookup-insert e.path path e m ∙ simp (sym same, at_path, is_key_self path))) at_path
add_all-some path t (e ∷ entries) m (one, only) (inr h) at_path =
    add_all-some path t entries (insert e.path e m) only
      (inr (
        lookup-insert e.path path e m ∙ (elim (Bool-cases (text_beq e.path path)) [
          | inl same ↦ simp same (ap some (one ((text_beq_iff e.path path).0 same)))
          | inr other ↦ simp other h
        ])))
      at_path

same_entry_self : (e : Entry) (ignore_mode : Bool) → same_entry e e ignore_mode ≡ true
unfolding same_entry same_entry_except_mode
same_entry_self e ignore_mode =
    ground
      (arith, is_key_self e.kind, is_key_self e.hash, int_beq_self e.size, is_key_self e.linkname)

lookup-keyed :
    (m : Dict Text Entry) (path : Text) (e : Entry)
    → All (λ entry. entry.0 ≡ entry.1.path) m
    → lookup path m ≡ some e
    → e.path ≡ path
unfolding lookup
lookup-keyed [] path e keyed h = cc
lookup-keyed ((k, v) ∷ m) path e (p, keyed) h = elim (Bool-cases (text_beq k path)) [
  | inl same ↦
      let found : v ≡ e = ground arith in simp (sym found) (sym p ∙ (text_beq_iff k path).0 same)
  | inr other ↦ lookup-keyed m path e keyed (simp other at h)
]

module _ (old new : Dict Text Entry) (ignore_mode : Bool) (changed : List Entry)
    (deleted : List Text)
    (exact : (e : Entry) (path : Text)
      → (Member e changed ↔ Reported old new ignore_mode e)
        × (Member path deleted ↔ Gone old new path))
    (keyed : (path : Text) (e : Entry) → lookup path new ≡ some e → e.path ≡ path) where
  patched-none :
      (path : Text) → lookup path new ≡ none → lookup path (patch (changed, deleted) old) ≡ none
  patched-none path absent =
      lookup-add_all path changed (remove_all deleted old) (
        All-members (λ e. e.path ≢ path) changed
          (λ e m at_path. (let found = ((exact e path).0.0 m).0 in cc)))
      ∙ remove_all-none path deleted old (elim (Option-cases (lookup path old)) [
        | inl e ↦ inr e
        | inr (b, e) ↦ inl ((exact b path).1.1 (ground arith, ground arith))
      ])

  kept :
      (path : Text) (t : Entry)
      → lookup path new ≡ some t
      → lookup path (remove_all deleted old) ≡ lookup path old
  kept path t found = lookup-remove_all path deleted old (
      All-members (λ p. p ≢ path) deleted
        (λ p m same.
          (let gone : is_missing new p ≡ true = ((exact t p).1.0 m).1 in
            ground (arith, ap (is_missing new) same))))

  patched-changed :
      (path : Text) (t : Entry)
      → lookup path new ≡ some t
      → is_changed (lookup path old) t ignore_mode ≡ true
      → lookup path (patch (changed, deleted) old) ≡ some t
  patched-changed path t found c =
      add_all-some path t changed (remove_all deleted old)
        (All-members (λ e. e.path ≡ path → e ≡ t) changed
          (λ e m at_path. (let other = ((exact e path).0.0 m).0 in cc)))
        (inl ((exact t path).0.1 (simp (keyed path t found) found, simp (keyed path t found) c)))
        (keyed path t found)

  patched-same :
      (path : Text) (t : Entry)
      → lookup path new ≡ some t
      → is_changed (lookup path old) t ignore_mode ≡ false
      → lookup path (patch (changed, deleted) old) ≡ lookup path old
  patched-same path t found c =
      lookup-add_all path changed (remove_all deleted old) (
        All-members (λ e. e.path ≢ path) changed
          (λ e m at_path.
            (let r = (exact e path).0.0 m in let there = r.0 in let differs = r.1 in cc)))
      ∙ kept path t found

unchanged-Agrees :
    (old : Option Entry) (t : Entry) (ignore_mode : Bool)
    → is_changed old t ignore_mode ≡ false
    → Agrees ignore_mode old (some t)
unfolding is_changed
unchanged-Agrees none t ignore_mode h = cc
unchanged-Agrees (some b) t ignore_mode h = ground (arith, h)

-- Carrying out what `Diff` reports on the tree of `before` gives the tree of `after`, as far as
-- `sameEntry` compares entries: at each path both have nothing, or the same entry.
pub patch-diff :
    (clean : Text → Text) (before after : List Entry) (ignore_mode : Bool) (path : Text)
    → Agrees ignore_mode
        (lookup path (patch (diff clean before after ignore_mode) (by_path before)))
        (lookup path (by_path after))
patch-diff clean before after ignore_mode path =
    let changes = diff clean before after ignore_mode in
    let old = by_path before in
    let new = by_path after in
    let exact = diff-exact clean before after ignore_mode in
    let keyed : (p : Text) (e : Entry) → lookup p new ≡ some e → e.path ≡ p =
      λ p e. lookup-keyed new p e (by_path-IsIndex after).1 in
    elim (Option-cases (lookup path new)) [
      | inl absent ↦
          simp
            (absent, patched-none old new ignore_mode changes.0 changes.1 exact keyed path absent)
            tt
      | inr (t, found) ↦ elim (Bool-cases (is_changed (lookup path old) t ignore_mode)) [
        | inl c ↦
            simp
              (
                found,
                patched-changed old new ignore_mode changes.0 changes.1 exact keyed path t found c,
              )
              (same_entry_self t ignore_mode)
        | inr c ↦
            simp
              (
                found,
                patched-same old new ignore_mode changes.0 changes.1 exact keyed path t found c,
              )
              (unchanged-Agrees (lookup path old) t ignore_mode c)
      ]
    ]
