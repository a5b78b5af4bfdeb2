-- ===== src/Syncfs/Manifest/Preserve.antt =====
-- internal/syncfs/manifest.go: what `PreserveMissingEntries` adds to a manifest.
use rmtx.Base.{
  ◌≡◌, ◌⊎◌, inl, inr, refl, sym, ap, ◌∙◌, true, false, not, ◌&&◌, List, [], ◌∷◌, ◌++◌,
  if◌then◌else◌, Bool-cases, Member, Member-left, arith,
}
use rmtx.Base.Sort.{Sorted, sort_by-Sorted, Member-sort_by, sort_by-Member}
use rmtx.Base.Text.{Text, text_beq, text_beq_iff, text_key}
use rmtx.Base.Text.Laws.{is_before_asym, is_before_connect}
use rmtx.Syncfs.Manifest.{
  Entry, EntryKind, is_kind, has_path, preserve_loop, preserve_missing_entries, path_before,
}

-- Some entry of a list has the path.
abbrev pub At : List Entry → Text → Type 0
At entries path = (e : Entry) × Member e entries × (e.path ≡ path)

-- One round of the loop.
abbrev step : List Entry → Entry → EntryKind → List Entry
step out entry kind =
    if is_kind entry.kind kind && not (has_path out entry.path) then out ++ (entry ∷ []) else out

module _ {A : Type 0} where
  Member-last : (a : A) (xs : List A) → Member a (xs ++ (a ∷ []))
  Member-last a [] = inl refl
  Member-last a (x ∷ xs) = inr (Member-last a xs)

  last-Member : (a y : A) (xs : List A) → Member a (xs ++ (y ∷ [])) → Member a xs ⊎ (a ≡ y)
  last-Member a y [] (inl e) = inr e
  last-Member a y [] (inr m) = absurd m
  last-Member a y (x ∷ xs) (inl e) = inl (inl e)
  last-Member a y (x ∷ xs) (inr m) = elim (last-Member a y xs m) [
    | inl h ↦ inl (inr h)
    | inr e ↦ inr e
  ]

has_path-At : (out : List Entry) (path : Text) → has_path out path ≡ true → At out path
has_path-At [] path h = cc
has_path-At (e ∷ out) path h = elim (Bool-cases (text_beq e.path path)) [
  | inl same ↦ (e, inl refl, (text_beq_iff e.path path).0 same)
  | inr other ↦ let r = has_path-At out path (simp other at h) in (r.0, inr r.1, r.2)
]

Member-has_path : (out : List Entry) (e : Entry) → Member e out → has_path out e.path ≡ true
Member-has_path [] e m = absurd m
Member-has_path (x ∷ out) e (inl same) =
    ground (arith, ap (λ y. y.path) same, text_beq_iff x.path e.path)
Member-has_path (x ∷ out) e (inr m) = ground (arith, Member-has_path out e m)

Member-step :
    (out : List Entry) (entry : Entry) (kind : EntryKind) (e : Entry)
    → Member e out
    → Member e (step out entry kind)
Member-step out entry kind e m =
    elim (Bool-cases (is_kind entry.kind kind && not (has_path out entry.path))) [
      | inl c ↦ simp c (Member-left e out (entry ∷ []) m)
      | inr c ↦ simp c m
    ]

-- After its round, the path of an entry of the kind is there.
step-At :
    (out : List Entry) (entry : Entry) (kind : EntryKind)
    → is_kind entry.kind kind ≡ true
    → At (step out entry kind) entry.path
step-At out entry kind k = elim (Bool-cases (has_path out entry.path)) [
  | inl there ↦ simp (k, there) (has_path-At out entry.path there)
  | inr new ↦ simp (k, new) (entry, Member-last entry out, refl)
]

-- What a loop's result holds beyond `out`.
abbrev Added : List Entry → List Entry → EntryKind → Entry → Type 0
Added out preserve kind e =
    Member e preserve × (is_kind e.kind kind ≡ true) × (has_path out e.path ≡ false)

step-source :
    (out : List Entry) (entry : Entry) (kind : EntryKind) (e : Entry)
    → Member e (step out entry kind)
    → Member e out ⊎ Added out (entry ∷ []) kind e
step-source out entry kind e m =
    elim (Bool-cases (is_kind entry.kind kind && not (has_path out entry.path))) [
      | inl c ↦ elim (last-Member e entry out (simp c at m)) [
        | inl h ↦ inl h
        | inr same ↦ inr (inl same, simp same (ground arith), simp same (ground arith))
      ]
      | inr c ↦ inl (simp c at m)
    ]

Member-preserve_loop :
    (out preserve : List Entry) (kind : EntryKind) (e : Entry)
    → Member e out
    → Member e (preserve_loop out preserve kind)
unfolding preserve_loop
Member-preserve_loop out [] kind e m = m
Member-preserve_loop out (entry ∷ preserve) kind e m =
    Member-preserve_loop (step out entry kind) preserve kind e (Member-step out entry kind e m)

preserve_loop-source :
    (out preserve : List Entry) (kind : EntryKind) (e : Entry)
    → Member e (preserve_loop out preserve kind)
    → Member e out ⊎ Added out preserve kind e
unfolding preserve_loop
preserve_loop-source out [] kind e m = inl m
preserve_loop-source out (entry ∷ preserve) kind e m =
    elim (preserve_loop-source (step out entry kind) preserve kind e m) [
      | inl h ↦ elim (step-source out entry kind e h) [
        | inl there ↦ inl there
        | inr (inl same, k, new) ↦ inr (inl same, k, new)
        | inr (inr none_left, k, new) ↦ absurd none_left
      ]
      | inr (there, k, new) ↦ elim (Bool-cases (has_path out e.path)) [
        | inl old ↦
            let r = has_path-At out e.path old in
            let still =
              Member-has_path (step out entry kind) r.0 (Member-step out entry kind r.0 r.1) in
            let named = r.2 in cc
        | inr fresh ↦ inr (inr there, k, fresh)
      ]
    ]

preserve_loop-At :
    (out preserve : List Entry) (kind : EntryKind) (e : Entry)
    → Member e preserve
    → is_kind e.kind kind ≡ true
    → At (preserve_loop out preserve kind) e.path
unfolding preserve_loop
preserve_loop-At out [] kind e m k = absurd m
preserve_loop-At out (entry ∷ preserve) kind e (inl same) k =
    let r = step-At out entry kind (simp (sym same) k) in
    (
      r.0,
      Member-preserve_loop (step out entry kind) preserve kind r.0 r.1,
      r.2 ∙ ap (λ x. x.path) (sym same),
    )
preserve_loop-At out (entry ∷ preserve) kind e (inr m) k =
    preserve_loop-At (step out entry kind) preserve kind e m k

-- `PreserveMissingEntries` keeps every entry that it was given, has an entry at the path of every
-- preserved entry of the kind, adds nothing but preserved entries of the kind whose path was
-- missing, and lists the whole by path.
pub preserve_missing_entries-exact :
    (entries preserve : List Entry) (kind : EntryKind)
    → ((e : Entry) → Member e entries → Member e (preserve_missing_entries entries preserve kind))
      × ((e : Entry)
          → Member e preserve
          → is_kind e.kind kind ≡ true
          → At (preserve_missing_entries entries preserve kind) e.path)
      × ((e : Entry)
          → Member e (preserve_missing_entries entries preserve kind)
          → Member e entries
            ⊎ (Member e preserve
                × (is_kind e.kind kind ≡ true)
                × (has_path entries e.path ≡ false)))
      × Sorted path_before (preserve_missing_entries entries preserve kind)
unfolding preserve_missing_entries
preserve_missing_entries-exact entries preserve kind =
    let all = preserve_loop entries preserve kind in
    (
      λ e m. Member-sort_by path_before e all (Member-preserve_loop entries preserve kind e m),
      λ e m k.
          (let r = preserve_loop-At entries preserve kind e m k in
            (r.0, Member-sort_by path_before r.0 all r.1, r.2)),
      λ e m. preserve_loop-source entries preserve kind e (sort_by-Member path_before e all m),
      sort_by-Sorted path_before (λ x y. is_before_asym x.path y.path)
          (λ x y z. is_before_connect x.path y.path z.path) all,
    )
