-- ===== src/Syncfs/Manifest/Diff.antt =====
-- internal/syncfs/manifest.go: what `Diff` reports is what takes a tree from one manifest to another.
use rmtx.Base.{
  ◌≡◌, ◌↔◌, inl, inr, refl, sym, Bool, true, false, some, List, [], ◌∷◌, Bool-cases, All, Member,
  All-members, Member-keep, keep-here, keep-there, arith,
}
use rmtx.Base.Dict.{Dict, lookup, insert, Unique, Unique-insert, lookup-Member, All-insert}
use rmtx.Base.Sort.{Sorted, sort_by-Sorted, Member-sort_by, sort_by-Member}
use rmtx.Base.Text.{Text, text_beq, text_beq_iff, text_key}
use rmtx.Base.Text.Laws.{is_before_asym, is_before_connect}
use rmtx.Syncfs.Manifest.{
  Entry, add_all, by_path, is_changed, changed_loop, deleted_loop, diff, path_before, deeper,
  is_missing,
}

-- A map from `by_path`: each entry stands once, under its own path.
abbrev pub IsIndex : Dict Text Entry → Type 0
IsIndex m = Unique m × All (λ entry. entry.0 ≡ entry.1.path) m

pub All-add_all :
    (P : Text × Entry → Type 0) (entries : List Entry) (m : Dict Text Entry)
    → All (λ e. P (e.path, e)) entries
    → All P m
    → All P (add_all entries m)
unfolding add_all
All-add_all P [] m new h = h
All-add_all P (e ∷ entries) m (p, new) h =
    All-add_all P entries (insert e.path e m) new (All-insert P e.path e m p h)

add_all-Unique :
    (entries : List Entry) (m : Dict Text Entry) → Unique m → Unique (add_all entries m)
unfolding add_all
add_all-Unique [] m u = u
add_all-Unique (e ∷ entries) m u =
    add_all-Unique entries (insert e.path e m) (Unique-insert e.path e m u)

pub by_path-IsIndex : (entries : List Entry) → IsIndex (by_path entries)
by_path-IsIndex entries = (
  add_all-Unique entries [] tt,
  All-add_all (λ entry. entry.0 ≡ entry.1.path) entries []
      (All-members (λ e. e.path ≡ e.path) entries (λ e m. refl)) tt,
)

-- What the two loops report.
abbrev pub Reported : Dict Text Entry → Dict Text Entry → Bool → Entry → Type 0
Reported before after ignore_mode e =
    (lookup e.path after ≡ some e) × (is_changed (lookup e.path before) e ignore_mode ≡ true)

abbrev pub Gone : Dict Text Entry → Dict Text Entry → Text → Type 0
Gone before after path = (is_missing before path ≡ false) × (is_missing after path ≡ true)

-- An entry that the loop reports stands in `after`, under its path.
changed_loop-source :
    (before after : Dict Text Entry) (ignore_mode : Bool) (e : Entry)
    → All (λ entry. entry.0 ≡ entry.1.path) after
    → Member e (changed_loop before after ignore_mode)
    → Member (e.path, e) after × (is_changed (lookup e.path before) e ignore_mode ≡ true)
unfolding changed_loop
changed_loop-source before [] ignore_mode e keyed h = absurd h
changed_loop-source before ((path, cur) ∷ after) ignore_mode e (p, keyed) h =
    elim (Member-keep (is_changed (lookup path before) cur ignore_mode) e cur
      (changed_loop before after ignore_mode) h) [
        | inl (same, c) ↦ (inl (simp (same, p)), simp same (simp p at c))
        | inr m ↦ let r = changed_loop-source before after ignore_mode e keyed m in (inr r.0, r.1)
      ]

changed_loop_complete :
    (before after : Dict Text Entry) (ignore_mode : Bool) (path : Text) (e : Entry)
    → lookup path after ≡ some e
    → is_changed (lookup path before) e ignore_mode ≡ true
    → Member e (changed_loop before after ignore_mode)
unfolding changed_loop lookup
changed_loop_complete before [] ignore_mode path e h c = cc
changed_loop_complete before ((k, cur) ∷ after) ignore_mode path e h c =
    elim (Bool-cases (text_beq k path)) [
      | inl same ↦
          let found : cur ≡ e = ground arith in
          simp (sym found) (
            keep-here (is_changed (lookup k before) cur ignore_mode) cur
              (changed_loop before after ignore_mode)
              (simp ((text_beq_iff k path).0 same, found) c))
      | inr other ↦
          keep-there (is_changed (lookup k before) cur ignore_mode) e cur
            (changed_loop before after ignore_mode)
            (changed_loop_complete before after ignore_mode path e (simp other at h) c)
    ]

deleted_loop-source :
    (before after : Dict Text Entry) (path : Text)
    → Unique before
    → Member path (deleted_loop before after)
    → Gone before after path
unfolding deleted_loop lookup
deleted_loop-source [] after path u h = absurd h
deleted_loop-source ((k, prev) ∷ before) after path (new, u) h =
    elim (Member-keep (is_missing after k) path k (deleted_loop before after) h) [
      | inl (same, c) ↦ rw same (ground (arith, text_beq_iff k k), c)
      | inr m ↦
          let r = deleted_loop-source before after path u m in
          (ground (arith, r.0, text_beq_iff k path), r.1)
    ]

deleted_loop_complete :
    (before after : Dict Text Entry) (path : Text)
    → Gone before after path
    → Member path (deleted_loop before after)
unfolding deleted_loop lookup
deleted_loop_complete [] after path (h, c) = cc
deleted_loop_complete ((k, prev) ∷ before) after path (h, c) = elim (Bool-cases (text_beq k path)) [
  | inl same ↦
      rw ((text_beq_iff k path).0 same)
        (keep-here (is_missing after path) path (deleted_loop before after) c)
  | inr other ↦
      keep-there (is_missing after k) path k (deleted_loop before after)
        (deleted_loop_complete before after path (ground arith, c))
]

-- `Diff` reports an entry if and only if it is the last one of its path in `after` and `before` has
-- no entry there that `sameEntry` takes for the same, and it reports a path as deleted if and only
-- if `before` has an entry there and `after` has none.
pub diff-exact :
    (clean : Text → Text) (before after : List Entry) (ignore_mode : Bool) (e : Entry) (path : Text)
    → (Member e (diff clean before after ignore_mode).0
        ↔ Reported (by_path before) (by_path after) ignore_mode e)
      × (Member path (diff clean before after ignore_mode).1
          ↔ Gone (by_path before) (by_path after) path)
unfolding diff
diff-exact clean before after ignore_mode e path =
    let old = by_path before in
    let new = by_path after in
    let changed = changed_loop old new ignore_mode in
    let deleted = deleted_loop old new in
    let index = by_path-IsIndex after in
    (
      (
        λ m.
            (let r =
                changed_loop-source old new ignore_mode e index.1
                  (sort_by-Member path_before e changed m) in
              (lookup-Member e.path e new index.0 r.0, r.1)),
        λ r.
            Member-sort_by path_before e changed
              (changed_loop_complete old new ignore_mode e.path e r.0 r.1),
      ),
      (
        λ m.
            deleted_loop-source old new path (by_path-IsIndex before).0
              (sort_by-Member (deeper clean) path deleted m),
        λ r. Member-sort_by (deeper clean) path deleted (deleted_loop_complete old new path r),
      ),
    )

-- `Diff` lists what changed by path and what is deleted from the deepest path to the shallowest, so
-- that what a directory holds goes before the directory.
pub diff-Sorted :
    (clean : Text → Text) (before after : List Entry) (ignore_mode : Bool)
    → Sorted path_before (diff clean before after ignore_mode).0
      × Sorted (deeper clean) (diff clean before after ignore_mode).1
unfolding diff
diff-Sorted clean before after ignore_mode = (
  sort_by-Sorted path_before (λ x y. is_before_asym x.path y.path)
      (λ x y z. is_before_connect x.path y.path z.path)
      (changed_loop (by_path before) (by_path after) ignore_mode),
  sort_by-Sorted (deeper clean) (λ x y h. ground arith) (λ x y z h k. ground arith)
      (deleted_loop (by_path before) (by_path after)),
)
