-- ===== src/Syncfs/Apply/Kept.antt =====
-- internal/syncfs/apply.go: what the loop over the entries keeps true of those it has taken.
use rmtx.Base.{
  ◌≡◌, ◌≢◌, inl, inr, refl, ◌∙◌, true, false, not, ◌&&◌, none, some, List, [], ◌∷◌, ◌++◌, Result,
  ok, ◌>>◌, Bool-cases, >>=-parts, All, All-append, All-Member, All-members, is_key_self, arith,
}
use rmtx.Base.Dict.{Dict, lookup, insert, lookup-insert}
use rmtx.Base.Path.{dot, clean, is_local}
use rmtx.Base.Path.Clean.{IsInside, clean-IsInside}
use rmtx.Base.Text.{Text, text_beq, text_beq_iff, text_key, trim_space}
use rmtx.Syncfs.Manifest.{Entry, EntryKind, dir, is_kind}
use rmtx.Syncfs.Apply.{
  ApplyFault, local_apply_path, check_entry, is_known_kind, Cleaned, clean_entries,
}

-- An entry that may be written: inside the workspace, of a known kind, and a directory where it is
-- the workspace itself.
abbrev pub IsWritable : Entry → Type 0
IsWritable e =
    IsInside e.path
    × (is_known_kind e.kind ≡ true)
    × ((text_beq e.path dot && not (is_kind e.kind dir)) ≡ false)

-- No path stands twice.
abbrev pub Distinct : List Entry → Type 0
Distinct [] = Unit
Distinct (e ∷ entries) = All (λ f. e.path ≢ f.path) entries × Distinct entries

-- It may be written, and the map of kinds has its kind.
abbrev pub IsFiled : Dict Text EntryKind → Entry → Type 0
IsFiled kinds e = IsWritable e × (lookup e.path kinds ≡ some e.kind)

-- What the loop over the entries keeps true of what it has built.
abbrev pub IsKept : Cleaned → Type 0
IsKept (cleaned, kinds) = All (IsFiled kinds) cleaned × Distinct cleaned

pub local_apply_path-IsInside : (name rel : Text) → local_apply_path name ≡ ok rel → IsInside rel
unfolding local_apply_path
local_apply_path-IsInside name rel h = elim (Bool-cases (is_local (clean (trim_space name)))) [
  | inl e ↦
      let same : clean (trim_space name) ≡ rel = ground arith in
      rw⁻¹ same (clean-IsInside (trim_space name) e)
  | inr e ↦ absurd (ground arith)
]

check_entry-parts :
    (rel : Text) (entry : Entry) (kinds : Dict Text EntryKind)
    → check_entry rel entry kinds ≡ ok tt
    → ((text_beq rel dot && not (is_kind entry.kind dir)) ≡ false)
      × (lookup rel kinds ≡ none)
      × (is_known_kind entry.kind ≡ true)
unfolding check_entry
check_entry-parts rel entry kinds h = (ground arith, ground arith, ground arith)

Distinct-last :
    (cleaned : List Entry) (e : Entry)
    → Distinct cleaned
    → All (λ f. f.path ≢ e.path) cleaned
    → Distinct (cleaned ++ (e ∷ []))
Distinct-last [] e d h = (tt, tt)
Distinct-last (f ∷ cleaned) e (df, d) (hf, h) =
    (All-append (λ g. f.path ≢ g.path) cleaned (e ∷ []) df (hf, tt), Distinct-last cleaned e d h)

-- What stands under a path is not touched by another path's entry.
lookup_kept :
    (rel path : Text) (kind other : EntryKind) (kinds : Dict Text EntryKind)
    → lookup rel kinds ≡ none
    → lookup path kinds ≡ some other
    → lookup path (insert rel kind kinds) ≡ some other
lookup_kept rel path kind other kinds new h = elim (Bool-cases (text_beq rel path)) [
  | inl e ↦ absurd (let same = (text_beq_iff rel path).0 e in cc)
  | inr e ↦ lookup-insert rel path kind kinds ∙ simp e h
]

step-IsKept :
    (cleaned : List Entry) (kinds : Dict Text EntryKind) (rel : Text) (entry : Entry)
    → IsKept (cleaned, kinds)
    → IsInside rel
    → check_entry rel entry kinds ≡ ok tt
    → IsKept (cleaned ++ (record entry { path = rel } ∷ []), insert rel entry.kind kinds)
step-IsKept cleaned kinds rel entry (h, d) inside checked =
    let parts = check_entry-parts rel entry kinds checked in
    let added : Entry = record entry { path = rel } in
    (
      All-append (IsFiled (insert rel entry.kind kinds)) cleaned (added ∷ [])
          (All-members (IsFiled (insert rel entry.kind kinds)) cleaned (λ e m.
            (let r = All-Member (IsFiled kinds) e cleaned h m in
              (r.0, lookup_kept rel e.path entry.kind e.kind kinds parts.1 r.1))))
          (
            (
              (inside, parts.2, parts.0),
              lookup-insert rel rel entry.kind kinds ∙ simp (is_key_self rel) refl,
            ),
            tt,
          ),
      Distinct-last cleaned added d (
          All-members (λ f. f.path ≢ rel) cleaned
            (λ e m same.
              (let r = (All-Member (IsFiled kinds) e cleaned h m).1 in let new = parts.1 in cc))),
    )

pub clean_entries-IsKept :
    (entries : List Entry) (state final : Cleaned)
    → IsKept state
    → clean_entries entries state ≡ ok final
    → IsKept final
unfolding clean_entries
clean_entries-IsKept [] state final k h = let same : state ≡ final = cc in rw⁻¹ same k
clean_entries-IsKept (entry ∷ entries) (cleaned, kinds) final k h =
    let next : Text → Result ApplyFault Cleaned = λ rel.
      check_entry rel entry kinds
      >> clean_entries entries
          (cleaned ++ (record entry { path = rel } ∷ []), insert rel entry.kind kinds) in
    let (rel, local, rest) = >>=-parts (local_apply_path entry.path) next h in
    let added : Cleaned =
      (cleaned ++ (record entry { path = rel } ∷ []), insert rel entry.kind kinds) in
    let (_, checked, done) =
      >>=-parts (check_entry rel entry kinds) (λ _. clean_entries entries added) rest in
    clean_entries-IsKept entries added final
      (step-IsKept cleaned kinds rel entry k (local_apply_path-IsInside entry.path rel local)
        checked)
      done
