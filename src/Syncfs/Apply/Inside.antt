-- ===== src/Syncfs/Apply/Inside.antt =====
-- internal/syncfs/apply.go: changes that the check accepts stay inside the workspace.
use rmtx.Base.{
  ℕ, ◌≡◌, ◌≢◌, inl, inr, refl, sym, ap, ◌∙◌, Bool, true, false, ◌||◌, some, List, [], ◌∷◌, ◌++◌,
  if◌then◌else◌, any, length, Result, ok, ◌>>=◌, ◌>>◌, fail_if, Bool-cases, >>=-parts, fail_if-ok,
  All, All-append, All-Member, All-members, Member, arith,
}
use rmtx.Base.Dict.{Dict, lookup, Member-lookup}
use rmtx.Base.Path.{slash, dot, parents}
use rmtx.Base.Path.Clean.{IsInside}
use rmtx.Base.Path.Parents.{
  AllPlain, parents-Member, parents-none, parents-Tops, Tops, climb, dir-last,
}
use rmtx.Base.Text.{Text, text_beq, text_beq_iff, text_key}
use rmtx.Syncfs.Manifest.{Entry, EntryKind, dir, is_kind}
use rmtx.Syncfs.Apply.{
  ApplyFault, local_apply_path, Cleaned, clean_entries, is_not_dir, is_nested, clean_deleted,
  clean_apply_changes,
}
use rmtx.Syncfs.Apply.Kept.{
  IsWritable, Distinct, IsFiled, IsKept, local_apply_path-IsInside, clean_entries-IsKept,
}

-- What lies below another entry lies below a directory.
abbrev pub IsNestedWell : List Entry → Type 0
IsNestedWell entries =
    (a b : Entry) (below : Text)
    → Member a entries
    → Member b entries
    → b.path ≡ a.path ++ (slash ∷ below)
    → is_kind a.kind dir ≡ true

any-none :
    {A : Type 0} (p : A → Bool) (a : A) (xs : List A) → any p xs ≡ false → Member a xs → p a ≡ false
any-none p a [] h m = absurd m
any-none p a (x ∷ xs) h (inl same) = ap p same ∙ ground arith
any-none p a (x ∷ xs) h (inr m) = any-none p a xs (ground arith) m

dot-ne : (a below : Text) → dot ≢ a ++ (slash ∷ below)
dot-ne [] below e = ground arith
dot-ne (c ∷ []) below e = ground arith
dot-ne (c ∷ d ∷ a) below e = ground arith

above-Member :
    (path a below : Text)
    → IsInside path
    → path ≡ a ++ (slash ∷ below)
    → Member a (parents (length path) path)
above-Member path a below (inl root) e = absurd (dot-ne a below (sym root ∙ e))
above-Member path a below (inr plain) e =
    rw e (parents-Member (length (a ++ (slash ∷ below))) a below (rw⁻¹ e plain) (omega arith))

nested_well :
    (cleaned : List Entry) (kinds : Dict Text EntryKind)
    → IsKept (cleaned, kinds)
    → any (λ kind. is_nested kinds kind.0) kinds ≡ false
    → IsNestedWell cleaned
unfolding is_nested
nested_well cleaned kinds (h, d) none_nested a b below ma mb path =
    let inside = (All-Member (IsFiled kinds) b cleaned h mb).0.0 in
    let known : (e : Entry) → Member e cleaned → lookup e.path kinds ≡ some e.kind =
      λ e m. (All-Member (IsFiled kinds) e cleaned h m).1 in
    let calm =
      any-none (λ kind. is_nested kinds kind.0) (b.path, b.kind) kinds none_nested
        (Member-lookup b.path b.kind kinds (known b mb)) in
    let above : Member a.path (parents (length b.path) b.path) =
      above-Member b.path a.path below inside path in
    let fine =
      any-none (λ parent. is_not_dir (lookup parent kinds)) a.path (parents (length b.path) b.path)
        calm above in
    ground (arith, known a ma)

plain_of : (rel : Text) → IsInside rel → text_beq rel dot ≡ false → AllPlain rel
plain_of rel (inl root) h = absurd (let same = (text_beq_iff rel dot).1 root in cc)
plain_of rel (inr plain) h = plain

clean_deleted-AllPlain :
    (deleted cleaned gone : List Text)
    → All AllPlain cleaned
    → clean_deleted deleted cleaned ≡ ok gone
    → All AllPlain gone
unfolding clean_deleted
clean_deleted-AllPlain [] cleaned gone h done = let same : cleaned ≡ gone = cc in rw⁻¹ same h
clean_deleted-AllPlain (name ∷ deleted) cleaned gone h done =
    let next : Text → List Text = λ rel.
      if text_beq rel dot || any (λ seen. text_beq seen rel) cleaned
      then cleaned
      else cleaned ++ (rel ∷ []) in
    let (rel, local, rest) =
      >>=-parts (local_apply_path name) (λ rel. clean_deleted deleted (next rel)) done in
    clean_deleted-AllPlain deleted (next rel) gone
      (added rel (local_apply_path-IsInside name rel local)) rest
  where
    added :
        (rel : Text)
        → IsInside rel
        → All AllPlain (
            if text_beq rel dot || any (λ seen. text_beq seen rel) cleaned
            then cleaned
            else cleaned ++ (rel ∷ []))
    added rel inside = elim (Bool-cases (text_beq rel dot)) [
      | inl root ↦ simp root h
      | inr name ↦ elim (Bool-cases (any (λ seen. text_beq seen rel) cleaned)) [
        | inl old ↦ simp (name, old) h
        | inr new ↦
            simp (name, new)
              (All-append AllPlain cleaned (rel ∷ []) h (plain_of rel inside name, tt))
      ]
    ]

-- Of a set of changes that `cleanApplyChanges` accepts, whatever the paths said, each entry is the
-- workspace itself or lies in it by names alone, without a way up; only a directory stands for the
-- workspace itself, every kind is known, no path stands twice, and an entry lies below another one
-- only if that is a directory. Each deleted path lies in the workspace by names alone.
pub clean_apply_changes-Inside :
    (entries : List Entry) (deleted : List Text) (cleaned : List Entry) (gone : List Text)
    → clean_apply_changes entries deleted ≡ ok (cleaned, gone)
    → All IsWritable cleaned × Distinct cleaned × IsNestedWell cleaned × All AllPlain gone
unfolding clean_apply_changes
clean_apply_changes-Inside entries deleted cleaned gone done =
    let check : Cleaned → Result ApplyFault (Unit {0}) =
      λ state. fail_if (any (λ kind. is_nested state.1 kind.0) state.1) ApplyFault.nested_entry in
    let finish : Cleaned → Result ApplyFault (List Entry × List Text) =
      λ state. clean_deleted deleted [] >>= (λ names. ok (state.0, names)) in
    let (state, built, rest) =
      >>=-parts (clean_entries entries ([], [])) (λ state. check state >> finish state) done in
    let (passed, calm, last) = >>=-parts (check state) (λ _. finish state) rest in
    let (names, dropped, same) =
      >>=-parts (clean_deleted deleted []) (λ names. ok (state.0, names)) last in
    let kept = clean_entries-IsKept entries ([], []) state (tt, tt) built in
    let entries_same : state.0 ≡ cleaned = cc in
    let names_same : names ≡ gone = cc in
    let fine =
      fail_if-ok (any (λ kind. is_nested state.1 kind.0) state.1) ApplyFault.nested_entry passed
        calm in
    rw (sym entries_same, sym names_same)
      (
        All-members IsWritable state.0 (λ e m. (All-Member (IsFiled state.1) e state.0 kept.0 m).0),
        kept.1,
        nested_well state.0 state.1 kept fine,
        clean_deleted-AllPlain deleted [] names tt dropped,
      )

-- The loop over the directories above a path inside the workspace ends: taking the directory again
-- and again comes to the workspace itself, behind at most as many other directories as the path is
-- long, and `is_nested` is true exactly if one of these is a known entry that is no directory.
pub is_nested_ends :
    (kinds : Dict Text EntryKind) (rel : Text)
    → IsInside rel
    → (k : ℕ) × Tops k rel
      × (is_nested kinds rel ≡ any (λ parent. is_not_dir (lookup parent kinds)) (climb k rel))
unfolding is_nested
is_nested_ends kinds rel (inr plain) =
    let (k, tops, same) = parents-Tops (length rel) rel plain (omega arith) in
    (k, tops, ap (any (λ parent. is_not_dir (lookup parent kinds))) same)
is_nested_ends kinds rel (inl root) = rw root (
  0,
  (omega arith, dir-last dot refl, tt),
  ap (any (λ parent. is_not_dir (lookup parent kinds))) (parents-none (length dot) dot refl),
)
