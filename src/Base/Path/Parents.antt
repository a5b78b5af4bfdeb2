-- ===== src/Base/Path/Parents.antt =====
-- The directories that filepath.Dir names one after another above a path.
use Prim.Native.Nat.{ℕ, zero, suc, ◌≤◌}
use mathlib.Core.Path.{◌≡◌, refl, sym, ap, ◌∙◌}
use mathlib.Core.Logic.{◌⊎◌, inl, inr}
use mathlib.Core.Bool.{true, false}
use mathlib.Core.List.{List, [], ◌∷◌, ◌++◌, append_assoc, append-nil}
use native.Mathlib.Omega.{arith}
use rmtx.Base.Logic.{Bool-cases, ◌==◌}
use rmtx.Base.Lists.{All, Member, length, length-append}
use rmtx.Base.Text.{Text, text_beq, text_beq_iff, split, join}
use rmtx.Base.Text.Laws.{join-split}
use rmtx.Base.Path.{
  slash, dot, is_rooted, push, walk, reverse_onto, or_dot, clean, cons_up_to, up_to_slash, dir,
  parents,
}
use rmtx.Base.Path.Clean.{Plain, clean-unrooted}
use rmtx.Base.Path.Segments.{NoSlash, split-append}

-- Where the last slash of a text stands, if it has one.
last_slash :
    (s : Text)
    → NoSlash s
      ⊎ ((before : Text) × (after : Text) × (s ≡ before ++ (slash ∷ after)) × NoSlash after)
last_slash [] = inl refl
last_slash (c ∷ s) = elim (last_slash s) [
  | inr (before, after, e, n) ↦ inr (c ∷ before, after, ap (λ t. c ∷ t) e, n)
  | inl n ↦ elim (Bool-cases (c == slash)) [
    | inl e ↦ inr ([], s, ground arith, n)
    | inr e ↦ inl (ground arith)
  ]
]

up_to_slash-none : (s : Text) → NoSlash s → up_to_slash s ≡ []
up_to_slash-none [] n = refl
up_to_slash-none (c ∷ s) n = simp (up_to_slash-none s (ground arith)) (ground arith)

up_to_slash-append : (a m : Text) → NoSlash m → up_to_slash (a ++ (slash ∷ m)) ≡ a ++ (slash ∷ [])
up_to_slash-append [] m n = simp (up_to_slash-none m n) refl
up_to_slash-append (c ∷ []) m n = simp (up_to_slash-none m n) refl
up_to_slash-append (c ∷ d ∷ a) m n = ap (cons_up_to c) (up_to_slash-append (d ∷ a) m n)

-- Names alone.
abbrev pub AllPlain : Text → Type 0
AllPlain path = All Plain (split slash path)

push-name : (s : Text) (stack : List Text) → Plain s → push false s stack ≡ s ∷ stack
push-name s stack p = simp (p.0, p.1, p.2) refl

walk-names :
    (names stack : List Text)
    → All Plain names
    → walk false (names ++ ([] ∷ [])) stack ≡ reverse_onto names stack
unfolding walk
walk-names [] stack h = refl
walk-names (s ∷ names) stack (p, h) =
    ap (walk false (names ++ ([] ∷ []))) (push-name s stack p) ∙ walk-names names (s ∷ stack) h

pub reverse_onto-twice :
    (ss acc out : List Text) → reverse_onto (reverse_onto ss acc) out ≡ reverse_onto acc (ss ++ out)
reverse_onto-twice [] acc out = refl
reverse_onto-twice (s ∷ ss) acc out = reverse_onto-twice ss (s ∷ acc) out

unrooted : (a : Text) → AllPlain a → is_rooted (a ++ (slash ∷ [])) ≡ false
unfolding split
unrooted [] h = absurd (ground arith)
unrooted (c ∷ a) h = elim (Bool-cases (c == slash)) [
  | inl e ↦ absurd (let first = (simp e at h).0 in ground arith)
  | inr e ↦ e
]

or_dot-AllPlain : (a : Text) → AllPlain a → or_dot a ≡ a
unfolding split
or_dot-AllPlain [] h = absurd (ground arith)
or_dot-AllPlain (c ∷ a) h = refl

pub ne_dot : (a : Text) → AllPlain a → text_beq a dot ≡ false
unfolding split
ne_dot a h = elim (Bool-cases (text_beq a dot)) [
  | inl e ↦ absurd (
      let first = (simp ((text_beq_iff a dot).0 e) at h).0 in
      let wrong : true ≡ false = first.1 in cc)
  | inr e ↦ e
]

walk-split :
    (a : Text)
    → AllPlain a
    → walk false (split slash a ++ split slash []) [] ≡ reverse_onto (split slash a) []
walk-split a h = unfold split in walk-names (split slash a) [] h

clean-names : (a : Text) → AllPlain a → clean (a ++ (slash ∷ [])) ≡ a
clean-names a h =
    clean-unrooted (a ++ (slash ∷ [])) (unrooted a h)
    ∙ ap (λ ss. or_dot (join slash (reverse_onto (walk false ss []) []))) (split-append a [])
    ∙ ap (λ ss. or_dot (join slash (reverse_onto ss []))) (walk-split a h)
    ∙ ap (λ ss. or_dot (join slash ss))
        (reverse_onto-twice (split slash a) [] [] ∙ append-nil (split slash a))
    ∙ ap or_dot (join-split slash a)
    ∙ or_dot-AllPlain a h

walk-only_names :
    (names stack : List Text) → All Plain names → walk false names stack ≡ reverse_onto names stack
unfolding walk
walk-only_names [] stack h = refl
walk-only_names (s ∷ names) stack (p, h) =
    ap (walk false names) (push-name s stack p) ∙ walk-only_names names (s ∷ stack) h

plain_unrooted : (a : Text) → AllPlain a → is_rooted a ≡ false
unfolding split
plain_unrooted [] h = refl
plain_unrooted (c ∷ a) h = unrooted (c ∷ a) h

-- There is nothing to clean in a path of names.
pub clean-AllPlain : (a : Text) → AllPlain a → clean a ≡ a
clean-AllPlain a h =
    clean-unrooted a (plain_unrooted a h)
    ∙ ap (λ ss. or_dot (join slash (reverse_onto ss []))) (walk-only_names (split slash a) [] h)
    ∙ ap (λ ss. or_dot (join slash ss))
        (reverse_onto-twice (split slash a) [] [] ∙ append-nil (split slash a))
    ∙ ap or_dot (join-split slash a)
    ∙ or_dot-AllPlain a h

dir-append : (a m : Text) → AllPlain a → NoSlash m → dir (a ++ (slash ∷ m)) ≡ a
unfolding dir
dir-append a m h n = ap clean (up_to_slash-append a m n) ∙ clean-names a h

pub dir-last : (a : Text) → NoSlash a → dir a ≡ dot
unfolding dir
dir-last a n = ap clean (up_to_slash-none a n) ∙ (unfold clean split walk join in refl)

All-left : {A : Type 0} (P : A → Type 0) (xs ys : List A) → All P (xs ++ ys) → All P xs × All P ys
All-left P [] ys h = (tt, h)
All-left P (x ∷ xs) ys (p, h) = let r = All-left P xs ys h in ((p, r.0), r.1)

-- A path of names below another one.
below-AllPlain : (a m : Text) → AllPlain (a ++ (slash ∷ m)) → AllPlain a × AllPlain m
below-AllPlain a m h = All-left Plain (split slash a) (split slash m) (rw⁻¹ (split-append a m) h)

pub parents-none : (fuel : ℕ) (a : Text) → NoSlash a → parents fuel a ≡ []
unfolding parents
parents-none zero a n = refl
parents-none (suc fuel) a n = simp (dir-last a n) refl

parents-below :
    (fuel : ℕ) (a m : Text)
    → AllPlain a
    → NoSlash m
    → parents (suc fuel) (a ++ (slash ∷ m)) ≡ a ∷ parents fuel a
unfolding parents
parents-below fuel a m h n = simp (dir-append a m h n, ne_dot a h) refl

-- As much fuel as the path is long is enough: more of it names no further directory.
pub parents_enough :
    (m n : ℕ) (path : Text)
    → AllPlain path
    → length path ≤ m
    → length path ≤ n
    → parents m path ≡ parents n path
parents_enough zero n [] h k l = unfold split in absurd (ground arith)
parents_enough zero n (c ∷ path) h k l = absurd (omega arith)
parents_enough (suc m) zero [] h k l = unfold split in absurd (ground arith)
parents_enough (suc m) zero (c ∷ path) h k l = absurd (omega arith)
parents_enough (suc m) (suc n) path h k l = elim (last_slash path) [
  | inl none ↦ parents-none (suc m) path none ∙ sym (parents-none (suc n) path none)
  | inr (a, name, e, none) ↦
      let plain = (below-AllPlain a name (rw⁻¹ e h)).0 in
      let size = ap length e ∙ length-append a (slash ∷ name) in
      ap (parents (suc m)) e
      ∙ parents-below m a name plain none
      ∙ ap (λ ps. a ∷ ps) (parents_enough m n a plain (omega arith) (omega arith))
      ∙ sym (ap (parents (suc n)) e ∙ parents-below n a name plain none)
]

-- filepath.Dir, so many times over, and what it gives on the way.
abbrev pub ascend : ℕ → Text → Text
ascend zero path = path
ascend (suc n) path = ascend n (dir path)

abbrev pub climb : ℕ → Text → List Text
climb zero path = []
climb (suc n) path = dir path ∷ climb n (dir path)

-- A climb that is over after `k` directories, none of them the workspace itself.
abbrev pub Tops : ℕ → Text → Type 0
Tops k path =
    (k ≤ length path)
    × (ascend (suc k) path ≡ dot)
    × All (λ p. text_beq p dot ≡ false) (climb k path)

-- As much fuel as the path is long is enough to climb to the top.
pub parents-Tops :
    (fuel : ℕ) (path : Text)
    → AllPlain path
    → length path ≤ fuel
    → (k : ℕ) × Tops k path × (parents fuel path ≡ climb k path)
parents-Tops zero [] h l = unfold split in absurd (ground arith)
parents-Tops zero (c ∷ path) h l = absurd (omega arith)
parents-Tops (suc fuel) path h l = elim (last_slash path) [
  | inl none ↦ (0, (omega arith, dir-last path none, tt), parents-none (suc fuel) path none)
  | inr (a, name, e, none) ↦
      let plain = (below-AllPlain a name (rw⁻¹ e h)).0 in
      let size = ap length e ∙ length-append a (slash ∷ name) in
      let up = ap dir e ∙ dir-append a name plain none in
      let (k, (small, top, apart), same) = parents-Tops fuel a plain (omega arith) in
      (
        suc k,
        (omega arith, ap (ascend (suc k)) up ∙ top, rw up (ne_dot a plain, apart)),
        ap (parents (suc fuel)) e
            ∙ parents-below fuel a name plain none
            ∙ ap (λ ps. a ∷ ps) same
            ∙ sym (ap (λ p. p ∷ climb k p) up),
      )
]

-- Every directory that a path lies below is named.
pub parents-Member :
    (fuel : ℕ) (a below : Text)
    → AllPlain (a ++ (slash ∷ below))
    → length (a ++ (slash ∷ below)) ≤ fuel
    → Member a (parents fuel (a ++ (slash ∷ below)))
parents-Member zero a below h k = absurd (let size = length-append a (slash ∷ below) in omega arith)
parents-Member (suc fuel) a below h k = elim (last_slash below) [
  | inl none ↦ rw (parents-below fuel a below (below-AllPlain a below h).0 none) (inl refl)
  | inr (middle, name, e, none) ↦
      let path : a ++ (slash ∷ below) ≡ (a ++ (slash ∷ middle)) ++ (slash ∷ name) =
        ap (λ t. a ++ (slash ∷ t)) e ∙ sym (append_assoc a (slash ∷ middle) (slash ∷ name)) in
      let plain = (below-AllPlain (a ++ (slash ∷ middle)) name (rw⁻¹ path h)).0 in
      let size = ap length path ∙ length-append (a ++ (slash ∷ middle)) (slash ∷ name) in
      rw (path, parents-below fuel (a ++ (slash ∷ middle)) name plain none)
        (inr (parents-Member fuel a middle plain (omega arith)))
]
