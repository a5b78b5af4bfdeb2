-- ===== src/Base/Path/Segments.antt =====
-- Paths cut at their slashes, and put together again.
use Prim.Native.Nat.{ℕ}
use mathlib.Core.Path.{◌≡◌, refl, ap, ◌∙◌}
use mathlib.Core.Logic.{inl, inr, ◌≢◌}
use mathlib.Core.Bool.{false}
use mathlib.Core.List.{List, [], ◌∷◌, ◌++◌}
use native.Mathlib.Omega.{arith}
use rmtx.Base.Logic.{Bool-cases, ◌==◌}
use rmtx.Base.Lists.{All}
use rmtx.Base.Text.{Text, split, join, add_to_first, contains}
use rmtx.Base.Text.Laws.{split-ne-nil}
use rmtx.Base.Path.{slash}

abbrev pub NoSlash : Text → Type 0
NoSlash segment = contains segment slash ≡ false

add_to_first-NoSlash :
    (c : ℕ) (ps : List Text)
    → (c == slash) ≡ false
    → All NoSlash ps
    → All NoSlash (add_to_first c ps)
add_to_first-NoSlash c [] e h = (ground arith, tt)
add_to_first-NoSlash c (p ∷ ps) e (hp, h) = (ground arith, h)

pub split-NoSlash : (s : Text) → All NoSlash (split slash s)
unfolding split
split-NoSlash [] = (refl, tt)
split-NoSlash (c ∷ s) = elim (Bool-cases (c == slash)) [
  | inl e ↦ simp e (refl, split-NoSlash s)
  | inr e ↦ simp e (add_to_first-NoSlash c (split slash s) e (split-NoSlash s))
]

split-Single : (s : Text) → NoSlash s → split slash s ≡ s ∷ []
unfolding split
split-Single [] n = refl
split-Single (c ∷ s) n = elim (Bool-cases (c == slash)) [
  | inl e ↦ absurd (ground arith)
  | inr e ↦ simp (e, split-Single s (ground arith)) refl
]

add_to_first-append :
    (c : ℕ) (ps qs : List Text) → ps ≢ [] → add_to_first c (ps ++ qs) ≡ add_to_first c ps ++ qs
add_to_first-append c [] qs h = absurd (h refl)
add_to_first-append c (p ∷ ps) qs h = refl

pub split-append : (s t : Text) → split slash (s ++ (slash ∷ t)) ≡ split slash s ++ split slash t
unfolding split
split-append [] t = refl
split-append (c ∷ s) t = elim (Bool-cases (c == slash)) [
  | inl e ↦ simp (e, split-append s t) refl
  | inr e ↦
      simp (e, split-append s t)
        (add_to_first-append c (split slash s) (split slash t) (split-ne-nil slash s))
]

pub split-join :
    (s : Text) (segments : List Text)
    → NoSlash s
    → All NoSlash segments
    → split slash (join slash (s ∷ segments)) ≡ s ∷ segments
unfolding join
split-join s [] n h = split-Single s n
split-join s (t ∷ segments) n (nt, h) =
    split-append s (join slash (t ∷ segments))
    ∙ (ap (λ ss. ss ++ split slash (join slash (t ∷ segments))) (split-Single s n))
    ∙ ap (λ ss. s ∷ ss) (split-join t segments nt h)
