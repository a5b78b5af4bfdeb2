-- ===== src/Base/Text/Laws.antt =====
-- Laws of the text functions.
use Prim.Native.Nat.{ℕ}
use mathlib.Core.Path.{◌≡◌, refl, ap, ◌∙◌}
use mathlib.Core.Logic.{◌≢◌, inl, inr}
use mathlib.Core.Bool.{Bool, true, false}
use mathlib.Core.List.{List, [], ◌∷◌}
use native.Mathlib.Omega.{arith}
use rmtx.Base.Logic.{Bool-cases, ◌==◌}
use rmtx.Base.Lists.{All}
use rmtx.Base.Text.{
  Text, trim_left, trim_right, trim_cons, trim_space, is_space, split, join, add_to_first, flip,
  compare_text, less, same, is_before,
}

-- A text whose first code point stays is its own left trim.
trim_left_idem : (p : ℕ → Bool) (s : Text) → trim_left p (trim_left p s) ≡ trim_left p s
unfolding trim_left
trim_left_idem p [] = refl
trim_left_idem p (c ∷ s) = elim (Bool-cases (p c)) [
  | inl h ↦ rw h (trim_left_idem p s)
  | inr h ↦ rw (h, h)
]

trim_right-cons :
    (p : ℕ → Bool) (c : ℕ) (r : Text)
    → trim_right p r ≡ r
    → trim_right p (trim_cons p c r) ≡ trim_cons p c r
unfolding trim_right
trim_right-cons p c [] h = elim (Bool-cases (p c)) [ inl e ↦ rw e | inr e ↦ rw (e, e) ]
trim_right-cons p c (d ∷ r) h = ap (trim_cons p c) h

trim_right_idem : (p : ℕ → Bool) (s : Text) → trim_right p (trim_right p s) ≡ trim_right p s
unfolding trim_right
trim_right_idem p [] = refl
trim_right_idem p (c ∷ s) = trim_right-cons p c (trim_right p s) (trim_right_idem p s)

trim_left-cons :
    (p : ℕ → Bool) (c : ℕ) (r : Text)
    → p c ≡ false
    → trim_left p (trim_cons p c r) ≡ trim_cons p c r
unfolding trim_left
trim_left-cons p c [] h = rw (h, h)
trim_left-cons p c (d ∷ r) h = rw h

-- Trimming on the right keeps a left-trimmed text left-trimmed.
trim_left-right :
    (p : ℕ → Bool) (s : Text)
    → trim_left p (trim_right p (trim_left p s)) ≡ trim_right p (trim_left p s)
unfolding trim_left trim_right
trim_left-right p [] = refl
trim_left-right p (c ∷ s) = elim (Bool-cases (p c)) [
  | inl h ↦ rw h (trim_left-right p s)
  | inr h ↦ rw h (trim_left-cons p c (trim_right p s) h)
]

pub trim_space_idem : (s : Text) → trim_space (trim_space s) ≡ trim_space s
unfolding trim_space
trim_space_idem s =
    ap (trim_right is_space) (trim_left-right is_space s)
    ∙ trim_right_idem is_space (trim_left is_space s)

pub compare_text-flip : (s t : Text) → compare_text t s ≡ flip (compare_text s t)
unfolding compare_text
compare_text-flip [] [] = refl
compare_text-flip [] (d ∷ t) = refl
compare_text-flip (c ∷ s) [] = refl
compare_text-flip (c ∷ s) (d ∷ t) = ground (arith, compare_text-flip s t)

pub compare_text-same : (s t : Text) → compare_text s t ≡ same → s ≡ t
unfolding compare_text
compare_text-same [] [] h = refl
compare_text-same [] (d ∷ t) h = cc
compare_text-same (c ∷ s) [] h = cc
compare_text-same (c ∷ s) (d ∷ t) h = ground (arith, compare_text-same s t)

pub compare_text_trans :
    (s t u : Text) → compare_text s t ≡ less → compare_text t u ≡ less → compare_text s u ≡ less
unfolding compare_text
compare_text_trans [] [] u h k = cc
compare_text_trans [] (d ∷ t) [] h k = cc
compare_text_trans [] (d ∷ t) (e ∷ u) h k = refl
compare_text_trans (c ∷ s) [] u h k = cc
compare_text_trans (c ∷ s) (d ∷ t) [] h k = cc
compare_text_trans (c ∷ s) (d ∷ t) (e ∷ u) h k = ground (arith, compare_text_trans s t u)

pub is_before_asym : (s t : Text) → is_before t s ≡ true → is_before s t ≡ false
is_before_asym s t h = ground (arith, compare_text-flip s t)

pub is_before_connect :
    (s t u : Text) → is_before t s ≡ false → is_before u t ≡ false → is_before u s ≡ false
unfolding compare_text
is_before_connect [] [] u h k = k
is_before_connect [] (d ∷ t) [] h k = refl
is_before_connect [] (d ∷ t) (e ∷ u) h k = refl
is_before_connect (c ∷ s) [] u h k = cc
is_before_connect (c ∷ s) (d ∷ t) [] h k = cc
is_before_connect (c ∷ s) (d ∷ t) (e ∷ u) h k = ground (arith, is_before_connect s t u)

join-add_to_first : (sep c : ℕ) (ps : List Text) → join sep (add_to_first c ps) ≡ c ∷ join sep ps
unfolding join
join-add_to_first sep c [] = refl
join-add_to_first sep c (p ∷ []) = refl
join-add_to_first sep c (p ∷ q ∷ ps) = refl

add_to_first-ne-nil : (c : ℕ) (ps : List Text) → add_to_first c ps ≢ []
add_to_first-ne-nil c [] h = cc
add_to_first-ne-nil c (p ∷ ps) h = cc

pub split-ne-nil : (sep : ℕ) (s : Text) → split sep s ≢ []
unfolding split
split-ne-nil sep [] = λ h. cc
split-ne-nil sep (c ∷ s) = elim (Bool-cases (c == sep)) [
  | inl e ↦ rw e (λ h. cc)
  | inr e ↦ rw e (add_to_first-ne-nil c (split sep s))
]

join-nil_cons : (sep : ℕ) (ps : List Text) → ps ≢ [] → join sep ([] ∷ ps) ≡ sep ∷ join sep ps
unfolding join
join-nil_cons sep [] h = absurd (h refl)
join-nil_cons sep (p ∷ ps) h = refl

pub join-split : (sep : ℕ) (s : Text) → join sep (split sep s) ≡ s
unfolding split
join-split sep [] = unfold join in refl
join-split sep (c ∷ s) = ground (
  arith,
  join-split sep s,
  join-nil_cons sep (split sep s),
  split-ne-nil sep s,
  join-add_to_first sep c (split sep s),
)

-- A text without white space is its own trim.
trim_right-plain : (s : Text) → All (λ c. is_space c ≡ false) s → trim_right is_space s ≡ s
unfolding trim_right
trim_right-plain [] h = refl
trim_right-plain (c ∷ []) (p, h) = rw p refl
trim_right-plain (c ∷ d ∷ s) (p, h) = rw (trim_right-plain (d ∷ s) h) refl

pub trim_space_plain : (s : Text) → All (λ c. is_space c ≡ false) s → trim_space s ≡ s
unfolding trim_space trim_left trim_right
trim_space_plain [] h = refl
trim_space_plain (c ∷ s) (p, h) = simp p (trim_right-plain (c ∷ s) (p, h))
