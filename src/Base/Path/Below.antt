-- ===== src/Base/Path/Below.antt =====
-- What a rooted path without a way up names below another path.
use mathlib.Core.Path.{◌≡◌, refl, ap, ◌∙◌}
use mathlib.Core.Logic.{inl, inr}
use mathlib.Core.Bool.{true, false}
use mathlib.Core.List.{List, [], ◌∷◌, ◌++◌, append-nil}
use rmtx.Base.Logic.{Bool-cases}
use rmtx.Base.Lists.{All, any}
use rmtx.Base.Text.{Text, text_beq, is_empty, split, join}
use rmtx.Base.Path.{slash, dot, dots, push, walk, reverse_onto, clean}
use rmtx.Base.Path.Clean.{Plain}
use rmtx.Base.Path.Parents.{AllPlain, reverse_onto-twice}
use rmtx.Base.Path.Segments.{NoSlash, split-NoSlash, split-append}

-- Without a .. among the segments, cleaning only leaves segments out, whatever stands before them.
walk-Plain :
    (segments : List Text)
    → All NoSlash segments
    → any (λ segment. text_beq segment dots) segments ≡ false
    → (names : List Text) × All Plain names
      × ((stack : List Text) → walk true segments stack ≡ reverse_onto names stack)
unfolding walk
walk-Plain [] bare up = ([], tt, λ stack. refl)
walk-Plain (s ∷ segments) (b, bare) up = elim (Bool-cases (text_beq s dots)) [
  | inl y ↦ let bad = simp y at up in cc
  | inr n ↦
      let (names, plain, same) = walk-Plain segments bare (simp n at up) in
      elim (Bool-cases (is_empty s)) [
        | inl e ↦ (names, plain, λ stack. simp e (same stack))
        | inr e ↦ elim (Bool-cases (text_beq s dot)) [
          | inl d ↦ (names, plain, λ stack. simp (e, d) (same stack))
          | inr d ↦ (s ∷ names, ((e, d, n, b), plain), λ stack. simp (e, d, n) (same (s ∷ stack)))
        ]
      ]
]

push-Plain : (s : Text) (stack : List Text) → Plain s → push true s stack ≡ s ∷ stack
push-Plain s stack p = simp (p.0, p.1, p.2) refl

walk-append :
    (names rest stack : List Text)
    → All Plain names
    → walk true (names ++ rest) stack ≡ walk true rest (reverse_onto names stack)
unfolding walk
walk-append [] rest stack h = refl
walk-append (s ∷ names) rest stack (p, h) =
    ap (walk true (names ++ rest)) (push-Plain s stack p) ∙ walk-append names rest (s ∷ stack) h

clean-rooted :
    (path : Text)
    → clean (slash ∷ path) ≡ slash ∷ join slash (reverse_onto (walk true (split slash path) []) [])
unfolding clean split walk
clean-rooted path = refl

-- A rooted path put behind another one stays below it, unless it has a .. among its segments.
pub clean-below :
    (base rest : Text)
    → AllPlain base
    → any (λ segment. text_beq segment dots) (split slash rest) ≡ false
    → (names : List Text) × All Plain names
      × (clean (slash ∷ (base ++ (slash ∷ rest))) ≡ slash ∷ join slash (split slash base ++ names))
clean-below base rest h up =
    let (names, plain, same) = walk-Plain (split slash rest) (split-NoSlash rest) up in
    let base_names = split slash base in
    let all_names = reverse_onto base_names [] in
    (
      names,
      plain,
      clean-rooted (base ++ (slash ∷ rest))
          ∙ ap (λ ss. slash ∷ join slash (reverse_onto (walk true ss []) []))
              (split-append base rest)
          ∙ ap (λ ss. slash ∷ join slash (reverse_onto ss []))
              (walk-append base_names (split slash rest) [] h ∙ same all_names)
          ∙ ap (λ ss. slash ∷ join slash ss)
              (reverse_onto-twice names all_names []
                ∙ ap (reverse_onto all_names) (append-nil names)
                ∙ reverse_onto-twice base_names [] names),
    )
