-- ===== src/Base/Path/Clean.antt =====
-- What filepath.Clean and filepath.IsLocal leave: a local path that was cleaned has no segment that
-- leads elsewhere.
use mathlib.Core.Path.{◌≡◌, refl, ap, ◌∙◌}
use mathlib.Core.Logic.{◌⊎◌, inl, inr}
use mathlib.Core.Bool.{true, false, ◌||◌}
use mathlib.Core.List.{List, [], ◌∷◌}
use native.Mathlib.Omega.{arith}
use rmtx.Base.Logic.{Bool-cases}
use rmtx.Base.Lists.{All, any}
use rmtx.Base.Text.{Text, text_beq, is_empty, split, join, has_prefix}
use rmtx.Base.Path.{
  slash, dot, dots, is_rooted, backtrack, push, walk, reverse_onto, or_dot, clean, has_dots,
  leads_out, is_local,
}
use rmtx.Base.Path.Segments.{NoSlash, split-NoSlash, split-join}

-- A segment that names something in its directory.
abbrev pub Plain : Text → Type 0
Plain segment =
    (is_empty segment ≡ false)
    × (text_beq segment dot ≡ false)
    × (text_beq segment dots ≡ false)
    × NoSlash segment

-- A way out that stands first on the path stands last on the stack.
abbrev LastDots : List Text → Type 0
LastDots [] = ⊥
LastDots (s ∷ []) = s ≡ dots
LastDots (s ∷ t ∷ stack) = LastDots (t ∷ stack)

LastDots-cons : (s : Text) (stack : List Text) → LastDots stack → LastDots (s ∷ stack)
LastDots-cons s [] h = absurd h
LastDots-cons s (t ∷ stack) h = h

backtrack-LastDots : (stack : List Text) → LastDots stack → LastDots (backtrack false stack)
backtrack-LastDots [] h = absurd h
backtrack-LastDots (top ∷ []) h = simp h refl
backtrack-LastDots (top ∷ t ∷ stack) h = elim (Bool-cases (text_beq top dots)) [
  | inl e ↦ simp e h
  | inr e ↦ simp e h
]

push-LastDots : (s : Text) (stack : List Text) → LastDots stack → LastDots (push false s stack)
push-LastDots s stack h = elim (Bool-cases (is_empty s || text_beq s dot)) [
  | inl skip ↦ simp skip h
  | inr name ↦ elim (Bool-cases (text_beq s dots)) [
    | inl e ↦ simp (name, e) (backtrack-LastDots stack h)
    | inr e ↦ simp (name, e) (LastDots-cons s stack h)
  ]
]

walk-LastDots : (segments stack : List Text) → LastDots stack → LastDots (walk false segments stack)
unfolding walk
walk-LastDots [] stack h = h
walk-LastDots (s ∷ segments) stack h =
    walk-LastDots segments (push false s stack) (push-LastDots s stack h)

backtrack-Plain :
    (stack : List Text)
    → All Plain stack
    → All Plain (backtrack false stack) ⊎ LastDots (backtrack false stack)
backtrack-Plain [] h = inr refl
backtrack-Plain (top ∷ stack) (p, h) = simp p.2 (inl h)

push-Plain :
    (s : Text) (stack : List Text)
    → NoSlash s
    → All Plain stack
    → All Plain (push false s stack) ⊎ LastDots (push false s stack)
push-Plain s stack n h = elim (Bool-cases (is_empty s || text_beq s dot)) [
  | inl skip ↦ simp skip (inl h)
  | inr name ↦ elim (Bool-cases (text_beq s dots)) [
    | inl e ↦ simp (name, e) (backtrack-Plain stack h)
    | inr e ↦ simp (name, e) (inl ((ground arith, ground arith, refl, n), h))
  ]
]

-- What is left are names alone, or the path leads out.
walk-Plain :
    (segments stack : List Text)
    → All NoSlash segments
    → All Plain stack
    → All Plain (walk false segments stack) ⊎ LastDots (walk false segments stack)
unfolding walk
walk-Plain [] stack n h = inl h
walk-Plain (s ∷ segments) stack (ns, n) h = elim (push-Plain s stack ns h) [
  | inl plain ↦ walk-Plain segments (push false s stack) n plain
  | inr out ↦ inr (walk-LastDots segments (push false s stack) out)
]

LastDots-first :
    (stack out : List Text)
    → LastDots stack
    → (rest : List Text) × (reverse_onto stack out ≡ dots ∷ rest)
LastDots-first [] out h = absurd h
LastDots-first (s ∷ []) out h = (out, ap (λ t. t ∷ out) h)
LastDots-first (s ∷ t ∷ stack) out h = LastDots-first (t ∷ stack) (s ∷ out) h

leads_out-join : (rest : List Text) → leads_out (or_dot (join slash (dots ∷ rest))) ≡ true
unfolding join has_prefix
leads_out-join [] = refl
leads_out-join (q ∷ rest) = refl

split-out :
    (rest : List Text)
    → (segments : List Text) × (split slash (join slash (dots ∷ rest)) ≡ dots ∷ segments)
unfolding split join
split-out [] = ([], refl)
split-out (q ∷ rest) = (split slash (join slash (q ∷ rest)), refl)

pub clean-unrooted :
    (path : Text)
    → is_rooted path ≡ false
    → clean path ≡ or_dot (join slash (reverse_onto (walk false (split slash path) []) []))
unfolding clean
clean-unrooted path h = simp h refl

out_unrooted :
    (rest : List Text)
    → (is_rooted (join slash (dots ∷ rest)) ≡ false) × (is_empty (join slash (dots ∷ rest)) ≡ false)
unfolding join
out_unrooted [] = (refl, refl)
out_unrooted (q ∷ rest) = (refl, refl)

clean-out : (rest : List Text) → leads_out (clean (join slash (dots ∷ rest))) ≡ true
unfolding walk
clean-out rest =
    let cut = split-out rest in
    let first =
      LastDots-first (walk false cut.0 (dots ∷ [])) [] (walk-LastDots cut.0 (dots ∷ []) refl) in
    ap leads_out (
      clean-unrooted (join slash (dots ∷ rest)) (out_unrooted rest).0
      ∙ ap (λ ss. or_dot (join slash (reverse_onto (walk false ss []) []))) cut.1
      ∙ ap (λ ss. or_dot (join slash ss)) first.1)
    ∙ leads_out-join first.0

has_dots-out : (rest : List Text) → has_dots (join slash (dots ∷ rest)) ≡ true
has_dots-out rest =
    ap (any (λ segment. text_beq segment dot || text_beq segment dots)) (split-out rest).1

-- A path that leads out is not local.
not_local : (rest : List Text) → is_local (join slash (dots ∷ rest)) ≡ false
unfolding is_local
not_local rest =
    simp ((out_unrooted rest).0, (out_unrooted rest).1, has_dots-out rest, clean-out rest) refl

-- `.`, or nothing but names from the directory down.
abbrev pub IsInside : Text → Type 0
IsInside path = (path ≡ dot) ⊎ All Plain (split slash path)

reverse_onto-All :
    (P : Text → Type 0) (stack out : List Text)
    → All P stack
    → All P out
    → All P (reverse_onto stack out)
reverse_onto-All P [] out h k = k
reverse_onto-All P (s ∷ stack) out (p, h) k = reverse_onto-All P stack (s ∷ out) h (p, k)

Plain-NoSlash : (segments : List Text) → All Plain segments → All NoSlash segments
Plain-NoSlash [] h = tt
Plain-NoSlash (s ∷ segments) (p, h) = (p.3, Plain-NoSlash segments h)

or_dot-Plain :
    (s : Text) (segments : List Text)
    → Plain s
    → or_dot (join slash (s ∷ segments)) ≡ join slash (s ∷ segments)
unfolding join
or_dot-Plain [] segments p = absurd (ground arith)
or_dot-Plain (c ∷ s) [] p = refl
or_dot-Plain (c ∷ s) (t ∷ segments) p = refl

join-IsInside :
    (segments : List Text) → All Plain segments → IsInside (or_dot (join slash segments))
join-IsInside [] h = unfold join in inl refl
join-IsInside (s ∷ segments) (p, h) = inr (
    rw (or_dot-Plain s segments p ∙ refl, split-join s segments p.3 (Plain-NoSlash segments h))
      (p, h))

or_dot-dots : (rest : List Text) → or_dot (join slash (dots ∷ rest)) ≡ join slash (dots ∷ rest)
unfolding join
or_dot-dots [] = refl
or_dot-dots (q ∷ rest) = refl

clean-rooted : (path : Text) → is_rooted path ≡ true → is_local (clean path) ≡ false
unfolding clean is_local
clean-rooted path h = simp h refl

-- A path that is local after it was cleaned stays inside.
pub clean-IsInside : (path : Text) → is_local (clean path) ≡ true → IsInside (clean path)
clean-IsInside path h = elim (Bool-cases (is_rooted path)) [
  | inl rooted ↦ absurd (let refused = clean-rooted path rooted in cc)
  | inr relative ↦
      let stack = walk false (split slash path) [] in
      elim (walk-Plain (split slash path) [] (split-NoSlash path) tt) [
        | inl plain ↦
            rw (clean-unrooted path relative)
              (join-IsInside (reverse_onto stack []) (reverse_onto-All Plain stack [] plain tt))
        | inr out ↦ absurd (
            let first = LastDots-first stack [] out in
            let there =
              clean-unrooted path relative
              ∙ ap (λ ss. or_dot (join slash ss)) first.1
              ∙ or_dot-dots first.0 in
            let refused = not_local first.0 in let same = ap is_local there in cc)
      ]
]
