-- ===== src/Config/Context/Accepted.antt =====
-- internal/config/config.go and internal/host/context_store.go: the host takes the id that a client
-- makes for its context.
use rmtx.Base.{
  ℕ, ◌<◌, ◌≡◌, refl, Bool, true, false, not, ◌&&◌, ◌||◌, List, [], ◌∷◌, ◌++◌, ok, All, All-append,
  All-take, All-weaken, all, take, Bool-cases, inl, inr, arith, ◌==◌,
}
use rmtx.Base.Text.{
  Text, is_empty, is_space, trim_cons, trim_left, trim_right, trim_space, is_ascii_lower,
  is_ascii_digit,
}
use rmtx.Base.Text.Laws.{trim_space_plain}
use rmtx.Syncfs.Hash.{hex_encode}
use rmtx.Syncfs.Hash.Digits.{IsHexDigit, hex_encode-IsHexDigit}
use rmtx.Config.Context.{
  Loaded, is_dash, slug_loop, trim_dashes, or_context, slug_of, slug, context_name,
  context_identity, context_id,
}
use rmtx.Host.Contexts.{is_context_rune, valid_context_id, checked_context_id, normalize_context_id}

-- What slugs and hexadecimal digits are made of.
IsSlugRune : ℕ → Type 0
IsSlugRune c = (is_ascii_lower c || is_ascii_digit c || c == b'-') ≡ true

slug_loop-All :
    (out : Text) (last_dash : Bool) (s : Text)
    → All IsSlugRune out
    → All IsSlugRune (slug_loop out last_dash s)
unfolding slug_loop IsSlugRune
slug_loop-All out last_dash [] h = h
slug_loop-All out last_dash (c ∷ s) h = elim (Bool-cases (is_ascii_lower c || is_ascii_digit c)) [
  | inl plain ↦ simp plain (
      slug_loop-All (out ++ (c ∷ [])) false s
        (All-append IsSlugRune out (c ∷ []) h (ground arith, tt)))
  | inr other ↦ elim (Bool-cases (not last_dash && not (is_empty out))) [
    | inl dash ↦
        simp (other, dash)
          (slug_loop-All (out ++ (b'-' ∷ [])) true s
            (All-append IsSlugRune out (b'-' ∷ []) h (refl, tt)))
    | inr skip ↦ simp (other, skip) (slug_loop-All out last_dash s h)
  ]
]

module _ (P : ℕ → Type 0) (p : ℕ → Bool) where
  trim_left-All : (s : Text) → All P s → All P (trim_left p s)
  unfolding trim_left
  trim_left-All [] h = tt
  trim_left-All (c ∷ s) (q, h) = elim (Bool-cases (p c)) [
    | inl y ↦ rw y (trim_left-All s h)
    | inr n ↦ rw n (q, h)
  ]

  trim_cons-All : (c : ℕ) (s : Text) → P c → All P s → All P (trim_cons p c s)
  trim_cons-All c [] q h = elim (Bool-cases (p c)) [ inl y ↦ rw y tt | inr n ↦ rw n (q, tt) ]
  trim_cons-All c (d ∷ s) q h = (q, h)

  trim_right-All : (s : Text) → All P s → All P (trim_right p s)
  unfolding trim_right
  trim_right-All [] h = tt
  trim_right-All (c ∷ s) (q, h) = trim_cons-All c (trim_right p s) q (trim_right-All s h)

or_context-All : (s : Text) → All IsSlugRune s → All IsSlugRune (or_context s)
unfolding IsSlugRune
or_context-All [] h = (refl, (refl, (refl, (refl, (refl, (refl, (refl, tt)))))))
or_context-All (c ∷ s) h = h

slug_of-All : (value : Text) → All IsSlugRune (slug_of value)
slug_of-All [] = tt
slug_of-All (c ∷ s) =
    let out = slug_loop [] false (c ∷ s) in
    or_context-All (trim_dashes out) (
      trim_right-All IsSlugRune is_dash (trim_left is_dash out)
        (trim_left-All IsSlugRune is_dash out (slug_loop-All [] false (c ∷ s) tt)))

hex-IsSlugRune : (c : ℕ) → IsHexDigit c → IsSlugRune c
unfolding IsSlugRune
hex-IsSlugRune c h = ground arith

sum-All : (bs : List ℕ) → All (λ b. b < 256) bs → All IsSlugRune (take 12 (hex_encode bs))
sum-All bs small = All-take IsSlugRune 12 (hex_encode bs) (
    All-weaken IsHexDigit IsSlugRune (hex_encode bs) hex-IsSlugRune
      (hex_encode-IsHexDigit bs small))

IsSlugRune-space : (c : ℕ) → IsSlugRune c → is_space c ≡ false
unfolding IsSlugRune is_space
IsSlugRune-space c h = ground arith

plain : (s : Text) → All IsSlugRune s → All (λ c. is_space c ≡ false) s
plain s = All-weaken IsSlugRune (λ c. is_space c ≡ false) s IsSlugRune-space

IsSlugRune-rune : (c : ℕ) → IsSlugRune c → is_context_rune c ≡ true
unfolding IsSlugRune
IsSlugRune-rune c h = ground arith

runes : (s : Text) → All IsSlugRune s → all is_context_rune s ≡ true
runes [] h = refl
runes (c ∷ s) (p, h) = rw (IsSlugRune-rune c p, runes s h) refl

IsSlugRune-dot : (c : ℕ) → IsSlugRune c → (c == b'.') ≡ false
unfolding IsSlugRune
IsSlugRune-dot c h = ground arith

checked_slug : (c : ℕ) (s : Text) → All IsSlugRune (c ∷ s) → checked_context_id (c ∷ s) ≡ ok (c ∷ s)
unfolding valid_context_id
checked_slug c s (p, h) =
    let no_dot = IsSlugRune-dot c p in
    let fits = rw no_dot at (runes (c ∷ s) (p, h)) in rw (no_dot, fits) refl

normalize_slug :
    (s t : Text)
    → All IsSlugRune (s ++ (b'-' ∷ t))
    → normalize_context_id (s ++ (b'-' ∷ t)) ≡ ok (s ++ (b'-' ∷ t))
unfolding normalize_context_id
normalize_slug [] t h =
    rw (trim_space_plain (b'-' ∷ t) (plain (b'-' ∷ t) h)) (checked_slug b'-' t h)
normalize_slug (c ∷ s) t h =
    let id = c ∷ (s ++ (b'-' ∷ t)) in
    rw (trim_space_plain id (plain id h)) (checked_slug c (s ++ (b'-' ∷ t)) h)

-- Whatever the project's name and path are: if the digest is made of bytes, the host's check of
-- context ids takes the id that ContextID makes, and leaves it as it is.
pub context_id-accepted :
    (to_lower base_name : Text → Text) (digest : Text → List ℕ)
    → ((s : Text) → All (λ b. b < 256) (digest s))
    → (l : Loaded)
    → normalize_context_id (context_id to_lower base_name digest l)
      ≡ ok (context_id to_lower base_name digest l)
unfolding context_id slug IsSlugRune
context_id-accepted to_lower base_name digest bytes l =
    let name =
      or_context (slug to_lower base_name digest (context_name to_lower base_name digest l)) in
    let sum = take 12 (hex_encode (digest (context_identity to_lower base_name digest l))) in
    let sum_ok =
      sum-All (digest (context_identity to_lower base_name digest l))
        (bytes (context_identity to_lower base_name digest l)) in
    normalize_slug name sum (
      All-append IsSlugRune name (b'-' ∷ sum)
        (or_context-All (slug to_lower base_name digest (context_name to_lower base_name digest l))
          (slug_of-All (trim_space (to_lower (context_name to_lower base_name digest l)))))
        (refl, sum_ok))
