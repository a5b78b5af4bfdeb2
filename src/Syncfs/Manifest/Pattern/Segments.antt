-- ===== src/Syncfs/Manifest/Pattern/Segments.antt =====
-- internal/syncfs/manifest.go: `matchSegments` against the meaning of a pattern.
use rmtx.Base.{
  ◌≡◌, ◌↔◌, inl, inr, refl, Bool, true, false, ◌||◌, Option, none, some, List, [], ◌∷◌, Bool-cases,
  arith,
}
use rmtx.Base.Text.{Text, text_beq}
use rmtx.Syncfs.Manifest.Pattern.{is_nil, any_suffix, is_match, match_segments, glob_all}

module _ (path_match : Text → Text → Option Bool) where
  -- `**` stands for any number of segments, and any other segment for one that it matches.
  pub data Matches : List Text → List Text → Type 0 where
    done : Matches [] []
    skip :
        (p : Text) (pattern candidate : List Text)
        → text_beq p glob_all ≡ true
        → Matches pattern candidate
        → Matches (p ∷ pattern) candidate
    more :
        (p c : Text) (pattern candidate : List Text)
        → text_beq p glob_all ≡ true
        → Matches (p ∷ pattern) candidate
        → Matches (p ∷ pattern) (c ∷ candidate)
    one :
        (p c : Text) (pattern candidate : List Text)
        → text_beq p glob_all ≡ false
        → path_match p c ≡ some true
        → Matches pattern candidate
        → Matches (p ∷ pattern) (c ∷ candidate)

  all_Matches :
      (p : Text) (candidate : List Text) → text_beq p glob_all ≡ true → Matches (p ∷ []) candidate
  all_Matches p [] e = skip p [] [] e done
  all_Matches p (c ∷ candidate) e = more p c [] candidate e (all_Matches p candidate e)

  any_suffix-Matches :
      (p : Text) (pattern candidate : List Text)
      → text_beq p glob_all ≡ true
      → ((rest : List Text) → match_segments path_match pattern rest ≡ true → Matches pattern rest)
      → any_suffix (match_segments path_match pattern) candidate ≡ true
      → Matches (p ∷ pattern) candidate
  any_suffix-Matches p pattern [] e sound h = skip p pattern [] e (sound [] h)
  any_suffix-Matches p pattern (c ∷ candidate) e sound h =
      elim (Bool-cases (match_segments path_match pattern (c ∷ candidate))) [
        | inl here ↦ skip p pattern (c ∷ candidate) e (sound (c ∷ candidate) here)
        | inr there ↦
            more p c pattern candidate e
              (any_suffix-Matches p pattern candidate e sound (simp there at h))
      ]

  globstar-Matches :
      (p : Text) (pattern candidate : List Text)
      → text_beq p glob_all ≡ true
      → ((rest : List Text) → match_segments path_match pattern rest ≡ true → Matches pattern rest)
      → (is_nil pattern || any_suffix (match_segments path_match pattern) candidate) ≡ true
      → Matches (p ∷ pattern) candidate
  globstar-Matches p [] candidate e sound h = all_Matches p candidate e
  globstar-Matches p (q ∷ pattern) candidate e sound h =
      any_suffix-Matches p (q ∷ pattern) candidate e sound h

  one-Matches :
      (p c : Text) (pattern candidate : List Text)
      → text_beq p glob_all ≡ false
      → ((rest : List Text) → match_segments path_match pattern rest ≡ true → Matches pattern rest)
      → (o : Option Bool) → path_match p c ≡ o
      → is_match o ≡ true
      → match_segments path_match pattern candidate ≡ true
      → Matches (p ∷ pattern) (c ∷ candidate)
  one-Matches p c pattern candidate e sound none same h k = cc
  one-Matches p c pattern candidate e sound (some true) same h k =
      one p c pattern candidate e same (sound candidate k)
  one-Matches p c pattern candidate e sound (some false) same h k = cc

  sound :
      (pattern candidate : List Text)
      → match_segments path_match pattern candidate ≡ true
      → Matches pattern candidate
  unfolding match_segments
  sound [] [] h = done
  sound [] (c ∷ candidate) h = cc
  sound (p ∷ pattern) [] h = elim (Bool-cases (text_beq p glob_all)) [
    | inl e ↦ globstar-Matches p pattern [] e (λ rest k. sound pattern rest k) (simp e at h)
    | inr e ↦ absurd (ground arith)
  ]
  sound (p ∷ pattern) (c ∷ candidate) h = elim (Bool-cases (text_beq p glob_all)) [
    | inl e ↦
        globstar-Matches p pattern (c ∷ candidate) e (λ rest k. sound pattern rest k) (simp e at h)
    | inr e ↦
        one-Matches p c pattern candidate e (λ rest k. sound pattern rest k) (path_match p c) refl
          (ground arith) (ground arith)
  ]

  complete :
      (pattern candidate : List Text)
      → Matches pattern candidate
      → match_segments path_match pattern candidate ≡ true
  unfolding match_segments
  complete _ _ done = refl
  complete _ _ (skip p pattern [] e m) = simp e (ground (arith, complete pattern [] m))
  complete _ _ (skip p pattern (c ∷ candidate) e m) =
      simp e (ground (arith, complete pattern (c ∷ candidate) m))
  complete _ _ (more p c pattern [] e m) = ground (arith, complete (p ∷ pattern) [] m)
  complete _ _ (more p c pattern (d ∷ candidate) e m) =
      ground (arith, complete (p ∷ pattern) (d ∷ candidate) m)
  complete _ _ (one p c pattern candidate e k m) = ground (arith, complete pattern candidate m)

  -- `matchSegments` says yes if and only if the segments of the path can be dealt out, in order, to
  -- the segments of the pattern: any number of them to each `**`, and to each other one exactly one
  -- that `path.Match` accepts.
  pub match_segments_iff :
      (pattern candidate : List Text)
      → (match_segments path_match pattern candidate ≡ true) ↔ Matches pattern candidate
  match_segments_iff pattern candidate = (sound pattern candidate, complete pattern candidate)
