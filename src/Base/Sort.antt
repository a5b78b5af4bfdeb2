-- ===== src/Base/Sort.antt =====
-- sort.Slice as an insertion sort. Go's sort is not stable: what is proved of `sort_by` (the same
-- elements, in order) is what every sort gives.
use mathlib.Core.Path.{◌≡◌}
use mathlib.Core.Logic.{◌⊎◌, inl, inr}
use mathlib.Core.Bool.{Bool, true, false}
use mathlib.Core.List.{List, [], ◌∷◌}
use rmtx.Base.Logic.{Bool-cases, if◌then◌else◌}
use rmtx.Base.Lists.{All, Member, All-Member, All-members}

module _ {A : Type 0} (less : A → A → Bool) where
  unfoldable pub insert_by : A → List A → List A
  insert_by x [] = x ∷ []
  insert_by x (y ∷ ys) = let rest = insert_by x ys in if less y x then y ∷ rest else x ∷ y ∷ ys

  unfoldable pub sort_by : List A → List A
  sort_by [] = []
  sort_by (x ∷ xs) = insert_by x (sort_by xs)

  -- Nothing that comes later belongs before what comes earlier.
  abbrev pub Sorted : List A → Type 0
  Sorted [] = Unit
  Sorted (x ∷ xs) = All (λ y. less y x ≡ false) xs × Sorted xs

  All-insert_by : (P : A → Type 0) (x : A) (ys : List A) → P x → All P ys → All P (insert_by x ys)
  unfolding insert_by
  All-insert_by P x [] px h = (px, tt)
  All-insert_by P x (y ∷ ys) px (py, h) = elim (Bool-cases (less y x)) [
    | inl e ↦ rw e (py, All-insert_by P x ys px h)
    | inr e ↦ rw e (px, (py, h))
  ]

  pub All-sort_by : (P : A → Type 0) (xs : List A) → All P xs → All P (sort_by xs)
  unfolding sort_by
  All-sort_by P [] h = tt
  All-sort_by P (x ∷ xs) (px, h) = All-insert_by P x (sort_by xs) px (All-sort_by P xs h)

  Member-insert_by : (a x : A) (ys : List A) → (a ≡ x) ⊎ Member a ys → Member a (insert_by x ys)
  unfolding insert_by
  Member-insert_by a x [] h = h
  Member-insert_by a x (y ∷ ys) h = elim (Bool-cases (less y x)) [
    | inl e ↦ rw e (elim h [
      | inl p ↦ inr (Member-insert_by a x ys (inl p))
      | inr (inl p) ↦ inl p
      | inr (inr m) ↦ inr (Member-insert_by a x ys (inr m))
    ])
    | inr e ↦ rw e h
  ]

  pub Member-sort_by : (a : A) (xs : List A) → Member a xs → Member a (sort_by xs)
  unfolding sort_by
  Member-sort_by a [] h = h
  Member-sort_by a (x ∷ xs) (inl p) = Member-insert_by a x (sort_by xs) (inl p)
  Member-sort_by a (x ∷ xs) (inr m) =
      Member-insert_by a x (sort_by xs) (inr (Member-sort_by a xs m))

  module _ (asym : (x y : A) → less y x ≡ true → less x y ≡ false)
      (connect : (x y z : A) → less y x ≡ false → less z y ≡ false → less z x ≡ false) where
    weaken :
        (x y : A) (zs : List A)
        → less y x ≡ false
        → All (λ z. less z y ≡ false) zs
        → All (λ z. less z x ≡ false) zs
    weaken x y [] e h = tt
    weaken x y (z ∷ zs) e (p, h) = (connect x y z e p, weaken x y zs e h)

    Sorted-insert_by : (x : A) (ys : List A) → Sorted ys → Sorted (insert_by x ys)
    unfolding insert_by
    Sorted-insert_by x [] h = (tt, tt)
    Sorted-insert_by x (y ∷ ys) (p, h) = elim (Bool-cases (less y x)) [
      | inl e ↦
          rw e (All-insert_by (λ z. less z y ≡ false) x ys (asym x y e) p, Sorted-insert_by x ys h)
      | inr e ↦ rw e ((e, weaken x y ys e p), (p, h))
    ]

    pub sort_by-Sorted : (xs : List A) → Sorted (sort_by xs)
    unfolding sort_by
    sort_by-Sorted [] = tt
    sort_by-Sorted (x ∷ xs) = Sorted-insert_by x (sort_by xs) (sort_by-Sorted xs)

  pub sort_by-Member : (a : A) (xs : List A) → Member a (sort_by xs) → Member a xs
  sort_by-Member a xs h =
      All-Member (λ x. Member x xs) a (sort_by xs)
        (All-sort_by (λ x. Member x xs) xs (All-members (λ x. Member x xs) xs (λ x m. m))) h
