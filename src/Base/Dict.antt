-- ===== src/Base/Dict.antt =====
-- Go's `map`: an association list whose keys are compared by an instance of `Key`.
-- The code sorts or folds what it ranges over, so the order of entries carries no meaning.
use Prim.Native.Nat.{suc, ◌+◌, ◌≤◌}
use mathlib.Core.Path.{◌≡◌, refl, ap}
use mathlib.Core.Logic.{inl, inr}
use mathlib.Core.Bool.{Bool}
use mathlib.Core.Option.{Option, none, some}
use mathlib.Core.List.{List, [], ◌∷◌}
use native.Mathlib.Omega.{arith}
use rmtx.Base.Logic.{Key, is_key_self, Bool-cases, is_some, if◌then◌else◌}
use rmtx.Base.Lists.{length, keep, Member, All}

abbrev pub Dict : Type 0 → Type 0 → Type 0
Dict K V = List (K × V)

some_inj : {A : Type 0} (a b : A) → some a ≡ some b → a ≡ b
some_inj a b h = cc

module _ {K V : Type 0} ⦃e : Key K⦄ where
  unfoldable pub lookup : K → Dict K V → Option V
  lookup k [] = none
  lookup k ((j, v) ∷ m) = if e.is_key j k then some v else lookup k m

  -- m[k] = v
  unfoldable pub insert : K → V → Dict K V → Dict K V
  insert k v [] = (k, v) ∷ []
  insert k v ((j, w) ∷ m) = if e.is_key j k then (j, v) ∷ m else (j, w) ∷ insert k v m

  -- delete(m, k)
  unfoldable pub remove : K → Dict K V → Dict K V
  remove k [] = []
  remove k ((j, w) ∷ m) = let rest = remove k m in if e.is_key j k then rest else (j, w) ∷ rest

  -- The keys that `for k, v := range m { if drop(v) { delete(m, k) } }` leaves.
  unfoldable pub retain : (V → Bool) → Dict K V → Dict K V
  retain p [] = []
  retain p ((j, w) ∷ m) = keep (p w) (j, w) (retain p m)

  pub lookup-insert :
      (k j : K) (v : V) (m : Dict K V)
      → lookup j (insert k v m) ≡ (if e.is_key k j then some v else lookup j m)
  unfolding lookup insert
  lookup-insert k j v [] = refl
  lookup-insert k j v ((i, w) ∷ m) =
      ground (arith, e.is_key_iff k j, e.is_key_iff i k, e.is_key_iff i j, lookup-insert k j v m)

  pub lookup-remove :
      (k j : K) (m : Dict K V) → lookup j (remove k m) ≡ (if e.is_key k j then none else lookup j m)
  unfolding lookup remove
  lookup-remove k j [] = ground arith
  lookup-remove k j ((i, w) ∷ m) =
      ground (arith, e.is_key_iff k j, e.is_key_iff i k, e.is_key_iff i j, lookup-remove k j m)

  pub length-insert :
      (k : K) (v : V) (m : Dict K V)
      → length (insert k v m) ≡ length m + (if is_some (lookup k m) then 0 else 1)
  unfolding lookup insert
  length-insert k v [] = omega arith
  length-insert k v ((j, w) ∷ m) = ground (arith, length-insert k v m)

  pub length-retain : (p : V → Bool) (m : Dict K V) → length (retain p m) ≤ length m
  unfolding retain
  length-retain p [] = omega arith
  length-retain p ((j, w) ∷ m) = ground (arith, length-retain p m)

  -- No key twice, which is so of every map that `insert` built.
  abbrev pub Unique : Dict K V → Type 0
  Unique [] = Unit
  Unique ((j, v) ∷ m) = (lookup j m ≡ none) × Unique m

  pub Unique-insert : (k : K) (v : V) (m : Dict K V) → Unique m → Unique (insert k v m)
  unfolding insert
  Unique-insert k v [] u = (unfold lookup in refl, tt)
  Unique-insert k v ((j, w) ∷ m) (new, u) = elim (Bool-cases (e.is_key j k)) [
    | inl old ↦ rw old (new, u)
    | inr other ↦ rw other (
      ground (arith, lookup-insert k j v m, e.is_key_iff k j, e.is_key_iff j k),
      Unique-insert k v m u,
    )
  ]

  pub Unique-remove : (k : K) (m : Dict K V) → Unique m → Unique (remove k m)
  unfolding remove
  Unique-remove k [] u = tt
  Unique-remove k ((j, w) ∷ m) (new, u) = elim (Bool-cases (e.is_key j k)) [
    | inl old ↦ rw old (Unique-remove k m u)
    | inr other ↦ rw other (ground (arith, lookup-remove k j m), Unique-remove k m u)
  ]

  remove-none : (k : K) (m : Dict K V) → lookup k m ≡ none → remove k m ≡ m
  unfolding remove lookup
  remove-none k [] h = refl
  remove-none k ((j, w) ∷ m) h = ground (arith, remove-none k m)

  pub length-remove :
      (k : K) (v : V) (m : Dict K V)
      → Unique m
      → lookup k m ≡ some v
      → length m ≡ suc (length (remove k m))
  unfolding remove lookup
  length-remove k v [] u h = cc
  length-remove k v ((j, w) ∷ m) (new, u) h = elim (Bool-cases (e.is_key j k)) [
    | inl old ↦
        let same : j ≡ k = (e.is_key_iff j k).0 old in
        rw (old, remove-none k m (rw same at new)) refl
    | inr other ↦ ground (arith, length-remove k v m u)
  ]

  pub lookup-Member :
      (k : K) (v : V) (m : Dict K V) → Unique m → Member (k, v) m → lookup k m ≡ some v
  unfolding lookup
  lookup-Member k v [] u h = absurd h
  lookup-Member k v ((j, w) ∷ m) u (inl same) =
      rw (ap (λ e. e.0) same, ap (λ e. e.1) same, is_key_self j)
  lookup-Member k v ((j, w) ∷ m) (new, u) (inr h) =
      ground (arith, lookup-Member k v m u h, e.is_key_iff j k)

  pub All-insert :
      (P : K × V → Type 0) (k : K) (v : V) (m : Dict K V)
      → P (k, v)
      → All P m
      → All P (insert k v m)
  unfolding insert
  All-insert P k v [] new h = (new, tt)
  All-insert P k v ((j, w) ∷ m) new (p, h) = elim (Bool-cases (e.is_key j k)) [
    | inl old ↦ simp old (simp ((e.is_key_iff j k).0 old) new, h)
    | inr other ↦ simp other (p, All-insert P k v m new h)
  ]

  pub Member-lookup : (k : K) (v : V) (m : Dict K V) → lookup k m ≡ some v → Member (k, v) m
  unfolding lookup
  Member-lookup k v [] h = cc
  Member-lookup k v ((j, w) ∷ m) h = elim (Bool-cases (e.is_key j k)) [
    | inl old ↦
        let found : some w ≡ some v = simp old at h in
        inl (simp ((e.is_key_iff j k).0 old, some_inj w v found) refl)
    | inr other ↦ inr (Member-lookup k v m (simp other at h))
  ]
