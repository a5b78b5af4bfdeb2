-- ===== src/Base/Pigeonhole.antt =====
-- Keys of a map that are all of a list, and as many, are all that the list has.
use Prim.Native.Nat.{suc, ◌≤◌}
use mathlib.Core.Path.{◌≡◌, refl, ap}
use mathlib.Core.Logic.{inl, inr, ◌≢◌}
use mathlib.Core.Bool.{true}
use mathlib.Core.Option.{none}
use mathlib.Core.List.{List, [], ◌∷◌}
use native.Mathlib.Omega.{arith}
use rmtx.Base.Logic.{Key, Bool-cases, Option-cases, is_some}
use rmtx.Base.Lists.{length, Member, All}
use rmtx.Base.Dict.{Dict, lookup, Unique}

module _ {K : Type 0} where
  -- A list without one of its members.
  abbrev Without : K → List K → Type 0
  Without k ks =
      (rest : List K) × (length ks ≡ suc (length rest))
      × ((j : K) → j ≢ k → Member j ks → Member j rest)

  without : (k : K) (ks : List K) → Member k ks → Without k ks
  without k [] m = absurd m
  without k (x ∷ ks) (inl same) =
      (ks, refl, λ j other there. elim there [ inl at_head ↦ absurd (other (cc)) | inr m ↦ m ])
  without k (x ∷ ks) (inr m) =
      let (rest, size, keep_others) = without k ks m in
      (
        x ∷ rest,
        ap suc size,
        λ j other there. elim there [
          | inl at_head ↦ inl at_head
          | inr n ↦ inr (keep_others j other n)
        ],
      )

module _ {K V : Type 0} ⦃e : Key K⦄ where
  abbrev pub KeysIn : Dict K V → List K → Type 0
  KeysIn m ks = All (λ entry. Member entry.0 ks) m

  -- Keys other than one stay where that one was taken away.
  KeysIn-without :
      (k : K) (m : Dict K V) (ks rest : List K)
      → ((j : K) → j ≢ k → Member j ks → Member j rest)
      → lookup k m ≡ none
      → KeysIn m ks
      → KeysIn m rest
  unfolding lookup
  KeysIn-without k [] ks rest f absent h = tt
  KeysIn-without k ((j, v) ∷ m) ks rest f absent (mj, h) = elim (Bool-cases (e.is_key j k)) [
    | inl same ↦ absurd (ground arith)
    | inr other ↦ (
      f j (λ same. ground (arith, e.is_key_iff j k)) mj,
      KeysIn-without k m ks rest f (simp other at absent) h,
    )
  ]

  length_within : (m : Dict K V) (ks : List K) → Unique m → KeysIn m ks → length m ≤ length ks
  length_within [] ks u h = omega arith
  length_within ((k, v) ∷ m) ks (new, u) (mk, h) =
      let (rest, size, others) = without k ks mk in
      omega (arith, size, length_within m rest u (KeysIn-without k m ks rest others new h))

  pub all_taken :
      (m : Dict K V) (ks : List K)
      → Unique m
      → KeysIn m ks
      → length ks ≤ length m
      → (k : K) → Member k ks
      → is_some (lookup k m) ≡ true
  all_taken m ks u h many k mk = elim (Option-cases (lookup k m)) [
    | inr (v, found) ↦ simp found refl
    | inl absent ↦ absurd (
        let (rest, size, others) = without k ks mk in
        let few = length_within m rest u (KeysIn-without k m ks rest others absent h) in
        omega arith)
  ]
