-- ===== src/Host/Leases/Exclusion.antt =====
-- Runs and deletions of a lease exclude each other, in every order of the calls.
use rmtx.Base.{
  ℕ, ◌+◌, ◌-◌, ◌≡◌, ◌<◌, min, refl, Bool, true, false, List, [], ◌∷◌, ok, arith, if◌then◌else◌,
  Bool-cases, inl, inr,
}
use rmtx.Base.Dict.{lookup, lookup-insert, lookup-remove}
use rmtx.Base.Text.{Text, text_beq, text_beq_iff, text_key}
use rmtx.Host.Leases.{
  LeaseLocks, no_leases, active_count, is_deleting, acquire_key, release_key, begin_delete,
  end_delete,
}

abbrev pub one : Bool → ℕ
one true = 1
one false = 0

-- How often a key is held, and one hold less.
abbrev pub count : Text → List Text → ℕ
count key [] = 0
count key (k ∷ ks) = one (text_beq k key) + count key ks

abbrev pub drop_one : Text → List Text → List Text
drop_one key [] = []
drop_one key (k ∷ ks) = let rest = drop_one key ks in if text_beq k key then ks else k ∷ rest

-- What calls of any number of runs and deletions, one after the other, make of the locks: the locks
-- with the keys that runs hold and the keys that are being deleted. Each function that an operation
-- returned is called at most once.
pub data Reaches : LeaseLocks → List Text → List Text → Type 0 where
  start : Reaches no_leases [] []
  acquired :
      {l l' : LeaseLocks} {runs deletes : List Text} (key : Text)
      → Reaches l runs deletes
      → acquire_key key l ≡ ok l'
      → Reaches l' (key ∷ runs) deletes
  released :
      {l : LeaseLocks} {runs deletes : List Text} (key : Text)
      → Reaches l runs deletes
      → 0 < count key runs
      → Reaches (release_key key l) (drop_one key runs) deletes
  began :
      {l l' : LeaseLocks} {runs deletes : List Text} (key : Text)
      → Reaches l runs deletes
      → begin_delete key l ≡ ok l'
      → Reaches l' runs (key ∷ deletes)
  ended :
      {l : LeaseLocks} {runs deletes : List Text} (key : Text)
      → Reaches l runs deletes
      → 0 < count key deletes
      → Reaches (end_delete key l) runs (drop_one key deletes)

count-drop_one :
    (key k : Text) (ks : List Text)
    → 0 < count key ks
    → count k (drop_one key ks) + one (text_beq key k) ≡ count k ks
count-drop_one key k [] h = absurd (omega arith)
count-drop_one key k (j ∷ ks) h = elim (Bool-cases (text_beq j key)) [
  | inl own ↦ ground (arith, (text_beq_iff j key).0 own)
  | inr other ↦ ground (arith, count-drop_one key k ks)
]

-- The locks agree with who holds what.
pub record Agrees (l : LeaseLocks) (runs deletes : List Text) : Type 0 where
  pub active_is : (k : Text) → active_count k l ≡ count k runs
  pub deleting_is : (k : Text) → count k deletes ≡ one (is_deleting k l)
  pub exclusive : (k : Text) → is_deleting k l ≡ true → active_count k l ≡ 0

acquired-Agrees :
    (key : Text) (l l' : LeaseLocks) (runs deletes : List Text)
    → Agrees l runs deletes
    → acquire_key key l ≡ ok l'
    → Agrees l' (key ∷ runs) deletes
unfolding acquire_key
acquired-Agrees key l l' runs deletes v h = record {
  active_is = λ k. ground (
    arith,
    v.active_is k,
    v.active_is key,
    lookup-insert key k (active_count key l + 1) l.active,
    text_beq_iff key k,
  );
  deleting_is = λ k. ground (arith, v.deleting_is k);
  exclusive = λ k d. ground (
    arith,
    v.exclusive k,
    lookup-insert key k (active_count key l + 1) l.active,
    text_beq_iff key k,
  );
}

released-Agrees :
    (key : Text) (l : LeaseLocks) (runs deletes : List Text)
    → Agrees l runs deletes
    → 0 < count key runs
    → Agrees (release_key key l) (drop_one key runs) deletes
unfolding release_key
released-Agrees key l runs deletes v h = record {
  active_is = λ k. ground (
    arith,
    v.active_is k,
    v.active_is key,
    count-drop_one key k runs h,
    lookup-remove key k l.active,
    lookup-insert key k (active_count key l - 1) l.active,
    text_beq_iff key k,
  );
  deleting_is = v.deleting_is;
  exclusive = λ k d. ground (
    arith,
    v.exclusive k,
    lookup-remove key k l.active,
    lookup-insert key k (active_count key l - 1) l.active,
    text_beq_iff key k,
  );
}

began-Agrees :
    (key : Text) (l l' : LeaseLocks) (runs deletes : List Text)
    → Agrees l runs deletes
    → begin_delete key l ≡ ok l'
    → Agrees l' runs (key ∷ deletes)
unfolding begin_delete
began-Agrees key l l' runs deletes v h = record {
  active_is = λ k. ground (arith, v.active_is k);
  deleting_is =
      λ k. ground (arith, v.deleting_is k, lookup-insert key k true l.deleting, text_beq_iff key k);
  exclusive =
      λ k d. ground (arith, v.exclusive k, lookup-insert key k true l.deleting, text_beq_iff key k);
}

ended-Agrees :
    (key : Text) (l : LeaseLocks) (runs deletes : List Text)
    → Agrees l runs deletes
    → 0 < count key deletes
    → Agrees (end_delete key l) runs (drop_one key deletes)
unfolding end_delete
ended-Agrees key l runs deletes v h = record {
  active_is = v.active_is;
  deleting_is = λ k. ground (
    arith,
    v.deleting_is k,
    v.deleting_is key,
    count-drop_one key k deletes h,
    lookup-remove key k l.deleting,
    text_beq_iff key k,
  );
  exclusive = λ k d. ground (arith, v.exclusive k, lookup-remove key k l.deleting);
}

Reaches-Agrees :
    (l : LeaseLocks) (runs deletes : List Text) → Reaches l runs deletes → Agrees l runs deletes
unfolding lookup
Reaches-Agrees l runs deletes start = record {
  active_is = λ k. refl;
  deleting_is = λ k. refl;
  exclusive = λ k d. refl;
}
Reaches-Agrees l runs deletes (acquired key r h) =
    acquired-Agrees key _ _ _ _ (Reaches-Agrees _ _ _ r) h
Reaches-Agrees l runs deletes (released key r h) =
    released-Agrees key _ _ _ (Reaches-Agrees _ _ _ r) h
Reaches-Agrees l runs deletes (began key r h) = began-Agrees key _ _ _ _ (Reaches-Agrees _ _ _ r) h
Reaches-Agrees l runs deletes (ended key r h) = ended-Agrees key _ _ _ (Reaches-Agrees _ _ _ r) h

-- However runs and deletions interleave, a lease is never in use by a run while it is deleted, it
-- is never deleted twice at a time, and the counter is the number of runs that use it.
pub leases_exclusive :
    (l : LeaseLocks) (runs deletes : List Text) (key : Text)
    → Reaches l runs deletes
    → (min (count key deletes) (count key runs) ≡ 0)
      × (count key deletes < 2)
      × (active_count key l ≡ count key runs)
leases_exclusive l runs deletes key r =
    let v = Reaches-Agrees l runs deletes r in
    (
      ground (arith, v.exclusive key, v.active_is key, v.deleting_is key),
      ground (arith, v.deleting_is key),
      v.active_is key,
    )
