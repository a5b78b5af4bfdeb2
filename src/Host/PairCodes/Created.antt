-- ===== src/Host/PairCodes/Created.antt =====
-- What a host gets from creating a pairing code.
use rmtx.Base.{
  ℕ, zero, suc, ◌-◌, ◌≡◌, ◌≤◌, ◌<◌, refl, Bool, true, false, not, Option, none, some, [], ◌∷◌, ◌++◌,
  Result, ok, err, arith, Bool-cases, inl, inr, length, filter, drop, ltb, if◌then◌else◌, All, all,
  length-append, length-drop,
}
use mathlib.Core.Path.{subst}
use rmtx.Base.Int.{ℤ}
use rmtx.Base.Text.{Text, text_beq, text_beq_iff, trim_space, is_space}
use rmtx.Base.Text.Laws.{trim_space_plain}
use rmtx.Host.PairCodes.{
  PairCodeRecord, PairCodeStore, PairCodeError, Disk, pair_code_text, max_active_pair_codes,
  trim_codes, save_codes, create_in, create_pair_code, mark_used, consume_in, consume_pair_code,
  is_active,
}

trim_codes_bounded :
    (now : ℕ) (store : PairCodeStore) → length (trim_codes now store) ≤ max_active_pair_codes - 1
unfolding trim_codes
trim_codes_bounded now store =
    let live = filter (is_active now) store in
    ground (arith, length-drop (length live - (max_active_pair_codes - 1)) live)

abbrev Appends : ℕ → PairCodeStore → Result PairCodeError PairCodeRecord → PairCodeStore → Type 0
Appends now store (err e) store' = store' ≡ store
Appends now store (ok c) store' =
    (length store' ≤ max_active_pair_codes)
    × (now < c.expires_at)
    × (store' ≡ trim_codes now store ++ (c ∷ []))

save_codes-Appends :
    (disk : Disk) (now : ℕ) (store : PairCodeStore) (c : PairCodeRecord)
    → now < c.expires_at
    → Appends now store
        (save_codes disk store (trim_codes now store ++ (c ∷ [])) c).0
        (save_codes disk store (trim_codes now store ++ (c ∷ [])) c).1
unfolding save_codes
save_codes-Appends disk now store c fresh = elim (Bool-cases disk.saves) [
  | inl yes_saved ↦ simp yes_saved (
    omega (arith, length-append (trim_codes now store) (c ∷ []), trim_codes_bounded now store),
    fresh,
    refl,
  )
  | inr lost ↦ simp lost refl
]

create_pair_code-Appends :
    (disk : Disk) (ttl : ℤ) (now : ℕ) (random : Option ℕ) (store : PairCodeStore)
    → Appends now store
        (create_pair_code disk ttl now random store).0
        (create_pair_code disk ttl now random store).1
unfolding create_pair_code create_in
create_pair_code-Appends disk ttl now random store = elim (Bool-cases disk.locks) [
  | inr unlocked ↦ simp unlocked refl
  | inl locked ↦ simp locked (elim (Bool-cases disk.loads) [
    | inr unread ↦ simp unread refl
    | inl read ↦ simp read (created_in random)
  ])
]
  where
    created_in :
        (r : Option ℕ)
        → Appends now store (create_in disk ttl now r store).0 (create_in disk ttl now r store).1
    created_in none = refl
    created_in (some n) = save_codes-Appends disk now store _ (ground arith)

all-All_space : (s : Text) → all (λ c. not (is_space c)) s ≡ true → All (λ c. is_space c ≡ false) s
all-All_space [] h = tt
all-All_space (c ∷ s) h = (ground arith, all-All_space s (ground arith))

trim_space-pair_code_text : (n : ℕ) → trim_space (pair_code_text n) ≡ pair_code_text n
trim_space-pair_code_text n =
    trim_space_plain (pair_code_text n)
      (all-All_space (pair_code_text n) (unfold pair_code_text is_space in ground arith))

created :
    (disk : Disk) (ttl : ℤ) (now : ℕ) (random : Option ℕ) (store store' : PairCodeStore)
    (c : PairCodeRecord)
    → create_pair_code disk ttl now random store ≡ (ok c, store')
    → (trim_space c.code ≡ c.code) × (c.used ≡ false)
unfolding create_pair_code create_in save_codes
created disk ttl now none store store' c h = absurd (ground (arith, h))
created disk ttl now (some n) store store' c h = ground (arith, h, trim_space-pair_code_text n)

-- A stored code that nobody used and whose time is not over.
abbrev pub may_be_used : ℕ → PairCodeRecord → Bool
may_be_used now d = elim d.used [ true ↦ false | false ↦ ltb now d.expires_at ]

abbrev pub usable : ℕ → PairCodeStore → PairCodeStore
usable now [] = []
usable now (d ∷ store) = if may_be_used now d then d ∷ usable now store else usable now store

-- What creating a code makes of the stored ones: of those that may still be used, a beginning is
-- lost and the rest, `kept`, stays.
abbrev pub Creates :
    ℕ → PairCodeStore → Result PairCodeError PairCodeRecord → PairCodeStore → Type 0
Creates now store (err e) store' = store' ≡ store
Creates now store (ok c) store' =
    (lost : PairCodeStore) × (kept : PairCodeStore) × (usable now store ≡ lost ++ kept)
    × (length kept ≡ (if ltb (length (usable now store)) 32 then length (usable now store) else 31))
    × (store' ≡ kept ++ (c ∷ []))
    × (now < c.expires_at)
    × (c.used ≡ false)

abbrev pub is_other : Text → PairCodeRecord → Bool
is_other code d = not (text_beq d.code code)

all-filter :
    (p q : PairCodeRecord → Bool) (xs : PairCodeStore)
    → all p xs ≡ true
    → all p (filter q xs) ≡ true
all-filter p q [] h = refl
all-filter p q (x ∷ xs) h = ground (arith, all-filter p q xs)

all-drop :
    (p : PairCodeRecord → Bool) (n : ℕ) (xs : PairCodeStore)
    → all p xs ≡ true
    → all p (drop n xs) ≡ true
all-drop p zero xs h = h
all-drop p (suc n) [] h = refl
all-drop p (suc n) (x ∷ xs) h = all-drop p n xs (ground arith)

all-trim_codes :
    (p : PairCodeRecord → Bool) (now : ℕ) (store : PairCodeStore)
    → all p store ≡ true
    → all p (trim_codes now store) ≡ true
unfolding trim_codes
all-trim_codes p now store h =
    let live = all-filter p (is_active now) store h in
    ground (
      arith,
      live,
      all-drop p (length (filter (is_active now) store) - (max_active_pair_codes - 1))
          (filter (is_active now) store),
    )

mark_used-last :
    (code : Text) (now : ℕ) (xs : PairCodeStore) (c : PairCodeRecord)
    → all (is_other code) xs ≡ true
    → c.code ≡ code
    → c.used ≡ false
    → now < c.expires_at
    → mark_used code now (xs ++ (c ∷ [])) ≡ ok (xs ++ (record c { used = true } ∷ []))
unfolding mark_used
mark_used-last code now [] c h own unused fresh = ground (arith, text_beq_iff c.code code)
mark_used-last code now (x ∷ xs) c h own unused fresh =
    let rest = mark_used-last code now xs c (ground arith) own unused fresh in ground (arith, rest)

-- A code that was created is accepted until it expires, if no stored code has the same text.
pub consume-create :
    (disk later_disk : Disk) (ttl : ℤ) (now later : ℕ) (random : Option ℕ)
    (store store' : PairCodeStore) (c : PairCodeRecord)
    → create_pair_code disk ttl now random store ≡ (ok c, store')
    → all (is_other c.code) store ≡ true
    → later_disk ≡ record { locks = true; loads = true; saves = true }
    → later < c.expires_at
    → (consume_pair_code later_disk c.code later store').0 ≡ ok tt
unfolding consume_pair_code consume_in save_codes
consume-create disk later_disk ttl now later random store store' c h distinct works fresh =
    let whole : Appends now store (ok c) store' =
      subst (λ x. Appends now store x.0 x.1) h
        (create_pair_code-Appends disk ttl now random store) in
    let (_, _, grown) = whole in
    let (trimmed, unused) = created disk ttl now random store store' c h in
    let marked =
      mark_used-last c.code later (trim_codes now store) c
        (all-trim_codes (is_other c.code) now store distinct) refl unused fresh in
    rw (works, trimmed, grown) (ground (arith, marked))
