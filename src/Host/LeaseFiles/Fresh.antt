-- ===== src/Host/LeaseFiles/Fresh.antt =====
-- internal/host/workspace_lease.go: the id of a new lease.
use rmtx.Base.{
  ℕ, zero, suc, ◌+◌, ◌≤◌, ◌<◌, ◌≡◌, refl, Bool, true, false, Option, none, some, List, [], ◌∷◌,
  ◌++◌, Result, ok, ltb, Bool-cases, Option-cases, inl, inr, ltb→lt, arith, All, All-take,
  All-weaken, all, take, length, length-take, is_some,
}
use rmtx.Base.Dict.{lookup}
use rmtx.Base.Text.{codes, Text, text_key, is_space, trim_space, byte_length}
use rmtx.Base.Text.Laws.{trim_space_plain}
use rmtx.Syncfs.Hash.{hex_encode}
use rmtx.Syncfs.Hash.Digits.{IsHexDigit, hex_encode-IsHexDigit}
use rmtx.Host.LeaseFiles.{
  LeaseDirs, LeaseFault, LeaseDisk, is_lease_rune, is_lease_id, normalize_lease_id,
}
use rmtx.Host.LeaseFiles.Prepare.{lease_id_of, new_id_loop, new_lease_id}

module _ (wide_word : ℕ → Bool) where
  hex-rune : (c : ℕ) → IsHexDigit c → is_lease_rune wide_word c ≡ true
  unfolding is_lease_rune
  hex-rune c h = ground arith

  all-runes : (s : Text) → All IsHexDigit s → all (is_lease_rune wide_word) s ≡ true
  all-runes [] h = refl
  all-runes (c ∷ s) (p, h) = rw (hex-rune c p, all-runes s h) refl

hex-space : (c : ℕ) → IsHexDigit c → is_space c ≡ false
unfolding is_space
hex-space c h = ground arith

byte_length-hex : (s : Text) → All IsHexDigit s → byte_length s ≡ length s
byte_length-hex [] h = refl
byte_length-hex (c ∷ s) (p, h) = ground (arith, byte_length-hex s h)

prefixed-trimmed :
    (hex : Text) → All IsHexDigit hex → trim_space (codes "ws_" ++ hex) ≡ codes "ws_" ++ hex
unfolding is_space
prefixed-trimmed hex h =
    trim_space_plain (codes "ws_" ++ hex)
      (refl, (refl, (refl, All-weaken IsHexDigit (λ c. is_space c ≡ false) hex hex-space h)))

prefixed-id :
    (wide_word : ℕ → Bool) (hex : Text)
    → All IsHexDigit hex
    → length hex ≤ 16
    → is_lease_id wide_word (codes "ws_" ++ hex) ≡ true
unfolding is_lease_rune
prefixed-id wide_word hex h short =
    let fits : ltb 80 (1 + (1 + (1 + byte_length hex))) ≡ false =
      ground (arith, byte_length-hex hex h) in
    simp (fits, all-runes wide_word hex h) refl

-- The id that a nonce of bytes gives is one that `normalizeWorkspaceLeaseID` leaves as it is.
lease_id_of-normal :
    (wide_word : ℕ → Bool) (nonce : List ℕ)
    → All (λ b. b < 256) nonce
    → normalize_lease_id wide_word (lease_id_of nonce) ≡ ok (lease_id_of nonce)
unfolding normalize_lease_id
lease_id_of-normal wide_word nonce bytes =
    let hex = take 16 (hex_encode nonce) in
    let h : All IsHexDigit hex =
      All-take IsHexDigit 16 (hex_encode nonce) (hex_encode-IsHexDigit nonce bytes) in
    let short : length hex ≤ 16 = omega (arith, length-take 16 (hex_encode nonce)) in
    rw (prefixed-trimmed hex h, prefixed-id wide_word hex h short) refl

module _ (wide_word : ℕ → Bool) (disk : LeaseDisk) (leases : LeaseDirs)
    (nonces : ℕ → Option (List ℕ)) where
  -- A round whose nonce was drawn and names a directory that is not there.
  abbrev pub Fresh : Result LeaseFault Text → Type 0
  Fresh r =
      (j : ℕ) × (nonce : List ℕ) × (nonces j ≡ some nonce)
      × (lookup (lease_id_of nonce) leases ≡ none)
      × (r ≡ ok (lease_id_of nonce))

  new_id_loop-Fresh :
      (rounds i k : ℕ) (nonce : List ℕ)
      → ((id : Text) → disk.stats_lease id ≡ true)
      → i ≤ k
      → k < i + rounds
      → nonces k ≡ some nonce
      → lookup (lease_id_of nonce) leases ≡ none
      → ((j : ℕ) → j < k → is_some (nonces j) ≡ true)
      → Fresh (new_id_loop wide_word disk rounds i nonces leases)
  unfolding new_id_loop
  new_id_loop-Fresh zero i k nonce stats low high at_k free drawn = absurd (omega arith)
  new_id_loop-Fresh (suc rounds) i k nonce stats low high at_k free drawn =
      elim (Option-cases (nonces i)) [
        | inl missing ↦ elim (Bool-cases (ltb i k)) [
          | inl before ↦ let there = drawn i (ltb→lt i k before) in cc
          | inr same ↦ let is_k : i ≡ k = ground arith in cc
        ]
        | inr (first, here) ↦ elim (Option-cases (lookup (lease_id_of first) leases)) [
          | inl unused ↦ (i, first, here, unused, rw (here, stats (lease_id_of first), unused) refl)
          | inr (d, used) ↦ elim (Bool-cases (ltb i k)) [
            | inl before ↦
                let later =
                  new_id_loop-Fresh rounds (suc i) k nonce stats (ground arith) (omega arith) at_k
                    free drawn in
                rw (here, stats (lease_id_of first), used) later
            | inr same ↦
                let is_k : i ≡ k = ground arith in
                let first_is : first ≡ nonce = cc in
                let unused : lookup (lease_id_of first) leases ≡ none = rw first_is free in cc
          ]
        ]
      ]

  -- If stat works and one of the first sixteen nonces, which with all before it could be drawn and
  -- is made of bytes, names no directory, then newWorkspaceLeaseID returns an id: one that names no
  -- directory, and that the check of ids takes as it is.
  pub new_lease_id_finds :
      (k : ℕ) (nonce : List ℕ)
      → ((id : Text) → disk.stats_lease id ≡ true)
      → ((j : ℕ) (n : List ℕ) → nonces j ≡ some n → All (λ b. b < 256) n)
      → k < 16
      → nonces k ≡ some nonce
      → lookup (lease_id_of nonce) leases ≡ none
      → ((j : ℕ) → j < k → is_some (nonces j) ≡ true)
      → (id : Text) × (new_lease_id wide_word disk nonces leases ≡ ok id)
        × (lookup id leases ≡ none)
        × (normalize_lease_id wide_word id ≡ ok id)
  unfolding new_lease_id
  new_lease_id_finds k nonce stats bytes high at_k free drawn =
      let (j, found, at_j, fresh, is) =
        new_id_loop-Fresh 16 0 k nonce stats (omega arith) (omega arith) at_k free drawn in
      (lease_id_of found, is, fresh, lease_id_of-normal wide_word found (bytes j found at_j))
