-- ===== src/Syncfs/Hash/Laws.antt =====
-- Which texts are blob hashes.
use rmtx.Base.{
  ℕ, ◌+◌, ◌-◌, ◌*◌, ◌/◌, ◌%◌, ◌≡◌, ◌≤◌, ◌↔◌, refl, Bool, true, false, ◌&&◌, ◌||◌, none, some, List,
  [], ◌∷◌, arith, ◌==◌, leb, all, length, inl, inr, Option-cases,
}
use rmtx.Base.Text.{Text, byte_length, text_beq}
use rmtx.Syncfs.Hash.{from_hex, to_hex, hex_decode, hex_encode, decoded_matches, valid_blob_hash}

-- 0-9 and a-f
abbrev pub is_lower_hex : ℕ → Bool
is_lower_hex c = (leb b'0' c && leb c b'9') || (leb b'a' c && leb c b'f')

from_hex-none : (c : ℕ) → from_hex c ≡ none → is_lower_hex c ≡ false
unfolding from_hex
from_hex-none c h = ground arith

from_hex-some : (c v : ℕ) → from_hex c ≡ some v → (v ≤ 15) × ((to_hex v == c) ≡ is_lower_hex c)
unfolding from_hex to_hex
from_hex-some c v h = ground arith

encode_pair :
    (c d hi lo : ℕ) (bs : List ℕ) (s : Text)
    → from_hex c ≡ some hi
    → from_hex d ≡ some lo
    → text_beq (hex_encode ((hi * 16 + lo) ∷ bs)) (c ∷ d ∷ s)
      ≡ (is_lower_hex c && (is_lower_hex d && text_beq (hex_encode bs) s))
encode_pair c d hi lo bs s hc hd =
    let (small, fits) = from_hex-some c hi hc in
    let (small', fits') = from_hex-some d lo hd in
    let e : (hi * 16 + lo) / 16 ≡ hi = omega arith in
    let e' : (hi * 16 + lo) % 16 ≡ lo = omega arith in unfold hex_encode in rw (e, e', fits, fits')

matches_pair :
    (c d : ℕ) (s : Text)
    → decoded_matches (c ∷ d ∷ s) (hex_decode (c ∷ d ∷ s))
      ≡ (is_lower_hex c && (is_lower_hex d && decoded_matches s (hex_decode s)))
unfolding hex_decode
matches_pair c d s = elim (Option-cases (from_hex c)) [
  | inl e ↦ ground (arith, from_hex-none c e)
  | inr (hi, e) ↦ elim (Option-cases (from_hex d)) [
    | inl e' ↦ ground (arith, from_hex-none d e')
    | inr (lo, e') ↦ elim (Option-cases (hex_decode s)) [
      | inl n ↦ ground (arith, n)
      | inr (bs, n) ↦ ground (arith, encode_pair c d hi lo bs s e e')
    ]
  ]
]

matches_odd : (c : ℕ) → decoded_matches (c ∷ []) (hex_decode (c ∷ [])) ≡ false
unfolding hex_decode
matches_odd c = refl

matches-all : (s : Text) → decoded_matches s (hex_decode s) ≡ true → all is_lower_hex s ≡ true
matches-all [] h = refl
matches-all (c ∷ []) h = absurd (cc (matches_odd c))
matches-all (c ∷ d ∷ s) h = ground (arith, matches_pair c d s, matches-all s)

all-matches :
    (n : ℕ) (s : Text)
    → length s ≡ n + n
    → all is_lower_hex s ≡ true
    → decoded_matches s (hex_decode s) ≡ true
all-matches n [] e h = unfold hex_decode hex_encode in refl
all-matches n (c ∷ []) e h = absurd (omega arith)
all-matches n (c ∷ d ∷ s) e h =
    ground (arith, matches_pair c d s, all-matches (n - 1) s (omega arith))

byte_length-all : (s : Text) → all is_lower_hex s ≡ true → byte_length s ≡ length s
byte_length-all [] h = refl
byte_length-all (c ∷ s) h = ground (arith, byte_length-all s)

-- A text is accepted as a blob hash exactly when it is 64 lower-case hexadecimal digits.
pub valid_blob_hash_iff :
    (hash : Text)
    → (valid_blob_hash hash ≡ true) ↔ ((length hash ≡ 64) × (all is_lower_hex hash ≡ true))
unfolding valid_blob_hash
valid_blob_hash_iff hash = (
  λ h. ground (arith, matches-all hash, byte_length-all hash),
  λ h. ground (arith, all-matches 32 hash, byte_length-all hash),
)
