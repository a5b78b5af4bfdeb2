-- ===== src/Syncfs/Hash.antt =====
-- internal/syncfs/store.go: `validateBlobHash`, with encoding/hex.
pub mod Laws
pub mod Digits
use rmtx.Base.{
  ℕ, ◌+◌, ◌-◌, ◌*◌, ◌/◌, ◌%◌, Bool, true, false, ◌&&◌, ◌||◌, not, Option, none, some, List, [], ◌∷◌,
  ◌==◌, leb, ltb, if◌then◌else◌,
}
use rmtx.Base.Text.{Text, byte_length, text_beq}

-- The value of a hexadecimal digit, in either case.
unfoldable pub from_hex : ℕ → Option ℕ
from_hex c =
    if leb b'0' c && leb c b'9'
    then some (c - b'0')
    else if leb b'a' c && leb c b'f'
    then some (c - b'a' + 10)
    else if leb b'A' c && leb c b'F'
    then some (c - b'A' + 10)
    else none

unfoldable pub to_hex : ℕ → ℕ
to_hex d = if ltb d 10 then b'0' + d else b'a' + (d - 10)

-- hex.DecodeString
unfoldable pub hex_decode : Text → Option (List ℕ)
hex_decode [] = some []
hex_decode (c ∷ []) = none
hex_decode (c ∷ d ∷ s) = elim (from_hex c) [
  | none ↦ none
  | some hi ↦ elim (from_hex d) [
    | none ↦ none
    | some lo ↦ elim (hex_decode s) [ none ↦ none | some bs ↦ some ((hi * 16 + lo) ∷ bs) ]
  ]
]

-- hex.EncodeToString
unfoldable pub hex_encode : List ℕ → Text
hex_encode [] = []
hex_encode (b ∷ bs) = to_hex (b / 16) ∷ to_hex (b % 16) ∷ hex_encode bs

-- `sha256.Size * 2`
abbrev pub hash_length : ℕ
hash_length = 64

abbrev pub decoded_matches : Text → Option (List ℕ) → Bool
decoded_matches hash none = false
decoded_matches hash (some decoded) = text_beq (hex_encode decoded) hash

-- True where `validateBlobHash` returns no error.
unfoldable pub valid_blob_hash : Text → Bool
valid_blob_hash hash = byte_length hash == hash_length && decoded_matches hash (hex_decode hash)
