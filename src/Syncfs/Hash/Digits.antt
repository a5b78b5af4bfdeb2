-- ===== src/Syncfs/Hash/Digits.antt =====
-- encoding/hex as internal/syncfs/store.go and the makers of ids use it: which digits it writes.
use rmtx.Base.{ℕ, ◌/◌, ◌%◌, ◌≤◌, ◌<◌, ◌⊎◌, List, [], ◌∷◌, All, arith}
use rmtx.Syncfs.Hash.{to_hex, hex_encode}

-- 0 to 9, and a to f.
abbrev pub IsHexDigit : ℕ → Type 0
IsHexDigit c = ((b'0' ≤ c) × (c ≤ b'9')) ⊎ ((b'a' ≤ c) × (c ≤ b'f'))

to_hex-IsHexDigit : (d : ℕ) → d < 16 → IsHexDigit (to_hex d)
unfolding to_hex
to_hex-IsHexDigit d h = ground arith

pub hex_encode-IsHexDigit : (bs : List ℕ) → All (λ b. b < 256) bs → All IsHexDigit (hex_encode bs)
unfolding hex_encode
hex_encode-IsHexDigit [] h = tt
hex_encode-IsHexDigit (b ∷ bs) (small, h) = (
  to_hex-IsHexDigit (b / 16) (omega arith),
  (to_hex-IsHexDigit (b % 16) (omega arith), hex_encode-IsHexDigit bs h),
)
