-- ===== src/Protocol/Frame/Read.antt =====
-- What a read accepts, whatever the peer sent.
use rmtx.Base.{ℕ, ◌+◌, ◌/◌, ◌%◌, ◌^◌, ◌≤◌, ◌<◌, ◌≡◌, false, [], ◌∷◌, ok, arith, length, length-drop}
use rmtx.Base.Int.{pos_part, neg_part}
use rmtx.Base.Text.{is_empty}
use rmtx.Protocol.Frame.{
  Bytes, Header, Json, get_uint32, read_sized, read_header, max_frame_header_size,
  max_frame_payload_size,
}

pub get-put_uint32 :
    (n : ℕ)
    → n < 2 ^ 32
    → get_uint32 (n / 2 ^ 24 % 256) (n / 2 ^ 16 % 256) (n / 2 ^ 8 % 256) (n % 256) ≡ n
unfolding get_uint32
get-put_uint32 n h = omega arith

module _ (j : Json) where
  read_sized_bounds :
      (size : ℕ) (bs rest : Bytes) (h : Header)
      → read_sized j size bs ≡ (ok h, rest)
      → (neg_part h.payload_len ≡ 0)
        × (pos_part h.payload_len ≤ max_frame_payload_size)
        × (is_empty h.frame_type ≡ false)
        × (length bs ≤ length rest + max_frame_header_size)
  unfolding read_sized
  read_sized_bounds size bs rest h e = ground (arith, length-drop size bs)

  -- Every accepted header has a type and a payload length in range, and took at most the four
  -- bytes of the size and the largest header.
  pub read_header_bounds :
      (bs rest : Bytes) (h : Header)
      → read_header j bs ≡ (ok h, rest)
      → (neg_part h.payload_len ≡ 0)
        × (pos_part h.payload_len ≤ max_frame_payload_size)
        × (is_empty h.frame_type ≡ false)
        × (length bs ≤ length rest + (4 + max_frame_header_size))
  unfolding read_header
  read_header_bounds [] rest h e = cc
  read_header_bounds (a ∷ []) rest h e = cc
  read_header_bounds (a ∷ b ∷ []) rest h e = cc
  read_header_bounds (a ∷ b ∷ c ∷ []) rest h e = cc
  read_header_bounds (a ∷ b ∷ c ∷ d ∷ bs) rest h e =
      let (p, q, r, s) = read_sized_bounds (get_uint32 a b c d) bs rest h e in
      (p, q, r, omega arith)
