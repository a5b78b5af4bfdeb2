-- ===== src/Tests/Protocol.antt =====
-- internal/protocol: frames of a small codec.
use rmtx.Base.{
  ℕ, zero, suc, ◌≡◌, refl, Option, none, some, List, [], ◌∷◌, ◌++◌, ok, err, length, take, drop,
  take-append, drop-append,
}
use mathlib.Core.Path.{subst}
use rmtx.Base.Int.{ℤ, pos, negsuc}
use rmtx.Base.Text.{Text, codes}
use rmtx.Protocol.Frame.{
  Bytes, Header, Json, type_required, slice, encode_header, header_content, write_locked,
  write_body, write_payload, put_uint32, get_uint32, write_bytes, read_header, read_sized,
}
use rmtx.Protocol.Frame.Sequence.{write_all, read_all, AllShow, read_all-write_all}

-- A header as numbers: sign, size, length of the type, type, content.
abbrev length_code : ℤ → Bytes
length_code (pos n) = 0 ∷ n ∷ []
length_code (negsuc n) = 1 ∷ n ∷ []

abbrev encode : Header → Bytes
encode h = length_code h.payload_len ++ (length h.frame_type ∷ (h.frame_type ++ h.content))

abbrev parts : ℤ → ℕ → Bytes → Option Header
parts n k bs = some (record { frame_type = take k bs; payload_len = n; content = drop k bs })

abbrev decode : Bytes → Option Header
decode (zero ∷ n ∷ k ∷ bs) = parts (pos n) k bs
decode (suc s ∷ n ∷ k ∷ bs) = parts (negsuc n) k bs
decode _ = none

parts-append :
    (n : ℤ) (t content : Bytes)
    → parts n (length t) (t ++ content)
      ≡ some (record { frame_type = t; payload_len = n; content = content })
parts-append n t content = rw (take-append t content, drop-append t content) refl

decode-encode :
    (t : Text) (n : ℤ) (content : Bytes)
    → decode (encode (record { frame_type = t; payload_len = n; content = content }))
      ≡ some (record { frame_type = t; payload_len = n; content = content })
decode-encode t (pos n) content = parts-append (pos n) t content
decode-encode t (negsuc n) content = parts-append (negsuc n) t content

decode-some :
    (t : Text) (n : ℤ) (content b : Bytes)
    → some (encode (record { frame_type = t; payload_len = n; content = content })) ≡ some b
    → decode b ≡ some (record { frame_type = t; payload_len = n; content = content })
decode-some t n content b e =
    let same : encode (record { frame_type = t; payload_len = n; content = content }) ≡ b = cc in
    subst (λ x. decode x ≡ some (record { frame_type = t; payload_len = n; content = content }))
      same (decode-encode t n content)

-- A payload is a number, and its JSON is that number.
abbrev small_json : Json
small_json = record {
  Payload = ℕ;
  marshal = λ p. some (p ∷ []);
  marshal_header = λ h. some (encode h);
  unmarshal_header = decode;
  empty_content = λ t n b e. decode-some t n [] b e;
  with_content = λ p raw t n b m e. decode-some t n raw b e;
}

abbrev log_type : Text
log_type = codes "log"

-- The frame of type log with the payload 7 and the data 5, 6.
abbrev log_frame : Bytes
log_frame = 0 ∷ 0 ∷ 0 ∷ 7 ∷ 0 ∷ 2 ∷ 3 ∷ 108 ∷ 111 ∷ 103 ∷ 7 ∷ 5 ∷ 6 ∷ []

write_log_run :
    write_locked small_json [] log_type (some 7) (slice (5 ∷ 6 ∷ [])) (pos 2) ≡ (log_frame, ok tt)
unfolding write_locked encode_header header_content write_body write_payload put_uint32
write_log_run = refl

abbrev two_messages : List (Text × Option ℕ × Bytes)
two_messages = (log_type, some 7, 5 ∷ 6 ∷ []) ∷ (log_type, some 7, 5 ∷ 6 ∷ []) ∷ []

write_two_run : write_all small_json [] two_messages ≡ (log_frame ++ log_frame, ok tt)
unfolding write_all write_bytes write_locked encode_header header_content write_body write_payload
    put_uint32
write_two_run = refl

read_all-write_all_example :
    (wire : Bytes) × (log_frame ++ log_frame ≡ [] ++ wire)
    × ((rest : Bytes)
        → (xs : List (Header × Bytes)) × (read_all small_json 2 (wire ++ rest) ≡ (ok xs, rest))
          × AllShow small_json two_messages xs)
read_all-write_all_example =
    read_all-write_all small_json two_messages [] (log_frame ++ log_frame) write_two_run

abbrev one_byte : Bytes
one_byte = 1 ∷ []

untyped_run : write_bytes small_json (1 ∷ []) [] (some 7) (5 ∷ []) ≡ (1 ∷ [], err type_required)
unfolding write_bytes write_locked encode_header
untyped_run = refl

abbrev log_header : Header
log_header = record { frame_type = log_type; payload_len = pos 2; content = 7 ∷ [] }

read_header_run : read_header small_json log_frame ≡ (ok log_header, 5 ∷ 6 ∷ [])
unfolding read_header read_sized get_uint32
read_header_run = refl
