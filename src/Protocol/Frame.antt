-- ===== src/Protocol/Frame.antt =====
-- internal/protocol/frame.go: length-prefixed frames with a JSON header and an optional payload.
-- A connection's two directions are lists of bytes: what was handed to the buffered writer, in
-- order, and what the buffered reader has yet to deliver before the stream ends.
pub mod Write
pub mod Read
pub mod RoundTrip
pub mod Sequence
use rmtx.Base.{
  ℕ, ◌+◌, ◌-◌, ◌*◌, ◌/◌, ◌%◌, ◌^◌, ◌≡◌, Bool, ◌||◌, Option, none, some, List, [], ◌∷◌, ◌++◌, Result,
  ok, err, ltb, ◌==◌, not, if◌then◌else◌, length, take, drop,
}
use rmtx.Base.Int.{ℤ, pos, is_neg, pos_part}
use rmtx.Base.Text.{Text, is_empty}

abbrev pub Bytes : Type 0
Bytes = List ℕ

abbrev pub max_frame_header_size : ℕ
max_frame_header_size = 8 * 2 ^ 20

abbrev pub max_frame_payload_size : ℕ
max_frame_payload_size = 64 * 2 ^ 20

-- `type` names a builtin here, so the header's fields carry longer names.
pub record Header : Type 0 where
  pub frame_type : Text
  pub payload_len : ℤ
  pub content : Bytes

-- encoding/json, as far as frames rest on it: what was marshalled is unmarshalled again. `content`
-- is empty or itself the output of a marshal, which is compact, so the raw message stays as it is.
pub record Json : Type 1 where
  pub Payload : Type 0
  pub marshal : Payload → Option Bytes
  pub marshal_header : Header → Option Bytes
  pub unmarshal_header : Bytes → Option Header
  pub empty_content :
      (t : Text) (n : ℤ) (b : Bytes)
      → marshal_header (record { frame_type = t; payload_len = n; content = [] }) ≡ some b
      → unmarshal_header b ≡ some (record { frame_type = t; payload_len = n; content = [] })
  pub with_content :
      (p : Payload) (raw : Bytes) (t : Text) (n : ℤ) (b : Bytes)
      → marshal p ≡ some raw
      → marshal_header (record { frame_type = t; payload_len = n; content = raw }) ≡ some b
      → unmarshal_header b ≡ some (record { frame_type = t; payload_len = n; content = raw })

pub data FrameError : Type 0 where
  type_required invalid_payload_length invalid_header_length : FrameError
  marshal_payload_failed marshal_header_failed unmarshal_failed : FrameError
  length_mismatch short_source unsupported_payload : FrameError
  end_of_stream unexpected_end : FrameError

-- len(bs) > limit or == 0, for the header
abbrev pub bad_header_size : ℕ → Bool
bad_header_size n = n == 0 || ltb max_frame_header_size n

-- n < 0 || n > MaxFramePayloadSize
abbrev pub bad_payload_len : ℤ → Bool
bad_payload_len n = is_neg n || ltb max_frame_payload_size (pos_part n)

-- binary.BigEndian, for a uint32
unfoldable pub put_uint32 : ℕ → Bytes
put_uint32 n = (n / 2 ^ 24 % 256) ∷ (n / 2 ^ 16 % 256) ∷ (n / 2 ^ 8 % 256) ∷ (n % 256) ∷ []

unfoldable pub get_uint32 : ℕ → ℕ → ℕ → ℕ → ℕ
get_uint32 a b c d = a * 2 ^ 24 + b * 2 ^ 16 + c * 2 ^ 8 + d

-- The `data any` of a write: a slice, a reader with the bytes that it has left, or nil.
pub data Source : Type 0 where
  slice : Bytes → Source
  reader : Bytes → Source
  nothing : Source

-- What `writePayload` hands to the writer, and its error.
unfoldable pub write_payload : Bytes → Source → ℕ → Bytes × Result FrameError (Unit {0})
write_payload out (slice v) n =
    if not (length v == n) then (out, err length_mismatch) else (out ++ v, ok tt)
write_payload out (reader v) n =
    (out ++ take n v, (if ltb (length v) n then err short_source else ok tt))
write_payload out nothing n = (out, err unsupported_payload)

-- `if payloadLen > 0 { writePayload }`
unfoldable pub write_body : Bytes → Source → ℕ → Bytes × Result FrameError (Unit {0})
write_body out source n = if ltb 0 n then write_payload out source n else (out, ok tt)

module _ (j : Json) where
  -- `if payload != nil { raw, err := json.Marshal(payload); h.Data = raw }`
  unfoldable pub header_content : Option j.Payload → Result FrameError Bytes
  header_content none = ok []
  header_content (some p) = elim (j.marshal p) [
    | none ↦ err marshal_payload_failed
    | some raw ↦ ok raw
  ]

  -- The encoded header, or the first check of `writeLocked` that fails.
  unfoldable pub encode_header : Text → Option j.Payload → ℤ → Result FrameError Bytes
  encode_header t payload n =
      if is_empty t
      then err type_required
      else if bad_payload_len n
      then err invalid_payload_length
      else elim (header_content payload) [
        | err e ↦ err e
        | ok raw ↦
            elim (j.marshal_header (record { frame_type = t; payload_len = n; content = raw })) [
              | none ↦ err marshal_header_failed
              | some encoded ↦
                  if bad_header_size (length encoded) then err invalid_header_length else ok encoded
            ]
      ]

  -- `writeLocked`: the bytes handed to the writer so far, and the error. `uint32(len)` wraps.
  unfoldable pub write_locked :
      Bytes → Text → Option j.Payload → Source → ℤ → Bytes × Result FrameError (Unit {0})
  write_locked out t payload source n = elim (encode_header t payload n) [
    | err e ↦ (out, err e)
    | ok encoded ↦
        let out' = out ++ (put_uint32 (length encoded % 2 ^ 32) ++ encoded) in
        write_body out' source (pos_part n)
  ]

  unfoldable pub write_json : Bytes → Text → Option j.Payload → Bytes × Result FrameError (Unit {0})
  write_json out t payload = write_locked out t payload nothing (pos 0)

  unfoldable pub write_bytes :
      Bytes → Text → Option j.Payload → Bytes → Bytes × Result FrameError (Unit {0})
  write_bytes out t payload v = write_locked out t payload (slice v) (pos (length v))

  unfoldable pub write_from :
      Bytes → Text → Option j.Payload → Bytes → ℤ → Bytes × Result FrameError (Unit {0})
  write_from out t payload v n = write_locked out t payload (reader v) n

  -- `ReadHeader` after the size: the rest of the stream, with the header or the error.
  unfoldable pub read_sized : ℕ → Bytes → Result FrameError Header × Bytes
  read_sized size rest =
      if bad_header_size size
      then (err invalid_header_length, rest)
      else if ltb (length rest) size
      then (err unexpected_end, [])
      else (
        (elim (j.unmarshal_header (take size rest)) [
          | none ↦ err unmarshal_failed
          | some h ↦
              if bad_payload_len h.payload_len
              then err invalid_payload_length
              else if is_empty h.frame_type
              then err type_required
              else ok h
        ]),
        drop size rest,
      )

  -- `binary.Read` of four bytes ends in EOF at the end of the stream, and in ErrUnexpectedEOF
  -- inside the number.
  unfoldable pub read_header : Bytes → Result FrameError Header × Bytes
  read_header [] = (err end_of_stream, [])
  read_header (a ∷ []) = (err unexpected_end, [])
  read_header (a ∷ b ∷ []) = (err unexpected_end, [])
  read_header (a ∷ b ∷ c ∷ []) = (err unexpected_end, [])
  read_header (a ∷ b ∷ c ∷ d ∷ rest) = read_sized (get_uint32 a b c d) rest

-- `io.ReadAll(c.PayloadReader(h))`: the reader ends quietly where the stream ends.
unfoldable pub read_payload : Header → Bytes → Bytes × Bytes
read_payload h rest = (take (pos_part h.payload_len) rest, drop (pos_part h.payload_len) rest)

unfoldable pub discard_payload : Header → Bytes → Result FrameError (Unit {0}) × Bytes
discard_payload h rest =
    let n = pos_part h.payload_len in
    if n == 0
    then (ok tt, rest)
    else ((if ltb (length rest) n then err short_source else ok tt), drop n rest)
