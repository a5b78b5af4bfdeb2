-- ===== src/Protocol/Frame/Write.antt =====
-- What a write hands to the connection, on success and on each kind of error.
use rmtx.Base.{
  zero, suc, ℕ, ◌^◌, ◌%◌, ◌≡◌, refl, ap, ◌∙◌, inl, inr, false, Option, none, some, [], ◌∷◌, ◌++◌,
  append_assoc, append-nil, ok, err, Result-cases, Option-cases, arith, length, take, length-take,
}
use rmtx.Base.Int.{ℤ, pos, pos_part}
use rmtx.Base.Text.{Text, is_empty}
use rmtx.Protocol.Frame.{
  Bytes, Json, FrameError, Source, slice, reader, nothing, write_body, bad_header_size,
  bad_payload_len, put_uint32, write_payload, header_content, encode_header, write_locked,
  write_bytes,
}

-- A frame on the wire.
abbrev pub frame : Bytes → Bytes → Bytes
frame encoded body = put_uint32 (length encoded) ++ (encoded ++ body)

write_payload_ok :
    (out : Bytes) (src : Source) (n : ℕ) (out' : Bytes)
    → write_payload out src n ≡ (out', ok tt)
    → (body : Bytes) × (out' ≡ out ++ body) × (length body ≡ n)
unfolding write_payload
write_payload_ok out (slice v) n out' h = (v, ground arith, ground arith)
write_payload_ok out (reader v) n out' h = (take n v, ground arith, ground (arith, length-take n v))
write_payload_ok out nothing n out' h = cc

write_body_ok :
    (out : Bytes) (src : Source) (n : ℕ) (out' : Bytes)
    → write_body out src n ≡ (out', ok tt)
    → (body : Bytes) × (out' ≡ out ++ body) × (length body ≡ n)
unfolding write_body
write_body_ok out src zero out' h = ([], cc (append-nil out), refl)
write_body_ok out src (suc n) out' h = write_payload_ok out src (suc n) out' (ground arith)

module _ (j : Json) where
  pub encode_header_checks :
      (t : Text) (payload : Option j.Payload) (n : ℤ) (encoded : Bytes)
      → encode_header j t payload n ≡ ok encoded
      → (is_empty t ≡ false)
        × (bad_payload_len n ≡ false)
        × (bad_header_size (length encoded) ≡ false)
  unfolding encode_header
  encode_header_checks t payload n encoded h = ground arith

  encode_header_marshals :
      (t : Text) (payload : Option j.Payload) (n : ℤ) (encoded raw : Bytes)
      → header_content j payload ≡ ok raw
      → encode_header j t payload n ≡ ok encoded
      → j.marshal_header (record { frame_type = t; payload_len = n; content = raw }) ≡ some encoded
  unfolding encode_header
  encode_header_marshals t payload n encoded raw e h = ground (
    arith,
    Option-cases (j.marshal_header (record { frame_type = t; payload_len = n; content = raw })),
  )

  header_content_ok :
      (t : Text) (payload : Option j.Payload) (n : ℤ) (encoded : Bytes)
      → encode_header j t payload n ≡ ok encoded
      → (raw : Bytes) × (header_content j payload ≡ ok raw)
  unfolding encode_header
  header_content_ok t payload n encoded h = elim (Result-cases (header_content j payload)) [
    | inl r ↦ r
    | inr (e, r) ↦ absurd (ground (arith, r))
  ]

  unmarshals :
      (t : Text) (payload : Option j.Payload) (n : ℤ) (encoded raw : Bytes)
      → header_content j payload ≡ ok raw
      → j.marshal_header (record { frame_type = t; payload_len = n; content = raw }) ≡ some encoded
      → j.unmarshal_header encoded
        ≡ some (record { frame_type = t; payload_len = n; content = raw })
  unfolding header_content
  unmarshals t none n encoded [] c h = j.empty_content t n encoded h
  unmarshals t none n encoded (b ∷ raw) c h = cc
  unmarshals t (some p) n encoded raw c h = j.with_content p raw t n encoded (ground arith) h

  -- What was encoded decodes to the header with the marshalled payload.
  pub encode_header_decodes :
      (t : Text) (payload : Option j.Payload) (n : ℤ) (encoded : Bytes)
      → encode_header j t payload n ≡ ok encoded
      → (raw : Bytes) × (header_content j payload ≡ ok raw)
        × (j.unmarshal_header encoded
            ≡ some (record { frame_type = t; payload_len = n; content = raw }))
  encode_header_decodes t payload n encoded h =
      let (raw, c) = header_content_ok t payload n encoded h in
      (
        raw,
        c,
        unmarshals t payload n encoded raw c (encode_header_marshals t payload n encoded raw c h),
      )

  pub uint32_size :
      (encoded : Bytes)
      → bad_header_size (length encoded) ≡ false
      → length encoded % 2 ^ 32 ≡ length encoded
  uint32_size encoded h = ground arith

  body_written :
      (out : Bytes) (t : Text) (payload : Option j.Payload) (src : Source) (n : ℤ)
      (out' encoded : Bytes)
      → encode_header j t payload n ≡ ok encoded
      → write_locked j out t payload src n ≡ (out', ok tt)
      → write_body (out ++ (put_uint32 (length encoded) ++ encoded)) src (pos_part n)
        ≡ (out', ok tt)
  unfolding write_locked
  body_written out t payload src n out' encoded e h =
      let (_, _, small) = encode_header_checks t payload n encoded e in
      ground (arith, uint32_size encoded small)

  -- A successful write appends one whole frame.
  pub write_locked_ok :
      (out : Bytes) (t : Text) (payload : Option j.Payload) (src : Source) (n : ℤ) (out' : Bytes)
      → write_locked j out t payload src n ≡ (out', ok tt)
      → (encoded : Bytes) × (body : Bytes) × (encode_header j t payload n ≡ ok encoded)
        × (length body ≡ pos_part n)
        × (out' ≡ out ++ frame encoded body)
  unfolding write_locked
  write_locked_ok out t payload src n out' h = elim (Result-cases (encode_header j t payload n)) [
    | inl (encoded, e) ↦
        let (body, p, q) =
          write_body_ok (out ++ (put_uint32 (length encoded) ++ encoded)) src (pos_part n) out'
            (body_written out t payload src n out' encoded e h) in
        (
          encoded,
          body,
          e,
          q,
          p
              ∙ append_assoc out _ body
              ∙ ap (λ w. out ++ w) (append_assoc (put_uint32 (length encoded)) encoded body),
        )
    | inr (e, r) ↦ absurd (ground (arith, r))
  ]

module _ (j : Json) where
  -- A write that fails a check hands nothing to the connection.
  pub write_locked_refused :
      (out : Bytes) (t : Text) (payload : Option j.Payload) (src : Source) (n : ℤ) (e : FrameError)
      → encode_header j t payload n ≡ err e
      → write_locked j out t payload src n ≡ (out, err e)
  unfolding write_locked
  write_locked_refused out t payload src n e h = ground arith

  -- A slice whose length is passed along never meets the length check, so `write_bytes` fails in
  -- its header alone, and then the connection is as it was.
  pub write_bytes-atomic :
      (out : Bytes) (t : Text) (payload : Option j.Payload) (v out' : Bytes) (e : FrameError)
      → write_bytes j out t payload v ≡ (out', err e)
      → (out' ≡ out) × (encode_header j t payload (pos (length v)) ≡ err e)
  unfolding write_bytes write_locked write_body write_payload
  write_bytes-atomic out t payload v out' e h = ground arith
