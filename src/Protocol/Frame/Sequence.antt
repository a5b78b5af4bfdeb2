-- ===== src/Protocol/Frame/Sequence.antt =====
-- Several frames on one connection.
use rmtx.Base.{
  ℕ, zero, suc, ◌%◌, ◌^◌, ◌≡◌, refl, ap, ◌∙◌, Option, List, [], ◌∷◌, ◌++◌, Result, ok, err, inl,
  inr, Result-cases, arith, length, append_assoc, append-nil, ◌>>=◌,
}
use rmtx.Base.Int.{pos}
use rmtx.Base.Text.{Text}
use rmtx.Protocol.Frame.{
  Bytes, Header, Json, FrameError, write_bytes, write_locked, write_body, write_payload,
  read_header, read_payload, encode_header, header_content, put_uint32,
}
use rmtx.Protocol.Frame.Write.{frame, encode_header_checks, encode_header_decodes, uint32_size}
use rmtx.Protocol.Frame.RoundTrip.{Reads, frame-Reads}

module _ (j : Json) where
  -- A frame to send: its type, its payload and its data.
  abbrev pub Message : Type 0
  Message = Text × Option j.Payload × Bytes

  -- One `WriteBytes` after another, up to the first error.
  unfoldable pub write_all : Bytes → List Message → Bytes × Result FrameError (Unit {0})
  write_all out [] = (out, ok tt)
  write_all out ((t, payload, v) ∷ ms) =
      let (out', r) = write_bytes j out t payload v in
      elim r [ err e ↦ (out', err e) | ok _ ↦ write_all out' ms ]

  -- `n` times a header and all of its payload.
  unfoldable pub read_all : ℕ → Bytes → Result FrameError (List (Header × Bytes)) × Bytes
  read_all zero bs = (ok [], bs)
  read_all (suc n) bs =
      let (r, bs') = read_header j bs in
      elim r [
        | err e ↦ (err e, bs')
        | ok h ↦
            let (v, bs'') = read_payload h bs' in
            let (tail, bs''') = read_all n bs'' in (tail >>= (λ t. ok ((h, v) ∷ t)), bs''')
      ]

  -- What a receiver should see of a message.
  abbrev pub Shows : Message → Header × Bytes → Type 0
  Shows (t, payload, v) (h, b) =
      (h.frame_type ≡ t)
      × (h.payload_len ≡ pos (length v))
      × (header_content j payload ≡ ok h.content)
      × (b ≡ v)

  abbrev pub AllShow : List Message → List (Header × Bytes) → Type 0
  AllShow [] [] = Unit
  AllShow [] (x ∷ xs) = ⊥
  AllShow (m ∷ ms) [] = ⊥
  AllShow (m ∷ ms) (x ∷ xs) = Shows m x × AllShow ms xs

  write_bytes_grows :
      (out : Bytes) (t : Text) (payload : Option j.Payload) (v out' encoded : Bytes)
      → encode_header j t payload (pos (length v)) ≡ ok encoded
      → length encoded % 2 ^ 32 ≡ length encoded
      → write_bytes j out t payload v ≡ (out', ok tt)
      → out' ≡ out ++ frame encoded v
  unfolding write_bytes write_locked write_body write_payload
  write_bytes_grows out t payload [] out' encoded e size h = ground (arith, append-nil encoded)
  write_bytes_grows out t payload (c ∷ v) out' encoded e size h = ground (
    arith,
    append_assoc out (put_uint32 (length encoded) ++ encoded) (c ∷ v),
    append_assoc (put_uint32 (length encoded)) encoded (c ∷ v),
  )

  write_bytes_ok :
      (out : Bytes) (t : Text) (payload : Option j.Payload) (v out' : Bytes)
      → write_bytes j out t payload v ≡ (out', ok tt)
      → (encoded : Bytes) × (encode_header j t payload (pos (length v)) ≡ ok encoded)
        × (out' ≡ out ++ frame encoded v)
  unfolding write_bytes write_locked
  write_bytes_ok out t payload v out' h =
      elim (Result-cases (encode_header j t payload (pos (length v)))) [
        | inl (encoded, e) ↦
            let size = uint32_size j encoded (encode_header_checks j t payload _ encoded e).2 in
            (encoded, e, write_bytes_grows out t payload v out' encoded e size h)
        | inr (x, r) ↦ absurd (ground (arith, r))
      ]

  read_all-Reads :
      (n : ℕ) (wire rest v : Bytes) (h : Header) (xs : List (Header × Bytes)) (left : Bytes)
      → Reads j wire h v
      → read_all n rest ≡ (ok xs, left)
      → read_all (suc n) (wire ++ rest) ≡ (ok ((h, v) ∷ xs), left)
  unfolding read_all
  read_all-Reads n wire rest v h xs left r e = ground (arith, (r rest).0, (r rest).1)

  -- The bytes that one successful `write_bytes` adds, and what is read from them.
  write_bytes-Reads :
      (out : Bytes) (t : Text) (payload : Option j.Payload) (v out' : Bytes)
      → write_bytes j out t payload v ≡ (out', ok tt)
      → (wire : Bytes) × (h : Header) × (out' ≡ out ++ wire)
        × Shows (t, payload, v) (h, v)
        × Reads j wire h v
  write_bytes-Reads out t payload v out' w =
      let (encoded, e, grown) = write_bytes_ok out t payload v out' w in
      let (named, fits, size) = encode_header_checks j t payload (pos (length v)) encoded e in
      let (raw, marshalled, decodes) =
        encode_header_decodes j t payload (pos (length v)) encoded e in
      let h : Header = record { frame_type = t; payload_len = pos (length v); content = raw } in
      (
        frame encoded v,
        h,
        grown,
        (refl, refl, marshalled, refl),
        frame-Reads j encoded v h size decodes fits named refl,
      )

  write_all-cons :
      (out out' : Bytes) (t : Text) (payload : Option j.Payload) (v : Bytes) (ms : List Message)
      → write_all out ((t, payload, v) ∷ ms) ≡ (out', ok tt)
      → (mid : Bytes) × (write_bytes j out t payload v ≡ (mid, ok tt))
        × (write_all mid ms ≡ (out', ok tt))
  unfolding write_all
  write_all-cons out out' t payload v ms h =
      ((write_bytes j out t payload v).0, ground arith, ground arith)

  -- If every write of a list of messages succeeds, the stream grew by bytes from which the same
  -- number of reads gives those messages back in order, and leaves what follows them.
  pub read_all-write_all :
      (ms : List Message) (out out' : Bytes)
      → write_all out ms ≡ (out', ok tt)
      → (wire : Bytes) × (out' ≡ out ++ wire)
        × ((rest : Bytes)
            → (xs : List (Header × Bytes)) × (read_all (length ms) (wire ++ rest) ≡ (ok xs, rest))
              × AllShow ms xs)
  read_all-write_all [] out out' w =
      unfold write_all read_all in ([], cc (append-nil out), λ rest. ([], refl, tt))
  read_all-write_all ((t, payload, v) ∷ ms) out out' w =
      let (mid, first, later) = write_all-cons out out' t payload v ms w in
      let (wire, h, grown, shows, reads) = write_bytes-Reads out t payload v mid first in
      let (wires, grown', reads') = read_all-write_all ms mid out' later in
      (
        wire ++ wires,
        grown' ∙ ap (λ w. w ++ wires) grown ∙ append_assoc out wire wires,
        λ rest.
            let (xs, all_read, all_show) = reads' rest in
            (
              (h, v) ∷ xs,
              rw append_assoc
                  (read_all-Reads (length ms) wire (wires ++ rest) v h xs rest reads all_read),
              (shows, all_show),
            ),
      )
