-- ===== src/Protocol/Frame/RoundTrip.antt =====
-- Frames are read back as they were written.
use rmtx.Base.{
  ◌≡◌, refl, ap, ◌∙◌, false, Option, some, ◌++◌, ok, arith, length, length-append, take-append,
  drop-append, append_assoc,
}
use rmtx.Base.Int.{ℤ, pos_part}
use rmtx.Base.Text.{Text, is_empty}
use rmtx.Protocol.Frame.{
  Bytes, Header, Json, Source, bad_header_size, bad_payload_len, put_uint32, read_sized,
  read_header, read_payload, write_locked, header_content,
}
use rmtx.Protocol.Frame.Write.{frame, encode_header_checks, encode_header_decodes, write_locked_ok}
use rmtx.Protocol.Frame.Read.{get-put_uint32}

module _ (j : Json) where
  read_sized-append :
      (encoded rest : Bytes) (h : Header)
      → bad_header_size (length encoded) ≡ false
      → j.unmarshal_header encoded ≡ some h
      → bad_payload_len h.payload_len ≡ false
      → is_empty h.frame_type ≡ false
      → read_sized j (length encoded) (encoded ++ rest) ≡ (ok h, rest)
  unfolding read_sized
  read_sized-append encoded rest h size decodes fits named =
      ground (arith, length-append encoded rest, take-append encoded rest, drop-append encoded rest)

  -- Reading a frame that `write_locked` wrote gives its header back and stops before its payload.
  read_header-frame :
      (encoded rest : Bytes) (h : Header)
      → bad_header_size (length encoded) ≡ false
      → j.unmarshal_header encoded ≡ some h
      → bad_payload_len h.payload_len ≡ false
      → is_empty h.frame_type ≡ false
      → read_header j (put_uint32 (length encoded) ++ (encoded ++ rest)) ≡ (ok h, rest)
  unfolding read_header put_uint32
  read_header-frame encoded rest h size decodes fits named =
      ap (λ n. read_sized j n (encoded ++ rest)) (get-put_uint32 (length encoded) (ground arith))
      ∙ read_sized-append encoded rest h size decodes fits named

  -- Whatever follows the wire bytes, they are read as the header and then the payload.
  abbrev pub Reads : Bytes → Header → Bytes → Type 0
  Reads wire h body =
      (rest : Bytes)
      → (read_header j (wire ++ rest) ≡ (ok h, body ++ rest))
        × (read_payload h (body ++ rest) ≡ (body, rest))

  read_payload-append :
      (h : Header) (body rest : Bytes)
      → length body ≡ pos_part h.payload_len
      → read_payload h (body ++ rest) ≡ (body, rest)
  unfolding read_payload
  read_payload-append h body rest e =
      rw (← e) (ground (arith, take-append body rest, drop-append body rest))

  pub frame-Reads :
      (encoded body : Bytes) (h : Header)
      → bad_header_size (length encoded) ≡ false
      → j.unmarshal_header encoded ≡ some h
      → bad_payload_len h.payload_len ≡ false
      → is_empty h.frame_type ≡ false
      → length body ≡ pos_part h.payload_len
      → Reads (frame encoded body) h body
  frame-Reads encoded body h size decodes fits named len rest = (
    rw (append_assoc, append_assoc)
        (read_header-frame encoded (body ++ rest) h size decodes fits named),
    read_payload-append h body rest len,
  )

  -- A write that succeeds appends one frame to what was written before; whatever follows it, the
  -- frame is read back as the header with the type, the length and the marshalled payload of the
  -- write, then exactly the payload, and the rest of the stream stays.
  pub read-write :
      (out : Bytes) (t : Text) (payload : Option j.Payload) (src : Source) (n : ℤ) (out' : Bytes)
      → write_locked j out t payload src n ≡ (out', ok tt)
      → (wire : Bytes) × (body : Bytes) × (h : Header) × (out' ≡ out ++ wire)
        × (h.frame_type ≡ t)
        × (h.payload_len ≡ n)
        × (header_content j payload ≡ ok h.content)
        × (length body ≡ pos_part n)
        × Reads wire h body
  read-write out t payload src n out' w =
      let (encoded, body, e, len, grown) = write_locked_ok j out t payload src n out' w in
      let (named, fits, size) = encode_header_checks j t payload n encoded e in
      let (raw, marshalled, decodes) = encode_header_decodes j t payload n encoded e in
      let h : Header = record { frame_type = t; payload_len = n; content = raw } in
      (
        frame encoded body,
        body,
        h,
        grown,
        refl,
        refl,
        marshalled,
        len,
        frame-Reads encoded body h size decodes fits named len,
      )
