-- ===== src/Syncfs/Receiver/Progress/Announced.antt =====
-- Which blobs a receiver was told of, from its start to its end.
use rmtx.Base.{
  ℕ, ◌-◌, ◌≡◌, refl, ap, sym, Bool, true, false, Option, none, some, List, [], ◌∷◌, Result, ok, err,
  Bool-cases, Option-cases, Result-cases, inl, inr, arith, Member, ltb, length, take,
}
use rmtx.Base.Int.{ℤ, pos_part, is_neg}
use rmtx.Base.Dict.{lookup, insert, remove, lookup-insert}
use rmtx.Base.Text.{Text, text_beq_iff, text_key}
use rmtx.Syncfs.Hash.{valid_blob_hash}
use rmtx.Syncfs.Chunks.{
  BlobDescriptor, BlobChunkInfo, ChunkError, normalize_blob_chunk_size, validate_blob_chunk_shape,
  chunk_index,
}
use rmtx.Syncfs.Receiver.Progress.Start.{initial}
use rmtx.Syncfs.Receiver.{
  Bytes, BlobStore, Writer, Receiver, ReceiveError, Disk, has, close_done, fail, announce,
  add_writer, new_writer, add_blob, add_blobs, new_receiver, receive_known, commit, after_commit,
  write_chunk, after_write, receive_payload, after_check, receive_for, receive_healthy,
  receive_chunk,
}

close_done-blobs : (r : Receiver) → (close_done r).blobs ≡ r.blobs
unfolding close_done
close_done-blobs r = refl

fail-blobs : (r : Receiver) (e : ReceiveError) → (fail r e).0.blobs ≡ r.blobs
unfolding fail
fail-blobs r e = elim (Option-cases r.failure) [
  | inl fine ↦ ground (arith, fine, close_done-blobs (record r { failure = some e; writers = [] }))
  | inr (first, bad) ↦ ground (arith, bad)
]

module _ (digest : Bytes → Text) where
  -- A step leaves what was announced.
  after_commit-blobs :
      (r : Receiver) (w : Writer) (o : Result ReceiveError BlobStore)
      → ((after_commit digest r w o).1).blobs ≡ r.blobs
  unfolding after_commit
  after_commit-blobs r w (err e) =
      fail-blobs (record r { writers = insert w.hash (record w { committed = true }) r.writers }) e
  after_commit-blobs r w (ok store) =
      close_done-blobs
        (record r { store = store; writers = remove w.hash r.writers; pending = r.pending - 1 })

  receive_known-blobs :
      (r : Receiver) (info : BlobChunkInfo) (src : Bytes) (n : ℕ)
      → ((receive_known digest r info src n).1).blobs ≡ r.blobs
  unfolding receive_known
  receive_known-blobs r info src n = elim (Option-cases (lookup info.hash r.blobs)) [
    | inl none_known ↦ ground (arith, none_known, fail-blobs r ReceiveError.unexpected_chunk)
    | inr (size, known) ↦ elim (Bool-cases (has digest r.store info.hash size)) [
      | inr missing ↦ ground (arith, known, missing, fail-blobs r ReceiveError.unexpected_chunk)
      | inl there ↦
          elim (Result-cases (validate_blob_chunk_shape info info.hash size r.chunk_size n)) [
            | inl (u, fits) ↦ ground (arith, known, there, fits)
            | inr (e, bad) ↦ ground (arith, known, there, bad, fail-blobs r (ReceiveError.shape e))
          ]
    ]
  ]

  after_write-blobs :
      (disk : Disk) (r : Receiver) (w : Writer) (o : Result ReceiveError Bool)
      → ((after_write digest disk r w o).1).blobs ≡ r.blobs
  unfolding after_write
  after_write-blobs disk r w (err e) = fail-blobs r e
  after_write-blobs disk r w (ok false) = refl
  after_write-blobs disk r w (ok true) = after_commit-blobs r w (commit digest disk w r.store)

  receive_payload-blobs :
      (disk : Disk) (r : Receiver) (w : Writer) (offset : ℕ) (src : Bytes) (n : ℕ)
      → ((receive_payload digest disk r w offset src n).1).blobs ≡ r.blobs
  unfolding receive_payload
  receive_payload-blobs disk r w offset src n = elim (Bool-cases (ltb (length src) n)) [
    | inl short ↦ simp short refl
    | inr whole ↦
        let out = write_chunk disk w (chunk_index w.size offset r.chunk_size) offset (take n src) in
        simp whole (after_write-blobs disk r out.1 out.0)
  ]

  after_check-blobs :
      (disk : Disk) (r : Receiver) (w : Writer) (offset : ℕ) (src : Bytes) (n : ℕ)
      (o : Result ChunkError (Unit {0}))
      → ((after_check digest disk r w offset src n o).1).blobs ≡ r.blobs
  unfolding after_check
  after_check-blobs disk r w offset src n (err e) = fail-blobs r (ReceiveError.shape e)
  after_check-blobs disk r w offset src n (ok u) = receive_payload-blobs disk r w offset src n

  receive_healthy-blobs :
      (disk : Disk) (r : Receiver) (info : BlobChunkInfo) (src : Bytes) (n : ℕ) (o : Option Writer)
      → ((receive_healthy digest disk r info src n o).1).blobs ≡ r.blobs
  unfolding receive_healthy receive_for
  receive_healthy-blobs disk r info src n none = receive_known-blobs r info src n
  receive_healthy-blobs disk r info src n (some w) =
      after_check-blobs disk r w (pos_part info.offset) src n
        (validate_blob_chunk_shape info w.hash w.size r.chunk_size n)

  pub receive_chunk-blobs :
      (disk : Disk) (r : Receiver) (info : BlobChunkInfo) (src : Bytes) (payload_len : ℤ)
      → ((receive_chunk digest disk r info src payload_len).1).blobs ≡ r.blobs
  unfolding receive_chunk
  receive_chunk-blobs disk r info src payload_len = elim (Bool-cases (is_neg payload_len)) [
    | inl bad ↦ simp bad (fail-blobs r ReceiveError.negative_chunk_length)
    | inr fine ↦ elim (Option-cases r.failure) [
      | inr (e, failed) ↦ simp (fine, failed) refl
      | inl healthy ↦
          simp (fine, healthy)
            (receive_healthy-blobs disk r info src (pos_part payload_len)
              (lookup info.hash r.writers))
    ]
  ]

  -- What one descriptor that is taken adds, and that all others stay.
  add_blob-lookup :
      (disk : Disk) (r next : Receiver) (b : BlobDescriptor)
      → add_blob digest disk r b ≡ ok next
      → (is_neg b.size ≡ false)
        × (lookup b.hash r.blobs ≡ none)
        × (next.blobs ≡ insert b.hash (pos_part b.size) r.blobs)
  unfolding add_blob
  add_blob-lookup disk r next b e = elim (Bool-cases (valid_blob_hash b.hash)) [
    | inr bad ↦ let refused = simp bad at e in cc
    | inl valid ↦ elim (Bool-cases (is_neg b.size)) [
      | inl bad ↦ let refused = simp (valid, bad) at e in cc
      | inr sized ↦ elim (Option-cases (lookup b.hash r.blobs)) [
        | inr (old, known) ↦ let refused = simp (valid, sized, known) at e in cc
        | inl new ↦ elim (Bool-cases (has digest r.store b.hash (pos_part b.size))) [
          | inl there ↦
              let done = simp (valid, sized, new, there) at e in
              let same : announce b r ≡ next = cc in (sized, new, ap (λ x. x.blobs) (sym same))
          | inr missing ↦ elim (Result-cases (new_writer disk b r.chunk_size)) [
            | inr (fault, bad) ↦ let refused = simp (valid, sized, new, missing, bad) at e in cc
            | inl (w, made) ↦
                let done = simp (valid, sized, new, missing, made) at e in
                let same : add_writer w (announce b r) ≡ next = cc in
                (sized, new, ap (λ x. x.blobs) (sym same))
          ]
        ]
      ]
    ]
  ]

  add_blobs-next :
      (disk : Disk) (blobs : List BlobDescriptor) (r next last : Receiver) (b : BlobDescriptor)
      → add_blobs digest disk r (b ∷ blobs) ≡ ok last
      → add_blob digest disk r b ≡ ok next
      → add_blobs digest disk next blobs ≡ ok last
  unfolding add_blobs
  add_blobs-next disk blobs r next last b e d = ground (arith, e, d)

  add_blobs-step :
      (disk : Disk) (blobs : List BlobDescriptor) (r last : Receiver) (b : BlobDescriptor)
      → add_blobs digest disk r (b ∷ blobs) ≡ ok last
      → (next : Receiver) × (add_blob digest disk r b ≡ ok next)
        × (add_blobs digest disk next blobs ≡ ok last)
  unfolding add_blobs
  add_blobs-step disk blobs r last b e = elim (Result-cases (add_blob digest disk r b)) [
    | inr (fault, d) ↦ absurd (ground (arith, e, d))
    | inl (next, d) ↦ (next, d, add_blobs-next disk blobs r next last b e d)
  ]

  add_blobs-keeps :
      (disk : Disk) (blobs : List BlobDescriptor) (r last : Receiver) (h : Text) (size : ℕ)
      → add_blobs digest disk r blobs ≡ ok last
      → lookup h r.blobs ≡ some size
      → lookup h last.blobs ≡ some size
  unfolding add_blobs
  add_blobs-keeps disk [] r last h size e known = let same : r ≡ last = cc in rw⁻¹ same known
  add_blobs-keeps disk (b ∷ blobs) r last h size e known =
      let (next, d, rest) = add_blobs-step disk blobs r last b e in
      let (sized, new, grown) = add_blob-lookup disk r next b d in
      add_blobs-keeps disk blobs next last h size rest (
        rw grown (
          ground (
            arith,
            known,
            new,
            lookup-insert b.hash h (pos_part b.size) r.blobs,
            text_beq_iff b.hash h,
          )))

  add_blobs-Member :
      (disk : Disk) (blobs : List BlobDescriptor) (r last : Receiver) (b : BlobDescriptor)
      → add_blobs digest disk r blobs ≡ ok last
      → Member b blobs
      → (is_neg b.size ≡ false) × (lookup b.hash last.blobs ≡ some (pos_part b.size))
  unfolding add_blobs
  add_blobs-Member disk [] r last b e m = absurd m
  add_blobs-Member disk (c ∷ blobs) r last b e m =
      let (next, d, rest) = add_blobs-step disk blobs r last c e in
      elim m [
        | inr later ↦ add_blobs-Member disk blobs next last b rest later
        | inl own ↦
            let (sized, new, grown) = add_blob-lookup disk r next c d in
            let here : lookup c.hash next.blobs ≡ some (pos_part c.size) = rw grown (
              ground (
                arith,
                lookup-insert c.hash c.hash (pos_part c.size) r.blobs,
                text_beq_iff c.hash c.hash,
              )) in
            rw own (sized, add_blobs-keeps disk blobs next last c.hash (pos_part c.size) rest here)
      ]

  -- A receiver knows each blob that it was made for, with its size.
  pub new_receiver-Member :
      (disk : Disk) (store : BlobStore) (blobs : List BlobDescriptor) (c : ℤ) (r : Receiver)
      (b : BlobDescriptor)
      → new_receiver digest disk store blobs c ≡ ok r
      → Member b blobs
      → (is_neg b.size ≡ false) × (lookup b.hash r.blobs ≡ some (pos_part b.size))
  unfolding new_receiver
  new_receiver-Member disk store blobs c r b e m =
      elim (Result-cases (normalize_blob_chunk_size c)) [
        | inr (bad, d) ↦ absurd (ground (arith, e, d))
        | inl (chunk, d) ↦
            elim (Result-cases (add_blobs digest disk (initial digest store chunk) blobs)) [
              | inr (bad, f) ↦ absurd (ground (arith, e, d, f))
              | inl (last, f) ↦
                  let (sized, known) =
                    add_blobs-Member disk blobs (initial digest store chunk) last b f m in
                  let same : last.blobs ≡ r.blobs = ground (arith, e, d, f) in
                  (sized, rw⁻¹ same known)
            ]
      ]
