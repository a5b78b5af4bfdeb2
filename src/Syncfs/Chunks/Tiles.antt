-- ===== src/Syncfs/Chunks/Tiles.antt =====
-- The chunks of one blob lie one behind the other, cover it, and are accepted by a receiver.
use rmtx.Base.{
  ℕ, zero, suc, ◌+◌, ◌-◌, ◌*◌, ◌/◌, ◌%◌, ◌≡◌, ◌≤◌, ◌<◌, refl, ok, List, [], ◌∷◌, arith, ltb, ◌==◌,
  inl, inr, Bool-cases, min, is_key_self, leb, ltb→lt, length,
}
use rmtx.Base.Int.{pos, pos_part}
use rmtx.Base.Text.{Text, text_key}
use native.Mathlib.Nat.{mul-mod_right, div-lt_iff_lt-mul}
use rmtx.Syncfs.Chunks.{
  BlobDescriptor, BlobChunkInfo, count_chunks, blob_chunk_count, payload_len_at,
  blob_chunk_payload_len, max_blob_chunk_size, chunk_loop, chunks_of, validate_blob_chunk_shape,
}
use rmtx.Syncfs.Chunks.Sizes.{normalize_idem, rounds_cover, count_chunks_value, payload_len_inside}

-- The chunks of a blob from `offset` on: each starts where the one before it ends, has the length
-- that `BlobChunkPayloadLen` computes, passes the receiver's check with a payload of that length,
-- and the last ends where the blob ends.
abbrev pub Tiles : Text → ℕ → ℕ → ℕ → List BlobChunkInfo → Type 0
Tiles hash size chunk offset [] = offset ≡ size
Tiles hash size chunk offset (c ∷ cs) =
    (c ≡ record { hash = hash; size = pos size; offset = pos offset })
    × (n : ℕ) × (blob_chunk_payload_len c (pos chunk) ≡ ok n)
    × (validate_blob_chunk_shape c hash size chunk n ≡ ok tt)
    × Tiles hash size chunk (offset + n) cs

chunk_loop_done :
    (rounds : ℕ) (hash : Text) (size offset chunk : ℕ)
    → size ≤ offset
    → chunk_loop rounds hash size offset chunk ≡ []
unfolding chunk_loop
chunk_loop_done zero hash size offset chunk h = refl
chunk_loop_done (suc rounds) hash size offset chunk h = ground arith

module _ (hash : Text) (size chunk count : ℕ) (hc : 0 < chunk) (hm : chunk ≤ max_blob_chunk_size)
    (counted : count_chunks size chunk ≡ ok count) where
  count_of : blob_chunk_count (pos size) (pos chunk) ≡ ok count
  unfolding blob_chunk_count
  count_of = ground (arith, counted, normalize_idem chunk hc hm)

  index_inside : (offset : ℕ) → offset < size → offset / chunk < count
  index_inside offset lt =
      let (value, _) = count_chunks_value size chunk count (omega arith) counted in
      rw value ((div-lt_iff_lt-mul hc).1 (omega (arith, rounds_cover size chunk hc)))

  shape_inside :
      (offset : ℕ)
      → offset < size
      → offset % chunk ≡ 0
      → validate_blob_chunk_shape
          (record { hash = hash; size = pos size; offset = pos offset })
          hash
          size
          chunk
          (min chunk (size - offset))
        ≡ ok tt
  unfolding validate_blob_chunk_shape
  shape_inside offset lt aligned = ground (
    arith,
    is_key_self hash,
    count_of,
    payload_len_inside hash size offset chunk hc hm lt aligned,
    index_inside offset lt,
  )

  -- Behind a chunk the loop goes on at the next multiple, or is done.
  next_chunk-Tiles :
      (rounds offset : ℕ)
      → offset < size
      → (offset + chunk ≤ size
          → Tiles hash size chunk
              (offset + chunk)
              (chunk_loop rounds hash size (offset + chunk) chunk))
      → Tiles hash size chunk
          (offset + min chunk (size - offset))
          (chunk_loop rounds hash size (offset + chunk) chunk)
  next_chunk-Tiles rounds offset lt more = elim (Bool-cases (leb (offset + chunk) size)) [
    | inl fits ↦
        let e : min chunk (size - offset) ≡ chunk = ground arith in rw e (more (ground arith))
    | inr short ↦
        rw (chunk_loop_done rounds hash size (offset + chunk) chunk (ground arith)) (ground arith)
  ]

  chunk_loop-Tiles :
      (rounds offset k : ℕ)
      → offset ≡ chunk * k
      → offset ≤ size
      → size ≤ offset + rounds * chunk
      → Tiles hash size chunk offset (chunk_loop rounds hash size offset chunk)
  unfolding chunk_loop
  chunk_loop-Tiles zero offset k e lo hi = omega arith
  chunk_loop-Tiles (suc rounds) offset k e lo hi = elim (Bool-cases (ltb offset size)) [
    | inr done ↦ rw done (ground arith)
    | inl inside ↦
        let aligned : offset % chunk ≡ 0 = rw e (mul-mod_right chunk k) in
        let lt : offset < size = ltb→lt offset size inside in
        rw inside (
          refl,
          min chunk (size - offset),
          payload_len_inside hash size offset chunk hc hm lt aligned,
          shape_inside offset lt aligned,
          next_chunk-Tiles rounds offset lt (λ fits.
              chunk_loop-Tiles rounds (offset + chunk) (suc k) (grind arith) fits (grind arith)),
        )
  ]

  count_of_empty : blob_chunk_count (pos 0) (pos chunk) ≡ ok 1
  unfolding blob_chunk_count count_chunks
  count_of_empty = ground (arith, normalize_idem chunk hc hm)

  empty-Tiles :
      size ≡ 0 → Tiles hash size chunk 0 (record { hash = hash; size = pos 0; offset = pos 0 } ∷ [])
  unfolding validate_blob_chunk_shape blob_chunk_payload_len payload_len_at
  empty-Tiles e =
      let fits = normalize_idem chunk hc hm in
      rw e (
        refl,
        0,
        ground (arith, fits),
        ground (arith, fits, is_key_self hash, count_of_empty),
        omega arith,
      )

  -- The chunks of one blob tile it; an empty blob has one empty chunk.
  pub chunks_of-Tiles :
      (b : BlobDescriptor)
      → b.hash ≡ hash
      → pos_part b.size ≡ size
      → Tiles hash size chunk 0 (chunks_of b chunk)
  unfolding chunks_of
  chunks_of-Tiles b eh es =
      rw (eh, es)
        (elim (Bool-cases (size == 0)) [
          | inl empty ↦ rw empty (empty-Tiles (ground arith))
          | inr full ↦ rw full (
              chunk_loop-Tiles (1 + (size - 1) / chunk) 0 0 (omega arith) (omega arith)
                (omega (arith, rounds_cover size chunk hc)))
        ])

length-chunk_loop :
    (m : ℕ) (hash : Text) (size offset chunk : ℕ)
    → offset + m * chunk < size
    → length (chunk_loop (suc m) hash size offset chunk) ≡ suc m
unfolding chunk_loop
length-chunk_loop zero hash size offset chunk h = ground arith
length-chunk_loop (suc m) hash size offset chunk h =
    let inside : offset + chunk + m * chunk < size = grind arith in
    ground (arith, length-chunk_loop m hash size (offset + chunk) chunk inside)

pub length-chunks_of :
    (b : BlobDescriptor) (chunk count : ℕ)
    → 0 < chunk
    → count_chunks (pos_part b.size) chunk ≡ ok count
    → length (chunks_of b chunk) ≡ count
length-chunks_of b chunk count hc counted = elim (Bool-cases (pos_part b.size == 0)) [
  | inl empty ↦ unfold chunks_of count_chunks in ground (arith, counted)
  | inr full ↦
      let size = pos_part b.size in
      let some_bytes : 0 < size = ground (arith, full) in
      let (value, _) = count_chunks_value size chunk count some_bytes counted in
      let m = (size - 1) / chunk in
      let (below, _) = rounds_cover size chunk hc some_bytes in
      let e : 1 + m ≡ suc m = omega arith in
      unfold chunks_of in
      rw (full, value, e) (length-chunk_loop m b.hash size 0 chunk (omega arith))
]
