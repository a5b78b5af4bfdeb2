-- ===== src/Syncfs/Chunks/Plan.antt =====
-- A plan cuts every blob into chunks that lie one behind the other and that a receiver accepts.
use rmtx.Base.{
  ℕ, ◌+◌, ◌-◌, ◌≡◌, ◌≤◌, ◌<◌, refl, true, false, ok, List, [], ◌∷◌, arith, inl, inr, All, any,
  Result-cases, >>=-parts, length, length-append,
}
use rmtx.Base.Int.{ℤ, pos, pos_part, is_neg}
use rmtx.Base.Text.{Text, text_beq, text_key}
use rmtx.Syncfs.Hash.{valid_blob_hash}
use rmtx.Syncfs.Chunks.{
  BlobDescriptor, BlobChunkInfo, normalize_blob_chunk_size, count_chunks, blob_chunk_count,
  max_blob_chunk_size, max_blob_chunks, chunks_of, chunks_of_all, count_plan, plan_blob_chunks,
}
use rmtx.Syncfs.Chunks.Tiles.{Tiles, chunks_of-Tiles, length-chunks_of}
use rmtx.Syncfs.Chunks.Sizes.{normalize_bounds, normalize_idem}

-- What the first loop of a plan checked of each blob.
abbrev pub IsPlanned : ℕ → BlobDescriptor → Type 0
IsPlanned chunk b =
    (valid_blob_hash b.hash ≡ true)
    × (is_neg b.size ≡ false)
    × (count : ℕ) × (count_chunks (pos_part b.size) chunk ≡ ok count)

-- No hash twice, nor one of those seen before.
abbrev pub AreDistinct : List BlobDescriptor → List Text → Type 0
AreDistinct [] seen = Unit
AreDistinct (b ∷ blobs) seen =
    (any (λ h. text_beq h b.hash) seen ≡ false) × AreDistinct blobs (b.hash ∷ seen)

count_plan-cons :
    (b : BlobDescriptor) (blobs : List BlobDescriptor) (seen : List Text) (total n : ℕ) (c : ℤ)
    → count_plan (b ∷ blobs) seen total c ≡ ok n
    → (count : ℕ) × (blob_chunk_count b.size c ≡ ok count)
      × (count ≤ max_blob_chunks - total)
      × (valid_blob_hash b.hash ≡ true)
      × (any (λ h. text_beq h b.hash) seen ≡ false)
      × (count_plan blobs (b.hash ∷ seen) (total + count) c ≡ ok n)
unfolding count_plan
count_plan-cons b blobs seen total n c h = elim (Result-cases (blob_chunk_count b.size c)) [
  | inl (count, e) ↦ (count, e, ground arith, ground arith, ground arith, ground arith)
  | inr (x, e) ↦ absurd (ground (arith, e))
]

count_of_blob :
    (b : BlobDescriptor) (chunk count : ℕ)
    → 0 < chunk
    → chunk ≤ max_blob_chunk_size
    → blob_chunk_count b.size (pos chunk) ≡ ok count
    → (is_neg b.size ≡ false) × (count_chunks (pos_part b.size) chunk ≡ ok count)
unfolding blob_chunk_count
count_of_blob b chunk count hc hm h = ground (arith, normalize_idem chunk hc hm)

count_plan_ok :
    (blobs : List BlobDescriptor) (seen : List Text) (total n chunk : ℕ)
    → 0 < chunk
    → chunk ≤ max_blob_chunk_size
    → total ≤ max_blob_chunks
    → count_plan blobs seen total (pos chunk) ≡ ok n
    → All (IsPlanned chunk) blobs
      × AreDistinct blobs seen
      × (n ≡ total + length (chunks_of_all blobs chunk))
      × (n ≤ max_blob_chunks)
unfolding chunks_of_all
count_plan_ok [] seen total n chunk hc hm small h =
    unfold count_plan in (tt, tt, ground arith, ground arith)
count_plan_ok (b ∷ blobs) seen total n chunk hc hm small h =
    let (count, e, fits, valid, new, later) = count_plan-cons b blobs seen total n (pos chunk) h in
    let (sign, counted) = count_of_blob b chunk count hc hm e in
    let (each, distinct, total_is, bound) =
      count_plan_ok blobs (b.hash ∷ seen) (total + count) n chunk hc hm (omega arith) later in
    (
      ((valid, sign, count, counted), each),
      (new, distinct),
      omega (
        arith,
        length-append (chunks_of b chunk) (chunks_of_all blobs chunk),
        length-chunks_of b chunk count hc counted,
      ),
      bound,
    )

abbrev pub IsCut : ℕ → BlobDescriptor → Type 0
IsCut chunk b =
    (valid_blob_hash b.hash ≡ true)
    × (is_neg b.size ≡ false)
    × Tiles b.hash (pos_part b.size) chunk 0 (chunks_of b chunk)

planned-Tiles :
    (blobs : List BlobDescriptor) (chunk : ℕ)
    → 0 < chunk
    → chunk ≤ max_blob_chunk_size
    → All (IsPlanned chunk) blobs
    → All (IsCut chunk) blobs
planned-Tiles [] chunk hc hm h = tt
planned-Tiles (b ∷ blobs) chunk hc hm ((valid, sign, count, counted), h) = (
  (valid, sign, chunks_of-Tiles b.hash (pos_part b.size) chunk count hc hm counted b refl refl),
  planned-Tiles blobs chunk hc hm h,
)

-- A plan succeeds only for distinct valid hashes and sizes that are not negative. It is then the
-- blobs' chunks in order, at most 2 ^ 20, and the chunks of each blob tile it and are accepted.
pub plan_blob_chunks-Tiles :
    (blobs : List BlobDescriptor) (c : ℤ) (chunks : List BlobChunkInfo)
    → plan_blob_chunks blobs c ≡ ok chunks
    → (chunk : ℕ) × (normalize_blob_chunk_size c ≡ ok chunk)
      × (chunks ≡ chunks_of_all blobs chunk)
      × (length chunks ≤ max_blob_chunks)
      × AreDistinct blobs []
      × All (IsCut chunk) blobs
unfolding plan_blob_chunks
plan_blob_chunks-Tiles blobs c chunks h =
    let (chunk, e, h') = >>=-parts (normalize_blob_chunk_size c) _ h in
    let (n, counted, h'') = >>=-parts (count_plan blobs [] 0 (pos chunk)) _ h' in
    let (hc, hm) = normalize_bounds c chunk e in
    let (each, distinct, total_is, bound) =
      count_plan_ok blobs [] 0 n chunk hc hm (omega arith) counted in
    let same_chunks : chunks ≡ chunks_of_all blobs chunk = cc in
    (
      chunk,
      e,
      same_chunks,
      rw same_chunks (omega arith),
      distinct,
      planned-Tiles blobs chunk hc hm each,
    )
