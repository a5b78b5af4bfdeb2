-- ===== src/Syncfs/Chunks.antt =====
-- internal/syncfs/chunked_blob.go: how blobs are cut into chunks. Sizes and offsets are `int64`.
pub mod Sizes
pub mod Tiles
pub mod Plan
use rmtx.Base.{
  ℕ, zero, suc, ◌+◌, ◌-◌, ◌*◌, ◌/◌, ◌%◌, ◌^◌, Bool, true, false, List, [], ◌∷◌, ◌++◌, Result, ok,
  err, ◌>>=◌, ◌>>◌, fail_if, not, ◌||◌, ◌==◌, ltb, leb, if◌then◌else◌, any,
}
use rmtx.Base.Int.{ℤ, pos, negsuc, is_neg, is_nonpos, pos_part, neg_part}
use rmtx.Base.Text.{Text, text_beq}
use rmtx.Syncfs.Hash.{valid_blob_hash}

abbrev pub default_blob_chunk_size : ℕ
default_blob_chunk_size = 4 * 2 ^ 20

abbrev pub max_blob_chunk_size : ℕ
max_blob_chunk_size = 64 * 2 ^ 20

abbrev pub max_blob_chunks : ℕ
max_blob_chunks = 2 ^ 20

pub record BlobDescriptor : Type 0 where
  pub hash : Text
  pub size : ℤ

pub record BlobChunkInfo : Type 0 where
  pub hash : Text
  pub size : ℤ
  pub offset : ℤ

pub data ChunkError : Type 0 where
  chunk_size_exceeds_maximum negative_size too_many_chunks : ChunkError
  invalid_offset invalid_empty_offset unaligned_offset : ChunkError
  invalid_hash duplicate_blob plan_exceeds_maximum : ChunkError
  hash_mismatch size_mismatch length_mismatch index_out_of_range : ChunkError

-- The result is positive.
unfoldable pub normalize_blob_chunk_size : ℤ → Result ChunkError ℕ
normalize_blob_chunk_size c =
    if is_nonpos c
    then ok default_blob_chunk_size
    else if ltb max_blob_chunk_size (pos_part c)
    then err chunk_size_exceeds_maximum
    else ok (pos_part c)

-- `BlobChunkCount` for a size that is not negative and a chunk size that is normalized.
unfoldable pub count_chunks : ℕ → ℕ → Result ChunkError ℕ
count_chunks size chunk =
    if size == 0
    then ok 1
    else let count = 1 + (size - 1) / chunk in
      if ltb max_blob_chunks count then err too_many_chunks else ok count

unfoldable pub blob_chunk_count : ℤ → ℤ → Result ChunkError ℕ
blob_chunk_count size c = do
  fail_if (is_neg size) negative_size
  chunk ← normalize_blob_chunk_size c
  count_chunks (pos_part size) chunk

-- `BlobChunkPayloadLen` behind its range checks.
unfoldable pub payload_len_at : ℕ → ℕ → ℕ → Result ChunkError ℕ
payload_len_at size offset chunk =
    if ltb size offset
    then err invalid_offset
    else if size == 0
    then (if offset == 0 then ok 0 else err invalid_empty_offset)
    else if not (offset % chunk == 0)
    then err unaligned_offset
    else if ltb (size - offset) chunk
    then ok (size - offset)
    else ok chunk

unfoldable pub blob_chunk_payload_len : BlobChunkInfo → ℤ → Result ChunkError ℕ
blob_chunk_payload_len info c = do
  chunk ← normalize_blob_chunk_size c
  fail_if (is_neg info.size) negative_size
  fail_if (is_neg info.offset) invalid_offset
  payload_len_at (pos_part info.size) (pos_part info.offset) chunk

-- The first loop of `PlanBlobChunks`: the hashes seen, and the chunks counted so far.
unfoldable pub count_plan : List BlobDescriptor → List Text → ℕ → ℤ → Result ChunkError ℕ
count_plan [] seen total c = ok total
count_plan (b ∷ blobs) seen total c = do
  fail_if (not (valid_blob_hash b.hash)) invalid_hash
  fail_if (any (λ h. text_beq h b.hash) seen) duplicate_blob
  count ← blob_chunk_count b.size c
  fail_if (ltb (max_blob_chunks - total) count) plan_exceeds_maximum
  count_plan blobs (b.hash ∷ seen) (total + count) c

-- `for offset := 0; offset < size; offset += chunkSize`, on as many rounds as there are chunks.
unfoldable pub chunk_loop : ℕ → Text → ℕ → ℕ → ℕ → List BlobChunkInfo
chunk_loop zero hash size offset chunk = []
chunk_loop (suc rounds) hash size offset chunk =
    let rest = chunk_loop rounds hash size (offset + chunk) chunk in
    if ltb offset size
    then record { hash = hash; size = pos size; offset = pos offset } ∷ rest
    else []

-- The second loop's body: the chunks of one blob.
unfoldable pub chunks_of : BlobDescriptor → ℕ → List BlobChunkInfo
chunks_of b chunk =
    if pos_part b.size == 0
    then record { hash = b.hash; size = pos 0; offset = pos 0 } ∷ []
    else chunk_loop (1 + (pos_part b.size - 1) / chunk) b.hash (pos_part b.size) 0 chunk

unfoldable pub chunks_of_all : List BlobDescriptor → ℕ → List BlobChunkInfo
chunks_of_all [] chunk = []
chunks_of_all (b ∷ blobs) chunk = chunks_of b chunk ++ chunks_of_all blobs chunk

unfoldable pub plan_blob_chunks : List BlobDescriptor → ℤ → Result ChunkError (List BlobChunkInfo)
plan_blob_chunks blobs c = do
  chunk ← normalize_blob_chunk_size c
  total ← count_plan blobs [] 0 (pos chunk)
  ok (chunks_of_all blobs chunk)

-- `index := 0; if size > 0 { index = int(offset / chunkSize) }`
abbrev pub chunk_index : ℕ → ℕ → ℕ → ℕ
chunk_index size offset chunk = if size == 0 then 0 else offset / chunk

unfoldable pub validate_blob_chunk_shape :
    BlobChunkInfo → Text → ℕ → ℕ → ℕ → Result ChunkError (Unit {0})
validate_blob_chunk_shape info hash size chunk payload_len = do
  fail_if (not (text_beq info.hash hash)) hash_mismatch
  fail_if (is_neg info.size || not (pos_part info.size == size)) size_mismatch
  want ← blob_chunk_payload_len info (pos chunk)
  fail_if (not (payload_len == want)) length_mismatch
  count ← blob_chunk_count (pos size) (pos chunk)
  fail_if (leb count (chunk_index size (pos_part info.offset) chunk)) index_out_of_range
