-- ===== src/Syncfs/Chunks/Sizes.antt =====
-- How many chunks a blob has, and how long each is.
use rmtx.Base.{ℕ, ◌+◌, ◌-◌, ◌*◌, ◌/◌, ◌%◌, ◌≡◌, ◌≤◌, ◌<◌, ok, arith, min}
use rmtx.Base.Int.{ℤ, pos}
use rmtx.Base.Text.{Text}
use rmtx.Syncfs.Chunks.{
  normalize_blob_chunk_size, count_chunks, blob_chunk_count, payload_len_at, blob_chunk_payload_len,
  max_blob_chunk_size, max_blob_chunks,
}

pub normalize_bounds :
    (c : ℤ) (chunk : ℕ)
    → normalize_blob_chunk_size c ≡ ok chunk
    → (0 < chunk) × (chunk ≤ max_blob_chunk_size)
unfolding normalize_blob_chunk_size
normalize_bounds c chunk h = ground arith

-- Normalizing again changes nothing.
pub normalize_idem :
    (chunk : ℕ)
    → 0 < chunk
    → chunk ≤ max_blob_chunk_size
    → normalize_blob_chunk_size (pos chunk) ≡ ok chunk
unfolding normalize_blob_chunk_size
normalize_idem chunk h k = ground arith

div_tight : (m chunk : ℕ) → 0 < chunk → (m / chunk * chunk ≤ m) × (m < m / chunk * chunk + chunk)
div_tight m chunk h = (grind arith, grind arith)

pub count_chunks_value :
    (size chunk n : ℕ)
    → 0 < size
    → count_chunks size chunk ≡ ok n
    → (n ≡ 1 + (size - 1) / chunk) × (n ≤ max_blob_chunks)
unfolding count_chunks
count_chunks_value size chunk n hs h = ground arith

-- All chunks but the last are full, and together they cover the blob.
pub rounds_cover :
    (size chunk : ℕ)
    → 0 < chunk
    → 0 < size
    → ((size - 1) / chunk * chunk < size) × (size ≤ (1 + (size - 1) / chunk) * chunk)
rounds_cover size chunk hc hs = omega (arith, div_tight (size - 1) chunk hc)

-- A count that `BlobChunkCount` returns is at least 1 and at most the maximum, all chunks but the
-- last are full, and the chunks cover the blob.
pub blob_chunk_count_bounds :
    (size : ℕ) (c : ℤ) (n chunk : ℕ)
    → 0 < size
    → normalize_blob_chunk_size c ≡ ok chunk
    → blob_chunk_count (pos size) c ≡ ok n
    → (0 < n) × (n ≤ max_blob_chunks) × ((n - 1) * chunk < size) × (size ≤ n * chunk)
unfolding blob_chunk_count
blob_chunk_count_bounds size c n chunk hs hn h =
    let (value, small) = count_chunks_value size chunk n hs (ground (arith, hn)) in
    let (below, above) = rounds_cover size chunk (normalize_bounds c chunk hn).0 hs in
    let q = (size - 1) / chunk in
    let last : n - 1 ≡ q = omega arith in (omega arith, small, rw last below, rw value above)

-- A full chunk, or what is left of the blob.
pub payload_len_inside :
    (hash : Text) (size offset chunk : ℕ)
    → 0 < chunk
    → chunk ≤ max_blob_chunk_size
    → offset < size
    → offset % chunk ≡ 0
    → blob_chunk_payload_len
        (record { hash = hash; size = pos size; offset = pos offset })
        (pos chunk)
      ≡ ok (min chunk (size - offset))
unfolding blob_chunk_payload_len payload_len_at
payload_len_inside hash size offset chunk hc hm lt aligned =
    ground (arith, normalize_idem chunk hc hm)
