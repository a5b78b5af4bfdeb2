-- ===== src/Syncfs/Receiver/Progress/NewWriter.antt =====
-- The writers that a receiver starts with.
use rmtx.Base.{
  ℕ, zero, suc, ◌≡◌, ◌≤◌, ◌<◌, refl, sym, ap, ◌∙◌, true, false, ok, arith, length, replicate,
  length-replicate, Result-cases, inl, inr,
}
use mathlib.Core.Path.{subst}
use rmtx.Base.Int.{pos, pos_part}
use rmtx.Base.Text.{text_key}
use rmtx.Syncfs.Hash.{valid_blob_hash}
use rmtx.Syncfs.Chunks.{BlobDescriptor, max_blob_chunk_size, count_chunks, blob_chunk_count}
use rmtx.Syncfs.Chunks.Sizes.{normalize_idem}
use rmtx.Syncfs.Receiver.{Writer, Disk, empty_writer, new_writer}
use rmtx.Syncfs.Receiver.Writers.{IsOpen, count_true}

count_true-replicate : (n : ℕ) → count_true (replicate n false) ≡ 0
count_true-replicate zero = refl
count_true-replicate (suc n) = count_true-replicate n

count_chunks_pos : (size chunk count : ℕ) → count_chunks size chunk ≡ ok count → 0 < count
unfolding count_chunks
count_chunks_pos size chunk count e = ground (arith, e)

blob_chunk_count-chunks :
    (b : BlobDescriptor) (chunk count : ℕ)
    → 0 < chunk
    → chunk ≤ max_blob_chunk_size
    → blob_chunk_count b.size (pos chunk) ≡ ok count
    → count_chunks (pos_part b.size) chunk ≡ ok count
unfolding blob_chunk_count
blob_chunk_count-chunks b chunk count lo hi e = ground (arith, e, normalize_idem chunk lo hi)

empty_writer-IsOpen :
    (b : BlobDescriptor) (chunk count : ℕ)
    → valid_blob_hash b.hash ≡ true
    → count_chunks (pos_part b.size) chunk ≡ ok count
    → IsOpen chunk (empty_writer b count)
empty_writer-IsOpen b chunk count valid e = record {
  valid = valid;
  is_open = refl;
  count = e ∙ ap ok (sym (length-replicate count false));
  counted = sym (count_true-replicate count);
  sized = length-replicate (pos_part b.size) 0;
}

-- A writer that is open for its blob and still misses chunks.
abbrev pub Waits : ℕ → BlobDescriptor → Writer → Type 0
Waits chunk b w =
    (w.hash ≡ b.hash) × (w.size ≡ pos_part b.size) × (w.done < length w.completed) × IsOpen chunk w

empty_writer-Waits :
    (b : BlobDescriptor) (chunk count : ℕ)
    → valid_blob_hash b.hash ≡ true
    → count_chunks (pos_part b.size) chunk ≡ ok count
    → Waits chunk b (empty_writer b count)
empty_writer-Waits b chunk count valid e = (
  refl,
  refl,
  omega (arith, count_chunks_pos (pos_part b.size) chunk count e, length-replicate count false),
  empty_writer-IsOpen b chunk count valid e,
)

new_writer-is_empty :
    (disk : Disk) (b : BlobDescriptor) (chunk : ℕ) (w : Writer)
    → new_writer disk b chunk ≡ ok w
    → (count : ℕ) × (valid_blob_hash b.hash ≡ true)
      × (blob_chunk_count b.size (pos chunk) ≡ ok count)
      × (empty_writer b count ≡ w)
unfolding new_writer
new_writer-is_empty disk b chunk w e = elim (Result-cases (blob_chunk_count b.size (pos chunk))) [
  | inl (count, c) ↦ (count, ground (arith, e), c, ground (arith, e, c))
  | inr (bad, c) ↦ absurd (ground (arith, e, c))
]

pub new_writer-Waits :
    (disk : Disk) (b : BlobDescriptor) (chunk : ℕ) (w : Writer)
    → 0 < chunk
    → chunk ≤ max_blob_chunk_size
    → new_writer disk b chunk ≡ ok w
    → Waits chunk b w
new_writer-Waits disk b chunk w lo hi e =
    let (count, valid, c, same) = new_writer-is_empty disk b chunk w e in
    subst (Waits chunk b) same
      (empty_writer-Waits b chunk count valid (blob_chunk_count-chunks b chunk count lo hi c))
