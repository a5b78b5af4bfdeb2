-- ===== src/Syncfs/Receiver/Writers.antt =====
-- One writer: what `writeChunk` keeps, and how it counts.
use rmtx.Base.{
  ℕ, zero, suc, ◌+◌, ◌≡◌, ◌≤◌, ◌<◌, refl, Bool, true, false, some, List, [], ◌∷◌, ◌++◌, ok, arith,
  is_ok, length, take, drop, set, get_elem?, length-append, length-take, length-drop, length-set,
}
use rmtx.Base.Int.{pos_part}
use rmtx.Base.Text.{Text}
use rmtx.Syncfs.Chunks.{
  BlobChunkInfo, validate_blob_chunk_shape, chunk_index, count_chunks, blob_chunk_count,
  blob_chunk_payload_len, payload_len_at, max_blob_chunk_size,
}
use rmtx.Syncfs.Chunks.Sizes.{normalize_idem}
use rmtx.Syncfs.Hash.{valid_blob_hash}
use rmtx.Syncfs.Receiver.{Bytes, Writer, Disk, write_at, write_chunk}

abbrev pub count_true : List Bool → ℕ
count_true [] = 0
count_true (true ∷ bs) = suc (count_true bs)
count_true (false ∷ bs) = count_true bs

count_true-set :
    (bs : List Bool) (i : ℕ)
    → get_elem? bs i ≡ some false
    → count_true (set bs i true) ≡ suc (count_true bs)
count_true-set [] i h = cc
count_true-set (true ∷ bs) zero h = cc
count_true-set (false ∷ bs) zero h = refl
count_true-set (true ∷ bs) (suc i) h = omega (arith, count_true-set bs i h)
count_true-set (false ∷ bs) (suc i) h = count_true-set bs i h

pub count_true-le : (bs : List Bool) → count_true bs ≤ length bs
count_true-le [] = omega arith
count_true-le (true ∷ bs) = omega (arith, count_true-le bs)
count_true-le (false ∷ bs) = omega (arith, count_true-le bs)

get_elem?_inside : (bs : List Bool) (i : ℕ) → i < length bs → (b : Bool) × (get_elem? bs i ≡ some b)
get_elem?_inside [] i h = absurd (omega arith)
get_elem?_inside (b ∷ bs) zero h = (b, refl)
get_elem?_inside (b ∷ bs) (suc i) h = get_elem?_inside bs i (omega arith)

length-write_at :
    (file payload : Bytes) (offset : ℕ)
    → offset + length payload ≤ length file
    → length (write_at file offset payload) ≡ length file
unfolding write_at
length-write_at file payload offset h = omega (
  arith,
  length-append (take offset file) (payload ++ drop (offset + length payload) file),
  length-append payload (drop (offset + length payload) file),
  length-take offset file,
  length-drop (offset + length payload) file,
)

-- A writer whose counter and file agree with its flags.
pub record IsOpen (chunk : ℕ) (w : Writer) : Type 0 where
  pub valid : valid_blob_hash w.hash ≡ true
  pub is_open : w.committed ≡ false
  pub count : count_chunks w.size chunk ≡ ok (length w.completed)
  pub counted : w.done ≡ count_true w.completed
  pub sized : length w.file ≡ w.size

-- A chunk that passes the receiver's check lies inside the blob, at an index that is in range.
pub shape_inside :
    (info : BlobChunkInfo) (hash : Text) (size chunk n count : ℕ)
    → 0 < chunk
    → chunk ≤ max_blob_chunk_size
    → validate_blob_chunk_shape info hash size chunk n ≡ ok tt
    → count_chunks size chunk ≡ ok count
    → (pos_part info.offset + n ≤ size) × (chunk_index size (pos_part info.offset) chunk < count)
unfolding validate_blob_chunk_shape blob_chunk_payload_len payload_len_at blob_chunk_count
shape_inside info hash size chunk n count hc hm h e = ground (arith, normalize_idem chunk hc hm)

pub write_chunk-IsOpen :
    (disk : Disk) (w : Writer) (chunk index offset : ℕ) (payload : Bytes)
    → IsOpen chunk w
    → index < length w.completed
    → offset + length payload ≤ w.size
    → is_ok (write_chunk disk w index offset payload).0 ≡ true
    → IsOpen chunk (write_chunk disk w index offset payload).1
unfolding write_chunk
write_chunk-IsOpen disk w chunk index offset payload v inside fits h =
    let (flag, e) = get_elem?_inside w.completed index inside in
    ground (
      arith,
      count_true-set w.completed index,
      length-set w.completed index true,
      length-write_at w.file payload offset,
    )

pub write_chunk-same_blob :
    (disk : Disk) (w : Writer) (index offset : ℕ) (payload : Bytes)
    → ((write_chunk disk w index offset payload).1.hash ≡ w.hash)
      × ((write_chunk disk w index offset payload).1.size ≡ w.size)
unfolding write_chunk
write_chunk-same_blob disk w index offset payload = ground arith

-- A writer stays unfinished until the write that reports it complete.
pub write_chunk_unfinished :
    (disk : Disk) (w : Writer) (chunk index offset : ℕ) (payload : Bytes)
    → IsOpen chunk w
    → index < length w.completed
    → offset + length payload ≤ w.size
    → w.done < length w.completed
    → (write_chunk disk w index offset payload).0 ≡ ok false
    → (write_chunk disk w index offset payload).1.done
      < length (write_chunk disk w index offset payload).1.completed
unfolding write_chunk
write_chunk_unfinished disk w chunk index offset payload v inside fits early h =
    ground (arith, length-set w.completed index true)
