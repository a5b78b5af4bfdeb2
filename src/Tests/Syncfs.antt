-- ===== src/Tests/Syncfs.antt =====
-- internal/syncfs: a blob of three bytes in chunks of two, with a small digest.
use rmtx.Base.{
  ℕ, ◌+◌, ◌%◌, ◌≡◌, ◌≤◌, ◌≢◌, ap, refl, true, false, none, some, List, [], ◌∷◌, ok, length,
  replicate, All, arith, Bool-cases, inl, inr,
}
use mathlib.Core.Path.{subst₂}
use rmtx.Base.Int.{pos}
use rmtx.Base.Dict.{insert, remove, lookup}
use rmtx.Base.Text.{Text, text_beq, text_beq_iff, text_key}
use rmtx.Syncfs.Hash.{valid_blob_hash, hex_decode, hex_encode, from_hex, to_hex}
use rmtx.Syncfs.Chunks.{
  validate_blob_chunk_shape, blob_chunk_payload_len, payload_len_at, BlobDescriptor, BlobChunkInfo,
  max_blob_chunks, normalize_blob_chunk_size, blob_chunk_count, count_chunks, count_plan,
  chunk_loop, chunks_of, chunks_of_all, plan_blob_chunks,
}
use rmtx.Syncfs.Chunks.Plan.{IsCut, AreDistinct, plan_blob_chunks-Tiles}
use rmtx.Syncfs.Receiver.{
  Bytes, Writer, Receiver, Disk, has, receive_chunk, new_receiver, add_blobs, add_blob, new_writer,
  receive_healthy, receive_for, after_check, receive_payload, after_write, write_chunk,
  after_commit, commit, close_done, fail, write_at,
}
use rmtx.Syncfs.Receiver.Integrity.{IsSound, receive_chunk-IsSound}
use rmtx.Syncfs.Receiver.Writers.{IsOpen}
use rmtx.Syncfs.Receiver.Progress.{OpenAt, IsValid}
use rmtx.Syncfs.Receiver.Progress.Steps.{receive_chunk-IsValid}
use rmtx.Syncfs.Receiver.Progress.Transfer.{Arrival, receive_all, transfer_complete}

-- The length of the content, 64 times.
abbrev digest : Bytes → Text
digest content = replicate 64 (b'0' + length content % 10)

abbrev hash_three : Text
hash_three = replicate 64 b'3'

hash_three_run : valid_blob_hash hash_three ≡ true
unfolding valid_blob_hash hex_decode hex_encode from_hex to_hex
hash_three_run = refl

count_run : blob_chunk_count (pos 3) (pos 2) ≡ ok 2
unfolding blob_chunk_count normalize_blob_chunk_size count_chunks
count_run = refl

size_run : normalize_blob_chunk_size (pos 2) ≡ ok 2
unfolding normalize_blob_chunk_size
size_run = refl

abbrev blobs : List BlobDescriptor
blobs = record { hash = hash_three; size = pos 3 } ∷ []

abbrev first_chunk : BlobChunkInfo
first_chunk = record { hash = hash_three; size = pos 3; offset = pos 0 }

abbrev chunks : List BlobChunkInfo
chunks = first_chunk ∷ record { hash = hash_three; size = pos 3; offset = pos 2 } ∷ []

plan_run : plan_blob_chunks blobs (pos 2) ≡ ok chunks
unfolding plan_blob_chunks normalize_blob_chunk_size count_plan valid_blob_hash hex_decode from_hex
    hex_encode to_hex blob_chunk_count count_chunks chunks_of_all chunks_of chunk_loop
plan_run = refl

plan_blob_chunks-Tiles_example :
    (chunk : ℕ) × (normalize_blob_chunk_size (pos 2) ≡ ok chunk)
    × (chunks ≡ chunks_of_all blobs chunk)
    × (length chunks ≤ max_blob_chunks)
    × AreDistinct blobs []
    × All (IsCut chunk) blobs
plan_blob_chunks-Tiles_example = plan_blob_chunks-Tiles blobs (pos 2) chunks plan_run

abbrev writer : Writer
writer = record {
  hash = hash_three;
  size = 3;
  file = 0 ∷ 0 ∷ 0 ∷ [];
  completed = false ∷ false ∷ [];
  done = 0;
  committed = false;
}

abbrev receiver : Receiver
receiver = record {
  chunk_size = 2;
  blobs = (hash_three, 3) ∷ [];
  writers = (hash_three, writer) ∷ [];
  pending = 1;
  failure = none;
  done_set = false;
  store = [];
}

abbrev good_disk : Disk
good_disk = record { creates = true; sizes = true; writes = true; commits = true; renames = true }

writer-IsOpen : IsOpen 2 writer
unfolding count_chunks
writer-IsOpen = record {
  valid = hash_three_run;
  is_open = refl;
  count = refl;
  counted = refl;
  sized = refl;
}

writer-OpenAt : OpenAt receiver hash_three writer
unfolding lookup
writer-OpenAt = (refl, refl, omega arith, writer-IsOpen)

lookup_single :
    {V : Type 0} (k h : Text) (v w : V) → lookup h ((k, v) ∷ []) ≡ some w → (k ≡ h) × (v ≡ w)
unfolding lookup
lookup_single k h v w found = elim (Bool-cases (text_beq k h)) [
  | inl own ↦ ((text_beq_iff k h).0 own, ground (arith, found, own))
  | inr other ↦ absurd (ground (arith, found, other))
]

-- A map with one key has the keys of another with that key.
lookup_together :
    {V W : Type 0} (k h : Text) (v : V) (w u : W)
    → lookup h ((k, w) ∷ []) ≡ some u
    → lookup h ((k, v) ∷ []) ≢ none
unfolding lookup
lookup_together k h v w u found gone = elim (Bool-cases (text_beq k h)) [
  | inl own ↦ absurd (ground (arith, gone, own))
  | inr other ↦ absurd (ground (arith, found, other))
]

receiver-IsValid : IsValid digest receiver
unfolding lookup
receiver-IsValid = record {
  chunk_pos = omega arith;
  chunk_small = omega arith;
  healthy = λ _. record {
    unique = (refl, tt);
    pending_is = refl;
    done_is = refl;
    each = λ h w found.
        let (key, value) = lookup_single hash_three h writer w found in
        subst₂ (OpenAt receiver) key value writer-OpenAt;
    stored =
        λ h size wanted absent. absurd (lookup_together hash_three h writer 3 size wanted absent);
  };
  failed = λ bad. absurd (bad refl);
}

empty-IsSound : IsSound digest []
unfolding lookup
empty-IsSound h content found = cc

receive_chunk-IsSound_example :
    IsSound digest
      (receive_chunk digest good_disk receiver first_chunk (7 ∷ 8 ∷ []) (pos 2)).1.store
receive_chunk-IsSound_example =
    receive_chunk-IsSound digest good_disk receiver first_chunk (7 ∷ 8 ∷ []) (pos 2) empty-IsSound

receive_chunk-IsValid_example :
    IsValid digest (receive_chunk digest good_disk receiver first_chunk (7 ∷ 8 ∷ []) (pos 2)).1
receive_chunk-IsValid_example =
    receive_chunk-IsValid digest good_disk receiver first_chunk (7 ∷ 8 ∷ []) (pos 2)
      receiver-IsValid

-- The receiver once both chunks have come.
abbrev finished : Receiver
finished = record receiver {
  writers = [];
  pending = 0;
  done_set = true;
  store = (hash_three, 7 ∷ 8 ∷ 9 ∷ []) ∷ [];
}

finished_run : has digest finished.store hash_three 3 ≡ true
unfolding has lookup valid_blob_hash hex_decode hex_encode from_hex to_hex
finished_run = refl

new_receiver_run : new_receiver digest good_disk [] blobs (pos 2) ≡ ok receiver
unfolding new_receiver normalize_blob_chunk_size add_blobs add_blob valid_blob_hash hex_decode
    from_hex hex_encode to_hex lookup has new_writer blob_chunk_count count_chunks insert
new_receiver_run = refl

abbrev arrivals : List Arrival
arrivals =
    record {
      disk = good_disk;
      info = record first_chunk { offset = pos 2 };
      src = 9 ∷ [];
      payload_len = pos 1;
    }
    ∷ record { disk = good_disk; info = first_chunk; src = 7 ∷ 8 ∷ []; payload_len = pos 2 }
    ∷ []

arrivals_run : receive_all digest receiver arrivals ≡ finished
unfolding receive_all receive_chunk receive_healthy lookup receive_for after_check
    validate_blob_chunk_shape blob_chunk_payload_len normalize_blob_chunk_size payload_len_at
    blob_chunk_count count_chunks receive_payload after_write write_chunk insert after_commit commit
    remove from_hex hex_decode hex_encode to_hex valid_blob_hash close_done fail has write_at
arrivals_run = refl

transfer_complete_example :
    (false ≡ false) × (has digest (receive_all digest receiver arrivals).store hash_three 3 ≡ true)
transfer_complete_example =
    transfer_complete digest good_disk [] blobs (pos 2) receiver arrivals
      (record { hash = hash_three; size = pos 3 }) new_receiver_run
      (ap (λ r. r.done_set) arrivals_run) (ap (λ r. r.failure) arrivals_run) (inl refl)
