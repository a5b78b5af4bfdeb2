-- ===== src/Syncfs/Receiver.antt =====
-- internal/syncfs/chunked_blob.go: the receiver of a blob transfer and its writers.
-- A whole call of `ReceiveChunk` is one step, and what the disk answers in that step is an input of
-- it. The code takes r.mu only for the lookup of the writer, for the counting behind a commit, and in
-- `fail`, and w.mu for the write and the commit: what two calls do between each other there is not
-- modelled.
pub mod Integrity
pub mod Writers
pub mod Progress
use rmtx.Base.{
  ℕ, zero, suc, ◌+◌, ◌-◌, ◌/◌, Bool, true, false, not, ◌&&◌, ◌||◌, Option, none, some, List, [],
  ◌∷◌, ◌++◌, Result, ok, err, ◌==◌, ltb, if◌then◌else◌, length, take, drop, set, replicate,
  get_elem?, is_some,
}
use rmtx.Base.Int.{ℤ, pos, is_neg, pos_part}
use rmtx.Base.Dict.{Dict, lookup, insert, remove}
use rmtx.Base.Text.{Text, text_beq, text_key}
use rmtx.Syncfs.Hash.{valid_blob_hash}
use rmtx.Syncfs.Chunks.{
  BlobDescriptor, BlobChunkInfo, ChunkError, normalize_blob_chunk_size, blob_chunk_count,
  validate_blob_chunk_shape, chunk_index,
}

abbrev pub Bytes : Type 0
Bytes = List ℕ

-- The blobs on disk, by hash. `seen` of the store caches checks of files that do not change, and
-- is left out.
abbrev pub BlobStore : Type 0
BlobStore = Dict Text Bytes

-- The temporary file of one blob, and which of its chunks have come.
pub record Writer : Type 0 where
  pub hash : Text
  pub size : ℕ
  pub file : Bytes
  pub completed : List Bool
  pub done : ℕ
  pub committed : Bool

pub data ReceiveError : Type 0 where
  shape : ChunkError → ReceiveError
  bad_hash negative_blob_size duplicate_descriptor : ReceiveError
  negative_chunk_length unexpected_chunk : ReceiveError
  create_failed write_failed commit_failed content_mismatch : ReceiveError
  chunk_read cancelled : ReceiveError

pub record Receiver : Type 0 where
  pub chunk_size : ℕ
  pub blobs : Dict Text ℕ
  pub writers : Dict Text Writer
  pub pending : ℕ
  pub failure : Option ReceiveError
  pub done_set : Bool
  pub store : BlobStore

-- What the disk answers to the calls of one step: creating and sizing a temporary file, a write
-- into it, the sync, close and reading of a commit, and its rename.
pub record Disk : Type 0 where
  pub creates : Bool
  pub sizes : Bool
  pub writes : Bool
  pub commits : Bool
  pub renames : Bool

-- file.WriteAt(payload, offset), inside the file
unfoldable pub write_at : Bytes → ℕ → Bytes → Bytes
write_at file offset payload = take offset file ++ (payload ++ drop (offset + length payload) file)

-- `closeDoneLocked`
unfoldable pub close_done : Receiver → Receiver
close_done r = record r {
  done_set = (if not r.done_set && (is_some r.failure || r.pending == 0) then true else r.done_set);
}

-- `fail`: the first error stays, and every writer is aborted. `pending` keeps its value.
unfoldable pub fail : Receiver → ReceiveError → Receiver × ReceiveError
fail r e = elim r.failure [
  | some first ↦ (r, first)
  | none ↦ (close_done (record r { failure = some e; writers = [] }), e)
]

-- `writeChunk` behind its checks: whether the blob became complete, and the writer.
unfoldable pub write_chunk : Disk → Writer → ℕ → ℕ → Bytes → Result ReceiveError Bool × Writer
write_chunk disk w index offset payload =
    if w.committed || (elim (get_elem? w.completed index) [ none ↦ false | some b ↦ b ])
    then (ok false, w)
    else if ltb 0 (length payload) && not disk.writes
    then (err write_failed, w)
    else let w' = record w {
      file = write_at w.file offset payload;
      completed = set w.completed index true;
      done = w.done + 1;
    } in
      (ok (w'.done == length w'.completed), w')

-- The writer of a blob that waits for `count` chunks.
abbrev pub empty_writer : BlobDescriptor → ℕ → Writer
empty_writer b count = record {
  hash = b.hash;
  size = pos_part b.size;
  file = replicate (pos_part b.size) 0;
  completed = replicate count false;
  done = 0;
  committed = false;
}

-- `newChunkedBlobWriter`: a temporary file of the blob's size.
unfoldable pub new_writer : Disk → BlobDescriptor → ℕ → Result ReceiveError Writer
new_writer disk b chunk_size =
    if not (valid_blob_hash b.hash)
    then err bad_hash
    else if not disk.creates
    then err create_failed
    else elim (blob_chunk_count b.size (pos chunk_size)) [
      | err e ↦ err (shape e)
      | ok count ↦
          if ltb 0 (pos_part b.size) && not disk.sizes
          then err create_failed
          else ok (empty_writer b count)
    ]

-- receiver.blobs[hash] = blob, and receiver.writers[hash] = writer with one more pending.
abbrev pub announce : BlobDescriptor → Receiver → Receiver
announce b r = record r { blobs = insert b.hash (pos_part b.size) r.blobs }

abbrev pub add_writer : Writer → Receiver → Receiver
add_writer w r = record r { writers = insert w.hash w r.writers; pending = r.pending + 1 }

module _ (digest : Bytes → Text) where
  -- `store.Has`: the file is there, has the size, and its content has the hash.
  unfoldable pub has : BlobStore → Text → ℕ → Bool
  has store hash size = valid_blob_hash hash && (elim (lookup hash store) [
    | none ↦ false
    | some content ↦ length content == size && text_beq (digest content) hash
  ])

  -- `commit` on a writer that is not committed. A file with another content is not kept.
  unfoldable pub commit : Disk → Writer → BlobStore → Result ReceiveError BlobStore
  commit disk w store =
      if not disk.commits
      then err commit_failed
      else if not (text_beq (digest w.file) w.hash)
      then err content_mismatch
      else if has store w.hash w.size
      then ok store
      else if not disk.renames
      then err commit_failed
      else ok (insert w.hash w.file store)

  -- The loop body of `NewChunkedBlobReceiver`.
  unfoldable pub add_blob : Disk → Receiver → BlobDescriptor → Result ReceiveError Receiver
  add_blob disk r b =
      if not (valid_blob_hash b.hash)
      then err bad_hash
      else if is_neg b.size
      then err negative_blob_size
      else if is_some (lookup b.hash r.blobs)
      then err duplicate_descriptor
      else if has r.store b.hash (pos_part b.size)
      then ok (announce b r)
      else elim (new_writer disk b r.chunk_size) [
        | err e ↦ err e
        | ok w ↦ ok (add_writer w (announce b r))
      ]

  unfoldable pub add_blobs : Disk → Receiver → List BlobDescriptor → Result ReceiveError Receiver
  add_blobs disk r [] = ok r
  add_blobs disk r (b ∷ blobs) = elim (add_blob disk r b) [
    | err e ↦ err e
    | ok r' ↦ add_blobs disk r' blobs
  ]

  unfoldable pub new_receiver :
      Disk → BlobStore → List BlobDescriptor → ℤ → Result ReceiveError Receiver
  new_receiver disk store blobs c = elim (normalize_blob_chunk_size c) [
    | err e ↦ err (shape e)
    | ok chunk ↦
        elim (add_blobs disk
          (record {
            chunk_size = chunk;
            blobs = [];
            writers = [];
            pending = 0;
            failure = none;
            done_set = false;
            store = store;
          })
          blobs) [
            | err e ↦ err e
            | ok r ↦ ok (if r.pending == 0 then record r { done_set = true } else r)
          ]
  ]

  abbrev pub failing : Receiver → ReceiveError → Result ReceiveError (Unit {0}) × Receiver
  failing r e = let (r', first) = fail r e in (err first, r')

  -- `ReceiveChunk` for a blob with no writer: a chunk that comes again after the commit is drained.
  unfoldable pub receive_known :
      Receiver → BlobChunkInfo → Bytes → ℕ → Result ReceiveError (Unit {0}) × Receiver
  receive_known r info src n = elim (lookup info.hash r.blobs) [
    | none ↦ failing r unexpected_chunk
    | some size ↦
        if not (has r.store info.hash size)
        then failing r unexpected_chunk
        else elim (validate_blob_chunk_shape info info.hash size r.chunk_size n) [
          | err e ↦ failing r (shape e)
          | ok _ ↦ ((if ltb (length src) n then err chunk_read else ok tt), r)
        ]
  ]

  -- `ReceiveChunk` behind `commit`: drop the writer, and close `done` with the last.
  unfoldable pub after_commit :
      Receiver → Writer → Result ReceiveError BlobStore → Result ReceiveError (Unit {0}) × Receiver
  after_commit r w (err e) =
      failing (record r { writers = insert w.hash (record w { committed = true }) r.writers }) e
  after_commit r w (ok store) = (
    ok tt,
    close_done
        (record r { store = store; writers = remove w.hash r.writers; pending = r.pending - 1 }),
  )

  -- `ReceiveChunk` behind `writeChunk`: a complete blob is committed.
  unfoldable pub after_write :
      Disk
      → Receiver
      → Writer
      → Result ReceiveError Bool
      → Result ReceiveError (Unit {0}) × Receiver
  after_write disk r w (err e) = failing r e
  after_write disk r w (ok false) = (ok tt, record r { writers = insert w.hash w r.writers })
  after_write disk r w (ok true) = after_commit r w (commit disk w r.store)

  -- `ReceiveChunk` for a blob with a writer, when the chunk has the right shape. A short payload
  -- leaves everything as it was.
  unfoldable pub receive_payload :
      Disk → Receiver → Writer → ℕ → Bytes → ℕ → Result ReceiveError (Unit {0}) × Receiver
  receive_payload disk r w offset src n =
      if ltb (length src) n
      then (err chunk_read, r)
      else let (complete, w') =
          write_chunk disk w (chunk_index w.size offset r.chunk_size) offset (take n src) in
        after_write disk r w' complete

  unfoldable pub after_check :
      Disk
      → Receiver
      → Writer
      → ℕ
      → Bytes
      → ℕ
      → Result ChunkError (Unit {0})
      → Result ReceiveError (Unit {0}) × Receiver
  after_check disk r w offset src n (err e) = failing r (shape e)
  after_check disk r w offset src n (ok _) = receive_payload disk r w offset src n

  unfoldable pub receive_for :
      Disk
      → Receiver
      → Writer
      → BlobChunkInfo
      → Bytes
      → ℕ
      → Result ReceiveError (Unit {0}) × Receiver
  receive_for disk r w info src n =
      after_check disk r w (pos_part info.offset) src n
        (validate_blob_chunk_shape info w.hash w.size r.chunk_size n)

  -- `src` is what the payload's reader delivers before it ends.
  unfoldable pub receive_healthy :
      Disk
      → Receiver
      → BlobChunkInfo
      → Bytes
      → ℕ
      → Option Writer
      → Result ReceiveError (Unit {0}) × Receiver
  receive_healthy disk r info src n none = receive_known r info src n
  receive_healthy disk r info src n (some w) = receive_for disk r w info src n

  unfoldable pub receive_chunk :
      Disk → Receiver → BlobChunkInfo → Bytes → ℤ → Result ReceiveError (Unit {0}) × Receiver
  receive_chunk disk r info src payload_len =
      if is_neg payload_len then failing r negative_chunk_length else elim r.failure [
        | some e ↦ (err e, r)
        | none ↦ receive_healthy disk r info src (pos_part payload_len) (lookup info.hash r.writers)
      ]
