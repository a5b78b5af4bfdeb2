-- ===== src/Syncfs/Receiver/Integrity.antt =====
-- Whatever a peer sends, the store holds content under its own hash only.
use rmtx.Base.{
  ℕ, ◌≡◌, ◌⊎◌, ◌||◌, ltb, length, refl, Bool, true, false, Option, none, some, Result, ok, err,
  arith, inl, inr, Result-cases, Bool-cases, is_some,
}
use rmtx.Base.Int.{ℤ, is_neg, pos_part}
use rmtx.Base.Dict.{lookup, lookup-insert}
use rmtx.Base.Text.{Text, text_beq_iff, text_key}
use rmtx.Syncfs.Chunks.{BlobChunkInfo, ChunkError}
use rmtx.Syncfs.Receiver.{
  Bytes, BlobStore, Writer, ReceiveError, Receiver, Disk, close_done, fail, commit, receive_known,
  after_commit, after_write, after_check, receive_payload, receive_healthy, receive_for,
  receive_chunk,
}

module _ (digest : Bytes → Text) where
  abbrev pub IsSound : BlobStore → Type 0
  IsSound store = (h : Text) (content : Bytes) → lookup h store ≡ some content → digest content ≡ h

  commit-IsSound :
      (disk : Disk) (w : Writer) (store store' : BlobStore)
      → IsSound store
      → commit digest disk w store ≡ ok store'
      → IsSound store'
  unfolding commit
  commit-IsSound disk w store store' s e h content found = ground (
    arith,
    s h content,
    text_beq_iff (digest w.file) w.hash,
    text_beq_iff w.hash h,
    lookup-insert w.hash h w.file store,
  )

  -- The store after a commit, or the one before it.
  abbrev or_before : BlobStore → Result ReceiveError BlobStore → BlobStore
  or_before store (ok store') = store'
  or_before store (err e) = store

  store-after_commit :
      (r : Receiver) (w : Writer) (x : Result ReceiveError BlobStore)
      → (after_commit digest r w x).1.store ≡ or_before r.store x
  unfolding after_commit close_done fail
  store-after_commit r w (ok store) = refl
  store-after_commit r w (err e) = ground arith

  or_before-IsSound :
      (disk : Disk) (w : Writer) (store : BlobStore)
      → IsSound store
      → IsSound (or_before store (commit digest disk w store))
  or_before-IsSound disk w store s h content found =
      elim (Result-cases (commit digest disk w store)) [
        | inl (store', e) ↦ commit-IsSound disk w store store' s e h content (ground arith)
        | inr (x, e) ↦ s h content (ground arith)
      ]

  -- One step leaves the store alone or commits one writer.
  abbrev Commits : Receiver → Disk → Receiver → Type 0
  Commits r disk r' =
      (r'.store ≡ r.store)
      ⊎ ((w : Writer) × (r'.store ≡ or_before r.store (commit digest disk w r.store)))

  after_write-Commits :
      (disk : Disk) (r : Receiver) (w : Writer) (x : Result ReceiveError Bool)
      → Commits r disk (after_write digest disk r w x).1
  unfolding after_write fail close_done
  after_write-Commits disk r w (err e) = inl (ground arith)
  after_write-Commits disk r w (ok false) = inl refl
  after_write-Commits disk r w (ok true) =
      inr (w, store-after_commit r w (commit digest disk w r.store))

  receive_payload-Commits :
      (disk : Disk) (r : Receiver) (w : Writer) (offset : ℕ) (src : Bytes) (n : ℕ)
      → Commits r disk (receive_payload digest disk r w offset src n).1
  unfolding receive_payload
  receive_payload-Commits disk r w offset src n = elim (Bool-cases (ltb (length src) n)) [
    | inl short ↦ rw short (inl refl)
    | inr whole ↦ rw whole (after_write-Commits disk r _ _)
  ]

  after_check-Commits :
      (disk : Disk) (r : Receiver) (w : Writer) (offset : ℕ) (src : Bytes) (n : ℕ)
      (x : Result ChunkError (Unit {0}))
      → Commits r disk (after_check digest disk r w offset src n x).1
  unfolding after_check fail close_done
  after_check-Commits disk r w offset src n (err e) = inl (ground arith)
  after_check-Commits disk r w offset src n (ok _) = receive_payload-Commits disk r w offset src n

  receive_healthy-Commits :
      (disk : Disk) (r : Receiver) (info : BlobChunkInfo) (src : Bytes) (n : ℕ) (o : Option Writer)
      → Commits r disk (receive_healthy digest disk r info src n o).1
  unfolding receive_healthy receive_known receive_for fail close_done
  receive_healthy-Commits disk r info src n none = inl (ground arith)
  receive_healthy-Commits disk r info src n (some w) =
      after_check-Commits disk r w (pos_part info.offset) src n _

  pub receive_chunk_healthy :
      (disk : Disk) (r : Receiver) (info : BlobChunkInfo) (src : Bytes) (n : ℤ)
      → is_neg n ≡ false
      → r.failure ≡ none
      → receive_chunk digest disk r info src n
        ≡ receive_healthy digest disk r info src (pos_part n) (lookup info.hash r.writers)
  unfolding receive_chunk
  receive_chunk_healthy disk r info src n positive fine = ground arith

  receive_chunk-Commits :
      (disk : Disk) (r : Receiver) (info : BlobChunkInfo) (src : Bytes) (n : ℤ)
      → Commits r disk (receive_chunk digest disk r info src n).1
  receive_chunk-Commits disk r info src n = elim (Bool-cases (is_neg n || is_some r.failure)) [
    | inl early ↦ inl (unfold receive_chunk fail close_done in ground arith)
    | inr later ↦
        rw (receive_chunk_healthy disk r info src n (ground arith) (ground arith))
          (receive_healthy-Commits disk r info src (pos_part n) (lookup info.hash r.writers))
  ]

  -- Whatever chunk comes, and whatever the disk answers: if every stored content has its hash,
  -- then so it is after the step.
  pub receive_chunk-IsSound :
      (disk : Disk) (r : Receiver) (info : BlobChunkInfo) (src : Bytes) (n : ℤ)
      → IsSound r.store
      → IsSound (receive_chunk digest disk r info src n).1.store
  receive_chunk-IsSound disk r info src n s h content found =
      elim (receive_chunk-Commits disk r info src n) [
        | inl same ↦ s h content (rw same at found)
        | inr (w, new) ↦ or_before-IsSound disk w r.store s h content (rw new at found)
      ]
