-- ===== src/Syncfs/Receiver/Progress/Steps.antt =====
-- Every step of a receiver keeps its invariant.
use rmtx.Base.{
  ℕ, ◌+◌, ◌-◌, ◌≡◌, ◌≤◌, ◌<◌, refl, sym, Bool, true, false, Option, none, some, Result, ok, err,
  arith, ltb, length, Option-cases, Result-cases, Bool-cases, inl, inr, ◌⊎◌, is_ok, take,
  length-take,
}
use mathlib.Core.Path.{subst, subst₂}
use rmtx.Base.Int.{ℤ, is_neg, pos_part}
use rmtx.Base.Dict.{
  lookup, insert, remove, Unique-insert, Unique-remove, length-insert, length-remove, lookup-insert,
  lookup-remove,
}
use rmtx.Base.Text.{Text, text_beq, text_beq_iff, text_key}
use rmtx.Syncfs.Hash.{valid_blob_hash}
use rmtx.Syncfs.Chunks.{
  ChunkError, BlobChunkInfo, max_blob_chunk_size, validate_blob_chunk_shape, chunk_index,
}
use rmtx.Syncfs.Receiver.{
  Bytes, BlobStore, Writer, ReceiveError, shape, unexpected_chunk, negative_chunk_length, Receiver,
  Disk, has, commit, fail, close_done, write_chunk, receive_known, after_commit, after_write,
  after_check, receive_payload, receive_healthy, receive_for, receive_chunk,
}
use rmtx.Syncfs.Receiver.Writers.{
  IsOpen, shape_inside, write_chunk-IsOpen, write_chunk-same_blob, write_chunk_unfinished,
}
use rmtx.Syncfs.Receiver.Progress.{OpenAt, IsHealthy, IsValid}

module _ (digest : Bytes → Text) where
  fail_now-IsValid :
      (r : Receiver) (e : ReceiveError)
      → 0 < r.chunk_size
      → r.chunk_size ≤ max_blob_chunk_size
      → r.failure ≡ none
      → IsValid digest (fail r e).0
  unfolding fail close_done
  fail_now-IsValid r e lo hi h = record {
    chunk_pos = ground (arith, lo);
    chunk_small = ground (arith, hi);
    healthy = λ bad. absurd (ground (arith, h));
    failed = λ _. ground (arith, h);
  }

  fail-IsValid : (r : Receiver) (e : ReceiveError) → IsValid digest r → IsValid digest (fail r e).0
  fail-IsValid r e v = elim (Option-cases r.failure) [
    | inr (first, h) ↦ unfold fail in rw (h, fail) v
    | inl h ↦ fail_now-IsValid r e v.chunk_pos v.chunk_small h
  ]

  -- A commit stores the writer's blob, and takes no other blob away.
  has-commit :
      (disk : Disk) (w : Writer) (store store' : BlobStore)
      → valid_blob_hash w.hash ≡ true
      → length w.file ≡ w.size
      → commit digest disk w store ≡ ok store'
      → has digest store' w.hash w.size ≡ true
  unfolding commit has
  has-commit disk w store store' valid sized e =
      ground (arith, lookup-insert w.hash w.hash w.file store, text_beq_iff w.hash w.hash)

  has-commit_ne :
      (disk : Disk) (w : Writer) (store store' : BlobStore) (h : Text) (size : ℕ)
      → text_beq w.hash h ≡ false
      → commit digest disk w store ≡ ok store'
      → has digest store h size ≡ true
      → has digest store' h size ≡ true
  unfolding commit has
  has-commit_ne disk w store store' h size other e old =
      ground (arith, lookup-insert w.hash h w.file store)

  module _ (r : Receiver) (v : IsHealthy digest r) (fine : r.failure ≡ none) where
    -- Replacing the writer of a blob that is still open.
    put-IsHealthy :
        (w old : Writer)
        → lookup w.hash r.writers ≡ some old
        → lookup w.hash r.blobs ≡ some w.size
        → w.done < length w.completed
        → IsOpen r.chunk_size w
        → IsHealthy digest (record r { writers = insert w.hash w r.writers })
    put-IsHealthy w old known announced early o = record {
      unique = Unique-insert w.hash w r.writers v.unique;
      pending_is = ground (arith, v.pending_is, length-insert w.hash w r.writers);
      done_is = v.done_is;
      each = λ h x found. elim (Bool-cases (text_beq w.hash h)) [
        | inl same ↦
            let e : w.hash ≡ h = (text_beq_iff w.hash h).0 same in
            let e' : w ≡ x = ground (arith, lookup-insert w.hash h w r.writers) in
            let here : OpenAt r w.hash w = (refl, announced, early, o) in
            subst₂ (OpenAt r) e e' here
        | inr other ↦ v.each h x (ground (arith, lookup-insert w.hash h w r.writers))
      ];
      stored = λ h size wanted absent.
          v.stored h size wanted (ground (arith, lookup-insert w.hash h w r.writers));
    }

    -- Removing the writer of a blob that was stored.
    remove-IsHealthy :
        (w old : Writer) (store : BlobStore)
        → lookup w.hash r.writers ≡ some old
        → lookup w.hash r.blobs ≡ some w.size
        → has digest store w.hash w.size ≡ true
        → ((h : Text) (size : ℕ)
            → text_beq w.hash h ≡ false
            → has digest r.store h size ≡ true
            → has digest store h size ≡ true)
        → IsHealthy digest (
            close_done (record r {
              store = store;
              writers = remove w.hash r.writers;
              pending = r.pending - 1;
            }))
    unfolding close_done
    remove-IsHealthy w old store known announced now kept = record {
      unique = Unique-remove w.hash r.writers v.unique;
      pending_is = omega (arith, v.pending_is, length-remove w.hash old r.writers v.unique known);
      done_is =
          ground
            (arith, v.done_is, v.pending_is, length-remove w.hash old r.writers v.unique known);
      each = λ h x found. v.each h x (ground (arith, lookup-remove w.hash h r.writers));
      stored = λ h size wanted absent. elim (Bool-cases (text_beq w.hash h)) [
        | inl same ↦
            let e : w.hash ≡ h = (text_beq_iff w.hash h).0 same in
            subst₂ (λ g n. has digest store g n ≡ true) e (ground arith) now
        | inr other ↦
            kept h size other
              (v.stored h size wanted (ground (arith, lookup-remove w.hash h r.writers)))
      ];
    }

  healthy-IsValid :
      (r : Receiver)
      → 0 < r.chunk_size
      → r.chunk_size ≤ max_blob_chunk_size
      → r.failure ≡ none
      → IsHealthy digest r
      → IsValid digest r
  healthy-IsValid r lo hi fine h = record {
    chunk_pos = lo;
    chunk_small = hi;
    healthy = λ _. h;
    failed = λ bad. absurd (bad fine);
  }

  module _ (r : Receiver) (v : IsValid digest r) (fine : r.failure ≡ none) where
    after_commit-IsValid :
        (disk : Disk) (w old : Writer)
        → lookup w.hash r.writers ≡ some old
        → lookup w.hash r.blobs ≡ some w.size
        → IsOpen r.chunk_size w
        → (x : Result ReceiveError BlobStore) → commit digest disk w r.store ≡ x
        → IsValid digest (after_commit digest r w x).1
    unfolding after_commit close_done
    after_commit-IsValid disk w old known announced o (err e) h =
        fail_now-IsValid
          (record r { writers = insert w.hash (record w { committed = true }) r.writers }) e
          v.chunk_pos v.chunk_small fine
    after_commit-IsValid disk w old known announced o (ok store) h =
        healthy-IsValid (after_commit digest r w (ok store)).1 v.chunk_pos v.chunk_small fine (
          remove-IsHealthy r (v.healthy fine) fine w old store known announced
            (has-commit disk w r.store store o.valid o.sized h)
            (λ g size other before. has-commit_ne disk w r.store store g size other h before))

    after_write-IsValid :
        (disk : Disk) (w old : Writer)
        → lookup w.hash r.writers ≡ some old
        → lookup w.hash r.blobs ≡ some w.size
        → (x : Result ReceiveError Bool) → (is_ok x ≡ true → IsOpen r.chunk_size w)
        → (x ≡ ok false → w.done < length w.completed)
        → IsValid digest (after_write digest disk r w x).1
    unfolding after_write
    after_write-IsValid disk w old known announced (err e) o early = fail-IsValid r e v
    after_write-IsValid disk w old known announced (ok false) o early =
        healthy-IsValid _ v.chunk_pos v.chunk_small fine
          (put-IsHealthy r (v.healthy fine) fine w old known announced (early refl) (o refl))
    after_write-IsValid disk w old known announced (ok true) o early =
        after_commit-IsValid disk w old known announced (o refl) (commit digest disk w r.store) refl

    receive_payload-IsValid :
        (disk : Disk) (w : Writer) (offset : ℕ) (src : Bytes) (n : ℕ)
        → lookup w.hash r.writers ≡ some w
        → offset + n ≤ w.size
        → chunk_index w.size offset r.chunk_size < length w.completed
        → IsValid digest (receive_payload digest disk r w offset src n).1
    unfolding receive_payload
    receive_payload-IsValid disk w offset src n known fits inside =
        elim (Bool-cases (ltb (length src) n)) [
          | inl short ↦ rw short v
          | inr whole ↦
              let (_, announced, early, o) = (v.healthy fine).each w.hash w known in
              let taken : offset + length (take n src) ≤ w.size =
                ground (arith, length-take n src) in
              let index = chunk_index w.size offset r.chunk_size in
              let (same_hash, same_size) = write_chunk-same_blob disk w index offset (take n src) in
              rw whole (
                after_write-IsValid disk (write_chunk disk w index offset (take n src)).1 w
                  (rw same_hash known) (rw (same_hash, same_size) announced)
                  (write_chunk disk w index offset (take n src)).0
                  (λ h.
                    write_chunk-IsOpen disk w r.chunk_size index offset (take n src) o inside taken
                      h)
                  (λ h.
                    write_chunk_unfinished disk w r.chunk_size index offset (take n src) o inside
                      taken early h))
        ]

    after_check-IsValid :
        (disk : Disk) (w : Writer) (info : BlobChunkInfo) (src : Bytes) (n : ℕ)
        → lookup w.hash r.writers ≡ some w
        → (x : Result ChunkError (Unit {0}))
        → validate_blob_chunk_shape info w.hash w.size r.chunk_size n ≡ x
        → IsValid digest (after_check digest disk r w (pos_part info.offset) src n x).1
    unfolding after_check
    after_check-IsValid disk w info src n known (err e) h = fail-IsValid r (shape e) v
    after_check-IsValid disk w info src n known (ok _) h =
        let (_, announced, early, o) = (v.healthy fine).each w.hash w known in
        let (fits, inside) =
          shape_inside info w.hash w.size r.chunk_size n (length w.completed) v.chunk_pos
            v.chunk_small h o.count in
        receive_payload-IsValid disk w (pos_part info.offset) src n known fits inside

    -- Without a writer, a chunk fails the receiver or leaves it as it was.
    receive_known-fail :
        (info : BlobChunkInfo) (src : Bytes) (n : ℕ)
        → ((receive_known digest r info src n).1 ≡ r)
          ⊎ ((e : ReceiveError) × ((receive_known digest r info src n).1 ≡ (fail r e).0))
    unfolding receive_known
    receive_known-fail info src n = elim (Option-cases (lookup info.hash r.blobs)) [
      | inl e ↦ inr (unexpected_chunk, ground arith)
      | inr (size, e) ↦ elim (Bool-cases (has digest r.store info.hash size)) [
        | inr h ↦ inr (unexpected_chunk, ground arith)
        | inl h ↦
            elim (Result-cases (validate_blob_chunk_shape info info.hash size r.chunk_size n)) [
              | inl (_, s) ↦ inl (ground arith)
              | inr (bad, s) ↦ inr (shape bad, ground arith)
            ]
      ]
    ]

    receive_known-IsValid :
        (info : BlobChunkInfo) (src : Bytes) (n : ℕ)
        → IsValid digest (receive_known digest r info src n).1
    receive_known-IsValid info src n = elim (receive_known-fail info src n) [
      | inl e ↦ subst (IsValid digest) (sym e) v
      | inr (x, e) ↦ subst (IsValid digest) (sym e) (fail-IsValid r x v)
    ]

    receive_healthy-IsValid :
        (disk : Disk) (info : BlobChunkInfo) (src : Bytes) (n : ℕ) (o : Option Writer)
        → lookup info.hash r.writers ≡ o
        → IsValid digest (receive_healthy digest disk r info src n o).1
    unfolding receive_healthy receive_for
    receive_healthy-IsValid disk info src n none h = receive_known-IsValid info src n
    receive_healthy-IsValid disk info src n (some w) h =
        let (e, _, _, _) = (v.healthy fine).each info.hash w h in
        after_check-IsValid disk w info src n (subst (λ k. lookup k r.writers ≡ some w) (sym e) h) _
          refl

  -- Whatever chunk comes, and whatever the disk answers, a valid receiver stays valid.
  pub receive_chunk-IsValid :
      (disk : Disk) (r : Receiver) (info : BlobChunkInfo) (src : Bytes) (payload_len : ℤ)
      → IsValid digest r
      → IsValid digest (receive_chunk digest disk r info src payload_len).1
  unfolding receive_chunk
  receive_chunk-IsValid disk r info src payload_len v = elim (Bool-cases (is_neg payload_len)) [
    | inl neg ↦ rw neg (fail-IsValid r negative_chunk_length v)
    | inr fit ↦ rw fit (elim (Option-cases r.failure) [
      | inr (e, h) ↦ rw h v
      | inl h ↦ rw h (receive_healthy-IsValid r v h disk info src (pos_part payload_len) _ refl)
    ])
  ]
