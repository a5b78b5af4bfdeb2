-- ===== src/Syncfs/Receiver/Progress/Transfer.antt =====
-- A whole transfer: a new receiver, and any chunks in any order.
use rmtx.Base.{◌≡◌, refl, ◌∙◌, true, false, none, List, [], ◌∷◌, ok, Member}
use rmtx.Base.Int.{ℤ, is_neg, pos_part}
use rmtx.Base.Text.{Text, text_key}
use rmtx.Syncfs.Chunks.{BlobDescriptor, BlobChunkInfo}
use rmtx.Syncfs.Receiver.{Bytes, BlobStore, Receiver, Disk, has, new_receiver, receive_chunk}
use rmtx.Syncfs.Receiver.Progress.{IsValid, done_stored}
use rmtx.Syncfs.Receiver.Progress.Steps.{receive_chunk-IsValid}
use rmtx.Syncfs.Receiver.Progress.Announced.{receive_chunk-blobs, new_receiver-Member}
use rmtx.Syncfs.Receiver.Progress.Start.{new_receiver-IsValid}

-- One call of `ReceiveChunk`: what the disk answers, the chunk, what its reader delivers, and the
-- announced length of the payload.
pub record Arrival : Type 0 where
  pub disk : Disk
  pub info : BlobChunkInfo
  pub src : Bytes
  pub payload_len : ℤ

module _ (digest : Bytes → Text) where
  unfoldable pub receive_all : Receiver → List Arrival → Receiver
  receive_all r [] = r
  receive_all r (a ∷ arrivals) =
      receive_all (receive_chunk digest a.disk r a.info a.src a.payload_len).1 arrivals

  receive_all-IsValid :
      (r : Receiver) (arrivals : List Arrival)
      → IsValid digest r
      → IsValid digest (receive_all r arrivals)
  unfolding receive_all
  receive_all-IsValid r [] v = v
  receive_all-IsValid r (a ∷ arrivals) v =
      receive_all-IsValid (receive_chunk digest a.disk r a.info a.src a.payload_len).1 arrivals
        (receive_chunk-IsValid digest a.disk r a.info a.src a.payload_len v)

  receive_all-blobs :
      (r : Receiver) (arrivals : List Arrival) → (receive_all r arrivals).blobs ≡ r.blobs
  unfolding receive_all
  receive_all-blobs r [] = refl
  receive_all-blobs r (a ∷ arrivals) =
      receive_all-blobs (receive_chunk digest a.disk r a.info a.src a.payload_len).1 arrivals
      ∙ receive_chunk-blobs digest a.disk r a.info a.src a.payload_len

  -- Whatever chunks arrive at a new receiver, in any order and however the disk answers: once its
  -- `done` is closed without an error, every blob of the list that the receiver was made for has a
  -- size that is not negative, and is in the store with that size and a content of its hash.
  pub transfer_complete :
      (disk : Disk) (store : BlobStore) (blobs : List BlobDescriptor) (c : ℤ) (r : Receiver)
      (arrivals : List Arrival) (b : BlobDescriptor)
      → new_receiver digest disk store blobs c ≡ ok r
      → (receive_all r arrivals).done_set ≡ true
      → (receive_all r arrivals).failure ≡ none
      → Member b blobs
      → (is_neg b.size ≡ false)
        × (has digest (receive_all r arrivals).store b.hash (pos_part b.size) ≡ true)
  transfer_complete disk store blobs c r arrivals b e closed fine m =
      let (sized, known) = new_receiver-Member digest disk store blobs c r b e m in
      (
        sized,
        done_stored digest (receive_all r arrivals) b.hash (pos_part b.size)
            (receive_all-IsValid r arrivals (new_receiver-IsValid digest disk store blobs c r e))
            closed fine (rw (receive_all-blobs r arrivals) known),
      )
