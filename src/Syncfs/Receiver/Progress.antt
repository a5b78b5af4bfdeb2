-- ===== src/Syncfs/Receiver/Progress.antt =====
-- The receiver's invariant: `done` is closed without an error only when every blob is stored.
pub mod Steps
pub mod NewWriter
pub mod Start
pub mod Announced
pub mod Transfer
use rmtx.Base.{
  ℕ, zero, suc, ◌+◌, ◌-◌, ◌≡◌, ◌≤◌, ◌<◌, ◌≢◌, refl, ap, Bool, true, false, Option, none, some, List,
  [], ◌∷◌, arith, ◌==◌, length, Option-cases, inl, inr,
}
use rmtx.Base.Dict.{Dict, lookup, Unique}
use rmtx.Base.Text.{Text, text_key}
use rmtx.Syncfs.Chunks.{max_blob_chunk_size}
use rmtx.Syncfs.Receiver.{Bytes, Writer, ReceiveError, Receiver, has}
use rmtx.Syncfs.Receiver.Writers.{IsOpen}

-- The writer of an announced blob that still waits for chunks.
abbrev pub OpenAt : Receiver → Text → Writer → Type 0
OpenAt r h w =
    (w.hash ≡ h)
    × (lookup h r.blobs ≡ some w.size)
    × (w.done < length w.completed)
    × IsOpen r.chunk_size w

module _ (digest : Bytes → Text) where
  -- A receiver that has not failed.
  pub record IsHealthy (r : Receiver) : Type 0 where
    pub unique : Unique r.writers
    pub pending_is : r.pending ≡ length r.writers
    pub done_is : r.done_set ≡ (r.pending == 0)
    pub each : (h : Text) (w : Writer) → lookup h r.writers ≡ some w → OpenAt r h w
    pub stored :
        (h : Text) (size : ℕ)
        → lookup h r.blobs ≡ some size
        → lookup h r.writers ≡ none
        → has digest r.store h size ≡ true

  pub record IsValid (r : Receiver) : Type 0 where
    pub chunk_pos : 0 < r.chunk_size
    pub chunk_small : r.chunk_size ≤ max_blob_chunk_size
    pub healthy : r.failure ≡ none → IsHealthy r
    pub failed : r.failure ≢ none → (r.done_set ≡ true) × (r.writers ≡ [])

  no_writers : (r : Receiver) → length r.writers ≡ 0 → (h : Text) → lookup h r.writers ≡ none
  unfolding lookup
  no_writers r e h = empty r.writers e
    where
      empty : (m : Dict Text Writer) → length m ≡ 0 → lookup h m ≡ none
      empty [] z = refl
      empty (x ∷ m) z = absurd (omega arith)

  -- In a valid receiver whose `done` is closed, and that has not failed, every announced blob is in
  -- the store with its size and a content of its hash.
  pub done_stored :
      (r : Receiver) (h : Text) (size : ℕ)
      → IsValid r
      → r.done_set ≡ true
      → r.failure ≡ none
      → lookup h r.blobs ≡ some size
      → has digest r.store h size ≡ true
  done_stored r h size v closed fine announced =
      let healthy = v.healthy fine in
      let empty : length r.writers ≡ 0 = ground (arith, healthy.done_is, healthy.pending_is) in
      healthy.stored h size announced (no_writers r empty h)
