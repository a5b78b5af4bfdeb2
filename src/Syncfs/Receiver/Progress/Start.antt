-- ===== src/Syncfs/Receiver/Progress/Start.antt =====
-- A receiver starts valid.
use rmtx.Base.{
  ℕ, ◌≡◌, ◌≤◌, ◌<◌, refl, true, false, none, some, List, [], ◌∷◌, ok, arith, ◌==◌, length,
  Option-cases, Result-cases, Bool-cases, inl, inr, ◌⊎◌,
}
use mathlib.Core.Path.{subst, subst₂}
use rmtx.Base.Int.{ℤ, pos_part}
use rmtx.Base.Dict.{lookup, insert, Unique-insert, length-insert, lookup-insert}
use rmtx.Base.Text.{Text, text_beq, text_beq_iff, text_key}
use rmtx.Syncfs.Chunks.{BlobDescriptor, max_blob_chunk_size, normalize_blob_chunk_size}
use rmtx.Syncfs.Chunks.Sizes.{normalize_bounds}
use rmtx.Syncfs.Receiver.{
  Bytes, BlobStore, Writer, Receiver, Disk, has, new_writer, announce, add_writer, add_blob,
  add_blobs, new_receiver,
}
use rmtx.Syncfs.Receiver.Writers.{IsOpen}
use rmtx.Syncfs.Receiver.Progress.{OpenAt, IsHealthy, IsValid}
use rmtx.Syncfs.Receiver.Progress.NewWriter.{new_writer-Waits}

-- `done` as it will be once the loop has ended.
abbrev pub started : Receiver → Receiver
started r = record r { done_set = r.pending == 0 }

module _ (digest : Bytes → Text) where
  module _ (r : Receiver) (v : IsHealthy digest (started r)) (b : BlobDescriptor)
      (new : lookup b.hash r.blobs ≡ none) where
    no_writer : lookup b.hash r.writers ≡ none
    no_writer = elim (Option-cases (lookup b.hash r.writers)) [
      | inl e ↦ e
      | inr (w, e) ↦
          let (_, announced, _, _) = v.each b.hash w e in absurd (ground (arith, announced, new))
    ]

    announced_before :
        (h : Text) (w : Writer) → lookup h r.writers ≡ some w → OpenAt (started (announce b r)) h w
    announced_before h w found =
        let (own, announced, early, o) = v.each h w found in
        (
          own,
          ground (
            arith,
            announced,
            new,
            lookup-insert b.hash h (pos_part b.size) r.blobs,
            text_beq_iff b.hash h,
          ),
          early,
          o,
        )

    announce-IsHealthy :
        has digest r.store b.hash (pos_part b.size) ≡ true
        → IsHealthy digest (started (announce b r))
    announce-IsHealthy there = record {
      unique = v.unique;
      pending_is = v.pending_is;
      done_is = refl;
      each = announced_before;
      stored = λ h size wanted absent. elim (Bool-cases (text_beq b.hash h)) [
        | inl same ↦
            let e : b.hash ≡ h = (text_beq_iff b.hash h).0 same in
            subst₂ (λ k n. has digest r.store k n ≡ true) e
              (ground (arith, wanted, same, lookup-insert b.hash h (pos_part b.size) r.blobs)) there
        | inr other ↦
            v.stored h size
              (ground (arith, wanted, other, lookup-insert b.hash h (pos_part b.size) r.blobs))
              absent
      ];
    }

    add_writer-IsHealthy :
        (w : Writer)
        → w.hash ≡ b.hash
        → w.size ≡ pos_part b.size
        → w.done < length w.completed
        → IsOpen r.chunk_size w
        → IsHealthy digest (started (add_writer w (announce b r)))
    add_writer-IsHealthy w own sized early o = record {
      unique = Unique-insert w.hash w r.writers v.unique;
      pending_is = ground (arith, v.pending_is, length-insert w.hash w r.writers, no_writer, own);
      done_is = refl;
      each = λ h x found. elim (Bool-cases (text_beq w.hash h)) [
        | inl same ↦
            let e : w.hash ≡ h = (text_beq_iff w.hash h).0 same in
            let e' : w ≡ x = ground (arith, same, found, lookup-insert w.hash h w r.writers) in
            let known : lookup w.hash (insert b.hash (pos_part b.size) r.blobs) ≡ some w.size =
              ground (
                arith,
                own,
                sized,
                lookup-insert b.hash w.hash (pos_part b.size) r.blobs,
                text_beq_iff b.hash w.hash,
              ) in
            let here : OpenAt (started (add_writer w (announce b r))) w.hash w =
              (refl, known, early, o) in
            subst₂ (OpenAt (started (add_writer w (announce b r)))) e e' here
        | inr other ↦
            announced_before h x (ground (arith, other, found, lookup-insert w.hash h w r.writers))
      ];
      stored = λ h size wanted absent.
          let apart : text_beq w.hash h ≡ false =
            ground (arith, absent, lookup-insert w.hash h w r.writers) in
          v.stored h size
            (ground (arith, own, apart, wanted, lookup-insert b.hash h (pos_part b.size) r.blobs))
            (ground (arith, apart, absent, lookup-insert w.hash h w r.writers));
    }

  -- What the loop of `NewChunkedBlobReceiver` keeps.
  pub record IsReady (r : Receiver) : Type 0 where
    pub chunk_pos : 0 < r.chunk_size
    pub chunk_small : r.chunk_size ≤ max_blob_chunk_size
    pub unfailed : r.failure ≡ none
    pub undone : r.done_set ≡ false
    pub healthy : IsHealthy digest (started r)

  abbrev Adds : Disk → Receiver → BlobDescriptor → Receiver → Type 0
  Adds disk r b r' =
      (lookup b.hash r.blobs ≡ none)
      × ((has digest r.store b.hash (pos_part b.size) ≡ true) × (announce b r ≡ r')
          ⊎ ((w : Writer) × (new_writer disk b r.chunk_size ≡ ok w)
              × (add_writer w (announce b r) ≡ r')))

  add_blob-Adds :
      (disk : Disk) (r r' : Receiver) (b : BlobDescriptor)
      → add_blob digest disk r b ≡ ok r'
      → Adds disk r b r'
  unfolding add_blob
  add_blob-Adds disk r r' b e = elim (Option-cases (lookup b.hash r.blobs)) [
    | inr (size, old) ↦ absurd (ground (arith, e, old))
    | inl new ↦ elim (Bool-cases (has digest r.store b.hash (pos_part b.size))) [
      | inl there ↦ (new, inl (there, ground (arith, e, new, there)))
      | inr missing ↦ elim (Result-cases (new_writer disk b r.chunk_size)) [
        | inl (w, made) ↦ (new, inr (w, made, ground (arith, e, new, missing, made)))
        | inr (bad, made) ↦ absurd (ground (arith, e, new, missing, made))
      ]
    ]
  ]

  add_blob-IsReady :
      (disk : Disk) (r r' : Receiver) (b : BlobDescriptor)
      → IsReady r
      → add_blob digest disk r b ≡ ok r'
      → IsReady r'
  add_blob-IsReady disk r r' b v e =
      let (new, how) = add_blob-Adds disk r r' b e in
      elim how [
        | inl (there, same) ↦ subst IsReady same (record {
          chunk_pos = v.chunk_pos;
          chunk_small = v.chunk_small;
          unfailed = v.unfailed;
          undone = v.undone;
          healthy = announce-IsHealthy r v.healthy b new there;
        })
        | inr (w, made, same) ↦
            let (own, sized, early, o) =
              new_writer-Waits disk b r.chunk_size w v.chunk_pos v.chunk_small made in
            subst IsReady same (record {
              chunk_pos = v.chunk_pos;
              chunk_small = v.chunk_small;
              unfailed = v.unfailed;
              undone = v.undone;
              healthy = add_writer-IsHealthy r v.healthy b new w own sized early o;
            })
      ]

  add_blobs-IsReady :
      (disk : Disk) (blobs : List BlobDescriptor) (r r' : Receiver)
      → IsReady r
      → add_blobs digest disk r blobs ≡ ok r'
      → IsReady r'
  unfolding add_blobs
  add_blobs-IsReady disk [] r r' v e = let same : r ≡ r' = ground (arith, e) in subst IsReady same v
  add_blobs-IsReady disk (b ∷ blobs) r r' v e = elim (Result-cases (add_blob digest disk r b)) [
    | inl (next, d) ↦
        add_blobs-IsReady disk blobs next r' (add_blob-IsReady disk r next b v d)
          (ground (arith, e, d))
    | inr (bad, d) ↦ absurd (ground (arith, e, d))
  ]

  started-IsValid : (r : Receiver) → IsReady r → IsValid digest (started r)
  started-IsValid r v = record {
    chunk_pos = v.chunk_pos;
    chunk_small = v.chunk_small;
    healthy = λ _. v.healthy;
    failed = λ bad. absurd (bad v.unfailed);
  }

  -- Before the loop: nothing is announced and nothing waits.
  abbrev pub initial : BlobStore → ℕ → Receiver
  initial store chunk = record {
    chunk_size = chunk;
    blobs = [];
    writers = [];
    pending = 0;
    failure = none;
    done_set = false;
    store = store;
  }

  initial-IsReady :
      (store : BlobStore) (c : ℤ) (chunk : ℕ)
      → normalize_blob_chunk_size c ≡ ok chunk
      → IsReady (initial store chunk)
  unfolding lookup
  initial-IsReady store c chunk e =
      let (lo, hi) = normalize_bounds c chunk e in
      record {
        chunk_pos = lo;
        chunk_small = hi;
        unfailed = refl;
        undone = refl;
        healthy = record {
          unique = tt;
          pending_is = refl;
          done_is = refl;
          each = λ h w found. absurd (ground (arith, found));
          stored = λ h size wanted absent. absurd (ground (arith, wanted));
        };
      }

  -- A receiver that `NewChunkedBlobReceiver` returns is valid.
  pub new_receiver-IsValid :
      (disk : Disk) (store : BlobStore) (blobs : List BlobDescriptor) (c : ℤ) (r : Receiver)
      → new_receiver digest disk store blobs c ≡ ok r
      → IsValid digest r
  unfolding new_receiver
  new_receiver-IsValid disk store blobs c r e = elim (Result-cases (normalize_blob_chunk_size c)) [
    | inr (bad, d) ↦ absurd (ground (arith, e, d))
    | inl (chunk, d) ↦ elim (Result-cases (add_blobs digest disk (initial store chunk) blobs)) [
      | inr (bad, f) ↦ absurd (ground (arith, e, d, f))
      | inl (last, f) ↦
          let ready =
            add_blobs-IsReady disk blobs (initial store chunk) last
              (initial-IsReady store c chunk d) f in
          let same : started last ≡ r = ground (arith, e, d, f, ready.undone) in
          subst (IsValid digest) same (started-IsValid last ready)
    ]
  ]
