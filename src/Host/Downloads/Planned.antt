-- ===== src/Host/Downloads/Planned.antt =====
-- internal/host/blob_transfer.go, internal/host/server.go: every chunk that a session's check
-- accepts stands in the plan from which the session was made.
use rmtx.Base.{
  ℕ, zero, suc, ◌+◌, ◌-◌, ◌*◌, ◌/◌, ◌%◌, ◌≡◌, ◌≢◌, ◌≤◌, ◌<◌, inl, inr, refl, ap, sym, ◌∙◌, false,
  some, List, [], ◌∷◌, ◌++◌, map, ◌==◌, lt→ltb, ok, Bool-cases, Result-cases, >>=-parts, Member,
  Member-left, Member-right, Member-map, arith,
}
use rmtx.Base.Int.{ℤ, pos, negsuc, is_neg, pos_part}
use rmtx.Base.Dict.{Dict, lookup, insert, lookup-insert}
use rmtx.Base.Text.{Text, text_key, text_beq, text_beq_iff}
use rmtx.Syncfs.Chunks.{
  BlobDescriptor, BlobChunkInfo, chunk_loop, chunks_of, chunks_of_all, blob_chunk_count,
  max_blob_chunk_size,
}
use rmtx.Syncfs.Chunks.Sizes.{normalize_idem, count_chunks_value, rounds_cover}
use rmtx.Syncfs.Manifest.{Entry}
use rmtx.Host.Downloads.{DownloadItem, ChunkKey, validate_send_blob_chunk}
use rmtx.Host.Downloads.Prepare.{
  prepare_loop, prepare_download, or_else, known_entry, entries_by_hash,
}

abbrev pub chunk_at : Text → ℕ → ℕ → BlobChunkInfo
chunk_at hash size offset = record { hash = hash; size = pos size; offset = pos offset }

chunk_loop-Member :
    (rounds k : ℕ) (hash : Text) (size first offset chunk : ℕ)
    → k < rounds
    → offset ≡ first + k * chunk
    → offset < size
    → Member (chunk_at hash size offset) (chunk_loop rounds hash size first chunk)
unfolding chunk_loop
chunk_loop-Member zero k hash size first offset chunk h e lt = absurd (omega arith)
chunk_loop-Member (suc rounds) zero hash size first offset chunk h e lt =
    let here : offset ≡ first = omega arith in
    simp (lt→ltb first size (omega arith)) (inl (ap (chunk_at hash size) here))
chunk_loop-Member (suc rounds) (suc k) hash size first offset chunk h e lt =
    simp (lt→ltb first size (omega arith)) (
      inr (
        chunk_loop-Member rounds k hash size (first + chunk) offset chunk (omega arith)
          (omega arith) lt))

nonneg : (a : ℤ) → is_neg a ≡ false → a ≡ pos (pos_part a)
nonneg (pos n) h = refl
nonneg (negsuc n) h = absurd (ground arith)

count_value :
    (size : ℤ) (chunk count : ℕ)
    → 0 < chunk
    → chunk ≤ max_blob_chunk_size
    → 0 < pos_part size
    → blob_chunk_count size (pos chunk) ≡ ok count
    → count ≡ 1 + (pos_part size - 1) / chunk
unfolding blob_chunk_count
count_value size chunk count hc hm hs h =
    (count_chunks_value (pos_part size) chunk count hs
      (ground (arith, normalize_idem chunk hc hm))).0

-- What the check of a requested chunk found.
abbrev Accepted : BlobChunkInfo → DownloadItem → ℕ → Type 0
Accepted info item chunk =
    (item.size ≡ pos (pos_part item.size))
    × (info.offset ≡ pos (pos_part info.offset))
    × (pos_part info.offset ≤ pos_part item.size)
    × (0 < pos_part item.size
        → (pos_part info.offset % chunk ≡ 0)
          × (pos_part info.offset / chunk ≤ (pos_part item.size - 1) / chunk))

validate_send_blob_chunk-Accepted :
    (info : BlobChunkInfo) (item : DownloadItem) (chunk : ℕ)
    → 0 < chunk
    → chunk ≤ max_blob_chunk_size
    → validate_send_blob_chunk info item chunk ≡ ok tt
    → Accepted info item chunk
unfolding validate_send_blob_chunk
validate_send_blob_chunk-Accepted info item chunk hc hm h =
    elim (Result-cases (blob_chunk_count item.size (pos chunk))) [
      | inr (x, e) ↦ absurd (ground (arith, e, h))
      | inl (count, e) ↦ (
        nonneg item.size (ground (arith, e, h)),
        nonneg info.offset (ground (arith, e, h)),
        ground (arith, e, h),
        λ hs. (
          ground (arith, e, h),
          ground (arith, e, h, count_value item.size chunk count hc hm hs e),
        ),
      )
    ]

offset_of_index :
    (size offset chunk : ℕ)
    → 0 < chunk
    → 0 < size
    → offset % chunk ≡ 0
    → offset / chunk ≤ (size - 1) / chunk
    → (offset ≡ offset / chunk * chunk) × (offset < size)
offset_of_index size offset chunk hc hs aligned small =
    let (below, _) = rounds_cover size chunk hc hs in
    let whole : offset ≡ offset / chunk * chunk = grind arith in (whole, grind (arith, below))

chunks_of-Member :
    (hash : Text) (size offset chunk : ℕ)
    → 0 < chunk
    → offset ≤ size
    → (0 < size → (offset % chunk ≡ 0) × (offset / chunk ≤ (size - 1) / chunk))
    → Member (chunk_at hash size offset) (chunks_of (record { hash = hash; size = pos size }) chunk)
unfolding chunks_of
chunks_of-Member hash zero offset chunk hc le at_index = inl (ap (chunk_at hash 0) (omega arith))
chunks_of-Member hash (suc size) offset chunk hc le at_index =
    let (aligned, small) = at_index (omega arith) in
    let (whole, inside) = offset_of_index (suc size) offset chunk hc (omega arith) aligned small in
    let some_bytes : (suc size == 0) ≡ false = ground arith in
    simp some_bytes (
      chunk_loop-Member (1 + (suc size - 1) / chunk) (offset / chunk) hash (suc size) 0 offset chunk
        (omega (arith, small)) (omega (arith, whole)) inside)

chunks_of_all-Member :
    (b : BlobDescriptor) (c : BlobChunkInfo) (blobs : List BlobDescriptor) (chunk : ℕ)
    → Member b blobs
    → Member c (chunks_of b chunk)
    → Member c (chunks_of_all blobs chunk)
unfolding chunks_of_all
chunks_of_all-Member b c [] chunk m n = absurd m
chunks_of_all-Member b c (x ∷ blobs) chunk (inl same) n =
    Member-left c (chunks_of x chunk) (chunks_of_all blobs chunk) (simp (sym same) n)
chunks_of_all-Member b c (x ∷ blobs) chunk (inr m) n =
    Member-right c (chunks_of x chunk) (chunks_of_all blobs chunk)
      (chunks_of_all-Member b c blobs chunk m n)

-- Every item has its descriptor.
abbrev pub IsDescribed : Dict Text DownloadItem → List BlobDescriptor → Type 0
IsDescribed items descriptors =
    (hash : Text) (item : DownloadItem)
    → lookup hash items ≡ some item
    → Member (record { hash = hash; size = item.size }) descriptors

insert-IsDescribed :
    (hash : Text) (new : DownloadItem) (items : Dict Text DownloadItem)
    (descriptors : List BlobDescriptor)
    → IsDescribed items descriptors
    → IsDescribed
        (insert hash new items)
        (descriptors ++ (record { hash = hash; size = new.size } ∷ []))
insert-IsDescribed hash new items descriptors h key item found =
    elim (Bool-cases (text_beq hash key)) [
      | inl e ↦
          let same : hash ≡ key = (text_beq_iff hash key).0 e in
          let is_new : new ≡ item = ground (arith, found, lookup-insert hash key new items, e) in
          Member-right (record { hash = key; size = item.size }) descriptors
            (record { hash = hash; size = new.size } ∷ []) (inl (simp (same, is_new) refl))
      | inr e ↦
          Member-left (record { hash = key; size = item.size }) descriptors
            (record { hash = hash; size = new.size } ∷ [])
            (h key item (sym (lookup-insert hash key new items ∙ simp e refl) ∙ found))
    ]

module _ (join_path : Text → Text) (sources : Dict Text Text) (by_hash : Dict Text Entry) where
  prepare_loop-IsDescribed :
      (hashes : List Text) (items : Dict Text DownloadItem) (descriptors : List BlobDescriptor)
      (last_items : Dict Text DownloadItem) (last_descriptors : List BlobDescriptor)
      → IsDescribed items descriptors
      → prepare_loop join_path sources by_hash hashes items descriptors
        ≡ ok (last_items, last_descriptors)
      → IsDescribed last_items last_descriptors
  unfolding prepare_loop
  prepare_loop-IsDescribed [] items descriptors last_items last_descriptors h done =
      let same_items : items ≡ last_items = cc in
      let same_descriptors : descriptors ≡ last_descriptors = cc in
      rw (sym same_items, sym same_descriptors) h
  prepare_loop-IsDescribed (hash ∷ hashes) items descriptors last_items last_descriptors h done =
      let item_of : Entry → DownloadItem = λ entry. record {
        hash = hash;
        path = or_else (lookup hash sources) (join_path entry.path);
        size = entry.size;
      } in
      let (entry, _, rest) = >>=-parts (known_entry (lookup hash by_hash)) _ done in
      prepare_loop-IsDescribed hashes (insert hash (item_of entry) items)
        (descriptors ++ (record { hash = hash; size = entry.size } ∷ [])) last_items
        last_descriptors (insert-IsDescribed hash (item_of entry) items descriptors h) rest

-- The key of a planned chunk.
abbrev pub key_of : BlobChunkInfo → ChunkKey
key_of c = (c.hash, c.offset)

-- An offered chunk is a planned one.
pub offered-Member :
    (info : BlobChunkInfo) (item : DownloadItem) (descriptors : List BlobDescriptor) (chunk : ℕ)
    → 0 < chunk
    → chunk ≤ max_blob_chunk_size
    → Member (record { hash = info.hash; size = item.size }) descriptors
    → validate_send_blob_chunk info item chunk ≡ ok tt
    → Member (key_of info) (map key_of (chunks_of_all descriptors chunk))
offered-Member info item descriptors chunk hc hm described accepted =
    let (size, offset, inside, at_index) =
      validate_send_blob_chunk-Accepted info item chunk hc hm accepted in
    let found : Member (chunk_at info.hash (pos_part item.size) (pos_part info.offset))
        (chunks_of_all descriptors chunk) =
      chunks_of_all-Member (record { hash = info.hash; size = pos (pos_part item.size) })
        (chunk_at info.hash (pos_part item.size) (pos_part info.offset)) descriptors chunk
        (rw⁻¹ size described)
        (chunks_of-Member info.hash (pos_part item.size) (pos_part info.offset) chunk hc inside
          at_index) in
    let same : key_of (chunk_at info.hash (pos_part item.size) (pos_part info.offset))
        ≡ key_of info =
      ap (λ o. (info.hash, o)) (sym offset) in
    rw (sym same) (
      Member-map key_of (chunk_at info.hash (pos_part item.size) (pos_part info.offset))
        (chunks_of_all descriptors chunk) found)

nothing : (hash : Text) (item : DownloadItem) → lookup {V = DownloadItem} hash [] ≢ some item
unfolding lookup
nothing hash item found = cc

pub prepare_download-IsDescribed :
    (join_path : Text → Text) (sources : Dict Text Text) (changed : List Entry) (hashes : List Text)
    (items : Dict Text DownloadItem) (descriptors : List BlobDescriptor)
    → prepare_download join_path sources changed hashes ≡ ok (items, descriptors)
    → IsDescribed items descriptors
unfolding prepare_download
prepare_download-IsDescribed join_path sources changed hashes items descriptors done =
    prepare_loop-IsDescribed join_path sources (entries_by_hash changed []) hashes [] [] items
      descriptors (λ hash item found. absurd (nothing hash item found)) done
