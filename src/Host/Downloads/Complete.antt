-- ===== src/Host/Downloads/Complete.antt =====
-- internal/host/blob_transfer.go: a download session is done only when it has sent everything.
use rmtx.Base.{
  ℕ, ◌≡◌, refl, true, none, List, map, length, is_some, ok, All-members, All-Member, Member,
  Member-map, length-map, arith,
}
use rmtx.Base.Int.{pos}
use rmtx.Base.Dict.{Dict, lookup}
use rmtx.Base.Pigeonhole.{KeysIn, all_taken}
use rmtx.Base.Text.{Text, text_key}
use rmtx.Syncfs.Chunks.{
  BlobDescriptor, BlobChunkInfo, chunks_of_all, plan_blob_chunks, default_blob_chunk_size,
  normalize_blob_chunk_size,
}
use rmtx.Syncfs.Chunks.Plan.{plan_blob_chunks-Tiles}
use rmtx.Syncfs.Manifest.{Entry}
use rmtx.Host.Downloads.{DownloadItem, ChunkKey, chunk_key, SendSession, new_blob_send_session}
use rmtx.Host.Downloads.Prepare.{prepare_download}
use rmtx.Host.Downloads.Session.{Reaches, IsOffered, Reaches-IsRunning, new_session-IsRunning}
use rmtx.Host.Downloads.Planned.{IsDescribed, key_of, offered-Member, prepare_download-IsDescribed}

offered_key :
    (items : Dict Text DownloadItem) (descriptors : List BlobDescriptor) (key : ChunkKey)
    → IsDescribed items descriptors
    → IsOffered items default_blob_chunk_size key
    → Member key (map key_of (chunks_of_all descriptors default_blob_chunk_size))
offered_key items descriptors key described (info, item, same, found, accepted) = rw⁻¹ same (
    offered-Member info item descriptors default_blob_chunk_size (omega arith) (omega arith)
      (described info.hash item found) accepted)

standard_size :
    (chunk : ℕ)
    → normalize_blob_chunk_size (pos default_blob_chunk_size) ≡ ok chunk
    → chunk ≡ default_blob_chunk_size
unfolding normalize_blob_chunk_size
standard_size chunk h = ground (arith, h)

-- A download session that was made for the blobs that a client asked for, from their plan, and that
-- is done without an error has sent every chunk of the plan, in whatever order the chunks were
-- requested, how often, and over how many connections that failed or not.
pub download_complete :
    (join_path : Text → Text) (sources : Dict Text Text) (changed : List Entry) (hashes : List Text)
    (items : Dict Text DownloadItem) (descriptors : List BlobDescriptor)
    (chunks : List BlobChunkInfo) (context_id session token : Text) (s : SendSession)
    → prepare_download join_path sources changed hashes ≡ ok (items, descriptors)
    → plan_blob_chunks descriptors (pos default_blob_chunk_size) ≡ ok chunks
    → Reaches
        (new_blob_send_session context_id session token items
          (length chunks)
          default_blob_chunk_size)
        s
    → s.done_set ≡ true
    → s.failure ≡ none
    → (c : BlobChunkInfo) → Member c chunks
    → is_some (lookup (c.hash, c.offset) s.sent) ≡ true
download_complete join_path sources changed hashes items descriptors chunks context_id session token
      s prepared planned reached done healthy c member =
    let (i, t, size, unique, offered, enough) =
      Reaches-IsRunning items (length chunks) default_blob_chunk_size _ s
        (new_session-IsRunning context_id session token items (length chunks)
          default_blob_chunk_size)
        reached in
    let described =
      prepare_download-IsDescribed join_path sources changed hashes items descriptors prepared in
    let (chunk, normal, all_chunks, _, _, _) =
      plan_blob_chunks-Tiles descriptors (pos default_blob_chunk_size) chunks planned in
    let standard : chunk ≡ default_blob_chunk_size = standard_size chunk normal in
    let same_plan : chunks ≡ chunks_of_all descriptors default_blob_chunk_size =
      rw (all_chunks, standard) refl in
    let plan = map key_of chunks in
    let inside : KeysIn s.sent plan =
      All-members (λ entry. Member entry.0 plan) s.sent
        (λ entry m. rw same_plan (
          offered_key items descriptors entry.0 described (
            All-Member (λ e. IsOffered items default_blob_chunk_size e.0) entry s.sent offered
              m))) in
    all_taken s.sent plan unique inside
      (omega (arith, length-map key_of chunks, enough done healthy)) (key_of c)
      (Member-map key_of c chunks member)
