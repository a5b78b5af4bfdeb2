-- ===== src/Tests/Downloads.antt =====
-- internal/host/blob_transfer.go: a blob of three bytes, asked for once over a connection that is
-- lost and once over another.
use rmtx.Base.{◌≡◌, refl, true, false, none, some, inl, List, [], ◌∷◌, ok, replicate, is_some}
use rmtx.Base.Int.{pos}
use rmtx.Base.Dict.{Dict, lookup, insert}
use rmtx.Base.Text.{Text, codes, text_key}
use rmtx.Syncfs.Hash.{valid_blob_hash, hex_decode, hex_encode, from_hex, to_hex}
use rmtx.Syncfs.Chunks.{
  BlobDescriptor, BlobChunkInfo, plan_blob_chunks, default_blob_chunk_size,
  normalize_blob_chunk_size, count_plan, blob_chunk_count, count_chunks, chunks_of_all, chunks_of,
  chunk_loop, blob_chunk_payload_len, payload_len_at,
}
use rmtx.Syncfs.Manifest.{Entry, file}
use rmtx.Host.Downloads.{
  NetError, DownloadItem, chunk_key, SendSession, TransferRequest, new_blob_send_session, download,
  serve_request, send_requested, validate, find_item, validate_send_blob_chunk, send_blob_chunk,
  complete_chunk, is_disconnect_error,
}
use rmtx.Host.Downloads.Prepare.{prepare_download, prepare_loop, entries_by_hash}
use rmtx.Host.Downloads.Session.{Reaches}
use rmtx.Host.Downloads.Complete.{download_complete}

abbrev hash : Text
hash = replicate 64 b'3'

abbrev join_path : Text → Text
join_path path = b'/' ∷ path

abbrev changed : List Entry
changed =
    record {
      path = codes "a";
      kind = file;
      hash = hash;
      size = pos 3;
      mode = 0;
      mod_time = pos 0;
      linkname = [];
    }
    ∷ []

abbrev items : Dict Text DownloadItem
items = (hash, record { hash = hash; path = codes "/a"; size = pos 3 }) ∷ []

abbrev descriptors : List BlobDescriptor
descriptors = record { hash = hash; size = pos 3 } ∷ []

abbrev chunk : BlobChunkInfo
chunk = record { hash = hash; size = pos 3; offset = pos 0 }

abbrev fresh : SendSession
fresh = new_blob_send_session (codes "c") (codes "s") (codes "t") items 1 default_blob_chunk_size

abbrev request : TransferRequest
request = record {
  context_id = codes "c";
  session = codes "s";
  token = codes "t";
  direction = download;
  chunk = some chunk;
}

abbrev eof : NetError
eof = record {
  is_eof = true;
  is_canceled = false;
  is_closed_pipe = false;
  is_net_closed = false;
  is_os_deadline = false;
  is_reset_errno = false;
  times_out = false;
  is_context_deadline = false;
}

-- The first connection is lost.
abbrev last : SendSession
last = serve_request none none (serve_request none (some eof) fresh request) request

prepare_run : prepare_download join_path [] changed (hash ∷ []) ≡ ok (items, descriptors)
unfolding prepare_download prepare_loop lookup entries_by_hash insert
prepare_run = refl

plan_run : plan_blob_chunks descriptors (pos default_blob_chunk_size) ≡ ok (chunk ∷ [])
unfolding plan_blob_chunks normalize_blob_chunk_size count_plan valid_blob_hash hex_decode from_hex
    hex_encode to_hex blob_chunk_count count_chunks chunks_of_all chunks_of chunk_loop
plan_run = refl

done_run : last.done_set ≡ true
unfolding serve_request send_requested validate new_blob_send_session find_item lookup
    validate_send_blob_chunk blob_chunk_count normalize_blob_chunk_size count_chunks send_blob_chunk
    blob_chunk_payload_len payload_len_at is_disconnect_error complete_chunk insert
done_run = refl

healthy_run : last.failure ≡ none
unfolding serve_request send_requested validate new_blob_send_session find_item lookup
    validate_send_blob_chunk blob_chunk_count normalize_blob_chunk_size count_chunks send_blob_chunk
    blob_chunk_payload_len payload_len_at is_disconnect_error complete_chunk
healthy_run = refl

download_complete_example : is_some (lookup (hash, pos 0) last.sent) ≡ true
download_complete_example =
    download_complete join_path [] changed (hash ∷ []) items descriptors (chunk ∷ []) (codes "c")
      (codes "s") (codes "t") last prepare_run plan_run
      (Reaches.serve fresh (serve_request none (some eof) fresh request) none none request
        (Reaches.serve fresh fresh none (some eof) request (Reaches.start fresh)))
      done_run healthy_run chunk (inl refl)
