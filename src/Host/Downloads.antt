-- ===== src/Host/Downloads.antt =====
-- internal/host/blob_transfer.go: the sessions in which a client fetches blobs chunk by chunk, over
-- several connections. A lock makes each operation on a session one step.
pub mod Session
pub mod Prepare
pub mod Planned
pub mod Complete
use rmtx.Base.{
  ℕ, zero, suc, ◌+◌, ◌/◌, ◌%◌, ◌≡◌, ◌↔◌, Bool, true, false, not, ◌&&◌, ◌||◌, Option, none, some,
  List, [], ◌∷◌, ◌++◌, if◌then◌else◌, ◌==◌, ltb, leb, is_some, length, Key, Result, ok, err, ◌>>=◌,
  ◌>>◌, fail_if, arith,
}
use rmtx.Base.Int.{ℤ, pos, negsuc, is_neg, pos_part, neg_part, int_beq}
use rmtx.Base.Dict.{Dict, lookup, insert}
use rmtx.Base.Text.{Text, text_beq, text_beq_iff, text_key, codes, is_empty}
use rmtx.Syncfs.Chunks.{
  BlobDescriptor, BlobChunkInfo, ChunkError, blob_chunk_count, blob_chunk_payload_len,
  default_blob_chunk_size,
}
use rmtx.Syncfs.Manifest.{Entry, file, is_kind}

-- What `errors.Is` and `errors.As` find in an error.
pub record NetError : Type 0 where
  pub is_eof : Bool
  pub is_canceled : Bool
  pub is_closed_pipe : Bool
  pub is_net_closed : Bool
  pub is_os_deadline : Bool
  pub is_reset_errno : Bool
  pub times_out : Bool
  pub is_context_deadline : Bool

abbrev pub is_common_disconnect_error : NetError → Bool
is_common_disconnect_error e =
    e.is_eof || (e.is_canceled || (e.is_closed_pipe || (e.is_net_closed || e.is_os_deadline)))

abbrev pub is_timeout_disconnect_error : NetError → Bool
is_timeout_disconnect_error e = e.times_out && not e.is_context_deadline

unfoldable pub is_disconnect_error : NetError → Bool
is_disconnect_error e =
    is_common_disconnect_error e || (e.is_reset_errno || is_timeout_disconnect_error e)

-- The errors of a session, without their texts. `from_net` is one of the context, the connection or
-- the blob's file.
pub data TransferError : Type 0 where
  session_not_found session_mismatch direction_mismatch : TransferError
  chunk_required unknown_chunk unknown_blob : TransferError
  size_mismatch invalid_offset unaligned_offset index_out_of_range : TransferError
  from_chunks : ChunkError → TransferError
  from_net : NetError → TransferError

abbrev pub is_disconnect : TransferError → Bool
is_disconnect (TransferError.from_net e) = is_disconnect_error e
is_disconnect _ = false

pub record DownloadItem : Type 0 where
  pub hash : Text
  pub path : Text
  pub size : ℤ

abbrev pub ChunkKey : Type 0
ChunkKey = Text × ℤ

abbrev pub chunk_beq : ChunkKey → ChunkKey → Bool
chunk_beq (h, o) (k, p) = text_beq h k && int_beq o p

pub int_beq_iff : (a b : ℤ) → (int_beq a b ≡ true) ↔ (a ≡ b)
int_beq_iff (pos a) (pos b) = ground arith
int_beq_iff (pos a) (negsuc b) = ground arith
int_beq_iff (negsuc a) (pos b) = ground arith
int_beq_iff (negsuc a) (negsuc b) = ground arith

pub chunk_beq_iff : (j k : ChunkKey) → (chunk_beq j k ≡ true) ↔ (j ≡ k)
chunk_beq_iff (h, o) (k, p) = ground (arith, text_beq_iff h k, int_beq_iff o p)

instance abbrev pub chunk_key : Key ChunkKey
chunk_key = record { is_key = chunk_beq; is_key_iff = chunk_beq_iff }

-- A session that sends. A Go map of empty structs is a map to the unit type.
pub record SendSession : Type 0 where
  pub context_id : Text
  pub session : Text
  pub token : Text
  pub direction : Text
  pub chunk_size : ℕ
  pub items : Dict Text DownloadItem
  pub total : ℕ
  pub sent : Dict ChunkKey (Unit {0})
  pub failure : Option TransferError
  pub done_set : Bool

pub record TransferRequest : Type 0 where
  pub context_id : Text
  pub session : Text
  pub token : Text
  pub direction : Text
  pub chunk : Option BlobChunkInfo

abbrev pub download : Text
download = codes "download"

unfoldable pub new_blob_send_session :
    Text → Text → Text → Dict Text DownloadItem → ℕ → ℕ → SendSession
new_blob_send_session context_id session token items total chunk_size = record {
  context_id = context_id;
  session = session;
  token = token;
  direction = download;
  chunk_size = chunk_size;
  items = items;
  total = total;
  sent = [];
  failure = none;
  done_set = total == 0;
}

unfoldable pub validate : SendSession → TransferRequest → Result TransferError (Unit {0})
validate s req =
    fail_if
      (not (text_beq s.context_id req.context_id)
        || (not (text_beq s.session req.session) || not (text_beq s.token req.token)))
      TransferError.session_mismatch
    >> fail_if (not (text_beq s.direction req.direction)) TransferError.direction_mismatch

-- The map of sessions: `lookupBlobTransferSession`, where a nil session is a missing one.
unfoldable pub lookup_session :
    Dict Text SendSession → TransferRequest → Result TransferError SendSession
lookup_session sessions req = elim (lookup req.token sessions) [
  | none ↦ err TransferError.session_not_found
  | some s ↦ validate s req >> ok s
]

unfoldable pub complete_chunk : SendSession → BlobChunkInfo → SendSession
complete_chunk s info =
    let key : ChunkKey = (info.hash, info.offset) in
    let sent = if is_some (lookup key s.sent) then s.sent else insert key tt s.sent in
    record s { sent = sent; done_set = s.done_set || leb s.total (length sent) }

-- The first error stays.
abbrev pub fail_after :
    Option TransferError → SendSession → TransferError → SendSession × TransferError
fail_after none s e = (record s { failure = some e; done_set = true }, e)
fail_after (some first) s e = (record s { done_set = true }, first)

unfoldable pub fail : SendSession → TransferError → SendSession × TransferError
fail s e = fail_after s.failure s e

abbrev pub lift_chunks {ℓ} : {A : Type ℓ} → Result ChunkError A → Result TransferError A
lift_chunks (err e) = err (TransferError.from_chunks e)
lift_chunks (ok a) = ok a

unfoldable pub validate_send_blob_chunk :
    BlobChunkInfo → DownloadItem → ℕ → Result TransferError (Unit {0})
validate_send_blob_chunk info item chunk_size =
    fail_if (not (int_beq info.size item.size)) TransferError.size_mismatch
    >> fail_if
        (is_neg info.offset
          || (is_neg item.size || ltb (pos_part item.size) (pos_part info.offset)))
        TransferError.invalid_offset
    >> fail_if (ltb 0 (pos_part item.size) && not (pos_part info.offset % chunk_size == 0))
        TransferError.unaligned_offset
    >> (lift_chunks (blob_chunk_count item.size (pos chunk_size)) >>= (λ count.
        fail_if
          (leb count (if ltb 0 (pos_part item.size) then pos_part info.offset / chunk_size else 0))
          TransferError.index_out_of_range))

-- `sendBlobChunk`: `written` is what opening the file and `WriteFrom` answer.
unfoldable pub send_blob_chunk :
    BlobChunkInfo → ℕ → Option NetError → Result TransferError (Unit {0})
send_blob_chunk info chunk_size written =
    lift_chunks (blob_chunk_payload_len info (pos chunk_size))
    >>= (λ payload_len. elim written [ none ↦ ok tt | some e ↦ err (TransferError.from_net e) ])

-- `sendItems[hash]`, where a missing item has no hash.
unfoldable pub find_item : SendSession → Text → Result TransferError DownloadItem
find_item s hash = elim (lookup hash s.items) [
  | none ↦ err TransferError.unknown_chunk
  | some item ↦ if is_empty item.hash then err TransferError.unknown_chunk else ok item
]

abbrev pub with_chunk : Option BlobChunkInfo → Result TransferError BlobChunkInfo
with_chunk none = err TransferError.chunk_required
with_chunk (some info) = ok info

abbrev pub not_cancelled : Option NetError → Result TransferError (Unit {0})
not_cancelled none = ok tt
not_cancelled (some e) = err (TransferError.from_net e)

-- `sendRequestedBlobChunk`: the chunk that was sent, or an error; then the session after it.
unfoldable pub send_requested :
    Option NetError
    → Option NetError
    → SendSession
    → TransferRequest
    → Result TransferError BlobChunkInfo
send_requested cancelled written s req =
    not_cancelled cancelled
    >> validate s req
    >> (with_chunk req.chunk >>= (λ info. find_item s info.hash >>= (λ item.
        validate_send_blob_chunk info item s.chunk_size
        >> send_blob_chunk info s.chunk_size written
        >> ok info)))

abbrev pub after_error : SendSession → TransferError → SendSession
after_error s e = if is_disconnect e then s else (fail s e).0

abbrev pub after_send : SendSession → Result TransferError BlobChunkInfo → SendSession
after_send s (err e) = after_error s e
after_send s (ok info) = complete_chunk s info

-- One round of `sendBlobTransfer`: a lost connection leaves the session to others.
unfoldable pub serve_request :
    Option NetError → Option NetError → SendSession → TransferRequest → SendSession
serve_request cancelled written s req = after_send s (send_requested cancelled written s req)
