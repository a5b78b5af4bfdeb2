-- ===== src/Host/Downloads/Session.antt =====
-- internal/host/blob_transfer.go: what every order of requests keeps true of a session that sends.
use rmtx.Base.{
  ℕ, ◌≡◌, ◌≤◌, refl, ap, sym, inl, inr, true, ◌||◌, Option, none, some, leb, is_some, length,
  Result, ok, err, ◌>>◌, Bool-cases, Option-cases, >>=-parts, All, arith,
}
use rmtx.Base.Dict.{Dict, lookup, insert, Unique, Unique-insert, All-insert, length-insert}
use rmtx.Base.Text.{Text, text_key}
use rmtx.Syncfs.Chunks.{BlobChunkInfo}
use rmtx.Host.Downloads.{
  NetError, TransferError, DownloadItem, ChunkKey, chunk_key, SendSession, TransferRequest,
  new_blob_send_session, validate, complete_chunk, fail, validate_send_blob_chunk, send_blob_chunk,
  find_item, with_chunk, not_cancelled, send_requested, after_send, is_disconnect, serve_request,
}

-- What may happen to a session: a request is served, whatever the context and the connection
-- answer, or it fails, as when the next request cannot be read or the run is cancelled.
pub data Reaches : SendSession → SendSession → Type 0 where
  start : (s : SendSession) → Reaches s s
  serve :
      (s t : SendSession) (cancelled written : Option NetError) (req : TransferRequest)
      → Reaches s t
      → Reaches s (serve_request cancelled written t req)
  failing : (s t : SendSession) (e : TransferError) → Reaches s t → Reaches s (fail t e).0

-- A chunk that the session's check accepts.
abbrev pub IsOffered : Dict Text DownloadItem → ℕ → ChunkKey → Type 0
IsOffered items chunk_size key =
    (info : BlobChunkInfo) × (item : DownloadItem) × ((info.hash, info.offset) ≡ key)
    × (lookup info.hash items ≡ some item)
    × (validate_send_blob_chunk info item chunk_size ≡ ok tt)

abbrev pub IsRunning : Dict Text DownloadItem → ℕ → ℕ → SendSession → Type 0
IsRunning items total chunk_size s =
    (s.items ≡ items)
    × (s.total ≡ total)
    × (s.chunk_size ≡ chunk_size)
    × Unique s.sent
    × All (λ entry. IsOffered items chunk_size entry.0) s.sent
    × (s.done_set ≡ true → s.failure ≡ none → total ≤ length s.sent)

find_item-lookup :
    (s : SendSession) (hash : Text) (item : DownloadItem)
    → find_item s hash ≡ ok item
    → lookup hash s.items ≡ some item
unfolding find_item
find_item-lookup s hash item h = elim (Option-cases (lookup hash s.items)) [
  | inl e ↦ absurd (ground (arith, h))
  | inr (found, e) ↦ ground (arith, h)
]

send_requested-IsOffered :
    (cancelled written : Option NetError) (s : SendSession) (req : TransferRequest)
    (info : BlobChunkInfo)
    → send_requested cancelled written s req ≡ ok info
    → IsOffered s.items s.chunk_size (info.hash, info.offset)
unfolding send_requested
send_requested-IsOffered cancelled written s req info h =
    let (_, _, chosen) = >>=-parts (not_cancelled cancelled >> validate s req) _ h in
    let (asked, _, found) = >>=-parts (with_chunk req.chunk) _ chosen in
    let (item, e, checked) = >>=-parts (find_item s asked.hash) _ found in
    let (_, checks, last) =
      >>=-parts
        (validate_send_blob_chunk asked item s.chunk_size
          >> send_blob_chunk asked s.chunk_size written)
        _ checked in
    let (_, accepted, _) = >>=-parts (validate_send_blob_chunk asked item s.chunk_size) _ checks in
    let same : asked ≡ info = cc in
    (asked, item, ap (λ i. (i.hash, i.offset)) same, find_item-lookup s asked.hash item e, accepted)

complete_chunk-IsRunning :
    (items : Dict Text DownloadItem) (total chunk_size : ℕ) (s : SendSession) (info : BlobChunkInfo)
    → IsRunning items total chunk_size s
    → IsOffered items chunk_size (info.hash, info.offset)
    → IsRunning items total chunk_size (complete_chunk s info)
unfolding complete_chunk
complete_chunk-IsRunning items total chunk_size s info (i, t, c, u, all, done) offered =
    elim (Bool-cases (is_some (lookup (info.hash, info.offset) s.sent))) [
      | inl old ↦ simp old (i, t, c, u, all, λ d f. enough s.sent (omega arith) d f)
      | inr new ↦ simp new (
        i,
        t,
        c,
        Unique-insert (info.hash, info.offset) tt s.sent u,
        All-insert (λ entry. IsOffered items chunk_size entry.0) (info.hash, info.offset) tt s.sent
            offered all,
        λ d f.
            enough (insert (info.hash, info.offset) tt s.sent)
              (omega (arith, length-insert (info.hash, info.offset) tt s.sent)) d f,
      )
    ]
  where
    enough :
        (sent : Dict ChunkKey (Unit {0}))
        → (s.done_set ≡ true → s.failure ≡ none → total ≤ length sent)
        → (s.done_set || leb s.total (length sent)) ≡ true
        → s.failure ≡ none
        → total ≤ length sent
    enough sent more d f = elim (Bool-cases s.done_set) [
      | inl already ↦ omega (arith, done already f)
      | inr fresh ↦ ground (arith, t)
    ]

fail-IsRunning :
    (items : Dict Text DownloadItem) (total chunk_size : ℕ) (s : SendSession) (e : TransferError)
    → IsRunning items total chunk_size s
    → IsRunning items total chunk_size (fail s e).0
unfolding fail
fail-IsRunning items total chunk_size s e (i, t, c, u, all, done) = elim (Option-cases s.failure) [
  | inl none_yet ↦ simp none_yet (i, t, c, u, all, λ d f. cc)
  | inr (first, had) ↦ simp had (i, t, c, u, all, λ d f. cc)
]

after_send-IsRunning :
    (items : Dict Text DownloadItem) (total chunk_size : ℕ) (s : SendSession)
    (r : Result TransferError BlobChunkInfo)
    → IsRunning items total chunk_size s
    → ((info : BlobChunkInfo)
        → r ≡ ok info
        → IsOffered s.items s.chunk_size (info.hash, info.offset))
    → IsRunning items total chunk_size (after_send s r)
after_send-IsRunning items total chunk_size s (ok info) h offered =
    complete_chunk-IsRunning items total chunk_size s info h
      (rw (sym h.0, sym h.2) (offered info refl))
after_send-IsRunning items total chunk_size s (err e) h offered =
    elim (Bool-cases (is_disconnect e)) [
      | inl lost ↦ simp lost h
      | inr real ↦ simp real (fail-IsRunning items total chunk_size s e h)
    ]

serve-IsRunning :
    (items : Dict Text DownloadItem) (total chunk_size : ℕ) (s : SendSession)
    (cancelled written : Option NetError) (req : TransferRequest)
    → IsRunning items total chunk_size s
    → IsRunning items total chunk_size (serve_request cancelled written s req)
unfolding serve_request
serve-IsRunning items total chunk_size s cancelled written req h =
    after_send-IsRunning items total chunk_size s (send_requested cancelled written s req) h
      (λ info. send_requested-IsOffered cancelled written s req info)

pub Reaches-IsRunning :
    (items : Dict Text DownloadItem) (total chunk_size : ℕ) (s t : SendSession)
    → IsRunning items total chunk_size s
    → Reaches s t
    → IsRunning items total chunk_size t
Reaches-IsRunning items total chunk_size _ _ h (start s) = h
Reaches-IsRunning items total chunk_size _ _ h (serve s t cancelled written req r) =
    serve-IsRunning items total chunk_size t cancelled written req
      (Reaches-IsRunning items total chunk_size s t h r)
Reaches-IsRunning items total chunk_size _ _ h (failing s t e r) =
    fail-IsRunning items total chunk_size t e (Reaches-IsRunning items total chunk_size s t h r)

pub new_session-IsRunning :
    (context_id session token : Text) (items : Dict Text DownloadItem) (total chunk_size : ℕ)
    → IsRunning items total chunk_size
        (new_blob_send_session context_id session token items total chunk_size)
unfolding new_blob_send_session
new_session-IsRunning context_id session token items total chunk_size =
    (refl, refl, refl, tt, tt, λ d f. ground arith)
