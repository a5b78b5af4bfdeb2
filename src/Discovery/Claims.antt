-- ===== src/Discovery/Claims.antt =====
-- internal/discovery/discovery.go: which requests for a reverse connection a host answers. Times are
-- nanoseconds, and the lock makes each claim one step.
pub mod Once
use rmtx.Base.{
  ℕ, ◌-◌, ◌^◌, ◌≤◌, Bool, true, false, not, ◌&&◌, Option, none, some, List, [], ◌∷◌, ltb, leb,
  if◌then◌else◌, is_some, length,
}
use rmtx.Base.Dict.{Dict, lookup, insert, retain}
use rmtx.Base.Text.{Text, text_key, is_empty, trim_space, join, codes}

abbrev pub reverse_request_dedupe : ℕ
reverse_request_dedupe = 10 ^ 9

abbrev pub max_reverse_request_keys : ℕ
max_reverse_request_keys = 1024

-- What a claim reads of a packet.
pub record Packet : Type 0 where
  pub host_fingerprint : Text
  pub request_id : Text

abbrev pub ReverseRequests : Type 0
ReverseRequests = Dict Text ℕ

abbrev pub reverse_request_key_id : Text
reverse_request_key_id = codes "id"

unfoldable pub join_reverse_request_key : List Text → Text
join_reverse_request_key parts = join 0 parts

-- The empty key is that of a packet without a request id.
unfoldable pub reverse_request_key : Packet → Text
reverse_request_key pkt =
    if is_empty (trim_space pkt.request_id)
    then []
    else join_reverse_request_key
        (trim_space pkt.host_fingerprint ∷ reverse_request_key_id ∷ trim_space pkt.request_id ∷ [])

abbrev pub is_recent : ℕ → ℕ → Bool
is_recent now last_seen = leb (now - last_seen) reverse_request_dedupe

-- A request that was seen within `reverseRequestDedupe`.
abbrev pub was_seen : ℕ → Option ℕ → Bool
was_seen now none = false
was_seen now (some last_seen) = is_recent now last_seen

unfoldable pub claim_key : Text → ℕ → ReverseRequests → Bool × ReverseRequests
claim_key key now requests =
    let live = retain (is_recent now) requests in
    if was_seen now (lookup key live)
    then (false, live)
    else if leb max_reverse_request_keys (length live)
    then (false, live)
    else (true, insert key now live)

unfoldable pub claim_reverse_request : Packet → ℕ → ReverseRequests → Bool × ReverseRequests
claim_reverse_request pkt now requests =
    if is_empty (reverse_request_key pkt)
    then (false, requests)
    else claim_key (reverse_request_key pkt) now requests
