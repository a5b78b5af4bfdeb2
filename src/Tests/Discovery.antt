-- ===== src/Tests/Discovery.antt =====
-- internal/discovery: one request that comes twice.
use rmtx.Base.{◌≡◌, refl, true, [], ◌∷◌, arith}
use rmtx.Base.Dict.{lookup, insert, retain}
use rmtx.Base.Text.{codes, join, trim_space, text_key}
use rmtx.Discovery.Claims.{
  Packet, claim_key, claim_reverse_request, reverse_request_key, join_reverse_request_key,
}
use rmtx.Discovery.Claims.Once.{claims, claim_reverse_request_once}

abbrev callback : Packet
callback = record { host_fingerprint = codes "aa"; request_id = codes "7" }

claim_run : (claim_reverse_request callback 5 []).0 ≡ true
unfolding claim_reverse_request claim_key reverse_request_key join_reverse_request_key lookup insert
    retain join trim_space
claim_run = refl

claim_reverse_request_once_example :
    claims
      (reverse_request_key callback)
      ((callback, 6) ∷ [])
      (claim_reverse_request callback 5 []).1
    ≡ 0
claim_reverse_request_once_example =
    claim_reverse_request_once callback 5 [] ((callback, 6) ∷ []) claim_run (omega arith, tt)
