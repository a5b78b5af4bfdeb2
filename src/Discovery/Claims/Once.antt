-- ===== src/Discovery/Claims/Once.antt =====
-- A request is claimed once.
use rmtx.Base.{
  ℕ, ◌+◌, ◌≤◌, ◌≡◌, refl, sym, Bool, true, false, some, List, [], ◌∷◌, if◌then◌else◌, length, All,
  Bool-cases, inl, inr, arith,
}
use mathlib.Core.Path.{subst}
use rmtx.Base.Dict.{lookup, retain, lookup-insert, length-insert, length-retain}
use rmtx.Base.Text.{Text, text_beq, text_beq_iff, text_key, is_empty}
use rmtx.Discovery.Claims.{
  Packet, ReverseRequests, reverse_request_dedupe, max_reverse_request_keys, reverse_request_key,
  is_recent, claim_key, claim_reverse_request,
}

lookup-retain :
    (key : Text) (p : ℕ → Bool) (m : ReverseRequests) (t : ℕ)
    → lookup key m ≡ some t
    → p t ≡ true
    → lookup key (retain p m) ≡ some t
unfolding lookup retain
lookup-retain key p [] t h k = cc
lookup-retain key p ((j, v) ∷ m) t h k = ground (arith, lookup-retain key p m t)

-- A claim that succeeded is kept with its time.
claim_key-lookup :
    (key : Text) (now : ℕ) (requests : ReverseRequests)
    → (claim_key key now requests).0 ≡ true
    → lookup key (claim_key key now requests).1 ≡ some now
unfolding claim_key
claim_key-lookup key now requests h =
    ground
      (arith, h, lookup-insert key key now (retain (is_recent now) requests), text_beq_iff key key)

-- While it is recent, it is refused again and stays.
claim_key_again :
    (key : Text) (now t : ℕ) (requests : ReverseRequests)
    → lookup key requests ≡ some t
    → is_recent now t ≡ true
    → ((claim_key key now requests).0 ≡ false)
      × (lookup key (claim_key key now requests).1 ≡ some t)
unfolding claim_key
claim_key_again key now t requests h recent =
    let live = lookup-retain key (is_recent now) requests t h recent in ground (arith, live, recent)

claim_key_other :
    (key other : Text) (now t : ℕ) (requests : ReverseRequests)
    → text_beq other key ≡ false
    → lookup key requests ≡ some t
    → is_recent now t ≡ true
    → lookup key (claim_key other now requests).1 ≡ some t
unfolding claim_key
claim_key_other key other now t requests apart h recent =
    let live = lookup-retain key (is_recent now) requests t h recent in
    ground (arith, live, lookup-insert other key now (retain (is_recent now) requests))

-- How many of a host's packets, each with its time, are claimed for a key.
unfoldable pub claims : Text → List (Packet × ℕ) → ReverseRequests → ℕ
claims key [] requests = 0
claims key ((pkt, now) ∷ pkts) requests =
    let (claimed, requests') = claim_reverse_request pkt now requests in
    (if text_beq (reverse_request_key pkt) key then (if claimed then 1 else 0) else 0)
    + claims key pkts requests'

abbrev pub AreWithin : ℕ → List (Packet × ℕ) → Type 0
AreWithin t = All (λ q. q.1 ≤ t + reverse_request_dedupe)

no_more_claims :
    (key : Text) (t : ℕ) (pkts : List (Packet × ℕ)) (requests : ReverseRequests)
    → lookup key requests ≡ some t
    → AreWithin t pkts
    → claims key pkts requests ≡ 0
unfolding claims claim_reverse_request
no_more_claims key t [] requests h within = refl
no_more_claims key t ((pkt, now) ∷ pkts) requests h (soon, within) =
    elim (Bool-cases (is_empty (reverse_request_key pkt))) [
      | inl unnamed ↦ ground (arith, unnamed, no_more_claims key t pkts requests h within)
      | inr named ↦ elim (Bool-cases (text_beq (reverse_request_key pkt) key)) [
        | inl own ↦
            let k = reverse_request_key pkt in
            let same : k ≡ key = (text_beq_iff k key).0 own in
            let (refused, kept) =
              claim_key_again k now t requests
                (subst (λ x. lookup x requests ≡ some t) (sym same) h) (ground arith) in
            let kept' = subst (λ x. lookup x (claim_key k now requests).1 ≡ some t) same kept in
            let later = no_more_claims key t pkts (claim_key k now requests).1 kept' within in
            ground (arith, named, own, refused, later)
        | inr other ↦
            let k = reverse_request_key pkt in
            let kept = claim_key_other key k now t requests other h (ground arith) in
            let later = no_more_claims key t pkts (claim_key k now requests).1 kept within in
            ground (arith, named, other, later)
      ]
    ]

-- After a request was claimed, no packet with the same key is claimed again within the second after
-- it, whatever other packets come in between.
pub claim_reverse_request_once :
    (pkt : Packet) (now : ℕ) (requests : ReverseRequests) (pkts : List (Packet × ℕ))
    → (claim_reverse_request pkt now requests).0 ≡ true
    → AreWithin now pkts
    → claims (reverse_request_key pkt) pkts (claim_reverse_request pkt now requests).1 ≡ 0
claim_reverse_request_once pkt now requests pkts h within =
    no_more_claims (reverse_request_key pkt) now pkts (claim_reverse_request pkt now requests).1
      seen within
  where
    seen : lookup (reverse_request_key pkt) (claim_reverse_request pkt now requests).1 ≡ some now
    seen =
        unfold claim_reverse_request in
        ground (arith, h, claim_key-lookup (reverse_request_key pkt) now requests)

-- Whatever packets come, at most `maxReverseRequestKeys` requests are remembered.
pub claim_reverse_request_bounded :
    (pkt : Packet) (now : ℕ) (requests : ReverseRequests)
    → length requests ≤ max_reverse_request_keys
    → length (claim_reverse_request pkt now requests).1 ≤ max_reverse_request_keys
unfolding claim_reverse_request claim_key
claim_reverse_request_bounded pkt now requests h = ground (
  arith,
  length-retain (is_recent now) requests,
  length-insert (reverse_request_key pkt) now (retain (is_recent now) requests),
)
