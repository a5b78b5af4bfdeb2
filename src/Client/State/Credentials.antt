-- ===== src/Client/State/Credentials.antt =====
-- The credentials that a client shows a host.
use rmtx.Base.{
  ◌≡◌, ◌⊎◌, refl, false, not, ◌&&◌, Option, none, some, [], arith, inl, inr, Bool-cases,
}
use rmtx.Base.Text.{Text}
use rmtx.Client.State.{
  HostRecord, State, is_blank, record_credentials, default_credentials, or_default, credentials_of,
  host_credentials,
}

-- A certificate and a key that are both there, or neither.
abbrev pub IsComplete : Text × Text → Type 0
IsComplete c = ((is_blank c.0 ≡ false) × (is_blank c.1 ≡ false)) ⊎ ((c.0 ≡ []) × (c.1 ≡ []))

default_credentials-IsComplete : (s : State) → IsComplete (default_credentials s)
unfolding default_credentials
default_credentials-IsComplete s =
    elim (Bool-cases (not (is_blank s.client_cert_pem) && not (is_blank s.client_key_pem))) [
      | inl own ↦ simp own (inl (ground (arith, own), ground (arith, own)))
      | inr other ↦ simp other (inr (refl, refl))
    ]

record_credentials-IsComplete :
    (h : HostRecord) (c : Text × Text) → record_credentials h ≡ some c → IsComplete c
unfolding record_credentials
record_credentials-IsComplete h c e = inl (ground (arith, e), ground (arith, e))

or_default-IsComplete :
    (o : Option (Text × Text)) (s : State)
    → ((c : Text × Text) → o ≡ some c → IsComplete c)
    → IsComplete (or_default o s)
or_default-IsComplete none s h = default_credentials-IsComplete s
or_default-IsComplete (some c) s h = h c refl

credentials_of-IsComplete : (o : Option HostRecord) (s : State) → IsComplete (credentials_of o s)
credentials_of-IsComplete none s = default_credentials-IsComplete s
credentials_of-IsComplete (some h) s =
    or_default-IsComplete (record_credentials h) s (record_credentials-IsComplete h)

-- Whatever the address and the fingerprint, `HostCredentials` answers a certificate and a key that
-- are both not blank, or that are both empty.
pub host_credentials-IsComplete :
    (address fingerprint : Text) (s : State) → IsComplete (host_credentials address fingerprint s)
unfolding host_credentials
host_credentials-IsComplete address fingerprint s = credentials_of-IsComplete _ s
