-- ===== src/Host/TrustStore.antt =====
-- internal/host/trust_store.go: the clients that a host trusts, by fingerprint.
pub mod Trusts
use rmtx.Base.{
  Bool, true, false, not, ◌||◌, List, [], ◌∷◌, ◌++◌, Result, ok, err, if◌then◌else◌, filter, any,
}
use rmtx.Base.Text.{Text, text_beq, trim_space, is_empty}

pub record TrustedClient : Type 0 where
  pub fingerprint : Text
  pub label : Text

abbrev pub TrustStore : Type 0
TrustStore = List TrustedClient

pub data TrustError : Type 0 where
  load_failed save_failed : TrustError

-- What the disk answers: reading the store, where a missing file is an empty one, and writing it.
pub record Disk : Type 0 where
  pub loads : Bool
  pub saves : Bool

-- The entries that a new trust replaces.
abbrev pub is_replaced : Text → Text → TrustedClient → Bool
is_replaced fingerprint previous client =
    is_empty client.fingerprint
    || text_beq client.fingerprint fingerprint
    || text_beq client.fingerprint previous

unfoldable pub with_client : Text → Text → Text → TrustStore → TrustStore
with_client fingerprint previous label store =
    filter (λ client. not (is_replaced (trim_space fingerprint) (trim_space previous) client)) store
    ++ (record { fingerprint = trim_space fingerprint; label = trim_space label } ∷ [])

unfoldable pub trust_client :
    Disk → Text → Text → Text → TrustStore → Result TrustError (Unit {0}) × TrustStore
trust_client disk fingerprint previous label store =
    if not disk.loads
    then (err load_failed, store)
    else if not disk.saves
    then (err save_failed, store)
    else (ok tt, with_client fingerprint previous label store)

unfoldable pub is_trusted : Text → TrustStore → Bool
is_trusted fingerprint store = any (λ client. text_beq client.fingerprint fingerprint) store

unfoldable pub client_trusted : Disk → Text → TrustStore → Result TrustError Bool
client_trusted disk fingerprint store =
    if not disk.loads then err load_failed else ok (is_trusted fingerprint store)
