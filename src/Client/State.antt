-- ===== src/Client/State.antt =====
-- internal/clientstate/state.go: the hosts that a client knows, in order. A nil receiver, for which
-- the methods do nothing, is left out.
pub mod Move
pub mod Moved
pub mod Upsert
pub mod Credentials
use rmtx.Base.{
  Bool, true, false, not, ◌&&◌, ◌||◌, Option, none, some, List, [], ◌∷◌, ◌++◌, if◌then◌else◌,
}
use rmtx.Base.Text.{Text, text_beq, trim_space, is_empty}

pub record HostRecord : Type 0 where
  pub address : Text
  pub name : Text
  pub os : Text
  pub fingerprint : Text
  pub paired : Bool
  pub last_paired_cert : Text
  pub client_cert_pem : Text
  pub client_key_pem : Text

pub record State : Type 0 where
  pub client_label : Text
  pub client_cert_pem : Text
  pub client_key_pem : Text
  pub hosts : List HostRecord

abbrev pub is_blank : Text → Bool
is_blank s = is_empty (trim_space s)

-- The first record that passes a test.
unfoldable pub find_first : (HostRecord → Bool) → List HostRecord → Option HostRecord
find_first p [] = none
find_first p (h ∷ hosts) = let rest = find_first p hosts in if p h then some h else rest

abbrev pub has_address : Text → HostRecord → Bool
has_address address h = text_beq h.address address

abbrev pub has_fingerprint : Text → HostRecord → Bool
has_fingerprint fingerprint h = text_beq h.fingerprint fingerprint

unfoldable pub find_host_by_address : Text → State → Option HostRecord
find_host_by_address address s = find_first (has_address (trim_space address)) s.hosts

unfoldable pub find_host_by_fingerprint : Text → State → Option HostRecord
find_host_by_fingerprint fingerprint s =
    if is_blank fingerprint
    then none
    else find_first (has_fingerprint (trim_space fingerprint)) s.hosts

-- The loops of `UpsertHost`: the first record that passes the test is replaced.
unfoldable pub replace_first :
    (HostRecord → Bool) → HostRecord → List HostRecord → Option (List HostRecord)
replace_first p r [] = none
replace_first p r (h ∷ hosts) = elim (p h) [
  | true ↦ some (r ∷ hosts)
  | false ↦ elim (replace_first p r hosts) [ none ↦ none | some replaced ↦ some (h ∷ replaced) ]
]

abbrev pub trimmed_record : HostRecord → HostRecord
trimmed_record r = record r {
  address = trim_space r.address;
  fingerprint = trim_space r.fingerprint;
}

-- The record of an address that a new one may take over.
abbrev pub is_replaceable : HostRecord → HostRecord → Bool
is_replaceable r h =
    text_beq h.address r.address && (is_blank h.fingerprint || is_empty r.fingerprint)

unfoldable pub upsert_by_address : HostRecord → List HostRecord → List HostRecord
upsert_by_address r hosts = elim (replace_first (is_replaceable r) r hosts) [
  | some replaced ↦ replaced
  | none ↦ hosts ++ (r ∷ [])
]

unfoldable pub upsert_trimmed : HostRecord → List HostRecord → List HostRecord
upsert_trimmed r hosts =
    if is_empty r.fingerprint
    then upsert_by_address r hosts
    else elim (replace_first (has_fingerprint r.fingerprint) r hosts) [
      | some replaced ↦ replaced
      | none ↦ upsert_by_address r hosts
    ]

unfoldable pub upsert_host : HostRecord → State → State
upsert_host r s = record s { hosts = upsert_trimmed (trimmed_record r) s.hosts }

unfoldable pub record_credentials : HostRecord → Option (Text × Text)
record_credentials h =
    if is_blank h.client_cert_pem || is_blank h.client_key_pem
    then none
    else some (h.client_cert_pem, h.client_key_pem)

unfoldable pub default_credentials : State → Text × Text
default_credentials s =
    if not (is_blank s.client_cert_pem) && not (is_blank s.client_key_pem)
    then (s.client_cert_pem, s.client_key_pem)
    else ([], [])

-- The credentials of a record, or else the client's own.
abbrev pub or_default : Option (Text × Text) → State → Text × Text
or_default none s = default_credentials s
or_default (some found) s = found

abbrev pub credentials_of : Option HostRecord → State → Text × Text
credentials_of none s = default_credentials s
credentials_of (some h) s = or_default (record_credentials h) s

-- A record that the fingerprint finds decides, and otherwise the one that the address finds.
abbrev pub first_found : Option HostRecord → Option HostRecord → Option HostRecord
first_found none second = second
first_found (some h) second = some h

unfoldable pub host_credentials : Text → Text → State → Text × Text
host_credentials address fingerprint s =
    credentials_of
      (first_found (find_host_by_fingerprint fingerprint s) (find_host_by_address address s)) s
