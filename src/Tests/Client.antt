-- ===== src/Tests/Client.antt =====
-- internal/clientstate: a host that is kept twice.
use rmtx.Base.{◌≡◌, refl, true, false, [], ◌∷◌}
use rmtx.Base.Text.{Text, codes, text_beq, trim_space}
use rmtx.Client.State.{HostRecord, State, is_blank, find_host_by_fingerprint}
use rmtx.Client.State.Move.{update_host_address, move_host, split_host, remove_aliases}
use rmtx.Client.State.Moved.{IsMoved, update_host_address-moves}

abbrev known : HostRecord
known = record {
  address = codes "10.0.0.7:33221";
  name = codes "box";
  os = codes "linux";
  fingerprint = codes "aa";
  paired = true;
  last_paired_cert = [];
  client_cert_pem = codes "cert";
  client_key_pem = codes "key";
}

abbrev moved : HostRecord
moved = record known { address = codes "10.0.0.8:33221"; fingerprint = codes " aa" }

abbrev knowing : State
knowing = record {
  client_label = [];
  client_cert_pem = [];
  client_key_pem = [];
  hosts = known ∷ [];
}

moved_run : is_blank moved.fingerprint ≡ false
unfolding trim_space
moved_run = refl

known_run : is_blank (codes "aa") ≡ false
unfolding trim_space
known_run = refl

abbrev other_address : Text
other_address = codes "10.0.0.9:33221"

update_run :
    update_host_address (codes "aa ") other_address knowing
    ≡ (true, record knowing { hosts = record known { address = other_address } ∷ [] })
unfolding update_host_address move_host trim_space split_host remove_aliases
update_run = refl

abbrev unpaired : HostRecord
unpaired = record known { address = other_address; fingerprint = [] }

abbrev blocking : HostRecord
blocking = record known { address = other_address; fingerprint = codes "bb" }

-- The move is refused for the paired alias, and the alias before it is gone.
refused_run :
    update_host_address
      (codes "aa")
      other_address
      (record knowing { hosts = unpaired ∷ blocking ∷ known ∷ [] })
    ≡ (false, record knowing { hosts = blocking ∷ known ∷ [] })
unfolding update_host_address move_host trim_space split_host remove_aliases
refused_run = refl

apart_run : text_beq (trim_space (codes "aa")) (trim_space (codes "bb")) ≡ false
unfolding trim_space
apart_run = refl

update_host_address-moves_example :
    (find_host_by_fingerprint
        (codes "bb")
        (update_host_address (codes "aa") other_address knowing).1
      ≡ find_host_by_fingerprint (codes "bb") knowing)
    × IsMoved
        (trim_space (codes "aa"))
        (trim_space other_address)
        (update_host_address (codes "aa") other_address knowing).0
        (update_host_address (codes "aa") other_address knowing).1.hosts
update_host_address-moves_example =
    update_host_address-moves (codes "aa") other_address (codes "bb") knowing apart_run
