-- ===== src/Tests/Guards.antt =====
-- internal/host: leases, restarts, pairing codes, trust and pairing limits.
use rmtx.Base.{
  ◌-◌, ◌≡◌, ◌<◌, min, inr, refl, true, false, Option, none, some, List, [], ◌∷◌, ◌++◌, arith, ok,
  err,
}
use rmtx.Base.Int.{pos}
use rmtx.Base.Dict.{lookup, insert}
use rmtx.Base.Text.{Text, codes, text_key, trim_space}
use rmtx.Host.Leases.{LeaseLocks, no_leases, active_count, acquire_key}
use rmtx.Host.Leases.Exclusion.{start, acquired, count, leases_exclusive}
use rmtx.Host.Restart.{
  Runs, no_request, acquire_run, begin_restart, runs_are_done, restart_request, restart_pending,
}
use rmtx.Host.Restart.Drain.{here, began_later, restart_drained}
use rmtx.Host.PairCodes.{
  PairCodeRecord, PairCodeStore, already_used, Disk, pair_code_text, trim_codes, create_pair_code,
  create_in, save_codes, mark_used, consume_in, consume_pair_code,
}
use rmtx.Host.PairCodes.SingleUse.{consume_pair_code_once}
use rmtx.Host.PairCodes.Created.{consume-create}
use rmtx.Host.TrustStore
use rmtx.Host.TrustStore.{TrustedClient, TrustError, with_client, is_trusted, client_trusted}
use rmtx.Host.PairLimit.{PairLimits, PairLimitWindow}
use rmtx.Host.PairLimit.Burst.{Request, allowed, asked, allowed_burst}

abbrev lease : Text
lease = codes "ctx-lease"

abbrev leased : LeaseLocks
leased = record { active = (lease, 1) ∷ []; deleting = [] }

acquire_run_one : acquire_key lease no_leases ≡ ok leased
unfolding acquire_key lookup insert
acquire_run_one = refl

leases_exclusive_example :
    (min (count lease []) (count lease (lease ∷ [])) ≡ 0)
    × (count lease [] < 2)
    × (active_count lease leased ≡ count lease (lease ∷ []))
leases_exclusive_example =
    leases_exclusive leased (lease ∷ []) [] lease (acquired lease start acquire_run_one)

abbrev one_run : Runs
one_run = record { active_runs = 1; restarting = false; request = no_request }

acquire_run_run :
    acquire_run (record { active_runs = 0; restarting = false; request = no_request }) ≡ ok one_run
unfolding acquire_run
acquire_run_run = refl

abbrev idle : Runs
idle = record { active_runs = 0; restarting = true; request = no_request }

idle_run : runs_are_done idle ≡ true
unfolding runs_are_done
idle_run = refl

abbrev asked_again : Runs
asked_again = (begin_restart [] [] [] idle).1

restart_drained_example :
    (runs_are_done asked_again ≡ true)
    × (acquire_run asked_again ≡ err restart_pending)
    × (restart_request asked_again ≡ restart_request idle)
restart_drained_example = restart_drained idle asked_again refl idle_run (began_later [] [] [] here)

abbrev works : Disk
works = record { locks = true; loads = true; saves = true }

abbrev fresh_code : PairCodeRecord
fresh_code = record { code = codes "000042"; expires_at = 70; used = false }

abbrev stored : PairCodeStore
stored = record { code = codes "999999"; expires_at = 90; used = false } ∷ []

create_run :
    create_pair_code works (pos 50) 20 (some 42) stored
    ≡ (ok fresh_code, stored ++ (fresh_code ∷ []))
unfolding create_pair_code create_in save_codes trim_codes pair_code_text
create_run = refl

consume-create_example :
    (consume_pair_code works (codes "000042") 60 (stored ++ (fresh_code ∷ []))).0 ≡ ok tt
consume-create_example =
    consume-create works works (pos 50) 20 60 (some 42) stored (stored ++ (fresh_code ∷ []))
      fresh_code create_run refl refl (omega arith)

abbrev spent : PairCodeStore
spent = record { code = codes "000042"; expires_at = 70; used = true } ∷ []

consume_run : consume_pair_code works (codes "000042 ") 60 (fresh_code ∷ []) ≡ (ok tt, spent)
unfolding consume_pair_code consume_in save_codes mark_used trim_space
consume_run = refl

same_code_run : trim_space (codes "000042") ≡ trim_space (codes "000042 ")
unfolding trim_space
same_code_run = refl

consume_pair_code_once_example :
    consume_pair_code works (codes "000042") 65 spent ≡ (err already_used, spent)
consume_pair_code_once_example =
    consume_pair_code_once works works (codes "000042 ") (codes "000042") 60 65 (fresh_code ∷ [])
      spent consume_run same_code_run refl refl

abbrev trusting : TrustStore.Disk
trusting = record { loads = true; saves = true }

abbrev old_client : List TrustedClient
old_client = record { fingerprint = codes "aa"; label = codes "laptop" } ∷ []

abbrev key : Text
key = codes "pair-10.0.0.7"

abbrev window : PairLimitWindow
window = record { started = 5; count = 9 }

abbrev limits : PairLimits
limits = (key, window) ∷ []

abbrev requests : List Request
requests =
    record { key = key; limit = 10; now = 6 }
    ∷ record { key = codes "pair-10.0.0.8"; limit = 10; now = 6 }
    ∷ record { key = key; limit = 10; now = 7 }
    ∷ []

window_run : lookup key limits ≡ some window
unfolding lookup
window_run = refl

allowed_burst_example : allowed key requests limits ≡ min (asked key requests) (10 - 9)
allowed_burst_example = allowed_burst key 10 window requests limits window_run (omega arith) (
  ((omega arith, omega arith), inr refl),
  (((omega arith, omega arith), inr refl), (((omega arith, omega arith), inr refl), tt)),
)

-- net.SplitHostPort of an address without a port.
abbrev no_port : Text → Option Text
no_port remote = none
