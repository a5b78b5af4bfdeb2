-- ===== src/Host/Restart/Drain.antt =====
-- A restart that has seen the runs end is alone.
use rmtx.Base.{ℕ, suc, ◌≡◌, refl, true, false, ok, err, arith}
use rmtx.Base.Text.{Text}
use rmtx.Host.Restart.{
  Runs, RestartState, restart_pending, acquire_run, release_run, begin_restart, cancel_restart,
  runs_are_done, restart_request,
}

-- What calls in any order make of a server that starts with no runs, with the number of runs
-- that have not been released. The function that `acquireRun` returned is called once.
pub data Reaches : Runs → ℕ → Type 0 where
  start :
      (r : RestartState) → Reaches (record { active_runs = 0; restarting = false; request = r }) 0
  acquired : {s s' : Runs} {n : ℕ} → Reaches s n → acquire_run s ≡ ok s' → Reaches s' (suc n)
  released : {s : Runs} {n : ℕ} → Reaches s (suc n) → Reaches (release_run s) n
  began :
      {s : Runs} {n : ℕ} (executable version install_target : Text)
      → Reaches s n
      → Reaches (begin_restart executable version install_target s).1 n
  cancelled : {s : Runs} {n : ℕ} → Reaches s n → Reaches (cancel_restart s) n

-- The same calls from a state on, but for a cancelled restart.
pub data Continues (s : Runs) : Runs → Type 0 where
  here : Continues s s
  acquired_later : {t t' : Runs} → Continues s t → acquire_run t ≡ ok t' → Continues s t'
  released_later : {t : Runs} → Continues s t → Continues s (release_run t)
  began_later :
      {t : Runs} (executable version install_target : Text)
      → Continues s t
      → Continues s (begin_restart executable version install_target t).1

-- The counter is the number of runs that have not been released.
pub active_runs_count : (s : Runs) (n : ℕ) → Reaches s n → s.active_runs ≡ n
unfolding acquire_run release_run begin_restart cancel_restart
active_runs_count s n (start r) = refl
active_runs_count s n (acquired r h) = ground (arith, active_runs_count _ _ r)
active_runs_count s n (released r) = ground (arith, active_runs_count _ _ r)
active_runs_count s n (began e v t r) = ground (arith, active_runs_count _ _ r)
active_runs_count s n (cancelled r) = active_runs_count _ _ r

-- Once a restart has begun and was seen to have no runs left, every later run is refused and the
-- request stays what it was, until the restart is cancelled.
pub restart_drained :
    (s t : Runs)
    → s.restarting ≡ true
    → runs_are_done s ≡ true
    → Continues s t
    → (runs_are_done t ≡ true)
      × (acquire_run t ≡ err restart_pending)
      × (restart_request t ≡ restart_request s)
unfolding acquire_run release_run begin_restart runs_are_done restart_request
restart_drained s t pending idle here = (idle, ground arith, refl)
restart_drained s t pending idle (acquired_later c h) =
    absurd (ground (arith, restart_drained s _ pending idle c))
restart_drained s t pending idle (released_later c) =
    ground (arith, restart_drained s _ pending idle c)
restart_drained s t pending idle (began_later e v i c) =
    ground (arith, restart_drained s _ pending idle c)
