-- ===== src/Host/Restart.antt =====
-- internal/host/server.go: runs, and the restart that waits for them. `restartMu` makes each
-- operation one step.
pub mod Drain
use rmtx.Base.{ℕ, ◌+◌, ◌-◌, Bool, true, false, Result, ok, err, [], ltb, ◌==◌, if◌then◌else◌}
use rmtx.Base.Text.{Text}

pub record RestartState : Type 0 where
  pub executable : Text
  pub version : Text
  pub install_target : Text

pub record Runs : Type 0 where
  pub active_runs : ℕ
  pub restarting : Bool
  pub request : RestartState

pub data RestartError : Type 0 where
  restart_pending : RestartError

abbrev pub no_request : RestartState
no_request = record { executable = []; version = []; install_target = [] }

unfoldable pub acquire_run : Runs → Result RestartError Runs
acquire_run s =
    if s.restarting then err restart_pending else ok (record s { active_runs = s.active_runs + 1 })

-- The function that `acquireRun` returns.
unfoldable pub release_run : Runs → Runs
release_run s = record s {
  active_runs = (if ltb 0 s.active_runs then s.active_runs - 1 else s.active_runs);
}

unfoldable pub begin_restart : Text → Text → Text → Runs → Bool × Runs
begin_restart executable version install_target s = if s.restarting then (false, s) else (
  true,
  record s {
    restarting = true;
    request = record {
      executable = executable;
      version = version;
      install_target = install_target;
    };
  },
)

unfoldable pub cancel_restart : Runs → Runs
cancel_restart s = record s { restarting = false; request = no_request }

-- One look of `waitForActiveRuns`.
unfoldable pub runs_are_done : Runs → Bool
runs_are_done s = s.active_runs == 0

unfoldable pub restart_request : Runs → RestartState × Bool
restart_request s = (s.request, s.restarting)

unfoldable pub restart_was_requested : Runs → Bool
restart_was_requested s = s.restarting
