-- ===== src/Host/PairLimit.antt =====
-- internal/host/pair_limit.go: how many pairing requests a remote may make in a minute.
-- Times are nanoseconds, 0 is Go's zero time, and a time before another is 0 after it.
pub mod Burst
use rmtx.Base.{
  ℕ, ◌+◌, ◌-◌, ◌*◌, ◌^◌, ◌≤◌, ◌≡◌, Bool, true, false, not, ◌&&◌, ◌||◌, Option, none, some, List, [],
  ◌∷◌, ◌++◌, ltb, leb, ◌==◌, if◌then◌else◌, is_some, length, Bool-cases, inl, inr, arith,
}
use rmtx.Base.Dict.{Dict, lookup, insert, retain, length-insert, length-retain}
use rmtx.Base.Text.{Text, text_key}

abbrev pub pair_limit_window_duration : ℕ
pair_limit_window_duration = 60 * 10 ^ 9

abbrev pub max_pair_limit_windows : ℕ
max_pair_limit_windows = 1024

pub record PairLimitWindow : Type 0 where
  pub started : ℕ
  pub count : ℕ

abbrev pub PairLimits : Type 0
PairLimits = Dict Text PairLimitWindow

-- now.Sub(window.started) >= pairLimitWindowDuration
abbrev pub is_expired : ℕ → PairLimitWindow → Bool
is_expired now window = leb pair_limit_window_duration (now - window.started)

-- The key of a remote. `split_host` is net.SplitHostPort without the port.
abbrev pub limit_key : (Text → Option Text) → Text → Text → Text
limit_key split_host kind remote =
    kind ++ (0 ∷ (elim (split_host remote) [ none ↦ remote | some host ↦ host ]))

-- s.pairLimits[key], whose zero value is a window that never started.
abbrev pub window_of : Option PairLimitWindow → PairLimitWindow
window_of none = record { started = 0; count = 0 }
window_of (some window) = window

abbrev pub renewed : ℕ → PairLimitWindow → PairLimitWindow
renewed now window =
    if window.started == 0 || is_expired now window
    then record { started = now; count = 0 }
    else window

-- `allowPairRequest` once its key is known.
unfoldable pub allow_key : Text → ℕ → ℕ → PairLimits → Bool × PairLimits
allow_key key limit now limits =
    let live = retain (λ w. not (is_expired now w)) limits in
    let found = lookup key live in
    let window = renewed now (window_of found) in
    if not (is_some found) && leb max_pair_limit_windows (length live)
    then (false, live)
    else if leb limit window.count
    then (false, live)
    else (true, insert key (record window { count = window.count + 1 }) live)

-- A connection with no remote address is let through.
unfoldable pub allow_pair_request :
    (Text → Option Text) → Option Text → Text → ℕ → ℕ → PairLimits → Bool × PairLimits
allow_pair_request split_host none kind limit now limits = (true, limits)
allow_pair_request split_host (some remote) kind limit now limits =
    allow_key (limit_key split_host kind remote) limit now limits

-- Whatever remotes ask, there are never more than `maxPairLimitWindows` windows.
pub allow_pair_request_bounded :
    (split_host : Text → Option Text) (remote : Option Text) (kind : Text) (limit now : ℕ)
    (limits : PairLimits)
    → length limits ≤ max_pair_limit_windows
    → length (allow_pair_request split_host remote kind limit now limits).1 ≤ max_pair_limit_windows
unfolding allow_pair_request allow_key
allow_pair_request_bounded split_host none kind limit now limits h = h
allow_pair_request_bounded split_host (some remote) kind limit now limits h =
    let key = limit_key split_host kind remote in
    let live = retain (λ w. not (is_expired now w)) limits in
    let window = renewed now (window_of (lookup key live)) in
    ground (
      arith,
      length-retain (λ w. not (is_expired now w)) limits,
      length-insert key (record window { count = window.count + 1 }) live,
    )
