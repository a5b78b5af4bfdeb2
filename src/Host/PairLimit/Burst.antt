-- ===== src/Host/PairLimit/Burst.antt =====
-- The requests of one window.
use rmtx.Base.{
  ℕ, ◌+◌, ◌-◌, ◌≤◌, ◌<◌, ◌≡◌, ◌⊎◌, min, sym, Bool, true, false, not, some, List, [], ◌∷◌, ltb,
  if◌then◌else◌, Bool-cases, inl, inr, arith, All,
}
use mathlib.Core.Path.{subst}
use rmtx.Base.Dict.{lookup, retain, lookup-insert}
use rmtx.Base.Text.{Text, text_beq, text_beq_iff, text_key}
use rmtx.Host.PairLimit.{
  PairLimits, PairLimitWindow, is_expired, pair_limit_window_duration, allow_key, renewed,
  window_of,
}

lookup-retain :
    (key : Text) (p : PairLimitWindow → Bool) (m : PairLimits) (w : PairLimitWindow)
    → lookup key m ≡ some w
    → p w ≡ true
    → lookup key (retain p m) ≡ some w
unfolding lookup retain
lookup-retain key p [] w h k = cc
lookup-retain key p ((j, v) ∷ m) w h k = ground (arith, lookup-retain key p m w)

-- A running window: it has started, and what asks now is not a minute later.
abbrev pub IsRunning : PairLimitWindow → ℕ → Type 0
IsRunning w now = (0 < w.started) × (now < w.started + pair_limit_window_duration)

abbrev pub one : Bool → ℕ
one true = 1
one false = 0

allow_key_running :
    (key : Text) (limit now : ℕ) (limits : PairLimits) (w : PairLimitWindow)
    → lookup key limits ≡ some w
    → IsRunning w now
    → ((allow_key key limit now limits).0 ≡ ltb w.count limit)
      × (lookup key (allow_key key limit now limits).1
          ≡ some (record w { count = w.count + one (ltb w.count limit) }))
unfolding allow_key
allow_key_running key limit now limits w h (started, fresh) =
    let others = retain (λ v. not (is_expired now v)) limits in
    let live : lookup key others ≡ some w =
      lookup-retain key (λ v. not (is_expired now v)) limits w h (ground arith) in
    let same : renewed now w ≡ w = ground arith in
    rw (live, same)
      (ground (
        arith,
        live,
        lookup-insert key key (record w { count = w.count + 1 }) others,
        text_beq_iff key key,
      ))

allow_key_other :
    (key other : Text) (limit now : ℕ) (limits : PairLimits) (w : PairLimitWindow)
    → text_beq other key ≡ false
    → lookup key limits ≡ some w
    → IsRunning w now
    → lookup key (allow_key other limit now limits).1 ≡ some w
unfolding allow_key
allow_key_other key other limit now limits w ne h (started, fresh) =
    let live = lookup-retain key (λ v. not (is_expired now v)) limits w h (ground arith) in
    let others = retain (λ v. not (is_expired now v)) limits in
    let window = renewed now (window_of (lookup other others)) in
    ground (arith, lookup-insert other key (record window { count = window.count + 1 }) others)

-- Requests in the order in which the lock lets them in, each with its key, limit and time.
pub record Request : Type 0 where
  pub key : Text
  pub limit : ℕ
  pub now : ℕ

-- How many requests with the key come, and how many of them are let through.
abbrev pub asked : Text → List Request → ℕ
asked key [] = 0
asked key (q ∷ qs) = one (text_beq q.key key) + asked key qs

unfoldable pub allowed : Text → List Request → PairLimits → ℕ
allowed key [] limits = 0
allowed key (q ∷ qs) limits =
    let (let_in, limits') = allow_key q.key q.limit q.now limits in
    (if text_beq q.key key then one let_in else 0) + allowed key qs limits'

-- Requests of a running window, all of its own with one limit.
abbrev pub AreOf : Text → ℕ → PairLimitWindow → List Request → Type 0
AreOf key limit w =
    All (λ q. IsRunning w q.now × ((text_beq q.key key ≡ false) ⊎ (q.limit ≡ limit)))

-- While a window runs, whatever other remotes ask in between, exactly as many of its requests are
-- let through as its limit leaves.
pub allowed_burst :
    (key : Text) (limit : ℕ) (w : PairLimitWindow) (qs : List Request) (limits : PairLimits)
    → lookup key limits ≡ some w
    → w.count ≤ limit
    → AreOf key limit w qs
    → allowed key qs limits ≡ min (asked key qs) (limit - w.count)
unfolding allowed
allowed_burst key limit w [] limits h small of = omega arith
allowed_burst key limit w (q ∷ qs) limits h small ((running, theirs), rest) =
    elim (Bool-cases (text_beq q.key key)) [
      | inl own ↦
          let same : q.key ≡ key = (text_beq_iff q.key key).0 own in
          let (answer, next) =
            allow_key_running q.key q.limit q.now limits w
              (subst (λ k. lookup k limits ≡ some w) (sym same) h) running in
          let next' =
            subst
              (λ k.
                lookup k (allow_key q.key q.limit q.now limits).1
                ≡ some (record w { count = w.count + one (ltb w.count q.limit) }))
              same next in
          let limits_agree : q.limit ≡ limit = ground (arith, theirs, own) in
          let later =
            allowed_burst key limit (record w { count = w.count + one (ltb w.count q.limit) }) qs
              (allow_key q.key q.limit q.now limits).1 next' (ground arith) rest in
          ground (arith, answer, later)
      | inr other ↦
          let kept = allow_key_other key q.key q.limit q.now limits w other h running in
          rw other (
            ground (
              arith,
              allowed_burst key limit w qs (allow_key q.key q.limit q.now limits).1 kept small rest,
            ))
    ]
