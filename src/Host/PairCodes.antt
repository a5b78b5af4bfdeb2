-- ===== src/Host/PairCodes.antt =====
-- internal/host/pairing_store.go: the pairing codes of a host. The mutex and the lock file make
-- each call one step; what the disk answers in it is an input. Times are nanoseconds.
pub mod SingleUse
pub mod Created
use rmtx.Base.{
  ℕ, ◌+◌, ◌-◌, ◌*◌, ◌/◌, ◌%◌, ◌^◌, Bool, true, false, not, ◌&&◌, ◌||◌, Option, none, some, List, [],
  ◌∷◌, ◌++◌, Result, ok, err, ltb, leb, if◌then◌else◌, length, drop, filter,
}
use rmtx.Base.Int.{ℤ, pos_part, is_nonpos}
use rmtx.Base.Text.{Text, text_beq, trim_space}

abbrev pub default_pair_code_ttl : ℕ
default_pair_code_ttl = 5 * (60 * 10 ^ 9)

abbrev pub max_active_pair_codes : ℕ
max_active_pair_codes = 32

pub record PairCodeRecord : Type 0 where
  pub code : Text
  pub expires_at : ℕ
  pub used : Bool

abbrev pub PairCodeStore : Type 0
PairCodeStore = List PairCodeRecord

pub data PairCodeError : Type 0 where
  lock_failed load_failed random_failed save_failed : PairCodeError
  already_used expired invalid : PairCodeError

-- What the disk answers: taking the lock file, reading the codes, and writing them.
pub record Disk : Type 0 where
  pub locks : Bool
  pub loads : Bool
  pub saves : Bool

-- fmt.Sprintf("%06d", n) of a number below `pairCodeSpace`.
abbrev pub digit : ℕ → ℕ
digit n = b'0' + n % 10

unfoldable pub pair_code_text : ℕ → Text
pair_code_text n =
    digit (n / 100000)
    ∷ digit (n / 10000)
    ∷ digit (n / 1000)
    ∷ digit (n / 100)
    ∷ digit (n / 10)
    ∷ digit n
    ∷ []

abbrev pub is_active : ℕ → PairCodeRecord → Bool
is_active now c = not c.used && ltb now c.expires_at

-- The codes that may still be used, and at most the newest 31 of them.
unfoldable pub trim_codes : ℕ → PairCodeStore → PairCodeStore
trim_codes now store =
    let live = filter (is_active now) store in
    if leb max_active_pair_codes (length live)
    then drop (length live - (max_active_pair_codes - 1)) live
    else live

abbrev pub effective_ttl : ℤ → ℕ
effective_ttl ttl = if is_nonpos ttl then default_pair_code_ttl else pos_part ttl

-- `save`: the file keeps its old content when the write fails.
unfoldable pub save_codes {ℓ} :
    {A : Type ℓ} → Disk → PairCodeStore → PairCodeStore → A → Result PairCodeError A × PairCodeStore
save_codes disk old new a = if disk.saves then (ok a, new) else (err save_failed, old)

-- `CreatePairCode` behind the lock and the reading; `random` is crypto/rand's number.
unfoldable pub create_in :
    Disk → ℤ → ℕ → Option ℕ → PairCodeStore → Result PairCodeError PairCodeRecord × PairCodeStore
create_in disk ttl now none store = (err random_failed, store)
create_in disk ttl now (some n) store =
    let fresh : PairCodeRecord = record {
      code = pair_code_text n;
      expires_at = now + effective_ttl ttl;
      used = false;
    } in
    save_codes disk store (trim_codes now store ++ (fresh ∷ [])) fresh

unfoldable pub create_pair_code :
    Disk → ℤ → ℕ → Option ℕ → PairCodeStore → Result PairCodeError PairCodeRecord × PairCodeStore
create_pair_code disk ttl now random store =
    if not disk.locks
    then (err lock_failed, store)
    else if not disk.loads
    then (err load_failed, store)
    else create_in disk ttl now random store

-- `validPairCodeIndex` together with the write of `Used` at the index: the first record with the
-- code decides.
unfoldable pub mark_used : Text → ℕ → PairCodeStore → Result PairCodeError PairCodeStore
mark_used code now [] = err invalid
mark_used code now (c ∷ store) = elim (text_beq c.code code) [
  | false ↦ elim (mark_used code now store) [ err e ↦ err e | ok marked ↦ ok (c ∷ marked) ]
  | true ↦
      if c.used
      then err already_used
      else if not (ltb now c.expires_at)
      then err expired
      else ok (record c { used = true } ∷ store)
]

unfoldable pub consume_in :
    Disk
    → PairCodeStore
    → Result PairCodeError PairCodeStore
    → Result PairCodeError (Unit {0}) × PairCodeStore
consume_in disk store (err e) = (err e, store)
consume_in disk store (ok marked) = save_codes disk store marked tt

unfoldable pub consume_pair_code :
    Disk → Text → ℕ → PairCodeStore → Result PairCodeError (Unit {0}) × PairCodeStore
consume_pair_code disk code now store =
    if not disk.locks
    then (err lock_failed, store)
    else if not disk.loads
    then (err load_failed, store)
    else consume_in disk store (mark_used (trim_space code) now store)
