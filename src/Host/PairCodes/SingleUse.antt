-- ===== src/Host/PairCodes/SingleUse.antt =====
-- A pairing code is spent by its first use.
use rmtx.Base.{ℕ, ◌≡◌, true, [], ◌∷◌, ok, err, arith, Result-cases, inl, inr}
use rmtx.Base.Text.{Text, trim_space}
use rmtx.Host.PairCodes.{
  PairCodeStore, already_used, Disk, save_codes, mark_used, consume_in, consume_pair_code,
}

mark_used_again :
    (code : Text) (now later : ℕ) (store marked : PairCodeStore)
    → mark_used code now store ≡ ok marked
    → mark_used code later marked ≡ err already_used
unfolding mark_used
mark_used_again code now later [] marked h = cc
mark_used_again code now later (c ∷ store) marked h =
    elim (Result-cases (mark_used code now store)) [
      | inl (rest, e) ↦ ground (arith, mark_used_again code now later store rest e)
      | inr (bad, e) ↦ ground arith
    ]

consume-mark_used :
    (disk : Disk) (code : Text) (now : ℕ) (store store' : PairCodeStore)
    → consume_pair_code disk code now store ≡ (ok tt, store')
    → mark_used (trim_space code) now store ≡ ok store'
unfolding consume_pair_code consume_in save_codes
consume-mark_used disk code now store store' h =
    elim (Result-cases (mark_used (trim_space code) now store)) [
      | inl (marked, e) ↦ ground arith
      | inr (bad, e) ↦ absurd (ground arith)
    ]

-- Once a code was used, every later use of it is refused as used and changes no code, at any time
-- and whatever the white space around it, while no code is created in between.
pub consume_pair_code_once :
    (disk later_disk : Disk) (code again : Text) (now later : ℕ) (store store' : PairCodeStore)
    → consume_pair_code disk code now store ≡ (ok tt, store')
    → trim_space again ≡ trim_space code
    → later_disk.locks ≡ true
    → later_disk.loads ≡ true
    → consume_pair_code later_disk again later store' ≡ (err already_used, store')
unfolding consume_pair_code consume_in
consume_pair_code_once disk later_disk code again now later store store' h same locks loads =
    let marked =
      mark_used_again (trim_space code) now later store store'
        (consume-mark_used disk code now store store' h) in
    ground (arith, marked)
