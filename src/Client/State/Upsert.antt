-- ===== src/Client/State/Upsert.antt =====
-- What a client finds after it has kept a host.
use rmtx.Base.{
  ◌≡◌, refl, Bool, true, false, none, some, List, [], ◌∷◌, ◌++◌, if◌then◌else◌, arith, inl, inr,
  Bool-cases, Option-cases,
}
use rmtx.Base.Text.{Text, text_beq, text_beq_iff, trim_space, is_empty}
use rmtx.Base.Text.Laws.{trim_space_idem}
use rmtx.Client.State.{
  HostRecord, State, is_blank, find_first, has_fingerprint, find_host_by_fingerprint, replace_first,
  trimmed_record, is_replaceable, upsert_by_address, upsert_trimmed, upsert_host,
}

module _ (p q : HostRecord → Bool) (r : HostRecord) where
  -- The test of the search and of the replacement agree, or there was nothing to find.
  find_first-replaced :
      (hosts replaced : List HostRecord)
      → replace_first p r hosts ≡ some replaced
      → q r ≡ true
      → ((h : HostRecord) → q h ≡ true → p h ≡ true)
      → find_first q replaced ≡ some r
  unfolding find_first replace_first
  find_first-replaced [] replaced e own agree = cc
  find_first-replaced (h ∷ hosts) replaced e own agree =
      elim (Option-cases (replace_first p r hosts)) [
        | inl missing ↦ ground (arith, agree h, own)
        | inr (rest, d) ↦ ground (arith, find_first-replaced hosts rest d own agree, agree h, own)
      ]

  find_first-new :
      (hosts replaced : List HostRecord)
      → replace_first p r hosts ≡ some replaced
      → q r ≡ true
      → find_first q hosts ≡ none
      → find_first q replaced ≡ some r
  unfolding find_first replace_first
  find_first-new [] replaced e own missing = cc
  find_first-new (h ∷ hosts) replaced e own missing =
      elim (Option-cases (replace_first p r hosts)) [
        | inl last ↦ ground (arith, own)
        | inr (rest, d) ↦ ground (arith, find_first-new hosts rest d own, own)
      ]

  find_first-other :
      (hosts replaced : List HostRecord)
      → replace_first p r hosts ≡ some replaced
      → q r ≡ false
      → ((h : HostRecord) → p h ≡ true → q h ≡ false)
      → find_first q replaced ≡ find_first q hosts
  unfolding find_first replace_first
  find_first-other [] replaced e other apart = cc
  find_first-other (h ∷ hosts) replaced e other apart =
      elim (Option-cases (replace_first p r hosts)) [
        | inl last ↦ ground (arith, apart h, other)
        | inr (rest, d) ↦ ground (arith, find_first-other hosts rest d other apart, apart h, other)
      ]

find_first-append :
    (q : HostRecord → Bool) (hosts : List HostRecord) (r : HostRecord)
    → find_first q (hosts ++ (r ∷ []))
      ≡ (elim (find_first q hosts) [ some h ↦ some h | none ↦ if q r then some r else none ])
unfolding find_first
find_first-append q [] r = ground arith
find_first-append q (h ∷ hosts) r = ground (arith, find_first-append q hosts r)

replace_first-none :
    (p : HostRecord → Bool) (r : HostRecord) (hosts : List HostRecord)
    → replace_first p r hosts ≡ none
    → find_first p hosts ≡ none
unfolding find_first replace_first
replace_first-none p r [] e = refl
replace_first-none p r (h ∷ hosts) e = elim (Option-cases (replace_first p r hosts)) [
  | inl missing ↦ ground (arith, replace_first-none p r hosts missing)
  | inr (rest, d) ↦ ground arith
]

module _ (r : HostRecord) (named : is_empty r.fingerprint ≡ false) where
  -- A named record takes an address over only from a record without a fingerprint.
  replaceable_blank : (h : HostRecord) → is_replaceable r h ≡ true → is_blank h.fingerprint ≡ true
  replaceable_blank h e = ground (arith, e, named)

  -- A fingerprint that is searched for is not blank.
  blank_other :
      (f : Text) (h : HostRecord)
      → is_blank f ≡ false
      → is_blank h.fingerprint ≡ true
      → has_fingerprint f h ≡ false
  blank_other f h solid blank = ground (arith, text_beq_iff h.fingerprint f, solid, blank)

  upsert_by_address-find :
      (f : Text) (hosts : List HostRecord)
      → is_blank f ≡ false
      → find_first (has_fingerprint r.fingerprint) hosts ≡ none
      → find_first (has_fingerprint f) (upsert_by_address r hosts)
        ≡ (if has_fingerprint f r then some r else find_first (has_fingerprint f) hosts)
  unfolding upsert_by_address
  upsert_by_address-find f hosts solid missing =
      elim (Option-cases (replace_first (is_replaceable r) r hosts)) [
        | inl full ↦ ground (
          arith,
          full,
          find_first-append (has_fingerprint f) hosts r,
          missing,
          text_beq_iff r.fingerprint f,
        )
        | inr (replaced, e) ↦ elim (Bool-cases (has_fingerprint f r)) [
          | inl own ↦
              let same = (text_beq_iff r.fingerprint f).0 own in
              ground (
                arith,
                e,
                own,
                find_first-new (is_replaceable r) (has_fingerprint f) r hosts replaced e own
                    (rw same at missing),
              )
          | inr other ↦ ground (
            arith,
            e,
            other,
            find_first-other (is_replaceable r) (has_fingerprint f) r hosts replaced e other
                (λ h p. blank_other f h solid (replaceable_blank h p)),
          )
        ]
      ]

  upsert_trimmed-find :
      (f : Text) (hosts : List HostRecord)
      → is_blank f ≡ false
      → find_first (has_fingerprint f) (upsert_trimmed r hosts)
        ≡ (if has_fingerprint f r then some r else find_first (has_fingerprint f) hosts)
  unfolding upsert_trimmed
  upsert_trimmed-find f hosts solid =
      elim (Option-cases (replace_first (has_fingerprint r.fingerprint) r hosts)) [
        | inl full ↦ ground (
          arith,
          full,
          named,
          upsert_by_address-find f hosts solid
              (replace_first-none (has_fingerprint r.fingerprint) r hosts full),
        )
        | inr (replaced, e) ↦ elim (Bool-cases (has_fingerprint f r)) [
          | inl own ↦
              let same = (text_beq_iff r.fingerprint f).0 own in
              let found =
                find_first-replaced (has_fingerprint r.fingerprint) (has_fingerprint f) r hosts
                  replaced e own (λ h q. rw same q) in
              ground (arith, e, own, named, found)
          | inr other ↦
              let kept =
                find_first-other (has_fingerprint r.fingerprint) (has_fingerprint f) r hosts
                  replaced e other (λ h q. apart f other h q) in
              ground (arith, e, other, named, kept)
        ]
      ]
    where
      apart :
          (f : Text)
          → has_fingerprint f r ≡ false
          → (h : HostRecord) → has_fingerprint r.fingerprint h ≡ true
          → has_fingerprint f h ≡ false
      apart f other h q = let same = (text_beq_iff h.fingerprint r.fingerprint).0 q in rw same other

-- After a host with a fingerprint is kept, a search by that fingerprint finds it, and a search by
-- any other finds what it found before.
pub find_host_by_fingerprint-upsert_host :
    (r : HostRecord) (f : Text) (s : State)
    → is_blank r.fingerprint ≡ false
    → is_blank f ≡ false
    → find_host_by_fingerprint f (upsert_host r s) ≡ (
        if text_beq (trim_space r.fingerprint) (trim_space f)
        then some (trimmed_record r)
        else find_host_by_fingerprint f s)
unfolding find_host_by_fingerprint upsert_host
find_host_by_fingerprint-upsert_host r f s named solid =
    let solid' : is_blank (trim_space f) ≡ false = rw (trim_space_idem f) solid in
    ground
      (arith, solid, upsert_trimmed-find (trimmed_record r) named (trim_space f) s.hosts solid')
