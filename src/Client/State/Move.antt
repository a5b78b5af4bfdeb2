-- ===== src/Client/State/Move.antt =====
-- internal/clientstate/state.go: the move of a paired host to another address.
use rmtx.Base.{
  ◌≡◌, inl, inr, refl, sym, ap, ◌∙◌, Bool, true, false, not, ◌&&◌, ◌||◌, Option, none, some, List,
  [], ◌∷◌, ◌++◌, if◌then◌else◌, Bool-cases, Option-cases,
}
use rmtx.Base.Text.{Text, text_beq, text_beq_iff, text_key, trim_space, is_empty}
use rmtx.Client.State.{
  HostRecord, State, is_blank, has_address, has_fingerprint, find_first, first_found,
}

-- An alias: another record with the address. It may go if it was never paired.
abbrev pub blocks : Text → HostRecord → Bool
blocks address h = has_address address h && not (is_blank h.fingerprint)

-- `removeUnpairedAddressAliases` over records of which none is the host's: whether no paired alias
-- was met, and the records. The removals in front of a paired alias stay.
unfoldable pub remove_aliases : Text → List HostRecord → Bool × List HostRecord
remove_aliases address [] = (true, [])
remove_aliases address (h ∷ hosts) =
    let rest = remove_aliases address hosts in
    if not (has_address address h)
    then (rest.0, h ∷ rest.1)
    else if not (is_blank h.fingerprint)
    then (false, h ∷ hosts)
    else rest

abbrev pub Cut : Type 0
Cut = List HostRecord × HostRecord × List HostRecord

-- What stands in front of the host's record, the record, and what stands behind it.
abbrev pub put_front : HostRecord → Option Cut → Option Cut
put_front h none = none
put_front h (some (front, found, back)) = some (h ∷ front, found, back)

unfoldable pub split_host : Text → List HostRecord → Option Cut
split_host fingerprint [] = none
split_host fingerprint (h ∷ hosts) =
    let rest = split_host fingerprint hosts in
    if has_fingerprint fingerprint h then some ([], h, hosts) else put_front h rest

abbrev pub joined : Cut → List HostRecord
joined (front, h, back) = front ++ (h ∷ back)

abbrev pub moved_to : Text → HostRecord → HostRecord
moved_to address h = record h { address = address }

-- The loop has passed the records in front, and then those behind.
abbrev pub after_back :
    Text → List HostRecord → HostRecord → Bool × List HostRecord → Bool × List HostRecord
after_back address front h (false, back) = (false, joined (front, h, back))
after_back address front h (true, back) = (true, joined (front, moved_to address h, back))

abbrev pub after_front : Text → Cut → Bool × List HostRecord → Bool × List HostRecord
after_front address (_, h, back) (false, front) = (false, joined (front, h, back))
after_front address (_, h, back) (true, front) =
    after_back address front h (remove_aliases address back)

abbrev pub after_split : Text → List HostRecord → Option Cut → Bool × List HostRecord
after_split address hosts none = (false, hosts)
after_split address hosts (some (front, h, back)) =
    if has_address address h
    then (false, hosts)
    else after_front address (front, h, back) (remove_aliases address front)

unfoldable pub move_host : Text → Text → List HostRecord → Bool × List HostRecord
move_host fingerprint address hosts =
    if is_empty fingerprint || is_empty address
    then (false, hosts)
    else after_split address hosts (split_host fingerprint hosts)

-- The answer, and the state.
unfoldable pub update_host_address : Text → Text → State → Bool × State
update_host_address fingerprint address s =
    let moved = move_host (trim_space fingerprint) (trim_space address) s.hosts in
    (moved.0, record s { hosts = moved.1 })

pub find_first-append :
    (p : HostRecord → Bool) (xs ys : List HostRecord)
    → find_first p (xs ++ ys) ≡ first_found (find_first p xs) (find_first p ys)
unfolding find_first
find_first-append p [] ys = refl
find_first-append p (x ∷ xs) ys = elim (Bool-cases (p x)) [
  | inl e ↦ simp e refl
  | inr e ↦ simp e (find_first-append p xs ys)
]

blank_other :
    (h : HostRecord) (f : Text)
    → is_blank f ≡ false
    → is_blank h.fingerprint ≡ true
    → has_fingerprint f h ≡ false
blank_other h f some_text blank = elim (Bool-cases (text_beq h.fingerprint f)) [
  | inl e ↦
      absurd (let same = (text_beq_iff h.fingerprint f).0 e in let both = ap is_blank same in cc)
  | inr e ↦ e
]

-- What is removed no fingerprint finds.
pub find_first-remove_aliases :
    (f address : Text) (hosts : List HostRecord)
    → is_blank f ≡ false
    → find_first (has_fingerprint f) (remove_aliases address hosts).1
      ≡ find_first (has_fingerprint f) hosts
unfolding find_first remove_aliases
find_first-remove_aliases f address [] h = refl
find_first-remove_aliases f address (x ∷ hosts) h = elim (Bool-cases (has_address address x)) [
  | inr other ↦ simp (other, find_first-remove_aliases f address hosts h) refl
  | inl at_address ↦ elim (Bool-cases (is_blank x.fingerprint)) [
    | inr paired ↦ simp (at_address, paired) refl
    | inl blank ↦
        simp (at_address, blank, blank_other x f h blank)
          (find_first-remove_aliases f address hosts h)
  ]
]

-- A loop that met no paired alias leaves no alias.
pub remove_aliases-none :
    (address : Text) (hosts : List HostRecord)
    → (remove_aliases address hosts).0 ≡ true
    → find_first (has_address address) (remove_aliases address hosts).1 ≡ none
unfolding find_first remove_aliases
remove_aliases-none address [] clear = refl
remove_aliases-none address (x ∷ hosts) clear = elim (Bool-cases (has_address address x)) [
  | inr other ↦ simp other (remove_aliases-none address hosts (simp other at clear))
  | inl at_address ↦ elim (Bool-cases (is_blank x.fingerprint)) [
    | inr paired ↦ absurd (let wrong = simp (at_address, paired) at clear in cc)
    | inl blank ↦
        simp (at_address, blank)
          (remove_aliases-none address hosts (simp (at_address, blank) at clear))
  ]
]

pub split_host-parts :
    (f : Text) (hosts : List HostRecord) (cut : Cut)
    → split_host f hosts ≡ some cut
    → (hosts ≡ joined cut)
      × (has_fingerprint f cut.1 ≡ true)
      × (find_first (has_fingerprint f) cut.0 ≡ none)
unfolding split_host find_first
split_host-parts f [] cut h = cc
split_host-parts f (x ∷ hosts) cut h = elim (Bool-cases (has_fingerprint f x)) [
  | inl e ↦
      let same : ([], x, hosts) ≡ cut = (let done = simp e at h in cc) in rw⁻¹ same (refl, e, refl)
  | inr e ↦ elim (Option-cases (split_host f hosts)) [
    | inl nothing ↦ absurd (let done = simp (e, nothing) at h in cc)
    | inr (inner, found) ↦
        let r = split_host-parts f hosts inner found in
        let same : (x ∷ inner.0, inner.1, inner.2) ≡ cut =
          (let done = simp (e, found) at h in cc) in
        rw⁻¹ same (ap (λ t. x ∷ t) r.0, r.1, simp e r.2)
  ]
]

module _ (g address : Text) (some_text : is_blank g ≡ false) (h : HostRecord)
    (other : has_fingerprint g h ≡ false) where
  find_first-joined :
      (front back : List HostRecord) (k : HostRecord)
      → has_fingerprint g k ≡ false
      → find_first (has_fingerprint g) (joined (front, k, back))
        ≡ first_found (find_first (has_fingerprint g) front) (find_first (has_fingerprint g) back)
  find_first-joined front back k e =
      find_first-append (has_fingerprint g) front (k ∷ back)
      ∙ ap (first_found (find_first (has_fingerprint g) front)) (unfold find_first in simp e refl)

  after_back-others :
      (front : List HostRecord) (r : Bool × List HostRecord)
      → find_first (has_fingerprint g) (after_back address front h r).1
        ≡ first_found (find_first (has_fingerprint g) front) (find_first (has_fingerprint g) r.1)
  after_back-others front (false, back) = find_first-joined front back h other
  after_back-others front (true, back) = find_first-joined front back (moved_to address h) other

  after_front-others :
      (front back : List HostRecord) (r : Bool × List HostRecord)
      → find_first (has_fingerprint g) (after_front address (front, h, back) r).1
        ≡ first_found (find_first (has_fingerprint g) r.1) (find_first (has_fingerprint g) back)
  after_front-others front back (false, kept) = find_first-joined kept back h other
  after_front-others front back (true, kept) =
      after_back-others kept (remove_aliases address back)
      ∙ ap (first_found (find_first (has_fingerprint g) kept))
          (find_first-remove_aliases g address back some_text)

  after_split-others :
      (front back : List HostRecord)
      → find_first
          (has_fingerprint g)
          (after_front address (front, h, back) (remove_aliases address front)).1
        ≡ find_first (has_fingerprint g) (joined (front, h, back))
  after_split-others front back =
      after_front-others front back (remove_aliases address front)
      ∙ ap (λ o. first_found o (find_first (has_fingerprint g) back))
          (find_first-remove_aliases g address front some_text)
      ∙ sym (find_first-joined front back h other)

other_host :
    (f g : Text) (h : HostRecord)
    → text_beq f g ≡ false
    → has_fingerprint f h ≡ true
    → has_fingerprint g h ≡ false
other_host f g h apart same =
    let e = (text_beq_iff h.fingerprint f).0 same in ap (λ t. text_beq t g) e ∙ apart

-- A host with another fingerprint is found as before.
pub move_host-others :
    (f g address : Text) (hosts : List HostRecord)
    → is_blank g ≡ false
    → text_beq f g ≡ false
    → find_first (has_fingerprint g) (move_host f address hosts).1
      ≡ find_first (has_fingerprint g) hosts
unfolding move_host
move_host-others f g address hosts some_text apart =
    elim (Bool-cases (is_empty f || is_empty address)) [
      | inl blank ↦ simp blank refl
      | inr given ↦ elim (Option-cases (split_host f hosts)) [
        | inl unknown ↦ simp (given, unknown) refl
        | inr ((front, h, back), found) ↦
            let (whole, own, _) = split_host-parts f hosts (front, h, back) found in
            elim (Bool-cases (has_address address h)) [
              | inl there ↦ simp (given, found, there) refl
              | inr away ↦
                  simp (given, found, away)
                    (after_split-others g address some_text h (other_host f g h apart own) front
                        back
                      ∙ ap (find_first (has_fingerprint g)) (sym whole))
            ]
      ]
    ]
