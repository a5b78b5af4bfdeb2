-- ===== src/Client/State/Moved.antt =====
-- internal/clientstate/state.go: what a move of a host to another address leaves.
use rmtx.Base.{
  ◌≡◌, inl, inr, refl, ap, ◌∙◌, Bool, true, false, not, ◌&&◌, ◌||◌, none, some, List, [], ◌∷◌, ◌++◌,
  is_key_self, Bool-cases, Option-cases, arith, any,
}
use rmtx.Base.Text.{Text, text_beq, text_key, trim_space, is_empty}
use rmtx.Base.Text.Laws.{trim_space_idem}
use rmtx.Client.State.{
  HostRecord, State, is_blank, has_address, has_fingerprint, find_first, first_found,
  find_host_by_fingerprint,
}
use rmtx.Client.State.Move.{
  remove_aliases, split_host, joined, moved_to, after_back, after_front, move_host,
  update_host_address, find_first-append, find_first-remove_aliases, remove_aliases-none,
  split_host-parts, move_host-others,
}

-- Another host at the address.
abbrev pub is_alias : Text → Text → HostRecord → Bool
is_alias f a h = has_address a h && not (has_fingerprint f h)

-- After a move that was answered with yes, the fingerprint and the address find the same record, and
-- no other host has the address.
abbrev pub IsMoved : Text → Text → Bool → List HostRecord → Type 0
IsMoved f a false hosts = Unit
IsMoved f a true hosts =
    (h : HostRecord) × (find_first (has_fingerprint f) hosts ≡ some h)
    × (find_first (has_address a) hosts ≡ some h)
    × (h.address ≡ a)
    × (any (is_alias f a) hosts ≡ false)

any-append :
    (p : HostRecord → Bool) (xs ys : List HostRecord) → any p (xs ++ ys) ≡ (any p xs || any p ys)
any-append p [] ys = refl
any-append p (x ∷ xs) ys = ground (arith, any-append p xs ys)

no_alias :
    (f a : Text) (hosts : List HostRecord)
    → find_first (has_address a) hosts ≡ none
    → any (is_alias f a) hosts ≡ false
unfolding find_first
no_alias f a [] h = refl
no_alias f a (x ∷ hosts) h = elim (Bool-cases (has_address a x)) [
  | inl e ↦ absurd (let wrong = simp e at h in cc)
  | inr e ↦ simp e (no_alias f a hosts (simp e at h))
]

find_first-front :
    (p : HostRecord → Bool) (front back : List HostRecord) (h : HostRecord)
    → find_first p front ≡ none
    → p h ≡ true
    → find_first p (joined (front, h, back)) ≡ some h
find_first-front p front back h none_there here =
    find_first-append p front (h ∷ back)
    ∙ ap (λ o. first_found o (find_first p (h ∷ back))) none_there
    ∙ (unfold find_first in simp here refl)

module _ (f a : Text) (some_text : is_blank f ≡ false) (h : HostRecord)
    (own : has_fingerprint f h ≡ true) where
  after_back-IsMoved :
      (front : List HostRecord) (r : Bool × List HostRecord)
      → find_first (has_fingerprint f) front ≡ none
      → find_first (has_address a) front ≡ none
      → (r.0 ≡ true → find_first (has_address a) r.1 ≡ none)
      → IsMoved f a (after_back a front h r).0 (after_back a front h r).1
  after_back-IsMoved front (false, back) fresh clear behind = tt
  after_back-IsMoved front (true, back) fresh clear behind = (
    moved_to a h,
    find_first-front (has_fingerprint f) front back (moved_to a h) fresh own,
    find_first-front (has_address a) front back (moved_to a h) clear (is_key_self a),
    refl,
    any-append (is_alias f a) front (moved_to a h ∷ back)
        ∙ simp (no_alias f a front clear, own, no_alias f a back (behind refl)) (ground arith),
  )

  after_front-IsMoved :
      (front back : List HostRecord) (r : Bool × List HostRecord)
      → find_first (has_fingerprint f) r.1 ≡ none
      → (r.0 ≡ true → find_first (has_address a) r.1 ≡ none)
      → IsMoved f a (after_front a (front, h, back) r).0 (after_front a (front, h, back) r).1
  after_front-IsMoved front back (false, kept) fresh clear = tt
  after_front-IsMoved front back (true, kept) fresh clear =
      after_back-IsMoved kept (remove_aliases a back) fresh (clear refl)
        (remove_aliases-none a back)

move_host-IsMoved :
    (f a : Text) (hosts : List HostRecord)
    → trim_space f ≡ f
    → IsMoved f a (move_host f a hosts).0 (move_host f a hosts).1
unfolding move_host
move_host-IsMoved f a hosts trimmed = elim (Bool-cases (is_empty f || is_empty a)) [
  | inl blank ↦ simp blank tt
  | inr given ↦ elim (Option-cases (split_host f hosts)) [
    | inl unknown ↦ simp (given, unknown) tt
    | inr ((front, h, back), found) ↦
        let (_, own, fresh) = split_host-parts f hosts (front, h, back) found in
        let some_text : is_blank f ≡ false = ap is_empty trimmed ∙ ground arith in
        elim (Bool-cases (has_address a h)) [
          | inl there ↦ simp (given, found, there) tt
          | inr away ↦
              simp (given, found, away)
                (after_front-IsMoved f a some_text h own front back (remove_aliases a front)
                  (find_first-remove_aliases f a front some_text ∙ fresh)
                  (remove_aliases-none a front))
        ]
  ]
]

-- Whatever `UpdateHostAddress` answers, a host with another fingerprint is found as before. If it
-- answers yes, the fingerprint and the address, both trimmed, find the same record, the record has
-- the address, and no host with another fingerprint has it.
pub update_host_address-moves :
    (fingerprint address other : Text) (s : State)
    → text_beq (trim_space fingerprint) (trim_space other) ≡ false
    → (find_host_by_fingerprint other (update_host_address fingerprint address s).1
        ≡ find_host_by_fingerprint other s)
      × IsMoved
          (trim_space fingerprint)
          (trim_space address)
          (update_host_address fingerprint address s).0
          (update_host_address fingerprint address s).1.hosts
unfolding update_host_address find_host_by_fingerprint
update_host_address-moves fingerprint address other s apart = (
  elim (Bool-cases (is_blank other)) [
    | inl blank ↦ simp blank refl
    | inr given ↦ simp given (
        move_host-others (trim_space fingerprint) (trim_space other) (trim_space address) s.hosts
          (ap is_empty (trim_space_idem other) ∙ given) apart)
  ],
  move_host-IsMoved (trim_space fingerprint) (trim_space address) s.hosts
      (trim_space_idem fingerprint),
)
