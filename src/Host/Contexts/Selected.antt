-- ===== src/Host/Contexts/Selected.antt =====
-- internal/host/context_store.go: exactly which contexts a delete request takes.
use rmtx.Base.{
  ℕ, zero, suc, ◌+◌, ◌==◌, ltb, ◌≡◌, refl, ap, sym, ◌∙◌, Bool, true, false, not, ◌&&◌, ◌||◌, Option,
  none, some, List, [], ◌∷◌, Result, ok, err, if◌then◌else◌, any, is_some, filter, keep, Bool-cases,
  Option-cases, inl, inr, arith,
}
use rmtx.Base.Int.{ℤ, pos, negsuc, pos_part, neg_part}
use rmtx.Base.Dict.{lookup, insert, lookup-insert}
use rmtx.Base.Text.{Text, text_key, text_beq, text_beq_iff, is_empty, trim_space}
use rmtx.Host.Contexts.{
  ContextFault, ContextSummary, DeleteRequest, Targets, add_target, add_all_targets, is_older,
  add_older_loop, map_contexts_by_id, add_found, add_missing, add_explicit_targets,
  add_older_targets, with_explicit, select_delete_targets,
}

-- Some context of the list has the id and passes the test.
abbrev pub has_context : (ContextSummary → Bool) → Text → List ContextSummary → Bool
has_context p id contexts = any (λ c. text_beq c.id id && p c) contexts

abbrev is_target : Text → Targets → Bool
is_target id targets = is_some (lookup id targets)

is_target-insert :
    (k id : Text) (c : ContextSummary) (targets : Targets)
    → is_target id (insert k c targets) ≡ text_beq k id || is_target id targets
is_target-insert k id c targets = ground (arith, lookup-insert k id c targets)

-- A loop that adds those that pass a test adds exactly them.
add_if-exact :
    (p : Bool) (c : ContextSummary) (id : Text) (targets : Targets)
    → is_target id (if p then add_target c targets else targets)
      ≡ (text_beq c.id id && p) || is_target id targets
add_if-exact true c id targets = ground (arith, is_target-insert c.id id c targets)
add_if-exact false c id targets = ground arith

add_all_targets-exact :
    (contexts : List ContextSummary) (id : Text) (targets : Targets)
    → is_target id (add_all_targets contexts targets)
      ≡ has_context (λ c. true) id contexts || is_target id targets
unfolding add_all_targets
add_all_targets-exact [] id targets = refl
add_all_targets-exact (c ∷ contexts) id targets = ground (
  arith,
  add_all_targets-exact contexts id (add_target c targets),
  is_target-insert c.id id c targets,
)

or_swap : (a b c : Bool) → a || (b || c) ≡ (b || a) || c
or_swap a b c = ground arith

or_nothing : (a : Bool) → a || false ≡ a
or_nothing a = ground arith

add_older_loop-exact :
    (now : ℕ) (age : ℤ) (contexts : List ContextSummary) (id : Text) (targets : Targets)
    → is_target id (add_older_loop now age contexts targets)
      ≡ has_context (is_older now age) id contexts || is_target id targets
unfolding add_older_loop
add_older_loop-exact now age [] id targets = refl
add_older_loop-exact now age (c ∷ contexts) id targets =
    let mid = if is_older now age c then add_target c targets else targets in
    add_older_loop-exact now age contexts id mid
    ∙ (ap (λ b. has_context (is_older now age) id contexts || b)
          (add_if-exact (is_older now age c) c id targets)
        ∙ or_swap (has_context (is_older now age) id contexts)
            (text_beq c.id id && is_older now age c) (is_target id targets))

-- An update was so long ago: at a time that is known, and more than `age` before now. The smallest
-- age, -2^63, counts as 2^63.
abbrev pub was_before : ℕ → ℤ → ContextSummary → Bool
was_before now age c =
    not (c.updated_at == 0)
    && (if neg_part age == 9_223_372_036_854_775_808
        then ltb (c.updated_at + neg_part age) now
        else ltb (c.updated_at + pos_part age) (now + neg_part age))

is_older-before :
    (now : ℕ) (age : ℤ) (c : ContextSummary) → is_older now age c ≡ was_before now age c
is_older-before now (pos zero) c = ground arith
is_older-before now (pos (suc n)) c = ground arith
is_older-before now (negsuc n) c = elim (Bool-cases (n == 9_223_372_036_854_775_807)) [
  | inl y ↦ simp y (ground arith)
  | inr m ↦ simp m (ground arith)
]

has_context-same :
    (p q : ContextSummary → Bool) (id : Text) (contexts : List ContextSummary)
    → ((c : ContextSummary) → p c ≡ q c)
    → has_context p id contexts ≡ has_context q id contexts
has_context-same p q id [] same = refl
has_context-same p q id (c ∷ contexts) same =
    ground (arith, same c, has_context-same p q id contexts same)

add_older_loop-before :
    (now : ℕ) (age : ℤ) (contexts : List ContextSummary) (id : Text) (targets : Targets)
    → is_target id (add_older_loop now age contexts targets)
      ≡ has_context (was_before now age) id contexts || is_target id targets
add_older_loop-before now age contexts id targets =
    add_older_loop-exact now age contexts id targets
    ∙ ap (λ b. b || is_target id targets)
        (has_context-same (is_older now age) (was_before now age) id contexts
          (is_older-before now age))

-- Whether the request names the id.
abbrev pub is_listed : Text → List Text → Bool
is_listed id ids = any (λ i. text_beq i id) ids

add_found-exact :
    (k id : Text) (o : Option ContextSummary) (targets : Targets)
    → is_target id (add_found k o targets) ≡ (text_beq k id && is_some o) || is_target id targets
add_found-exact k id none targets = ground arith
add_found-exact k id (some c) targets = ground (arith, is_target-insert k id c targets)

add_missing-exact :
    (k : Text) (o : Option ContextSummary) (xs : List Text)
    → add_missing k o xs ≡ keep (not (is_some o)) k xs
add_missing-exact k none xs = refl
add_missing-exact k (some c) xs = refl

module _ (by_id : Targets) where
  add_explicit_targets-exact :
      (ids : List Text) (id : Text) (targets : Targets)
      → is_target id (add_explicit_targets by_id ids targets).0
        ≡ (is_listed id ids && is_target id by_id) || is_target id targets
  unfolding add_explicit_targets
  add_explicit_targets-exact [] id targets = refl
  add_explicit_targets-exact (k ∷ ids) id targets = elim (Bool-cases (text_beq k id)) [
    | inl own ↦ ground (
      arith,
      (text_beq_iff k id).0 own,
      add_explicit_targets-exact ids id (add_found k (lookup k by_id) targets),
      add_found-exact k id (lookup k by_id) targets,
    )
    | inr other ↦ ground (
      arith,
      add_explicit_targets-exact ids id (add_found k (lookup k by_id) targets),
      add_found-exact k id (lookup k by_id) targets,
    )
  ]

  add_explicit_targets-missing :
      (ids : List Text) (targets : Targets)
      → (add_explicit_targets by_id ids targets).1 ≡ filter (λ id. not (is_target id by_id)) ids
  unfolding add_explicit_targets
  add_explicit_targets-missing [] targets = refl
  add_explicit_targets-missing (k ∷ ids) targets =
      add_missing-exact k (lookup k by_id)
        (add_explicit_targets by_id ids (add_found k (lookup k by_id) targets)).1
      ∙ ap (keep (not (is_target k by_id)) k)
          (add_explicit_targets-missing ids (add_found k (lookup k by_id) targets))

map_contexts_by_id-exact :
    (contexts : List ContextSummary) (id : Text)
    → is_target id (map_contexts_by_id contexts) ≡ has_context (λ c. true) id contexts
unfolding map_contexts_by_id lookup
map_contexts_by_id-exact contexts id =
    add_all_targets-exact contexts id [] ∙ or_nothing (has_context (λ c. true) id contexts)

-- The age that a request gives, if it gives one that can be read.
abbrev pub older_test : (Text → Option ℤ) → ℕ → Text → ContextSummary → Bool
older_test parse_duration now older_than c =
    if is_empty (trim_space older_than)
    then false
    else elim (parse_duration older_than) [ none ↦ false | some age ↦ was_before now age c ]

has_none :
    (id : Text) (contexts : List ContextSummary) → has_context (λ c. false) id contexts ≡ false
has_none id [] = refl
has_none id (c ∷ contexts) = ground (arith, has_none id contexts)

filter_same :
    (p q : Text → Bool) (xs : List Text) → ((x : Text) → p x ≡ q x) → filter p xs ≡ filter q xs
filter_same p q [] same = refl
filter_same p q (x ∷ xs) same = rw (same x, filter_same p q xs same) refl

add_all_if :
    (every : Bool) (contexts : List ContextSummary) (id : Text)
    → is_target id (if every then add_all_targets contexts [] else [])
      ≡ every && has_context (λ c. true) id contexts
unfolding lookup
add_all_if true contexts id =
    add_all_targets-exact contexts id [] ∙ or_nothing (has_context (λ c. true) id contexts)
add_all_if false contexts id = refl

module _ (parse_duration : Text → Option ℤ) (now : ℕ) where
  add_older_targets-exact :
      (older_than : Text) (contexts : List ContextSummary) (start targets : Targets) (id : Text)
      → add_older_targets parse_duration now older_than contexts start ≡ ok targets
      → is_target id targets
        ≡ has_context (older_test parse_duration now older_than) id contexts || is_target id start
  unfolding add_older_targets
  add_older_targets-exact older_than contexts start targets id e =
      elim (Bool-cases (is_empty (trim_space older_than))) [
        | inl blank ↦
            let same : ok start ≡ ok targets = simp blank at e in
            let same' : start ≡ targets = cc in
            simp (blank, has_none id contexts) (ap (is_target id) (sym same'))
        | inr given ↦ elim (Option-cases (parse_duration older_than)) [
          | inl wrong ↦ let bad = simp (given, wrong) at e in cc
          | inr (age, read) ↦
              let same : ok (add_older_loop now age contexts start) ≡ ok targets =
                simp (given, read) at e in
              let same' : add_older_loop now age contexts start ≡ targets = cc in
              simp (given, read)
                (ap (is_target id) (sym same') ∙ add_older_loop-before now age contexts id start)
        ]
      ]

  -- If a delete request is accepted, its targets are exactly the ids of contexts that it takes:
  -- all, if it asks for all, those with a known last update that is further back than the age that
  -- it gives, if it gives one (the smallest age, -2^63, counts as 2^63), and those that it names;
  -- what it reports as not found are exactly the ids that it names and no context has, in order.
  pub select_delete_targets_exact :
      (req : DeleteRequest) (contexts : List ContextSummary) (targets : Targets)
      (not_found : List Text)
      → select_delete_targets parse_duration now req contexts ≡ ok (targets, not_found)
      → ((id : Text)
          → is_some (lookup id targets)
            ≡ (is_listed id req.ids && has_context (λ c. true) id contexts)
              || (has_context (older_test parse_duration now req.older_than) id contexts
                  || (req.every && has_context (λ c. true) id contexts)))
        × (not_found ≡ filter (λ id. not (has_context (λ c. true) id contexts)) req.ids)
  unfolding select_delete_targets
  select_delete_targets_exact req contexts targets not_found e =
      let start = if req.every then add_all_targets contexts [] else [] in
      go (add_older_targets parse_duration now req.older_than contexts start)
        (λ mid. add_older_targets-exact req.older_than contexts start mid) e
    where
      go :
          (r : Result ContextFault Targets)
          → ((mid : Targets) (id : Text)
              → r ≡ ok mid
              → is_target id mid
                ≡ has_context (older_test parse_duration now req.older_than) id contexts
                  || is_target id (if req.every then add_all_targets contexts [] else []))
          → with_explicit parse_duration req contexts r ≡ ok (targets, not_found)
          → ((id : Text)
              → is_some (lookup id targets)
                ≡ (is_listed id req.ids && has_context (λ c. true) id contexts)
                  || (has_context (older_test parse_duration now req.older_than) id contexts
                      || (req.every && has_context (λ c. true) id contexts)))
            × (not_found ≡ filter (λ id. not (has_context (λ c. true) id contexts)) req.ids)
      go (err fault) old done = cc
      go (ok mid) old done =
          let by_id = map_contexts_by_id contexts in
          let same : add_explicit_targets by_id req.ids mid ≡ (targets, not_found) = cc in
          (
            λ id.
                ap (λ p. is_target id p.0) (sym same)
                ∙ rw
                    (
                      add_explicit_targets-exact by_id req.ids id mid,
                      map_contexts_by_id-exact contexts id,
                      old mid id refl,
                      add_all_if req.every contexts id,
                    )
                    refl,
            ap (λ p. p.1) (sym same)
                ∙ (add_explicit_targets-missing by_id req.ids mid
                    ∙ filter_same (λ id. not (is_target id by_id))
                        (λ id. not (has_context (λ c. true) id contexts)) req.ids
                        (λ id. ap not (map_contexts_by_id-exact contexts id))),
          )
