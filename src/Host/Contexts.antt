-- ===== src/Host/Contexts.antt =====
-- internal/host/context_store.go: the ids of contexts, what is filled in of their metadata, and
-- which of them a delete request takes. `parse_duration` is time.ParseDuration.
pub mod Selected
use rmtx.Base.{
  ℕ, zero, suc, ◌-◌, ◌^◌, ◌+◌, ltb, ◌==◌, Bool, true, false, not, ◌&&◌, ◌||◌, Option, none, some,
  List, [], ◌∷◌, Result, ok, err, if◌then◌else◌, all,
}
use rmtx.Base.Int.{ℤ, pos, negsuc, pos_part, neg_part}
use rmtx.Base.Dict.{Dict, lookup, insert}
use rmtx.Base.Text.{
  codes, Text, text_key, text_beq, is_empty, trim_space, is_ascii_lower, is_ascii_upper,
  is_ascii_digit,
}

pub data ContextFault : Type 0 where
  context_id_required invalid_context_id bad_older_than : ContextFault

abbrev pub is_context_rune : ℕ → Bool
is_context_rune c =
    is_ascii_lower c
    || is_ascii_upper c
    || is_ascii_digit c
    || (c == b'-' || c == b'_' || c == b'.')

unfoldable pub valid_context_id : Text → Bool
valid_context_id id =
    if text_beq id (codes ".") || text_beq id (codes "..") then false else all is_context_rune id

abbrev pub checked_context_id : Text → Result ContextFault Text
checked_context_id id =
    if is_empty id
    then err context_id_required
    else if valid_context_id id
    then ok id
    else err invalid_context_id

unfoldable pub normalize_context_id : Text → Result ContextFault Text
normalize_context_id id = checked_context_id (trim_space id)

unfoldable pub fallback_context_name : Text → Text → Text → Text
fallback_context_name name root_hint id =
    if not (is_empty (trim_space name))
    then trim_space name
    else if not (is_empty (trim_space root_hint))
    then trim_space root_hint
    else id

pub record ContextMetadata : Type 0 where
  pub id : Text
  pub name : Text
  pub root_hint : Text
  pub created_at : ℕ
  pub updated_at : ℕ

abbrev pub or_else : Text → Text → Text
or_else old new = if is_empty old then new else old

unfoldable pub hydrate_context_metadata : ContextMetadata → Text → Text → Text → ℕ → ContextMetadata
hydrate_context_metadata meta id name root_hint now = record {
  id = or_else meta.id id;
  name =
      or_else (trim_space name)
        (or_else meta.name (fallback_context_name (trim_space name) (trim_space root_hint) id));
  root_hint = or_else (trim_space root_hint) meta.root_hint;
  created_at = (if meta.created_at == 0 then now else meta.created_at);
  updated_at = now;
}

-- The fields that a delete reads.
pub record ContextSummary : Type 0 where
  pub id : Text
  pub updated_at : ℕ

pub record DeleteRequest : Type 0 where
  pub ids : List Text
  pub every : Bool
  pub older_than : Text

abbrev pub Targets : Type 0
Targets = Dict Text ContextSummary

abbrev pub add_target : ContextSummary → Targets → Targets
add_target c targets = insert c.id c targets

unfoldable pub add_all_targets : List ContextSummary → Targets → Targets
add_all_targets [] targets = targets
add_all_targets (c ∷ contexts) targets = add_all_targets contexts (add_target c targets)

-- The negative of a time.Duration: the smallest has none, and stays.
abbrev pub negated : ℤ → ℤ
negated (pos zero) = pos 0
negated (pos (suc n)) = negsuc n
negated (negsuc n) = if n == 2 ^ 63 - 1 then negsuc n else pos (suc n)

-- `cutoff := now.Add(-olderThan)`, and UpdatedAt before it
abbrev pub is_older : ℕ → ℤ → ContextSummary → Bool
is_older now age c =
    not (c.updated_at == 0)
    && ltb (c.updated_at + neg_part (negated age)) (now + pos_part (negated age))

unfoldable pub add_older_loop : ℕ → ℤ → List ContextSummary → Targets → Targets
add_older_loop now age [] targets = targets
add_older_loop now age (c ∷ contexts) targets =
    add_older_loop now age contexts (if is_older now age c then add_target c targets else targets)

abbrev pub older_parsed : ℕ → List ContextSummary → Targets → Option ℤ → Result ContextFault Targets
older_parsed now contexts targets none = err bad_older_than
older_parsed now contexts targets (some age) = ok (add_older_loop now age contexts targets)

unfoldable pub map_contexts_by_id : List ContextSummary → Targets
map_contexts_by_id contexts = add_all_targets contexts []

-- `targets[id] = context`, or `notFound = append(notFound, id)`
abbrev pub add_found : Text → Option ContextSummary → Targets → Targets
add_found id none targets = targets
add_found id (some c) targets = insert id c targets

abbrev pub add_missing : Text → Option ContextSummary → List Text → List Text
add_missing id none not_found = id ∷ not_found
add_missing id (some c) not_found = not_found

-- addExplicitIDTargets: the targets, and the ids that name no context.
unfoldable pub add_explicit_targets : Targets → List Text → Targets → Targets × List Text
add_explicit_targets by_id [] targets = (targets, [])
add_explicit_targets by_id (id ∷ ids) targets =
    let rest = add_explicit_targets by_id ids (add_found id (lookup id by_id) targets) in
    (rest.0, add_missing id (lookup id by_id) rest.1)

module _ (parse_duration : Text → Option ℤ) where
  -- addOlderThanTargets
  unfoldable pub add_older_targets :
      ℕ → Text → List ContextSummary → Targets → Result ContextFault Targets
  add_older_targets now older_than contexts targets =
      if is_empty (trim_space older_than)
      then ok targets
      else older_parsed now contexts targets (parse_duration older_than)

  abbrev pub with_explicit :
      DeleteRequest
      → List ContextSummary
      → Result ContextFault Targets
      → Result ContextFault (Targets × List Text)
  with_explicit req contexts (err fault) = err fault
  with_explicit req contexts (ok targets) =
      ok (add_explicit_targets (map_contexts_by_id contexts) req.ids targets)

  unfoldable pub select_delete_targets :
      ℕ → DeleteRequest → List ContextSummary → Result ContextFault (Targets × List Text)
  select_delete_targets now req contexts = with_explicit req contexts (
      add_older_targets now req.older_than contexts
        (if req.every then add_all_targets contexts [] else []))
