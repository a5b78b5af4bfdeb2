-- ===== src/Config/Context.antt =====
-- internal/config/config.go: the name and the id of a project's context. `to_lower` is
-- strings.ToLower, `base_name` filepath.Base, and `digest` SHA-256; paths are those of Unix.
pub mod Accepted
use rmtx.Base.{
  ℕ, ltb, Bool, true, false, not, ◌&&◌, ◌||◌, List, [], ◌∷◌, ◌++◌, if◌then◌else◌, take, ◌==◌,
}
use rmtx.Base.Path.{clean, dot, dir}
use rmtx.Base.Text.{
  codes, Text, text_beq, is_empty, trim_space, trim_left, trim_right, is_ascii_lower,
  is_ascii_digit,
}
use rmtx.Syncfs.Hash.{hex_encode}

-- What Loaded holds of a project: where its file is, its root, and the configured name.
pub record Loaded : Type 0 where
  pub path : Text
  pub root : Text
  pub name : Text

abbrev pub is_dash : ℕ → Bool
is_dash c = c == b'-'

-- The loop of slug behind what it has written, the last code point first.
unfoldable pub slug_loop : Text → Bool → Text → Text
slug_loop out last_dash [] = out
slug_loop out last_dash (c ∷ s) =
    if is_ascii_lower c || is_ascii_digit c
    then slug_loop (out ++ (c ∷ [])) false s
    else if not last_dash && not (is_empty out)
    then slug_loop (out ++ (b'-' ∷ [])) true s
    else slug_loop out last_dash s

-- strings.Trim(b.String(), "-")
abbrev pub trim_dashes : Text → Text
trim_dashes s = trim_right is_dash (trim_left is_dash s)

abbrev pub or_context : Text → Text
or_context [] = codes "context"
or_context (c ∷ s) = c ∷ s

abbrev pub slug_of : Text → Text
slug_of value = if is_empty value then [] else or_context (trim_dashes (slug_loop [] false value))

module _ (to_lower base_name : Text → Text) (digest : Text → List ℕ) where
  unfoldable pub slug : Text → Text
  slug value = slug_of (trim_space (to_lower value))

  abbrev pub base_or_context : Text → Text
  base_or_context name =
      if is_empty name || text_beq name dot || text_beq name (b'/' ∷ [])
      then codes "context"
      else name

  unfoldable pub context_name : Loaded → Text
  context_name l =
      if is_empty (trim_space l.name) then base_or_context (base_name l.root) else trim_space l.name

  abbrev pub root_of : Loaded → Text
  root_of l = if is_empty l.root && not (is_empty l.path) then dir l.path else l.root

  unfoldable pub context_identity : Loaded → Text
  context_identity l =
      if is_empty (trim_space l.name)
      then codes "root:" ++ clean (root_of l)
      else codes "name:" ++ trim_space l.name

  unfoldable pub context_id : Loaded → Text
  context_id l =
      or_context (slug (context_name l))
      ++ (b'-' ∷ take 12 (hex_encode (digest (context_identity l))))
