-- ===== src/Base/Path.antt =====
-- The functions of path/filepath that the program calls, on Unix, where ToSlash and FromSlash
-- change nothing.
pub mod Segments
pub mod Clean
pub mod Parents
pub mod Below
use rmtx.Base.Logic.{◌==◌, if◌then◌else◌}
use rmtx.Base.Lists.{any}
use rmtx.Base.Text.{Text, text_beq, is_empty, has_prefix, split, join}
use Prim.Native.Nat.{ℕ, zero, suc}
use mathlib.Core.Bool.{Bool, true, false, ◌||◌}
use mathlib.Core.List.{List, [], ◌∷◌, ◌++◌}

abbrev pub slash : ℕ
slash = b'/'

abbrev pub dot : Text
dot = b'.' ∷ []

abbrev pub dots : Text
dots = b'.' ∷ b'.' ∷ []

-- A rooted path starts with a slash: filepath.IsAbs.
abbrev pub is_rooted : Text → Bool
is_rooted [] = false
is_rooted (c ∷ s) = c == slash

-- `..` takes the last name away, or stays where no name is left.
abbrev pub backtrack : Bool → List Text → List Text
backtrack true [] = []
backtrack false [] = dots ∷ []
backtrack rooted (top ∷ stack) = if text_beq top dots then dots ∷ top ∷ stack else stack

abbrev pub push : Bool → Text → List Text → List Text
push rooted segment stack =
    if is_empty segment || text_beq segment dot
    then stack
    else if text_beq segment dots
    then backtrack rooted stack
    else segment ∷ stack

-- The segments that are left, the last one first.
unfoldable pub walk : Bool → List Text → List Text → List Text
walk rooted [] stack = stack
walk rooted (segment ∷ segments) stack = walk rooted segments (push rooted segment stack)

abbrev pub reverse_onto : List Text → List Text → List Text
reverse_onto [] out = out
reverse_onto (s ∷ stack) out = reverse_onto stack (s ∷ out)

abbrev pub or_dot : Text → Text
or_dot [] = dot
or_dot (c ∷ s) = c ∷ s

-- filepath.Clean
unfoldable pub clean : Text → Text
clean path =
    let left = join slash (reverse_onto (walk (is_rooted path) (split slash path) []) []) in
    if is_rooted path then slash ∷ left else or_dot left

abbrev pub has_dots : Text → Bool
has_dots path = any (λ segment. text_beq segment dot || text_beq segment dots) (split slash path)

abbrev pub leads_out : Text → Bool
leads_out path = text_beq path dots || has_prefix path (b'.' ∷ b'.' ∷ b'/' ∷ [])

-- filepath.IsLocal
unfoldable pub is_local : Text → Bool
is_local path =
    if is_rooted path || is_empty path
    then false
    else if leads_out (if has_dots path then clean path else path)
    then false
    else true

-- What stands before and at the last slash.
abbrev pub cons_up_to : ℕ → Text → Text
cons_up_to c [] = if c == slash then c ∷ [] else []
cons_up_to c (d ∷ t) = c ∷ d ∷ t

abbrev pub up_to_slash : Text → Text
up_to_slash [] = []
up_to_slash (c ∷ s) = cons_up_to c (up_to_slash s)

-- filepath.Dir
unfoldable pub dir : Text → Text
dir path = clean (up_to_slash path)

-- `for parent := filepath.Dir(rel); parent != "."; parent = filepath.Dir(parent)`
unfoldable pub parents : ℕ → Text → List Text
parents zero rel = []
parents (suc fuel) rel =
    let parent = dir rel in if text_beq parent dot then [] else parent ∷ parents fuel parent
