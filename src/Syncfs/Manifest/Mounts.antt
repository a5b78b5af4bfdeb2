-- ===== src/Syncfs/Manifest/Mounts.antt =====
-- internal/syncfs/manifest.go: paths from the root of a project and paths from one of its mounts.
use rmtx.Base.{
  ◌≡◌, inl, inr, refl, ◌∙◌, Bool, true, false, ◌||◌, ◌==◌, ==_iff, Option, none, some, [], ◌∷◌,
  ◌++◌, if◌then◌else◌, All-append, is_key_self, arith,
}
use rmtx.Base.Path.{clean, dot, slash, walk}
use rmtx.Base.Path.Segments.{split-append}
use rmtx.Base.Path.Clean.{IsInside, Plain}
use rmtx.Base.Path.Parents.{AllPlain, clean-AllPlain, ne_dot}
use rmtx.Base.Text.{Text, text_beq, text_key, is_empty, has_prefix, split, join}
use rmtx.Syncfs.Manifest.{normalize_rel}

-- path.Join of two elements: those that are empty are left out.
abbrev pub path_join : Text → Text → Text
path_join [] [] = []
path_join [] (c ∷ b) = clean (c ∷ b)
path_join (c ∷ a) [] = clean (c ∷ a)
path_join (c ∷ a) (d ∷ b) = clean ((c ∷ a) ++ (slash ∷ d ∷ b))

unfoldable pub join_rel : Text → Text → Text
join_rel base rel =
    if text_beq base dot then rel else if text_beq rel dot then base else path_join base rel

unfoldable pub path_under_or_equal : Text → Text → Bool
path_under_or_equal rel base =
    let r = normalize_rel clean rel in
    let b = normalize_rel clean base in
    text_beq b dot || (text_beq r b || has_prefix r (b ++ (slash ∷ [])))

-- strings.CutPrefix
abbrev pub cut_prefix : Text → Text → Option Text
cut_prefix s [] = some s
cut_prefix [] (d ∷ p) = none
cut_prefix (c ∷ s) (d ∷ p) = if c == d then cut_prefix s p else none

abbrev pub or_all : Option Text → Text → Text
or_all none rel = rel
or_all (some after) rel = after

unfoldable pub rel_from_mount : Text → Text → Text
rel_from_mount mount_rel_root rel =
    let r = normalize_rel clean rel in
    let m = normalize_rel clean mount_rel_root in
    if text_beq m dot
    then r
    else if text_beq r m
    then dot
    else or_all (cut_prefix r (m ++ (slash ∷ []))) r

cut_prefix-append : (p s : Text) → cut_prefix (p ++ (slash ∷ s)) (p ++ (slash ∷ [])) ≡ some s
cut_prefix-append [] s = refl
cut_prefix-append (c ∷ p) s = simp ((==_iff c c).1 refl) (cut_prefix-append p s)

has_prefix-append : (p s : Text) → has_prefix (p ++ (slash ∷ s)) (p ++ (slash ∷ [])) ≡ true
unfolding has_prefix
has_prefix-append [] s = refl
has_prefix-append (c ∷ p) s = ground (arith, has_prefix-append p s)

ne-append : (p s : Text) → text_beq (p ++ (slash ∷ s)) p ≡ false
ne-append [] s = refl
ne-append (c ∷ p) s = ground (arith, ne-append p s)

-- A path of names, and the one made of two.
below : (m r : Text) → AllPlain m → AllPlain r → AllPlain (m ++ (slash ∷ r))
below m r hm hr = rw (split-append m r) (All-append Plain (split slash m) (split slash r) hm hr)

normalize-AllPlain : (a : Text) → AllPlain a → normalize_rel clean a ≡ a
unfolding normalize_rel split
normalize-AllPlain [] h = absurd (ground arith)
normalize-AllPlain (c ∷ a) h = clean-AllPlain (c ∷ a) h

normalize-dot : normalize_rel clean dot ≡ dot
unfolding normalize_rel clean split walk join
normalize-dot = refl

normalize_inside : (r : Text) → IsInside r → normalize_rel clean r ≡ r
normalize_inside r (inl root) = rw root normalize-dot
normalize_inside r (inr names) = normalize-AllPlain r names

some_text : (a : Text) → AllPlain a → is_empty a ≡ false
unfolding split
some_text [] h = absurd (ground arith)
some_text (c ∷ a) h = refl

path_join-some :
    (m r : Text)
    → is_empty m ≡ false
    → is_empty r ≡ false
    → path_join m r ≡ clean (m ++ (slash ∷ r))
path_join-some [] r h k = cc
path_join-some (c ∷ m) [] h k = cc
path_join-some (c ∷ m) (d ∷ r) h k = refl

join_rel-names : (m r : Text) → AllPlain m → AllPlain r → join_rel m r ≡ m ++ (slash ∷ r)
unfolding join_rel
join_rel-names m r hm hr =
    simp (ne_dot m hm, ne_dot r hr)
      (path_join-some m r (some_text m hm) (some_text r hr)
        ∙ clean-AllPlain (m ++ (slash ∷ r)) (below m r hm hr))

from_names :
    (m r : Text)
    → AllPlain m
    → AllPlain r
    → (rel_from_mount m (m ++ (slash ∷ r)) ≡ r) × (path_under_or_equal (m ++ (slash ∷ r)) m ≡ true)
unfolding rel_from_mount path_under_or_equal
from_names m r hm hr =
    let whole = normalize-AllPlain (m ++ (slash ∷ r)) (below m r hm hr) in
    let mount = normalize-AllPlain m hm in
    (
      simp (whole, mount, ne_dot m hm, ne-append m r, cut_prefix-append m r) refl,
      simp (whole, mount, ne_dot m hm, ne-append m r, has_prefix-append m r) refl,
    )

from_root :
    (r : Text)
    → normalize_rel clean r ≡ r
    → (rel_from_mount dot r ≡ r) × (path_under_or_equal r dot ≡ true)
unfolding rel_from_mount path_under_or_equal
from_root r h = (simp (normalize-dot, h) refl, simp normalize-dot refl)

from_mount : (m : Text) → AllPlain m → (rel_from_mount m m ≡ dot) × (path_under_or_equal m m ≡ true)
unfolding rel_from_mount path_under_or_equal
from_mount m h =
    let mount = normalize-AllPlain m h in
    (simp (mount, ne_dot m h, is_key_self m) refl, simp (mount, ne_dot m h, is_key_self m) refl)

join_rel-root : (r : Text) → join_rel dot r ≡ r
unfolding join_rel
join_rel-root r = refl

join_rel-mount : (m : Text) → AllPlain m → join_rel m dot ≡ m
unfolding join_rel
join_rel-mount m h = simp (ne_dot m h) refl

-- For a mount and a path below it that are each `.` or names alone: `relFromMount` takes the path
-- that `joinRel` makes of them back to the path below the mount, and `pathUnderOrEqual` finds it
-- under the mount.
pub rel_from_mount-join_rel :
    (mount rel : Text)
    → IsInside mount
    → IsInside rel
    → (rel_from_mount mount (join_rel mount rel) ≡ rel)
      × (path_under_or_equal (join_rel mount rel) mount ≡ true)
rel_from_mount-join_rel mount rel (inl root) inside =
    rw (root, join_rel-root rel) (from_root rel (normalize_inside rel inside))
rel_from_mount-join_rel mount rel (inr names) (inl root) =
    rw (root, join_rel-mount mount names) (from_mount mount names)
rel_from_mount-join_rel mount rel (inr names) (inr more) =
    rw (join_rel-names mount rel names more) (from_names mount rel names more)
