-- ===== src/Tests/Version.antt =====
-- internal/version: releases in order.
use rmtx.Base.{◌≡◌, refl, Bool, false, some, ℕ}
use rmtx.Base.Text.{less, codes, split, cut, trim_space, has_prefix, atoi, compare_text}
use rmtx.Version.{
  is_digit, parse_digits, parse_numeric_part, valid_dot_identifiers, parse_core, parse_tail,
  parse_prefixed, parse_release, compare_prerelease_identifier, compare_identifiers,
  compare_prerelease, compare_versions, compare_release,
}
use rmtx.Version.Order.{Chains, compare_release-Chains}

-- No digits beyond Latin-1.
abbrev narrow : ℕ → Bool
narrow c = false

prerelease_run : compare_release narrow (codes "v1.2.0-rc.2") (codes " v1.2.0-rc.10") ≡ some less
unfolding compare_release parse_release parse_prefixed trim_space parse_tail cut parse_core split
    parse_numeric_part parse_digits is_digit atoi valid_dot_identifiers compare_versions
    compare_prerelease compare_identifiers compare_prerelease_identifier compare_text has_prefix
prerelease_run = refl

release_run : compare_release narrow (codes " v1.2.0-rc.10") (codes "v1.2.0") ≡ some less
unfolding compare_release parse_release parse_prefixed trim_space parse_tail cut parse_core split
    parse_numeric_part parse_digits is_digit atoi valid_dot_identifiers compare_versions
    compare_prerelease compare_identifiers compare_prerelease_identifier compare_text has_prefix
release_run = refl

skip_run : compare_release narrow (codes "v1.2.0-rc.2") (codes "v1.2.0") ≡ some less
unfolding compare_release parse_release parse_prefixed trim_space parse_tail cut parse_core split
    parse_numeric_part parse_digits is_digit atoi valid_dot_identifiers compare_versions
    compare_prerelease compare_identifiers compare_prerelease_identifier compare_text has_prefix
skip_run = refl

compare_release-Chains_example : Chains less less less
compare_release-Chains_example =
    compare_release-Chains narrow (codes "v1.2.0-rc.2") (codes " v1.2.0-rc.10") (codes "v1.2.0")
      less less less prerelease_run release_run skip_run
