-- ===== src/Host/TrustStore/Trusts.antt =====
-- Whom a host trusts after a pairing.
use rmtx.Base.{◌≡◌, Bool, not, ◌&&◌, ◌||◌, Result, ok, err}
use rmtx.Base.Text.{Text, text_beq, trim_space, is_empty}
use rmtx.Host.TrustStore.{TrustStore, TrustError, Disk, is_trusted, client_trusted}

module _ (fingerprint previous label : Text) where
  -- Who is trusted afterwards: the client, and whoever was trusted before, but for the client's
  -- previous identity and a blank one.
  abbrev pub trusted_after : Text → TrustStore → Bool
  trusted_after f store =
      text_beq (trim_space fingerprint) f
      || (is_trusted f store && not (is_empty f) && not (text_beq f (trim_space previous)))

  -- What a call makes of the store: `clientTrusted` answers for f.
  abbrev pub Replaces :
      Disk → Text → TrustStore → Result TrustError (Unit {0}) → TrustStore → Type 0
  Replaces later_disk f store (err e) store' = store' ≡ store
  Replaces later_disk f store (ok _) store' =
      client_trusted later_disk f store' ≡ ok (trusted_after f store)
