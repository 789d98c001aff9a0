-- ===== src/Verdict/Gate.antt =====
-- crates/rescue-tui/src/verdict.rs and state.rs: the verdict that a row shows beside the gates that
-- the keys obey.
use aegis_boot.Prelude.{◌≡◌, ◌↔◌, ◌⊎◌, true, false, ◌&&◌, ◌||◌, not, arith}
use aegis_boot.Iso.{DiscoveredIso, Quirk, has_quirk, is_hash_mismatch, is_sig_verified}
use aegis_boot.Status.{SecureBootStatus}
use aegis_boot.App.Gate.{is_blocked}
use aegis_boot.Verdict.{
  SourceVerdict, MediaVerdict, is_bootable, is_enforcing, from_discovered, source_verdict,
  media_verdict,
}

-- A row is shown as bootable exactly when no hard block holds its ISO and its kernel is not unsigned
-- under an enforcing Secure Boot.
pub bootable_iff :
    (iso : DiscoveredIso) (sb : SecureBootStatus)
    → is_bootable (from_discovered iso sb)
      ≡ not (is_blocked iso || (has_quirk Quirk.unsigned_kernel iso.quirks && is_enforcing sb))
unfolding is_bootable from_discovered is_blocked
bootable_iff iso sb = ground arith

-- Of an ISO without the quirk: it is blocked exactly when the source axis shows tampering, or the
-- media axis shows a mismatch, or a mismatched hash stands beside a verified signature, which
-- neither axis shows.
pub blocked_iff_tamper :
    (iso : DiscoveredIso)
    → has_quirk Quirk.not_kexec_bootable iso.quirks ≡ false
    → (is_blocked iso ≡ true) ↔ (
        (source_verdict iso ≡ SourceVerdict.tampered)
        ⊎ (media_verdict iso ≡ MediaVerdict.mismatch)
        ⊎ ((is_hash_mismatch iso.hash_verification ≡ true)
            × (is_sig_verified iso.signature_verification ≡ true)))
unfolding is_blocked source_verdict media_verdict
blocked_iff_tamper iso h = ground arith
