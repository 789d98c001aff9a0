-- ===== src/Tests/Screens.antt =====
-- The theorems on the screens' methods, the editor and the status, applied to concrete states.
use aegis_boot.Prelude.{◌≡◌, refl, ◌&&◌, ◌||◌, not, none, some, List, [], ◌∷◌, codes, arith}
use aegis_boot.Iso.{
  HashVerification, Quirk, has_quirk, is_hash_mismatch, is_hash_verified, is_forged,
  is_sig_verified,
}
use aegis_boot.Screen.{Screen, CatalogOp}
use aegis_boot.Status.{SecureBootStatus}
use aegis_boot.Rate.{DownloadRateTracker, second}
use aegis_boot.Verdict.{is_bootable, is_enforcing, from_discovered}
use aegis_boot.Verdict.Gate.{bootable_iff}
use aegis_boot.App.{AppState, new}
use aegis_boot.App.Gate.{is_kexec_blocked, is_degraded_trust, is_blocked, verify_finish}
use aegis_boot.App.Gate.Verified.{verify_finish-gates}
use aegis_boot.App.Cmdline.Cursor.{Zipper, Edit, concretize, edits, meanings, edits_lem}
use aegis_boot.Tests.Fixtures.{three_isos, firmware, entry, debian, alpine}

abbrev at_start : AppState
at_start = new firmware three_isos

-- `ab|c`, then a backspace, an `é` and the End key.
abbrev ab_c : Zipper
ab_c = record { before = codes "ba"; after = codes "c" }

abbrev some_edits : List Edit
some_edits = Edit.backspace ∷ Edit.insert b'z' ∷ Edit.end_key ∷ Edit.left ∷ []

edits_lem_example :
    edits some_edits (concretize ab_c) ≡ some (concretize (meanings some_edits ab_c))
edits_lem_example = edits_lem some_edits ab_c

bootable_iff_example :
    is_bootable (from_discovered debian SecureBootStatus.enforcing)
    ≡ not (
        is_blocked debian
        || (has_quirk Quirk.unsigned_kernel debian.quirks
            && is_enforcing SecureBootStatus.enforcing))
bootable_iff_example = bootable_iff debian SecureBootStatus.enforcing

-- The hash of `alpine` is found to differ.
abbrev mismatch_found : HashVerification
mismatch_found = HashVerification.mismatch (codes "aa") (codes "bb") (codes "SHA256SUMS")

abbrev verifying_alpine : AppState
verifying_alpine = record at_start { screen = Screen.verifying 1 9 9 none }

verify_finish-gates_example :
    (is_kexec_blocked (verify_finish mismatch_found verifying_alpine) 1 ≡ (
      has_quirk Quirk.not_kexec_bootable alpine.quirks
      || (is_hash_mismatch mismatch_found || is_forged alpine.signature_verification)))
    × (is_degraded_trust (verify_finish mismatch_found verifying_alpine) 1
        ≡ not (is_sig_verified alpine.signature_verification || is_hash_verified mismatch_found))
    × (is_kexec_blocked (verify_finish mismatch_found verifying_alpine) 0
        ≡ is_kexec_blocked verifying_alpine 0)
    × (is_degraded_trust (verify_finish mismatch_found verifying_alpine) 0
        ≡ is_degraded_trust verifying_alpine 0)
unfolding new
verify_finish-gates_example =
    verify_finish-gates verifying_alpine 1 0 9 9 none alpine mismatch_found refl refl (omega arith)

abbrev locked : AppState
locked = record at_start {
  screen = Screen.catalog_confirm entry 0 CatalogOp.connecting (Screen.list 0);
}

abbrev two_samples : DownloadRateTracker
two_samples = record { samples = (0, 0) ∷ (second, 100) ∷ [] }
