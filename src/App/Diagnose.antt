-- ===== src/App/Diagnose.antt =====
-- crates/rescue-tui/src/state.rs: the diagnostic of a failed kexec and the evidence snapshot. The
-- texts of the remedies are those of the source. The MOK walkthrough is an argument, from the
-- sibling key that was found (`none` for none) to its text, and so is the search for that key.
use aegis_boot.Prelude.{
  ℕ, Option, none, some, ◌++◌, Text, codes, decimal, ℤ, pos, negsuc, suc, get_elem?,
}
use aegis_boot.Iso.{DiscoveredIso}
use aegis_boot.Kexec.{
  KexecError, signature_rejected, lockdown_refused, unsupported_image, already_loaded,
  image_too_large, permission_denied, out_of_memory, unsupported, io, invalid_path,
}
use aegis_boot.Status.{SecureBootStatus, TpmStatus}
use aegis_boot.Screen.{Screen}
use aegis_boot.App.{AppState}
use aegis_boot.App.Cmdline.{effective_cmdline}

signed_decimal : ℤ → Text
signed_decimal (pos n) = decimal n
signed_decimal (negsuc n) = codes "-" ++ decimal (suc n)

errno_hint : Option ℤ → Option Text
unfolding signed_decimal
errno_hint none = none
errno_hint (some errno) = some (codes "Underlying errno = " ++ signed_decimal errno ++ codes ".")

-- `mok iso` is the text of `build_mokutil_remedy(iso)`.
unfoldable pub error_diagnostic_with_iso :
    (Option DiscoveredIso → Text) → KexecError → Option DiscoveredIso → Text × Option Text
unfolding errno_hint
error_diagnostic_with_iso mok signature_rejected iso =
    (codes "Kernel signature verification failed (KEXEC_SIG)", some (mok iso))
error_diagnostic_with_iso mok lockdown_refused iso = (
  codes "Operation refused by kernel lockdown",
  some (
      codes
        "This is by design under enforcing Secure Boot. The selected kernel cannot be booted on this system without an enrolled signing key."),
)
error_diagnostic_with_iso mok unsupported_image iso = (
  codes "Kernel image format not recognized",
  some (codes "The ISO's kernel is not a valid bzImage; this ISO is not supported."),
)
error_diagnostic_with_iso mok already_loaded iso = (
  codes "Another kexec image is already loaded",
  some (
      codes
        "Another kexec image is staged in this kernel. Run `kexec -u` to unload, or reboot the rescue stick fresh before retrying."),
)
error_diagnostic_with_iso mok image_too_large iso = (
  codes "Kernel image too large for kexec",
  some (
      codes
        "The ISO's kernel exceeds the kexec_file_load size limit. Try a smaller kernel variant (e.g. non-debug, non-bigmem build) on the same ISO."),
)
error_diagnostic_with_iso mok permission_denied iso = (
  codes "Permission denied opening kernel or initrd",
  some (
      codes
        "The operator could not read the kernel or initrd file. Check the ISO is mounted and the rescue process has read access."),
)
error_diagnostic_with_iso mok out_of_memory iso = (
  codes "Not enough memory to stage the kexec image",
  some (
      codes
        "The kernel could not allocate enough memory to load this image. Reboot to a fresh rescue state and try again."),
)
error_diagnostic_with_iso mok (io e) iso =
    (codes "System error: " ++ e.text, errno_hint e.raw_os_error)
error_diagnostic_with_iso mok (invalid_path p) iso =
    (codes "Invalid path supplied to kexec: " ++ p, none)
error_diagnostic_with_iso mok unsupported iso = (
  codes "kexec is only available on Linux",
  some (codes "rescue-tui is meant to run inside the signed Linux rescue initramfs."),
)

-- The ISO that the screen is about, and where the Error screen returns to.
abbrev failed_on : AppState → Option DiscoveredIso × ℕ
failed_on s = elim s.screen [
  | Screen.confirm selected ↦ (get_elem? s.isos selected, selected)
  | Screen.edit_cmdline selected _ _ ↦ (get_elem? s.isos selected, selected)
  | _ ↦ (none, 0)
]

unfoldable pub record_kexec_error : (Option DiscoveredIso → Text) → KexecError → AppState → AppState
record_kexec_error mok e s =
    let (iso, return_to) = failed_on s in
    let (message, remedy) = error_diagnostic_with_iso mok e iso in
    record s { screen = Screen.error message remedy return_to }

-- What `error_evidence_text` prints, before its layout.
pub record Evidence : Type 0 where
  pub diagnostic : Text
  pub remedy : Option Text
  pub secure_boot : SecureBootStatus
  pub tpm : TpmStatus
  pub iso : DiscoveredIso
  pub cmdline : Text

abbrev evidence_of : AppState → Text → Option Text → ℕ → Option Evidence
evidence_of s message remedy return_to = elim (get_elem? s.isos return_to) [
  | none ↦ none
  | some iso ↦ some (record {
    diagnostic = message;
    remedy = remedy;
    secure_boot = s.secure_boot;
    tpm = s.tpm;
    iso = iso;
    cmdline = effective_cmdline s return_to;
  })
]

unfoldable pub error_evidence : AppState → Option Evidence
error_evidence s = elim s.screen [
  | Screen.error message remedy return_to ↦ evidence_of s message remedy return_to
  | _ ↦ none
]
