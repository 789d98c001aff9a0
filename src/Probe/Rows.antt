-- ===== src/Probe/Rows.antt =====
-- crates/iso-probe/src/lib.rs: the row that discovery makes of a boot entry. What the two checks, the
-- file's size and the sidecar's reading answer are arguments.
use aegis_boot.Prelude.{
  ℕ, ◌≡◌, refl, Bool, true, false, ◌||◌, Option, none, some, List, [], ◌∷◌, Text, codes,
  to_ascii_lowercase, contains, file_name, arith,
}
use aegis_boot.Prelude.Answers.{Answer, value, failure}
use aegis_boot.Iso.{
  Distribution, arch, debian, fedora, red_hat, alpine, nixos, windows, unknown, Quirk,
  unsigned_kernel, cross_distro_kexec_refused, not_kexec_bootable, has_quirk, HashVerification,
  SignatureVerification, IsoSidecar, DiscoveredIso, FailedIso, FailureKind, is_hash_mismatch,
  is_forged,
}
use aegis_boot.Parser.{FilePath, BootEntry, ScanFailure, ScanFailureKind, path_text, has_any}
use aegis_boot.Fetch.Entry.{join}
use aegis_boot.App.Gate.{is_blocked}

unfoldable pub lookup_quirks : Distribution → List Quirk
lookup_quirks debian = []
lookup_quirks fedora = cross_distro_kexec_refused ∷ []
lookup_quirks red_hat = cross_distro_kexec_refused ∷ []
lookup_quirks arch = unsigned_kernel ∷ []
lookup_quirks alpine = unsigned_kernel ∷ []
lookup_quirks nixos = unsigned_kernel ∷ []
lookup_quirks unknown = unsigned_kernel ∷ []
lookup_quirks windows = not_kexec_bootable ∷ []

abbrev installer_markers : List Text
installer_markers =
    codes "live-server"
    ∷ codes "live-desktop"
    ∷ codes "desktop-amd64"
    ∷ codes "server-amd64"
    ∷ codes "netinst"
    ∷ codes "netinstall"
    ∷ codes "xubuntu"
    ∷ codes "kubuntu"
    ∷ codes "lubuntu"
    ∷ codes "workstation"
    ∷ codes "server-"
    ∷ codes "-boot.iso"
    ∷ codes "dvd-"
    ∷ codes "dvd1"
    ∷ codes "everything"
    ∷ codes "netboot"
    ∷ codes "opensuse"
    ∷ codes "tumbleweed"
    ∷ codes "leap"
    ∷ codes "anaconda"
    ∷ codes "windows"
    ∷ codes "win10"
    ∷ codes "win11"
    ∷ []

unfoldable pub detect_installer : Text → Bool
unfolding file_name to_ascii_lowercase contains
detect_installer iso_path = elim (file_name iso_path) [
  | none ↦ false
  | some name ↦ has_any (to_ascii_lowercase name) installer_markers
]

abbrev pub hash_or_unreadable : (iso_path : Text) → Answer HashVerification → HashVerification
hash_or_unreadable iso_path (value v) = v
hash_or_unreadable iso_path (failure e) = HashVerification.unreadable iso_path e

abbrev sidecar_or_none : Answer (Option IsoSidecar) → Option IsoSidecar
sidecar_or_none (value s) = s
sidecar_or_none (failure e) = none

abbrev text_of_path : Option FilePath → Option Text
text_of_path none = none
text_of_path (some p) = some (path_text p)

unfoldable pub boot_entry_to_discovered :
    (hash : Text → Answer HashVerification) (signature : Text → SignatureVerification)
    (size : Text → Option ℕ) (sidecar : Text → Answer (Option IsoSidecar))
    → BootEntry
    → (search_root : Text) → DiscoveredIso
unfolding lookup_quirks detect_installer path_text join
boot_entry_to_discovered hash signature size sidecar entry search_root =
    let iso_path = join search_root entry.source_iso in
    record {
      iso_path = iso_path;
      label = entry.label;
      pretty_name = entry.pretty_name;
      distribution = entry.distribution;
      kernel = path_text entry.kernel;
      initrd = text_of_path entry.initrd;
      cmdline = entry.kernel_args;
      quirks = lookup_quirks entry.distribution;
      hash_verification = hash_or_unreadable iso_path (hash iso_path);
      signature_verification = signature iso_path;
      size_bytes = size iso_path;
      contains_installer = detect_installer iso_path;
      sidecar = sidecar_or_none (sidecar iso_path);
    }

unfoldable pub failure_kind : ScanFailureKind → FailureKind
failure_kind ScanFailureKind.io_error = FailureKind.io_error
failure_kind ScanFailureKind.mount_failed = FailureKind.mount_failed
failure_kind ScanFailureKind.no_boot_entries = FailureKind.no_boot_entries

unfoldable pub failed_iso : ScanFailure → FailedIso
unfolding failure_kind path_text
failed_iso f = record {
  iso_path = path_text f.iso_path;
  reason = f.reason;
  kind = failure_kind f.kind;
}

abbrev pub is_windows : Distribution → Bool
is_windows windows = true
is_windows _ = false

quirks_lem : (d : Distribution) → has_quirk not_kexec_bootable (lookup_quirks d) ≡ is_windows d
unfolding lookup_quirks has_quirk
quirks_lem arch = refl
quirks_lem debian = refl
quirks_lem fedora = refl
quirks_lem red_hat = refl
quirks_lem alpine = refl
quirks_lem nixos = refl
quirks_lem windows = refl
quirks_lem unknown = refl

-- Of the row that discovery makes of a boot entry, the TUI blocks the kexec exactly when the entry is
-- one of Windows, or the check of the checksum found a mismatch, or that of the signature a forgery; a
-- checksum that cannot be read does not block.
pub is_blocked-boot_entry_to_discovered :
    (hash : Text → Answer HashVerification) (signature : Text → SignatureVerification)
    (size : Text → Option ℕ) (sidecar : Text → Answer (Option IsoSidecar)) (e : BootEntry)
    (root : Text)
    → is_blocked (boot_entry_to_discovered hash signature size sidecar e root) ≡ (
        is_windows e.distribution
        || is_hash_mismatch
            (hash_or_unreadable (join root e.source_iso) (hash (join root e.source_iso)))
        || is_forged (signature (join root e.source_iso)))
unfolding is_blocked boot_entry_to_discovered
is_blocked-boot_entry_to_discovered hash signature size sidecar e root =
    ground (arith, quirks_lem e.distribution)
