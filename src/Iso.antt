-- ===== src/Iso.antt =====
-- crates/iso-probe/src/{lib,signature,minisign,sidecar}.rs and crates/iso-parser/src/lib.rs: what
-- discovery hands to the rescue TUI. Paths and strings are texts.
use aegis_boot.Prelude.{ℕ, Bool, true, false, ◌||◌, Option, List, [], ◌∷◌, Text, codes}

pub data Distribution : Type 0 where
  arch debian fedora red_hat alpine nixos windows unknown : Distribution

pub data Quirk : Type 0 where
  unsigned_kernel bios_only requires_whole_device_write : Quirk
  cross_distro_kexec_refused not_kexec_bootable : Quirk

pub data HashVerification : Type 0 where
  -- digest, source
  verified : Text → Text → HashVerification
  -- actual, expected, source
  mismatch : Text → Text → Text → HashVerification
  not_present : HashVerification
  -- source, reason
  unreadable : Text → Text → HashVerification

pub data SignatureVerification : Type 0 where
  -- key_id, sig_path
  verified : Text → Text → SignatureVerification
  -- key_id
  key_not_trusted : Text → SignatureVerification
  -- sig_path
  forged : Text → SignatureVerification
  not_present : SignatureVerification
  -- reason
  error : Text → SignatureVerification

pub record IsoSidecar : Type 0 where
  pub display_name : Option Text
  pub description : Option Text
  pub version : Option Text
  pub category : Option Text
  pub last_verified_at : Option Text
  pub last_verified_on : Option Text
  pub notes : Option Text

pub record DiscoveredIso : Type 0 where
  pub iso_path : Text
  pub label : Text
  pub pretty_name : Option Text
  pub distribution : Distribution
  pub kernel : Text
  pub initrd : Option Text
  pub cmdline : Option Text
  pub quirks : List Quirk
  pub hash_verification : HashVerification
  pub signature_verification : SignatureVerification
  pub size_bytes : Option ℕ
  pub contains_installer : Bool
  pub sidecar : Option IsoSidecar

pub data FailureKind : Type 0 where
  io_error mount_failed no_boot_entries : FailureKind

pub record FailedIso : Type 0 where
  pub iso_path : Text
  pub reason : Text
  pub kind : FailureKind

-- `PartialEq` on quirks, for `quirks.contains`.
abbrev pub quirk_eq : Quirk → Quirk → Bool
quirk_eq unsigned_kernel unsigned_kernel = true
quirk_eq bios_only bios_only = true
quirk_eq requires_whole_device_write requires_whole_device_write = true
quirk_eq cross_distro_kexec_refused cross_distro_kexec_refused = true
quirk_eq not_kexec_bootable not_kexec_bootable = true
quirk_eq _ _ = false

-- `iso.quirks.contains(&q)`
unfoldable pub has_quirk : Quirk → List Quirk → Bool
has_quirk q [] = false
has_quirk q (p ∷ ps) = quirk_eq p q || has_quirk q ps

-- The `matches!` tests on the two verifications.
abbrev pub is_hash_mismatch : HashVerification → Bool
is_hash_mismatch (mismatch _ _ _) = true
is_hash_mismatch _ = false

abbrev pub is_hash_verified : HashVerification → Bool
is_hash_verified (HashVerification.verified _ _) = true
is_hash_verified _ = false

abbrev pub is_forged : SignatureVerification → Bool
is_forged (forged _) = true
is_forged _ = false

abbrev pub is_sig_verified : SignatureVerification → Bool
is_sig_verified (SignatureVerification.verified _ _) = true
is_sig_verified _ = false

abbrev pub is_key_not_trusted : SignatureVerification → Bool
is_key_not_trusted (key_not_trusted _) = true
is_key_not_trusted _ = false

-- The name that `{:?}` prints, by which the list is grouped.
pub debug_name : Distribution → Text
debug_name arch = codes "Arch"
debug_name debian = codes "Debian"
debug_name fedora = codes "Fedora"
debug_name red_hat = codes "RedHat"
debug_name alpine = codes "Alpine"
debug_name nixos = codes "NixOS"
debug_name windows = codes "Windows"
debug_name unknown = codes "Unknown"
