-- ===== src/Verdict.antt =====
-- crates/rescue-tui/src/verdict.rs: the trust tiers of a row, the source and media axes, and which
-- tiers may boot. `short_hex` (crates/aegis-core/src/lib.rs) shortens the digests for display.
pub mod Gate
use aegis_boot.Prelude.{
  ℕ, suc, zero, ◌-◌, ◌+◌, Bool, true, false, ◌&&◌, ◌||◌, Option, none, some, List, [], ◌∷◌, ◌++◌,
  Text, codes, len, is_char_boundary, split_at, leb, if◌then◌else◌,
}
use aegis_boot.Iso.{
  DiscoveredIso, FailedIso, Distribution, Quirk, HashVerification, SignatureVerification, has_quirk,
  is_hash_verified, is_sig_verified, is_key_not_trusted, is_forged,
}
use aegis_boot.Status.{SecureBootStatus}

pub data TrustVerdict : Type 0 where
  operator_attested bare_unverified key_not_trusted : TrustVerdict
  parse_failed : (reason : Text) → TrustVerdict
  secure_boot_blocked : (reason : Text) → TrustVerdict
  hash_mismatch : (expected actual source : Text) → TrustVerdict

-- `while !s.is_char_boundary(end) { end -= 1; }`; offset 0 is a boundary.
back_to_boundary : Text → ℕ → ℕ
back_to_boundary s zero = zero
back_to_boundary s (suc n) =
    let back = back_to_boundary s n in if is_char_boundary s (suc n) then suc n else back

prefix_at : Text → ℕ → Text
prefix_at s i = elim (split_at s i) [ none ↦ [] | some (l, r) ↦ l ]

unfoldable pub short_hex : Text → Text
unfolding back_to_boundary prefix_at
short_hex s = if leb (len s) 14 then s else prefix_at s (back_to_boundary s 12) ++ codes "…"

-- `DistroLabel::label`
pub distro_label : Distribution → Text
distro_label Distribution.arch = codes "Arch Linux"
distro_label Distribution.debian = codes "Debian-family"
distro_label Distribution.fedora = codes "Fedora"
distro_label Distribution.red_hat = codes "RHEL-family"
distro_label Distribution.alpine = codes "Alpine Linux"
distro_label Distribution.nixos = codes "NixOS"
distro_label Distribution.windows = codes "Windows"
distro_label Distribution.unknown = codes "This ISO"

unfoldable pub is_bootable : TrustVerdict → Bool
is_bootable operator_attested = true
is_bootable bare_unverified = true
is_bootable key_not_trusted = true
is_bootable _ = false

abbrev pub is_enforcing : SecureBootStatus → Bool
is_enforcing SecureBootStatus.enforcing = true
is_enforcing _ = false

pub not_kexec_reason : DiscoveredIso → Text
not_kexec_reason iso =
    distro_label iso.distribution
    ++ codes
        " uses a boot protocol incompatible with kexec_file_load (Windows NT loader or equivalent); kexec would refuse"

pub unsigned_reason : DiscoveredIso → Text
unsigned_reason iso =
    distro_label iso.distribution
    ++ codes
        " ships an unsigned kernel; platform keyring under Secure Boot enforcement will reject kexec_file_load"

-- Past the tamper signals: tiers 5, 1, 3 and 2.
tier_of : DiscoveredIso → SecureBootStatus → TrustVerdict
tier_of iso secure_boot =
    if has_quirk Quirk.not_kexec_bootable iso.quirks
    then secure_boot_blocked (not_kexec_reason iso)
    else if has_quirk Quirk.unsigned_kernel iso.quirks && is_enforcing secure_boot
    then secure_boot_blocked (unsigned_reason iso)
    else if is_sig_verified iso.signature_verification || is_hash_verified iso.hash_verification
    then operator_attested
    else if is_key_not_trusted iso.signature_verification
    then key_not_trusted
    else bare_unverified

unless_forged : SignatureVerification → TrustVerdict → TrustVerdict
unless_forged (SignatureVerification.forged sig_path) tier =
    hash_mismatch (codes "(minisign signer's recorded digest)")
      (codes "(mismatched digest of ISO bytes)") sig_path
unless_forged _ tier = tier

unless_mismatch : HashVerification → TrustVerdict → TrustVerdict
unless_mismatch (HashVerification.mismatch actual expected source) tier =
    hash_mismatch (short_hex expected) (short_hex actual) source
unless_mismatch _ tier = tier

unfoldable pub from_discovered : DiscoveredIso → SecureBootStatus → TrustVerdict
unfolding tier_of unless_forged unless_mismatch
from_discovered iso secure_boot =
    unless_mismatch iso.hash_verification
      (unless_forged iso.signature_verification (tier_of iso secure_boot))

unfoldable pub from_failed : FailedIso → TrustVerdict
from_failed failed = parse_failed failed.reason

pub data SourceVerdict : Type 0 where
  verified key_not_trusted tampered bare : SourceVerdict

unfoldable pub source_verdict : DiscoveredIso → SourceVerdict
source_verdict iso =
    if is_forged iso.signature_verification
    then SourceVerdict.tampered
    else if is_sig_verified iso.signature_verification || is_hash_verified iso.hash_verification
    then SourceVerdict.verified
    else if is_key_not_trusted iso.signature_verification
    then SourceVerdict.key_not_trusted
    else SourceVerdict.bare

pub data MediaVerdict : Type 0 where
  verified mismatch unverified : MediaVerdict

abbrev media_of_hash : HashVerification → MediaVerdict
media_of_hash (HashVerification.verified _ _) = MediaVerdict.verified
media_of_hash (HashVerification.mismatch _ _ _) = MediaVerdict.mismatch
media_of_hash _ = MediaVerdict.unverified

unfoldable pub media_verdict : DiscoveredIso → MediaVerdict
media_verdict iso =
    if is_sig_verified iso.signature_verification
    then MediaVerdict.verified
    else if is_forged iso.signature_verification
    then MediaVerdict.mismatch
    else media_of_hash iso.hash_verification
