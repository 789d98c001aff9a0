-- ===== src/Tests/Checksums.antt =====
-- crates/iso-probe/src/signature.rs at an ISO that the file beside it gives another digest.
use mathlib.Core.List.{append-nil, append_assoc}
use aegis_boot.Prelude.{
  ℕ, ◌≡◌, refl, true, none, some, List, [], ◌∷◌, ◌++◌, Text, codes, to_ascii_lowercase,
  if◌then◌else◌, is_prefix, len, len_utf8,
}
use aegis_boot.Prelude.Answers.{value}
use aegis_boot.Iso.{SignatureVerification, fedora}
use aegis_boot.Parser.{normal, BootEntry}
use aegis_boot.App.Gate.{is_blocked}
use aegis_boot.Prelude.Decimal.{trim, trim_start, trim_end, is_whitespace}
use aegis_boot.Prelude.Parse.{all_hexdigits}
use aegis_boot.Fetch.Entry.{join}
use aegis_boot.Fetch.Sums.{is_sha256_hex}
use aegis_boot.Probe.{sidecar_path}
use aegis_boot.Fetch.Sha256.{Hasher, hex_lower}
use aegis_boot.Fetch.Sha256.Streamed.{IsStreaming}
use aegis_boot.Probe.Rows.{boot_entry_to_discovered}
use aegis_boot.Probe.Checksum.{Media, text, absent, verify_iso_hash, parse_sha256sum_line}
use aegis_boot.Probe.Checksum.Judged.{IsVerdict, verify_iso_hash-IsVerdict, tampered_is_blocked}

-- A hash of 32 times the last byte.
abbrev last : ℕ → List ℕ → ℕ
last d [] = d
last d (b ∷ bs) = last b bs

abbrev thirty_two : ℕ → List ℕ
thirty_two b =
    b ∷ b ∷ b ∷ b ∷ b ∷ b ∷ b ∷ b ∷ b ∷ b ∷ b ∷ b ∷ b ∷ b ∷ b ∷ b ∷ b ∷ b ∷ b ∷ b ∷ b ∷ b ∷ b ∷ b
    ∷ b ∷ b ∷ b ∷ b ∷ b ∷ b ∷ b ∷ b ∷ []

abbrev last_byte : Hasher (List ℕ)
last_byte = record { new = []; update = λ s b. s ++ b; finalize = λ s. thirty_two (last 0 s) }

last_byte-IsStreaming : IsStreaming last_byte
last_byte-IsStreaming = record { update_nil = append-nil; update_append = append_assoc }

abbrev all_tens : Text
all_tens = codes "1010101010101010101010101010101010101010101010101010101010101010"

-- Two reads, the last byte being 0x11; the published digest is that of a last byte of 0x10.
abbrev media : Media
media = record {
  read_to_string = λ p. if is_prefix (codes "/isos/f.iso.") p then text all_tens else absent;
  open_file = λ p. value (value (1 ∷ []) ∷ value (17 ∷ []) ∷ []);
  size = λ p. some 2;
  elapsed = λ n. true;
}

verify_iso_hash-IsVerdict_example :
    IsVerdict last_byte last_byte-IsStreaming media
      (codes "/isos/f.iso")
      (verify_iso_hash last_byte media (codes "/isos/f.iso"))
verify_iso_hash-IsVerdict_example =
    verify_iso_hash-IsVerdict last_byte last_byte-IsStreaming media (codes "/isos/f.iso")

abbrev entry : BootEntry
entry = record {
  label = codes "Fedora";
  kernel = normal (codes "vmlinuz") ∷ [];
  initrd = none;
  kernel_args = none;
  distribution = fedora;
  source_iso = codes "f.iso";
  pretty_name = none;
}

tampered_is_blocked_example :
    is_blocked (
      boot_entry_to_discovered
        (verify_iso_hash last_byte media)
        (λ p. SignatureVerification.not_present)
        (λ p. some 2)
        (λ p. value none)
        entry
        (codes "/isos"))
    ≡ true
unfolding parse_sha256sum_line is_prefix sidecar_path join is_sha256_hex len trim_start trim
    trim_end is_whitespace len_utf8 all_hexdigits to_ascii_lowercase hex_lower
tampered_is_blocked_example =
    tampered_is_blocked last_byte last_byte-IsStreaming media
      (λ p. SignatureVerification.not_present) (λ p. some 2) (λ p. value none) entry (codes "/isos")
      all_tens all_tens (1 ∷ 17 ∷ []) refl refl (value (1 ∷ []) ∷ value (17 ∷ []) ∷ [], refl, refl)
      refl
