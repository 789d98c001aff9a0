-- ===== src/Tests/Probes.antt =====
-- The theorems on the checks of discovery, applied to an ISO with a signature and to a Windows medium.
use aegis_boot.Prelude.{
  ℕ, true, false, Option, none, some, [], ◌∷◌, Text, codes, text_eq, if◌then◌else◌,
}
use aegis_boot.Prelude.Answers.{Answer, value}
use aegis_boot.Iso.{HashVerification, SignatureVerification, IsoSidecar, windows}
use aegis_boot.Parser.{normal, BootEntry}
use aegis_boot.Probe.Minisign.{Host, Check}

-- One key file that only its owner may write; keys, signatures and comments are their texts.
abbrev one_key : Host Text Text
one_key = record {
  trusted_keys_var = some (codes "/k.pub");
  is_dir = λ p. false;
  is_file = λ p. true;
  mode = λ p. some 420;
  children = λ p. none;
  read_to_string = λ p. some (codes "RWS");
  read = λ p. value (1 ∷ 2 ∷ []);
  decode_key = λ t. some t;
  decode_signature = λ t. value t;
  trusted_comment = λ t. t;
  verify = λ k bytes sig. if text_eq k sig then Check.accepted else Check.other_error;
}

abbrev iso : Text
iso = codes "/isos/a.iso"

abbrev setup : BootEntry
setup = record {
  label = codes "Windows (not kexec-bootable)";
  kernel = normal (codes "bootmgr") ∷ [];
  initrd = none;
  kernel_args = none;
  distribution = windows;
  source_iso = codes "win11.iso";
  pretty_name = none;
}

abbrev no_hash : Text → Answer HashVerification
no_hash p = value HashVerification.not_present

abbrev no_signature : Text → SignatureVerification
no_signature p = SignatureVerification.not_present

abbrev no_size : Text → Option ℕ
no_size p = none

abbrev no_sidecar : Text → Answer (Option IsoSidecar)
no_sidecar p = value none
