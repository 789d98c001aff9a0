-- ===== src/Probe/Minisign/Trusted.antt =====
-- crates/iso-probe/src/minisign.rs: what stands behind each verdict.
use aegis_boot.Prelude.{ℕ, ◌≡◌, Bool, true, false, ◌||◌, some, List, [], ◌∷◌, Text}
use aegis_boot.Prelude.Decimal.{trim}
use aegis_boot.Iso.{SignatureVerification}
use aegis_boot.Probe.Minisign.{Host, Check, accepted, invalid_signature, is_path_safely_owned}

abbrev pub is_accepted : Check → Bool
is_accepted accepted = true
is_accepted _ = false

abbrev pub is_invalid : Check → Bool
is_invalid invalid_signature = true
is_invalid _ = false

module _ {Key Signature : Type 0} (host : Host Key Signature) where
  -- A key from a file that neither the group nor the world may write.
  pub record IsTrustedKey (key : Key) (source : Text) : Type 0 where
    pub text : Text
    pub safe : is_path_safely_owned host source ≡ true
    pub contents : host.read_to_string source ≡ some text
    pub decoded : host.decode_key (trim text) ≡ some key

  abbrev AllTrusted : List (Key × Text) → Type 0
  AllTrusted [] = Unit
  AllTrusted ((key, source) ∷ keys) = IsTrustedKey key source × AllTrusted keys

  -- Whether the check under some key answers so.
  abbrev pub some_key : (Check → Bool) → List ℕ → Signature → List (Key × Text) → Bool
  some_key test bytes sig [] = false
  some_key test bytes sig ((k, s) ∷ keys) =
      test (host.verify k bytes sig) || some_key test bytes sig keys

  -- A verdict on a signature and the bytes, under some keys.
  abbrev pub IsVerdict :
      (sig_path : Text)
      → List ℕ
      → Signature
      → Bool
      → List (Key × Text)
      → SignatureVerification
      → Type 0
  IsVerdict sig_path bytes sig saw keys (SignatureVerification.verified id source) =
      (key : Key) × IsTrustedKey key source × (host.verify key bytes sig ≡ accepted)
  IsVerdict sig_path bytes sig saw keys (SignatureVerification.forged p) =
      (p ≡ sig_path)
      × (some_key is_accepted bytes sig keys ≡ false)
      × ((saw || some_key is_invalid bytes sig keys) ≡ true)
  IsVerdict sig_path bytes sig saw keys (SignatureVerification.key_not_trusted id) =
      (some_key is_accepted bytes sig keys ≡ false)
      × ((saw || some_key is_invalid bytes sig keys) ≡ false)
  IsVerdict sig_path bytes sig saw keys SignatureVerification.not_present = ⊥
  IsVerdict sig_path bytes sig saw keys (SignatureVerification.error reason) = ⊥
