-- ===== src/Fetch/Verify.antt =====
-- crates/aegis-fetch/src/verify.rs: the checks of a vendor's signature. The OpenPGP library is the
-- argument `Pgp`.
pub mod Accepted
use aegis_boot.Prelude.{
  ℕ, ◌||◌, not, Bool, Option, none, some, List, [], ◌∷◌, ◌++◌, Text, codes, contains, is_prefix,
  if◌then◌else◌,
}
use aegis_boot.Prelude.Answers.{Answer, value, failure}
use aegis_boot.Fetch.{FetchError, Outcome, ok, err, ◌>>=◌}

-- Certificates, clear-signed envelopes and detached signatures, parsed and checked. `fingerprint` is
-- the one in upper-case hexadecimal.
pub record Pgp (Cert Envelope Signature : Type 0) : Type 0 where
  pub armored_certs : List ℕ → Answer (List Cert)
  pub binary_certs : List ℕ → Answer (List Cert)
  pub envelope : Text → Answer Envelope
  pub signed_text : Envelope → Text
  pub verify_envelope : Envelope → Cert → Answer (Unit {0})
  pub armored_signature : List ℕ → Answer Signature
  pub binary_signature : List ℕ → Answer Signature
  pub verify : Signature → Cert → List ℕ → Answer (Unit {0})
  pub fingerprint : Cert → Text

pub record VerifiedClearsign : Type 0 where
  pub signed_text : Text
  pub fingerprint_hex : Text

unfoldable pub is_armored : List ℕ → Bool
is_armored bytes = is_prefix (codes "-----BEGIN PGP") bytes

abbrev rejected : {A : Type 0} → Text → Text → Outcome A
rejected slug detail = err (FetchError.signature_verify_failed slug detail)

-- `from_string`'s error, told apart from a failed check.
envelope_error : (clearsigned_text slug e : Text) → FetchError
envelope_error text slug e =
    if contains e (codes "clearsigned")
      || contains e (codes "BEGIN PGP SIGNED")
      || not (contains text (codes "-----BEGIN PGP SIGNED MESSAGE-----"))
    then FetchError.not_clearsigned
    else FetchError.signature_verify_failed slug (codes "parse clearsigned envelope: " ++ e)

abbrev last_error : Option Text → Text
last_error none = codes "none"
last_error (some e) = e

module _ {Cert Envelope Signature : Type 0} (pgp : Pgp Cert Envelope Signature) where
  abbrev nonempty : Text → List Cert → Outcome (List Cert)
  nonempty slug [] = rejected slug (codes "no certs parsed from vendor keyring")
  nonempty slug (c ∷ cs) = ok (c ∷ cs)

  unfoldable pub parse_certs : (bytes : List ℕ) (slug : Text) → Outcome (List Cert)
  unfolding is_armored
  parse_certs bytes slug =
      let parsed = if is_armored bytes then pgp.armored_certs bytes else pgp.binary_certs bytes in
      elim parsed [
        | failure e ↦ rejected slug (codes "parse vendor cert: " ++ e)
        | value certs ↦ nonempty slug certs
      ]

  -- The loop over the certificates; the last error is told when none accepts.
  unfoldable pub try_each :
      (slug op : Text) → (Cert → Answer (Unit {0})) → Option Text → List Cert → Outcome Text
  try_each slug op verify_one last [] = rejected slug (
      op
      ++ codes ": no cert in keyring matched signature (last error: "
      ++ last_error last
      ++ codes ")")
  try_each slug op verify_one last (c ∷ cs) = elim (verify_one c) [
    | value _ ↦ ok (pgp.fingerprint c)
    | failure e ↦ try_each slug op verify_one (some e) cs
  ]

  unfoldable pub try_verify_against_each :
      List Cert → (slug op : Text) → (Cert → Answer (Unit {0})) → Outcome Text
  unfolding try_each
  try_verify_against_each certs slug op verify_one = try_each slug op verify_one none certs

  unfoldable pub parse_detached_sig : (bytes : List ℕ) (slug : Text) → Outcome Signature
  unfolding is_armored
  parse_detached_sig bytes slug =
      let parsed =
        if is_armored bytes then pgp.armored_signature bytes else pgp.binary_signature bytes in
      elim parsed [
        | failure e ↦ rejected slug (codes "parse detached signature: " ++ e)
        | value sig ↦ ok sig
      ]

  envelope_of : (text slug : Text) → Outcome Envelope
  unfolding envelope_error
  envelope_of text slug = elim (pgp.envelope text) [
    | failure e ↦ err (envelope_error text slug e)
    | value msg ↦ ok msg
  ]

  unfoldable pub verify_clearsigned_sums :
      (cert_bytes : List ℕ) (clearsigned_text slug : Text) → Outcome VerifiedClearsign
  unfolding parse_certs envelope_of try_verify_against_each
  verify_clearsigned_sums cert_bytes text slug = do
    certs ← parse_certs cert_bytes slug
    msg ← envelope_of text slug
    fp ← try_verify_against_each certs slug (codes "clearsign verify") (pgp.verify_envelope msg)
    ok (record { signed_text = pgp.signed_text msg; fingerprint_hex = fp })

  unfoldable pub verify_detached_sig_on_sums :
      (cert_bytes sig_bytes sums_bytes : List ℕ) (slug : Text) → Outcome Text
  unfolding parse_certs parse_detached_sig try_verify_against_each
  verify_detached_sig_on_sums cert_bytes sig_bytes sums_bytes slug = do
    certs ← parse_certs cert_bytes slug
    sig ← parse_detached_sig sig_bytes slug
    try_verify_against_each certs slug (codes "detached-on-sums verify")
        (λ c. pgp.verify sig c sums_bytes)

  -- The ISO is there or not; `reopen` is what opening it for a certificate answers.
  abbrev on_iso :
      (cert_bytes sig_bytes : List ℕ) (iso_path slug : Text)
      → (Cert → Option Text)
      → Option (List ℕ)
      → List Cert
      → Signature
      → Outcome Text
  on_iso cert_bytes sig_bytes iso_path slug reopen none certs sig =
      err (FetchError.filesystem (codes "iso not found for sig verify: " ++ iso_path))
  on_iso cert_bytes sig_bytes iso_path slug reopen (some iso) certs sig =
      try_verify_against_each certs slug (codes "detached-on-iso verify") (λ c. elim (reopen c) [
        | some e ↦ failure (codes "open " ++ iso_path ++ codes ": " ++ e)
        | none ↦ pgp.verify sig c iso
      ])

  unfoldable pub verify_detached_sig_on_iso :
      (cert_bytes sig_bytes : List ℕ) (iso_path slug : Text)
      → (Cert → Option Text)
      → Option (List ℕ)
      → Outcome Text
  unfolding parse_certs parse_detached_sig try_verify_against_each
  verify_detached_sig_on_iso cert_bytes sig_bytes iso_path slug reopen iso = do
    certs ← parse_certs cert_bytes slug
    sig ← parse_detached_sig sig_bytes slug
    on_iso cert_bytes sig_bytes iso_path slug reopen iso certs sig
