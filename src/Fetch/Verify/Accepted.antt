-- ===== src/Fetch/Verify/Accepted.antt =====
-- crates/aegis-fetch/src/verify.rs: what an accepted signature has passed.
use aegis_boot.Prelude.{
  ℕ, ◌≡◌, ◌⊎◌, inl, inr, refl, Option, none, some, List, [], ◌∷◌, ◌++◌, Text, codes, arith,
}
use aegis_boot.Prelude.Answers.{Answer, value, failure, Answer-cases}
use aegis_boot.Fetch.{ok, Outcome-cases}
use aegis_boot.Fetch.Verify.{
  Pgp, VerifiedClearsign, parse_certs, try_each, try_verify_against_each, parse_detached_sig,
  envelope_of, verify_clearsigned_sums, verify_detached_sig_on_sums, verify_detached_sig_on_iso,
}

module _ {Cert Envelope Signature : Type 0} (pgp : Pgp Cert Envelope Signature) where
  -- `fp` is the fingerprint of a certificate that accepts.
  abbrev pub IsSigner : (Cert → Answer (Unit {0})) → List Cert → Text → Type 0
  IsSigner accepts [] fp = ⊥
  IsSigner accepts (c ∷ cs) fp =
      ((accepts c ≡ value tt) × (fp ≡ pgp.fingerprint c)) ⊎ IsSigner accepts cs fp

  try_each-ok :
      (slug op : Text) (accepts : Cert → Answer (Unit {0})) (last : Option Text) (certs : List Cert)
      (fp : Text)
      → try_each pgp slug op accepts last certs ≡ ok fp
      → IsSigner accepts certs fp
  unfolding try_each
  try_each-ok slug op accepts last [] fp h = cc
  try_each-ok slug op accepts last (c ∷ cs) fp h = elim (Answer-cases (accepts c)) [
    | inl (tt, p) ↦ inl (p, ground (arith, p))
    | inr (e, p) ↦ inr (try_each-ok slug op accepts (some e) cs fp (ground (arith, p)))
  ]

  -- The check for a certificate behind the opening of the file.
  abbrev after_open : Signature → (Cert → Option Text) → Text → List ℕ → Cert → Answer (Unit {0})
  after_open sig reopen path body c = elim (reopen c) [
    | some e ↦ failure (codes "open " ++ path ++ codes ": " ++ e)
    | none ↦ pgp.verify sig c body
  ]

  reopened :
      (sig : Signature) (reopen : Cert → Option Text) (path : Text) (body : List ℕ)
      (certs : List Cert) (fp : Text)
      → IsSigner (after_open sig reopen path body) certs fp
      → IsSigner (λ c. pgp.verify sig c body) certs fp
  reopened sig reopen path body [] fp h = h
  reopened sig reopen path body (c ∷ cs) fp (inl (a, e)) = inl (ground (arith, a), e)
  reopened sig reopen path body (c ∷ cs) fp (inr h) = inr (reopened sig reopen path body cs fp h)

  -- A detached signature that a certificate of the bundle has made on `body`.
  pub record IsDetached (cert_bytes sig_bytes body : List ℕ) (slug fp : Text) : Type 0 where
    pub certs : List Cert
    pub sig : Signature
    pub certs_of : parse_certs pgp cert_bytes slug ≡ ok certs
    pub sig_of : parse_detached_sig pgp sig_bytes slug ≡ ok sig
    pub signed : IsSigner (λ c. pgp.verify sig c body) certs fp

  pub verify_detached_sig_on_sums-IsDetached :
      (cert_bytes sig_bytes sums_bytes : List ℕ) (slug fp : Text)
      → verify_detached_sig_on_sums pgp cert_bytes sig_bytes sums_bytes slug ≡ ok fp
      → IsDetached cert_bytes sig_bytes sums_bytes slug fp
  unfolding verify_detached_sig_on_sums try_verify_against_each
  verify_detached_sig_on_sums-IsDetached cb sb body slug fp h =
      elim (Outcome-cases (parse_certs pgp cb slug)) [
        | inr (e, p) ↦ absurd (ground (arith, p))
        | inl (cs, p) ↦ elim (Outcome-cases (parse_detached_sig pgp sb slug)) [
          | inr (e, q) ↦ absurd (ground (arith, p, q))
          | inl (s, q) ↦ record {
            certs = cs;
            sig = s;
            certs_of = p;
            sig_of = q;
            signed =
                try_each-ok slug (codes "detached-on-sums verify") (λ c. pgp.verify s c body) none
                  cs fp (ground (arith, p, q, h));
          }
        ]
      ]

  pub verify_detached_sig_on_iso-IsDetached :
      (cert_bytes sig_bytes : List ℕ) (path slug : Text) (reopen : Cert → Option Text)
      (iso : Option (List ℕ)) (fp : Text)
      → verify_detached_sig_on_iso pgp cert_bytes sig_bytes path slug reopen iso ≡ ok fp
      → (body : List ℕ) × (iso ≡ some body) × IsDetached cert_bytes sig_bytes body slug fp
  unfolding verify_detached_sig_on_iso try_verify_against_each
  verify_detached_sig_on_iso-IsDetached cb sb path slug reopen none fp h =
      elim (Outcome-cases (parse_certs pgp cb slug)) [
        | inr (e, p) ↦ absurd (ground (arith, p))
        | inl (cs, p) ↦ elim (Outcome-cases (parse_detached_sig pgp sb slug)) [
          | inr (e, q) ↦ absurd (ground (arith, p, q))
          | inl (s, q) ↦ absurd (ground (arith, p, q))
        ]
      ]
  verify_detached_sig_on_iso-IsDetached cb sb path slug reopen (some body) fp h =
      elim (Outcome-cases (parse_certs pgp cb slug)) [
        | inr (e, p) ↦ absurd (ground (arith, p))
        | inl (cs, p) ↦ elim (Outcome-cases (parse_detached_sig pgp sb slug)) [
          | inr (e, q) ↦ absurd (ground (arith, p, q))
          | inl (s, q) ↦ (
            body,
            refl,
            record {
              certs = cs;
              sig = s;
              certs_of = p;
              sig_of = q;
              signed =
                  reopened s (λ c. reopen c) path body cs fp
                    (try_each-ok slug (codes "detached-on-iso verify")
                      (after_open s reopen path body) none cs fp (ground (arith, p, q, h)));
            },
          )
        ]
      ]

  -- A clear-signed text, and what it says.
  pub record IsClearsigned (cert_bytes : List ℕ) (text slug : Text) (v : VerifiedClearsign)
      : Type 0 where
    pub certs : List Cert
    pub msg : Envelope
    pub certs_of : parse_certs pgp cert_bytes slug ≡ ok certs
    pub msg_of : pgp.envelope text ≡ value msg
    pub signed : IsSigner (pgp.verify_envelope msg) certs v.fingerprint_hex
    pub text_of : v.signed_text ≡ pgp.signed_text msg

  pub verify_clearsigned_sums-IsClearsigned :
      (cert_bytes : List ℕ) (text slug : Text) (v : VerifiedClearsign)
      → verify_clearsigned_sums pgp cert_bytes text slug ≡ ok v
      → IsClearsigned cert_bytes text slug v
  unfolding verify_clearsigned_sums try_verify_against_each envelope_of
  verify_clearsigned_sums-IsClearsigned cb text slug v h =
      elim (Outcome-cases (parse_certs pgp cb slug)) [
        | inr (e, p) ↦ absurd (ground (arith, p))
        | inl (cs, p) ↦ elim (Answer-cases (pgp.envelope text)) [
          | inr (e, q) ↦ absurd (ground (arith, p, q))
          | inl (msg, q) ↦ record {
            certs = cs;
            msg = msg;
            certs_of = p;
            msg_of = q;
            signed =
                try_each-ok slug (codes "clearsign verify") (pgp.verify_envelope msg) none cs
                  v.fingerprint_hex (ground (arith, p, q, h));
            text_of = ground (arith, p, q);
          }
        ]
      ]
