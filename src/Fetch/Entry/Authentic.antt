-- ===== src/Fetch/Entry/Authentic.antt =====
-- crates/aegis-fetch/src/lib.rs: what the partial file has passed when the checks succeed.
use aegis_boot.Prelude.{ℕ, ◌≡◌, inl, inr, sym, true, Option, some, List, Text, arith}
use mathlib.Core.Path.{subst}
use aegis_boot.Prelude.Answers.{Answer, value, Answer-cases}
use aegis_boot.Prelude.Parse.{eq_ignore_ascii_case}
use aegis_boot.Catalog.{Entry, SigPattern}
use aegis_boot.Fetch.{ok, Outcome-cases}
use aegis_boot.Fetch.Sums.{find_iso_sha256}
use aegis_boot.Fetch.Download.{Disk, Outside, download_to_vec}
use aegis_boot.Fetch.Sha256.{Hasher, Reading, hash_file}
use aegis_boot.Fetch.Sha256.Streamed.{IsStreaming, ReadsFile, digest, hash_file-digest}
use aegis_boot.Fetch.Verify.{
  Pgp, VerifiedClearsign, verify_clearsigned_sums, verify_detached_sig_on_sums,
  verify_detached_sig_on_iso,
}
use aegis_boot.Fetch.Verify.Accepted.{
  IsDetached, IsClearsigned, verify_clearsigned_sums-IsClearsigned,
  verify_detached_sig_on_sums-IsDetached, verify_detached_sig_on_iso-IsDetached,
}
use aegis_boot.Fetch.Entry.{
  VerifyResult, filename_from_url, verify_clearsigned_path, verify_detached_on_sums_path,
  verify_detached_on_iso_path, verify_by, hashed, compared,
}

module _ {Cert Envelope Signature State : Type 0} (pgp : Pgp Cert Envelope Signature)
    (sha : Hasher State) (from_utf8 : List ℕ → Answer Text) (o : Outside) (entry : Entry)
    (cert_bytes : List ℕ) where
  -- The digest of the ISO is the one that an authenticated text lists for its name.
  pub record IsListed (text : Text) (iso : List ℕ) : Type 0 where
    pub expected : Text
    pub listed : find_iso_sha256 text (filename_from_url entry.iso_url) ≡ ok expected
    pub equal : eq_ignore_ascii_case (digest sha iso) expected ≡ true

  pub record ByClearsignedSums (iso : List ℕ) (r : VerifyResult) : Type 0 where
    pub sums_bytes : List ℕ
    pub sums_text : Text
    pub verified : VerifiedClearsign
    pub downloaded : download_to_vec o entry.sha256_url ≡ ok sums_bytes
    pub decoded : from_utf8 sums_bytes ≡ value sums_text
    pub signed : IsClearsigned pgp cert_bytes sums_text entry.slug verified
    pub signer : r.signer_fingerprint_hex ≡ verified.fingerprint_hex
    pub sum : r.iso_sha256_hex ≡ digest sha iso
    pub is_listed : IsListed verified.signed_text iso

  pub record ByDetachedOnSums (iso : List ℕ) (r : VerifyResult) : Type 0 where
    pub sums_bytes : List ℕ
    pub sig_bytes : List ℕ
    pub sums_text : Text
    pub downloaded : download_to_vec o entry.sha256_url ≡ ok sums_bytes
    pub downloaded_sig : download_to_vec o entry.sig_url ≡ ok sig_bytes
    pub decoded : from_utf8 sums_bytes ≡ value sums_text
    pub signed : IsDetached pgp cert_bytes sig_bytes sums_bytes entry.slug r.signer_fingerprint_hex
    pub sum : r.iso_sha256_hex ≡ digest sha iso
    pub is_listed : IsListed sums_text iso

  pub record ByDetachedOnIso (iso : List ℕ) (r : VerifyResult) : Type 0 where
    pub sig_bytes : List ℕ
    pub downloaded_sig : download_to_vec o entry.sig_url ≡ ok sig_bytes
    pub signed : IsDetached pgp cert_bytes sig_bytes iso entry.slug r.signer_fingerprint_hex
    pub sum : r.iso_sha256_hex ≡ digest sha iso

  -- What the vendor has signed, by the entry's pattern.
  abbrev pub IsAuthentic : SigPattern → List ℕ → VerifyResult → Type 0
  IsAuthentic SigPattern.clearsigned_sums = ByClearsignedSums
  IsAuthentic SigPattern.detached_sig_on_sums = ByDetachedOnSums
  IsAuthentic SigPattern.detached_sig_on_iso = ByDetachedOnIso

  module _ (laws : IsStreaming sha) (reading : Reading) (law : ReadsFile reading)
      (reopen : Cert → Option Text) (path : Text) (d d' : Disk) (r : VerifyResult) where
    on_iso_lem :
        verify_detached_on_iso_path pgp sha from_utf8 reading reopen o entry cert_bytes path d
          ≡ (d', ok r)
        → (iso : List ℕ) × (d.partial ≡ some iso) × ByDetachedOnIso iso r
    unfolding verify_detached_on_iso_path hashed
    on_iso_lem h = elim (Outcome-cases (download_to_vec o entry.sig_url)) [
      | inr (e, p) ↦ absurd (ground (arith, p))
      | inl (sig, p) ↦
          elim (Outcome-cases
            (verify_detached_sig_on_iso pgp cert_bytes sig path entry.slug reopen d.partial)) [
              | inr (e, q) ↦ absurd (ground (arith, p, q))
              | inl (fp, q) ↦ elim (Outcome-cases (hash_file sha reading path d.partial)) [
                | inr (e, u) ↦ absurd (ground (arith, p, q, u))
                | inl ((hex, n), u) ↦
                    let (iso, a, s) =
                      verify_detached_sig_on_iso-IsDetached pgp cert_bytes sig path entry.slug
                        reopen d.partial fp q in
                    let (bytes, b, g) =
                      hash_file-digest sha laws reading path d.partial hex n law u in
                    let signer : r.signer_fingerprint_hex ≡ fp = ground (arith, h, p, q, u) in
                    (
                      iso,
                      a,
                      record {
                        sig_bytes = sig;
                        downloaded_sig = p;
                        signed =
                            subst (λ t. IsDetached pgp cert_bytes sig iso entry.slug t) (sym signer)
                              s;
                        sum = ground (arith, h, p, q, u, a, b, g);
                      },
                    )
              ]
            ]
    ]

    -- The hash of the partial file, and its comparison with the authenticated text.
    compared_lem :
        (text hex fp : Text) (n : ℕ)
        → hash_file sha reading path d.partial ≡ ok (hex, n)
        → (expected : Text) → find_iso_sha256 text (filename_from_url entry.iso_url) ≡ ok expected
        → compared entry hex fp expected ≡ ok r
        → (iso : List ℕ) × (d.partial ≡ some iso)
          × (r.signer_fingerprint_hex ≡ fp)
          × (r.iso_sha256_hex ≡ digest sha iso)
          × IsListed text iso
    unfolding compared
    compared_lem text hex fp n u expected f c =
        let (iso, b, g) = hash_file-digest sha laws reading path d.partial hex n law u in
        (
          iso,
          b,
          ground arith,
          ground (arith, g),
          record { expected = expected; listed = f; equal = ground (arith, g) },
        )

    on_sums_lem :
        verify_detached_on_sums_path pgp sha from_utf8 reading reopen o entry cert_bytes path d
          ≡ (d', ok r)
        → (iso : List ℕ) × (d.partial ≡ some iso) × ByDetachedOnSums iso r
    unfolding verify_detached_on_sums_path hashed
    on_sums_lem h = elim (Outcome-cases (download_to_vec o entry.sha256_url)) [
      | inr (e, p) ↦ absurd (ground (arith, p))
      | inl (sums, p) ↦ elim (Outcome-cases (download_to_vec o entry.sig_url)) [
        | inr (e, q) ↦ absurd (ground (arith, p, q))
        | inl (sig, q) ↦
            elim (Outcome-cases (verify_detached_sig_on_sums pgp cert_bytes sig sums entry.slug)) [
              | inr (e, v) ↦ absurd (ground (arith, p, q, v))
              | inl (fp, v) ↦ elim (Outcome-cases (hash_file sha reading path d.partial)) [
                | inr (e, u) ↦ absurd (ground (arith, p, q, u, v))
                | inl ((hex, n), u) ↦ elim (Answer-cases (from_utf8 sums)) [
                  | inr (e, t) ↦ absurd (ground (arith, p, q, u, v, t))
                  | inl (text, t) ↦
                      elim (Outcome-cases
                        (find_iso_sha256 text (filename_from_url entry.iso_url))) [
                          | inr (e, f) ↦ absurd (ground (arith, p, q, u, v, t, f))
                          | inl (expected, f) ↦
                              let (iso, b, signer, g, l) =
                                compared_lem text hex fp n u expected f
                                  (ground (arith, h, p, q, u, v, t, f)) in
                              (
                                iso,
                                b,
                                record {
                                  sums_bytes = sums;
                                  sig_bytes = sig;
                                  sums_text = text;
                                  downloaded = p;
                                  downloaded_sig = q;
                                  decoded = t;
                                  signed =
                                      subst (λ x. IsDetached pgp cert_bytes sig sums entry.slug x)
                                        (sym signer)
                                        (verify_detached_sig_on_sums-IsDetached pgp cert_bytes sig
                                          sums entry.slug fp v);
                                  sum = g;
                                  is_listed = l;
                                },
                              )
                        ]
                ]
              ]
            ]
      ]
    ]

    clearsigned_lem :
        verify_clearsigned_path pgp sha from_utf8 reading reopen o entry cert_bytes path d
          ≡ (d', ok r)
        → (iso : List ℕ) × (d.partial ≡ some iso) × ByClearsignedSums iso r
    unfolding verify_clearsigned_path hashed
    clearsigned_lem h = elim (Outcome-cases (download_to_vec o entry.sha256_url)) [
      | inr (e, p) ↦ absurd (ground (arith, p))
      | inl (sums, p) ↦ elim (Answer-cases (from_utf8 sums)) [
        | inr (e, q) ↦ absurd (ground (arith, p, q))
        | inl (text, q) ↦
            elim (Outcome-cases (verify_clearsigned_sums pgp cert_bytes text entry.slug)) [
              | inr (e, v) ↦ absurd (ground (arith, p, q, v))
              | inl (w, v) ↦ elim (Outcome-cases (hash_file sha reading path d.partial)) [
                | inr (e, u) ↦ absurd (ground (arith, p, q, u, v))
                | inl ((hex, n), u) ↦
                    elim (Outcome-cases
                      (find_iso_sha256 w.signed_text (filename_from_url entry.iso_url))) [
                        | inr (e, f) ↦ absurd (ground (arith, p, q, u, v, f))
                        | inl (expected, f) ↦
                            let (iso, b, signer, g, l) =
                              compared_lem w.signed_text hex w.fingerprint_hex n u expected f
                                (ground (arith, h, p, q, u, v, f)) in
                            (
                              iso,
                              b,
                              record {
                                sums_bytes = sums;
                                sums_text = text;
                                verified = w;
                                downloaded = p;
                                decoded = q;
                                signed =
                                    verify_clearsigned_sums-IsClearsigned pgp cert_bytes text
                                      entry.slug w v;
                                signer = signer;
                                sum = g;
                                is_listed = l;
                              },
                            )
                      ]
              ]
            ]
      ]
    ]

    pub verify_by-IsAuthentic :
        (p : SigPattern)
        → verify_by pgp sha from_utf8 reading reopen o p entry cert_bytes path d ≡ (d', ok r)
        → (iso : List ℕ) × (d.partial ≡ some iso) × IsAuthentic p iso r
    unfolding verify_by
    verify_by-IsAuthentic SigPattern.clearsigned_sums h = clearsigned_lem h
    verify_by-IsAuthentic SigPattern.detached_sig_on_sums h = on_sums_lem h
    verify_by-IsAuthentic SigPattern.detached_sig_on_iso h = on_iso_lem h
