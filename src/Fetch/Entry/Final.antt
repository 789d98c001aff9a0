-- ===== src/Fetch/Entry/Final.antt =====
-- crates/aegis-fetch/src/lib.rs: the ISO at its final path, and what a failed fetch leaves.
use aegis_boot.Prelude.{
  ℕ, ◌≡◌, ◌⊎◌, inl, inr, refl, Bool, true, false, Option, none, some, List, ◌++◌, codes, Text,
  arith, Option-cases,
}
use aegis_boot.Prelude.Answers.{Answer}
use aegis_boot.Catalog.{Entry, SigPattern, FetchOutcome}
use aegis_boot.Fetch.{FetchError, Outcome, ok, err}
use aegis_boot.Fetch.Download.{Disk, Outside, download_to_file}
use aegis_boot.Fetch.Download.Copied.{download_to_file-Keeps}
use aegis_boot.Fetch.Sha256.{Hasher, Reading}
use aegis_boot.Fetch.Sha256.Streamed.{IsStreaming, ReadsFile}
use aegis_boot.Fetch.Verify.{Pgp}
use aegis_boot.Fetch.Keyring.{VendorKeyring, cert_armor}
use aegis_boot.Fetch.Entry.{
  VerifyResult, filename_from_url, join, verify_clearsigned_path, verify_detached_on_sums_path,
  verify_detached_on_iso_path, verify_by, hashed, or_dropped, dropped, renamed, fetch_catalog_entry,
}
use aegis_boot.Fetch.Entry.Authentic.{IsAuthentic, verify_by-IsAuthentic}

-- A step's disk and its value or error.
pub Step-cases :
    {A : Type 0} (x : Disk × Outcome A)
    → ((d : Disk) × (a : A) × (x ≡ (d, ok a))) ⊎ ((d : Disk) × (e : FetchError) × (x ≡ (d, err e)))
Step-cases (d, ok a) = inl (d, a, refl)
Step-cases (d, err e) = inr (d, e, refl)

-- The errors of the checks alone: a digest, a signature, or a text that says nothing of the ISO.
abbrev pub is_rejection : FetchError → Bool
is_rejection (FetchError.sha256_mismatch _ _ _) = true
is_rejection (FetchError.signature_verify_failed _ _) = true
is_rejection (FetchError.iso_not_in_sums _) = true
is_rejection FetchError.malformed_sums = true
is_rejection FetchError.not_clearsigned = true
is_rejection _ = false

module _ {Cert Envelope Signature State : Type 0} (pgp : Pgp Cert Envelope Signature)
    (sha : Hasher State) (from_utf8 : List ℕ → Answer Text) (reading : Reading)
    (reopen : Cert → Option Text) (o : Outside) where
  -- The checks only add events.
  abbrev Untouched : Disk → Disk → Type 0
  Untouched d d' = (d'.partial ≡ d.partial) × (d'.final ≡ d.final)

  verify_by-Untouched :
      (p : SigPattern) (entry : Entry) (cert_bytes : List ℕ) (path : Text) (d : Disk)
      → Untouched d (verify_by pgp sha from_utf8 reading reopen o p entry cert_bytes path d).0
  unfolding verify_by verify_clearsigned_path verify_detached_on_sums_path
      verify_detached_on_iso_path hashed
  verify_by-Untouched SigPattern.clearsigned_sums entry cert_bytes path d = ground arith
  verify_by-Untouched SigPattern.detached_sig_on_sums entry cert_bytes path d = ground arith
  verify_by-Untouched SigPattern.detached_sig_on_iso entry cert_bytes path d = ground arith

  -- The ISO at its final path is one that the vendor's signature authenticates, under the certificates
  -- that the keyring holds for the vendor, with the digest and the signer that the outcome names.
  pub record IsVerified (entry : Entry) (dest_dir : Text) (keyring : VendorKeyring)
      (outcome : FetchOutcome) (d : Disk) : Type 0 where
    pub iso : List ℕ
    pub cert_bytes : List ℕ
    pub result : VerifyResult
    pub pinned : cert_armor entry.vendor keyring ≡ some cert_bytes
    pub at_final : d.final ≡ some iso
    pub no_partial : d.partial ≡ none
    pub authentic : IsAuthentic pgp sha from_utf8 o entry cert_bytes entry.verify iso result
    pub named : outcome.iso_path ≡ join dest_dir (filename_from_url entry.iso_url)
    pub hex_named : outcome.sha256_hex ≡ result.iso_sha256_hex
    pub signer_named : outcome.key_fingerprint ≡ result.signer_fingerprint_hex

  abbrev fetch : Entry → Text → VendorKeyring → Disk → Disk × Outcome FetchOutcome
  fetch = fetch_catalog_entry pgp sha from_utf8 reading reopen o

  abbrev partial_of : Entry → Text → Text
  partial_of entry dest_dir = join dest_dir (filename_from_url entry.iso_url ++ codes ".partial")

  -- A fetch that succeeds has put at the final path an ISO that passed every check, and has left no
  -- partial file; the outcome names its path, its digest and its signer.
  pub fetch_catalog_entry-IsVerified :
      (laws : IsStreaming sha) (law : ReadsFile reading) (entry : Entry) (dest_dir : Text)
      (keyring : VendorKeyring) (d d' : Disk) (outcome : FetchOutcome)
      → fetch_catalog_entry pgp sha from_utf8 reading reopen o entry dest_dir keyring d
        ≡ (d', ok outcome)
      → IsVerified entry dest_dir keyring outcome d'
  unfolding fetch_catalog_entry or_dropped renamed
  fetch_catalog_entry-IsVerified laws law entry dest_dir keyring d d' outcome h =
      elim (Option-cases (cert_armor entry.vendor keyring)) [
        | inl p ↦ absurd (ground (arith, p))
        | inr (certs, p) ↦ elim (Option-cases o.create_dir) [
          | inr (e, c) ↦ absurd (ground (arith, p, c))
          | inl c ↦
              elim (Step-cases (download_to_file o entry.iso_url (partial_of entry dest_dir) d)) [
                | inr (d1, e, q) ↦ absurd (ground (arith, p, c, q))
                | inl (d1, n, q) ↦
                    elim (Step-cases (
                      verify_by pgp sha from_utf8 reading reopen o entry.verify entry certs
                        (partial_of entry dest_dir) d1)) [
                          | inr (d2, e, v) ↦ absurd (ground (arith, p, c, q, v))
                          | inl (d2, r, v) ↦ elim (Option-cases o.rename) [
                            | inr (e, m) ↦ absurd (ground (arith, p, c, q, v, m))
                            | inl m ↦
                                let (iso, a, t) =
                                  verify_by-IsAuthentic pgp sha from_utf8 o entry certs laws reading
                                    law reopen (partial_of entry dest_dir) d1 d2 r entry.verify v in
                                let u =
                                  verify_by-Untouched entry.verify entry certs
                                    (partial_of entry dest_dir) d1 in
                                record {
                                  iso = iso;
                                  cert_bytes = certs;
                                  result = r;
                                  pinned = p;
                                  at_final = ground (arith, h, p, c, q, v, m, u, a);
                                  no_partial = ground (arith, h, p, c, q, v, m);
                                  authentic = t;
                                  named = ground (arith, h, p, c, q, v, m);
                                  hex_named = ground (arith, h, p, c, q, v, m);
                                  signer_named = ground (arith, h, p, c, q, v, m);
                                }
                          ]
                        ]
              ]
        ]
      ]

  -- A fetch that fails leaves the file at the final path as it was.
  pub fetch_failed_lem :
      (entry : Entry) (dest_dir : Text) (keyring : VendorKeyring) (d d' : Disk) (e : FetchError)
      → fetch_catalog_entry pgp sha from_utf8 reading reopen o entry dest_dir keyring d
        ≡ (d', err e)
      → d'.final ≡ d.final
  unfolding fetch_catalog_entry or_dropped renamed dropped
  fetch_failed_lem entry dest_dir keyring d d' e h =
      elim (Option-cases (cert_armor entry.vendor keyring)) [
        | inl p ↦ ground (arith, p)
        | inr (certs, p) ↦ elim (Option-cases o.create_dir) [
          | inr (e, c) ↦ ground (arith, p, c)
          | inl c ↦
              elim (Step-cases (download_to_file o entry.iso_url (partial_of entry dest_dir) d)) [
                | inr (d1, e, q) ↦ ground (
                  arith,
                  p,
                  c,
                  q,
                  download_to_file-Keeps o entry.iso_url (partial_of entry dest_dir) d,
                )
                | inl (d1, n, q) ↦
                    elim (Step-cases (
                      verify_by pgp sha from_utf8 reading reopen o entry.verify entry certs
                        (partial_of entry dest_dir) d1)) [
                          | inr (d2, e, v) ↦ ground (
                            arith,
                            p,
                            c,
                            q,
                            v,
                            download_to_file-Keeps o entry.iso_url (partial_of entry dest_dir) d,
                            verify_by-Untouched entry.verify entry certs (partial_of entry dest_dir)
                                d1,
                          )
                          | inl (d2, r, v) ↦ elim (Option-cases o.rename) [
                            | inr (e, m) ↦ ground (
                              arith,
                              p,
                              c,
                              q,
                              v,
                              m,
                              download_to_file-Keeps o entry.iso_url (partial_of entry dest_dir) d,
                              verify_by-Untouched entry.verify entry certs
                                  (partial_of entry dest_dir) d1,
                            )
                            | inl m ↦ ground (arith, p, c, q, v, m)
                          ]
                        ]
              ]
        ]
      ]

  -- A fetch that ends in an error of the checks, neither of the transport nor a missing vendor, leaves
  -- no partial file, when it can be removed.
  pub rejected_is_removed :
      (entry : Entry) (dest_dir : Text) (keyring : VendorKeyring) (d d' : Disk) (e : FetchError)
      → fetch_catalog_entry pgp sha from_utf8 reading reopen o entry dest_dir keyring d
        ≡ (d', err e)
      → is_rejection e ≡ true
      → o.remove ≡ none
      → d'.partial ≡ none
  unfolding fetch_catalog_entry or_dropped renamed dropped
  rejected_is_removed entry dest_dir keyring d d' e h k z =
      elim (Option-cases (cert_armor entry.vendor keyring)) [
        | inl p ↦ ground (arith, p)
        | inr (certs, p) ↦ elim (Option-cases o.create_dir) [
          | inr (e, c) ↦ ground (arith, p, c)
          | inl c ↦
              elim (Step-cases (download_to_file o entry.iso_url (partial_of entry dest_dir) d)) [
                | inr (d1, x, q) ↦ absurd (
                    ground (
                      arith,
                      h,
                      k,
                      p,
                      c,
                      q,
                      download_to_file-Keeps o entry.iso_url (partial_of entry dest_dir) d,
                    ))
                | inl (d1, n, q) ↦
                    elim (Step-cases (
                      verify_by pgp sha from_utf8 reading reopen o entry.verify entry certs
                        (partial_of entry dest_dir) d1)) [
                          | inr (d2, x, v) ↦ ground (arith, h, k, p, c, q, v, z)
                          | inl (d2, r, v) ↦ ground (arith, h, k, p, c, q, v)
                        ]
              ]
        ]
      ]
