-- ===== src/Fetch/Entry.antt =====
-- crates/aegis-fetch/src/lib.rs: the fetch of a catalog entry, from the request to the rename. The
-- steps run in order on the disk, each with its error.
pub mod Authentic
pub mod Final
pub mod Resume
use aegis_boot.Prelude.{
  ℕ, Bool, Option, none, some, List, [], ◌∷◌, ◌++◌, Text, codes, length, true, false, ◌==◌,
  if◌then◌else◌,
}
use aegis_boot.Prelude.Answers.{Answer, value, failure}
use aegis_boot.Prelude.Parse.{last_segment, eq_ignore_ascii_case}
use aegis_boot.Catalog.{Entry, SigPattern, FetchEvent, FetchOutcome}
use aegis_boot.Fetch.{FetchError, Outcome, ok, err}
use aegis_boot.Fetch.Sums.{find_iso_sha256}
use aegis_boot.Fetch.Download.{Disk, Outside, emit, download_to_file, download_to_vec}
use aegis_boot.Fetch.Sha256.{Hasher, Reading, hash_file}
use aegis_boot.Fetch.Keyring.{VendorKeyring, cert_armor}
use aegis_boot.Fetch.Verify.{
  Pgp, verify_clearsigned_sums, verify_detached_sig_on_sums, verify_detached_sig_on_iso,
}

-- A step on the disk that may fail.
abbrev pub M : Type 0 → Type 0
M A = Disk → Disk × Outcome A

infixl 5 ◌>>=◌ ◌>>◌
abbrev pub ◌>>=◌ : {A B : Type 0} → M A → (A → M B) → M B
◌>>=◌ m f d = let (d', r) = m d in elim r [ err e ↦ (d', err e) | ok a ↦ f a d' ]

abbrev pub ◌>>◌ : {B : Type 0} → M (Unit {0}) → M B → M B
m >> k = m >>= λ _. k

abbrev pub lift : {A : Type 0} → Outcome A → M A
lift r d = (d, r)

abbrev pub tell : FetchEvent → M (Unit {0})
tell e d = (emit e d, ok tt)

pub record VerifyResult : Type 0 where
  pub iso_sha256_hex : Text
  pub signer_fingerprint_hex : Text

abbrev pub filename_from_url : Text → Text
filename_from_url url = last_segment url

-- `str::from_utf8`, and its error as the given one.
abbrev pub utf8_or : Answer Text → (Text → FetchError) → Outcome Text
utf8_or (value t) f = ok t
utf8_or (failure e) f = err (f e)

-- `Path::join` of a name with no slash.
unfoldable pub join : Text → Text → Text
join [] name = name
join (c ∷ []) name = if c == b'/' then c ∷ name else c ∷ b'/' ∷ name
join (c ∷ d ∷ dir) name = c ∷ join (d ∷ dir) name

abbrev pub is_cancelled : FetchError → Bool
is_cancelled FetchError.cancelled = true
is_cancelled _ = false

-- The comparison of both digests, and the result.
compared : Entry → (actual fingerprint expected : Text) → Outcome VerifyResult
unfolding last_segment eq_ignore_ascii_case
compared entry actual fingerprint expected =
    if eq_ignore_ascii_case actual expected
    then ok (record { iso_sha256_hex = actual; signer_fingerprint_hex = fingerprint })
    else err (FetchError.sha256_mismatch expected actual (filename_from_url entry.iso_url))

-- A failure other than a cancellation drops the partial file, if it can be removed.
dropped : Outside → FetchError → Disk → Disk
dropped o e d =
    if is_cancelled e then d else elim o.remove [ some _ ↦ d | none ↦ record d { partial = none } ]

unfoldable pub or_dropped : {A : Type 0} → Outside → M A → M A
unfolding dropped
or_dropped o m d =
    let (d', r) = m d in elim r [ ok a ↦ (d', ok a) | err e ↦ (dropped o e d', err e) ]

renamed : Outside → (partial_path final_path : Text) → M (Unit {0})
renamed o partial_path final_path d = elim o.rename [
  | some e ↦ (
    d,
    err (
        FetchError.filesystem
          (codes "rename " ++ partial_path ++ codes " -> " ++ final_path ++ codes ": " ++ e)),
  )
  | none ↦ (record d { partial = none; final = d.partial }, ok tt)
]

abbrev cert_of : VendorKeyring → Entry → Outcome (List ℕ)
cert_of keyring entry = elim (cert_armor entry.vendor keyring) [
  | none ↦ err (FetchError.unknown_vendor entry.vendor)
  | some bytes ↦ ok bytes
]

abbrev dir_created : Outside → Text → Outcome (Unit {0})
dir_created o dest_dir = elim o.create_dir [
  | none ↦ ok tt
  | some e ↦ err (FetchError.filesystem (codes "create " ++ dest_dir ++ codes ": " ++ e))
]

abbrev outcome_of : Entry → Text → ℕ → VerifyResult → FetchOutcome
outcome_of entry final_path bytes r = record {
  iso_path = final_path;
  bytes = bytes;
  sha256_hex = r.iso_sha256_hex;
  vendor = entry.vendor;
  key_fingerprint = r.signer_fingerprint_hex;
}

module _ {Cert Envelope Signature State : Type 0} (pgp : Pgp Cert Envelope Signature)
    (sha : Hasher State) (from_utf8 : List ℕ → Answer Text) (reading : Reading)
    (reopen : Cert → Option Text) (o : Outside) where
  -- The hash of the partial file, told by its event.
  hashed : Text → M (Text × ℕ)
  hashed iso_path = do
    tell FetchEvent.verifying_hash
    λ d. (d, hash_file sha reading iso_path d.partial)

  unfoldable pub verify_clearsigned_path :
      Entry → (cert_bytes : List ℕ) → (iso_path : Text) → M VerifyResult
  unfolding hashed compared download_to_vec verify_clearsigned_sums last_segment
  verify_clearsigned_path entry cert_bytes iso_path = do
    sums_bytes ← lift (download_to_vec o entry.sha256_url)
    sums_text ← lift (
        utf8_or (from_utf8 sums_bytes) (λ e.
          FetchError.signature_verify_failed entry.slug
            (codes "clearsigned sums not utf-8: " ++ e)))
    tell FetchEvent.verifying_sig
    verified ← lift (verify_clearsigned_sums pgp cert_bytes sums_text entry.slug)
    digest ← hashed iso_path
    expected ← lift (find_iso_sha256 verified.signed_text (filename_from_url entry.iso_url))
    lift (compared entry digest.0 verified.fingerprint_hex expected)

  unfoldable pub verify_detached_on_sums_path :
      Entry → (cert_bytes : List ℕ) → (iso_path : Text) → M VerifyResult
  unfolding hashed compared download_to_vec verify_detached_sig_on_sums last_segment
  verify_detached_on_sums_path entry cert_bytes iso_path = do
    sums_bytes ← lift (download_to_vec o entry.sha256_url)
    sig_bytes ← lift (download_to_vec o entry.sig_url)
    tell FetchEvent.verifying_sig
    fingerprint ← lift (verify_detached_sig_on_sums pgp cert_bytes sig_bytes sums_bytes entry.slug)
    digest ← hashed iso_path
    sums_text ← lift (utf8_or (from_utf8 sums_bytes) (λ e. FetchError.malformed_sums))
    expected ← lift (find_iso_sha256 sums_text (filename_from_url entry.iso_url))
    lift (compared entry digest.0 fingerprint expected)

  unfoldable pub verify_detached_on_iso_path :
      Entry → (cert_bytes : List ℕ) → (iso_path : Text) → M VerifyResult
  unfolding hashed download_to_vec verify_detached_sig_on_iso
  verify_detached_on_iso_path entry cert_bytes iso_path = do
    sig_bytes ← lift (download_to_vec o entry.sig_url)
    tell FetchEvent.verifying_sig
    fingerprint ← λ d. (
      d,
      verify_detached_sig_on_iso pgp cert_bytes sig_bytes iso_path entry.slug reopen d.partial,
    )
    digest ← hashed iso_path
    lift (ok (record { iso_sha256_hex = digest.0; signer_fingerprint_hex = fingerprint }))

  unfoldable pub verify_by :
      SigPattern → Entry → (cert_bytes : List ℕ) → (iso_path : Text) → M VerifyResult
  verify_by SigPattern.clearsigned_sums = verify_clearsigned_path
  verify_by SigPattern.detached_sig_on_sums = verify_detached_on_sums_path
  verify_by SigPattern.detached_sig_on_iso = verify_detached_on_iso_path

  unfoldable pub fetch_catalog_entry : Entry → (dest_dir : Text) → VendorKeyring → M FetchOutcome
  unfolding cert_armor last_segment join download_to_file verify_by or_dropped renamed
  fetch_catalog_entry entry dest_dir keyring = do
    cert_bytes ← lift (cert_of keyring entry)
    lift (dir_created o dest_dir)
    let final_path = join dest_dir (filename_from_url entry.iso_url)
    let partial_path = join dest_dir (filename_from_url entry.iso_url ++ codes ".partial")
    bytes ← download_to_file o entry.iso_url partial_path
    result ← or_dropped o (verify_by entry.verify entry cert_bytes partial_path)
    renamed o partial_path final_path
    tell (FetchEvent.done (outcome_of entry final_path bytes result))
    lift (ok (outcome_of entry final_path bytes result))
