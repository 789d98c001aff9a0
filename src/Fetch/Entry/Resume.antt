-- ===== src/Fetch/Entry/Resume.antt =====
-- crates/aegis-fetch/src/{download,lib}.rs: fetches that follow on one another over a partial file.
use aegis_boot.Prelude.{
  ℕ, zero, suc, ◌≡◌, Option, none, some, List, ◌∷◌, ◌++◌, Text, codes, arith, length,
}
use aegis_boot.Prelude.Answers.{Answer, failure}
use aegis_boot.Catalog.{Entry, FetchEvent}
use aegis_boot.Fetch.{FetchError, err}
use aegis_boot.Fetch.Download.{Disk, Outside, try_resume, download_to_file, emit}
use aegis_boot.Fetch.Sha256.{Hasher, Reading}
use aegis_boot.Fetch.Verify.{Pgp}
use aegis_boot.Fetch.Keyring.{VendorKeyring, cert_armor}
use aegis_boot.Fetch.Entry.{fetch_catalog_entry}

module _ {Cert Envelope Signature State : Type 0} (pgp : Pgp Cert Envelope Signature)
    (sha : Hasher State) (from_utf8 : List ℕ → Answer Text) (reading : Reading)
    (reopen : Cert → Option Text) (o : Outside) (entry : Entry) (dest_dir : Text)
    (keyring : VendorKeyring) where
  -- The disk after some fetches on end.
  abbrev pub retried : ℕ → Disk → Disk
  retried zero d = d
  retried (suc n) d =
      retried n (fetch_catalog_entry pgp sha from_utf8 reading reopen o entry dest_dir keyring d).0

  refused_once :
      (d : Disk) (c : ℕ) (bytes cert_bytes : List ℕ) (e : Text)
      → cert_armor entry.vendor keyring ≡ some cert_bytes
      → o.create_dir ≡ none
      → d.partial ≡ some (c ∷ bytes)
      → o.get entry.iso_url (some (length (c ∷ bytes))) ≡ failure e
      → fetch_catalog_entry pgp sha from_utf8 reading reopen o entry dest_dir keyring d ≡ (
        emit FetchEvent.connecting d,
        err (FetchError.network entry.iso_url (codes "range request failed: " ++ e)),
      )
  unfolding fetch_catalog_entry download_to_file try_resume
  refused_once d c bytes cert_bytes e h k p g = ground arith

  -- While a server refuses the request for the bytes behind a partial file, as it does where the file
  -- is complete, every fetch fails with the network's error and leaves the partial file, however often
  -- it is tried.
  pub refused_range_is_final :
      (n : ℕ) (d : Disk) (c : ℕ) (bytes cert_bytes : List ℕ) (e : Text)
      → cert_armor entry.vendor keyring ≡ some cert_bytes
      → o.create_dir ≡ none
      → d.partial ≡ some (c ∷ bytes)
      → o.get entry.iso_url (some (length (c ∷ bytes))) ≡ failure e
      → ((retried n d).partial ≡ some (c ∷ bytes))
        × ((fetch_catalog_entry pgp sha from_utf8 reading reopen o entry dest_dir keyring
              (retried n d)).1
            ≡ err (FetchError.network entry.iso_url (codes "range request failed: " ++ e)))
  refused_range_is_final zero d c bytes cert_bytes e h k p g =
      ground (arith, refused_once d c bytes cert_bytes e h k p g)
  refused_range_is_final (suc n) d c bytes cert_bytes e h k p g = ground (
    arith,
    refused_once d c bytes cert_bytes e h k p g,
    refused_range_is_final n (emit FetchEvent.connecting d) c bytes cert_bytes e h k p g,
  )
