-- ===== src/Tests/Downloads.antt =====
-- The theorems on the fetch, applied to a small ISO on a server that sends it in two chunks.
use aegis_boot.Prelude.{
  ℕ, ◌≡◌, refl, true, false, none, some, List, [], ◌∷◌, ◌++◌, Text, codes, text_eq, len, len_utf8,
  to_ascii_lowercase, is_prefix, arith,
}
use mathlib.Core.List.{append_assoc, append-nil}
use aegis_boot.Prelude.Answers.{Answer, value, failure}
use aegis_boot.Prelude.Decimal.{trim, trim_start, trim_end, is_whitespace}
use aegis_boot.Prelude.Parse.{
  lines, strip_prefix, split_find, after_last, split_whitespace_once, all_hexdigits, last_segment,
  eq_ignore_ascii_case,
}
use aegis_boot.Catalog.{Entry, SigPattern, Vendor, SbStatus, Category, FetchOutcome}
use aegis_boot.Fetch.{FetchError, Outcome, err}
use aegis_boot.Fetch.Sums.{
  find_iso_sha256, is_sha256_hex, parse_sha256_line, without_star, filter_map_lines,
  iter_sha256_lines, find_in,
}
use aegis_boot.Fetch.Sums.Printed.{Layout, print_sums, listed_digest, find_iso_sha256-print_sums}
use aegis_boot.Fetch.Download.{
  Disk, Outside, written, Round, Body, Response, pump, pump_to_writer, try_resume, download_to_file,
  download_to_vec,
}
use aegis_boot.Fetch.Verify.{
  Pgp, is_armored, parse_certs, try_each, try_verify_against_each, verify_clearsigned_sums,
}
use aegis_boot.Fetch.Sha256.{Hasher, Reading, hash_file, hash_reads, hex_lower}
use aegis_boot.Fetch.Sha256.Streamed.{IsStreaming, ReadsFile}
use aegis_boot.Fetch.Keyring.{
  VendorKeyring, cert_armor, find_vendor, has_text, difference, same_set, embedded, load_bundles,
  validate_armored_against_pin, parse_primary_fingerprints, slug,
}
use aegis_boot.Fetch.Keyring.Pinned.{IsPinned, embedded-IsPinned}
use aegis_boot.Fetch.Entry.{
  fetch_catalog_entry, verify_by, verify_clearsigned_path, or_dropped, join,
}
use aegis_boot.Fetch.Entry.Final.{
  IsVerified, fetch_catalog_entry-IsVerified, fetch_failed_lem, rejected_is_removed,
}
use aegis_boot.Fetch.Entry.Resume.{retried, refused_range_is_final}

-- An OpenPGP library whose certificates and envelopes are their bytes, and whose checks accept.
abbrev lenient : Pgp (List ℕ) Text (List ℕ)
lenient = record {
  armored_certs = λ bytes. value (bytes ∷ []);
  binary_certs = λ bytes. value (bytes ∷ []);
  envelope = λ text. value text;
  signed_text = λ text. text;
  verify_envelope = λ text c. value tt;
  armored_signature = λ bytes. value bytes;
  binary_signature = λ bytes. value bytes;
  verify = λ sig c bytes. value tt;
  fingerprint = λ c. codes "AB";
}

-- A hash that is the first byte, and a digest of 32 bytes from it.
abbrev spread : List ℕ → List ℕ
spread [] = []
spread (b ∷ bs) =
    b ∷ 0 ∷ 0 ∷ 0 ∷ 0 ∷ 0 ∷ 0 ∷ 0 ∷ 0 ∷ 0 ∷ 0 ∷ 0 ∷ 0 ∷ 0 ∷ 0 ∷ 0 ∷ 0 ∷ 0 ∷ 0 ∷ 0 ∷ 0 ∷ 0 ∷ 0 ∷ 0
    ∷ 0 ∷ 0 ∷ 0 ∷ 0 ∷ 0 ∷ 0 ∷ 0 ∷ 0 ∷ []

abbrev toy_hash : Hasher (List ℕ)
toy_hash = record { new = []; update = λ s b. s ++ b; finalize = spread }

toy_hash-IsStreaming : IsStreaming toy_hash
toy_hash-IsStreaming = record { update_nil = append-nil; update_append = append_assoc }

abbrev whole_reads : List ℕ → List (Answer (List ℕ))
whole_reads [] = []
whole_reads (b ∷ bs) = value (b ∷ bs) ∷ []

abbrev reading : Reading
reading = record {
  missing = codes "not found";
  open_error = none;
  cancelled = λ n. false;
  reads = whole_reads;
}

reading-ReadsFile : ReadsFile reading
reading-ReadsFile [] x h = ground arith
reading-ReadsFile (b ∷ bs) x h = ground (arith, append-nil bs)

abbrev digest_7 : Text
digest_7 = codes "0700000000000000000000000000000000000000000000000000000000000000"

abbrev digest_8 : Text
digest_8 = codes "0800000000000000000000000000000000000000000000000000000000000000"

abbrev chunk : List ℕ → Round
chunk bytes = record { cancelled = false; read = value bytes; write = written }

abbrev body : List Round → Body
body rounds = record { rounds = rounds; cancelled_at_end = false; flush = none }

abbrev whole : Response
whole = record {
  status = 200;
  content_range = none;
  content_length = some 3;
  body = body (chunk (7 ∷ 8 ∷ []) ∷ chunk (9 ∷ []) ∷ []);
}

-- A server whose checksum file lists one digest, and that refuses ranges.
abbrev server : Text → Outside
server hex = record {
  get = λ url from. elim from [ none ↦ value whole | some n ↦ failure (codes "416") ];
  small = λ url. value (value (print_sums ((Layout.gnu, codes "a.iso", hex) ∷ [])));
  create_dir = none;
  create = none;
  append = none;
  remove = none;
  rename = none;
}

abbrev entry : Entry
entry = record {
  slug = codes "a";
  name = codes "A";
  arch = codes "x86_64";
  size_mib = 1;
  iso_url = codes "https://h/a.iso";
  sha256_url = codes "https://h/SUMS";
  sig_url = codes "https://h/SUMS";
  sb = SbStatus.unknown;
  purpose = [];
  category = Category.rescue;
  vendor = Vendor.fedora;
  verify = SigPattern.clearsigned_sums;
}

abbrev keyring : VendorKeyring
keyring = record { armored = (Vendor.fedora, 1 ∷ []) ∷ [] }

abbrev utf8 : List ℕ → Answer Text
utf8 bytes = value bytes

abbrev blank : Disk
blank = record { partial = none; final = none; events = [] }

abbrev fetch : Text → Disk → Disk × Outcome FetchOutcome
fetch hex =
    fetch_catalog_entry lenient toy_hash utf8 reading (λ c. none) (server hex) entry (codes "/d")
      keyring

abbrev fetched : FetchOutcome
fetched = record {
  iso_path = codes "/d/a.iso";
  bytes = 3;
  sha256_hex = digest_7;
  vendor = Vendor.fedora;
  key_fingerprint = codes "AB";
}

fetch_catalog_entry-IsVerified_example :
    IsVerified lenient toy_hash utf8 reading
      (λ c. none)
      (server digest_7)
      entry
      (codes "/d")
      keyring
      fetched
      (fetch digest_7 blank).0
unfolding fetch_catalog_entry verify_by verify_clearsigned_path or_dropped join download_to_file
    download_to_vec pump pump_to_writer try_resume cert_armor find_vendor hash_file hash_reads
    hex_lower find_iso_sha256 iter_sha256_lines filter_map_lines find_in parse_sha256_line
    without_star is_sha256_hex is_armored parse_certs try_each try_verify_against_each
    verify_clearsigned_sums lines strip_prefix split_find split_whitespace_once all_hexdigits
    after_last last_segment eq_ignore_ascii_case text_eq to_ascii_lowercase is_prefix len len_utf8
    trim trim_start trim_end is_whitespace
fetch_catalog_entry-IsVerified_example =
    fetch_catalog_entry-IsVerified lenient toy_hash utf8 reading (λ c. none) (server digest_7)
      toy_hash-IsStreaming reading-ReadsFile entry (codes "/d") keyring blank
      (fetch digest_7 blank).0 fetched refl

fetch_failed_lem_example : (fetch digest_8 blank).0.final ≡ none
unfolding fetch_catalog_entry verify_by verify_clearsigned_path or_dropped join download_to_file
    download_to_vec pump pump_to_writer try_resume cert_armor find_vendor hash_file hash_reads
    hex_lower find_iso_sha256 iter_sha256_lines filter_map_lines find_in parse_sha256_line
    without_star is_sha256_hex is_armored parse_certs try_each try_verify_against_each
    verify_clearsigned_sums lines strip_prefix split_find split_whitespace_once all_hexdigits
    after_last last_segment eq_ignore_ascii_case text_eq to_ascii_lowercase is_prefix len len_utf8
    trim trim_start trim_end is_whitespace
fetch_failed_lem_example =
    fetch_failed_lem lenient toy_hash utf8 reading (λ c. none) (server digest_8) entry (codes "/d")
      keyring blank (fetch digest_8 blank).0
      (FetchError.sha256_mismatch digest_8 digest_7 (codes "a.iso")) refl

rejected_is_removed_example : (fetch digest_8 blank).0.partial ≡ none
unfolding fetch_catalog_entry verify_by verify_clearsigned_path or_dropped join download_to_file
    download_to_vec pump pump_to_writer try_resume cert_armor find_vendor hash_file hash_reads
    hex_lower find_iso_sha256 iter_sha256_lines filter_map_lines find_in parse_sha256_line
    without_star is_sha256_hex is_armored parse_certs try_each try_verify_against_each
    verify_clearsigned_sums lines strip_prefix split_find split_whitespace_once all_hexdigits
    after_last last_segment eq_ignore_ascii_case text_eq to_ascii_lowercase is_prefix len len_utf8
    trim trim_start trim_end is_whitespace
rejected_is_removed_example =
    rejected_is_removed lenient toy_hash utf8 reading (λ c. none) (server digest_8) entry
      (codes "/d") keyring blank (fetch digest_8 blank).0
      (FetchError.sha256_mismatch digest_8 digest_7 (codes "a.iso")) refl refl refl

-- The partial file of a download that came whole.
abbrev complete : Disk
complete = record { partial = some (7 ∷ 8 ∷ 9 ∷ []); final = none; events = [] }

refused_range_is_final_example :
    ((retried lenient toy_hash utf8 reading
        (λ c. none)
        (server digest_7)
        entry
        (codes "/d")
        keyring
        2
        complete).partial
      ≡ some (7 ∷ 8 ∷ 9 ∷ []))
    × ((fetch digest_7 (
          retried lenient toy_hash utf8 reading
            (λ c. none)
            (server digest_7)
            entry
            (codes "/d")
            keyring
            2
            complete)).1
        ≡ err (FetchError.network (codes "https://h/a.iso") (codes "range request failed: 416")))
unfolding cert_armor find_vendor
refused_range_is_final_example =
    refused_range_is_final lenient toy_hash utf8 reading (λ c. none) (server digest_7) entry
      (codes "/d") keyring 2 complete 7 (8 ∷ 9 ∷ []) (1 ∷ []) (codes "416") refl refl refl refl

abbrev cut_short : Response
cut_short = record whole {
  body = body (chunk (7 ∷ 8 ∷ []) ∷ record (chunk (9 ∷ [])) { cancelled = true } ∷ []);
}

abbrev remainder : Response
remainder = record whole { status = 206; body = body (chunk (9 ∷ []) ∷ []) }

abbrev cutting : Outside
cutting = record (server digest_7) { get = λ url from. value cut_short }

abbrev resuming : Outside
resuming = record (server digest_7) { get = λ url from. value remainder }

abbrev two_lines : List (Layout × Text × Text)
two_lines = (Layout.bsd, codes "b.iso", digest_8) ∷ (Layout.binary, codes "a.iso", digest_7) ∷ []

find_iso_sha256-print_sums_example :
    find_iso_sha256 (print_sums two_lines) (codes "a.iso")
    ≡ listed_digest two_lines (codes "a.iso") FetchError.malformed_sums
unfolding is_sha256_hex all_hexdigits len len_utf8 is_whitespace
find_iso_sha256-print_sums_example = find_iso_sha256-print_sums two_lines (codes "a.iso") refl

abbrev pins : List (Vendor × List Text)
pins = (Vendor.fedora, codes "AB" ∷ []) ∷ []

abbrev debug : List Text → Text
debug texts = codes "[..]"

embedded-IsPinned_example : IsPinned lenient debug pins (codes "AB") Vendor.fedora (1 ∷ [])
unfolding embedded load_bundles validate_armored_against_pin parse_primary_fingerprints find_vendor
    same_set difference has_text text_eq cert_armor slug
embedded-IsPinned_example =
    embedded-IsPinned lenient debug pins (codes "AB") ((Vendor.fedora, 1 ∷ []) ∷ []) keyring
      Vendor.fedora (1 ∷ []) refl refl
