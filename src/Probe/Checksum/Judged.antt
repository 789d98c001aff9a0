-- ===== src/Probe/Checksum/Judged.antt =====
-- crates/iso-probe/src/signature.rs: what a verdict on a checksum has found, and what the TUI makes of it.
use mathlib.Core.Path.{subst}
use aegis_boot.Prelude.{
  ℕ, ◌+◌, ◌%◌, ◌^◌, suc, ◌≡◌, ◌∙◌, inl, inr, refl, ap, true, false, Option, none, some, List, [],
  ◌∷◌, Text, text_eq, to_ascii_lowercase, length, arith, Bool-cases,
}
use aegis_boot.Prelude.Answers.{Answer, value, failure}
use aegis_boot.Prelude.Decimal.{trim}
use aegis_boot.Iso.{
  HashVerification, verified, mismatch, not_present, unreadable, SignatureVerification, IsoSidecar,
}
use aegis_boot.Parser.{BootEntry}
use aegis_boot.Fetch.Entry.{join}
use aegis_boot.Fetch.Sha256.{Hasher, hex_lower}
use aegis_boot.Fetch.Sha256.Streamed.{IsStreaming, read_all, digest, after}
use aegis_boot.App.Gate.{is_blocked}
use aegis_boot.Probe.Rows.{boot_entry_to_discovered, is_blocked-boot_entry_to_discovered}
use aegis_boot.Probe.Checksum.{
  Media, text, ExpectedHashResult, found, not_found, no_hash, parse_sha256sum_line,
  find_expected_hash, hash_loop, sha256_of_file_with_progress, from_reads, weighed, file_size,
  verdict_on, verify_iso_hash_with_progress, verify_iso_hash,
}
use aegis_boot.Probe.Checksum.Searched.{
  beside, Named, Unnamed, Unreadable, Search, find_expected_hash-Search, find_expected_hash-beside,
}

-- The reads of a file yield all its bytes.
abbrev pub Yields : Media → (path : Text) → List ℕ → Type 0
Yields media path bytes =
    (reads : List (Answer (List ℕ))) × (media.open_file path ≡ value reads)
    × (read_all reads ≡ some bytes)

value_eq : (s t : Text) → Answer.value s ≡ Answer.value t → s ≡ t
value_eq s t h = cc

module _ {State : Type 0} (sha : Hasher State) (laws : IsStreaming sha) (media : Media) where
  abbrev final : State → List ℕ → Text
  final s bytes = hex_lower (sha.finalize (sha.update s bytes))

  -- What the loop answers, by what the reads yield.
  abbrev Loops : State → Option (List ℕ) → Answer Text → Type 0
  Loops s none r = (e : Text) × (r ≡ failure e)
  Loops s (some bytes) r = r ≡ value (final s bytes)

  more :
      (s : State) (chunk : List ℕ) (o : Option (List ℕ)) (r : Answer Text)
      → Loops (sha.update s chunk) o r
      → Loops s (after chunk o) r
  more s chunk none r h = h
  more s chunk (some bytes) r h =
      h ∙ ap (λ x. value (hex_lower (sha.finalize x))) (laws.update_append s chunk bytes)

  hash_loop-Loops :
      (total turn n : ℕ) (s : State) (rs : List (Answer (List ℕ)))
      → Loops s (read_all rs) (hash_loop sha media total turn n s rs).1
  unfolding hash_loop
  hash_loop-Loops total turn n s [] = rw (laws.update_nil s)
  hash_loop-Loops total turn n s (failure e ∷ rs) = (e, refl)
  hash_loop-Loops total turn n s (value [] ∷ rs) = rw (laws.update_nil s)
  hash_loop-Loops total turn n s (value (b ∷ bs) ∷ rs) =
      let n' = (n + length (b ∷ bs)) % 2 ^ 64 in
      more s (b ∷ bs) (read_all rs)
        (hash_loop sha media total (suc turn) n' (sha.update s (b ∷ bs)) rs).1
        (hash_loop-Loops total (suc turn) n' (sha.update s (b ∷ bs)) rs)

  file_hash-Yields :
      (path : Text) (total : ℕ) (bytes : List ℕ)
      → Yields media path bytes
      → (sha256_of_file_with_progress sha media path total).1 ≡ value (digest sha bytes)
  unfolding sha256_of_file_with_progress from_reads
  file_hash-Yields path total bytes (reads, o, y) =
      let loops : Loops sha.new (some bytes) (hash_loop sha media total 0 0 sha.new reads).1 =
        subst (λ x. Loops sha.new x (hash_loop sha media total 0 0 sha.new reads).1) y
          (hash_loop-Loops total 0 0 sha.new reads) in
      rw (o, from_reads) loops

  -- What the hash of a file tells of its bytes.
  abbrev Tells : (path : Text) → Answer Text → Type 0
  Tells path (value d) = (bytes : List ℕ) × Yields media path bytes × (d ≡ digest sha bytes)
  Tells path (failure e) = (bytes : List ℕ) → Yields media path bytes → ⊥

  loops-Tells :
      (path : Text) (reads : List (Answer (List ℕ))) (o : Option (List ℕ)) (r : Answer Text)
      → media.open_file path ≡ value reads
      → read_all reads ≡ o
      → Loops sha.new o r
      → Tells path r
  loops-Tells path reads none (value d) p q (e, h) = cc
  loops-Tells path reads none (failure x) p q (e, h) = λ bytes (reads', p', q'). cc
  loops-Tells path reads (some bytes) (value d) p q h =
      (bytes, (reads, p, q), value_eq d (digest sha bytes) h)
  loops-Tells path reads (some bytes) (failure x) p q h = cc

  from_reads-Tells :
      (path : Text) (total : ℕ) (o : Answer (List (Answer (List ℕ))))
      → media.open_file path ≡ o
      → Tells path (from_reads sha media total o).1
  unfolding from_reads
  from_reads-Tells path total (failure e) p = λ bytes (reads, q, y). cc
  from_reads-Tells path total (value reads) p =
      loops-Tells path reads (read_all reads) (hash_loop sha media total 0 0 sha.new reads).1 p refl
        (hash_loop-Loops total 0 0 sha.new reads)

  file_hash-Tells :
      (path : Text) (total : ℕ) → Tells path (sha256_of_file_with_progress sha media path total).1
  unfolding sha256_of_file_with_progress
  file_hash-Tells path total = from_reads-Tells path total (media.open_file path) refl

  -- What each verdict says of the ISO's bytes, of the published hash and of where it stands.
  abbrev pub IsVerdict : (iso_path : Text) → Answer HashVerification → Type 0
  IsVerdict iso_path (value (verified d source)) =
      (hash : Text) × Named media iso_path hash source
      × (bytes : List ℕ) × Yields media iso_path bytes
      × (d ≡ digest sha bytes)
      × (text_eq d (to_ascii_lowercase hash) ≡ true)
  IsVerdict iso_path (value (mismatch actual expected source)) =
      Named media iso_path expected source
      × (bytes : List ℕ) × Yields media iso_path bytes
      × (actual ≡ digest sha bytes)
      × (text_eq actual (to_ascii_lowercase expected) ≡ false)
  IsVerdict iso_path (value not_present) = Unnamed media iso_path
  IsVerdict iso_path (value (unreadable source reason)) = Unreadable media iso_path source reason
  IsVerdict iso_path (failure e) =
      (hash source : Text) × Named media iso_path hash source
      × ((bytes : List ℕ) → Yields media iso_path bytes → ⊥)

  weighed-IsVerdict :
      (iso_path hash source : Text) (r : Answer Text)
      → Named media iso_path hash source
      → Tells iso_path r
      → IsVerdict iso_path (weighed sha media hash source r)
  weighed-IsVerdict iso_path hash source (failure e) n t = (hash, source, n, t)
  weighed-IsVerdict iso_path hash source (value d) n (bytes, y, q) =
      elim (Bool-cases (text_eq d (to_ascii_lowercase hash))) [
        | inl e ↦ rw e (hash, n, bytes, y, q, e)
        | inr e ↦ rw e (n, bytes, y, q, e)
      ]

  verdict_on-IsVerdict :
      (iso_path : Text) (r : ExpectedHashResult)
      → Search media iso_path r
      → IsVerdict iso_path (verdict_on sha media iso_path r).1
  unfolding verdict_on
  verdict_on-IsVerdict iso_path not_found s = s
  verdict_on-IsVerdict iso_path (no_hash source reason) s = s
  verdict_on-IsVerdict iso_path (found hash source) s =
      weighed-IsVerdict iso_path hash source
        (sha256_of_file_with_progress sha media iso_path (file_size (media.size iso_path))).1 s
        (file_hash-Tells iso_path (file_size (media.size iso_path)))

  -- With a hash that may be fed in parts: an ISO's checksum is verified only where the hash that is
  -- published beside the ISO, or, if nothing is beside it, in its directory's SHA256SUMS in a line of
  -- its name, is the digest of all its bytes; it is a mismatch only where it is another. There is no
  -- checksum only where nothing is beside the ISO and SHA256SUMS, if it can be read, has no line of
  -- its name, and it is not a file that is there and cannot be read. It is unreadable only where the
  -- read of a file failed or the one beside the ISO has no hash. The check fails only where a hash
  -- is published and the ISO cannot be read to its end.
  pub verify_iso_hash-IsVerdict :
      (iso_path : Text) → IsVerdict iso_path (verify_iso_hash sha media iso_path)
  unfolding verify_iso_hash verify_iso_hash_with_progress
  verify_iso_hash-IsVerdict iso_path =
      verdict_on-IsVerdict iso_path (find_expected_hash media iso_path)
        (find_expected_hash-Search media iso_path)

  verdict_on-mismatch :
      (iso_path hash source : Text) (bytes : List ℕ)
      → Yields media iso_path bytes
      → text_eq (digest sha bytes) (to_ascii_lowercase hash) ≡ false
      → (verdict_on sha media iso_path (found hash source)).1
        ≡ value (mismatch (digest sha bytes) hash source)
  unfolding verdict_on
  verdict_on-mismatch iso_path hash source bytes y w =
      ap (weighed sha media hash source)
        (file_hash-Yields iso_path (file_size (media.size iso_path)) bytes y)
      ∙ rw w

  verify_iso_hash-tampered :
      (iso_path body hash : Text) (bytes : List ℕ)
      → media.read_to_string (beside media iso_path) ≡ text body
      → parse_sha256sum_line (trim body) ≡ some hash
      → Yields media iso_path bytes
      → text_eq (digest sha bytes) (to_ascii_lowercase hash) ≡ false
      → verify_iso_hash sha media iso_path
        ≡ value (mismatch (digest sha bytes) hash (beside media iso_path))
  unfolding verify_iso_hash verify_iso_hash_with_progress
  verify_iso_hash-tampered iso_path body hash bytes b p y w =
      ap (λ x. (verdict_on sha media iso_path x).1)
        (find_expected_hash-beside media iso_path body hash b p)
      ∙ verdict_on-mismatch iso_path hash (beside media iso_path) bytes y w

  -- With a hash that may be fed in parts: of an ISO whose bytes can be read and have another digest
  -- than the one in the file beside it, discovery makes a row that the TUI blocks, whatever the
  -- signature, the size and the sidecar are.
  pub tampered_is_blocked :
      (signature : Text → SignatureVerification) (size : Text → Option ℕ)
      (sidecar : Text → Answer (Option IsoSidecar)) (e : BootEntry) (root body hash : Text)
      (bytes : List ℕ)
      → media.read_to_string (beside media (join root e.source_iso)) ≡ text body
      → parse_sha256sum_line (trim body) ≡ some hash
      → Yields media (join root e.source_iso) bytes
      → text_eq (digest sha bytes) (to_ascii_lowercase hash) ≡ false
      → is_blocked
          (boot_entry_to_discovered (verify_iso_hash sha media) signature size sidecar e root)
        ≡ true
  tampered_is_blocked signature size sidecar e root body hash bytes b p y w =
      is_blocked-boot_entry_to_discovered (verify_iso_hash sha media) signature size sidecar e root
      ∙ rw (verify_iso_hash-tampered (join root e.source_iso) body hash bytes b p y w)
          (ground arith)
