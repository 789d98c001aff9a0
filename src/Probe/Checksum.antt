-- ===== src/Probe/Checksum.antt =====
-- crates/iso-probe/src/signature.rs: the verdict on an ISO's checksum, from the file beside it. What the file system
-- answers is the record `Media`, the hash function the argument `Hasher`.
pub mod Searched
pub mod Judged
use aegis_boot.Prelude.{
  ℕ, ◌+◌, ◌%◌, ◌^◌, suc, Bool, true, false, Option, none, some, List, [], ◌∷◌, ◌++◌, Text, codes,
  text_eq, to_ascii_lowercase, file_name, length, ◌==◌, if◌then◌else◌,
}
use mathlib.Core.List.{reverse}
use aegis_boot.Prelude.Answers.{Answer, value, failure}
use aegis_boot.Prelude.Decimal.{trim, trim_start, is_whitespace}
use aegis_boot.Prelude.Parse.{lines, split_whitespace_once}
use aegis_boot.Iso.{HashVerification}
use aegis_boot.Fetch.Sums.{is_sha256_hex}
use aegis_boot.Fetch.Entry.{join}
use aegis_boot.Fetch.Sha256.{Hasher, hex_lower}
use aegis_boot.Probe.{sidecar_path}

-- `fs::read_to_string`
pub data TextRead : Type 0 where
  text : Text → TextRead
  absent : TextRead
  denied : Text → TextRead

-- `open` gives the reads of a file, `elapsed` says of a turn whether 100 ms have passed.
pub record Media : Type 0 where
  pub read_to_string : Text → TextRead
  pub open_file : Text → Answer (List (Answer (List ℕ)))
  pub size : Text → Option ℕ
  pub elapsed : ℕ → Bool

pub data ExpectedHashResult : Type 0 where
  found : (hash source : Text) → ExpectedHashResult
  not_found : ExpectedHashResult
  no_hash : (source reason : Text) → ExpectedHashResult

drop_slashes : Text → Text
drop_slashes [] = []
drop_slashes (c ∷ s) = let rest = drop_slashes s in if c == b'/' then rest else c ∷ s

drop_name : Text → Option Text
drop_name [] = none
drop_name (c ∷ s) = let rest = drop_name s in if c == b'/' then some s else rest

-- `Path::parent`, of a path with no `.` component; the text is read from its end.
unfoldable pub parent : Text → Option Text
unfolding drop_slashes drop_name
parent path = elim (drop_slashes (reverse path)) [
  | [] ↦ none
  | c ∷ s ↦ elim (drop_name (c ∷ s)) [
    | none ↦ some []
    | some dir ↦ elim (drop_slashes dir) [ [] ↦ some (codes "/") | d ∷ r ↦ some (reverse (d ∷ r)) ]
  ]
]

-- `split_whitespace().next()` of a text that is trimmed.
unfoldable pub first_token : Text → Text
first_token [] = []
first_token (c ∷ s) = let rest = first_token s in if is_whitespace c then [] else c ∷ rest

unfoldable pub parse_sha256sum_line : Text → Option Text
unfolding first_token
parse_sha256sum_line line =
    let token = first_token (trim_start line) in
    if is_sha256_hex token then some (to_ascii_lowercase token) else none

-- `trim_start_matches('*')`
trim_stars : Text → Text
trim_stars [] = []
trim_stars (c ∷ s) = let rest = trim_stars s in if c == b'*' then rest else c ∷ s

abbrev hash_and_name : (Text × Option Text) → Option (Text × Text)
hash_and_name (hash, none) = none
hash_and_name (hash, some rest) =
    if is_sha256_hex hash
    then some (to_ascii_lowercase hash, trim_stars (trim_start rest))
    else none

unfoldable pub parse_sha256sums_line : Text → Option (Text × Text)
unfolding trim_stars
parse_sha256sums_line line = hash_and_name (split_whitespace_once line)

abbrev pub hash_for : Text → Option (Text × Text) → Option Text
hash_for basename none = none
hash_for basename (some (hash, name)) = if text_eq name basename then some hash else none

abbrev pub found_or : (source : Text) → Option Text → ExpectedHashResult → ExpectedHashResult
found_or source none rest = rest
found_or source (some hash) rest = found hash source

-- The loop over the lines of `SHA256SUMS`.
unfoldable pub find_line : (source basename : Text) → List Text → ExpectedHashResult
unfolding parse_sha256sums_line text_eq
find_line source basename [] = not_found
find_line source basename (l ∷ ls) =
    let rest = find_line source basename ls in
    found_or source (hash_for basename (parse_sha256sums_line l)) rest

-- The sums by the ISO's name and what their read answered; the hash beside the ISO by what its read
-- answered.
unfoldable pub of_sums : (sums_path : Text) → Option Text → TextRead → ExpectedHashResult
unfolding find_line lines
of_sums sums_path name absent = not_found
of_sums sums_path name (denied e) = no_hash sums_path e
of_sums sums_path none (text sums) = not_found
of_sums sums_path (some basename) (text sums) = find_line sums_path basename (lines sums)

abbrev pub no_parseable : Text
no_parseable = codes "no parseable sha256 line"

abbrev pub of_hash : (per_iso : Text) → Option Text → ExpectedHashResult
of_hash per_iso none = no_hash per_iso no_parseable
of_hash per_iso (some hash) = found hash per_iso

module _ (media : Media) (iso_path : Text) where
  unfoldable pub of_dir : Option Text → ExpectedHashResult
  unfolding of_sums file_name join
  of_dir none = not_found
  of_dir (some dir) =
      let sums_path = join dir (codes "SHA256SUMS") in
      of_sums sums_path (file_name iso_path) (media.read_to_string sums_path)

  unfoldable pub of_beside : (per_iso : Text) → TextRead → ExpectedHashResult
  unfolding of_dir parse_sha256sum_line parent trim
  of_beside per_iso (text body) = of_hash per_iso (parse_sha256sum_line (trim body))
  of_beside per_iso (denied e) = no_hash per_iso e
  of_beside per_iso absent = of_dir (parent iso_path)

  unfoldable pub find_expected_hash : ExpectedHashResult
  unfolding of_beside sidecar_path
  find_expected_hash =
      let per_iso = sidecar_path (codes "sha256") iso_path in
      of_beside per_iso (media.read_to_string per_iso)

abbrev pub file_size : Option ℕ → ℕ
file_size none = 0
file_size (some n) = n

module _ {State : Type 0} (sha : Hasher State) (media : Media) where
  -- The loop over the reads: `turn` counts them, `bytes` what they gave; with each tick of progress.
  unfoldable pub hash_loop :
      (total turn bytes : ℕ) → State → List (Answer (List ℕ)) → List (ℕ × ℕ) × Answer Text
  hash_loop total turn bytes s [] = ((bytes, total) ∷ [], value (hex_lower (sha.finalize s)))
  hash_loop total turn bytes s (failure e ∷ rs) = ([], failure e)
  hash_loop total turn bytes s (value [] ∷ rs) =
      ((bytes, total) ∷ [], value (hex_lower (sha.finalize s)))
  hash_loop total turn bytes s (value (b ∷ bs) ∷ rs) =
      let bytes' = (bytes + length (b ∷ bs)) % 2 ^ 64 in
      let (ticks, r) = hash_loop total (suc turn) bytes' (sha.update s (b ∷ bs)) rs in
      (if media.elapsed turn then (bytes', total) ∷ ticks else ticks, r)

  unfoldable pub from_reads :
      (total : ℕ) → Answer (List (Answer (List ℕ))) → List (ℕ × ℕ) × Answer Text
  unfolding hash_loop
  from_reads total (failure e) = ([], failure e)
  from_reads total (value reads) =
      let (ticks, r) = hash_loop total 0 0 sha.new reads in ((0, total) ∷ ticks, r)

  unfoldable pub sha256_of_file_with_progress : Text → (total : ℕ) → List (ℕ × ℕ) × Answer Text
  unfolding from_reads
  sha256_of_file_with_progress path total = from_reads total (media.open_file path)

  unfoldable pub compute_iso_sha256 : Text → Answer Text
  unfolding sha256_of_file_with_progress
  compute_iso_sha256 path = (sha256_of_file_with_progress path (file_size (media.size path))).1

  abbrev pub weighed : (expected source : Text) → Answer Text → Answer HashVerification
  weighed expected source (failure e) = failure e
  weighed expected source (value actual) =
      if text_eq actual (to_ascii_lowercase expected)
      then value (HashVerification.verified actual source)
      else value (HashVerification.mismatch actual expected source)

  unfoldable pub verdict_on :
      (iso_path : Text) → ExpectedHashResult → List (ℕ × ℕ) × Answer HashVerification
  unfolding sha256_of_file_with_progress text_eq to_ascii_lowercase
  verdict_on iso_path not_found = ([], value HashVerification.not_present)
  verdict_on iso_path (no_hash source reason) =
      ([], value (HashVerification.unreadable source reason))
  verdict_on iso_path (found expected source) =
      let (ticks, r) = sha256_of_file_with_progress iso_path (file_size (media.size iso_path)) in
      (ticks, weighed expected source r)

  unfoldable pub verify_iso_hash_with_progress : Text → List (ℕ × ℕ) × Answer HashVerification
  unfolding verdict_on find_expected_hash
  verify_iso_hash_with_progress iso_path = verdict_on iso_path (find_expected_hash media iso_path)

  unfoldable pub verify_iso_hash : Text → Answer HashVerification
  unfolding verify_iso_hash_with_progress
  verify_iso_hash iso_path = (verify_iso_hash_with_progress iso_path).1
