-- ===== src/Parser/Scan.antt =====
-- crates/iso-parser/src/lib.rs: the walk for ISO files, and the scan that mounts each of them. What
-- stands below a directory is a finite tree, in which a listing may fail; symbolic links that loop are
-- outside it. A panic is `none`.
pub mod Found
pub mod Reported
use aegis_boot.Prelude.{
  Bool, true, false, ◌||◌, Option, none, some, List, [], ◌∷◌, ◌++◌, map, Text, codes, text_eq,
  is_prefix, ◌==◌, if◌then◌else◌,
}
use aegis_boot.Prelude.Parse.{eq_ignore_ascii_case}
use aegis_boot.Parser.{
  FilePath, normal, root_dir, IsoEnvironment, IsoError, Outcome, ok, err, ◌>>=◌, BootEntry,
  ScanFailure, ScanReport, from_iso_error, validate_path, sanitize_reason, path_text,
}
use aegis_boot.Parser.Layouts.{extract_boot_entries}

mutual
  pub data Node : Type 0 where
    file : Text → Node
    dir : Text → Listing → Node

  pub data Listing : Type 0 where
    unreadable : Text → Listing
    nil : Listing
    cons : Node → Listing → Listing

-- The parts of a name before and behind its last dot.
unfoldable pub last_dot : Text → Option (Text × Text)
last_dot [] = none
last_dot (c ∷ s) = elim (last_dot s) [
  | some (l, r) ↦ some (c ∷ l, r)
  | none ↦ if c == b'.' then some ([], s) else none
]

-- `Path::extension`: a dot at the start of a name begins no extension.
unfoldable pub extension : Text → Option Text
unfolding last_dot
extension name = elim (last_dot name) [
  | none ↦ none
  | some (l, r) ↦ elim l [ [] ↦ none | _ ∷ _ ↦ some r ]
]

unfoldable pub is_iso : Text → Bool
unfolding extension
is_iso name = elim (extension name) [
  | none ↦ false
  | some ext ↦ eq_ignore_ascii_case ext (codes "iso")
]

unfoldable pub is_skipped : Text → Bool
is_skipped name =
    is_prefix (codes ".") name
    || text_eq name (codes "proc")
    || text_eq name (codes "sys")
    || text_eq name (codes "dev")

abbrev pub below : FilePath → Text → FilePath
below base name = base ++ normal name ∷ []

abbrev isos_or_none : Outcome (List FilePath) → List FilePath
isos_or_none (ok isos) = isos
isos_or_none (err e) = []

-- A listing that fails, fails before any of its entries is looked at.
unfoldable mutual
  pub find_iso_files : FilePath → Listing → Outcome (List FilePath)
  find_iso_files base (unreadable e) = err (IsoError.io e)
  find_iso_files base nil = ok []
  find_iso_files base (cons n l) = do rest ← find_iso_files base l; ok (isos_of base n ++ rest)

  pub isos_of : FilePath → Node → List FilePath
  isos_of base (file name) = if is_iso name then below base name ∷ [] else []
  isos_of base (dir name sub) =
      let inner = isos_or_none (find_iso_files (below base name) sub) in
      if is_skipped name then [] else inner

abbrev mapped : {A B : Type 0} → (A → B) → Option A → Option B
mapped f none = none
mapped f (some a) = some (f a)

-- What is asked of the mounter.
pub data Mounting : Type 0 where
  mounted unmounted : FilePath → Mounting

-- `IsoError`'s `Display`
abbrev error_text : IsoError → Text
error_text (IsoError.io e) = codes "IO error: " ++ e
error_text (IsoError.no_boot_entries e) = codes "No boot entries found in ISO: " ++ e
error_text (IsoError.mount_failed e) = codes "Mount failed: " ++ e
error_text (IsoError.path_traversal e) = codes "Path traversal attempt blocked: " ++ e

-- A row for an ISO that failed.
failure_of : FilePath → IsoError → Option ScanFailure
failure_of iso_path e = elim (sanitize_reason (error_text e)) [
  | none ↦ none
  | some reason ↦ some (record { iso_path = iso_path; reason = reason; kind = from_iso_error e })
]

with_entries : List BootEntry → Option ScanReport → Option ScanReport
with_entries es none = none
with_entries es (some r) = some (record { entries = es ++ r.entries; failures = r.failures })

with_failure : Option ScanFailure → Option ScanReport → Option ScanReport
with_failure none r = none
with_failure (some f) none = none
with_failure (some f) (some r) = some (record { entries = r.entries; failures = f ∷ r.failures })

abbrev pub no_report : ScanReport
no_report = record { entries = []; failures = [] }

module _ (env : IsoEnvironment) where
  -- The unmount is tried whatever the extraction answers, and its own answer is dropped.
  unfoldable pub process_iso : FilePath → List Mounting × Outcome (List BootEntry)
  process_iso iso_path = elim (env.mount_iso iso_path) [
    | err e ↦ ([], err e)
    | ok mount_point ↦ (
      mounted mount_point ∷ unmounted mount_point ∷ [],
      extract_boot_entries env mount_point iso_path,
    )
  ]

  reported : FilePath → Outcome (List BootEntry) → Option ScanReport → Option ScanReport
  unfolding with_entries with_failure failure_of
  reported iso_path (ok es) r = with_entries es r
  reported iso_path (err e) r = with_failure (failure_of iso_path e) r

  -- The loop over the ISO files that were found.
  unfoldable pub scan_isos : List FilePath → List Mounting × Option ScanReport
  unfolding process_iso reported
  scan_isos [] = ([], some no_report)
  scan_isos (iso_path ∷ rest) = (
    (process_iso iso_path).0 ++ (scan_isos rest).0,
    reported iso_path (process_iso iso_path).1 (scan_isos rest).1,
  )

  abbrev scan_found : FilePath → List FilePath → List Mounting × Option (Outcome ScanReport)
  scan_found path [] = ([], some (err (IsoError.no_boot_entries (path_text path))))
  scan_found path (i ∷ is) = ((scan_isos (i ∷ is)).0, mapped (λ r. ok r) (scan_isos (i ∷ is)).1)

  -- `tree` is what stands below a directory.
  unfoldable pub scan_directory_with_failures :
      (tree : FilePath → Listing) (path : FilePath) → List Mounting × Option (Outcome ScanReport)
  unfolding validate_path find_iso_files scan_isos path_text
  scan_directory_with_failures tree path = elim (validate_path (root_dir ∷ []) path) [
    | err e ↦ ([], some (err e))
    | ok valid ↦ elim (find_iso_files valid (tree valid)) [
      | err e ↦ ([], some (err e))
      | ok isos ↦ scan_found valid isos
    ]
  ]

  abbrev entries_or_error : FilePath → ScanReport → Outcome (List BootEntry)
  entries_or_error path r = elim r.entries [
    | [] ↦ err (IsoError.no_boot_entries (path_text path))
    | e ∷ es ↦ ok (e ∷ es)
  ]

  -- The older entry point, which drops the failures.
  unfoldable pub scan_directory :
      (tree : FilePath → Listing) (path : FilePath)
      → List Mounting × Option (Outcome (List BootEntry))
  unfolding scan_directory_with_failures path_text
  scan_directory tree path =
      let (log, r) = scan_directory_with_failures tree path in
      (log, mapped (λ o. o >>= entries_or_error path) r)
