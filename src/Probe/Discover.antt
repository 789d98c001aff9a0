-- ===== src/Probe/Discover.antt =====
-- crates/iso-probe/src/lib.rs: `discover`, which scans the roots and makes a row of each boot entry that it has not
-- seen. What the parser's scan of a root answers and what stands below it are the record `Roots`; the
-- row of an entry is the argument `make`.
pub mod Kept
pub mod Shown
pub mod Firsts
use aegis_boot.Prelude.{
  ℕ, zero, suc, Bool, true, false, ◌&&◌, ◌||◌, not, Option, none, some, List, [], ◌∷◌, ◌++◌, Text,
  text_eq, ◌==◌, if◌then◌else◌,
}
use aegis_boot.Iso.{DiscoveredIso, FailedIso}
use aegis_boot.Parser.{IsoError, Outcome, ok, err, BootEntry, ScanFailure, ScanReport, path_text}
use aegis_boot.Parser.Scan.{Node, Listing, file, dir, unreadable, nil, cons}
use aegis_boot.Fetch.Entry.{join}
use aegis_boot.Probe.Rows.{failed_iso}

pub data ProbeError : Type 0 where
  io : Text → ProbeError
  parser : IsoError → ProbeError
  no_isos_found : ProbeError

-- `is_not_found` says of an I/O error whether it is of the kind `NotFound`; `regular_size` is the
-- length of a regular file, `len` that of any entry of a directory.
pub record Roots : Type 0 where
  pub exists : Text → Bool
  pub scan : Text → Outcome ScanReport
  pub is_not_found : Text → Bool
  pub below : Text → Listing
  pub regular_size : Text → Option ℕ
  pub len : Text → Option ℕ

pub record DiscoveryReport : Type 0 where
  pub isos : List DiscoveredIso
  pub failed : List FailedIso

pub data Discovery : Type 0 where
  discovered : DiscoveryReport → Discovery
  failing : ProbeError → Discovery

-- The variables of the loop over the roots.
pub record Gathered : Type 0 where
  pub isos : List DiscoveredIso
  pub failed : List FailedIso
  pub seen : List (Text × ℕ)
  pub seen_failed : List Text
  pub walk_succeeded_somewhere : Bool

unfoldable pub has_key : Text → ℕ → List (Text × ℕ) → Bool
has_key name size [] = false
has_key name size ((n, s) ∷ keys) = (text_eq n name && s == size) || has_key name size keys

unfoldable pub has_path : Text → List Text → Bool
has_path path [] = false
has_path path (p ∷ ps) = text_eq p path || has_path path ps

module _ (r : Roots) where
  abbrev first_some : Option ℕ → Option ℕ → Option ℕ
  first_some (some n) rest = some n
  first_some none rest = rest

  -- The entries of a directory, `depth` levels of directories below it at most.
  unfoldable mutual
    pub walk_entries : (filename : Text) → ℕ → (base : Text) → Listing → Option ℕ
    walk_entries filename depth base (unreadable e) = none
    walk_entries filename depth base nil = none
    walk_entries filename depth base (cons n l) =
        walk_entry filename depth base n (walk_entries filename depth base l)

    pub walk_entry : (filename : Text) → ℕ → (base : Text) → Node → Option ℕ → Option ℕ
    walk_entry filename depth base (file name) rest =
        if text_eq name filename then r.len (join base name) else rest
    walk_entry filename zero base (dir name sub) rest = rest
    walk_entry filename (suc depth) base (dir name sub) rest =
        first_some (walk_entries filename depth (join base name) sub) rest

  unfoldable pub walk_for_iso_size : (base filename : Text) → (depth : ℕ) → Option ℕ
  unfolding walk_entries text_eq
  walk_for_iso_size base filename zero = none
  walk_for_iso_size base filename (suc depth) = walk_entries filename depth base (r.below base)

  unfoldable pub find_iso_size : (root filename : Text) → Option ℕ
  unfolding walk_for_iso_size join
  find_iso_size root filename =
      first_some (r.regular_size (join root filename)) (walk_for_iso_size root filename 3)

  abbrev or_zero : Option ℕ → ℕ
  or_zero none = 0
  or_zero (some n) = n

  abbrev pub size_in : (root filename : Text) → ℕ
  size_in root filename = or_zero (find_iso_size root filename)

  module _ (make : BootEntry → (search_root : Text) → DiscoveredIso) where
    -- One entry: nothing if its key is in the set, or else a row.
    unfoldable pub keep_entry : (root : Text) → BootEntry → Gathered → Gathered
    unfolding has_key text_eq find_iso_size
    keep_entry root entry g =
        let size = size_in root entry.source_iso in
        if has_key entry.source_iso size g.seen then g else record g {
          isos = g.isos ++ make entry root ∷ [];
          seen = (entry.source_iso, size) ∷ g.seen;
        }

    unfoldable pub keep_entries : (root : Text) → List BootEntry → Gathered → Gathered
    unfolding keep_entry
    keep_entries root [] g = g
    keep_entries root (e ∷ es) g = keep_entries root es (keep_entry root e g)

    unfoldable pub keep_failure : ScanFailure → Gathered → Gathered
    unfolding has_path text_eq path_text failed_iso
    keep_failure f g = if has_path (path_text f.iso_path) g.seen_failed then g else record g {
      failed = g.failed ++ failed_iso f ∷ [];
      seen_failed = path_text f.iso_path ∷ g.seen_failed;
    }

    unfoldable pub keep_failures : List ScanFailure → Gathered → Gathered
    unfolding keep_failure
    keep_failures [] g = g
    keep_failures (f ∷ fs) g = keep_failures fs (keep_failure f g)

    abbrev pub walked : Gathered → Gathered
    walked g = record g { walk_succeeded_somewhere = true }

    -- A root that is there, by what its scan answers, with the error that ends the loop if it does.
    unfoldable pub keep_scan :
        (root : Text) → Outcome ScanReport → Gathered → Gathered × Option ProbeError
    unfolding keep_entries keep_failures
    keep_scan root (ok report) g =
        (keep_failures report.failures (keep_entries root report.entries (walked g)), none)
    keep_scan root (err (IsoError.no_boot_entries path)) g = (walked g, none)
    keep_scan root (err (IsoError.io e)) g =
        (g, if r.is_not_found e then none else some (parser (IsoError.io e)))
    keep_scan root (err (IsoError.mount_failed e)) g = (g, some (parser (IsoError.mount_failed e)))
    keep_scan root (err (IsoError.path_traversal e)) g =
        (g, some (parser (IsoError.path_traversal e)))

    abbrev pub no_rows : List DiscoveredIso → List FailedIso → Bool
    no_rows [] [] = true
    no_rows [] (_ ∷ _) = false
    no_rows (_ ∷ _) _ = false

    unfoldable pub ended : Gathered → Discovery
    ended g =
        if not g.walk_succeeded_somewhere || no_rows g.isos g.failed
        then failing no_isos_found
        else discovered (record { isos = g.isos; failed = g.failed })

    -- One root: skipped if it is not there.
    unfoldable pub tried : Text → Gathered → Gathered × Option ProbeError
    unfolding keep_scan
    tried root g = if r.exists root then keep_scan root (r.scan root) g else (g, none)

    unfoldable pub scan_roots : List Text → Gathered → Discovery
    scan_roots [] g = ended g
    scan_roots (root ∷ roots) g = elim (tried root g).1 [
      | none ↦ scan_roots roots (tried root g).0
      | some e ↦ failing e
    ]

    abbrev pub nothing : Gathered
    nothing = record {
      isos = [];
      failed = [];
      seen = [];
      seen_failed = [];
      walk_succeeded_somewhere = false;
    }

    unfoldable pub discover : List Text → Discovery
    unfolding scan_roots tried ended
    discover roots = scan_roots roots nothing
