-- ===== src/Probe/Discover/Shown.antt =====
-- crates/iso-probe/src/lib.rs: every boot entry and every failure of a scanned root is in the report.
use mathlib.Core.Path.{subst}
use aegis_boot.Prelude.{
  ◌≡◌, ◌∙◌, inl, inr, sym, ap, true, ◌||◌, not, List, [], ◌∷◌, Text, arith, Bool-cases,
  Option-cases,
}
use aegis_boot.Iso.{DiscoveredIso, FailedIso}
use aegis_boot.Parser.{IsoError, Outcome, ok, err, BootEntry, ScanFailure, ScanReport, path_text}
use aegis_boot.Probe.Rows.{failed_iso}
use aegis_boot.Probe.Discover.{
  Roots, DiscoveryReport, discovered, Gathered, size_in, keep_entries, keep_failures, keep_scan,
  walked, ended, no_rows, tried, scan_roots, nothing, discover,
}
use aegis_boot.Probe.Discover.Kept.{
  In, HasRow, HasFailure, IsKept, Grows, Grows-refl, Grows-trans, HasRow-Grows, Step,
  keep_entries-Step, keep_failures-Step,
}

module _ (r : Roots) (make : BootEntry → Text → DiscoveredIso) where
  -- What a root's scan asks of the report.
  abbrev pub Covers :
      (root : Text) → Outcome ScanReport → List DiscoveredIso → List FailedIso → Type 0
  Covers root (err e) isos failed = Unit {0}
  Covers root (ok report) isos failed =
      ((e : BootEntry)
        → In e report.entries
        → HasRow r make e.source_iso (size_in r root e.source_iso) isos)
      × ((f : ScanFailure) → In f report.failures → HasFailure r make (path_text f.iso_path) failed)

  walked-Step : (g : Gathered) → IsKept r make g → Step r make g (walked r make g)
  walked-Step g k = (
    record { row_of = k.row_of; failure_of = k.failure_of },
    record { rows = λ x i. i; failures = λ x i. i },
  )

  keep_scan-Step :
      (root : Text) (o : Outcome ScanReport) (g : Gathered)
      → IsKept r make g
      → Step r make g (keep_scan r make root o g).0
        × Covers root o (keep_scan r make root o g).0.isos (keep_scan r make root o g).0.failed
  unfolding keep_scan
  keep_scan-Step root (err (IsoError.no_boot_entries path)) g k = (walked-Step g k, tt)
  keep_scan-Step root (err (IsoError.io e)) g k = ((k, Grows-refl r make g), tt)
  keep_scan-Step root (err (IsoError.mount_failed e)) g k = ((k, Grows-refl r make g), tt)
  keep_scan-Step root (err (IsoError.path_traversal e)) g k = ((k, Grows-refl r make g), tt)
  keep_scan-Step root (ok report) g k =
      let g1 = walked r make g in
      let g2 = keep_entries r make root report.entries g1 in
      let g3 = keep_failures r make report.failures g2 in
      let (k1, a) = walked-Step g k in
      let ((k2, b), rows) = keep_entries-Step r make root report.entries g1 k1 in
      let ((k3, c), failures) = keep_failures-Step r make report.failures g2 k2 in
      (
        (k3, Grows-trans r make g g1 g3 a (Grows-trans r make g1 g2 g3 b c)),
        (
          λ e i. HasRow-Grows r make e.source_iso (size_in r root e.source_iso) g2 g3 c (rows e i),
          failures,
        ),
      )

  -- The report has all that was gathered.
  record Reports (g : Gathered) (report : DiscoveryReport) : Type 0 where
    all_rows : (x : DiscoveredIso) → In x g.isos → In x report.isos
    all_failures : (x : FailedIso) → In x g.failed → In x report.failed

  Covers-Reports :
      (root : Text) (o : Outcome ScanReport) (g : Gathered) (report : DiscoveryReport)
      → Reports g report
      → Covers root o g.isos g.failed
      → Covers root o report.isos report.failed
  Covers-Reports root (err e) g report a c = tt
  Covers-Reports root (ok found) g report a (rows, failures) = (
    λ e i. let (e', root', j, n, s) = rows e i in (e', root', a.all_rows (make e' root') j, n, s),
    λ f i. let (f', j, p) = failures f i in (f', a.all_failures (failed_iso f') j, p),
  )

  abbrev gathered : Gathered → DiscoveryReport
  gathered g = record { isos = g.isos; failed = g.failed }

  tried-Step :
      (root : Text) (g : Gathered)
      → IsKept r make g
      → Step r make g (tried r make root g).0
        × (r.exists root ≡ true
            → Covers root (r.scan root) (tried r make root g).0.isos (tried r make root g).0.failed)
  unfolding tried
  tried-Step root g k = elim (Bool-cases (r.exists root)) [
    | inl e ↦ let (s, c) = keep_scan-Step root (r.scan root) g k in rw e (s, λ h. c)
    | inr e ↦ rw e ((k, Grows-refl r make g), λ h. cc)
  ]

  scan_roots-tried :
      (root : Text) (roots : List Text) (g : Gathered) (report : DiscoveryReport)
      → scan_roots r make (root ∷ roots) g ≡ discovered report
      → scan_roots r make roots (tried r make root g).0 ≡ discovered report
  unfolding scan_roots
  scan_roots-tried root roots g report h = elim (Option-cases (tried r make root g).1) [
    | inl n ↦ ground (arith, h, n)
    | inr (e, s) ↦ absurd (ground (arith, h, s))
  ]

  ended-Reports :
      (g : Gathered) (report : DiscoveryReport)
      → ended r make g ≡ discovered report
      → Reports g report
  unfolding ended
  ended-Reports g report h =
      elim (Bool-cases (not g.walk_succeeded_somewhere || no_rows r make g.isos g.failed)) [
        | inl e ↦ absurd (ground (arith, h, e))
        | inr e ↦
            let same : gathered g ≡ report = ground (arith, h, e) in
            record {
              all_rows = λ x i. subst (λ (y : DiscoveryReport). In x y.isos) same i;
              all_failures = λ x i. subst (λ (y : DiscoveryReport). In x y.failed) same i;
            }
      ]

  Reports-Grows :
      (g h : Gathered) (report : DiscoveryReport)
      → Grows r make g h
      → Reports h report
      → Reports g report
  Reports-Grows g h report a b = record {
    all_rows = λ x i. b.all_rows x (a.rows x i);
    all_failures = λ x i. b.all_failures x (a.failures x i);
  }

  scan_roots-Covers :
      (roots : List Text) (g : Gathered) (report : DiscoveryReport)
      → IsKept r make g
      → scan_roots r make roots g ≡ discovered report
      → Reports g report
        × ((root : Text)
            → In root roots
            → r.exists root ≡ true
            → Covers root (r.scan root) report.isos report.failed)
  unfolding scan_roots
  scan_roots-Covers [] g report k h = (ended-Reports g report h, λ root i e. elim i [ ])
  scan_roots-Covers (root ∷ roots) g report k h =
      let g' = (tried r make root g).0 in
      let ((k', a), c) = tried-Step root g k in
      let (b, rest) =
        scan_roots-Covers roots g' report k' (scan_roots-tried root roots g report h) in
      (
        Reports-Grows g g' report a b,
        λ x i e. elim i [
          | inr j ↦ rest x j e
          | inl p ↦
              let e' = ap r.exists (sym p) ∙ e in
              subst (λ y. Covers y (r.scan y) report.isos report.failed) (sym p)
                (Covers-Reports root (r.scan root) g' report b (c e'))
        ],
      )

  -- Of a discovery that succeeds: every boot entry that the scan of a root that is there has found
  -- has a row in the report, made of an entry of an ISO of the same name and size, and every failure
  -- of such a scan has a row for its path.
  pub discover-Covers :
      (roots : List Text) (report : DiscoveryReport)
      → discover r make roots ≡ discovered report
      → (root : Text) → In root roots
      → r.exists root ≡ true
      → Covers root (r.scan root) report.isos report.failed
  unfolding discover
  discover-Covers roots report h root i e =
      (scan_roots-Covers roots (nothing r make) report
          (record { row_of = λ name size q. cc; failure_of = λ path q. cc }) h).1
        root i e
