-- ===== src/Tests/Discoveries.antt =====
-- crates/iso-probe/src/lib.rs: `discover` at two roots that share a directory, with an ISO of two boot entries.
use aegis_boot.Prelude.{
  ◌≡◌, inl, refl, true, false, none, some, [], ◌∷◌, Text, codes, text_eq, if◌then◌else◌,
}
use aegis_boot.Prelude.Answers.{value}
use aegis_boot.Iso.{DiscoveredIso, HashVerification, SignatureVerification, debian}
use aegis_boot.Parser.{normal, root_dir, ok, BootEntry, ScanReport, ScanFailure, ScanFailureKind}
use aegis_boot.Parser.Scan.{file, dir, nil, cons}
use aegis_boot.Probe.Rows.{boot_entry_to_discovered}
use aegis_boot.Probe.Discover.{
  Roots, DiscoveryReport, discovered, failing, no_isos_found, find_iso_size, discover,
}
use aegis_boot.Probe.Discover.Shown.{Covers, discover-Covers}
use aegis_boot.Probe.Discover.Firsts.{firsts, rows, scanned, discover-firsts}

abbrev entry : (source_iso label : Text) → BootEntry
entry source_iso label = record {
  label = label;
  kernel = normal (codes "vmlinuz") ∷ [];
  initrd = none;
  kernel_args = none;
  distribution = debian;
  source_iso = source_iso;
  pretty_name = none;
}

abbrev lts : BootEntry
lts = entry (codes "a.iso") (codes "lts")

abbrev virt : BootEntry
virt = entry (codes "a.iso") (codes "virt")

abbrev other : BootEntry
other = entry (codes "b.iso") (codes "b")

abbrev broken : ScanFailure
broken = record {
  iso_path = root_dir ∷ normal (codes "m") ∷ normal (codes "c.iso") ∷ [];
  reason = codes "Mount failed";
  kind = ScanFailureKind.mount_failed;
}

abbrev report : ScanReport
report = record { entries = lts ∷ virt ∷ other ∷ []; failures = broken ∷ [] }

-- `/m` holds `x`, and `/m/x` the two ISOs; both are roots.
abbrev roots : Roots
roots = record {
  exists = λ p. true;
  scan = λ p. ok report;
  is_not_found = λ e. true;
  below = λ p.
      if text_eq p (codes "/m")
      then cons (dir (codes "x") (cons (file (codes "a.iso")) (cons (file (codes "b.iso")) nil)))
          nil
      else nil;
  regular_size = λ p. if text_eq p (codes "/m/x/a.iso") then some 7 else none;
  len = λ p. if text_eq p (codes "/m/x/a.iso") then some 7 else some 9;
}

abbrev make : BootEntry → Text → DiscoveredIso
make =
    boot_entry_to_discovered (λ p. value HashVerification.not_present)
      (λ p. SignatureVerification.not_present) (λ p. none) (λ p. value none)

found_below : find_iso_size roots (codes "/m") (codes "a.iso") ≡ some 7
unfolding find_iso_size
found_below = refl

abbrev two_rows : DiscoveryReport
two_rows = record {
  isos = make lts (codes "/m") ∷ make other (codes "/m") ∷ [];
  failed = (scanned roots make (codes "/m") report).failed;
}

discover-firsts_example :
    discover roots make (codes "/m" ∷ [])
    ≡ discovered (record {
      isos = rows roots make (codes "/m") (firsts [] (lts ∷ virt ∷ other ∷ []));
      failed = (scanned roots make (codes "/m") report).failed;
    })
discover-firsts_example =
    discover-firsts roots make (codes "/m") report lts (virt ∷ other ∷ []) refl refl refl

one_root : discover roots make (codes "/m" ∷ []) ≡ discovered two_rows
unfolding discover
one_root = refl

discover-Covers_example : Covers roots make (codes "/m") (ok report) two_rows.isos two_rows.failed
discover-Covers_example =
    discover-Covers roots make (codes "/m" ∷ []) two_rows one_root (codes "/m") (inl refl) refl

nothing_there :
    discover (record roots { exists = λ p. false }) make (codes "/m" ∷ []) ≡ failing no_isos_found
unfolding discover
nothing_there = refl
