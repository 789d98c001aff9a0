-- ===== src/Parser/Scan/Reported.antt =====
-- crates/iso-parser/src/lib.rs: what a scan does with each ISO that the walk has found.
use aegis_boot.Prelude.{◌≡◌, ◌⊎◌, List, [], ◌∷◌, ◌++◌}
use aegis_boot.Parser.{
  FilePath, Outcome, ok, err, BootEntry, ScanFailure, ScanReport, from_iso_error,
}
use aegis_boot.Parser.Scan.{Mounting, mounted, unmounted}

-- Every mount is followed by the unmount of its own mount point.
abbrev pub IsBalanced : List Mounting → Type 0
IsBalanced [] = Unit
IsBalanced (mounted m ∷ []) = ⊥
IsBalanced (mounted m ∷ unmounted n ∷ log) = (m ≡ n) × IsBalanced log
IsBalanced (mounted m ∷ mounted n ∷ log) = ⊥
IsBalanced (unmounted m ∷ log) = ⊥

abbrev pub Holds : ScanFailure → List ScanFailure → Type 0
Holds f [] = ⊥
Holds f (g ∷ gs) = (f ≡ g) ⊎ Holds f gs

-- A run of consecutive entries of a list.
abbrev pub IsRun : List BootEntry → List BootEntry → Type 0
IsRun es all = (l : List BootEntry) × (r : List BootEntry) × (all ≡ l ++ (es ++ r))

-- The report shows an ISO's entries, or a failure with its path and the kind of its error.
abbrev pub IsShown : FilePath → Outcome (List BootEntry) → ScanReport → Type 0
IsShown iso (ok es) report = IsRun es report.entries
IsShown iso (err e) report =
    (f : ScanFailure) × Holds f report.failures × (f.iso_path ≡ iso) × (f.kind ≡ from_iso_error e)
