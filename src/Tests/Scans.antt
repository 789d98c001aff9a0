-- ===== src/Tests/Scans.antt =====
-- The theorems on the scan of ISO files, applied to a small tree and to one live medium.
use aegis_boot.Prelude.{
  ◌≤◌, ◌≡◌, Bool, true, false, ◌||◌, ◌&&◌, none, some, List, [], ◌∷◌, ◌++◌, Text, codes,
  to_ascii_lowercase, len,
}
use aegis_boot.Prelude.Answers.{value}
use aegis_boot.Iso.{debian}
use aegis_boot.Parser.{
  root_dir, normal, FilePath, IsoError, IsoEnvironment, ok, err, BootEntry, component_eq,
  sanitize_reason,
}
use aegis_boot.Parser.Reasons.{is_printable, sanitize_reason_bounds}
use aegis_boot.Parser.Scan.{file, dir, Listing, unreadable, nil, cons}

abbrev mount_point : FilePath
mount_point = root_dir ∷ normal (codes "m") ∷ []

abbrev in_casper : Text → FilePath
in_casper name = mount_point ++ normal (codes "casper") ∷ normal name ∷ []

abbrev same_path : FilePath → FilePath → Bool
same_path [] [] = true
same_path (c ∷ p) (d ∷ q) = component_eq c d && same_path p q
same_path _ _ = false

-- A medium with a live directory that holds a kernel and an initrd.
abbrev live : IsoEnvironment
live = record {
  list_dir = λ p. value (in_casper (codes "vmlinuz") ∷ []);
  exists = λ p.
      same_path p (mount_point ++ normal (codes "casper") ∷ [])
      || same_path p (in_casper (codes "initrd.gz"));
  read_to_string = λ p. none;
  mount_iso = λ p. ok mount_point;
  to_lowercase = λ s. to_ascii_lowercase s;
}

abbrev blank : IsoEnvironment
blank = record live { exists = λ p. false }

abbrev broken : IsoEnvironment
broken = record live { mount_iso = λ p. err (IsoError.mount_failed (codes "busy")) }

abbrev ubuntu : FilePath
ubuntu = root_dir ∷ normal (codes "ubuntu.iso") ∷ []

abbrev live_entry : BootEntry
live_entry = record {
  label = codes "Debian/Ubuntu ";
  kernel = normal (codes "casper") ∷ normal (codes "vmlinuz") ∷ [];
  initrd = some (normal (codes "casper") ∷ normal (codes "initrd.gz") ∷ []);
  kernel_args = some (codes "boot=casper locale=en_US.UTF-8 keyboard-configuration/layoutcode=us");
  distribution = debian;
  source_iso = codes "ubuntu.iso";
  pretty_name = none;
}

abbrev tree : Listing
tree = cons (file (codes "a.ISO")) (
    cons (dir (codes "isos") (cons (file (codes "b.iso")) nil)) (
      cons (dir (codes "proc") (cons (file (codes "c.iso")) nil))
        (cons (dir (codes "bad") (unreadable (codes "denied"))) nil)))

abbrev inner : FilePath
inner = root_dir ∷ normal (codes "isos") ∷ normal (codes "b.iso") ∷ []

abbrev found : List FilePath
found = (root_dir ∷ normal (codes "a.ISO") ∷ []) ∷ inner ∷ []

sanitize_reason_bounds_example :
    (out : Text) × (sanitize_reason (codes "mount: bad\tsuperblock\n") ≡ some out)
    × (len out ≤ 259)
    × (is_printable out ≡ true)
sanitize_reason_bounds_example = sanitize_reason_bounds (codes "mount: bad\tsuperblock\n")
