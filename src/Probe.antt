-- ===== src/Probe.antt =====
-- crates/iso-probe/src: discovery, the check of the sibling checksum and that of the sibling signature.
pub mod Checksum
pub mod Minisign
pub mod Rows
pub mod Discover
use aegis_boot.Prelude.{ℕ, Option, none, some, List, [], ◌∷◌, ◌++◌, Text, codes, file_name, pop}
use aegis_boot.Parser.Scan.{extension}

-- `set_extension` of a path to `<ext>.<suffix>`, or to `suffix` where there is no extension or an empty
-- one; a path with no file name stays.
unfoldable pub sidecar_path : (suffix path : Text) → Text
unfolding file_name extension pop
sidecar_path suffix path = elim (file_name path) [
  | none ↦ path
  | some name ↦ elim (extension name) [
    | none ↦ path ++ codes "." ++ suffix
    | some ext ↦ elim ext [ [] ↦ path ++ suffix | _ ∷ _ ↦ path ++ codes "." ++ suffix ]
  ]
]
