-- ===== src/Parser/Layouts/Absent.antt =====
-- crates/iso-parser/src/lib.rs: a medium on which no layout finds anything.
use mathlib.Core.List.{append_assoc}
use aegis_boot.Prelude.{◌≡◌, refl, false, Option, none, some, [], ◌∷◌, ◌++◌, Text, codes, arith}
use aegis_boot.Parser.{FilePath, normal, IsoEnvironment, ok}
use aegis_boot.Parser.Names.{read_pretty_name}
use aegis_boot.Parser.Layouts.{
  try_arch_layout, try_debian_layout, try_fedora_layout, try_windows_layout, any_exists,
  extract_boot_entries, named, bootmgr, boot_wim, efi_ms_boot,
}

named_nothing : (env : IsoEnvironment) (n : Option Text) → named env n [] ≡ []
named_nothing env none = refl
named_nothing env (some n) = refl

-- The extraction succeeds with no entry where none of the paths that the layouts look for exists.
pub extract-absent :
    (env : IsoEnvironment) (mount_point source_iso : FilePath)
    → ((p : FilePath) → env.exists (mount_point ++ p) ≡ false)
    → extract_boot_entries env mount_point source_iso ≡ ok []
unfolding extract_boot_entries try_arch_layout try_debian_layout try_fedora_layout
    try_windows_layout any_exists
extract-absent env mount_point source_iso h = ground (
  arith,
  h (normal (codes "boot") ∷ []),
  h (normal (codes "install") ∷ []),
  h (normal (codes "casper") ∷ []),
  h (normal (codes ".disk") ∷ []),
  h (normal (codes "pool") ∷ []),
  h (normal (codes "dists") ∷ []),
  h (normal (codes "images") ∷ normal (codes "pxeboot") ∷ []),
  append_assoc mount_point (normal (codes "images") ∷ []) (normal (codes "pxeboot") ∷ []),
  h (normal (codes "isolinux") ∷ []),
  h (bootmgr env),
  h (boot_wim env),
  h (efi_ms_boot env),
  named_nothing env (read_pretty_name env mount_point),
)
