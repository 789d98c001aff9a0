-- ===== src/Parser/Layouts.antt =====
-- crates/iso-parser/src/lib.rs: the boot entries of a mounted ISO, by the layouts of the distributions.
pub mod Built
pub mod Sound
pub mod Absent
use aegis_boot.Prelude.{
  ℕ, Bool, true, false, ◌||◌, Option, none, some, List, [], ◌∷◌, ◌++◌, map, Text, codes, is_prefix,
  unwrap_or, ◌==◌, if◌then◌else◌,
}
use aegis_boot.Prelude.Answers.{Answer, value, failure}
use aegis_boot.Prelude.Decimal.{trim}
use aegis_boot.Prelude.Parse.{strip_prefix}
use aegis_boot.Iso.{Distribution, arch, debian, fedora, alpine, windows}
use aegis_boot.Parser.{
  FilePath, normal, IsoEnvironment, IsoError, Outcome, ok, err, ◌>>=◌, BootEntry, strip_base,
  name_of, from_paths,
}
use aegis_boot.Parser.Names.{drop_end, read_pretty_name}

-- `file_name().and_then(to_str).unwrap_or("")`
abbrev name_or_empty : FilePath → Text
name_or_empty p = unwrap_or [] (name_of p)

abbrev source_name : FilePath → Text
source_name p = unwrap_or (codes "unknown") (name_of p)

-- What stands behind `prefix` in a name, or else nothing.
abbrev behind : Text → Text → Text
behind prefix name = unwrap_or [] (strip_prefix prefix name)

abbrev escape : Text → IsoError
escape what = IsoError.io (what ++ codes " path escape")

-- `strip_prefix(mount_point)`, and its error.
relative : Text → (mount_point path : FilePath) → Outcome FilePath
unfolding strip_base
relative what mount_point path = elim (strip_base mount_point path) [
  | none ↦ err (escape what)
  | some p ↦ ok p
]

-- The relative path of an initrd that has been found.
relative_initrd : (mount_point : FilePath) → Option FilePath → Outcome (Option FilePath)
unfolding relative
relative_initrd mount_point none = ok none
relative_initrd mount_point (some p) = do r ← relative (codes "Initrd") mount_point p; ok (some r)

-- The loop over the files of a directory that are named like a kernel.
kernels_in : (FilePath → Outcome BootEntry) → List FilePath → Outcome (List BootEntry)
kernels_in entry_of [] = ok []
kernels_in entry_of (p ∷ ps) =
    let rest = kernels_in entry_of ps in
    if is_prefix (codes "vmlinuz") (name_or_empty p)
    then (do e ← entry_of p; es ← rest; ok (e ∷ es))
    else rest

abbrev listing : Answer (List FilePath) → Outcome (List FilePath)
listing (failure e) = err (IsoError.io e)
listing (value ps) = ok ps

module _ (env : IsoEnvironment) where
  -- `list_dir(dir)?`, then the loop.
  entries_in : FilePath → (FilePath → Outcome BootEntry) → Outcome (List BootEntry)
  unfolding kernels_in
  entries_in dir entry_of = do files ← listing (env.list_dir dir); kernels_in entry_of files

  -- The first of some paths that exists.
  first_existing : List FilePath → Option FilePath
  first_existing [] = none
  first_existing (p ∷ ps) = let rest = first_existing ps in if env.exists p then some p else rest

  -- The entry of a kernel: its relative path, and that of the first initrd that exists.
  built :
      (mount_point kernel : FilePath)
      → (initrds : List FilePath) → (FilePath → Option FilePath → BootEntry)
      → Outcome BootEntry
  unfolding relative relative_initrd first_existing
  built mount_point kernel initrds make = do
    rel_kernel ← relative (codes "Kernel") mount_point kernel
    rel_initrd ← relative_initrd mount_point (first_existing initrds)
    ok (make rel_kernel rel_initrd)

  abbrev boot_file : FilePath → Text → FilePath
  boot_file dir name = dir ++ normal name ∷ []

  abbrev arch_label : Distribution → Text → Text
  arch_label alpine name = codes "Alpine " ++ trim (behind (codes "vmlinuz-") name)
  arch_label arch name = codes "Arch Linux " ++ trim (behind (codes "vmlinuz") name)
  arch_label _ name = codes "Linux " ++ trim (behind (codes "vmlinuz") name)

  abbrev arch_args : Distribution → Option Text
  arch_args arch =
      some (codes "archisobasedir=arch archiso_http_server=https://mirror.archlinux.org")
  arch_args _ = none

  -- The initrds tried for a kernel of the generic layout.
  abbrev arch_initrds : (boot_dir : FilePath) (name : Text) → List FilePath
  arch_initrds boot_dir name =
      boot_file boot_dir (codes "initrd.img" ++ behind (codes "vmlinuz") name)
      ∷ boot_file boot_dir (codes "initrd.img")
      ∷ boot_file boot_dir (codes "initrd" ++ behind (codes "vmlinuz") name)
      ∷ []

  abbrev arch_made : (source_iso kernel : FilePath) → FilePath → Option FilePath → BootEntry
  arch_made source_iso kernel rel_kernel rel_initrd =
      let distribution = from_paths env.to_lowercase rel_kernel in
      record {
        label = arch_label distribution (name_or_empty kernel);
        kernel = rel_kernel;
        initrd = rel_initrd;
        kernel_args = arch_args distribution;
        distribution = distribution;
        source_iso = source_name source_iso;
        pretty_name = none;
      }

  pub arch_entry : (mount_point source_iso boot_dir kernel : FilePath) → Outcome BootEntry
  unfolding built from_paths
  arch_entry mount_point source_iso boot_dir kernel =
      built mount_point kernel (arch_initrds boot_dir (name_or_empty kernel))
        (arch_made source_iso kernel)

  unfoldable pub try_arch_layout : (mount_point source_iso : FilePath) → Outcome (List BootEntry)
  unfolding entries_in arch_entry
  try_arch_layout mount_point source_iso =
      let boot_dir = boot_file mount_point (codes "boot") in
      if env.exists boot_dir
      then entries_in boot_dir (arch_entry mount_point source_iso boot_dir)
      else ok []

  -- `is_casper` says that the directory is the live one.
  abbrev debian_made :
      (source_iso kernel : FilePath) → Bool → FilePath → Option FilePath → BootEntry
  debian_made source_iso kernel is_casper rel_kernel rel_initrd = record {
    label = codes "Debian/Ubuntu " ++ trim (behind (codes "vmlinuz") (name_or_empty kernel));
    kernel = rel_kernel;
    initrd = rel_initrd;
    kernel_args =
        if is_casper
        then some (codes "boot=casper locale=en_US.UTF-8 keyboard-configuration/layoutcode=us")
        else none;
    distribution = debian;
    source_iso = source_name source_iso;
    pretty_name = none;
  }

  abbrev debian_initrds : FilePath → List FilePath
  debian_initrds dir =
      boot_file dir (codes "initrd.lz")
      ∷ boot_file dir (codes "initrd.gz")
      ∷ boot_file dir (codes "initrd.img")
      ∷ boot_file dir (codes "initrd")
      ∷ []

  pub debian_entry :
      (mount_point source_iso dir : FilePath) → Bool → (kernel : FilePath) → Outcome BootEntry
  unfolding built
  debian_entry mount_point source_iso dir is_casper kernel =
      built mount_point kernel (debian_initrds dir) (debian_made source_iso kernel is_casper)

  debian_dir : (mount_point source_iso : FilePath) → Text → Bool → Outcome (List BootEntry)
  unfolding entries_in debian_entry
  debian_dir mount_point source_iso name is_casper =
      let dir = boot_file mount_point name in
      if env.exists dir
      then entries_in dir (debian_entry mount_point source_iso dir is_casper)
      else ok []

  any_exists : List FilePath → Bool
  any_exists [] = false
  any_exists (p ∷ ps) = env.exists p || any_exists ps

  abbrev markers : FilePath → List FilePath
  markers mount_point =
      boot_file mount_point (codes "install")
      ∷ boot_file mount_point (codes "casper")
      ∷ boot_file mount_point (codes ".disk")
      ∷ boot_file mount_point (codes "pool")
      ∷ boot_file mount_point (codes "dists")
      ∷ []

  -- The search paths in order, where there is a marker.
  debian_dirs : (mount_point source_iso : FilePath) → Outcome (List BootEntry)
  unfolding debian_dir
  debian_dirs mount_point source_iso = do
    installed ← debian_dir mount_point source_iso (codes "install") false
    live ← debian_dir mount_point source_iso (codes "casper") true
    booted ← debian_dir mount_point source_iso (codes "boot") false
    ok (installed ++ live ++ booted)

  unfoldable pub try_debian_layout : (mount_point source_iso : FilePath) → Outcome (List BootEntry)
  unfolding debian_dirs any_exists
  try_debian_layout mount_point source_iso =
      if any_exists (markers mount_point) then debian_dirs mount_point source_iso else ok []

  abbrev version_of : FilePath → Text
  version_of kernel = behind (codes "vmlinuz") (name_or_empty kernel)

  abbrev fedora_initrds : (dir : FilePath) → (version : Text) → List FilePath
  fedora_initrds dir version =
      boot_file dir (codes "initrd" ++ version ++ codes ".img")
      ∷ boot_file dir (codes "initrd.img")
      ∷ boot_file dir (codes "initrd" ++ drop_end (λ c. c == b'-') version ++ codes ".img")
      ∷ []

  -- Both Fedora layouts, with what they write in front of the version and as arguments.
  abbrev fedora_made :
      (title args : Text) → (source_iso kernel : FilePath) → FilePath → Option FilePath → BootEntry
  fedora_made title args source_iso kernel rel_kernel rel_initrd = record {
    label = title ++ trim (version_of kernel);
    kernel = rel_kernel;
    initrd = rel_initrd;
    kernel_args = some args;
    distribution = fedora;
    source_iso = source_name source_iso;
    pretty_name = none;
  }

  pub fedora_entry : (mount_point source_iso dir kernel : FilePath) → Outcome BootEntry
  unfolding built drop_end
  fedora_entry mount_point source_iso dir kernel =
      built mount_point kernel (fedora_initrds dir (version_of kernel)) (
        fedora_made (codes "Fedora ") (codes "inst.stage2=hd:LABEL=Fedora-39-x86_64") source_iso
          kernel)

  pub isolinux_entry : (mount_point source_iso kernel : FilePath) → Outcome BootEntry
  unfolding built
  isolinux_entry mount_point source_iso kernel =
      built mount_point kernel
        (boot_file (boot_file mount_point (codes "images")) (codes "initrd.img") ∷ [])
        (fedora_made (codes "Fedora (isolinux) ") (codes "inst.stage2=hd:LABEL=Fedora") source_iso
          kernel)

  unfoldable pub process_fedora_isolinux :
      (isolinux_dir mount_point source_iso : FilePath) → Outcome (List BootEntry)
  unfolding entries_in isolinux_entry
  process_fedora_isolinux isolinux_dir mount_point source_iso =
      entries_in isolinux_dir (isolinux_entry mount_point source_iso)

  unfoldable pub try_fedora_layout : (mount_point source_iso : FilePath) → Outcome (List BootEntry)
  unfolding entries_in fedora_entry process_fedora_isolinux
  try_fedora_layout mount_point source_iso =
      let images_dir = boot_file (boot_file mount_point (codes "images")) (codes "pxeboot") in
      let alt_dir = boot_file mount_point (codes "isolinux") in
      if env.exists images_dir
      then entries_in images_dir (fedora_entry mount_point source_iso images_dir)
      else if env.exists alt_dir
      then process_fedora_isolinux alt_dir mount_point source_iso
      else ok []

  -- Paths below the mount point, relative and as they are.
  abbrev bootmgr : FilePath
  bootmgr = normal (codes "bootmgr") ∷ []

  abbrev boot_wim : FilePath
  boot_wim = normal (codes "sources") ∷ normal (codes "boot.wim") ∷ []

  abbrev efi_ms_boot : FilePath
  efi_ms_boot = normal (codes "efi") ∷ normal (codes "microsoft") ∷ normal (codes "boot") ∷ []

  abbrev bootmgfw_efi : FilePath
  bootmgfw_efi = normal (codes "efi") ∷ normal (codes "boot") ∷ normal (codes "bootx64.efi") ∷ []

  abbrev windows_kernel : FilePath → FilePath
  windows_kernel mount_point =
      if env.exists (mount_point ++ bootmgr)
      then bootmgr
      else if env.exists (mount_point ++ bootmgfw_efi)
      then bootmgfw_efi
      else boot_wim

  abbrev windows_markers : FilePath → List FilePath
  windows_markers mount_point =
      (mount_point ++ bootmgr) ∷ (mount_point ++ boot_wim) ∷ (mount_point ++ efi_ms_boot) ∷ []

  abbrev windows_made : (mount_point source_iso : FilePath) → BootEntry
  windows_made mount_point source_iso = record {
    label = codes "Windows (not kexec-bootable)";
    kernel = windows_kernel mount_point;
    initrd = none;
    kernel_args = none;
    distribution = windows;
    source_iso = source_name source_iso;
    pretty_name = none;
  }

  unfoldable pub try_windows_layout : (mount_point source_iso : FilePath) → Outcome (List BootEntry)
  unfolding any_exists
  try_windows_layout mount_point source_iso =
      if any_exists (windows_markers mount_point)
      then ok (windows_made mount_point source_iso ∷ [])
      else ok []

  abbrev named : Option Text → List BootEntry → List BootEntry
  named none es = es
  named (some n) es = map (λ (e : BootEntry). record e { pretty_name = some n }) es

  unfoldable pub extract_boot_entries :
      (mount_point source_iso : FilePath) → Outcome (List BootEntry)
  unfolding try_arch_layout try_debian_layout try_fedora_layout try_windows_layout read_pretty_name
  extract_boot_entries mount_point source_iso = do
    generic ← try_arch_layout mount_point source_iso
    debians ← try_debian_layout mount_point source_iso
    fedoras ← try_fedora_layout mount_point source_iso
    installers ← try_windows_layout mount_point source_iso
    ok (named (read_pretty_name env mount_point) (generic ++ debians ++ fedoras ++ installers))
