-- ===== src/Parser.antt =====
-- crates/iso-parser/src/lib.rs: the scan of a directory for ISO files and of each file for boot entries.
-- A path is the list of its components. What the file system and the mounts answer is the record
-- `IsoEnvironment`, in which `to_lowercase` is Rust's.
pub mod Layouts
pub mod Names
pub mod Scan
pub mod Reasons
use aegis_boot.Prelude.{
  ◌≡◌, ◌⊎◌, inl, inr, refl, ℕ, zero, suc, Bool, true, false, ◌&&◌, ◌||◌, not, Option, none, some,
  List, [], ◌∷◌, ◌++◌, map, Text, codes, text_eq, is_prefix, contains, len, is_char_boundary,
  split_at, ltb, leb, ◌==◌, if◌then◌else◌, unwrap_or,
}
use aegis_boot.Prelude.Answers.{Answer}
use aegis_boot.Prelude.Decimal.{trim}
use aegis_boot.Prelude.Parse.{strip_prefix}
use aegis_boot.Iso.{Distribution, arch, debian, fedora, red_hat, alpine, nixos, windows, unknown}

-- `std::path::Component`
pub data Component : Type 0 where
  root_dir cur_dir parent_dir : Component
  normal : Text → Component

abbrev pub FilePath : Type 0
FilePath = List Component

pub data IsoError : Type 0 where
  io no_boot_entries mount_failed path_traversal : Text → IsoError

pub data Outcome (A : Type 0) : Type 0 where
  ok : A → Outcome A
  err : IsoError → Outcome A

infixl 5 ◌>>=◌
abbrev pub ◌>>=◌ : {A B : Type 0} → Outcome A → (A → Outcome B) → Outcome B
ok a >>= f = f a
err e >>= f = err e

pub Outcome-cases :
    {A : Type 0} (r : Outcome A) → ((a : A) × (r ≡ ok a)) ⊎ ((e : IsoError) × (r ≡ err e))
Outcome-cases (ok a) = inl (a, refl)
Outcome-cases (err e) = inr (e, refl)

pub data ScanFailureKind : Type 0 where
  io_error mount_failed no_boot_entries : ScanFailureKind

unfoldable pub from_iso_error : IsoError → ScanFailureKind
from_iso_error (IsoError.mount_failed _) = ScanFailureKind.mount_failed
from_iso_error (IsoError.no_boot_entries _) = ScanFailureKind.no_boot_entries
from_iso_error (IsoError.io _) = io_error
from_iso_error (IsoError.path_traversal _) = io_error

pub record BootEntry : Type 0 where
  pub label : Text
  pub kernel : FilePath
  pub initrd : Option FilePath
  pub kernel_args : Option Text
  pub distribution : Distribution
  pub source_iso : Text
  pub pretty_name : Option Text

pub record ScanFailure : Type 0 where
  pub iso_path : FilePath
  pub reason : Text
  pub kind : ScanFailureKind

pub record ScanReport : Type 0 where
  pub entries : List BootEntry
  pub failures : List ScanFailure

pub record IsoEnvironment : Type 0 where
  pub list_dir : FilePath → Answer (List FilePath)
  pub exists : FilePath → Bool
  pub read_to_string : FilePath → Option Text
  pub mount_iso : FilePath → Outcome FilePath
  pub to_lowercase : Text → Text

unfoldable pub component_eq : Component → Component → Bool
component_eq root_dir root_dir = true
component_eq cur_dir cur_dir = true
component_eq parent_dir parent_dir = true
component_eq (normal s) (normal t) = text_eq s t
component_eq _ _ = false

-- `path.strip_prefix(base)`, by components; `path.starts_with(base)` is its success.
unfoldable pub strip_base : FilePath → FilePath → Option FilePath
strip_base [] p = some p
strip_base (c ∷ b) [] = none
strip_base (c ∷ b) (d ∷ p) = let rest = strip_base b p in if component_eq c d then rest else none

-- The text of a path: a slash at the root and one between two components.
abbrev component_text : Component → Text
component_text root_dir = []
component_text cur_dir = codes "."
component_text parent_dir = codes ".."
component_text (normal s) = s

unfoldable pub path_text : FilePath → Text
path_text [] = []
path_text (root_dir ∷ []) = codes "/"
path_text (c ∷ []) = component_text c
path_text (c ∷ d ∷ p) = component_text c ++ codes "/" ++ path_text (d ∷ p)

-- `file_name().and_then(to_str)`, where every name is UTF-8.
unfoldable pub name_of : FilePath → Option Text
name_of [] = none
name_of (normal s ∷ []) = some s
name_of (root_dir ∷ []) = none
name_of (cur_dir ∷ []) = none
name_of (parent_dir ∷ []) = none
name_of (c ∷ d ∷ p) = name_of (d ∷ p)

unfoldable pub has_parent_dir : FilePath → Bool
has_parent_dir [] = false
has_parent_dir (parent_dir ∷ p) = true
has_parent_dir (root_dir ∷ p) = has_parent_dir p
has_parent_dir (cur_dir ∷ p) = has_parent_dir p
has_parent_dir (normal s ∷ p) = has_parent_dir p

unfoldable pub validate_path : (base path : FilePath) → Outcome FilePath
unfolding has_parent_dir strip_base path_text
validate_path base path =
    if has_parent_dir path
    then err (IsoError.path_traversal (path_text path))
    else elim (strip_base base path) [
      | none ↦ err (IsoError.path_traversal (path_text path))
      | some _ ↦ ok path
    ]

abbrev pub has_any : Text → List Text → Bool
has_any s [] = false
has_any s (w ∷ ws) = contains s w || has_any s ws

-- `ends_with`
unfoldable pub ends_with : Text → Text → Bool
ends_with [] s = text_eq [] s
ends_with (c ∷ t) s = text_eq (c ∷ t) s || ends_with t s

classified : Text → Distribution
unfolding ends_with
classified s =
    if has_any s
      (codes "bootmgr" ∷ codes "sources/boot.wim" ∷ codes "efi/microsoft" ∷ codes "windows" ∷ [])
    then windows
    else if contains s (codes "nixos") || ends_with s (codes "bzimage")
    then nixos
    else if has_any s (
        codes "alpine"
        ∷ codes "vmlinuz-lts"
        ∷ codes "vmlinuz-virt"
        ∷ codes "initramfs-lts"
        ∷ codes "initramfs-virt"
        ∷ [])
    then alpine
    else if has_any s (codes "rhel" ∷ codes "rocky" ∷ codes "almalinux" ∷ codes "centos" ∷ [])
    then red_hat
    else if has_any s (codes "fedora" ∷ codes "images" ∷ codes "pxeboot" ∷ [])
    then fedora
    else if has_any s (codes "debian" ∷ codes "ubuntu" ∷ codes "casper" ∷ [])
    then debian
    else if contains s (codes "arch")
        || (contains s (codes "boot")
            && not (contains s (codes "efi"))
            && not (contains s (codes "images")))
    then arch
    else unknown

unfoldable pub from_paths : (Text → Text) → FilePath → Distribution
unfolding classified path_text
from_paths to_lowercase p = classified (to_lowercase (path_text p))

-- `char::is_control`
abbrev pub is_control : ℕ → Bool
is_control c = ltb c 32 || (leb 127 c && leb c 159)

abbrev pub max_reason_len : ℕ
max_reason_len = 256

-- `while !trimmed.is_char_boundary(end) { end -= 1 }`; at 0 there is a boundary.
unfoldable pub cut_back : Text → ℕ → ℕ
cut_back s zero = zero
cut_back s (suc n) = let back = cut_back s n in if is_char_boundary s (suc n) then suc n else back

-- `&trimmed[..end]`, which panics off a boundary: `none`.
unfoldable pub truncated : ℕ → Text → Option Text
truncated end s = elim (split_at s (cut_back s end)) [
  | none ↦ none
  | some (l, r) ↦ some (l ++ codes "…")
]

unfoldable pub sanitize_reason : Text → Option Text
sanitize_reason raw =
    let trimmed = trim (map (λ c. if is_control c then 32 else c) raw) in
    if leb (len trimmed) max_reason_len then some trimmed else truncated max_reason_len trimmed
