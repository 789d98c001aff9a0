-- ===== src/Status.antt =====
-- crates/rescue-tui/src/state.rs: the Secure Boot and TPM status that startup detects. What the
-- file system answers is an argument: the bytes of a file, the names in a directory, and whether
-- a path exists.
pub mod Enforcing
use aegis_boot.Prelude.{
  ℕ, Bool, ◌||◌, Option, none, some, List, [], ◌∷◌, ◌++◌, Text, codes, is_prefix, get_elem?, ◌==◌,
  if◌then◌else◌,
}

pub data SecureBootStatus : Type 0 where
  enforcing disabled unknown : SecureBootStatus

pub data TpmStatus : Type 0 where
  available absent : TpmStatus

-- What startup reads: `none` where a file or the directory cannot be read.
pub record Efivars : Type 0 where
  pub read : Text → Option (List ℕ)
  pub read_dir : Text → Option (List Text)
  pub exists : Text → Bool

abbrev pub efivars_dir : Text
efivars_dir = codes "/sys/firmware/efi/efivars"

-- The bytes of the variable: four of attributes, then the value.
unfoldable pub read_sb_bit : Efivars → Text → Option SecureBootStatus
read_sb_bit fs path = elim (fs.read path) [
  | none ↦ none
  | some bytes ↦ elim (get_elem? bytes 4) [
    | none ↦ none
    | some value ↦ some (if value == 1 then enforcing else disabled)
  ]
]

-- A loop over paths that returns the first status it reads.
unfoldable pub first_readable : Efivars → List Text → Option SecureBootStatus
unfolding read_sb_bit
first_readable fs [] = none
first_readable fs (p ∷ ps) =
    let rest = first_readable fs ps in elim (read_sb_bit fs p) [ none ↦ rest | some s ↦ some s ]

-- The paths of the directory scan: the entries whose name starts with `SecureBoot-`.
unfoldable pub scan_paths : List Text → List Text
scan_paths [] = []
scan_paths (name ∷ names) =
    let rest = scan_paths names in
    if is_prefix (codes "SecureBoot-") name then (efivars_dir ++ codes "/" ++ name) ∷ rest else rest

abbrev pub candidates : List Text
candidates =
    codes "/sys/firmware/efi/efivars/SecureBoot-8be4df61-93ca-11d2-aa0d-00e098032b8c"
    ∷ codes "/sys/firmware/efi/efivars/SecureBoot"
    ∷ []

unfoldable pub detect_secure_boot : Efivars → SecureBootStatus
unfolding first_readable scan_paths
detect_secure_boot fs = elim (first_readable fs candidates) [
  | some s ↦ s
  | none ↦ elim (fs.read_dir efivars_dir) [
    | none ↦ unknown
    | some names ↦ elim (first_readable fs (scan_paths names)) [ none ↦ unknown | some s ↦ s ]
  ]
]

pub detect_tpm : Efivars → TpmStatus
detect_tpm fs =
    if fs.exists (codes "/dev/tpm0") || fs.exists (codes "/dev/tpmrm0") then available else absent
