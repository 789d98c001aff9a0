-- ===== src/Update.antt =====
-- crates/aegis-cli/src/update.rs and update_apply.rs: the update of a stick's signed chain in place. Here
-- the comparison of the stick's files with the host's, and the plan that is made of it. What the
-- tools answer is the record `Mtools` over a state `Esp`.
pub mod Rotate
pub mod Rollback
pub mod Fat
pub mod Frame
pub mod Undo
pub mod Landed
pub mod Complete
pub mod Window
pub mod Progress
pub mod Restored
use aegis_boot.Prelude.{
  ℕ, Bool, true, false, ◌&&◌, not, Option, none, some, List, [], ◌∷◌, ◌++◌, Text, codes, text_eq,
  len, len_utf8, to_ascii_lowercase, is_prefix, ◌==◌, if◌then◌else◌,
}
use aegis_boot.Prelude.Answers.{Answer, value, failure}
use aegis_boot.Prelude.Decimal.{trim, is_whitespace, trim_start, trim_end}
use aegis_boot.Prelude.Parse.{all_hexdigits}

-- How a command ends: not started, with a status that is no success, or well.
pub data Exit : Type 0 where
  not_started : Text → Exit
  unsuccessful : (status stderr : Text) → Exit
  success : Exit

-- `sudo` runs a command of mtools by its words; `mtype` prints a file of the partition, `sha256sum`
-- prints the digest of its input; `debug` is `{:?}`.
pub record Mtools (Esp : Type 0) : Type 0 where
  pub sudo : List Text → Esp → Esp × Exit
  pub mtype : (device target : Text) → Esp → Answer (List ℕ)
  pub sha256sum : List ℕ → Answer Text
  pub debug : Text → Text

pub record HostChainEntry : Type 0 where
  pub role : Text
  pub sha256 : Answer Text

pub record EspFileDiff : Type 0 where
  pub role : Text
  pub esp_path : Text
  pub current : Answer Text
  pub fresh : Answer Text

pub record RotationStep : Type 0 where
  pub role : Text
  pub esp_path : Text
  pub current_sha256 : Text
  pub fresh_sha256 : Text

-- `split_whitespace().next()`
unfoldable pub until_whitespace : Text → Text
until_whitespace [] = []
until_whitespace (c ∷ s) = let rest = until_whitespace s in if is_whitespace c then [] else c ∷ rest

unfoldable pub parse_sha256_stdout : (debug : Text → Text) → Text → Answer Text
unfolding until_whitespace trim trim_start trim_end is_whitespace len len_utf8 all_hexdigits
    to_ascii_lowercase
parse_sha256_stdout debug stdout =
    let s = until_whitespace (trim stdout) in
    if len s == 64 && all_hexdigits s
    then value (to_ascii_lowercase s)
    else failure (codes "sha256sum output malformed: " ++ debug stdout)

module _ {Esp : Type 0} (m : Mtools Esp) where
  unfoldable pub sha256_stdin : List ℕ → Answer Text
  unfolding parse_sha256_stdout
  sha256_stdin bytes = elim (m.sha256sum bytes) [
    | failure e ↦ failure e
    | value stdout ↦ parse_sha256_stdout m.debug stdout
  ]

  -- The digest of a file on the partition.
  unfoldable pub mtype_sha256 : (part esp_path : Text) → Esp → Answer Text
  unfolding sha256_stdin is_prefix
  mtype_sha256 part esp_path s =
      if is_prefix (codes "/") esp_path
      then elim (m.mtype part (codes "::" ++ esp_path) s) [
        | failure e ↦ failure e
        | value bytes ↦ sha256_stdin bytes
      ]
      else failure (codes "ESP path must be absolute (start with '/'), got " ++ m.debug esp_path)

-- `chain.iter().find(|e| e.role == role)`, and its digest.
unfoldable pub lookup_chain_sha : List HostChainEntry → Text → Answer Text
unfolding text_eq
lookup_chain_sha [] role =
    failure
      (codes "host-side source for role '" ++ role ++ codes "' missing from chain — internal bug")
lookup_chain_sha (e ∷ es) role =
    let rest = lookup_chain_sha es role in if text_eq e.role role then e.sha256 else rest

abbrev pub esp_diff_slots : List (Text × Text × Text)
esp_diff_slots =
    (codes "shim", codes "/EFI/BOOT/BOOTX64.EFI", codes "shim")
    ∷ (codes "grub", codes "/EFI/BOOT/grubx64.efi", codes "grub")
    ∷ (codes "grub_cfg_boot", codes "/EFI/BOOT/grub.cfg", codes "grub_cfg")
    ∷ (codes "grub_cfg_ubuntu", codes "/EFI/ubuntu/grub.cfg", codes "grub_cfg")
    ∷ (codes "kernel", codes "/vmlinuz", codes "kernel")
    ∷ (codes "initrd", codes "/initrd.img", codes "initrd")
    ∷ []

module _ {Esp : Type 0} (m : Mtools Esp) (part : Text) (chain : List HostChainEntry) (s : Esp) where
  diff_row : Text × Text × Text → EspFileDiff
  unfolding mtype_sha256 lookup_chain_sha
  diff_row (role, esp_path, source_role) = record {
    role = role;
    esp_path = esp_path;
    current = mtype_sha256 m part esp_path s;
    fresh = lookup_chain_sha chain source_role;
  }

  diff_rows : List (Text × Text × Text) → List EspFileDiff
  unfolding diff_row
  diff_rows [] = []
  diff_rows (slot ∷ slots) = diff_row slot ∷ diff_rows slots

  unfoldable pub build_esp_diff : List EspFileDiff
  unfolding diff_rows
  build_esp_diff = diff_rows esp_diff_slots

abbrev both_differ : Answer Text → Answer Text → Bool
both_differ (value a) (value b) = not (text_eq a b)
both_differ (value a) (failure e) = false
both_differ (failure e) _ = false

abbrev pub would_change : EspFileDiff → Bool
would_change row = both_differ row.current row.fresh

abbrev step_of : EspFileDiff → Answer Text → Answer Text → Option RotationStep
step_of row (value current) (value fresh) = some (record {
  role = row.role;
  esp_path = row.esp_path;
  current_sha256 = current;
  fresh_sha256 = fresh;
})
step_of row (value current) (failure e) = none
step_of row (failure e) _ = none

abbrev prepend : Option RotationStep → List RotationStep → List RotationStep
prepend none steps = steps
prepend (some step) steps = step ∷ steps

unfoldable pub plan_rotation : List EspFileDiff → List RotationStep
unfolding text_eq
plan_rotation [] = []
plan_rotation (row ∷ rows) =
    let rest = plan_rotation rows in
    if would_change row then prepend (step_of row row.current row.fresh) rest else rest
