-- ===== src/Update/Rotate.antt =====
-- crates/aegis-cli/src/update_apply.rs: `execute_rotation`. A step stages the new file beside the old one, renames
-- the old one to `.bak` and the new one over it, and reads it back.
use aegis_boot.Prelude.{
  ◌≡◌, Bool, Option, none, some, List, [], ◌∷◌, ◌++◌, Text, codes, text_eq, take, if◌then◌else◌,
}
use aegis_boot.Prelude.Answers.{Answer, value, failure}
use aegis_boot.Prelude.Decimal.{trim, trim_start, trim_end, is_whitespace}
use aegis_boot.Prelude.Parse.{eq_ignore_ascii_case}
use aegis_boot.Update.{Exit, not_started, unsuccessful, success, Mtools, RotationStep, mtype_sha256}

pub data StepState : Type 0 where
  pending staged rotated : StepState

pub record StepProgress : Type 0 where
  pub step : RotationStep
  pub state : StepState

pub record RotationSources : Type 0 where
  pub shim : Text
  pub grub : Text
  pub grub_cfg : Text
  pub kernel : Text
  pub combined_initrd : Text

unfoldable pub source_for : RotationSources → Text → Option Text
unfolding text_eq
source_for sources role =
    if text_eq role (codes "shim")
    then some sources.shim
    else if text_eq role (codes "grub")
    then some sources.grub
    else if text_eq role (codes "grub_cfg_boot")
    then some sources.grub_cfg
    else if text_eq role (codes "grub_cfg_ubuntu")
    then some sources.grub_cfg
    else if text_eq role (codes "kernel")
    then some sources.kernel
    else if text_eq role (codes "initrd")
    then some sources.combined_initrd
    else none

unfoldable pub build_mcopy_argv : (device src dest : Text) → List Text
build_mcopy_argv device src dest =
    codes "mcopy" ∷ codes "-i" ∷ device ∷ codes "-D" ∷ codes "o" ∷ codes "--" ∷ src ∷ dest ∷ []

unfoldable pub build_mren_argv : (device from to : Text) → List Text
build_mren_argv device from to = codes "mren" ∷ codes "-i" ∷ device ∷ codes "--" ∷ from ∷ to ∷ []

unfoldable pub build_mdel_argv : (device esp_path : Text) → List Text
build_mdel_argv device esp_path =
    codes "mdel" ∷ codes "-i" ∷ device ∷ codes "-v" ∷ codes "--" ∷ esp_path ∷ []

abbrev pub mtools_orig : Text → Text
mtools_orig esp_path = codes "::" ++ esp_path

abbrev pub mtools_new : Text → Text
mtools_new esp_path = codes "::" ++ esp_path ++ codes ".new"

abbrev pub mtools_bak : Text → Text
mtools_bak esp_path = codes "::" ++ esp_path ++ codes ".bak"

unfoldable pub hashes_eq : Text → Text → Bool
unfolding eq_ignore_ascii_case trim trim_start trim_end is_whitespace
hashes_eq a b = eq_ignore_ascii_case (trim a) (trim b)

abbrev first_word : List Text → Text
first_word [] = codes "?"
first_word (w ∷ _) = w

abbrev pub unexpected_digest : RotationStep → (observed : Text) → Text
unexpected_digest step observed =
    codes "post-rotate verify "
    ++ mtools_orig step.esp_path
    ++ codes ": observed "
    ++ take 16 observed
    ++ codes " but planner expected "
    ++ take 16 step.fresh_sha256
    ++ codes " — stick may have silently corrupted the write"

-- The error of a command, if it has one.
abbrev pub exit_error : List Text → Exit → Option Text
exit_error argv (not_started e) = some (first_word argv ++ codes " exec failed: " ++ e)
exit_error argv (unsuccessful status stderr) =
    some (first_word argv ++ codes " exited " ++ status ++ codes ": " ++ trim stderr)
exit_error argv success = none

-- What a step leaves: the partition, the progress, and the reason if it failed.
pub record Stepped (Esp : Type 0) : Type 0 where
  pub esp : Esp
  pub state : StepState
  pub reason : Option Text

pub data Outcome : Type 0 where
  ok : List StepProgress → Outcome
  err : Text → List StepProgress → Outcome

abbrev pub pendings : List RotationStep → List StepProgress
pendings [] = []
pendings (step ∷ steps) = record { step = step; state = pending } ∷ pendings steps

abbrev pub behind : StepProgress → Outcome → Outcome
behind p (ok ps) = ok (p ∷ ps)
behind p (err reason ps) = err reason (p ∷ ps)

module _ {Esp : Type 0} (m : Mtools Esp) (dev : Text) where
  unfoldable pub run_mtool : List Text → Esp → Esp × Option Text
  run_mtool argv s = let (s', exit) = m.sudo argv s in (s', exit_error argv exit)

  -- The judgement on the file that was renamed in, by the digest that is read back.
  unfoldable pub judged : RotationStep → Esp → Answer Text → Stepped Esp
  unfolding hashes_eq
  judged step s (failure e) = record {
    esp = s;
    state = staged;
    reason = some (
        codes "post-rotate verify "
        ++ mtools_orig step.esp_path
        ++ codes ": mtype_sha256 failed: "
        ++ e);
  }
  judged step s (value observed) =
      if hashes_eq observed step.fresh_sha256
      then record { esp = s; state = rotated; reason = none }
      else record { esp = s; state = staged; reason = some (unexpected_digest step observed) }

  -- Behind the rename of the new file, that of the old one, and the copy.
  unfoldable pub new_renamed : RotationStep → Esp × Option Text → Stepped Esp
  unfolding judged mtype_sha256
  new_renamed step (s, none) = judged step s (mtype_sha256 m dev step.esp_path s)
  new_renamed step (s, some e) = record {
    esp = s;
    state = staged;
    reason = some (
        codes "mren "
        ++ mtools_new step.esp_path
        ++ codes " → "
        ++ mtools_orig step.esp_path
        ++ codes ": "
        ++ e
        ++ codes " — .bak preserved, manual recovery: mren "
        ++ mtools_bak step.esp_path
        ++ codes " "
        ++ mtools_orig step.esp_path);
  }

  unfoldable pub old_renamed : RotationStep → Esp × Option Text → Stepped Esp
  unfolding run_mtool new_renamed build_mren_argv
  old_renamed step (s, none) =
      new_renamed step
        (run_mtool (build_mren_argv dev (mtools_new step.esp_path) (mtools_orig step.esp_path)) s)
  old_renamed step (s, some e) = record {
    esp = s;
    state = staged;
    reason = some (
        codes "mren "
        ++ mtools_orig step.esp_path
        ++ codes " → "
        ++ mtools_bak step.esp_path
        ++ codes ": "
        ++ e);
  }

  unfoldable pub copied : RotationStep → Esp × Option Text → Stepped Esp
  unfolding run_mtool old_renamed build_mren_argv
  copied step (s, none) =
      old_renamed step
        (run_mtool (build_mren_argv dev (mtools_orig step.esp_path) (mtools_bak step.esp_path)) s)
  copied step (s, some e) = record {
    esp = s;
    state = pending;
    reason = some (codes "mcopy " ++ mtools_new step.esp_path ++ codes ": " ++ e);
  }

  -- One turn of the loop, with the source of the step's role.
  unfoldable pub rotate_step : RotationStep → Option Text → Esp → Stepped Esp
  unfolding copied run_mtool build_mcopy_argv
  rotate_step step none s = record {
    esp = s;
    state = pending;
    reason =
        some (
          codes "no host-side source for role '"
          ++ step.role
          ++ codes "' — planner/executor drift");
  }
  rotate_step step (some src) s =
      copied step (run_mtool (build_mcopy_argv dev src (mtools_new step.esp_path)) s)

  module _ (sources : RotationSources) where
    unfoldable pub execute_rotation : List RotationStep → Esp → Esp × Outcome
    unfolding rotate_step source_for
    execute_rotation [] s = (s, ok [])
    execute_rotation (step ∷ steps) s =
        let r = rotate_step step (source_for sources step.role) s in
        elim r.reason [
          | some e ↦ (r.esp, err e (record { step = step; state = r.state } ∷ pendings steps))
          | none ↦
              let (s', rest) = execute_rotation steps r.esp in
              (s', behind (record { step = step; state = r.state }) rest)
        ]

    -- The loop stops at a step that fails, and goes on behind one that does not.
    pub execute_rotation-stop :
        (step : RotationStep) (steps : List RotationStep) (s : Esp) (e : Text)
        → (rotate_step step (source_for sources step.role) s).reason ≡ some e
        → let r = rotate_step step (source_for sources step.role) s in
          execute_rotation (step ∷ steps) s
          ≡ (r.esp, err e (record { step = step; state = r.state } ∷ pendings steps))
    unfolding execute_rotation
    execute_rotation-stop step steps s e p = rw (p, execute_rotation)

    pub execute_rotation-go :
        (step : RotationStep) (steps : List RotationStep) (s : Esp)
        → (rotate_step step (source_for sources step.role) s).reason ≡ none
        → let r = rotate_step step (source_for sources step.role) s in
          let rest = execute_rotation steps r.esp in
          execute_rotation (step ∷ steps) s
          ≡ (rest.0, behind (record { step = step; state = r.state }) rest.1)
    unfolding execute_rotation
    execute_rotation-go step steps s p = rw (p, execute_rotation)
