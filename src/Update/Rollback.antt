-- ===== src/Update/Rollback.antt =====
-- crates/aegis-cli/src/update_apply.rs: the rollback of a rotation that failed, and
-- crates/aegis-cli/src/update.rs: `dispatch_rotation` and `run_rollback`. What is printed is the value `Report`.
use aegis_boot.Prelude.{
  ℕ, suc, Bool, true, false, Option, none, some, List, [], ◌∷◌, ◌++◌, Text, codes, length,
}
use aegis_boot.Prelude.Answers.{value, failure}
use aegis_boot.Update.{Mtools, RotationStep, mtype_sha256, esp_diff_slots}
use aegis_boot.Update.Rotate.{
  StepState, pending, staged, rotated, StepProgress, RotationSources, build_mren_argv,
  build_mdel_argv, mtools_orig, mtools_new, mtools_bak, Outcome, ok, err, run_mtool,
  execute_rotation,
}

pub data RollbackAction : Type 0 where
  delete_staged restore_from_bak : (esp_path : Text) → RollbackAction

abbrev pub action_of : (esp_path : Text) → StepState → List RollbackAction
action_of esp_path pending = []
action_of esp_path staged = delete_staged esp_path ∷ []
action_of esp_path rotated = restore_from_bak esp_path ∷ []

-- In reverse order.
unfoldable pub rollback_plan : List StepProgress → List RollbackAction
rollback_plan [] = []
rollback_plan (p ∷ ps) = rollback_plan ps ++ action_of p.step.esp_path p.state

module _ {Esp : Type 0} (m : Mtools Esp) (dev : Text) where
  -- Behind the second command of a restoration, the first one, and the deletion of a staged file.
  unfoldable pub renamed_back : Text → Esp × Option Text → Esp × List Text
  renamed_back esp_path (s, none) = (s, [])
  renamed_back esp_path (s, some e) = (
    s,
    (codes "rollback RestoreFromBak "
          ++ mtools_bak esp_path
          ++ codes " → "
          ++ mtools_orig esp_path
          ++ codes ": "
          ++ e)
        ∷ [],
  )

  unfoldable pub deleted : Text → Esp × Option Text → Esp × List Text
  unfolding run_mtool renamed_back build_mren_argv
  deleted esp_path (s, none) =
      renamed_back esp_path
        (run_mtool m dev (build_mren_argv dev (mtools_bak esp_path) (mtools_orig esp_path)) s)
  deleted esp_path (s, some e) =
      (s, (codes "rollback delete-before-restore " ++ mtools_orig esp_path ++ codes ": " ++ e) ∷ [])

  unfoldable pub unstaged : Text → Esp × Option Text → Esp × List Text
  unstaged esp_path (s, none) = (s, [])
  unstaged esp_path (s, some e) =
      (s, (codes "rollback DeleteStaged " ++ mtools_new esp_path ++ codes ": " ++ e) ∷ [])

  -- One action, and its errors.
  unfoldable pub perform : RollbackAction → Esp → Esp × List Text
  unfolding run_mtool deleted unstaged build_mdel_argv
  perform (restore_from_bak esp_path) s =
      deleted esp_path (run_mtool m dev (build_mdel_argv dev (mtools_orig esp_path)) s)
  perform (delete_staged esp_path) s =
      unstaged esp_path (run_mtool m dev (build_mdel_argv dev (mtools_new esp_path)) s)

  -- The errors of all actions; none of them stops the others.
  unfoldable pub execute_rollback : List RollbackAction → Esp → Esp × List Text
  unfolding perform
  execute_rollback [] s = (s, [])
  execute_rollback (a ∷ actions) s =
      let (s', errs) = perform a s in
      let (s'', rest) = execute_rollback actions s' in (s'', errs ++ rest)

-- What is reported: a count of rotated files, a failure with nothing to undo, one that is rolled
-- back ("Stick restored to pre-apply state"), and one whose rollback met errors.
pub data Report : Type 0 where
  complete : ℕ → Report
  nothing_to_roll_back rolled_back : (reason : Text) → Report
  indeterminate : (reason : Text) → List Text → Report

abbrev pub is_rotated : StepState → Bool
is_rotated rotated = true
is_rotated pending = false
is_rotated staged = false

abbrev pub rotated_count : List StepProgress → ℕ
rotated_count [] = 0
rotated_count (p ∷ ps) = elim (is_rotated p.state) [
  | true ↦ suc (rotated_count ps)
  | false ↦ rotated_count ps
]

abbrev pub report_of : (reason : Text) → List Text → Report
report_of reason [] = rolled_back reason
report_of reason (e ∷ errs) = indeterminate reason (e ∷ errs)

module _ {Esp : Type 0} (m : Mtools Esp) (dev : Text) where
  unfoldable pub undone : (reason : Text) → List RollbackAction → Esp → Esp × Report
  unfolding execute_rollback
  undone reason [] s = (s, nothing_to_roll_back reason)
  undone reason (a ∷ actions) s =
      let (s', errs) = execute_rollback m dev (a ∷ actions) s in (s', report_of reason errs)

  unfoldable pub concluded : Esp × Outcome → Esp × Report
  unfolding undone rollback_plan
  concluded (s, ok progress) = (s, complete (rotated_count progress))
  concluded (s, err reason progress) = undone reason (rollback_plan progress) s

  unfoldable pub dispatch_rotation : RotationSources → List RotationStep → Esp → Esp × Report
  unfolding concluded execute_rotation
  dispatch_rotation sources plan s = concluded (execute_rotation m dev sources plan s)

  -- The slots of which a `.bak` reads.
  backed_up : List (Text × Text × Text) → Esp → List RollbackAction
  unfolding mtype_sha256
  backed_up [] s = []
  backed_up ((role, esp_path, source) ∷ slots) s =
      elim (mtype_sha256 m dev (esp_path ++ codes ".bak") s) [
        | value _ ↦ restore_from_bak esp_path ∷ backed_up slots s
        | failure e ↦ backed_up slots s
      ]

  -- `update --rollback`: how many slots are restored, if no action has an error.
  unfoldable pub run_rollback : Esp → Esp × (ℕ × List Text)
  unfolding backed_up execute_rollback
  run_rollback s =
      let actions = backed_up esp_diff_slots s in
      let (s', errs) = execute_rollback m dev actions s in (s', (length actions, errs))
