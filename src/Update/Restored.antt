-- ===== src/Update/Restored.antt =====
-- crates/aegis-cli/src/{update_apply,update}.rs: what the rollback makes of a rotation that failed.
use mathlib.Core.Path.{subst}
use aegis_boot.Prelude.{
  ℕ, ◌≡◌, ◌∙◌, inl, inr, refl, Bool, true, false, Option, none, some, List, [], ◌∷◌, ◌++◌, Text,
  arith,
}
use aegis_boot.Update.{Mtools, RotationStep}
use aegis_boot.Update.Rotate.{
  StepState, pending, staged, rotated, StepProgress, RotationSources, Outcome, ok, err,
  build_mren_argv, build_mdel_argv, mtools_orig, mtools_new, mtools_bak, run_mtool,
  execute_rotation,
}
use aegis_boot.Update.Rollback.{
  RollbackAction, delete_staged, restore_from_bak, action_of, rollback_plan, renamed_back, deleted,
  unstaged, perform, execute_rollback, Report, complete, nothing_to_roll_back, rolled_back,
  indeterminate, dispatch_rotation, report_of, undone, concluded,
}
use aegis_boot.Update.Fat.{
  IsFat, slot_names, differs, apart, names_of, mren_ok, mdel_ok, mdel_other,
}
use aegis_boot.Update.Frame.{perform-other}
use aegis_boot.Update.Undo.{Kept, Undoable}
use aegis_boot.Update.Progress.{
  progress_of, steps_of, apart_own, apart_rest, differs_swap, AllUndoable, AllKept, Undoable-frame,
  AllKept-frame, Same-refl, steps_of-execute_rotation, execute_rotation-undo,
}

append-eq-nil : (a b : List Text) → a ++ b ≡ [] → (a ≡ []) × (b ≡ [])
append-eq-nil [] b h = (refl, h)
append-eq-nil (x ∷ a) b h = cc

module _ {Esp : Type 0} (m : Mtools Esp) (dev : Text) where
  abbrev after : List RollbackAction → Esp → Esp
  after actions s = (execute_rollback m dev actions s).0

  abbrev errors : List RollbackAction → Esp → List Text
  errors actions s = (execute_rollback m dev actions s).1

  after-append : (a b : List RollbackAction) (s : Esp) → after (a ++ b) s ≡ after b (after a s)
  unfolding execute_rollback
  after-append [] b s = refl
  after-append (x ∷ a) b s = after-append a b (perform m dev x s).0

  errors-append :
      (a b : List RollbackAction) (s : Esp)
      → errors (a ++ b) s ≡ []
      → (errors a s ≡ []) × (errors b (after a s) ≡ [])
  unfolding execute_rollback
  errors-append [] b s h = (refl, h)
  errors-append (x ∷ a) b s h =
      let (e, f) = append-eq-nil (perform m dev x s).1 (errors (a ++ b) (perform m dev x s).0) h in
      let (g, k) = errors-append a b (perform m dev x s).0 f in (rw e g, k)

module _ {Esp : Type 0} (m : Mtools Esp) (dev : Text) (host : Text → Option (List ℕ))
    (file : Esp → Text → Option (List ℕ)) (fat : IsFat m dev host file) where
  module _ (p : Text) (own : apart (slot_names p) ≡ true) (before : Option (List ℕ)) where
    renamed_back-Kept :
        (r : Esp × Option Text)
        → (r.1 ≡ none → file r.0 (mtools_orig p) ≡ before)
        → (renamed_back m dev p r).1 ≡ []
        → file (renamed_back m dev p r).0 (mtools_orig p) ≡ before
    unfolding renamed_back
    renamed_back-Kept (s, none) f h = f refl
    renamed_back-Kept (s, some e) f h = cc

    deleted-Kept :
        (r : Esp × Option Text)
        → file r.0 (mtools_bak p) ≡ before
        → (deleted m dev p r).1 ≡ []
        → file (deleted m dev p r).0 (mtools_orig p) ≡ before
    unfolding deleted
    deleted-Kept (s, some e) b h = cc
    deleted-Kept (s, none) b h =
        let bak = mtools_bak p in
        let orig = mtools_orig p in
        renamed_back-Kept (run_mtool m dev (build_mren_argv dev bak orig) s)
          (λ q. (mren_ok m dev host file fat bak orig s (ground (arith, own)) q).0 ∙ b) h

    unstaged-none :
        (r : Esp × Option Text)
        → (unstaged m dev p r).1 ≡ []
        → (r.1 ≡ none) × ((unstaged m dev p r).0 ≡ r.0)
    unfolding unstaged
    unstaged-none (s, none) h = (refl, refl)
    unstaged-none (s, some e) h = cc

    delete_staged-Kept :
        (s : Esp)
        → Undoable m dev host file fat before p s staged
        → (perform m dev (delete_staged p) s).1 ≡ []
        → Kept m dev host file fat before p (perform m dev (delete_staged p) s).0
    unfolding perform
    delete_staged-Kept s u h =
        let new = mtools_new p in
        let r = run_mtool m dev (build_mdel_argv dev new) s in
        let (q, e) = unstaged-none r h in
        let (there, gone) = mdel_ok m dev host file fat new s q in
        let o = mdel_other m dev host file fat new (mtools_orig p) s (ground (arith, own)) in
        let b = mdel_other m dev host file fat new (mtools_bak p) s (ground (arith, own)) in
        elim u [
          | inl (inl k) ↦ inl (rw e (o ∙ k))
          | inl (inr (k, l)) ↦ inr (rw e (o ∙ k), rw e (b ∙ l))
          | inr missing ↦ cc
        ]

    restored-Kept :
        (s : Esp)
        → file s (mtools_bak p) ≡ before
        → (perform m dev (restore_from_bak p) s).1 ≡ []
        → file (perform m dev (restore_from_bak p) s).0 (mtools_orig p) ≡ before
    unfolding perform
    restored-Kept s u h =
        let orig = mtools_orig p in
        deleted-Kept (run_mtool m dev (build_mdel_argv dev orig) s)
          (mdel_other m dev host file fat orig (mtools_bak p) s (ground (arith, own)) ∙ u) h

    action-Kept :
        (state : StepState) (s : Esp)
        → Undoable m dev host file fat before p s state
        → errors m dev (action_of p state) s ≡ []
        → Kept m dev host file fat before p (after m dev (action_of p state) s)
    unfolding execute_rollback
    action-Kept pending s u h = inl u
    action-Kept staged s u h =
        delete_staged-Kept s u (append-eq-nil (perform m dev (delete_staged p) s).1 [] h).0
    action-Kept rotated s u h =
        inl (restored-Kept s u (append-eq-nil (perform m dev (restore_from_bak p) s).1 [] h).0)

  action-other :
      (q p : Text) (state : StepState) (s : Esp)
      → differs q (slot_names p) ≡ true
      → file (after m dev (action_of p state) s) q ≡ file s q
  unfolding execute_rollback
  action-other q p pending s d = refl
  action-other q p staged s d = perform-other m dev host file fat q (delete_staged p) s d
  action-other q p rotated s d = perform-other m dev host file fat q (restore_from_bak p) s d

  plan-other :
      (q : Text) (ps : List StepProgress) (s : Esp)
      → differs q (names_of (steps_of ps)) ≡ true
      → file (after m dev (rollback_plan ps) s) q ≡ file s q
  unfolding rollback_plan execute_rollback
  plan-other q [] s d = refl
  plan-other q (x ∷ ps) s d =
      let p = x.step.esp_path in
      let a = rollback_plan ps in
      rw (after-append m dev a (action_of p x.state) s) (
        action-other q p x.state (after m dev a s) (ground (arith, d))
        ∙ plan-other q ps s (ground (arith, d)))

  module _ (start : Text → Option (List ℕ)) where
    -- A rollback without errors keeps every slot.
    rollback_plan-AllKept :
        (ps : List StepProgress) (s : Esp)
        → apart (names_of (steps_of ps)) ≡ true
        → AllUndoable m dev host file fat start ps s
        → errors m dev (rollback_plan ps) s ≡ []
        → AllKept m dev host file fat start (steps_of ps) (after m dev (rollback_plan ps) s)
    unfolding rollback_plan
    rollback_plan-AllKept [] s a u h = tt
    rollback_plan-AllKept (x ∷ ps) s a (u, us) h =
        let p = x.step.esp_path in
        let plan = rollback_plan ps in
        let act = action_of p x.state in
        let s' = after m dev plan s in
        let rest = names_of (steps_of ps) in
        let (own, later) = apart_own p rest a in
        let (o, n, b) = apart_rest p rest a in
        let (e, f) = errors-append m dev plan act s h in
        let u' =
          Undoable-frame m dev host file fat start (start (mtools_orig p)) p s s' x.state
            (
              plan-other (mtools_orig p) ps s o,
              plan-other (mtools_new p) ps s n,
              plan-other (mtools_bak p) ps s b,
            )
            u in
        rw (after-append m dev plan act s) (
          action-Kept p own (start (mtools_orig p)) x.state s' u' f,
          AllKept-frame m dev host file fat start (steps_of ps) (mtools_orig p) (mtools_new p)
              (mtools_bak p) s' (after m dev act s') (λ q d. action-other q p x.state s' d)
              (differs_swap (mtools_orig p) (mtools_new p) (mtools_bak p) rest o n b)
              (rollback_plan-AllKept ps s later us e),
        )

abbrev pub is_undone : Report → Bool
is_undone (complete n) = false
is_undone (nothing_to_roll_back reason) = true
is_undone (rolled_back reason) = true
is_undone (indeterminate reason errs) = false

module _ {Esp : Type 0} (m : Mtools Esp) (dev : Text) (host : Text → Option (List ℕ))
    (file : Esp → Text → Option (List ℕ)) (fat : IsFat m dev host file) where
  report_of-nil :
      (reason : Text) (errs : List Text) → is_undone (report_of reason errs) ≡ true → errs ≡ []
  report_of-nil reason [] h = refl
  report_of-nil reason (e ∷ errs) h = cc

  undone-AllKept :
      (start : Text → Option (List ℕ)) (reason : Text) (steps : List RotationStep)
      (actions : List RollbackAction) (s : Esp)
      → (errors m dev actions s ≡ []
          → AllKept m dev host file fat start steps (after m dev actions s))
      → is_undone (undone m dev reason actions s).1 ≡ true
      → AllKept m dev host file fat start steps (undone m dev reason actions s).0
  unfolding undone execute_rollback
  undone-AllKept start reason steps [] s f h = f refl
  undone-AllKept start reason steps (a ∷ actions) s f h = f (report_of-nil reason _ h)

  concluded-AllKept :
      (start : Text → Option (List ℕ)) (r : Esp × Outcome)
      → apart (names_of (steps_of (progress_of r.1))) ≡ true
      → AllUndoable m dev host file fat start (progress_of r.1) r.0
      → is_undone (concluded m dev r).1 ≡ true
      → AllKept m dev host file fat start (steps_of (progress_of r.1)) (concluded m dev r).0
  unfolding concluded
  concluded-AllKept start (s, ok ps) a u h = cc
  concluded-AllKept start (s, err reason ps) a u h =
      undone-AllKept start reason (steps_of ps) (rollback_plan ps) s
        (rollback_plan-AllKept m dev host file fat start ps s a u) h

  -- From a plan whose slots' names are apart: an update that fails and reports no error of the
  -- rollback leaves each slot of the plan with its file as it was, or else with no file and what the
  -- file was in the backup.
  pub dispatch_rotation-AllKept :
      (sources : RotationSources) (plan : List RotationStep) (s : Esp)
      → apart (names_of plan) ≡ true
      → is_undone (dispatch_rotation m dev sources plan s).1 ≡ true
      → AllKept m dev host file fat (file s) plan (dispatch_rotation m dev sources plan s).0
  unfolding dispatch_rotation
  dispatch_rotation-AllKept sources plan s a h =
      let r = execute_rotation m dev sources plan s in
      let same = steps_of-execute_rotation m dev host file fat (file s) sources plan s in
      let u =
        execute_rotation-undo m dev host file fat (file s) sources plan s a
          (Same-refl m dev host file fat s plan) in
      subst (λ steps. AllKept m dev host file fat (file s) steps (concluded m dev r).0) same
        (concluded-AllKept (file s) r (rw same a) u h)
