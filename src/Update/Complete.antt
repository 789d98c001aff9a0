-- ===== src/Update/Complete.antt =====
-- crates/aegis-cli/src/{update_apply,update}.rs: an update that is reported as complete.
use aegis_boot.Prelude.{
  ℕ, suc, ◌≡◌, ◌∙◌, inl, inr, refl, ap, Bool, true, false, Option, List, [], ◌∷◌, Text, length,
  arith, Option-cases,
}
use aegis_boot.Update.{Mtools, RotationStep}
use aegis_boot.Update.Rotate.{
  StepProgress, RotationSources, source_for, Outcome, ok, err, mtools_orig, mtools_new, mtools_bak,
  rotate_step, execute_rotation, execute_rotation-go, execute_rotation-stop, behind,
}
use aegis_boot.Update.Rollback.{
  RollbackAction, rotated_count, complete, concluded, dispatch_rotation, undone, report_of,
  execute_rollback, rollback_plan,
}
use aegis_boot.Update.Fat.{IsFat, differs, apart, names_of}
use aegis_boot.Update.Frame.{rotate_step-other, execute_rotation-other}
use aegis_boot.Update.Progress.{
  apart_own, apart_rest, differs_swap, Same, Same-frame, Same-refl, progress_of, progress-behind,
}
use aegis_boot.Update.Landed.{AllLanded, Landed-frame, rotate_step-Landed}

abbrev is_ok : Outcome → Bool
is_ok (ok ps) = true
is_ok (err e ps) = false

is_ok-behind : (p : StepProgress) (o : Outcome) → is_ok (behind p o) ≡ is_ok o
is_ok-behind p (ok ps) = refl
is_ok-behind p (err e ps) = refl

report_of-ne-complete :
    (reason : Text) (errs : List Text) (n : ℕ) → report_of reason errs ≡ complete n → ⊥
report_of-ne-complete reason [] n h = cc
report_of-ne-complete reason (e ∷ errs) n h = cc

module _ {Esp : Type 0} (m : Mtools Esp) (dev : Text) (host : Text → Option (List ℕ))
    (file : Esp → Text → Option (List ℕ)) (fat : IsFat m dev host file)
    (sources : RotationSources) where
  execute_rotation-AllLanded :
      (start : Text → Option (List ℕ)) (steps : List RotationStep) (s : Esp)
      → apart (names_of steps) ≡ true
      → Same m dev host file fat start steps s
      → is_ok (execute_rotation m dev sources steps s).1 ≡ true
      → AllLanded m dev host file fat sources start steps (execute_rotation m dev sources steps s).0
        × (rotated_count (progress_of (execute_rotation m dev sources steps s).1) ≡ length steps)
  unfolding execute_rotation
  execute_rotation-AllLanded start [] s a h k = (tt, refl)
  execute_rotation-AllLanded start (step ∷ steps) s a (h, hs) k =
      let p = step.esp_path in
      let src = source_for sources step.role in
      let r = rotate_step m dev step src s in
      let here : StepProgress = record { step = step; state = r.state } in
      let rest = execute_rotation m dev sources steps r.esp in
      let (own, later) = apart_own p (names_of steps) a in
      let (o, n, b) = apart_rest p (names_of steps) a in
      let same =
        Same-frame m dev host file fat start steps (mtools_orig p) (mtools_new p) (mtools_bak p) s
          r.esp (λ q d. rotate_step-other m dev host file fat q step d src s)
          (differs_swap (mtools_orig p) (mtools_new p) (mtools_bak p) (names_of steps) o n b) hs in
      elim (Option-cases r.reason) [
        | inr (e, q) ↦
            absurd (ground (arith, k, execute_rotation-stop m dev sources step steps s e q))
        | inl q ↦
            let go = execute_rotation-go m dev sources step steps s q in
            let (landed, st) = rotate_step-Landed m dev host file fat step own src s q in
            let (all, c) =
              execute_rotation-AllLanded start steps r.esp later same
                (ground (arith, k, go, is_ok-behind here rest.1)) in
            rw go (
              rw (progress-behind here rest.1) (
                (
                  Landed-frame m dev host file fat step src (file s (mtools_orig p))
                      (start (mtools_orig p)) r.esp rest.0 h
                      (execute_rotation-other m dev host file fat (mtools_orig p) sources steps
                        r.esp o)
                      (execute_rotation-other m dev host file fat (mtools_bak p) sources steps r.esp
                        b)
                      landed,
                  all,
                ),
                rw st (ap suc c),
              ))
      ]

  undone-ne-complete :
      (reason : Text) (actions : List RollbackAction) (s : Esp) (n : ℕ)
      → (undone m dev reason actions s).1 ≡ complete n
      → ⊥
  unfolding undone
  undone-ne-complete reason [] s n h = cc
  undone-ne-complete reason (a ∷ actions) s n h =
      report_of-ne-complete reason (execute_rollback m dev (a ∷ actions) s).1 n h

  concluded-complete :
      (r : Esp × Outcome) (n : ℕ)
      → (concluded m dev r).1 ≡ complete n
      → (is_ok r.1 ≡ true) × (n ≡ rotated_count (progress_of r.1)) × ((concluded m dev r).0 ≡ r.0)
  unfolding concluded
  concluded-complete (s, ok ps) n h = (refl, cc, refl)
  concluded-complete (s, err e ps) n h = absurd (undone-ne-complete e (rollback_plan ps) s n h)

  -- From a plan whose slots' names are apart: an update that is reported as complete has rotated
  -- every slot of the plan, with the host's file under the slot's name, the planned digest in the
  -- read-back and the old file as the backup, and every file under another name is as it was.
  pub dispatch_rotation-AllLanded :
      (plan : List RotationStep) (s : Esp) (n : ℕ)
      → apart (names_of plan) ≡ true
      → (dispatch_rotation m dev sources plan s).1 ≡ complete n
      → (n ≡ length plan)
        × AllLanded m dev host file fat sources
            (file s)
            plan
            (dispatch_rotation m dev sources plan s).0
        × ((q : Text)
            → differs q (names_of plan) ≡ true
            → file (dispatch_rotation m dev sources plan s).0 q ≡ file s q)
  unfolding dispatch_rotation
  dispatch_rotation-AllLanded plan s n a h =
      let (k, c, e) = concluded-complete (execute_rotation m dev sources plan s) n h in
      let (all, count) =
        execute_rotation-AllLanded (file s) plan s a (Same-refl m dev host file fat s plan) k in
      (
        c ∙ count,
        rw e all,
        λ q d. rw e (execute_rotation-other m dev host file fat q sources plan s d),
      )
