-- ===== src/Update/Window.antt =====
-- crates/aegis-cli/src/{update_apply,update}.rs: the two failures of which the rollback loses the old file. The
-- commands of the first step are `copy`, `back_up`, `install`, and `clean` is the rollback's.
use aegis_boot.Prelude.{
  ℕ, ◌≡◌, ◌∙◌, inl, inr, refl, Bool, true, false, Option, none, some, List, [], ◌∷◌, ◌++◌, Text,
  arith, Option-cases,
}
use aegis_boot.Prelude.Answers.{value}
use aegis_boot.Update.{Mtools, RotationStep, mtype_sha256}
use aegis_boot.Update.Rotate.{
  staged, RotationSources, source_for, pendings, build_mcopy_argv, build_mren_argv, build_mdel_argv,
  mtools_orig, mtools_new, mtools_bak, run_mtool, judged, new_renamed, old_renamed, copied,
  rotate_step, execute_rotation-stop, hashes_eq, unexpected_digest,
}
use aegis_boot.Update.Rollback.{
  delete_staged, rollback_plan, unstaged, perform, execute_rollback, Report, complete,
  nothing_to_roll_back, rolled_back, indeterminate, concluded, dispatch_rotation, report_of, undone,
}
use aegis_boot.Update.Fat.{
  IsFat, slot_names, apart, mren_ok, mren_err, mren_other, mcopy_ok, mcopy_other, mdel_ok,
  mdel_other,
}

abbrev pub is_rolled_back : Report → Bool
is_rolled_back (complete n) = false
is_rolled_back (nothing_to_roll_back reason) = false
is_rolled_back (rolled_back reason) = true
is_rolled_back (indeterminate reason errs) = false

rollback_plan-pendings : (steps : List RotationStep) → rollback_plan (pendings steps) ≡ []
unfolding rollback_plan
rollback_plan-pendings [] = refl
rollback_plan-pendings (step ∷ steps) = rw (rollback_plan-pendings steps)

module _ {Esp : Type 0} (m : Mtools Esp) (dev : Text) where
  abbrev pub copy : (src p : Text) → Esp → Esp × Option Text
  copy src p s = run_mtool m dev (build_mcopy_argv dev src (mtools_new p)) s

  abbrev pub back_up : (p : Text) → Esp → Esp × Option Text
  back_up p s = run_mtool m dev (build_mren_argv dev (mtools_orig p) (mtools_bak p)) s

  abbrev pub install : (p : Text) → Esp → Esp × Option Text
  install p s = run_mtool m dev (build_mren_argv dev (mtools_new p) (mtools_orig p)) s

  abbrev pub clean : (p : Text) → Esp → Esp × Option Text
  clean p s = run_mtool m dev (build_mdel_argv dev (mtools_new p)) s

  abbrev Stopped : RotationStep → Esp × Option Text → Type 0
  Stopped step r =
      (reason : Text) × ((new_renamed m dev step r).reason ≡ some reason)
      × ((new_renamed m dev step r).state ≡ staged)
      × ((new_renamed m dev step r).esp ≡ r.0)

  not_installed :
      (step : RotationStep) (r : Esp × Option Text) (e : Text) → r.1 ≡ some e → Stopped step r
  unfolding new_renamed
  not_installed step (s, none) e h = cc
  not_installed step (s, some x) e h = (_, refl, refl, refl)

  not_as_planned :
      (step : RotationStep) (r : Esp × Option Text) (h : Text)
      → r.1 ≡ none
      → mtype_sha256 m dev step.esp_path r.0 ≡ value h
      → hashes_eq h step.fresh_sha256 ≡ false
      → Stopped step r
  unfolding new_renamed judged
  not_as_planned step (s, some x) h n q w = cc
  not_as_planned step (s, none) h n q w =
      (unexpected_digest step h, rw q (rw w), rw q (rw w), rw q (rw w))

  module _ (sources : RotationSources) (step : RotationStep) (rest : List RotationStep) (src : Text)
      (s : Esp) (named : source_for sources step.role ≡ some src)
      (copied_well : (copy src step.esp_path s).1 ≡ none)
      (backed_up_well : (back_up step.esp_path (copy src step.esp_path s).0).1 ≡ none) where
    abbrev installed : Esp × Option Text
    installed = install step.esp_path (back_up step.esp_path (copy src step.esp_path s).0).0

    stepped :
        rotate_step m dev step (source_for sources step.role) s ≡ new_renamed m dev step installed
    unfolding rotate_step copied old_renamed
    stepped = rw named (rw (copied_well, copied) (rw (backed_up_well, old_renamed)))

    -- A step that stops behind its first rename leaves just the deletion of the staged file.
    dispatched :
        (reason : Text)
        → (new_renamed m dev step installed).reason ≡ some reason
        → (new_renamed m dev step installed).state ≡ staged
        → dispatch_rotation m dev sources (step ∷ rest) s
          ≡ undone m dev reason
              (delete_staged step.esp_path ∷ [])
              (new_renamed m dev step installed).esp
    unfolding dispatch_rotation concluded rollback_plan
    dispatched reason q st =
        rw (execute_rotation-stop m dev sources step rest s reason (rw stepped q))
          (rw stepped (rw st (rw (rollback_plan-pendings rest))))

  undone-one :
      (reason p : Text) (s : Esp)
      → undone m dev reason (delete_staged p ∷ []) s ≡ (
        (unstaged m dev p (clean p s)).0,
        report_of reason ((unstaged m dev p (clean p s)).1 ++ []),
      )
  unfolding undone execute_rollback perform
  undone-one reason p s = refl

  unstaged-none : (p : Text) (r : Esp × Option Text) → r.1 ≡ none → unstaged m dev p r ≡ (r.0, [])
  unfolding unstaged
  unstaged-none p (s, none) h = refl
  unstaged-none p (s, some e) h = cc

  unstaged-some :
      (reason p e : Text) (r : Esp × Option Text)
      → r.1 ≡ some e
      → is_rolled_back (report_of reason ((unstaged m dev p r).1 ++ [])) ≡ false
  unfolding unstaged
  unstaged-some reason p e (s, none) h = cc
  unstaged-some reason p e (s, some x) h = refl

  unstaged-esp : (p : Text) (r : Esp × Option Text) → (unstaged m dev p r).0 ≡ r.0
  unfolding unstaged
  unstaged-esp p (s, none) = refl
  unstaged-esp p (s, some e) = refl

module _ {Esp : Type 0} (m : Mtools Esp) (dev : Text) (host : Text → Option (List ℕ))
    (file : Esp → Text → Option (List ℕ)) (fat : IsFat m dev host file) (sources : RotationSources)
    (step : RotationStep) (rest : List RotationStep) (src : Text) (s : Esp)
    (own : apart (slot_names step.esp_path) ≡ true)
    (named : source_for sources step.role ≡ some src)
    (copied_well : (copy m dev src step.esp_path s).1 ≡ none)
    (backed_up_well : (back_up m dev step.esp_path (copy m dev src step.esp_path s).0).1
      ≡ none) where
  abbrev pub s1 : Esp
  s1 = (copy m dev src step.esp_path s).0

  abbrev pub s2 : Esp
  s2 = (back_up m dev step.esp_path s1).0

  abbrev pub s3 : Esp
  s3 = (install m dev step.esp_path s2).0

  -- Where the names of the first step's slot are apart, its source is known, and its copy and its
  -- first rename succeed: if its second rename fails and the deletion of the staged file then
  -- succeeds, the update is reported as rolled back, with neither a file under the slot's name nor a
  -- staged one; the old file stands only in the backup.
  pub failed_install_lem :
      (e : Text)
      → (install m dev step.esp_path s2).1 ≡ some e
      → (clean m dev step.esp_path s3).1 ≡ none
      → let d = dispatch_rotation m dev sources (step ∷ rest) s in
        (is_rolled_back d.1 ≡ true)
        × (file d.0 (mtools_orig step.esp_path) ≡ none)
        × (file d.0 (mtools_new step.esp_path) ≡ none)
        × (file d.0 (mtools_bak step.esp_path) ≡ file s (mtools_orig step.esp_path))
  failed_install_lem e i c =
      let p = step.esp_path in
      let (reason, q, st, at) = not_installed m dev step (install m dev p s2) e i in
      let old =
        mren_ok m dev host file fat (mtools_orig p) (mtools_bak p) s1 (ground (arith, own))
          backed_up_well in
      let d =
        dispatched m dev sources step rest src s named copied_well backed_up_well reason q st in
      rw d (
        rw at (
          rw (undone-one m dev reason p s3) (
            rw (unstaged-none m dev p (clean m dev p s3) c) (
              refl,
              mdel_other m dev host file fat (mtools_new p) (mtools_orig p) s3 (ground (arith, own))
                  ∙ mren_err m dev host file fat (mtools_new p) (mtools_orig p) (mtools_orig p) e s2
                      i
                  ∙ old.1,
              (mdel_ok m dev host file fat (mtools_new p) s3 c).1,
              mdel_other m dev host file fat (mtools_new p) (mtools_bak p) s3 (ground (arith, own))
                  ∙ mren_err m dev host file fat (mtools_new p) (mtools_orig p) (mtools_bak p) e s2
                      i
                  ∙ old.0
                  ∙ mcopy_other m dev host file fat src (mtools_new p) (mtools_orig p) s
                      (ground (arith, own)),
            ))))

  -- Where the names of the first step's slot are apart, its source is known, and its three commands
  -- succeed: if the read-back then gives another digest than the planned one, the update is never
  -- reported as rolled back, and the rollback leaves the file that failed the check, the host's,
  -- under the slot's name and the old file in the backup.
  pub failed_check_lem :
      (h : Text)
      → (install m dev step.esp_path s2).1 ≡ none
      → mtype_sha256 m dev step.esp_path s3 ≡ value h
      → hashes_eq h step.fresh_sha256 ≡ false
      → let d = dispatch_rotation m dev sources (step ∷ rest) s in
        (is_rolled_back d.1 ≡ false)
        × (file d.0 (mtools_orig step.esp_path) ≡ host src)
        × (file d.0 (mtools_bak step.esp_path) ≡ file s (mtools_orig step.esp_path))
  failed_check_lem h i k w =
      let p = step.esp_path in
      let new = mtools_new p in
      let orig = mtools_orig p in
      let bak = mtools_bak p in
      let (reason, q, st, at) = not_as_planned m dev step (install m dev p s2) h i k w in
      let old = mren_ok m dev host file fat orig bak s1 (ground (arith, own)) backed_up_well in
      let put = mren_ok m dev host file fat new orig s2 (ground (arith, own)) i in
      let d =
        dispatched m dev sources step rest src s named copied_well backed_up_well reason q st in
      rw d (
        rw at (
          rw (undone-one m dev reason p s3) (
            elim (Option-cases (clean m dev p s3).1) [
              | inr (e, c) ↦ unstaged-some m dev reason p e (clean m dev p s3) c
              | inl c ↦
                  let there = (mdel_ok m dev host file fat new s3 c).0 in
                  absurd (ground (arith, there, put.1))
            ],
            rw (unstaged-esp m dev p (clean m dev p s3)) (
                mdel_other m dev host file fat new orig s3 (ground (arith, own))
                ∙ put.0
                ∙ mren_other m dev host file fat orig bak new s1 (ground (arith, own))
                    (ground (arith, own))
                ∙ mcopy_ok m dev host file fat src new s copied_well),
            rw (unstaged-esp m dev p (clean m dev p s3)) (
                mdel_other m dev host file fat new bak s3 (ground (arith, own))
                ∙ mren_other m dev host file fat new orig bak s2 (ground (arith, own))
                    (ground (arith, own))
                ∙ old.0
                ∙ mcopy_other m dev host file fat src new orig s (ground (arith, own))),
          )))
