-- ===== src/Update/Frame.antt =====
-- crates/aegis-cli/src/update_apply.rs: a file whose name is none of a slot's stays as it is under the slot's rotation
-- and its rollback.
use aegis_boot.Prelude.{
  ℕ, ◌≡◌, ◌∙◌, inl, inr, refl, true, false, ◌&&◌, Option, none, some, List, [], ◌∷◌, ◌++◌, Text,
  arith, Option-cases, Bool-cases,
}
use aegis_boot.Prelude.Answers.{Answer, value, failure}
use aegis_boot.Prelude.Parse.{eq_ignore_ascii_case}
use aegis_boot.Update.{Mtools, RotationStep, mtype_sha256}
use aegis_boot.Update.Rotate.{
  RotationSources, source_for, build_mcopy_argv, build_mren_argv, build_mdel_argv, mtools_orig,
  mtools_new, mtools_bak, run_mtool, hashes_eq, judged, new_renamed, old_renamed, copied,
  rotate_step, execute_rotation, execute_rotation-go, execute_rotation-stop,
}
use aegis_boot.Update.Rollback.{
  RollbackAction, delete_staged, restore_from_bak, renamed_back, deleted, unstaged, perform,
}
use aegis_boot.Update.Fat.{
  IsFat, slot_names, differs, names_of, mren_other, mcopy_other, mdel_other,
}

pub differs-append :
    (p : Text) (qs rs : List Text) → differs p (qs ++ rs) ≡ (differs p qs && differs p rs)
differs-append p [] rs = refl
differs-append p (q ∷ qs) rs = ground (arith, differs-append p qs rs)

module _ {Esp : Type 0} (m : Mtools Esp) (dev : Text) (host : Text → Option (List ℕ))
    (file : Esp → Text → Option (List ℕ)) (fat : IsFat m dev host file) (q : Text) where
  module _ (step : RotationStep) (other : differs q (slot_names step.esp_path) ≡ true) where
    differ :
        (eq_ignore_ascii_case (mtools_orig step.esp_path) q ≡ false)
        × (eq_ignore_ascii_case (mtools_new step.esp_path) q ≡ false)
        × (eq_ignore_ascii_case (mtools_bak step.esp_path) q ≡ false)
    differ = ground (arith, other)

    judged-esp : (s : Esp) (a : Answer Text) → (judged m dev step s a).esp ≡ s
    unfolding judged
    judged-esp s (failure e) = refl
    judged-esp s (value h) = elim (Bool-cases (hashes_eq h step.fresh_sha256)) [
      | inl p ↦ rw p
      | inr p ↦ rw p
    ]

    new_renamed-other : (r : Esp × Option Text) → file (new_renamed m dev step r).esp q ≡ file r.0 q
    unfolding new_renamed
    new_renamed-other (s, none) = rw (judged-esp s (mtype_sha256 m dev step.esp_path s))
    new_renamed-other (s, some e) = refl

    old_renamed-other : (r : Esp × Option Text) → file (old_renamed m dev step r).esp q ≡ file r.0 q
    unfolding old_renamed
    old_renamed-other (s, some e) = refl
    old_renamed-other (s, none) =
        let (o, n, b) = differ in
        let new = mtools_new step.esp_path in
        let orig = mtools_orig step.esp_path in
        new_renamed-other (run_mtool m dev (build_mren_argv dev new orig) s)
        ∙ mren_other m dev host file fat new orig q s n o

    copied-other : (r : Esp × Option Text) → file (copied m dev step r).esp q ≡ file r.0 q
    unfolding copied
    copied-other (s, some e) = refl
    copied-other (s, none) =
        let (o, n, b) = differ in
        let orig = mtools_orig step.esp_path in
        let bak = mtools_bak step.esp_path in
        old_renamed-other (run_mtool m dev (build_mren_argv dev orig bak) s)
        ∙ mren_other m dev host file fat orig bak q s o b

    pub rotate_step-other :
        (src : Option Text) (s : Esp) → file (rotate_step m dev step src s).esp q ≡ file s q
    unfolding rotate_step
    rotate_step-other none s = refl
    rotate_step-other (some src) s =
        let new = mtools_new step.esp_path in
        copied-other (run_mtool m dev (build_mcopy_argv dev src new) s)
        ∙ mcopy_other m dev host file fat src new q s differ.1

  pub execute_rotation-other :
      (sources : RotationSources) (steps : List RotationStep) (s : Esp)
      → differs q (names_of steps) ≡ true
      → file (execute_rotation m dev sources steps s).0 q ≡ file s q
  unfolding execute_rotation
  execute_rotation-other sources [] s d = refl
  execute_rotation-other sources (step ∷ steps) s d =
      let src = source_for sources step.role in
      let here = rotate_step-other step (ground (arith, d)) src s in
      let later =
        execute_rotation-other sources steps (rotate_step m dev step src s).esp
          (ground (arith, d)) in
      elim (Option-cases (rotate_step m dev step src s).reason) [
        | inl p ↦ rw (execute_rotation-go m dev sources step steps s p) (later ∙ here)
        | inr (e, p) ↦ rw (execute_rotation-stop m dev sources step steps s e p) here
      ]

  renamed_back-other :
      (p : Text) (r : Esp × Option Text) → file (renamed_back m dev p r).0 q ≡ file r.0 q
  unfolding renamed_back
  renamed_back-other p (s, none) = refl
  renamed_back-other p (s, some e) = refl

  unstaged-other : (p : Text) (r : Esp × Option Text) → file (unstaged m dev p r).0 q ≡ file r.0 q
  unfolding unstaged
  unstaged-other p (s, none) = refl
  unstaged-other p (s, some e) = refl

  deleted-other :
      (p : Text) (r : Esp × Option Text)
      → differs q (slot_names p) ≡ true
      → file (deleted m dev p r).0 q ≡ file r.0 q
  unfolding deleted
  deleted-other p (s, some e) d = refl
  deleted-other p (s, none) d =
      renamed_back-other p (run_mtool m dev (build_mren_argv dev (mtools_bak p) (mtools_orig p)) s)
      ∙ mren_other m dev host file fat (mtools_bak p) (mtools_orig p) q s (ground (arith, d))
          (ground (arith, d))

  abbrev pub path_of : RollbackAction → Text
  path_of (delete_staged p) = p
  path_of (restore_from_bak p) = p

  pub perform-other :
      (a : RollbackAction) (s : Esp)
      → differs q (slot_names (path_of a)) ≡ true
      → file (perform m dev a s).0 q ≡ file s q
  unfolding perform
  perform-other (delete_staged p) s d =
      unstaged-other p (run_mtool m dev (build_mdel_argv dev (mtools_new p)) s)
      ∙ mdel_other m dev host file fat (mtools_new p) q s (ground (arith, d))
  perform-other (restore_from_bak p) s d =
      deleted-other p (run_mtool m dev (build_mdel_argv dev (mtools_orig p)) s) d
      ∙ mdel_other m dev host file fat (mtools_orig p) q s (ground (arith, d))
