-- ===== src/Update/Undo.antt =====
-- crates/aegis-cli/src/update_apply.rs: `execute_rotation`, what each step leaves of its slot to be undone.
use aegis_boot.Prelude.{
  ℕ, ◌≡◌, ◌∙◌, ◌⊎◌, inl, inr, refl, true, false, Option, none, some, List, Text, arith, Bool-cases,
}
use aegis_boot.Prelude.Answers.{Answer, value, failure}
use aegis_boot.Prelude.Parse.{eq_ignore_ascii_case}
use aegis_boot.Update.{Mtools, RotationStep, mtype_sha256}
use aegis_boot.Update.Rotate.{
  StepState, pending, staged, rotated, Stepped, build_mcopy_argv, build_mren_argv, mtools_orig,
  mtools_new, mtools_bak, run_mtool, hashes_eq, judged, new_renamed, old_renamed, copied,
  rotate_step,
}
use aegis_boot.Update.Fat.{IsFat, slot_names, apart, mren_ok, mren_err, mren_other, mcopy_other}

module _ {Esp : Type 0} (m : Mtools Esp) (dev : Text) (host : Text → Option (List ℕ))
    (file : Esp → Text → Option (List ℕ)) (fat : IsFat m dev host file) where
  -- The slot's file as it was, or else gone with its content kept as the backup.
  abbrev pub Kept : (before : Option (List ℕ)) → Text → Esp → Type 0
  Kept before p s =
      (file s (mtools_orig p) ≡ before)
      ⊎ ((file s (mtools_orig p) ≡ none) × (file s (mtools_bak p) ≡ before))

  -- What a step in each state leaves to be undone.
  abbrev pub Undoable : (before : Option (List ℕ)) → Text → Esp → StepState → Type 0
  Undoable before p s pending = file s (mtools_orig p) ≡ before
  Undoable before p s rotated = file s (mtools_bak p) ≡ before
  Undoable before p s staged = Kept before p s ⊎ (file s (mtools_new p) ≡ none)

  abbrev Left : (before : Option (List ℕ)) → Text → Stepped Esp → Type 0
  Left before p r = Undoable before p r.esp r.state

  module _ (step : RotationStep) (own : apart (slot_names step.esp_path) ≡ true)
      (before : Option (List ℕ)) where
    own_differ :
        (eq_ignore_ascii_case (mtools_new step.esp_path) (mtools_orig step.esp_path) ≡ false)
        × (eq_ignore_ascii_case (mtools_orig step.esp_path) (mtools_bak step.esp_path) ≡ false)
        × (eq_ignore_ascii_case (mtools_new step.esp_path) (mtools_bak step.esp_path) ≡ false)
    own_differ = ground (arith, own)

    judged-Left :
        (s : Esp) (a : Answer Text)
        → file s (mtools_bak step.esp_path) ≡ before
        → file s (mtools_new step.esp_path) ≡ none
        → Left before step.esp_path (judged m dev step s a)
    unfolding judged
    judged-Left s (failure e) b n = inr n
    judged-Left s (value h) b n = elim (Bool-cases (hashes_eq h step.fresh_sha256)) [
      | inl q ↦ rw q b
      | inr q ↦ rw q (inr n)
    ]

    new_renamed-Left :
        (r : Esp × Option Text)
        → file r.0 (mtools_bak step.esp_path) ≡ before
        → (r.1 ≡ none → file r.0 (mtools_new step.esp_path) ≡ none)
        → ((e : Text) → r.1 ≡ some e → file r.0 (mtools_orig step.esp_path) ≡ none)
        → Left before step.esp_path (new_renamed m dev step r)
    unfolding new_renamed
    new_renamed-Left (s, none) b f g = judged-Left s (mtype_sha256 m dev step.esp_path s) b (f refl)
    new_renamed-Left (s, some e) b f g = inl (inr (g e refl, b))

    old_renamed-Left :
        (r : Esp × Option Text)
        → (r.1 ≡ none
            → (file r.0 (mtools_bak step.esp_path) ≡ before)
              × (file r.0 (mtools_orig step.esp_path) ≡ none))
        → ((e : Text) → r.1 ≡ some e → file r.0 (mtools_orig step.esp_path) ≡ before)
        → Left before step.esp_path (old_renamed m dev step r)
    unfolding old_renamed
    old_renamed-Left (s, some e) f g = inl (inl (g e refl))
    old_renamed-Left (s, none) f g =
        let new = mtools_new step.esp_path in
        let orig = mtools_orig step.esp_path in
        let (b, o) = f refl in
        let (d, e, k) = own_differ in
        new_renamed-Left (run_mtool m dev (build_mren_argv dev new orig) s)
          (mren_other m dev host file fat new orig (mtools_bak step.esp_path) s k e ∙ b)
          (λ p. (mren_ok m dev host file fat new orig s d p).1)
          (λ x p. mren_err m dev host file fat new orig orig x s p ∙ o)

    copied-Left :
        (r : Esp × Option Text)
        → file r.0 (mtools_orig step.esp_path) ≡ before
        → Left before step.esp_path (copied m dev step r)
    unfolding copied
    copied-Left (s, some e) o = o
    copied-Left (s, none) o =
        let orig = mtools_orig step.esp_path in
        let bak = mtools_bak step.esp_path in
        old_renamed-Left (run_mtool m dev (build_mren_argv dev orig bak) s)
          (λ p. let (b, n) = mren_ok m dev host file fat orig bak s own_differ.1 p in (b ∙ o, n))
          (λ x p. mren_err m dev host file fat orig bak orig x s p ∙ o)

    pub rotate_step-Left :
        (src : Option Text) (s : Esp)
        → file s (mtools_orig step.esp_path) ≡ before
        → Left before step.esp_path (rotate_step m dev step src s)
    unfolding rotate_step
    rotate_step-Left none s o = o
    rotate_step-Left (some src) s o =
        let new = mtools_new step.esp_path in
        copied-Left (run_mtool m dev (build_mcopy_argv dev src new) s)
          (mcopy_other m dev host file fat src new (mtools_orig step.esp_path) s own_differ.0 ∙ o)
