-- ===== src/Update/Progress.antt =====
-- crates/aegis-cli/src/{update_apply,update}.rs: what a rotation leaves to be undone, whether it
-- failed or not.
use aegis_boot.Prelude.{
  ℕ, ◌≡◌, ◌∙◌, inl, inr, refl, Bool, true, ◌&&◌, Option, List, [], ◌∷◌, ◌++◌, Text, arith,
  Option-cases,
}
use aegis_boot.Update.{Mtools, RotationStep}
use aegis_boot.Update.Rotate.{
  StepState, pending, staged, rotated, StepProgress, RotationSources, source_for, Outcome, ok, err,
  pendings, mtools_orig, mtools_new, mtools_bak, rotate_step, execute_rotation, execute_rotation-go,
  execute_rotation-stop, behind,
}
use aegis_boot.Update.Fat.{IsFat, slot_names, differs, apart, names_of}
use aegis_boot.Update.Frame.{rotate_step-other, execute_rotation-other}
use aegis_boot.Update.Undo.{Kept, Undoable, rotate_step-Left}

abbrev pub progress_of : Outcome → List StepProgress
progress_of (ok ps) = ps
progress_of (err e ps) = ps

pub progress-behind :
    (p : StepProgress) (o : Outcome) → progress_of (behind p o) ≡ p ∷ progress_of o
progress-behind p (ok ps) = refl
progress-behind p (err e ps) = refl

abbrev pub steps_of : List StepProgress → List RotationStep
steps_of [] = []
steps_of (p ∷ ps) = p.step ∷ steps_of ps

steps_of-pendings : (steps : List RotationStep) → steps_of (pendings steps) ≡ steps
steps_of-pendings [] = refl
steps_of-pendings (step ∷ steps) = rw (steps_of-pendings steps)

-- The names of the first slot are apart from one another and from those of the others.
pub apart_own :
    (p : Text) (rest : List Text)
    → apart (slot_names p ++ rest) ≡ true
    → (apart (slot_names p) ≡ true) × (apart rest ≡ true)
apart_own p rest h = ground (arith, h)

pub apart_rest :
    (p : Text) (rest : List Text)
    → apart (slot_names p ++ rest) ≡ true
    → (differs (mtools_orig p) rest ≡ true)
      × (differs (mtools_new p) rest ≡ true)
      × (differs (mtools_bak p) rest ≡ true)
apart_rest p rest h = ground (arith, h)

-- A name that differs from all of a list is differed from by all.
abbrev pub all_differ : List Text → List Text → Bool
all_differ [] qs = true
all_differ (p ∷ ps) qs = differs p qs && all_differ ps qs

pub differs_swap :
    (a b c : Text) (rest : List Text)
    → differs a rest ≡ true
    → differs b rest ≡ true
    → differs c rest ≡ true
    → all_differ rest (a ∷ b ∷ c ∷ []) ≡ true
differs_swap a b c [] h k l = refl
differs_swap a b c (p ∷ rest) h k l = ground (arith, differs_swap a b c rest)

module _ {Esp : Type 0} (m : Mtools Esp) (dev : Text) (host : Text → Option (List ℕ))
    (file : Esp → Text → Option (List ℕ)) (fat : IsFat m dev host file)
    (start : Text → Option (List ℕ)) where
  abbrev pub Same : List RotationStep → Esp → Type 0
  Same [] s = Unit {0}
  Same (step ∷ steps) s =
      (file s (mtools_orig step.esp_path) ≡ start (mtools_orig step.esp_path)) × Same steps s

  abbrev pub AllUndoable : List StepProgress → Esp → Type 0
  AllUndoable [] s = Unit {0}
  AllUndoable (p ∷ ps) s =
      Undoable m dev host file fat (start (mtools_orig p.step.esp_path)) p.step.esp_path s p.state
      × AllUndoable ps s

  -- Every slot has its file as it was, or else it is gone with its content kept as the backup.
  abbrev pub AllKept : List RotationStep → Esp → Type 0
  AllKept [] s = Unit {0}
  AllKept (step ∷ steps) s =
      Kept m dev host file fat (start (mtools_orig step.esp_path)) step.esp_path s × AllKept steps s

  abbrev pub SameAt : Text → Esp → Esp → Type 0
  SameAt p s t =
      (file t (mtools_orig p) ≡ file s (mtools_orig p))
      × (file t (mtools_new p) ≡ file s (mtools_new p))
      × (file t (mtools_bak p) ≡ file s (mtools_bak p))

  pub Kept-frame :
      (before : Option (List ℕ)) (p : Text) (s t : Esp)
      → SameAt p s t
      → Kept m dev host file fat before p s
      → Kept m dev host file fat before p t
  Kept-frame before p s t (o, n, b) (inl h) = inl (o ∙ h)
  Kept-frame before p s t (o, n, b) (inr (h, k)) = inr (o ∙ h, b ∙ k)

  pub Undoable-frame :
      (before : Option (List ℕ)) (p : Text) (s t : Esp) (state : StepState)
      → SameAt p s t
      → Undoable m dev host file fat before p s state
      → Undoable m dev host file fat before p t state
  Undoable-frame before p s t pending (o, n, b) h = o ∙ h
  Undoable-frame before p s t rotated (o, n, b) h = b ∙ h
  Undoable-frame before p s t staged f (inl k) = inl (Kept-frame before p s t f k)
  Undoable-frame before p s t staged (o, n, b) (inr h) = inr (n ∙ h)

  pub Same-frame :
      (steps : List RotationStep) (a b c : Text) (s t : Esp)
      → ((q : Text) → differs q (a ∷ b ∷ c ∷ []) ≡ true → file t q ≡ file s q)
      → all_differ (names_of steps) (a ∷ b ∷ c ∷ []) ≡ true
      → Same steps s
      → Same steps t
  Same-frame [] a b c s t f d h = tt
  Same-frame (step ∷ steps) a b c s t f d (h, hs) = (
    f (mtools_orig step.esp_path) (ground (arith, d)) ∙ h,
    Same-frame steps a b c s t f (ground (arith, d)) hs,
  )

  pub AllKept-frame :
      (steps : List RotationStep) (a b c : Text) (s t : Esp)
      → ((q : Text) → differs q (a ∷ b ∷ c ∷ []) ≡ true → file t q ≡ file s q)
      → all_differ (names_of steps) (a ∷ b ∷ c ∷ []) ≡ true
      → AllKept steps s
      → AllKept steps t
  AllKept-frame [] a b c s t f d h = tt
  AllKept-frame (step ∷ steps) a b c s t f d (h, hs) =
      let p = step.esp_path in
      (
        Kept-frame (start (mtools_orig p)) p s t
            (
              f (mtools_orig p) (ground (arith, d)),
              f (mtools_new p) (ground (arith, d)),
              f (mtools_bak p) (ground (arith, d)),
            )
            h,
        AllKept-frame steps a b c s t f (ground (arith, d)) hs,
      )

  AllUndoable-pendings :
      (steps : List RotationStep) (s : Esp) → Same steps s → AllUndoable (pendings steps) s
  AllUndoable-pendings [] s h = tt
  AllUndoable-pendings (step ∷ steps) s (h, hs) = (h, AllUndoable-pendings steps s hs)

  pub steps_of-execute_rotation :
      (sources : RotationSources) (steps : List RotationStep) (s : Esp)
      → steps_of (progress_of (execute_rotation m dev sources steps s).1) ≡ steps
  unfolding execute_rotation
  steps_of-execute_rotation sources [] s = refl
  steps_of-execute_rotation sources (step ∷ steps) s =
      let r = rotate_step m dev step (source_for sources step.role) s in
      let here : StepProgress = record { step = step; state = r.state } in
      elim (Option-cases r.reason) [
        | inr (e, p) ↦
            rw (execute_rotation-stop m dev sources step steps s e p) (rw (steps_of-pendings steps))
        | inl p ↦ rw (execute_rotation-go m dev sources step steps s p) (
            rw (progress-behind here (execute_rotation m dev sources steps r.esp).1)
              (rw (steps_of-execute_rotation sources steps r.esp)))
      ]

  -- Whatever fails, all steps leave what their states promise.
  pub execute_rotation-undo :
      (sources : RotationSources) (steps : List RotationStep) (s : Esp)
      → apart (names_of steps) ≡ true
      → Same steps s
      → AllUndoable
          (progress_of (execute_rotation m dev sources steps s).1)
          (execute_rotation m dev sources steps s).0
  unfolding execute_rotation
  execute_rotation-undo sources [] s a h = tt
  execute_rotation-undo sources (step ∷ steps) s a (h, hs) =
      let p = step.esp_path in
      let src = source_for sources step.role in
      let r = rotate_step m dev step src s in
      let here : StepProgress = record { step = step; state = r.state } in
      let rest = execute_rotation m dev sources steps r.esp in
      let (own, later) = apart_own p (names_of steps) a in
      let (o, n, b) = apart_rest p (names_of steps) a in
      let left = rotate_step-Left m dev host file fat step own (start (mtools_orig p)) src s h in
      let same =
        Same-frame steps (mtools_orig p) (mtools_new p) (mtools_bak p) s r.esp
          (λ q d. rotate_step-other m dev host file fat q step d src s)
          (differs_swap (mtools_orig p) (mtools_new p) (mtools_bak p) (names_of steps) o n b) hs in
      elim (Option-cases r.reason) [
        | inr (e, q) ↦
            rw (execute_rotation-stop m dev sources step steps s e q)
              (left, AllUndoable-pendings steps r.esp same)
        | inl q ↦ rw (execute_rotation-go m dev sources step steps s q) (
            rw (progress-behind here rest.1) (
              Undoable-frame (start (mtools_orig p)) p r.esp rest.0 r.state
                  (
                    execute_rotation-other m dev host file fat (mtools_orig p) sources steps r.esp
                        o,
                    execute_rotation-other m dev host file fat (mtools_new p) sources steps r.esp n,
                    execute_rotation-other m dev host file fat (mtools_bak p) sources steps r.esp b,
                  )
                  left,
              execute_rotation-undo sources steps r.esp later same,
            ))
      ]

module _ {Esp : Type 0} (m : Mtools Esp) (dev : Text) (host : Text → Option (List ℕ))
    (file : Esp → Text → Option (List ℕ)) (fat : IsFat m dev host file) where
  pub Same-refl : (s : Esp) (steps : List RotationStep) → Same m dev host file fat (file s) steps s
  Same-refl s [] = tt
  Same-refl s (step ∷ steps) = (refl, Same-refl s steps)
