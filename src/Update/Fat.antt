-- ===== src/Update/Fat.antt =====
-- crates/aegis-cli/src/update_apply.rs: what the rotation relies on of mtools and of the partition, and what one of
-- its steps does to the three names of a slot.
use aegis_boot.Prelude.{
  ℕ, ◌≡◌, refl, Bool, true, false, ◌&&◌, not, Option, none, some, is_some, List, [], ◌∷◌, ◌++◌,
  Text,
}
use aegis_boot.Prelude.Answers.{Answer}
use aegis_boot.Prelude.Parse.{eq_ignore_ascii_case}
use aegis_boot.Update.{Exit, success, not_started, unsuccessful, Mtools, RotationStep}
use aegis_boot.Update.Rotate.{
  build_mcopy_argv, build_mren_argv, build_mdel_argv, mtools_orig, mtools_new, mtools_bak,
  run_mtool, exit_error,
}

abbrev pub is_failed : Exit → Bool
is_failed success = false
is_failed (not_started e) = true
is_failed (unsuccessful status stderr) = true

-- `host` has the files of the host, `file` those of the partition, whose names ignore the case. A copy
-- that fails may leave anything under its target; a rename and a deletion that fail leave all as it is.
pub record IsFat {Esp : Type 0} (m : Mtools Esp) (dev : Text) (host : Text → Option (List ℕ))
    (file : Esp → Text → Option (List ℕ)) : Type 0 where
  pub mcopy_done :
      (src dest : Text) (s : Esp)
      → (m.sudo (build_mcopy_argv dev src dest) s).1 ≡ success
      → file (m.sudo (build_mcopy_argv dev src dest) s).0 dest ≡ host src
  pub mcopy_frame :
      (src dest p : Text) (s : Esp)
      → eq_ignore_ascii_case dest p ≡ false
      → file (m.sudo (build_mcopy_argv dev src dest) s).0 p ≡ file s p
  pub mren_done :
      (from to : Text) (s : Esp)
      → eq_ignore_ascii_case from to ≡ false
      → (m.sudo (build_mren_argv dev from to) s).1 ≡ success
      → (file (m.sudo (build_mren_argv dev from to) s).0 to ≡ file s from)
        × (file (m.sudo (build_mren_argv dev from to) s).0 from ≡ none)
  pub mren_failed :
      (from to p : Text) (s : Esp)
      → is_failed (m.sudo (build_mren_argv dev from to) s).1 ≡ true
      → file (m.sudo (build_mren_argv dev from to) s).0 p ≡ file s p
  pub mren_frame :
      (from to p : Text) (s : Esp)
      → eq_ignore_ascii_case from p ≡ false
      → eq_ignore_ascii_case to p ≡ false
      → file (m.sudo (build_mren_argv dev from to) s).0 p ≡ file s p
  pub mdel_done :
      (target : Text) (s : Esp)
      → (m.sudo (build_mdel_argv dev target) s).1 ≡ success
      → (is_some (file s target) ≡ true)
        × (file (m.sudo (build_mdel_argv dev target) s).0 target ≡ none)
  pub mdel_frame :
      (target p : Text) (s : Esp)
      → eq_ignore_ascii_case target p ≡ false
      → file (m.sudo (build_mdel_argv dev target) s).0 p ≡ file s p
  pub mtype_done :
      (target : Text) (bytes : List ℕ) (s : Esp)
      → m.mtype dev target s ≡ Answer.value bytes
      → file s target ≡ some bytes

error_none : (argv : List Text) (x : Exit) → exit_error argv x ≡ none → x ≡ success
error_none argv success h = refl
error_none argv (not_started e) h = cc
error_none argv (unsuccessful status stderr) h = cc

error_some :
    (argv : List Text) (x : Exit) (e : Text) → exit_error argv x ≡ some e → is_failed x ≡ true
error_some argv success e h = cc
error_some argv (not_started d) e h = refl
error_some argv (unsuccessful status stderr) e h = refl

-- The names of a slot, and lists of names that are apart.
abbrev pub slot_names : Text → List Text
slot_names p = mtools_orig p ∷ mtools_new p ∷ mtools_bak p ∷ []

abbrev pub differs : Text → List Text → Bool
differs p [] = true
differs p (q ∷ qs) =
    not (eq_ignore_ascii_case p q) && not (eq_ignore_ascii_case q p) && differs p qs

abbrev pub apart : List Text → Bool
apart [] = true
apart (p ∷ ps) = differs p ps && apart ps

abbrev pub names_of : List RotationStep → List Text
names_of [] = []
names_of (step ∷ steps) = slot_names step.esp_path ++ names_of steps

module _ {Esp : Type 0} (m : Mtools Esp) (dev : Text) (host : Text → Option (List ℕ))
    (file : Esp → Text → Option (List ℕ)) (fat : IsFat m dev host file) where
  -- A rename: what the source was stands at the target; or nothing has changed.
  pub mren_ok :
      (from to : Text) (s : Esp)
      → eq_ignore_ascii_case from to ≡ false
      → (run_mtool m dev (build_mren_argv dev from to) s).1 ≡ none
      → (file (run_mtool m dev (build_mren_argv dev from to) s).0 to ≡ file s from)
        × (file (run_mtool m dev (build_mren_argv dev from to) s).0 from ≡ none)
  unfolding run_mtool
  mren_ok from to s d h = fat.mren_done from to s d (error_none (build_mren_argv dev from to) _ h)

  pub mren_err :
      (from to p e : Text) (s : Esp)
      → (run_mtool m dev (build_mren_argv dev from to) s).1 ≡ some e
      → file (run_mtool m dev (build_mren_argv dev from to) s).0 p ≡ file s p
  unfolding run_mtool
  mren_err from to p e s h =
      fat.mren_failed from to p s (error_some (build_mren_argv dev from to) _ e h)

  pub mren_other :
      (from to p : Text) (s : Esp)
      → eq_ignore_ascii_case from p ≡ false
      → eq_ignore_ascii_case to p ≡ false
      → file (run_mtool m dev (build_mren_argv dev from to) s).0 p ≡ file s p
  unfolding run_mtool
  mren_other from to p s d e = fat.mren_frame from to p s d e

  pub mcopy_ok :
      (src dest : Text) (s : Esp)
      → (run_mtool m dev (build_mcopy_argv dev src dest) s).1 ≡ none
      → file (run_mtool m dev (build_mcopy_argv dev src dest) s).0 dest ≡ host src
  unfolding run_mtool
  mcopy_ok src dest s h = fat.mcopy_done src dest s (error_none (build_mcopy_argv dev src dest) _ h)

  pub mcopy_other :
      (src dest p : Text) (s : Esp)
      → eq_ignore_ascii_case dest p ≡ false
      → file (run_mtool m dev (build_mcopy_argv dev src dest) s).0 p ≡ file s p
  unfolding run_mtool
  mcopy_other src dest p s d = fat.mcopy_frame src dest p s d

  pub mdel_ok :
      (target : Text) (s : Esp)
      → (run_mtool m dev (build_mdel_argv dev target) s).1 ≡ none
      → (is_some (file s target) ≡ true)
        × (file (run_mtool m dev (build_mdel_argv dev target) s).0 target ≡ none)
  unfolding run_mtool
  mdel_ok target s h = fat.mdel_done target s (error_none (build_mdel_argv dev target) _ h)

  pub mdel_other :
      (target p : Text) (s : Esp)
      → eq_ignore_ascii_case target p ≡ false
      → file (run_mtool m dev (build_mdel_argv dev target) s).0 p ≡ file s p
  unfolding run_mtool
  mdel_other target p s d = fat.mdel_frame target p s d
