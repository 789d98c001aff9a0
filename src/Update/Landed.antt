-- ===== src/Update/Landed.antt =====
-- crates/aegis-cli/src/{update_apply,update}.rs: a rotation that succeeds, slot by slot.
use aegis_boot.Prelude.{
  ℕ, ◌≡◌, ◌∙◌, inl, inr, refl, true, Option, none, some, List, [], ◌∷◌, Text, arith, Bool-cases,
}
use aegis_boot.Prelude.Answers.{Answer, value, failure, Answer-cases}
use aegis_boot.Update.{Mtools, RotationStep, mtype_sha256, sha256_stdin}
use aegis_boot.Update.Rotate.{
  rotated, RotationSources, source_for, Stepped, build_mcopy_argv, build_mren_argv, mtools_orig,
  mtools_new, mtools_bak, run_mtool, hashes_eq, judged, new_renamed, old_renamed, copied,
  rotate_step,
}
use aegis_boot.Update.Fat.{IsFat, slot_names, apart, mren_ok, mren_other, mcopy_ok, mcopy_other}

module _ {Esp : Type 0} (m : Mtools Esp) (dev : Text) (host : Text → Option (List ℕ))
    (file : Esp → Text → Option (List ℕ)) (fat : IsFat m dev host file) where
  -- The slot has the host's file, whose digest is the one that was planned, and its old file as the
  -- backup.
  pub record Landed (step : RotationStep) (src : Option Text) (before : Option (List ℕ)) (s : Esp)
      : Type 0 where
    pub path : Text
    pub bytes : List ℕ
    pub observed : Text
    pub source : src ≡ some path
    pub installed : file s (mtools_orig step.esp_path) ≡ host path
    pub present : file s (mtools_orig step.esp_path) ≡ some bytes
    pub hashed : sha256_stdin m bytes ≡ Answer.value observed
    pub planned : hashes_eq observed step.fresh_sha256 ≡ true
    pub backup : file s (mtools_bak step.esp_path) ≡ before

  mtype_sha256-value :
      (p h : Text) (s : Esp)
      → mtype_sha256 m dev p s ≡ Answer.value h
      → (bytes : List ℕ) × (file s (mtools_orig p) ≡ some bytes)
        × (sha256_stdin m bytes ≡ Answer.value h)
  unfolding mtype_sha256
  mtype_sha256-value p h s q = elim (Answer-cases (m.mtype dev (mtools_orig p) s)) [
    | inr (e, r) ↦ absurd (ground (arith, q, r))
    | inl (bytes, r) ↦ (bytes, fat.mtype_done (mtools_orig p) bytes s r, ground (arith, q, r))
  ]

  judged-none :
      (step : RotationStep) (s : Esp) (a : Answer Text)
      → (judged m dev step s a).reason ≡ none
      → (h : Text) × (a ≡ Answer.value h)
        × (hashes_eq h step.fresh_sha256 ≡ true)
        × ((judged m dev step s a).esp ≡ s)
        × ((judged m dev step s a).state ≡ rotated)
  unfolding judged
  judged-none step s (failure e) q = cc
  judged-none step s (value h) q = elim (Bool-cases (hashes_eq h step.fresh_sha256)) [
    | inl p ↦ (h, refl, p, rw p, rw p)
    | inr p ↦ absurd (ground (arith, p, q))
  ]

  module _ (step : RotationStep) (own : apart (slot_names step.esp_path) ≡ true) (path : Text)
      (before : Option (List ℕ)) where
    abbrev Good : Stepped Esp → Type 0
    Good r = Landed step (some path) before r.esp × (r.state ≡ rotated)

    new_renamed-Landed :
        (r : Esp × Option Text)
        → file r.0 (mtools_bak step.esp_path) ≡ before
        → (r.1 ≡ none → file r.0 (mtools_orig step.esp_path) ≡ host path)
        → (new_renamed m dev step r).reason ≡ none
        → Good (new_renamed m dev step r)
    unfolding new_renamed
    new_renamed-Landed (s, some e) b f q = cc
    new_renamed-Landed (s, none) b f q =
        let (h, a, k, e, st) = judged-none step s (mtype_sha256 m dev step.esp_path s) q in
        let (bytes, there, sum) = mtype_sha256-value step.esp_path h s a in
        (
          rw e (record {
            path = path;
            bytes = bytes;
            observed = h;
            source = refl;
            installed = f refl;
            present = there;
            hashed = sum;
            planned = k;
            backup = b;
          }),
          st,
        )

    old_renamed-Landed :
        (r : Esp × Option Text)
        → (r.1 ≡ none
            → (file r.0 (mtools_bak step.esp_path) ≡ before)
              × (file r.0 (mtools_new step.esp_path) ≡ host path))
        → (old_renamed m dev step r).reason ≡ none
        → Good (old_renamed m dev step r)
    unfolding old_renamed
    old_renamed-Landed (s, some e) f q = cc
    old_renamed-Landed (s, none) f q =
        let new = mtools_new step.esp_path in
        let orig = mtools_orig step.esp_path in
        let (b, n) = f refl in
        new_renamed-Landed (run_mtool m dev (build_mren_argv dev new orig) s)
          (mren_other m dev host file fat new orig (mtools_bak step.esp_path) s
              (ground (arith, own)) (ground (arith, own))
            ∙ b)
          (λ p. (mren_ok m dev host file fat new orig s (ground (arith, own)) p).0 ∙ n) q

    copied-Landed :
        (r : Esp × Option Text)
        → file r.0 (mtools_orig step.esp_path) ≡ before
        → (r.1 ≡ none → file r.0 (mtools_new step.esp_path) ≡ host path)
        → (copied m dev step r).reason ≡ none
        → Good (copied m dev step r)
    unfolding copied
    copied-Landed (s, some e) o f q = cc
    copied-Landed (s, none) o f q =
        let orig = mtools_orig step.esp_path in
        let bak = mtools_bak step.esp_path in
        let new = mtools_new step.esp_path in
        old_renamed-Landed (run_mtool m dev (build_mren_argv dev orig bak) s)
          (λ p. (
            (mren_ok m dev host file fat orig bak s (ground (arith, own)) p).0 ∙ o,
            mren_other m dev host file fat orig bak new s (ground (arith, own))
                  (ground (arith, own))
                ∙ f refl,
          ))
          q

  pub rotate_step-Landed :
      (step : RotationStep) (own : apart (slot_names step.esp_path) ≡ true) (src : Option Text)
      (s : Esp)
      → (rotate_step m dev step src s).reason ≡ none
      → Landed step src (file s (mtools_orig step.esp_path)) (rotate_step m dev step src s).esp
        × ((rotate_step m dev step src s).state ≡ rotated)
  unfolding rotate_step
  rotate_step-Landed step own none s q = cc
  rotate_step-Landed step own (some path) s q =
      let new = mtools_new step.esp_path in
      copied-Landed step own path (file s (mtools_orig step.esp_path))
        (run_mtool m dev (build_mcopy_argv dev path new) s)
        (mcopy_other m dev host file fat path new (mtools_orig step.esp_path) s
          (ground (arith, own)))
        (mcopy_ok m dev host file fat path new s) q

  abbrev pub AllLanded :
      RotationSources → (start : Text → Option (List ℕ)) → List RotationStep → Esp → Type 0
  AllLanded sources start [] s = Unit {0}
  AllLanded sources start (step ∷ steps) s =
      Landed step (source_for sources step.role) (start (mtools_orig step.esp_path)) s
      × AllLanded sources start steps s

  pub Landed-frame :
      (step : RotationStep) (src : Option Text) (before before' : Option (List ℕ)) (s t : Esp)
      → before ≡ before'
      → file t (mtools_orig step.esp_path) ≡ file s (mtools_orig step.esp_path)
      → file t (mtools_bak step.esp_path) ≡ file s (mtools_bak step.esp_path)
      → Landed step src before s
      → Landed step src before' t
  Landed-frame step src before before' s t e o b l = record {
    path = l.path;
    bytes = l.bytes;
    observed = l.observed;
    source = l.source;
    installed = o ∙ l.installed;
    present = o ∙ l.present;
    hashed = l.hashed;
    planned = l.planned;
    backup = b ∙ l.backup ∙ e;
  }
