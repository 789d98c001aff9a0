-- ===== src/Tests/Updates.antt =====
-- crates/aegis-cli/src/{update_apply,update}.rs at a stick whose files are a function and whose commands fail as a
-- list of flags says.
use aegis_boot.Prelude.{
  ℕ, zero, suc, ◌+◌, ◌≡◌, refl, Bool, true, false, Option, none, some, is_some, List, [], ◌∷◌, Text,
  codes, text_eq, to_ascii_lowercase, length, if◌then◌else◌, arith,
}
use aegis_boot.Prelude.Answers.{Answer, value, failure}
use aegis_boot.Prelude.Decimal.{trim, trim_start, trim_end, is_whitespace}
use aegis_boot.Prelude.Parse.{eq_ignore_ascii_case}
use aegis_boot.Update.{
  Exit, success, unsuccessful, Mtools, HostChainEntry, RotationStep, build_esp_diff, plan_rotation,
  mtype_sha256,
}
use aegis_boot.Update.Rotate.{
  RotationSources, source_for, run_mtool, hashes_eq, build_mcopy_argv, build_mren_argv,
  build_mdel_argv,
}
use aegis_boot.Update.Rollback.{dispatch_rotation, run_rollback, complete}
use aegis_boot.Update.Fat.{IsFat, is_failed, apart, names_of, differs}
use aegis_boot.Update.Restored.{dispatch_rotation-AllKept, is_undone}
use aegis_boot.Update.Progress.{AllKept}
use aegis_boot.Update.Landed.{AllLanded}
use aegis_boot.Update.Complete.{dispatch_rotation-AllLanded}
use aegis_boot.Update.Window.{failed_install_lem, failed_check_lem, is_rolled_back}

text_eq_refl : (t : Text) → text_eq t t ≡ true
unfolding text_eq
text_eq_refl [] = refl
text_eq_refl (c ∷ t) = ground (arith, text_eq_refl t)

eq_refl : (t : Text) → eq_ignore_ascii_case t t ≡ true
unfolding eq_ignore_ascii_case
eq_refl t = text_eq_refl (to_ascii_lowercase t)

record Stick : Type 0 where
  files : Text → Option (List ℕ)
  failures : List Bool

abbrev put : Text → Option (List ℕ) → (Text → Option (List ℕ)) → Text → Option (List ℕ)
put p v files q = if eq_ignore_ascii_case p q then v else files q

abbrev refused : Exit
refused = unsuccessful (codes "exit status: 1") (codes "no")

abbrev host : Text → Option (List ℕ)
host p = if text_eq p (codes "/tmp/shim") then some (7 ∷ 7 ∷ []) else some (8 ∷ 8 ∷ 8 ∷ [])

abbrev spend : List Bool → List Bool
spend [] = []
spend (_ ∷ fs) = fs

abbrev fails : List Bool → Bool
fails [] = false
fails (f ∷ _) = f

abbrev ended : Stick → Bool → Option (List ℕ) → (Text → Option (List ℕ)) → Stick × Exit
ended s true _ files = (record s { failures = spend s.failures }, refused)
ended s false none files = (record s { failures = spend s.failures }, refused)
ended s false (some v) files = (record { files = files; failures = spend s.failures }, success)

abbrev run_mren : Text → Text → Stick → Stick × Exit
run_mren a b s = ended s (fails s.failures) (s.files a) (put a none (put b (s.files a) s.files))

abbrev run_mdel : Text → Stick → Stick × Exit
run_mdel p s = ended s (fails s.failures) (s.files p) (put p none s.files)

abbrev run_mcopy : Text → Text → Stick → Stick × Exit
run_mcopy src dest s = ended s (fails s.failures) (host src) (put dest (host src) s.files)

abbrev run_words : List Text → Stick → Stick × Exit
run_words (cmd ∷ _ ∷ _ ∷ _ ∷ a ∷ b ∷ []) s =
    if text_eq cmd (codes "mren") then run_mren a b s else run_mdel b s
run_words (_ ∷ _ ∷ _ ∷ _ ∷ _ ∷ _ ∷ src ∷ dest ∷ []) s = run_mcopy src dest s
run_words _ s = (s, refused)

abbrev sixty_four : ℕ → ℕ → Text
sixty_four zero c = []
sixty_four (suc n) c = c ∷ sixty_four n c

abbrev or_failure : Option (List ℕ) → Answer (List ℕ)
or_failure none = failure (codes "not found")
or_failure (some v) = value v

-- The digest is as many times the length.
abbrev tools : Mtools Stick
tools = record {
  sudo = run_words;
  mtype = λ device target s. or_failure (s.files target);
  sha256sum = λ bytes. value (sixty_four 64 (b'0' + length bytes));
  debug = λ t. t;
}

abbrev dev : Text
dev = codes "/dev/sda1"

ended_done :
    (s : Stick) (f : Bool) (v : Option (List ℕ)) (files : Text → Option (List ℕ))
    → (ended s f v files).1 ≡ success
    → ((ended s f v files).0.files ≡ files) × (is_some v ≡ true)
ended_done s true v files h = cc
ended_done s false none files h = cc
ended_done s false (some v) files h = (refl, refl)

ended_frame :
    (s : Stick) (f : Bool) (v : Option (List ℕ)) (files : Text → Option (List ℕ)) (q : Text)
    → files q ≡ s.files q
    → (ended s f v files).0.files q ≡ s.files q
ended_frame s true v files q h = refl
ended_frame s false none files q h = refl
ended_frame s false (some v) files q h = h

ended_failed :
    (s : Stick) (f : Bool) (v : Option (List ℕ)) (files : Text → Option (List ℕ)) (q : Text)
    → is_failed (ended s f v files).1 ≡ true
    → (ended s f v files).0.files q ≡ s.files q
ended_failed s true v files q h = refl
ended_failed s false none files q h = refl
ended_failed s false (some v) files q h = cc

or_failure-value :
    (v : Option (List ℕ)) (bytes : List ℕ) → or_failure v ≡ value bytes → v ≡ some bytes
or_failure-value none bytes h = cc
or_failure-value (some v) bytes h = cc

tools-IsFat : IsFat tools dev host (λ s. s.files)
unfolding build_mcopy_argv build_mren_argv build_mdel_argv text_eq
tools-IsFat = record {
  mcopy_done = λ src dest s h.
      rw (ended_done s (fails s.failures) (host src) (put dest (host src) s.files) h).0
        (rw (eq_refl dest));
  mcopy_frame = λ src dest p s d.
      ended_frame s (fails s.failures) (host src) (put dest (host src) s.files) p (rw d);
  mren_done = λ from to s d h.
      let e =
        (ended_done s (fails s.failures) (s.files from)
          (put from none (put to (s.files from) s.files)) h).0 in
      (rw e (rw d (rw (eq_refl to))), rw e (rw (eq_refl from)));
  mren_failed = λ from to p s h.
      ended_failed s (fails s.failures) (s.files from)
        (put from none (put to (s.files from) s.files)) p h;
  mren_frame = λ from to p s d e.
      ended_frame s (fails s.failures) (s.files from)
        (put from none (put to (s.files from) s.files)) p (rw d (rw e));
  mdel_done = λ target s h.
      let (e, there) =
        ended_done s (fails s.failures) (s.files target) (put target none s.files) h in
      (there, rw e (rw (eq_refl target)));
  mdel_frame = λ target p s d.
      ended_frame s (fails s.failures) (s.files target) (put target none s.files) p (rw d);
  mtype_done = λ target bytes s h. or_failure-value (s.files target) bytes h;
}

abbrev stick : List Bool → Stick
stick failures = record {
  files =
      put (codes "::/EFI/BOOT/BOOTX64.EFI") (some (1 ∷ []))
        (put (codes "::/vmlinuz") (some (1 ∷ [])) (λ q. none));
  failures = failures;
}

abbrev chain : List HostChainEntry
chain =
    record { role = codes "shim"; sha256 = value (sixty_four 64 b'2') }
    ∷ record { role = codes "kernel"; sha256 = value (sixty_four 64 b'3') }
    ∷ []

abbrev step_to : (role path : Text) → ℕ → RotationStep
step_to role path c = record {
  role = role;
  esp_path = path;
  current_sha256 = sixty_four 64 b'1';
  fresh_sha256 = sixty_four 64 c;
}

abbrev kernel_step : RotationStep
kernel_step = step_to (codes "kernel") (codes "/vmlinuz") b'3'

abbrev plan : List RotationStep
plan = step_to (codes "shim") (codes "/EFI/BOOT/BOOTX64.EFI") b'2' ∷ kernel_step ∷ []

abbrev sources : RotationSources
sources = record {
  shim = codes "/tmp/shim";
  grub = codes "/tmp/grub";
  grub_cfg = codes "/tmp/grub.cfg";
  kernel = codes "/tmp/kernel";
  combined_initrd = codes "/tmp/initrd";
}

-- The files that the host has and the stick has otherwise are planned, and no others.
planned : plan_rotation (build_esp_diff tools dev chain (stick [])) ≡ plan
unfolding plan_rotation build_esp_diff eq_ignore_ascii_case text_eq to_ascii_lowercase
planned = refl

-- An update, and then `--rollback`.
rolled_back_after :
    ((run_rollback tools dev (dispatch_rotation tools dev sources plan (stick [])).0).0.files
      (codes "::/vmlinuz"))
    ≡ some (1 ∷ [])
unfolding run_rollback dispatch_rotation eq_ignore_ascii_case text_eq to_ascii_lowercase
rolled_back_after = refl

abbrev files_of : Stick → Text → Option (List ℕ)
files_of s = s.files

plan_is_apart : apart (names_of plan) ≡ true
unfolding eq_ignore_ascii_case text_eq to_ascii_lowercase
plan_is_apart = refl

both_rotated : (dispatch_rotation tools dev sources plan (stick [])).1 ≡ complete 2
unfolding dispatch_rotation eq_ignore_ascii_case text_eq to_ascii_lowercase
both_rotated = refl

dispatch_rotation-AllLanded_example :
    let after = (dispatch_rotation tools dev sources plan (stick [])).0 in
    (2 ≡ length plan)
    × AllLanded tools dev host files_of tools-IsFat sources (stick []).files plan after
    × ((q : Text) → differs q (names_of plan) ≡ true → after.files q ≡ (stick []).files q)
dispatch_rotation-AllLanded_example =
    dispatch_rotation-AllLanded tools dev host files_of tools-IsFat sources plan (stick []) 2
      plan_is_apart both_rotated

-- The second slot's backup fails.
abbrev fifth_fails : Stick
fifth_fails = stick (false ∷ false ∷ false ∷ false ∷ true ∷ [])

fifth_undone : is_undone (dispatch_rotation tools dev sources plan fifth_fails).1 ≡ true
unfolding dispatch_rotation eq_ignore_ascii_case text_eq to_ascii_lowercase
fifth_undone = refl

dispatch_rotation-AllKept_example :
    AllKept tools dev host files_of tools-IsFat fifth_fails.files plan
      (dispatch_rotation tools dev sources plan fifth_fails).0
dispatch_rotation-AllKept_example =
    dispatch_rotation-AllKept tools dev host files_of tools-IsFat sources plan fifth_fails
      plan_is_apart fifth_undone

abbrev third_fails : Stick
third_fails = stick (false ∷ false ∷ true ∷ [])

abbrev tool_error : Text
tool_error = codes "mren exited exit status: 1: no"

failed_install_lem_example :
    let d = dispatch_rotation tools dev sources (kernel_step ∷ []) third_fails in
    (is_rolled_back d.1 ≡ true)
    × (d.0.files (codes "::/vmlinuz") ≡ none)
    × (d.0.files (codes "::/vmlinuz.new") ≡ none)
    × (d.0.files (codes "::/vmlinuz.bak") ≡ third_fails.files (codes "::/vmlinuz"))
unfolding source_for run_mtool build_mcopy_argv eq_ignore_ascii_case to_ascii_lowercase
    build_mren_argv trim trim_end trim_start is_whitespace build_mdel_argv
failed_install_lem_example =
    failed_install_lem tools dev host files_of tools-IsFat sources kernel_step []
      (codes "/tmp/kernel") third_fails refl refl refl refl tool_error refl refl

abbrev other_step : RotationStep
other_step = step_to (codes "kernel") (codes "/vmlinuz") b'9'

failed_check_lem_example :
    let d = dispatch_rotation tools dev sources (other_step ∷ []) (stick []) in
    (is_rolled_back d.1 ≡ false)
    × (d.0.files (codes "::/vmlinuz") ≡ host (codes "/tmp/kernel"))
    × (d.0.files (codes "::/vmlinuz.bak") ≡ (stick []).files (codes "::/vmlinuz"))
unfolding source_for run_mtool build_mcopy_argv eq_ignore_ascii_case to_ascii_lowercase mtype_sha256
    hashes_eq build_mren_argv
failed_check_lem_example =
    failed_check_lem tools dev host files_of tools-IsFat sources other_step [] (codes "/tmp/kernel")
      (stick []) refl refl refl refl (sixty_four 64 b'3') refl refl refl
