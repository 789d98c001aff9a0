-- ===== src/EventLoop/Refused.antt =====
-- crates/rescue-tui/src/main.rs: the ISO that the Error screen's evidence names after a refused kexec.
use aegis_boot.Prelude.{ℕ, ◌≡◌, true, Option, none, some, Text, arith, is_some, get_elem?}
use aegis_boot.Iso.{DiscoveredIso}
use aegis_boot.Screen.{Screen}
use aegis_boot.App.{AppState}
use aegis_boot.App.Diagnose.{error_evidence, record_kexec_error}
use aegis_boot.EventLoop.Kexec.{Env, attempt_kexec}

-- The ISO that the evidence of the Error screen names.
abbrev pub evidence_iso : AppState → Option DiscoveredIso
evidence_iso s = elim (error_evidence s) [ none ↦ none | some e ↦ some e.iso ]

-- A kexec that is refused from the Confirm screen leaves an Error screen whose evidence names the ISO
-- that was to boot.
pub refusal_from_confirm :
    (env : Env) (i : ℕ) (s : AppState)
    → s.screen ≡ Screen.confirm i
    → is_some (get_elem? s.isos i) ≡ true
    → evidence_iso (attempt_kexec env i s).0 ≡ get_elem? s.isos i
unfolding attempt_kexec record_kexec_error error_evidence
refusal_from_confirm env i s p h = ground arith

-- A kexec that is refused from the typed challenge leaves an Error screen whose evidence names the
-- first ISO, whichever was to boot.
pub refusal_from_challenge :
    (env : Env) (i : ℕ) (b : Text) (s : AppState)
    → s.screen ≡ Screen.trust_challenge i b
    → is_some (get_elem? s.isos i) ≡ true
    → evidence_iso (attempt_kexec env i s).0 ≡ get_elem? s.isos 0
unfolding attempt_kexec record_kexec_error error_evidence
refusal_from_challenge env i b s p h = ground arith
