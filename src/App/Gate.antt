-- ===== src/App/Gate.antt =====
-- crates/rescue-tui/src/state.rs: the gates in front of a kexec: consent, the hard blocks, the
-- typed challenge, and verify-now, which renews an ISO's hash verdict.
pub mod Verified
use aegis_boot.Prelude.{
  ℕ, Bool, true, false, ◌||◌, Option, none, some, [], ◌∷◌, ◌++◌, Text, codes, pop, text_eq,
  get_elem?, modify, is_some, not, if◌then◌else◌,
}
use aegis_boot.Iso.{
  DiscoveredIso, HashVerification, Quirk, has_quirk, is_hash_mismatch, is_hash_verified, is_forged,
  is_sig_verified,
}
use aegis_boot.Screen.{Screen, ConsentKind}
use aegis_boot.App.{AppState}

unfoldable pub enter_consent : ConsentKind → ℕ → AppState → AppState
enter_consent kind selected s = record s { screen = Screen.consent kind selected }

unfoldable pub grant_consent : AppState → AppState × Option ℕ
grant_consent s = elim s.screen [
  | Screen.consent kind selected ↦
      (record s { session_consent = true; screen = Screen.confirm selected }, some selected)
  | _ ↦ (s, none)
]

unfoldable pub cancel_consent : AppState → AppState
cancel_consent s = elim s.screen [
  | Screen.consent kind selected ↦ record s { screen = Screen.confirm selected }
  | _ ↦ s
]

unfoldable pub consent_required_for : AppState → ℕ → Option ConsentKind
consent_required_for s iso_idx =
    if s.session_consent then none else elim (get_elem? s.isos iso_idx) [
      | none ↦ none
      | some iso ↦
          if iso.contains_installer then some ConsentKind.installer_can_erase_disks else none
    ]

-- What blocks a kexec of an ISO, whatever the operator does.
unfoldable pub is_blocked : DiscoveredIso → Bool
is_blocked iso =
    has_quirk Quirk.not_kexec_bootable iso.quirks
    || (is_hash_mismatch iso.hash_verification || is_forged iso.signature_verification)

unfoldable pub is_kexec_blocked : AppState → ℕ → Bool
is_kexec_blocked s idx = elim (get_elem? s.isos idx) [ none ↦ false | some iso ↦ is_blocked iso ]

-- Neither the signature nor the hash was verified.
unfoldable pub is_unattested : DiscoveredIso → Bool
is_unattested iso =
    not (is_sig_verified iso.signature_verification || is_hash_verified iso.hash_verification)

unfoldable pub is_degraded_trust : AppState → ℕ → Bool
is_degraded_trust s idx = elim (get_elem? s.isos idx) [
  | none ↦ false
  | some iso ↦ is_unattested iso
]

unfoldable pub enter_trust_challenge : ℕ → AppState → AppState
enter_trust_challenge idx s = record s { screen = Screen.trust_challenge idx [] }

abbrev pub boot_token : Text
boot_token = codes "boot"

unfoldable pub trust_challenge_push : ℕ → AppState → AppState × Bool
trust_challenge_push c s = elim s.screen [
  | Screen.trust_challenge selected buffer ↦
      let typed = buffer ++ c ∷ [] in
      (record s { screen = Screen.trust_challenge selected typed }, text_eq typed boot_token)
  | _ ↦ (s, false)
]

unfoldable pub trust_challenge_backspace : AppState → AppState
trust_challenge_backspace s = elim s.screen [
  | Screen.trust_challenge selected buffer ↦ record s {
    screen = Screen.trust_challenge selected (pop buffer);
  }
  | _ ↦ s
]

unfoldable pub trust_challenge_cancel : AppState → AppState
trust_challenge_cancel s = elim s.screen [
  | Screen.trust_challenge selected buffer ↦ record s { screen = Screen.confirm selected }
  | _ ↦ s
]

unfoldable pub begin_verify : ℕ → AppState → AppState
begin_verify idx s =
    if is_some (get_elem? s.isos idx)
    then record s { screen = Screen.verifying idx 0 0 none }
    else s

unfoldable pub verify_tick : ℕ → ℕ → AppState → AppState
verify_tick new_bytes new_total s = elim s.screen [
  | Screen.verifying selected bytes total result ↦ record s {
    screen = Screen.verifying selected new_bytes new_total result;
  }
  | _ ↦ s
]

unfoldable pub iso_being_verified : AppState → Option DiscoveredIso
iso_being_verified s = elim s.screen [
  | Screen.verifying selected bytes total result ↦ get_elem? s.isos selected
  | _ ↦ none
]

-- `iso.hash_verification = outcome`
abbrev pub with_hash : HashVerification → DiscoveredIso → DiscoveredIso
with_hash outcome iso = record iso { hash_verification = outcome }

unfoldable pub verify_finish : HashVerification → AppState → AppState
verify_finish outcome s = elim s.screen [
  | Screen.verifying selected bytes total result ↦ record s {
    isos = modify s.isos selected (with_hash outcome);
    screen = Screen.confirm selected;
  }
  | _ ↦ s
]

unfoldable pub cancel_verify : AppState → AppState
cancel_verify s = elim s.screen [
  | Screen.verifying selected bytes total result ↦ record s { screen = Screen.confirm selected }
  | _ ↦ s
]
