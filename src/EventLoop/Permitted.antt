-- ===== src/EventLoop/Permitted.antt =====
-- crates/rescue-tui/src/main.rs: what the gates ask of a request to kexec, and the requests behind
-- Enter on Confirm, `y` on Consent and Enter on TrustChallenge.
pub mod Keys
pub mod Reach
use aegis_boot.Prelude.{
  ℕ, ◌≡◌, ◌⊎◌, inl, inr, refl, Bool, true, false, ◌||◌, Option, none, some, List, [], ◌∷◌, Text,
  arith, is_some, get_elem?, text_eq, ◌==◌, if◌then◌else◌,
}
use aegis_boot.Prelude.Words.{text_eq-eq}
use aegis_boot.Iso.{DiscoveredIso}
use aegis_boot.Screen.{Screen, ConsentKind}
use aegis_boot.App.{AppState}
use aegis_boot.App.Gate.{
  is_kexec_blocked, is_degraded_trust, consent_required_for, enter_consent, enter_trust_challenge,
  grant_consent, boot_token, begin_verify,
}
use aegis_boot.App.Diagnose.{record_kexec_error}
use aegis_boot.EventLoop.Kexec.{
  Env, Effect, Turn, attempt_kexec, challenge_or_kexec, confirm_enter, consent_yes,
}
use aegis_boot.EventLoop.Bindings.{
  KeyCode, KeyEvent, char, enter, list_key, confirm_key, consent_key, trust_key, delete_key,
}
use aegis_boot.EventLoop.Overlays.{
  network_consent_key, network_key, catalog_key, fetch_key, editor_key, error_key,
}
use aegis_boot.EventLoop.Keys.{match_key, plain_key, typed_key, key_on, on_key, verifying_key}
use aegis_boot.EventLoop.{Loop, Event, handle, step, open_channels, after_key, key}
use aegis_boot.EventLoop.Guarded.Turns.{open_channels-state}
use aegis_boot.EventLoop.Guarded.{guarded, IsGuarded, blocked_at, installer_at}

-- Whether the effects of a turn hold a request to kexec the ISO at `idx`.
abbrev pub requests : ℕ → List Effect → Bool
requests idx [] = false
requests idx (Effect.measure_and_kexec i req ∷ es) = i == idx || requests idx es
requests idx (_ ∷ es) = requests idx es

-- The gates, for a request made in the state `s` with the session consent `granted` at hand.
pub record IsPermitted (s : AppState) (granted : Bool) (idx : ℕ) : Type 0 where
  pub known : is_some (get_elem? s.isos idx) ≡ true
  pub unblocked : is_kexec_blocked s idx ≡ false
  pub consented : (installer_at s.isos idx ≡ false) ⊎ (granted ≡ true)
  pub attested :
      (is_degraded_trust s idx ≡ false) ⊎ (s.screen ≡ Screen.trust_challenge idx boot_token)

-- A kexec is requested of the ISO that was asked for, if there is one.
pub requests-attempt_kexec :
    (env : Env) (i idx : ℕ) (s : AppState)
    → requests idx (attempt_kexec env i s).1 ≡ true
    → (i ≡ idx) × (is_some (get_elem? s.isos i) ≡ true)
unfolding attempt_kexec
requests-attempt_kexec env i idx s h = ground arith

consent-attempt_kexec :
    (env : Env) (i : ℕ) (s : AppState)
    → (attempt_kexec env i s).0.session_consent ≡ s.session_consent
unfolding attempt_kexec record_kexec_error
consent-attempt_kexec env i s = ground arith

requests-challenge_or_kexec :
    (env : Env) (i idx : ℕ) (s : AppState)
    → requests idx (challenge_or_kexec env i s).1 ≡ true
    → (i ≡ idx)
      × (is_some (get_elem? s.isos i) ≡ true)
      × (is_degraded_trust s i ≡ false)
      × ((challenge_or_kexec env i s).0.session_consent ≡ s.session_consent)
unfolding challenge_or_kexec
requests-challenge_or_kexec env i idx s h =
    ground (arith, requests-attempt_kexec env i idx s, consent-attempt_kexec env i s)

pub confirm_enter-IsPermitted :
    (env : Env) (i idx : ℕ) (s : AppState)
    → requests idx (confirm_enter env i s).1 ≡ true
    → IsPermitted s (confirm_enter env i s).0.session_consent idx
unfolding confirm_enter consent_required_for is_kexec_blocked
confirm_enter-IsPermitted env i idx s h = ground (arith, requests-challenge_or_kexec env i idx s)

pub consent_yes-IsPermitted :
    (env : Env) (kind : ConsentKind) (i idx : ℕ) (s : AppState)
    → IsGuarded s
    → s.screen ≡ Screen.consent kind i
    → requests idx (consent_yes env s).1 ≡ true
    → IsPermitted s (consent_yes env s).0.session_consent idx
unfolding consent_yes grant_consent guarded is_kexec_blocked is_degraded_trust
consent_yes-IsPermitted env kind i idx s g p h = ground (
  arith,
  requests-challenge_or_kexec env i idx
      (record s { session_consent = true; screen = Screen.confirm i }),
)

pub trust_enter-IsPermitted :
    (env : Env) (b : Text) (i idx : ℕ) (s : AppState)
    → IsGuarded s
    → s.screen ≡ Screen.trust_challenge i b
    → requests idx (trust_key env i b enter s).1 ≡ true
    → IsPermitted s (trust_key env i b enter s).0.session_consent idx
unfolding trust_key guarded is_kexec_blocked
trust_enter-IsPermitted env b i idx s g p h = ground (
  arith,
  text_eq-eq b boot_token,
  requests-attempt_kexec env i idx s,
  consent-attempt_kexec env i s,
)
