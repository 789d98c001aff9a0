-- ===== src/EventLoop/Kexec.antt =====
-- crates/rescue-tui/src/main.rs: what a turn of the event loop asks of the outside world, and the
-- way to a kexec. `load_and_exec` returns only with an error, so the state after a request is the
-- one that the operator sees if it was refused; the request itself is an effect.
use aegis_boot.Prelude.{
  ℕ, Option, none, some, List, [], ◌∷◌, Text, get_elem?, unwrap_or, if◌then◌else◌,
}
use aegis_boot.Prelude.Table
use aegis_boot.Iso.{DiscoveredIso, HashVerification}
use aegis_boot.Kexec.{KexecError, KexecRequest, io, unsupported_image}
use aegis_boot.Network.{NetworkIface}
use aegis_boot.Catalog.{Entry}
use aegis_boot.App.{AppState}
use aegis_boot.App.Gate.{
  is_kexec_blocked, consent_required_for, is_degraded_trust, enter_consent, enter_trust_challenge,
  grant_consent,
}
use aegis_boot.App.Overlay.{Outcome, ok, err}
use aegis_boot.App.Diagnose.{Evidence, record_kexec_error}

-- `iso_probe::PreparedIso`, without its mount point.
pub record PreparedIso : Type 0 where
  pub kernel : Text
  pub initrd : Option Text
  pub cmdline : Option Text

-- What the world answers during one turn.
pub record Env : Type 0 where
  pub interfaces : List NetworkIface
  pub catalog : List Entry
  pub keyring : Outcome (Unit {0})
  pub perform_iso_delete : Text → Outcome (Unit {0})
  pub prepare : DiscoveredIso → Outcome PreparedIso
  pub load_and_exec : KexecRequest → KexecError
  pub mok_remedy : Option DiscoveredIso → Text
  pub save_verify_audit_log : Text → HashVerification → Outcome Text

-- What a turn starts outside, in order.
pub data Effect : Type 0 where
  save_choice : (idx : ℕ) → Effect
  measure_and_kexec : (idx : ℕ) → KexecRequest → Effect
  spawn_verify : Text → Effect
  drop_verify : Effect
  spawn_dhcp : Text → Effect
  spawn_fetch : Entry → Effect
  cancel_fetch : Effect
  delete_iso : Text → Effect
  save_evidence : Evidence → Effect

abbrev pub Turn : Type 0
Turn = AppState × List Effect

request_of : AppState → ℕ → PreparedIso → KexecRequest
request_of s idx p = record {
  kernel = p.kernel;
  initrd = p.initrd;
  cmdline = unwrap_or (unwrap_or [] p.cmdline) (Table.get idx s.cmdline_overrides);
}

kexec_prepared : Env → AppState → ℕ → Outcome PreparedIso → Turn
unfolding request_of
kexec_prepared env s idx (err e) = (
  record_kexec_error env.mok_remedy (io (record { text = e; raw_os_error = none })) s,
  Effect.save_choice idx ∷ [],
)
kexec_prepared env s idx (ok p) =
    let req = request_of s idx p in
    (
      record_kexec_error env.mok_remedy (env.load_and_exec req) s,
      Effect.save_choice idx ∷ Effect.measure_and_kexec idx req ∷ [],
    )

unfoldable pub attempt_kexec : Env → ℕ → AppState → Turn
unfolding kexec_prepared
attempt_kexec env idx s = elim (get_elem? s.isos idx) [
  | none ↦ (s, [])
  | some iso ↦ kexec_prepared env s idx (env.prepare iso)
]

-- Past the consent: the typed challenge, or the kexec.
unfoldable pub challenge_or_kexec : Env → ℕ → AppState → Turn
challenge_or_kexec env idx s =
    if is_degraded_trust s idx then (enter_trust_challenge idx s, []) else attempt_kexec env idx s

-- Enter on the Confirm screen.
unfoldable pub confirm_enter : Env → ℕ → AppState → Turn
confirm_enter env idx s =
    if is_kexec_blocked s idx
    then (record_kexec_error env.mok_remedy unsupported_image s, [])
    else elim (consent_required_for s idx) [
      | some kind ↦ (enter_consent kind idx s, [])
      | none ↦ challenge_or_kexec env idx s
    ]

after_grant : Env → AppState × Option ℕ → Turn
after_grant env (s, none) = (s, [])
after_grant env (s, some idx) = challenge_or_kexec env idx s

-- `y` on the Consent screen.
unfoldable pub consent_yes : Env → AppState → Turn
unfolding after_grant
consent_yes env s = after_grant env (grant_consent s)
