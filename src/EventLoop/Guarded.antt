-- ===== src/EventLoop/Guarded.antt =====
-- crates/rescue-tui/src/main.rs: an invariant of a session. It asks that where a Consent or
-- TrustChallenge screen stands, also under overlays, its ISO has passed the gates in front of that
-- screen, and that the editor's cursor is a boundary between characters.
pub mod Methods
pub mod Fetches
pub mod Bindings
pub mod Turns
use aegis_boot.Prelude.{
  is_char_boundary, ℕ, ◌≡◌, refl, ◌⊎◌, inl, inr, Bool, true, false, ◌&&◌, Option, none, some, List,
  [], ◌∷◌, arith, not, is_some, get_elem?, if◌then◌else◌, Text, Bool-cases, Option-cases,
}
use aegis_boot.Iso.{DiscoveredIso, HashVerification}
use aegis_boot.Screen.{Screen}
use aegis_boot.App.{AppState}
use aegis_boot.App.Gate.{
  is_blocked, is_kexec_blocked, consent_required_for, is_degraded_trust, enter_consent,
  enter_trust_challenge, grant_consent, cancel_consent, trust_challenge_push,
  trust_challenge_backspace, trust_challenge_cancel, begin_verify, verify_tick, verify_finish,
  cancel_verify,
}
use aegis_boot.App.Diagnose.{record_kexec_error}
use aegis_boot.App.Overlay.{
  Outcome, ok, err, open_help, close_help, request_quit, cancel_quit, confirm_quit,
}
use aegis_boot.Prelude.{is_char_boundary, ℤ}
use aegis_boot.Network.{NetworkIface, NetworkLease}
use aegis_boot.Catalog.{Entry, FetchEvent, FetchOutcome}
use aegis_boot.Kexec.{KexecError}
use aegis_boot.App.Browse.{
  cycle_sort, open_filter, filter_push, filter_backspace, filter_commit, filter_cancel,
  move_to_first, move_to_last, move_selection, toggle_pane, move_info_scroll, confirm_selection,
  dismiss_blocked_toast, cancel_confirmation,
}
use aegis_boot.App.Cmdline.{
  enter_cmdline_editor, commit_cmdline_edit, cancel_cmdline_edit, cmdline_cursor_left,
  cmdline_cursor_right, cmdline_cursor_home, cmdline_cursor_end,
}
use aegis_boot.App.Overlay.{
  enter_network, cancel_network, network_move_selection, network_refresh, network_progress,
  network_finish_dhcp, enter_consent_network_use, grant_consent_network_use,
  cancel_consent_network_use,
}
use aegis_boot.App.Fetch.{
  enter_catalog, cancel_catalog, catalog_move_selection, catalog_progress, catalog_finish_fetch,
}
use aegis_boot.App.Delete.{cancel_delete, record_delete_error}
use aegis_boot.App.Fetch.{catalog_open_confirm, catalog_cancel_confirm, catalog_begin_fetch}
use aegis_boot.App.Overlay.{network_begin_dhcp}
use aegis_boot.App.Cmdline.{cmdline_insert, cmdline_backspace}
use aegis_boot.App.Delete.{enter_delete, delete_completed}
use aegis_boot.EventLoop.Kexec.{Env, attempt_kexec, challenge_or_kexec, confirm_enter, consent_yes}

abbrev pub blocked_at : List DiscoveredIso → ℕ → Bool
blocked_at isos i = elim (get_elem? isos i) [ none ↦ false | some d ↦ is_blocked d ]

abbrev pub installer_at : List DiscoveredIso → ℕ → Bool
installer_at isos i = elim (get_elem? isos i) [ none ↦ false | some d ↦ d.contains_installer ]

unfoldable pub guarded : List DiscoveredIso → Bool → Screen → Bool
guarded isos consented (Screen.consent kind i) = not (blocked_at isos i)
guarded isos consented (Screen.trust_challenge i buffer) =
    not (blocked_at isos i) && (if consented then true else not (installer_at isos i))
guarded isos consented (Screen.edit_cmdline n buffer cursor) = is_char_boundary buffer cursor
guarded isos consented (Screen.help p) = guarded isos consented p
guarded isos consented (Screen.confirm_quit p) = guarded isos consented p
guarded isos consented (Screen.network _ _ _ p) = guarded isos consented p
guarded isos consented (Screen.consent_network_use p) = guarded isos consented p
guarded isos consented (Screen.catalog _ _ _ p) = guarded isos consented p
guarded isos consented (Screen.catalog_confirm _ _ _ p) = guarded isos consented p
guarded isos consented _ = true

abbrev pub IsGuarded : AppState → Type 0
IsGuarded s = guarded s.isos s.session_consent s.screen ≡ true
