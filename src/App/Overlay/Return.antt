-- ===== src/App/Overlay/Return.antt =====
-- crates/rescue-tui/src/state.rs: an overlay that opens and closes; the cursor of a table.
use aegis_boot.Prelude.{ℕ, ◌^◌, ◌≤◌, ◌<◌, ◌≡◌, Bool, true, false, List, arith, ℤ, pos, negsuc}
use aegis_boot.Network.{NetworkIface}
use aegis_boot.Catalog.{Entry}
use aegis_boot.Screen.{Screen}
use aegis_boot.App.{AppState}
use aegis_boot.App.Overlay.{
  open_help, close_help, request_quit, cancel_quit, enter_consent_network_use,
  cancel_consent_network_use, enter_network, cancel_network, clamped,
}
use aegis_boot.App.Fetch.{enter_catalog, cancel_catalog}

-- The overlays that any screen may carry.
pub data Overlay : Type 0 where
  help quit_prompt consent_prompt : Overlay
  network_table : List NetworkIface → Overlay
  catalog_table : List Entry → Overlay

abbrev pub opened : Overlay → AppState → AppState
opened help = open_help
opened quit_prompt = request_quit
opened consent_prompt = enter_consent_network_use
opened (network_table interfaces) = enter_network interfaces
opened (catalog_table entries) = enter_catalog entries

abbrev pub closed : Overlay → AppState → AppState
closed help = close_help
closed quit_prompt = cancel_quit
closed consent_prompt = cancel_consent_network_use
closed (network_table interfaces) = cancel_network
closed (catalog_table entries) = cancel_catalog

-- The screens on which the overlay does not open a second time, and the end of the session.
abbrev pub is_open : Overlay → Screen → Bool
is_open help (Screen.help _) = true
is_open quit_prompt (Screen.confirm_quit _) = true
is_open quit_prompt Screen.quitting = true
is_open consent_prompt (Screen.consent_network_use _) = true
is_open (network_table _) (Screen.network _ _ _ _) = true
is_open (catalog_table _) (Screen.catalog _ _ _ _) = true
is_open _ _ = false

-- An overlay that does not stand open leaves the state as it was when it opens and closes.
pub closed-opened :
    (o : Overlay) (s : AppState) → is_open o s.screen ≡ false → closed o (opened o s) ≡ s
unfolding open_help close_help request_quit cancel_quit enter_consent_network_use
    cancel_consent_network_use enter_network cancel_network enter_catalog cancel_catalog
closed-opened help s h = ground arith
closed-opened quit_prompt s h = ground arith
closed-opened consent_prompt s h = ground arith
closed-opened (network_table interfaces) s h = ground arith
closed-opened (catalog_table entries) s h = ground arith

-- The cursor of the Network and Catalog tables stays on a row, whatever the step, in a table of fewer
-- than 2 ^ 63 rows.
pub clamped_bound : (d : ℤ) (n selected : ℕ) → 0 < n → n ≤ 2 ^ 63 → clamped d n selected < n
unfolding clamped
clamped_bound (pos k) n selected h b = ground arith
clamped_bound (negsuc k) n selected h b = ground arith
