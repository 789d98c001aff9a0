-- ===== src/EventLoop/Overlays.antt =====
-- crates/rescue-tui/src/main.rs: the key bindings of `event_loop` on the network and catalog
-- overlays, in the command-line editor and on the Error screen.
use aegis_boot.Prelude.{
  ℕ, Bool, Option, none, some, [], ◌∷◌, ◌++◌, Text, codes, pos, negsuc, ◌==◌, if◌then◌else◌,
}
use aegis_boot.Catalog.{Entry}
use aegis_boot.Screen.{Screen}
use aegis_boot.App.{AppState}
use aegis_boot.App.Cmdline.{
  commit_cmdline_edit, cancel_cmdline_edit, cmdline_insert, cmdline_backspace, cmdline_cursor_left,
  cmdline_cursor_right, cmdline_cursor_home, cmdline_cursor_end,
}
use aegis_boot.App.Overlay.{
  ok, err, grant_consent_network_use, cancel_consent_network_use, cancel_network,
  network_move_selection, network_refresh, network_begin_dhcp,
}
use aegis_boot.App.Fetch.{
  cancel_catalog, catalog_move_selection, catalog_open_confirm, catalog_cancel_confirm,
  catalog_begin_fetch, catalog_finish_fetch,
}
use aegis_boot.App.Diagnose.{error_evidence}
use aegis_boot.EventLoop.Kexec.{Env, Effect, Turn}
use aegis_boot.EventLoop.Bindings.{
  KeyCode, char, f, enter, esc, backspace, left, right, up, down, home, end_key, page_up, page_down,
  turn,
}

unfoldable pub network_consent_key : Env → KeyCode → AppState → Turn
network_consent_key env (char c) s =
    if c == b'y'
    then turn (grant_consent_network_use env.interfaces s)
    else if c == b'q'
    then turn (cancel_consent_network_use s)
    else turn s
network_consent_key env esc s = turn (cancel_consent_network_use s)
network_consent_key env _ s = turn s

began_dhcp : AppState × Option Text → Turn
began_dhcp (s, none) = (s, [])
began_dhcp (s, some iface) = (s, Effect.spawn_dhcp iface ∷ [])

unfoldable pub network_key : Env → KeyCode → AppState → Turn
unfolding began_dhcp
network_key env (char c) s =
    if c == b'k'
    then turn (network_move_selection (negsuc 0) s)
    else if c == b'j'
    then turn (network_move_selection (pos 1) s)
    else if c == b'r'
    then turn (network_refresh env.interfaces s)
    else if c == b'q'
    then turn (cancel_network s)
    else turn s
network_key env up s = turn (network_move_selection (negsuc 0) s)
network_key env down s = turn (network_move_selection (pos 1) s)
network_key env enter s = began_dhcp (network_begin_dhcp s)
network_key env esc s = turn (cancel_network s)
network_key env _ s = turn s

unfoldable pub catalog_key : KeyCode → AppState → Turn
catalog_key (char c) s =
    if c == b'k'
    then turn (catalog_move_selection (negsuc 0) s)
    else if c == b'j'
    then turn (catalog_move_selection (pos 1) s)
    else if c == b'q'
    then turn (cancel_catalog s)
    else turn s
catalog_key up s = turn (catalog_move_selection (negsuc 0) s)
catalog_key down s = turn (catalog_move_selection (pos 1) s)
catalog_key page_up s = turn (catalog_move_selection (negsuc 9) s)
catalog_key page_down s = turn (catalog_move_selection (pos 10) s)
catalog_key enter s = turn (catalog_open_confirm 0 s).0
catalog_key esc s = turn (cancel_catalog s)
catalog_key _ s = turn s

began_fetch : Env → AppState × Option Entry → Turn
began_fetch env (s, none) = (s, [])
began_fetch env (s, some entry) = elim env.keyring [
  | ok _ ↦ (s, Effect.spawn_fetch entry ∷ [])
  | err e ↦ (catalog_finish_fetch (err (codes "embedded keyring load failed: " ++ e)) s, [])
]

-- Esc during a fetch asks its worker to stop.
fetch_esc : Bool → AppState → Turn
fetch_esc fetch_active s =
    if fetch_active then (s, Effect.cancel_fetch ∷ []) else turn (catalog_cancel_confirm s).0

unfoldable pub fetch_key : Env → Bool → KeyCode → AppState → Turn
unfolding began_fetch fetch_esc
fetch_key env fetch_active (char c) s = if c == b'q' then fetch_esc fetch_active s else turn s
fetch_key env fetch_active enter s = began_fetch env (catalog_begin_fetch s)
fetch_key env fetch_active esc s = fetch_esc fetch_active s
fetch_key env fetch_active _ s = turn s

sure : AppState → Option Turn
sure s = some (turn s)

edit_panics : Option AppState → Option Turn
edit_panics none = none
edit_panics (some s) = some (turn s)

unfoldable pub editor_key : KeyCode → AppState → Option Turn
unfolding sure edit_panics
editor_key (char c) s = edit_panics (cmdline_insert c s)
editor_key backspace s = edit_panics (cmdline_backspace s)
editor_key enter s = sure (commit_cmdline_edit s)
editor_key esc s = sure (cancel_cmdline_edit s)
editor_key left s = sure (cmdline_cursor_left s)
editor_key right s = sure (cmdline_cursor_right s)
editor_key home s = sure (cmdline_cursor_home s)
editor_key end_key s = sure (cmdline_cursor_end s)
editor_key _ s = sure s

evidence_saved : AppState → Turn
evidence_saved s = elim (error_evidence s) [
  | none ↦ (s, [])
  | some e ↦ (s, Effect.save_evidence e ∷ [])
]

-- F10 tees the evidence; any other key returns to the list.
unfoldable pub error_key : ℕ → KeyCode → AppState → Turn
unfolding evidence_saved
error_key return_to (f n) s =
    if n == 10 then evidence_saved s else turn (record s { screen = Screen.list return_to })
error_key return_to _ s = turn (record s { screen = Screen.list return_to })
