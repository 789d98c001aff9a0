-- ===== src/EventLoop/Keys.antt =====
-- crates/rescue-tui/src/main.rs: a key press of `event_loop`, in the order in which the source tries
-- its bindings: the modal screens, the filter editor, the global keys, the two chords, and the
-- `match` on the screen and the key.
use aegis_boot.Prelude.{
  Bool, ◌||◌, ◌&&◌, Option, none, some, [], ◌∷◌, pos, negsuc, ◌==◌, if◌then◌else◌,
}
use aegis_boot.Screen.{Screen}
use aegis_boot.App.{AppState}
use aegis_boot.App.Browse.{
  filter_push, filter_backspace, filter_commit, filter_cancel, move_info_scroll,
  dismiss_blocked_toast, cancel_confirmation,
}
use aegis_boot.App.Gate.{cancel_verify}
use aegis_boot.App.Cmdline.{cmdline_cursor_home, cmdline_cursor_end}
use aegis_boot.App.Overlay.{
  open_help, close_help, request_quit, cancel_quit, confirm_quit, cancel_network,
}
use aegis_boot.EventLoop.Kexec.{Env, Effect, Turn}
use aegis_boot.EventLoop.Bindings.{KeyCode, KeyEvent, char, enter, esc, backspace, up, down, turn}
use aegis_boot.EventLoop.Bindings.{list_key, confirm_key, consent_key, trust_key, delete_key}
use aegis_boot.EventLoop.Overlays.{
  network_consent_key, network_key, catalog_key, fetch_key, editor_key, error_key,
}

-- The `match (&state.screen, key.code)`, where `state.screen` is the first argument.
unfoldable pub match_key : Screen → Env → KeyCode → Bool → AppState → Option Turn
match_key (Screen.list selected) env k active s = some (list_key env selected k s)
match_key (Screen.confirm selected) env k active s = some (confirm_key env selected k s)
match_key (Screen.edit_cmdline selected buffer cursor) env k active s = editor_key k s
match_key (Screen.error message remedy return_to) env k active s = some (error_key return_to k s)
match_key (Screen.trust_challenge selected buffer) env k active s =
    some (trust_key env selected buffer k s)
match_key (Screen.consent kind selected) env k active s = some (consent_key env k s)
match_key (Screen.confirm_delete selected) env k active s = delete_key env selected k s
match_key (Screen.network interfaces selected op prior) env k active s = some (network_key env k s)
match_key (Screen.consent_network_use prior) env k active s = some (network_consent_key env k s)
match_key (Screen.catalog entries selected scroll prior) env k active s = some (catalog_key k s)
match_key (Screen.catalog_confirm entry free_bytes op prior) env k active s =
    some (fetch_key env active k s)
match_key _ env k active s = some (turn s)

-- Ctrl+A and Ctrl+E in the editor, Shift+↑ and Shift+↓ on the list.
unfoldable pub chord : KeyEvent → AppState → Option AppState
chord k s = elim s.screen [
  | Screen.edit_cmdline selected buffer cursor ↦ elim k.code [
    | char c ↦
        if k.control && c == b'a'
        then some (cmdline_cursor_home s)
        else if k.control && c == b'e'
        then some (cmdline_cursor_end s)
        else none
    | _ ↦ none
  ]
  | Screen.list selected ↦ elim k.code [
    | up ↦ if k.shift then some (move_info_scroll (negsuc 0) s) else none
    | down ↦ if k.shift then some (move_info_scroll (pos 1) s) else none
    | _ ↦ none
  ]
  | _ ↦ none
]

-- `q` and `?`, but in the editor.
unfoldable pub global_key : KeyCode → AppState → Option AppState
global_key (char c) s = elim s.screen [
  | Screen.edit_cmdline selected buffer cursor ↦ none
  | Screen.confirm selected ↦
      if c == b'q'
      then some (cancel_confirmation s)
      else if c == b'?'
      then some (open_help s)
      else none
  | Screen.network interfaces selected op prior ↦
      if c == b'q' then some (cancel_network s) else if c == b'?' then some (open_help s) else none
  | _ ↦ if c == b'q' then some (request_quit s) else if c == b'?' then some (open_help s) else none
]
global_key _ s = none

unfoldable pub filter_key : KeyCode → AppState → AppState
filter_key (char c) s = filter_push c s
filter_key enter s = filter_commit s
filter_key esc s = filter_cancel s
filter_key backspace s = filter_backspace s
filter_key _ s = s

unfoldable pub quit_key : KeyCode → AppState → AppState
quit_key (char c) s =
    if c == b'y' || c == b'Y'
    then confirm_quit s
    else if c == b'n' || (c == b'N' || c == b'q')
    then cancel_quit s
    else s
quit_key enter s = confirm_quit s
quit_key esc s = cancel_quit s
quit_key _ s = s

unfoldable pub help_key : KeyCode → AppState → AppState
help_key (char c) s = if c == b'?' || c == b'q' then close_help s else s
help_key esc s = close_help s
help_key _ s = s

unfoldable pub verifying_key : KeyCode → AppState → Turn
verifying_key esc s = (cancel_verify s, Effect.drop_verify ∷ [])
verifying_key _ s = (s, [])

-- A key past the modal screens and the filter editor.
unfoldable pub plain_key : Env → KeyEvent → Bool → AppState → Option Turn
plain_key env k fetch_active s = elim (global_key k.code s) [
  | some t ↦ some (turn t)
  | none ↦ elim (chord k s) [
    | some t ↦ some (turn t)
    | none ↦ match_key s.screen env k.code fetch_active s
  ]
]

-- Past the modal screens.
unfoldable pub typed_key : Env → KeyEvent → Bool → AppState → Option Turn
typed_key env k fetch_active s =
    if s.filter_editing then some (turn (filter_key k.code s)) else plain_key env k fetch_active s

-- The whole key press, where `state.screen` is the first argument.
unfoldable pub key_on : Screen → Env → KeyEvent → Bool → AppState → Option Turn
key_on (Screen.verifying selected bytes total result) env k active s = some (verifying_key k.code s)
key_on (Screen.confirm_quit prior) env k active s = some (turn (quit_key k.code s))
key_on (Screen.help prior) env k active s = some (turn (help_key k.code s))
key_on (Screen.blocked_toast message return_to) env k active s =
    some (turn (dismiss_blocked_toast s))
key_on _ env k active s = typed_key env k active s

unfoldable pub on_key : Env → KeyEvent → Bool → AppState → Option Turn
on_key env k fetch_active s = key_on s.screen env k fetch_active s
