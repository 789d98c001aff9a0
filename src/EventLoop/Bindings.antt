-- ===== src/EventLoop/Bindings.antt =====
-- crates/rescue-tui/src/main.rs: the key bindings of `event_loop` on the List, Confirm, Consent,
-- TrustChallenge and ConfirmDelete screens. The arms of the source's `match` on the screen and the
-- key are grouped by screen.
use aegis_boot.Prelude.{
  ℕ, Bool, true, false, ◌||◌, Option, none, some, [], ◌∷◌, Text, text_eq, pos, negsuc, get_elem?,
  ◌==◌, if◌then◌else◌,
}
use aegis_boot.Screen.{Pane}
use aegis_boot.App.{AppState}
use aegis_boot.App.View.{real_index}
use aegis_boot.App.Browse.{
  cycle_sort, open_filter, move_to_first, move_to_last, move_selection, toggle_pane,
  move_info_scroll, confirm_selection, is_shell_selected, cancel_confirmation,
}
use aegis_boot.App.Gate.{
  cancel_consent, trust_challenge_push, trust_challenge_backspace, trust_challenge_cancel,
  boot_token, begin_verify,
}
use aegis_boot.App.Cmdline.{enter_cmdline_editor}
use aegis_boot.App.Overlay.{ok, err, confirm_quit, enter_consent_network_use, enter_network}
use aegis_boot.App.Fetch.{enter_catalog}
use aegis_boot.App.Delete.{enter_delete, cancel_delete, delete_completed, record_delete_error}
use aegis_boot.EventLoop.Kexec.{Env, Effect, Turn, attempt_kexec, confirm_enter, consent_yes}

pub data KeyCode : Type 0 where
  char : ℕ → KeyCode
  f : ℕ → KeyCode
  enter esc backspace left right up down home end_key tab back_tab page_up page_down : KeyCode
  other : KeyCode

pub record KeyEvent : Type 0 where
  pub code : KeyCode
  pub control : Bool
  pub shift : Bool

abbrev pub turn : AppState → Turn
turn s = (s, [])

-- `v`: a worker and the Verifying screen for the ISO at `idx`.
verify_at : ℕ → AppState → Turn
verify_at idx s = elim (get_elem? s.isos idx) [
  | none ↦ (s, [])
  | some iso ↦ (begin_verify idx s, Effect.spawn_verify iso.iso_path ∷ [])
]

verify_row : Option ℕ → AppState → Turn
unfolding verify_at
verify_row none s = (s, [])
verify_row (some real_idx) s = verify_at real_idx s

-- `n`: the network consent once, then the overlay.
open_network : Env → AppState → AppState
open_network env s =
    if s.session_network_consent
    then enter_network env.interfaces s
    else enter_consent_network_use s

list_enter : AppState → AppState
list_enter s =
    if is_shell_selected s
    then confirm_quit (record s { shell_requested = true })
    else confirm_selection s

abbrev is_info : Pane → Bool
is_info Pane.info = true
is_info Pane.list = false

list_down : AppState → AppState
list_down s = if is_info s.pane then move_info_scroll (pos 1) s else move_selection (pos 1) s

list_up : AppState → AppState
list_up s = if is_info s.pane then move_info_scroll (negsuc 0) s else move_selection (negsuc 0) s

list_char : Env → ℕ → ℕ → AppState → Turn
unfolding verify_row open_network list_enter list_down list_up
list_char env selected c s =
    if c == b'k'
    then turn (list_up s)
    else if c == b'j'
    then turn (list_down s)
    else if c == b'g'
    then turn (move_to_first s)
    else if c == b'G'
    then turn (move_to_last s)
    else if c == b'l'
    then turn (list_enter s)
    else if c == b'/'
    then turn (open_filter s)
    else if c == b's'
    then turn (cycle_sort s)
    else if c == b'v'
    then verify_row (real_index s selected) s
    else if c == b'D'
    then turn (if is_info s.pane then s else (enter_delete selected s).0)
    else if c == b'n'
    then turn (open_network env s)
    else if c == b'f'
    then turn (enter_catalog env.catalog s)
    else turn s

unfoldable pub list_key : Env → ℕ → KeyCode → AppState → Turn
unfolding list_char
list_key env selected (char c) s = list_char env selected c s
list_key env selected tab s = turn (toggle_pane s)
list_key env selected back_tab s = turn (toggle_pane s)
list_key env selected up s = turn (list_up s)
list_key env selected down s = turn (list_down s)
list_key env selected home s = turn (move_to_first s)
list_key env selected end_key s = turn (move_to_last s)
list_key env selected enter s = turn (list_enter s)
list_key env selected _ s = turn s

confirm_char : Env → ℕ → ℕ → AppState → Turn
unfolding verify_at open_network
confirm_char env selected c s =
    if c == b'n'
    then turn (open_network env s)
    else if c == b'f'
    then turn (enter_catalog env.catalog s)
    else if c == b'v'
    then verify_at selected s
    else if c == b'h'
    then turn (cancel_confirmation s)
    else if c == b'e'
    then turn (enter_cmdline_editor s)
    else turn s

unfoldable pub confirm_key : Env → ℕ → KeyCode → AppState → Turn
unfolding confirm_char
confirm_key env selected (char c) s = confirm_char env selected c s
confirm_key env selected esc s = turn (cancel_confirmation s)
confirm_key env selected enter s = confirm_enter env selected s
confirm_key env selected _ s = turn s

unfoldable pub consent_key : Env → KeyCode → AppState → Turn
consent_key env (char c) s = if c == b'y' || c == b'Y' then consent_yes env s else turn s
consent_key env esc s = turn (cancel_consent s)
consent_key env _ s = turn s

unfoldable pub trust_key : Env → ℕ → Text → KeyCode → AppState → Turn
trust_key env selected buffer (char c) s = turn (trust_challenge_push c s).0
trust_key env selected buffer enter s =
    if text_eq buffer boot_token then attempt_kexec env selected s else turn s
trust_key env selected buffer esc s = turn (trust_challenge_cancel s)
trust_key env selected buffer backspace s = turn (trust_challenge_backspace s)
trust_key env selected buffer _ s = turn s

-- The deletion of the file comes before the state forgets the ISO.
unfoldable pub delete_at : Env → AppState → Option Text → Option Turn
delete_at env s none = some (turn (cancel_delete s))
delete_at env s (some path) = elim (env.perform_iso_delete path) [
  | ok _ ↦ elim (delete_completed s) [
    | none ↦ none
    | some t ↦ some (t, Effect.delete_iso path ∷ [])
  ]
  | err e ↦ some (record_delete_error e s, Effect.delete_iso path ∷ [])
]

unfoldable pub delete_target : AppState → ℕ → Option Text
delete_target s cursor = elim (real_index s cursor) [
  | none ↦ none
  | some i ↦ elim (get_elem? s.isos i) [ none ↦ none | some iso ↦ some iso.iso_path ]
]

unfoldable pub delete_key : Env → ℕ → KeyCode → AppState → Option Turn
unfolding delete_at delete_target
delete_key env selected (char c) s =
    if c == b'y' || c == b'Y'
    then delete_at env s (delete_target s selected)
    else if c == b'n' || c == b'N'
    then some (turn (cancel_delete s))
    else some (turn s)
delete_key env selected esc s = some (turn (cancel_delete s))
delete_key env selected _ s = some (turn s)
