-- ===== src/EventLoop/Guarded/Bindings.antt =====
-- crates/rescue-tui/src/main.rs: the invariant over the key bindings of each screen.
use aegis_boot.Prelude.{ℕ, ◌≡◌, Bool, true, some, List, Text, arith, pos, negsuc}
use aegis_boot.App.{AppState}
use aegis_boot.App.Gate.{begin_verify}
use aegis_boot.App.Fetch.{catalog_begin_fetch, catalog_finish_fetch}
use aegis_boot.App.Delete.{delete_completed, record_delete_error}
use aegis_boot.EventLoop.Kexec.{Env, Effect}
use aegis_boot.EventLoop.Bindings.{
  KeyCode, KeyEvent, char, backspace, list_key, confirm_key, consent_key, trust_key, delete_key,
}
use aegis_boot.EventLoop.Overlays.{
  network_consent_key, network_key, catalog_key, fetch_key, editor_key, error_key,
}
use aegis_boot.EventLoop.Keys.{chord, global_key, filter_key}
use aegis_boot.EventLoop.Guarded.{IsGuarded, guarded}
use aegis_boot.EventLoop.Guarded.Methods
use aegis_boot.EventLoop.Guarded.Fetches

pub list_key-IsGuarded :
    (env : Env) (n : ℕ) (k : KeyCode) (s : AppState)
    → IsGuarded s
    → IsGuarded (list_key env n k s).0
unfolding list_key begin_verify guarded
list_key-IsGuarded env n k s h = ground (
  arith,
  Methods.move_info_scroll-IsGuarded (negsuc 0) s h,
  Methods.move_info_scroll-IsGuarded (pos 1) s h,
  Methods.move_selection-IsGuarded (negsuc 0) s h,
  Methods.move_selection-IsGuarded (pos 1) s h,
  Methods.move_to_first-IsGuarded s h,
  Methods.move_to_last-IsGuarded s h,
  Methods.open_filter-IsGuarded s h,
  Methods.cycle_sort-IsGuarded s h,
  Methods.toggle_pane-IsGuarded s h,
  Methods.confirm_selection-IsGuarded s h,
  Methods.confirm_quit-IsGuarded (record s { shell_requested = true }) h,
  Fetches.enter_delete-IsGuarded n s h,
  Methods.enter_network-IsGuarded env.interfaces s h,
  Methods.enter_consent_network_use-IsGuarded s h,
  Fetches.enter_catalog-IsGuarded env.catalog s h,
)

pub confirm_key-IsGuarded :
    (env : Env) (n : ℕ) (k : KeyCode) (s : AppState)
    → IsGuarded s
    → IsGuarded (confirm_key env n k s).0
unfolding confirm_key begin_verify guarded
confirm_key-IsGuarded env n k s h = ground (
  arith,
  Methods.cancel_confirmation-IsGuarded s h,
  Methods.enter_cmdline_editor-IsGuarded s h,
  Methods.enter_network-IsGuarded env.interfaces s h,
  Methods.enter_consent_network_use-IsGuarded s h,
  Fetches.enter_catalog-IsGuarded env.catalog s h,
  Fetches.confirm_enter-IsGuarded env n s h,
)

pub consent_key-IsGuarded :
    (env : Env) (k : KeyCode) (s : AppState) → IsGuarded s → IsGuarded (consent_key env k s).0
unfolding consent_key
consent_key-IsGuarded env k s h =
    ground (arith, Fetches.consent_yes-IsGuarded env s h, Methods.cancel_consent-IsGuarded s h)

pub trust_key-IsGuarded :
    (env : Env) (n : ℕ) (b : Text) (k : KeyCode) (s : AppState)
    → IsGuarded s
    → IsGuarded (trust_key env n b k s).0
unfolding trust_key
trust_key-IsGuarded env n b (char c) s h = Fetches.trust_challenge_push-IsGuarded c s h
trust_key-IsGuarded env n b k s h = ground (
  arith,
  Fetches.attempt_kexec-IsGuarded env n s h,
  Methods.trust_challenge_cancel-IsGuarded s h,
  Methods.trust_challenge_backspace-IsGuarded s h,
)

pub delete_key-IsGuarded :
    (env : Env) (n : ℕ) (k : KeyCode) (s t : AppState) (es : List Effect)
    → IsGuarded s
    → delete_key env n k s ≡ some (t, es)
    → IsGuarded t
unfolding delete_key delete_completed record_delete_error guarded
delete_key-IsGuarded env n k s t es h e = ground (arith, Fetches.cancel_delete-IsGuarded s h)

pub network_consent_key-IsGuarded :
    (env : Env) (k : KeyCode) (s : AppState)
    → IsGuarded s
    → IsGuarded (network_consent_key env k s).0
unfolding network_consent_key
network_consent_key-IsGuarded env k s h = ground (
  arith,
  Methods.grant_consent_network_use-IsGuarded env.interfaces s h,
  Methods.cancel_consent_network_use-IsGuarded s h,
)

pub network_key-IsGuarded :
    (env : Env) (k : KeyCode) (s : AppState) → IsGuarded s → IsGuarded (network_key env k s).0
unfolding network_key
network_key-IsGuarded env k s h = ground (
  arith,
  Methods.network_move_selection-IsGuarded (negsuc 0) s h,
  Methods.network_move_selection-IsGuarded (pos 1) s h,
  Methods.network_refresh-IsGuarded env.interfaces s h,
  Methods.cancel_network-IsGuarded s h,
  Fetches.network_begin_dhcp-IsGuarded s h,
)

pub catalog_key-IsGuarded :
    (k : KeyCode) (s : AppState) → IsGuarded s → IsGuarded (catalog_key k s).0
unfolding catalog_key
catalog_key-IsGuarded k s h = ground (
  arith,
  Fetches.catalog_move_selection-IsGuarded (negsuc 0) s h,
  Fetches.catalog_move_selection-IsGuarded (pos 1) s h,
  Fetches.catalog_move_selection-IsGuarded (negsuc 9) s h,
  Fetches.catalog_move_selection-IsGuarded (pos 10) s h,
  Fetches.cancel_catalog-IsGuarded s h,
  Fetches.catalog_open_confirm-IsGuarded 0 s h,
)

pub fetch_key-IsGuarded :
    (env : Env) (a : Bool) (k : KeyCode) (s : AppState)
    → IsGuarded s
    → IsGuarded (fetch_key env a k s).0
unfolding fetch_key catalog_begin_fetch catalog_finish_fetch guarded
fetch_key-IsGuarded env a k s h = ground (arith, Fetches.catalog_cancel_confirm-IsGuarded s h)

pub editor_key-IsGuarded :
    (k : KeyCode) (s t : AppState) (es : List Effect)
    → IsGuarded s
    → editor_key k s ≡ some (t, es)
    → IsGuarded t
unfolding editor_key
editor_key-IsGuarded (char c) s t es h e = ground (arith, Fetches.cmdline_insert-IsGuarded c s t h)
editor_key-IsGuarded backspace s t es h e =
    ground (arith, Fetches.cmdline_backspace-IsGuarded s t h)
editor_key-IsGuarded k s t es h e = ground (
  arith,
  Methods.commit_cmdline_edit-IsGuarded s h,
  Methods.cancel_cmdline_edit-IsGuarded s h,
  Methods.cmdline_cursor_left-IsGuarded s h,
  Methods.cmdline_cursor_right-IsGuarded s h,
  Methods.cmdline_cursor_home-IsGuarded s h,
  Methods.cmdline_cursor_end-IsGuarded s h,
)

pub error_key-IsGuarded :
    (n : ℕ) (k : KeyCode) (s : AppState) → IsGuarded s → IsGuarded (error_key n k s).0
unfolding error_key guarded
error_key-IsGuarded n k s h = ground arith

pub global_key-IsGuarded :
    (k : KeyCode) (s t : AppState) → IsGuarded s → global_key k s ≡ some t → IsGuarded t
unfolding global_key
global_key-IsGuarded k s t h e = ground (
  arith,
  Methods.cancel_confirmation-IsGuarded s h,
  Methods.open_help-IsGuarded s h,
  Methods.cancel_network-IsGuarded s h,
  Methods.request_quit-IsGuarded s h,
)

pub chord-IsGuarded :
    (k : KeyEvent) (s t : AppState) → IsGuarded s → chord k s ≡ some t → IsGuarded t
unfolding chord
chord-IsGuarded k s t h e = ground (
  arith,
  Methods.cmdline_cursor_home-IsGuarded s h,
  Methods.cmdline_cursor_end-IsGuarded s h,
  Methods.move_info_scroll-IsGuarded (negsuc 0) s h,
  Methods.move_info_scroll-IsGuarded (pos 1) s h,
)

pub filter_key-IsGuarded : (k : KeyCode) (s : AppState) → IsGuarded s → IsGuarded (filter_key k s)
unfolding filter_key
filter_key-IsGuarded (char c) s h = Methods.filter_push-IsGuarded c s h
filter_key-IsGuarded k s h = ground (
  arith,
  Methods.filter_commit-IsGuarded s h,
  Methods.filter_cancel-IsGuarded s h,
  Methods.filter_backspace-IsGuarded s h,
)
