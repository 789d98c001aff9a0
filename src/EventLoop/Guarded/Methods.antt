-- ===== src/EventLoop/Guarded/Methods.antt =====
-- crates/rescue-tui/src/state.rs: the invariant over the methods on the List, Confirm, Consent,
-- TrustChallenge, Verifying, editor and overlay screens.
use aegis_boot.Prelude.{ℕ, List, arith, Text}
use aegis_boot.Iso.{HashVerification}
use aegis_boot.App.{AppState}
use aegis_boot.App.Gate.{
  cancel_consent, trust_challenge_backspace, trust_challenge_cancel, begin_verify, verify_tick,
  verify_finish, cancel_verify,
}
use aegis_boot.App.Overlay.{Outcome, open_help, close_help, request_quit, cancel_quit, confirm_quit}
use aegis_boot.Prelude.{ℤ}
use aegis_boot.Network.{NetworkIface, NetworkLease}
use aegis_boot.App.Browse.{
  cycle_sort, open_filter, filter_push, filter_backspace, filter_commit, filter_cancel,
  move_to_first, move_to_last, move_selection, toggle_pane, move_info_scroll, confirm_selection,
  dismiss_blocked_toast, cancel_confirmation,
}
use aegis_boot.App.Cmdline.{
  enter_cmdline_editor, commit_cmdline_edit, cancel_cmdline_edit, cmdline_cursor_left,
  cmdline_cursor_right, cmdline_cursor_home, cmdline_cursor_end,
}
use aegis_boot.App.Overlay.{
  enter_network, cancel_network, network_move_selection, network_refresh, network_progress,
  network_finish_dhcp, enter_consent_network_use, grant_consent_network_use,
  cancel_consent_network_use,
}
use aegis_boot.Prelude.Utf8.{is_char_boundary_zero}
use aegis_boot.App.Cmdline.Cursor
use aegis_boot.EventLoop.Guarded.{IsGuarded, guarded}

pub open_help-IsGuarded : (s : AppState) → IsGuarded s → IsGuarded (open_help s)
unfolding open_help guarded
open_help-IsGuarded s h = ground arith

pub close_help-IsGuarded : (s : AppState) → IsGuarded s → IsGuarded (close_help s)
unfolding close_help guarded
close_help-IsGuarded s h = ground arith

pub request_quit-IsGuarded : (s : AppState) → IsGuarded s → IsGuarded (request_quit s)
unfolding request_quit guarded
request_quit-IsGuarded s h = ground arith

pub cancel_quit-IsGuarded : (s : AppState) → IsGuarded s → IsGuarded (cancel_quit s)
unfolding cancel_quit guarded
cancel_quit-IsGuarded s h = ground arith

pub confirm_quit-IsGuarded : (s : AppState) → IsGuarded s → IsGuarded (confirm_quit s)
unfolding confirm_quit guarded
confirm_quit-IsGuarded s h = ground arith

pub enter_consent_network_use-IsGuarded :
    (s : AppState) → IsGuarded s → IsGuarded (enter_consent_network_use s)
unfolding enter_consent_network_use guarded
enter_consent_network_use-IsGuarded s h = ground arith

pub cancel_consent_network_use-IsGuarded :
    (s : AppState) → IsGuarded s → IsGuarded (cancel_consent_network_use s)
unfolding cancel_consent_network_use guarded
cancel_consent_network_use-IsGuarded s h = ground arith

pub cancel_network-IsGuarded : (s : AppState) → IsGuarded s → IsGuarded (cancel_network s)
unfolding cancel_network guarded
cancel_network-IsGuarded s h = ground arith

pub enter_network-IsGuarded :
    (is : List NetworkIface) (s : AppState) → IsGuarded s → IsGuarded (enter_network is s)
unfolding enter_network guarded
enter_network-IsGuarded is s h = ground arith

pub grant_consent_network_use-IsGuarded :
    (is : List NetworkIface) (s : AppState)
    → IsGuarded s
    → IsGuarded (grant_consent_network_use is s)
unfolding grant_consent_network_use guarded
grant_consent_network_use-IsGuarded is s h = ground arith

pub network_move_selection-IsGuarded :
    (d : ℤ) (s : AppState) → IsGuarded s → IsGuarded (network_move_selection d s)
unfolding network_move_selection guarded
network_move_selection-IsGuarded d s h = ground arith

pub network_refresh-IsGuarded :
    (is : List NetworkIface) (s : AppState) → IsGuarded s → IsGuarded (network_refresh is s)
unfolding network_refresh guarded
network_refresh-IsGuarded is s h = ground arith

pub network_progress-IsGuarded :
    (m : Text) (s : AppState) → IsGuarded s → IsGuarded (network_progress m s)
unfolding network_progress guarded
network_progress-IsGuarded m s h = ground arith

pub network_finish_dhcp-IsGuarded :
    (i : Text) (r : Outcome NetworkLease) (s : AppState)
    → IsGuarded s
    → IsGuarded (network_finish_dhcp i r s)
unfolding network_finish_dhcp guarded
network_finish_dhcp-IsGuarded i r s h = ground arith

pub cycle_sort-IsGuarded : (s : AppState) → IsGuarded s → IsGuarded (cycle_sort s)
unfolding cycle_sort guarded
cycle_sort-IsGuarded s h = ground arith

pub open_filter-IsGuarded : (s : AppState) → IsGuarded s → IsGuarded (open_filter s)
unfolding open_filter guarded
open_filter-IsGuarded s h = ground arith

pub filter_backspace-IsGuarded : (s : AppState) → IsGuarded s → IsGuarded (filter_backspace s)
unfolding filter_backspace guarded
filter_backspace-IsGuarded s h = ground arith

pub filter_commit-IsGuarded : (s : AppState) → IsGuarded s → IsGuarded (filter_commit s)
unfolding filter_commit guarded
filter_commit-IsGuarded s h = ground arith

pub filter_cancel-IsGuarded : (s : AppState) → IsGuarded s → IsGuarded (filter_cancel s)
unfolding filter_cancel guarded
filter_cancel-IsGuarded s h = ground arith

pub move_to_first-IsGuarded : (s : AppState) → IsGuarded s → IsGuarded (move_to_first s)
unfolding move_to_first guarded
move_to_first-IsGuarded s h = ground arith

pub move_to_last-IsGuarded : (s : AppState) → IsGuarded s → IsGuarded (move_to_last s)
unfolding move_to_last guarded
move_to_last-IsGuarded s h = ground arith

pub toggle_pane-IsGuarded : (s : AppState) → IsGuarded s → IsGuarded (toggle_pane s)
unfolding toggle_pane guarded
toggle_pane-IsGuarded s h = ground arith

pub confirm_selection-IsGuarded : (s : AppState) → IsGuarded s → IsGuarded (confirm_selection s)
unfolding confirm_selection guarded
confirm_selection-IsGuarded s h = ground arith

pub dismiss_blocked_toast-IsGuarded :
    (s : AppState) → IsGuarded s → IsGuarded (dismiss_blocked_toast s)
unfolding dismiss_blocked_toast guarded
dismiss_blocked_toast-IsGuarded s h = ground arith

pub cancel_confirmation-IsGuarded : (s : AppState) → IsGuarded s → IsGuarded (cancel_confirmation s)
unfolding cancel_confirmation guarded
cancel_confirmation-IsGuarded s h = ground arith

pub filter_push-IsGuarded : (c : ℕ) (s : AppState) → IsGuarded s → IsGuarded (filter_push c s)
unfolding filter_push guarded
filter_push-IsGuarded c s h = ground arith

pub move_selection-IsGuarded : (d : ℤ) (s : AppState) → IsGuarded s → IsGuarded (move_selection d s)
unfolding move_selection guarded
move_selection-IsGuarded d s h = ground arith

pub move_info_scroll-IsGuarded :
    (d : ℤ) (s : AppState) → IsGuarded s → IsGuarded (move_info_scroll d s)
unfolding move_info_scroll guarded
move_info_scroll-IsGuarded d s h = ground arith

pub cancel_consent-IsGuarded : (s : AppState) → IsGuarded s → IsGuarded (cancel_consent s)
unfolding cancel_consent guarded
cancel_consent-IsGuarded s h = ground arith

pub trust_challenge_backspace-IsGuarded :
    (s : AppState) → IsGuarded s → IsGuarded (trust_challenge_backspace s)
unfolding trust_challenge_backspace guarded
trust_challenge_backspace-IsGuarded s h = ground arith

pub trust_challenge_cancel-IsGuarded :
    (s : AppState) → IsGuarded s → IsGuarded (trust_challenge_cancel s)
unfolding trust_challenge_cancel guarded
trust_challenge_cancel-IsGuarded s h = ground arith

pub cancel_verify-IsGuarded : (s : AppState) → IsGuarded s → IsGuarded (cancel_verify s)
unfolding cancel_verify guarded
cancel_verify-IsGuarded s h = ground arith

pub begin_verify-IsGuarded : (i : ℕ) (s : AppState) → IsGuarded s → IsGuarded (begin_verify i s)
unfolding begin_verify guarded
begin_verify-IsGuarded i s h = ground arith

pub verify_tick-IsGuarded : (b t : ℕ) (s : AppState) → IsGuarded s → IsGuarded (verify_tick b t s)
unfolding verify_tick guarded
verify_tick-IsGuarded b t s h = ground arith

pub verify_finish-IsGuarded :
    (o : HashVerification) (s : AppState) → IsGuarded s → IsGuarded (verify_finish o s)
unfolding verify_finish guarded
verify_finish-IsGuarded o s h = ground arith

pub enter_cmdline_editor-IsGuarded :
    (s : AppState) → IsGuarded s → IsGuarded (enter_cmdline_editor s)
unfolding enter_cmdline_editor guarded
enter_cmdline_editor-IsGuarded s h = grind (arith, Cursor.end-boundary)

pub commit_cmdline_edit-IsGuarded : (s : AppState) → IsGuarded s → IsGuarded (commit_cmdline_edit s)
unfolding commit_cmdline_edit guarded
commit_cmdline_edit-IsGuarded s h = ground arith

pub cancel_cmdline_edit-IsGuarded : (s : AppState) → IsGuarded s → IsGuarded (cancel_cmdline_edit s)
unfolding cancel_cmdline_edit guarded
cancel_cmdline_edit-IsGuarded s h = ground arith

pub cmdline_cursor_left-IsGuarded : (s : AppState) → IsGuarded s → IsGuarded (cmdline_cursor_left s)
unfolding cmdline_cursor_left guarded
cmdline_cursor_left-IsGuarded s h = grind (arith, Cursor.step_left-boundary)

pub cmdline_cursor_right-IsGuarded :
    (s : AppState) → IsGuarded s → IsGuarded (cmdline_cursor_right s)
unfolding cmdline_cursor_right guarded
cmdline_cursor_right-IsGuarded s h = grind (arith, Cursor.step_right-boundary)

pub cmdline_cursor_home-IsGuarded : (s : AppState) → IsGuarded s → IsGuarded (cmdline_cursor_home s)
unfolding cmdline_cursor_home guarded
cmdline_cursor_home-IsGuarded s h = grind (arith, is_char_boundary_zero)

pub cmdline_cursor_end-IsGuarded : (s : AppState) → IsGuarded s → IsGuarded (cmdline_cursor_end s)
unfolding cmdline_cursor_end guarded
cmdline_cursor_end-IsGuarded s h = grind (arith, Cursor.end-boundary)
