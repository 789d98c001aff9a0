-- ===== src/App/Browse.antt =====
-- crates/rescue-tui/src/state.rs: moving on the List screen, its filter and sort order, the info
-- pane, and Enter on a row.
pub mod Return
use aegis_boot.Prelude.{
  ℕ, suc, ◌+◌, ◌-◌, ◌^◌, min, Bool, true, false, Option, none, some, [], ◌∷◌, ◌++◌, Text, codes,
  pop, ℤ, pos, negsuc, length, get_elem?, position_from, unwrap_or, ltb, ◌==◌, if◌then◌else◌,
}
use aegis_boot.Screen.{Screen, ViewEntry, next, toggle}
use aegis_boot.App.{AppState}
use aegis_boot.App.View.{visible_entries, view_entry}

-- `usize::MAX`, `u16::MAX`
abbrev pub usize_max : ℕ
usize_max = 2 ^ 64 - 1

abbrev pub u16_max : ℕ
u16_max = 65535

-- `if let Screen::List { selected } = &mut self.screen { *selected = n; }`
abbrev pub set_cursor : ℕ → Screen → Screen
set_cursor n (Screen.list _) = Screen.list n
set_cursor n s = s

unfoldable pub cycle_sort : AppState → AppState
cycle_sort s = record s { sort_order = next s.sort_order; screen = set_cursor 0 s.screen }

abbrev pub is_list : Screen → Bool
is_list (Screen.list _) = true
is_list _ = false

unfoldable pub open_filter : AppState → AppState
open_filter s = if is_list s.screen then record s { filter_editing = true } else s

unfoldable pub filter_push : ℕ → AppState → AppState
filter_push c s =
    if s.filter_editing
    then record s { filter = s.filter ++ c ∷ []; screen = set_cursor 0 s.screen }
    else s

unfoldable pub filter_backspace : AppState → AppState
filter_backspace s =
    if s.filter_editing
    then record s { filter = pop s.filter; screen = set_cursor 0 s.screen }
    else s

unfoldable pub filter_commit : AppState → AppState
filter_commit s = record s { filter_editing = false }

unfoldable pub filter_cancel : AppState → AppState
filter_cancel s = record s { filter_editing = false; filter = []; screen = set_cursor 0 s.screen }

unfoldable pub move_to_first : AppState → AppState
move_to_first s =
    if 0 == length (visible_entries s) then s else record s { screen = set_cursor 0 s.screen }

unfoldable pub move_to_last : AppState → AppState
move_to_last s =
    let view_len = length (visible_entries s) in
    if ltb 0 view_len then record s { screen = set_cursor (view_len - 1) s.screen } else s

-- The new cursor of `move_selection` for an `i32` delta in a view of `max + 1` rows.
unfoldable pub moved : ℤ → ℕ → ℕ → ℕ
moved (negsuc n) max selected = selected - suc n
moved (pos n) max selected = min (min (selected + n) usize_max) max

unfoldable pub move_selection : ℤ → AppState → AppState
unfolding moved
move_selection delta s = elim s.screen [
  | Screen.list selected ↦
      let view_len = length (visible_entries s) in
      let after = moved delta (view_len - 1) selected in
      if view_len == 0 then s else record s {
        screen = Screen.list after;
        info_scroll = if after == selected then s.info_scroll else 0;
      }
  | _ ↦ s
]

unfoldable pub toggle_pane : AppState → AppState
toggle_pane s = if is_list s.screen then record s { pane = toggle s.pane } else s

-- `u16::try_from(n).unwrap_or(u16::MAX)`, then a saturating step
unfoldable pub scrolled : ℤ → ℕ → ℕ
scrolled (negsuc n) scroll = scroll - min (suc n) u16_max
scrolled (pos n) scroll = min (scroll + min n u16_max) u16_max

unfoldable pub move_info_scroll : ℤ → AppState → AppState
unfolding scrolled
move_info_scroll delta s = record s { info_scroll = scrolled delta s.info_scroll }

unfoldable pub failed_iso_toast_message : AppState → ℕ → Text
failed_iso_toast_message s idx = elim (get_elem? s.failed_isos idx) [
  | some failed ↦ codes "Cannot boot: parse failed — " ++ failed.reason
  | none ↦ codes "Cannot boot: parse failed (no reason available)"
]

unfoldable pub confirm_selection : AppState → AppState
confirm_selection s = elim s.screen [
  | Screen.list selected ↦ elim (view_entry s selected) [
    | some (ViewEntry.iso real) ↦ record s { screen = Screen.confirm real }
    | some (ViewEntry.failed_iso idx) ↦ record s {
      screen = Screen.blocked_toast (failed_iso_toast_message s idx) selected;
    }
    | _ ↦ s
  ]
  | _ ↦ s
]

unfoldable pub dismiss_blocked_toast : AppState → AppState
dismiss_blocked_toast s = elim s.screen [
  | Screen.blocked_toast _ return_to ↦ record s { screen = Screen.list return_to }
  | _ ↦ s
]

abbrev is_shell : Option ViewEntry → Bool
is_shell (some ViewEntry.rescue_shell) = true
is_shell _ = false

unfoldable pub is_shell_selected : AppState → Bool
is_shell_selected s = elim s.screen [
  | Screen.list selected ↦ is_shell (view_entry s selected)
  | _ ↦ false
]

abbrev pub is_iso_row : ℕ → ViewEntry → Bool
is_iso_row real (ViewEntry.iso i) = i == real
is_iso_row real _ = false

unfoldable pub cancel_confirmation : AppState → AppState
cancel_confirmation s = elim s.screen [
  | Screen.confirm selected ↦ record s {
    screen = Screen.list (unwrap_or 0 (position_from 0 (is_iso_row selected) (visible_entries s)));
  }
  | _ ↦ s
]
