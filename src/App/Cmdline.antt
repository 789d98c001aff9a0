-- ===== src/App/Cmdline.antt =====
-- crates/rescue-tui/src/state.rs: the editor of the kernel command line. The cursor is a byte
-- offset into the buffer's UTF-8; a call that the source's string operations answer with a panic
-- (an offset off a character boundary) returns `none`.
pub mod Steps
pub mod Cursor
use aegis_boot.Prelude.{
  ℕ, zero, suc, ◌+◌, ◌-◌, min, Bool, true, false, Option, none, some, List, [], ◌∷◌, ◌++◌, Text,
  len, len_utf8, is_char_boundary, split_at, get_elem?, unwrap_or, leb, ◌==◌, if◌then◌else◌,
}
use aegis_boot.Prelude.Table
use aegis_boot.Screen.{Screen}
use aegis_boot.App.{AppState}

-- The ISO's own command line, or nothing.
unfoldable pub declared_cmdline : AppState → ℕ → Text
declared_cmdline s idx = elim (get_elem? s.isos idx) [
  | none ↦ []
  | some iso ↦ unwrap_or [] iso.cmdline
]

unfoldable pub effective_cmdline : AppState → ℕ → Text
unfolding declared_cmdline
effective_cmdline s idx = unwrap_or (declared_cmdline s idx) (Table.get idx s.cmdline_overrides)

unfoldable pub enter_cmdline_editor : AppState → AppState
enter_cmdline_editor s = elim s.screen [
  | Screen.confirm selected ↦
      let buffer = effective_cmdline s selected in
      record s { screen = Screen.edit_cmdline selected buffer (len buffer) }
  | _ ↦ s
]

-- On another screen the `mem::replace` has left `Quitting` behind.
unfoldable pub commit_cmdline_edit : AppState → AppState
commit_cmdline_edit s = elim s.screen [
  | Screen.edit_cmdline selected buffer cursor ↦ record s {
    cmdline_overrides = Table.insert selected buffer s.cmdline_overrides;
    screen = Screen.confirm selected;
  }
  | _ ↦ record s { screen = Screen.quitting }
]

unfoldable pub cancel_cmdline_edit : AppState → AppState
cancel_cmdline_edit s = elim s.screen [
  | Screen.edit_cmdline selected buffer cursor ↦ record s { screen = Screen.confirm selected }
  | _ ↦ s
]

-- `(step..=last).find(|step| buffer.is_char_boundary(cursor - step)).map_or(0, …)`, where `left`
-- counts the steps to try.
find_back : ℕ → ℕ → Text → ℕ → ℕ
find_back zero step buffer cursor = 0
find_back (suc left) step buffer cursor =
    let further = find_back left (suc step) buffer cursor in
    if is_char_boundary buffer (cursor - step) then cursor - step else further

unfoldable pub prev_char_boundary : Text → ℕ → ℕ
unfolding find_back
prev_char_boundary buffer cursor = find_back (min cursor 4) 1 buffer cursor

-- `(candidate..=buffer.len()).find(…).unwrap_or(buffer.len())`
find_forward : ℕ → ℕ → Text → ℕ
find_forward zero candidate buffer = len buffer
find_forward (suc left) candidate buffer =
    let further = find_forward left (suc candidate) buffer in
    if is_char_boundary buffer candidate then candidate else further

unfoldable pub next_char_boundary : Text → ℕ → ℕ
unfolding find_forward
next_char_boundary buffer cursor = find_forward (len buffer - cursor) (cursor + 1) buffer

-- The buffer and the cursor after a key, on their own.
unfoldable pub insert_char : ℕ → Text → ℕ → Option (Text × ℕ)
insert_char ch buffer cursor = elim (split_at buffer cursor) [
  | none ↦ none
  | some (l, r) ↦ some (l ++ ch ∷ r, cursor + len_utf8 ch)
]

-- `replace_range(new_cursor..cursor, "")`: both ends must be boundaries.
unfoldable pub delete_back : Text → ℕ → Option (Text × ℕ)
delete_back buffer cursor =
    let start = prev_char_boundary buffer cursor in
    if cursor == 0 then some (buffer, cursor) else elim (split_at buffer cursor) [
      | none ↦ none
      | some (l, r) ↦ elim (split_at l start) [
        | none ↦ none
        | some (k, gone) ↦ some (k ++ r, start)
      ]
    ]

unfoldable pub step_left : Text → ℕ → ℕ
step_left buffer cursor = if cursor == 0 then cursor else prev_char_boundary buffer cursor

unfoldable pub step_right : Text → ℕ → ℕ
step_right buffer cursor =
    if leb (len buffer) cursor then cursor else next_char_boundary buffer cursor

-- Puts an edited buffer and cursor back on the screen.
abbrev pub edited : AppState → ℕ → Option (Text × ℕ) → Option AppState
edited s selected none = none
edited s selected (some (buffer, cursor)) =
    some (record s { screen = Screen.edit_cmdline selected buffer cursor })

unfoldable pub cmdline_insert : ℕ → AppState → Option AppState
cmdline_insert ch s = elim s.screen [
  | Screen.edit_cmdline selected buffer cursor ↦ edited s selected (insert_char ch buffer cursor)
  | _ ↦ some s
]

unfoldable pub cmdline_backspace : AppState → Option AppState
cmdline_backspace s = elim s.screen [
  | Screen.edit_cmdline selected buffer cursor ↦ edited s selected (delete_back buffer cursor)
  | _ ↦ some s
]

-- The four moves keep the buffer.
abbrev pub move_cursor : (Text → ℕ → ℕ) → AppState → AppState
move_cursor f s = elim s.screen [
  | Screen.edit_cmdline selected buffer cursor ↦ record s {
    screen = Screen.edit_cmdline selected buffer (f buffer cursor);
  }
  | _ ↦ s
]

unfoldable pub cmdline_cursor_left : AppState → AppState
cmdline_cursor_left = move_cursor step_left

unfoldable pub cmdline_cursor_right : AppState → AppState
cmdline_cursor_right = move_cursor step_right

unfoldable pub cmdline_cursor_home : AppState → AppState
cmdline_cursor_home = move_cursor (λ buffer cursor. 0)

unfoldable pub cmdline_cursor_end : AppState → AppState
cmdline_cursor_end = move_cursor (λ buffer cursor. len buffer)
