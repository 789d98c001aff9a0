-- ===== src/App/Delete.antt =====
-- crates/rescue-tui/src/state.rs: deleting an ISO from the stick. `Vec::remove` panics out of
-- range, which is `none`.
pub mod Kept
use aegis_boot.Prelude.{
  ℕ, ◌-◌, min, Option, none, some, List, ◌++◌, Text, codes, length, get_elem?, remove?, ltb, ◌==◌,
  if◌then◌else◌,
}
use aegis_boot.Prelude.Table
use aegis_boot.Prelude.Table.{Table}
use aegis_boot.Iso.{DiscoveredIso}
use aegis_boot.Screen.{Screen}
use aegis_boot.App.{AppState}
use aegis_boot.App.View.{visible_entries, real_index}

abbrev prompt : AppState → ℕ → Option DiscoveredIso → AppState × Option Text
prompt s selected none = (s, none)
prompt s selected (some iso) =
    (record s { screen = Screen.confirm_delete selected }, some iso.iso_path)

unfoldable pub enter_delete : ℕ → AppState → AppState × Option Text
enter_delete selected s = elim s.screen [
  | Screen.list _ ↦ elim (real_index s selected) [
    | none ↦ (s, none)
    | some real_idx ↦ prompt s selected (get_elem? s.isos real_idx)
  ]
  | _ ↦ (s, none)
]

unfoldable pub cancel_delete : AppState → AppState
cancel_delete s = elim s.screen [
  | Screen.confirm_delete selected ↦ record s { screen = Screen.list selected }
  | _ ↦ s
]

-- Where an index stands once the one at `real_idx` is gone.
abbrev pub shift : ℕ → ℕ → ℕ
shift real_idx idx = if ltb real_idx idx then idx - 1 else idx

unfoldable pub shifted_overrides : ℕ → Table Text → Table Text
shifted_overrides real_idx m = Table.rekey (shift real_idx) (Table.remove real_idx m)

-- The state without the ISO, and the cursor clamped to the rows that are left.
unfoldable pub without_iso : AppState → ℕ → ℕ → List DiscoveredIso → AppState
without_iso s selected real_idx rest =
    let t = record s {
      cmdline_overrides = shifted_overrides real_idx s.cmdline_overrides;
      isos = rest;
    } in
    let new_total = length (visible_entries t) in
    record t { screen = Screen.list (if new_total == 0 then 0 else min selected (new_total - 1)) }

unfoldable pub delete_completed : AppState → Option AppState
unfolding without_iso
delete_completed s = elim s.screen [
  | Screen.confirm_delete selected ↦ elim (real_index s selected) [
    | none ↦ some (record s { screen = Screen.list 0 })
    | some real_idx ↦ elim (remove? s.isos real_idx) [
      | none ↦ none
      | some rest ↦ some (without_iso s selected real_idx rest)
    ]
  ]
  | _ ↦ some s
]

abbrev delete_return : Screen → ℕ
delete_return (Screen.confirm_delete selected) = selected
delete_return _ = 0

unfoldable pub record_delete_error : Text → AppState → AppState
record_delete_error e s = record s {
  screen =
      Screen.error (codes "Delete failed: " ++ e)
        (some (
          codes
            "Check that the data partition is mounted read-write and that no other process holds the ISO open."))
        (delete_return s.screen);
}
