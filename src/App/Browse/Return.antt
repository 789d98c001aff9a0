-- ===== src/App/Browse/Return.antt =====
-- crates/rescue-tui/src/state.rs: Enter on a row and Esc from its Confirm screen; the cursor's range
-- after a move.
use native.Mathlib.Nat.{zero-add}
use aegis_boot.Prelude.{
  ap, ◌∙◌, ◌⊎◌, ℕ, zero, suc, ◌+◌, ◌-◌, ◌≤◌, ◌<◌, ◌≡◌, some, List, [], ◌∷◌, ◌++◌, map, arith, ℤ,
  pos, length, length-append, get_elem?, position_from, count,
}
use aegis_boot.Screen.{Screen, ViewEntry}
use aegis_boot.App.{AppState}
use aegis_boot.App.View.{visible_indices, failed_indices, visible_entries, view_entry}
use aegis_boot.App.View.Count.{count-visible_indices}
use aegis_boot.App.Browse.{
  is_iso_row, confirm_selection, cancel_confirmation, move_selection, moved,
}

-- The rows below the ISOs.
abbrev tail_rows : List ℕ → List ViewEntry
tail_rows zs = map ViewEntry.failed_iso zs ++ ViewEntry.rescue_shell ∷ []

no_iso_below : (zs : List ℕ) (n i : ℕ) → get_elem? (tail_rows zs) n ≡ some (ViewEntry.iso i) → ⊥
no_iso_below [] zero i h = ground arith
no_iso_below [] (suc n) i h = ground arith
no_iso_below (z ∷ zs) zero i h = ground arith
no_iso_below (z ∷ zs) (suc n) i h = no_iso_below zs n i h

iso_row-count :
    (xs zs : List ℕ) (n i : ℕ)
    → get_elem? (map ViewEntry.iso xs ++ tail_rows zs) n ≡ some (ViewEntry.iso i)
    → 1 ≤ count i xs
iso_row-count [] zs n i h = absurd (no_iso_below zs n i h)
iso_row-count (x ∷ xs) zs zero i h = ground arith
iso_row-count (x ∷ xs) zs (suc n) i h = ground (arith, iso_row-count xs zs n i h)

position_of_row :
    (xs zs : List ℕ) (k n i : ℕ)
    → count i xs ≤ 1
    → get_elem? (map ViewEntry.iso xs ++ tail_rows zs) n ≡ some (ViewEntry.iso i)
    → position_from k (is_iso_row i) (map ViewEntry.iso xs ++ tail_rows zs) ≡ some (k + n)
position_of_row [] zs k n i c h = absurd (no_iso_below zs n i h)
position_of_row (x ∷ xs) zs k zero i c h = ground arith
position_of_row (x ∷ xs) zs k (suc n) i c h =
    ground (arith, iso_row-count xs zs n i h, position_of_row xs zs (suc k) n i)

row_of_iso :
    (s : AppState) (n i : ℕ)
    → view_entry s n ≡ some (ViewEntry.iso i)
    → position_from 0 (is_iso_row i) (visible_entries s) ≡ some n
unfolding view_entry visible_entries
row_of_iso s n i h =
    position_of_row (visible_indices s) (failed_indices s) 0 n i
      (ground (arith, count-visible_indices s i)) h
    ∙ ap some (zero-add n)

-- From an ISO's row, Enter and then Esc come back to the state as it was, the cursor on the same row
-- whatever the filter and the sort order.
pub cancel_confirmation-confirm_selection :
    (s : AppState) (n i : ℕ)
    → s.screen ≡ Screen.list n
    → view_entry s n ≡ some (ViewEntry.iso i)
    → cancel_confirmation (confirm_selection s) ≡ s
unfolding confirm_selection cancel_confirmation view_entry visible_entries visible_indices
    failed_indices
cancel_confirmation-confirm_selection s n i p h = ground (arith, row_of_iso s n i h)

some_row : (s : AppState) → 0 < length (visible_entries s)
unfolding visible_entries
some_row s = omega (
  arith,
  length-append (map ViewEntry.iso (visible_indices s)) (tail_rows (failed_indices s)),
  length-append (map ViewEntry.failed_iso (failed_indices s)) (ViewEntry.rescue_shell ∷ []),
)

-- A move on the list from a row that is there, or down from any cursor, ends on a row that is there.
pub move_selection-InRange :
    (d : ℤ) (s : AppState) (n : ℕ)
    → s.screen ≡ Screen.list n
    → (n < length (visible_entries s)) ⊎ ((k : ℕ) × (d ≡ pos k))
    → (m : ℕ) × ((move_selection d s).screen ≡ Screen.list m) × (m < length (visible_entries s))
unfolding move_selection moved
move_selection-InRange d s n p h = (
  moved d (length (visible_entries s) - 1) n,
  ground (arith, some_row s),
  ground (arith, some_row s),
)
