-- ===== src/Tests/Rows.antt =====
-- The theorems on the rows of the list and on deletion, applied to a stick of three ISOs.
use aegis_boot.Prelude.{
  ◌≡◌, suc, refl, some, [], ◌∷◌, codes, arith, length, get_elem?, to_ascii_lowercase, contains,
}
use aegis_boot.Screen.{Screen, SortOrder}
use aegis_boot.App.{AppState, new}
use aegis_boot.App.View
use aegis_boot.App.View.{
  visible_indices, visible_entries, view_entry, real_index, matches_filter, index_le,
}
use aegis_boot.App.Browse.{confirm_selection, cancel_confirmation}
use aegis_boot.App.Browse.Return.{cancel_confirmation-confirm_selection}
use aegis_boot.App.Cmdline.{effective_cmdline}
use aegis_boot.App.Delete.{shift, delete_completed}
use aegis_boot.App.Delete.Kept.{delete_completed-effective_cmdline}
use aegis_boot.Tests.Fixtures.{three_isos, firmware}

-- The largest first, filtered by `i`: `mint`, `debian`, `alpine`.
abbrev sized : AppState
sized = record (new firmware three_isos) {
  sort_order = SortOrder.size_desc;
  filter = codes "I";
  screen = Screen.list 1;
  cmdline_overrides = (2, codes "nomodeset") ∷ [];
}

cancel_confirmation-confirm_selection_example :
    cancel_confirmation (confirm_selection sized) ≡ sized
unfolding new view_entry visible_entries visible_indices View.sort_by View.sort_insert
    View.indices_from matches_filter index_le View.failed_indices to_ascii_lowercase contains
cancel_confirmation-confirm_selection_example =
    cancel_confirmation-confirm_selection sized 1 0 refl refl

abbrev deleting : AppState
deleting = record sized { screen = Screen.confirm_delete 1 }

delete_completed-effective_cmdline_example :
    (t : AppState) × (delete_completed deleting ≡ some t)
    × (suc (length t.isos) ≡ length deleting.isos)
    × (get_elem? t.isos (shift 0 2) ≡ get_elem? deleting.isos 2)
    × (effective_cmdline t (shift 0 2) ≡ effective_cmdline deleting 2)
unfolding new real_index visible_indices View.sort_by View.sort_insert View.indices_from
    matches_filter index_le to_ascii_lowercase contains
delete_completed-effective_cmdline_example =
    delete_completed-effective_cmdline deleting 1 0 2 refl refl (omega arith)
