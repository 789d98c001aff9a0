-- ===== src/App/View.antt =====
-- crates/rescue-tui/src/state.rs: the rows of the List screen, filtered and sorted. `sort_by` is
-- the library's stable sort, here a stable insertion sort over the same comparison.
pub mod Count
pub mod Order
use aegis_boot.Prelude.{
  ℕ, zero, suc, ◌+◌, Bool, true, false, ◌&&◌, ◌||◌, Option, none, some, List, [], ◌∷◌, ◌++◌, map,
  Text, codes, is_empty, to_ascii_lowercase, contains, text_le, text_eq, file_name, get_elem?, leb,
  unwrap_or, if◌then◌else◌,
}
use aegis_boot.Iso.{DiscoveredIso, FailedIso, debug_name}
use aegis_boot.Screen.{SortOrder, ViewEntry}
use aegis_boot.App.{AppState}

module _ {ℓ} {A : Type ℓ} (le : A → A → Bool) where
  -- Before the first item that it is at most: equal items keep their order.
  unfoldable pub sort_insert : A → List A → List A
  sort_insert x [] = x ∷ []
  sort_insert x (y ∷ ys) = let rest = sort_insert x ys in if le x y then x ∷ y ∷ ys else y ∷ rest

  unfoldable pub sort_by : List A → List A
  unfolding sort_insert
  sort_by [] = []
  sort_by (x ∷ xs) = sort_insert x (sort_by xs)

-- The filter's test on an ISO: the needle is in its label or path, in lower case.
unfoldable pub matches_filter : Text → DiscoveredIso → Bool
matches_filter filter i =
    let needle = to_ascii_lowercase filter in
    is_empty needle
    || (contains (to_ascii_lowercase i.label) needle
        || contains (to_ascii_lowercase i.iso_path) needle)

-- `enumerate().filter(…).map(|(i, _)| i)`, from index `k` on
unfoldable pub indices_from {ℓ} : {A : Type ℓ} → (A → Bool) → ℕ → List A → List ℕ
indices_from p k [] = []
indices_from p k (i ∷ is) = let rest = indices_from p (suc k) is in if p i then k ∷ rest else rest

-- `a.cmp(&b) != Greater` of the label or of the distribution's name, and the larger size first
abbrev pub label_at : List DiscoveredIso → ℕ → Text
label_at isos i = elim (get_elem? isos i) [ none ↦ [] | some d ↦ d.label ]

abbrev pub size_at : List DiscoveredIso → ℕ → ℕ
size_at isos i = elim (get_elem? isos i) [ none ↦ 0 | some d ↦ unwrap_or 0 d.size_bytes ]

abbrev pub distro_at : List DiscoveredIso → ℕ → Text
distro_at isos i = elim (get_elem? isos i) [ none ↦ [] | some d ↦ debug_name d.distribution ]

-- The comparisons are of indices in range, so the indexing of the source does not panic.
unfoldable pub index_le : SortOrder → List DiscoveredIso → ℕ → ℕ → Bool
index_le SortOrder.name isos a b = text_le (label_at isos a) (label_at isos b)
index_le SortOrder.size_desc isos a b = leb (size_at isos b) (size_at isos a)
index_le SortOrder.distro isos a b =
    let da = distro_at isos a in
    let db = distro_at isos b in
    if text_eq da db then text_le (label_at isos a) (label_at isos b) else text_le da db

unfoldable pub visible_indices : AppState → List ℕ
visible_indices s =
    sort_by (index_le s.sort_order s.isos) (indices_from (matches_filter s.filter) 0 s.isos)

unfoldable pub real_index : AppState → ℕ → Option ℕ
real_index s cursor = get_elem? (visible_indices s) cursor

unfoldable pub failed_matches : Text → FailedIso → Bool
failed_matches filter f =
    let needle = to_ascii_lowercase filter in
    is_empty needle || contains (to_ascii_lowercase f.iso_path) needle

failed_name : List FailedIso → ℕ → Text
failed_name fs i = elim (get_elem? fs i) [
  | none ↦ []
  | some f ↦ unwrap_or [] (file_name f.iso_path)
]

unfoldable pub failed_indices : AppState → List ℕ
unfolding failed_name
failed_indices s =
    sort_by (λ a b. text_le (failed_name s.failed_isos a) (failed_name s.failed_isos b))
      (indices_from (failed_matches s.filter) 0 s.failed_isos)

unfoldable pub visible_entries : AppState → List ViewEntry
visible_entries s =
    map ViewEntry.iso (visible_indices s)
    ++ (map ViewEntry.failed_iso (failed_indices s) ++ ViewEntry.rescue_shell ∷ [])

unfoldable pub view_entry : AppState → ℕ → Option ViewEntry
view_entry s cursor = get_elem? (visible_entries s) cursor
