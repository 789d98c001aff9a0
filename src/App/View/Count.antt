-- ===== src/App/View/Count.antt =====
-- crates/rescue-tui/src/state.rs: how often an index stands in a view of the List screen.
use aegis_boot.Prelude.{
  ℕ, zero, suc, ◌-◌, ◌≤◌, ◌≡◌, refl, ◌∙◌, Bool, true, Option, none, some, List, [], ◌∷◌, arith,
  get_elem?, count, ltb, ◌==◌, if◌then◌else◌,
}
use aegis_boot.Iso.{DiscoveredIso}
use aegis_boot.App.{AppState}
use aegis_boot.App.View.{
  sort_insert, sort_by, indices_from, matches_filter, visible_indices, index_le, real_index,
}

count-sort_insert :
    (le : ℕ → ℕ → Bool) (j x : ℕ) (xs : List ℕ)
    → count j (sort_insert le x xs) ≡ (if x == j then suc (count j xs) else count j xs)
unfolding sort_insert
count-sort_insert le j x [] = refl
count-sort_insert le j x (y ∷ ys) = ground (arith, count-sort_insert le j x ys)

count-sort_by : (le : ℕ → ℕ → Bool) (j : ℕ) (xs : List ℕ) → count j (sort_by le xs) ≡ count j xs
unfolding sort_by
count-sort_by le j [] = refl
count-sort_by le j (x ∷ xs) =
    ground (arith, count-sort_insert le j x (sort_by le xs), count-sort_by le j xs)

-- One for an item that passes the test.
abbrev pub hits {ℓ} : {A : Type ℓ} → (A → Bool) → Option A → ℕ
hits p none = 0
hits p (some a) = if p a then 1 else 0

count-indices_from {ℓ} :
    {A : Type ℓ} (p : A → Bool) (j k : ℕ) (xs : List A)
    → count j (indices_from p k xs) ≡ (if ltb j k then 0 else hits p (get_elem? xs (j - k)))
unfolding indices_from
count-indices_from p j k [] = ground arith
count-indices_from p j k (x ∷ xs) = ground (arith, count-indices_from p j (suc k) xs)

count-indices_from_zero {ℓ} :
    {A : Type ℓ} (p : A → Bool) (j : ℕ) (xs : List A)
    → count j (indices_from p 0 xs) ≡ hits p (get_elem? xs j)
count-indices_from_zero p j xs = ground (arith, count-indices_from p j 0 xs)

pub count-visible_indices :
    (s : AppState) (i : ℕ)
    → count i (visible_indices s) ≡ hits (matches_filter s.filter) (get_elem? s.isos i)
unfolding visible_indices
count-visible_indices s i =
    count-sort_by (index_le s.sort_order s.isos) i (indices_from (matches_filter s.filter) 0 s.isos)
    ∙ count-indices_from_zero (matches_filter s.filter) i s.isos

pub count-get_elem? : (xs : List ℕ) (c i : ℕ) → get_elem? xs c ≡ some i → 1 ≤ count i xs
count-get_elem? [] c i h = ground arith
count-get_elem? (x ∷ xs) zero i h = ground arith
count-get_elem? (x ∷ xs) (suc c) i h = ground (arith, count-get_elem? xs c i)

-- A row's index is an ISO's.
pub real_index-get_elem? :
    (s : AppState) (c i : ℕ)
    → real_index s c ≡ some i
    → (iso : DiscoveredIso) × (get_elem? s.isos i ≡ some iso) × (matches_filter s.filter iso ≡ true)
unfolding real_index
real_index-get_elem? s c i h =
    ground (arith, count-get_elem? (visible_indices s) c i h, count-visible_indices s i)
