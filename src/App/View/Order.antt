-- ===== src/App/View/Order.antt =====
-- crates/rescue-tui/src/state.rs: the order of the rows of the List screen.
use aegis_boot.Prelude.{◌≡◌, refl, Bool, true, false, ◌&&◌, List, [], ◌∷◌, arith}
use aegis_boot.App.View.{sort_insert, sort_by}

module _ {ℓ} {A : Type ℓ} (le : A → A → Bool) where
  -- Each item is at most its successor.
  abbrev pub is_sorted : List A → Bool
  is_sorted [] = true
  is_sorted (x ∷ []) = true
  is_sorted (x ∷ y ∷ ys) = le x y && is_sorted (y ∷ ys)

  module _ (total : (x y : A) → le x y ≡ false → le y x ≡ true) where
    -- An item inserted behind a smaller one.
    insert_behind :
        (z x : A) (xs : List A)
        → le z x ≡ true
        → is_sorted (z ∷ xs) ≡ true
        → is_sorted (z ∷ sort_insert le x xs) ≡ true
    unfolding sort_insert
    insert_behind z x [] h s = ground arith
    insert_behind z x (y ∷ ys) h s = ground (arith, total x y, insert_behind y x ys)

    sort_insert-is_sorted :
        (x : A) (xs : List A) → is_sorted xs ≡ true → is_sorted (sort_insert le x xs) ≡ true
    unfolding sort_insert
    sort_insert-is_sorted x [] s = refl
    sort_insert-is_sorted x (y ∷ ys) s = ground (arith, total x y, insert_behind y x ys)

    pub sort_by-is_sorted : (xs : List A) → is_sorted (sort_by le xs) ≡ true
    unfolding sort_by
    sort_by-is_sorted [] = refl
    sort_by-is_sorted (x ∷ xs) = sort_insert-is_sorted x (sort_by le xs) (sort_by-is_sorted xs)
