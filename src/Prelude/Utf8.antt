-- ===== src/Prelude/Utf8.antt =====
-- The laws of byte offsets: lengths, boundaries and splits of a text that is put together.
use native.Mathlib.Nat.{zero-add, add_assoc}
use mathlib.Core.Logic.{inl, inr}
use Prim.Native.Nat.{ℕ, ◌+◌, ◌-◌, ◌≤◌, ◌<◌}
use mathlib.Core.Path.{◌≡◌, refl, ap, ◌∙◌}
use mathlib.Core.Bool.{true, false}
use mathlib.Core.Option.{some}
use mathlib.Core.List.{[], ◌∷◌, ◌++◌}
use native.Mathlib.Omega.{arith}
use aegis_boot.Prelude.Tests.{◌==◌, Bool-cases}
use aegis_boot.Prelude.Strings.{Text, len, len_utf8, is_char_boundary, split_at}

pub len_utf8_bounds : (c : ℕ) → (1 ≤ len_utf8 c) × (len_utf8 c ≤ 4)
unfolding len_utf8
len_utf8_bounds c = ground arith

pub len-append : (s t : Text) → len (s ++ t) ≡ len s + len t
unfolding len
len-append [] t = omega arith
len-append (c ∷ s) t = omega (arith, len-append s t)

-- Past the start of a character, its own bytes are no boundary.
pub is_char_boundary_inside :
    (c : ℕ) (t : Text) (k : ℕ) → 0 < k → k < len_utf8 c → is_char_boundary (c ∷ t) k ≡ false
unfolding is_char_boundary
is_char_boundary_inside c t k h h' = ground arith

pub is_char_boundary_zero : (t : Text) → is_char_boundary t 0 ≡ true
unfolding is_char_boundary
is_char_boundary_zero [] = refl
is_char_boundary_zero (c ∷ t) = refl

pub is_char_boundary_next :
    (c : ℕ) (t : Text) (k : ℕ) → is_char_boundary (c ∷ t) (len_utf8 c + k) ≡ is_char_boundary t k
unfolding is_char_boundary
is_char_boundary_next c t k = ground (arith, len_utf8_bounds c)

pub is_char_boundary-append :
    (s t : Text) (k : ℕ) → is_char_boundary (s ++ t) (len s + k) ≡ is_char_boundary t k
unfolding len
is_char_boundary-append [] t k = rw zero-add
is_char_boundary-append (c ∷ s) t k =
    rw add_assoc (is_char_boundary_next c (s ++ t) (len s + k) ∙ is_char_boundary-append s t k)

pub split_at-append : (s t : Text) → split_at (s ++ t) (len s) ≡ some (s, t)
unfolding split_at len
split_at-append [] [] = refl
split_at-append [] (d ∷ t) = refl
split_at-append (c ∷ s) t = ground (arith, len_utf8_bounds c, split_at-append s t)

-- A boundary is the end of a first part.
pub split_of_boundary :
    (t : Text) (i : ℕ)
    → is_char_boundary t i ≡ true
    → (l : Text) × (r : Text) × (t ≡ l ++ r) × (i ≡ len l)
unfolding is_char_boundary len
split_of_boundary [] i h = ([], [], refl, ground arith)
split_of_boundary (c ∷ t) i h = elim (Bool-cases (i == 0)) [
  | inl z ↦ ([], c ∷ t, refl, ground arith)
  | inr nz ↦
      let (l, r, p, q) = split_of_boundary t (i - len_utf8 c) (ground arith) in
      (c ∷ l, r, ap (◌∷◌ c) p, ground arith)
]
