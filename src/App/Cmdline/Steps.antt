-- ===== src/App/Cmdline/Steps.antt =====
-- crates/rescue-tui/src/state.rs: the steps of the editor's cursor by bytes, at the start and the end
-- of one character.
use mathlib.Core.List.{append_assoc}
use native.Mathlib.Nat.{add-zero}
use aegis_boot.Prelude.{
  ℕ, zero, suc, ◌+◌, ◌-◌, ◌≤◌, ◌<◌, min, ◌≡◌, refl, sym, ap, ◌∙◌, true, some, [], ◌∷◌, ◌++◌, arith,
  Text, len, len_utf8, is_char_boundary, ◌==◌,
}
use aegis_boot.Prelude.Utf8.{
  len_utf8_bounds, len-append, is_char_boundary_inside, is_char_boundary_zero,
  is_char_boundary_next, is_char_boundary-append, split_at-append,
}
use aegis_boot.App.Cmdline.{
  find_back, prev_char_boundary, find_forward, next_char_boundary, insert_char, delete_back,
  step_left, step_right,
}

len_cons : (c : ℕ) (s : Text) → len (c ∷ s) ≡ len_utf8 c + len s
unfolding len
len_cons c s = refl

pub len_snoc : (s : Text) (c : ℕ) → len (s ++ c ∷ []) ≡ len s + len_utf8 c
unfolding len
len_snoc s c = omega (arith, len-append s (c ∷ []))

-- Among the offsets of one character, only its start is a boundary.
boundary_in :
    (pre : Text) (c : ℕ) (post : Text) (k : ℕ)
    → k < len_utf8 c
    → is_char_boundary (pre ++ c ∷ post) (len pre + k) ≡ (k == 0)
boundary_in pre c post zero h =
    is_char_boundary-append pre (c ∷ post) 0 ∙ is_char_boundary_zero (c ∷ post)
boundary_in pre c post (suc k) h =
    is_char_boundary-append pre (c ∷ post) (suc k)
    ∙ is_char_boundary_inside c post (suc k) (omega arith) h
    ∙ ground arith

find_back_lem :
    (left step : ℕ) (pre : Text) (c : ℕ) (post : Text) (n : ℕ)
    → 0 < step
    → step ≤ n
    → n ≤ len_utf8 c
    → n < step + left
    → find_back left step (pre ++ c ∷ post) (len pre + n) ≡ len pre
unfolding find_back
find_back_lem zero step pre c post n h₁ h₂ h₃ h₄ = absurd (omega arith)
find_back_lem (suc left) step pre c post n h₁ h₂ h₃ h₄ =
    ground (arith, boundary_in pre c post (n - step), find_back_lem left (suc step) pre c post n)

prev_char_boundary_lem :
    (pre : Text) (c : ℕ) (post : Text)
    → prev_char_boundary (pre ++ c ∷ post) (len pre + len_utf8 c) ≡ len pre
unfolding prev_char_boundary
prev_char_boundary_lem pre c post =
    find_back_lem (min (len pre + len_utf8 c) 4) 1 pre c post (len_utf8 c) (omega arith)
      (omega (arith, len_utf8_bounds c)) (omega arith) (omega (arith, len_utf8_bounds c))

boundary_after :
    (pre : Text) (c : ℕ) (post : Text)
    → is_char_boundary (pre ++ c ∷ post) (len pre + len_utf8 c) ≡ true
boundary_after pre c post =
    is_char_boundary-append pre (c ∷ post) (len_utf8 c)
    ∙ sym (ap (is_char_boundary (c ∷ post)) (add-zero (len_utf8 c)))
    ∙ is_char_boundary_next c post 0
    ∙ is_char_boundary_zero post

find_forward_lem :
    (left : ℕ) (pre : Text) (c : ℕ) (post : Text) (k : ℕ)
    → 0 < k
    → k ≤ len_utf8 c
    → len_utf8 c < k + left
    → find_forward left (len pre + k) (pre ++ c ∷ post) ≡ len pre + len_utf8 c
unfolding find_forward
find_forward_lem zero pre c post k h₁ h₂ h₃ = absurd (omega arith)
find_forward_lem (suc left) pre c post k h₁ h₂ h₃ = ground (
  arith,
  boundary_in pre c post k,
  boundary_after pre c post,
  find_forward_lem left pre c post (suc k),
)

next_char_boundary_lem :
    (pre : Text) (c : ℕ) (post : Text)
    → next_char_boundary (pre ++ c ∷ post) (len pre) ≡ len pre + len_utf8 c
unfolding next_char_boundary
next_char_boundary_lem pre c post =
    find_forward_lem (len (pre ++ c ∷ post) - len pre) pre c post 1 (omega arith)
      (omega (arith, len_utf8_bounds c)) (omega (arith, len-append pre (c ∷ post), len_cons c post))

pub insert_char_lem :
    (ch : ℕ) (pre post : Text)
    → insert_char ch (pre ++ post) (len pre) ≡ some ((pre ++ ch ∷ []) ++ post, len (pre ++ ch ∷ []))
unfolding insert_char
insert_char_lem ch pre post = rw (split_at-append, insert_char) (rw (append_assoc, len_snoc))

prev_snoc :
    (c : ℕ) (pre post : Text)
    → prev_char_boundary ((pre ++ c ∷ []) ++ post) (len (pre ++ c ∷ [])) ≡ len pre
prev_snoc c pre post = rw (append_assoc, len_snoc) (prev_char_boundary_lem pre c post)

pub delete_back_lem :
    (c : ℕ) (pre post : Text)
    → delete_back ((pre ++ c ∷ []) ++ post) (len (pre ++ c ∷ [])) ≡ some (pre ++ post, len pre)
unfolding delete_back
delete_back_lem c pre post = ground (
  arith,
  prev_snoc c pre post,
  split_at-append (pre ++ c ∷ []) post,
  split_at-append pre (c ∷ []),
  len_snoc pre c,
  len_utf8_bounds c,
)

pub step_left_lem :
    (c : ℕ) (pre post : Text) → step_left ((pre ++ c ∷ []) ++ post) (len (pre ++ c ∷ [])) ≡ len pre
unfolding step_left
step_left_lem c pre post = ground (arith, prev_snoc c pre post, len_snoc pre c, len_utf8_bounds c)

pub step_right_lem :
    (c : ℕ) (pre post : Text) → step_right (pre ++ c ∷ post) (len pre) ≡ len (pre ++ c ∷ [])
unfolding step_right
step_right_lem c pre post = ground (
  arith,
  next_char_boundary_lem pre c post,
  len-append pre (c ∷ post),
  len_cons c post,
  len_snoc pre c,
  len_utf8_bounds c,
)
