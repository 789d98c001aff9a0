-- ===== src/App/Cmdline/Cursor.antt =====
-- crates/rescue-tui/src/state.rs: the command-line editor, whose cursor is a byte offset, against a
-- zipper of characters.
use mathlib.Core.List.{
  append_assoc, append-nil, reverse, reverse-cons, reverse-append, reverse-reverse,
}
use mathlib.Core.Path.{ap₂}
use native.Mathlib.Nat.{add-zero}
use aegis_boot.Prelude.{
  is_some, ℕ, ◌≡◌, refl, sym, ap, ◌∙◌, true, Option, none, some, List, [], ◌∷◌, ◌++◌, arith, Text,
  len, is_char_boundary,
}
use aegis_boot.Prelude.Utf8.{is_char_boundary_zero, is_char_boundary-append, split_of_boundary}
use aegis_boot.App.Cmdline.{insert_char, delete_back, step_left, step_right}
use aegis_boot.App.Cmdline.Steps.{insert_char_lem, delete_back_lem, step_left_lem, step_right_lem}

-- An editor's buffer with the characters before the cursor, the nearest first, and those after it.
pub record Zipper : Type 0 where
  pub before : Text
  pub after : Text

-- The buffer and the cursor that the screen holds for a zipper.
abbrev pub concretize : Zipper → Text × ℕ
concretize z = (reverse z.before ++ z.after, len (reverse z.before))

pub data Edit : Type 0 where
  insert : ℕ → Edit
  backspace left right home end_key : Edit

-- The code's buffer and cursor after an edit; `none` is a panic.
abbrev pub edit : Edit → Text × ℕ → Option (Text × ℕ)
edit (insert ch) (buffer, cursor) = insert_char ch buffer cursor
edit backspace (buffer, cursor) = delete_back buffer cursor
edit left (buffer, cursor) = some (buffer, step_left buffer cursor)
edit right (buffer, cursor) = some (buffer, step_right buffer cursor)
edit home (buffer, cursor) = some (buffer, 0)
edit end_key (buffer, cursor) = some (buffer, len buffer)

-- What an edit means.
abbrev pub meaning : Edit → Zipper → Zipper
meaning (insert ch) z = record z { before = ch ∷ z.before }
meaning backspace z = elim z.before [ [] ↦ z | c ∷ b ↦ record z { before = b } ]
meaning left z = elim z.before [ [] ↦ z | c ∷ b ↦ record { before = b; after = c ∷ z.after } ]
meaning right z = elim z.after [ [] ↦ z | c ∷ a ↦ record { before = c ∷ z.before; after = a } ]
meaning home z = record { before = []; after = reverse z.before ++ z.after }
meaning end_key z = record { before = reverse z.after ++ z.before; after = [] }

edit_at :
    (e : Edit) (b a : Text)
    → let z : Zipper = record { before = b; after = a } in
      edit e (concretize z) ≡ some (concretize (meaning e z))
edit_at (insert ch) b a = rw reverse-cons (insert_char_lem ch (reverse b) a)
edit_at backspace [] a = unfold delete_back len in refl
edit_at backspace (c ∷ b) a = rw reverse-cons (delete_back_lem c (reverse b) a)
edit_at left [] a = unfold step_left len in refl
edit_at left (c ∷ b) a = rw reverse-cons (rw (step_left_lem, append_assoc))
edit_at right b [] = rw append-nil (unfold step_right in ground arith)
edit_at right b (c ∷ a) = rw reverse-cons (rw (step_right_lem, append_assoc))
edit_at home b a = unfold len in refl
edit_at end_key b a = rw (append-nil, reverse-append, reverse-reverse)

edit_lem : (e : Edit) (z : Zipper) → edit e (concretize z) ≡ some (concretize (meaning e z))
edit_lem e z = edit_at e z.before z.after

-- A run of edits from the code's buffer and cursor.
abbrev pub edits : List Edit → Text × ℕ → Option (Text × ℕ)
edits [] p = some p
edits (e ∷ es) p = elim (edit e p) [ none ↦ none | some q ↦ edits es q ]

abbrev pub meanings : List Edit → Zipper → Zipper
meanings [] z = z
meanings (e ∷ es) z = meanings es (meaning e z)

-- Any keys in the editor do to its buffer and byte cursor what they mean for the characters, and none
-- of them panics.
pub edits_lem :
    (es : List Edit) (z : Zipper) → edits es (concretize z) ≡ some (concretize (meanings es z))
edits_lem [] z = refl
edits_lem (e ∷ es) z =
    ap
      (λ (r : Option (Text × ℕ)). elim r as (λ x. Option (Text × ℕ)) [
        | none ↦ none
        | some q ↦ edits es q
      ])
      (edit_lem e z)
    ∙ edits_lem es (meaning e z)

concretize-boundary : (z : Zipper) → is_char_boundary (concretize z).0 (concretize z).1 ≡ true
concretize-boundary z =
    ap (is_char_boundary (reverse z.before ++ z.after)) (sym (add-zero (len (reverse z.before))))
    ∙ is_char_boundary-append (reverse z.before) z.after 0
    ∙ is_char_boundary_zero z.after

zipper_of_boundary :
    (buffer : Text) (cursor : ℕ)
    → is_char_boundary buffer cursor ≡ true
    → (z : Zipper) × (buffer ≡ (concretize z).0) × (cursor ≡ (concretize z).1)
zipper_of_boundary buffer cursor h =
    let (l, r, p, q) = split_of_boundary buffer cursor h in
    (record { before = reverse l; after = r }, rw reverse-reverse p, rw reverse-reverse q)

-- An edit from a boundary does not panic and ends on a boundary.
pub edit-boundary :
    (e : Edit) (buffer : Text) (cursor : ℕ)
    → is_char_boundary buffer cursor ≡ true
    → (q : Text × ℕ) × (edit e (buffer, cursor) ≡ some q) × (is_char_boundary q.0 q.1 ≡ true)
edit-boundary e buffer cursor h =
    let (z, p, q) = zipper_of_boundary buffer cursor h in
    (
      concretize (meaning e z),
      ap₂ (λ b c. edit e (b, c)) p q ∙ edit_lem e z,
      concretize-boundary (meaning e z),
    )

module _ (buffer : Text) (cursor : ℕ) (h : is_char_boundary buffer cursor ≡ true) where
  pub step_left-boundary : is_char_boundary buffer (step_left buffer cursor) ≡ true
  step_left-boundary = ground (arith, edit-boundary left buffer cursor h)

  pub step_right-boundary : is_char_boundary buffer (step_right buffer cursor) ≡ true
  step_right-boundary = ground (arith, edit-boundary right buffer cursor h)

  pub insert_char-boundary :
      (ch : ℕ) (q : Text × ℕ)
      → insert_char ch buffer cursor ≡ some q
      → is_char_boundary q.0 q.1 ≡ true
  insert_char-boundary ch q e = ground (arith, edit-boundary (insert ch) buffer cursor h)

  pub delete_back-boundary :
      (q : Text × ℕ) → delete_back buffer cursor ≡ some q → is_char_boundary q.0 q.1 ≡ true
  delete_back-boundary q e = ground (arith, edit-boundary backspace buffer cursor h)

  pub insert_char-is_some : (ch : ℕ) → is_some (insert_char ch buffer cursor) ≡ true
  insert_char-is_some ch = ground (arith, edit-boundary (insert ch) buffer cursor h)

  pub delete_back-is_some : is_some (delete_back buffer cursor) ≡ true
  delete_back-is_some = ground (arith, edit-boundary backspace buffer cursor h)

  pub len-boundary : is_char_boundary buffer (len buffer) ≡ true
  len-boundary = ground (arith, edit-boundary end_key buffer cursor h)

-- The end of a text is a boundary.
pub end-boundary : (buffer : Text) → is_char_boundary buffer (len buffer) ≡ true
end-boundary buffer = len-boundary buffer 0 (is_char_boundary_zero buffer)
