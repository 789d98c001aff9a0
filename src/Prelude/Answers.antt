-- ===== src/Prelude/Answers.antt =====
-- What code outside the model answers: a value, or the text of its error.
use mathlib.Core.Path.{◌≡◌, refl}
use mathlib.Core.Logic.{◌⊎◌, inl, inr}
use aegis_boot.Prelude.Strings.{Text}

pub data Answer (A : Type 0) : Type 0 where
  value : A → Answer A
  failure : Text → Answer A

pub Answer-cases :
    {A : Type 0} (a : Answer A)
    → ((x : A) × (a ≡ Answer.value x)) ⊎ ((e : Text) × (a ≡ Answer.failure e))
Answer-cases (Answer.value x) = inl (x, refl)
Answer-cases (Answer.failure e) = inr (e, refl)
