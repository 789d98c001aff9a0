-- ===== src/Prelude/Words.antt =====
-- Plain words, and lines that are put together from them: what `lines`, `trim` and the splits do there.
use aegis_boot.Prelude.{
  ℕ, ◌≡◌, refl, Bool, true, false, ◌&&◌, some, [], ◌∷◌, ◌++◌, Text, is_empty, not, text_eq, arith,
  ◌==◌,
}
use aegis_boot.Prelude.Decimal.{is_whitespace, trim, trim_start, trim_end}
use aegis_boot.Prelude.Parse.{
  lines, split_find, split_whitespace_once, all_hexdigits, is_ascii_hexdigit,
}

abbrev pub is_plain_char : ℕ → Bool
is_plain_char c = not (is_whitespace c) && not (c == b')') && not (c == b'*')

abbrev pub all_plain : Text → Bool
all_plain [] = true
all_plain (c ∷ s) = is_plain_char c && all_plain s

-- A name with no white space, closing parenthesis or star.
abbrev pub is_plain : Text → Bool
is_plain s = not (is_empty s) && all_plain s

abbrev pub is_line : Text → Bool
is_line [] = true
is_line (c ∷ s) = not (c == 10) && not (c == 13) && is_line s

pub lines-line : (l rest : Text) → is_line l ≡ true → lines (l ++ 10 ∷ rest) ≡ l ∷ lines rest
unfolding lines
lines-line [] rest h = refl
lines-line (c ∷ l) rest h = ground (arith, lines-line l rest)

pub is_line-append : (a b : Text) → is_line a ≡ true → is_line b ≡ true → is_line (a ++ b) ≡ true
is_line-append [] b h k = k
is_line-append (c ∷ a) b h k = ground (arith, is_line-append a b)

pub hexdigit_plain : (c : ℕ) → is_ascii_hexdigit c ≡ true → is_plain_char c ≡ true
unfolding is_whitespace
hexdigit_plain c h = ground arith

pub hexdigits_plain : (s : Text) → all_hexdigits s ≡ true → all_plain s ≡ true
unfolding all_hexdigits
hexdigits_plain [] h = refl
hexdigits_plain (c ∷ s) h = ground (arith, hexdigit_plain c, hexdigits_plain s)

pub plain_line_char : (c : ℕ) → is_plain_char c ≡ true → (not (c == 10) && not (c == 13)) ≡ true
unfolding is_whitespace
plain_line_char c h = ground arith

pub plain_line : (s : Text) → all_plain s ≡ true → is_line s ≡ true
plain_line [] h = refl
plain_line (c ∷ s) h = ground (arith, plain_line_char c, plain_line s)

pub trim_end-plain : (s : Text) → all_plain s ≡ true → trim_end s ≡ s
unfolding trim_end
trim_end-plain [] h = refl
trim_end-plain (c ∷ s) h = ground (arith, trim_end-plain s)

pub space_is_whitespace : is_whitespace 32 ≡ true
unfolding is_whitespace
space_is_whitespace = refl

pub split_whitespace_once-plain :
    (s t : Text) → all_plain s ≡ true → split_whitespace_once (s ++ 32 ∷ t) ≡ (s, some t)
unfolding split_whitespace_once
split_whitespace_once-plain [] t h = rw space_is_whitespace
split_whitespace_once-plain (c ∷ s) t h = ground (arith, split_whitespace_once-plain s t)

pub split_find-plain :
    (s t : Text) → all_plain s ≡ true → split_find b')' (s ++ b')' ∷ t) ≡ some (s, b')' ∷ t)
unfolding split_find
split_find-plain [] t h = refl
split_find-plain (c ∷ s) t h = ground (arith, split_find-plain s t)

pub trim_end-suffix :
    (a b : Text) → is_empty b ≡ false → trim_end b ≡ b → trim_end (a ++ b) ≡ a ++ b
unfolding trim_end
trim_end-suffix [] b h e = e
trim_end-suffix (c ∷ a) [] h e = cc
trim_end-suffix (c ∷ []) (d ∷ b) h e = ground (arith, trim_end-suffix [] (d ∷ b))
trim_end-suffix (c ∷ x ∷ a) (d ∷ b) h e = ground (arith, trim_end-suffix (x ∷ a) (d ∷ b))

pub trim_lem :
    (c : ℕ) (s : Text) → is_whitespace c ≡ false → trim_end (c ∷ s) ≡ c ∷ s → trim (c ∷ s) ≡ c ∷ s
unfolding trim trim_start
trim_lem c s h e = ground arith

pub trim_start-plain : (s : Text) → is_plain s ≡ true → trim_start s ≡ s
unfolding trim_start
trim_start-plain [] h = cc
trim_start-plain (c ∷ s) h = ground arith

pub trim_start-space : (s : Text) → trim_start (32 ∷ s) ≡ trim_start s
unfolding trim_start
trim_start-space s = ground (arith, space_is_whitespace)

pub text_eq-eq : (s t : Text) → text_eq s t ≡ true → s ≡ t
unfolding text_eq
text_eq-eq [] [] h = refl
text_eq-eq [] (b ∷ t) h = cc
text_eq-eq (a ∷ s) [] h = cc
text_eq-eq (a ∷ s) (b ∷ t) h = ground (arith, text_eq-eq s t)
