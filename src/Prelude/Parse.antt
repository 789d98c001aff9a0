-- ===== src/Prelude/Parse.antt =====
-- The methods of `str` that the parsers call: lines, prefixes, splits and hexadecimal digits.
use Prim.Native.Nat.{ℕ}
use mathlib.Core.Bool.{Bool, true, false, ◌&&◌, ◌||◌}
use mathlib.Core.Option.{Option, none, some}
use mathlib.Core.List.{List, [], ◌∷◌}
use aegis_boot.Prelude.Tests.{◌==◌, leb, if◌then◌else◌}
use aegis_boot.Prelude.Strings.{Text, text_eq, to_ascii_lowercase}
use aegis_boot.Prelude.Decimal.{is_whitespace}

abbrev starts_line : Text → Bool
starts_line [] = false
starts_line (c ∷ s) = c == 10

abbrev on_first : ℕ → List Text → List Text
on_first c [] = (c ∷ []) ∷ []
on_first c (l ∷ ls) = (c ∷ l) ∷ ls

-- `str::lines`: a line ends at a line feed, with one carriage return before it.
unfoldable pub lines : Text → List Text
lines [] = []
lines (c ∷ s) =
    let rest = lines s in
    if c == 10 then [] ∷ rest else if c == 13 && starts_line s then rest else on_first c rest

-- `str::strip_prefix`
unfoldable pub strip_prefix : Text → Text → Option Text
strip_prefix [] t = some t
strip_prefix (a ∷ s) [] = none
strip_prefix (a ∷ s) (b ∷ t) = let rest = strip_prefix s t in if a == b then rest else none

abbrev behind : ℕ → Option (Text × Text) → Option (Text × Text)
behind c none = none
behind c (some (l, r)) = some (c ∷ l, r)

-- The text before the first character `d`, and the text from it on: `find`, then both slices.
unfoldable pub split_find : ℕ → Text → Option (Text × Text)
split_find d [] = none
split_find d (c ∷ s) =
    let later = split_find d s in if c == d then some ([], c ∷ s) else behind c later

abbrev behind_part : ℕ → (Text × Option Text) → Text × Option Text
behind_part c (l, r) = (c ∷ l, r)

-- `splitn(2, char::is_whitespace)`: the first part, and the second one if there is a split.
unfoldable pub split_whitespace_once : Text → Text × Option Text
split_whitespace_once [] = ([], none)
split_whitespace_once (c ∷ s) =
    let later = split_whitespace_once s in
    if is_whitespace c then ([], some s) else behind_part c later

-- `char::is_ascii_hexdigit`
abbrev pub is_ascii_hexdigit : ℕ → Bool
is_ascii_hexdigit c =
    (leb b'0' c && leb c b'9') || (leb b'a' c && leb c b'f') || (leb b'A' c && leb c b'F')

unfoldable pub all_hexdigits : Text → Bool
all_hexdigits [] = true
all_hexdigits (c ∷ s) = is_ascii_hexdigit c && all_hexdigits s

-- `str::eq_ignore_ascii_case`
unfoldable pub eq_ignore_ascii_case : Text → Text → Bool
unfolding text_eq to_ascii_lowercase
eq_ignore_ascii_case s t = text_eq (to_ascii_lowercase s) (to_ascii_lowercase t)

-- The part of a text behind its last `d`, or else `best`.
unfoldable pub after_last : ℕ → Text → Text → Text
after_last d best [] = best
after_last d best (c ∷ s) = after_last d (if c == d then s else best) s

-- `rsplit('/').next()`
unfoldable pub last_segment : Text → Text
unfolding after_last
last_segment s = after_last b'/' s s
