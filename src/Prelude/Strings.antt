-- ===== src/Prelude/Strings.antt =====
-- A Rust `String` as the list of its Unicode scalar values, with the byte offsets of its UTF-8 form.
use Prim.Native.Nat.{ℕ, zero, suc, ◌+◌, ◌-◌, ◌/◌, ◌%◌}
use Prim.Native.Char.{code}
use Prim.Native.String.{String}
use mathlib.Core.Bool.{Bool, true, false, ◌&&◌, ◌||◌}
use mathlib.Core.Option.{Option, none, some}
use mathlib.Core.List.{List, [], ◌∷◌, map, reverse}
use aegis_boot.Prelude.Tests.{◌==◌, ltb, leb, if◌then◌else◌}

abbrev pub Text : Type 0
Text = List ℕ

-- The scalar values of a literal.
abbrev pub codes : String → Text
codes String.[] = []
codes (String.◌∷◌ c s) = code c ∷ codes s

unfoldable pub text_eq : Text → Text → Bool
text_eq [] [] = true
text_eq (a ∷ s) (b ∷ t) = a == b && text_eq s t
text_eq _ _ = false

abbrev pub is_empty : Text → Bool
is_empty [] = true
is_empty (_ ∷ _) = false

-- `str::cmp` is not `Greater`: UTF-8 keeps the order of the scalar values.
unfoldable pub text_le : Text → Text → Bool
text_le [] t = true
text_le (a ∷ s) [] = false
text_le (a ∷ s) (b ∷ t) = ltb a b || (a == b && text_le s t)

unfoldable pub to_ascii_lowercase : Text → Text
to_ascii_lowercase = map (λ c. if leb b'A' c && leb c b'Z' then c + 32 else c)

unfoldable pub is_prefix : Text → Text → Bool
is_prefix [] t = true
is_prefix (a ∷ s) [] = false
is_prefix (a ∷ s) (b ∷ t) = a == b && is_prefix s t

-- `t.contains(s)`
unfoldable pub contains : Text → Text → Bool
unfolding is_prefix
contains [] s = is_empty s
contains (c ∷ t) s = is_prefix s (c ∷ t) || contains t s

-- `char::len_utf8`
unfoldable pub len_utf8 : ℕ → ℕ
len_utf8 c = if ltb c 128 then 1 else if ltb c 2048 then 2 else if ltb c 65536 then 3 else 4

-- `str::len`, in bytes
unfoldable pub len : Text → ℕ
len [] = 0
len (c ∷ s) = len_utf8 c + len s

-- `str::is_char_boundary`
unfoldable pub is_char_boundary : Text → ℕ → Bool
is_char_boundary [] i = i == 0
is_char_boundary (c ∷ s) i =
    let later = is_char_boundary s (i - len_utf8 c) in
    if i == 0 then true else if ltb i (len_utf8 c) then false else later

-- The two parts of a text at a byte offset; `none` off a boundary, where the source's calls panic.
unfoldable pub split_at : Text → ℕ → Option (Text × Text)
split_at [] i = if i == 0 then some ([], []) else none
split_at (c ∷ s) i =
    let later = split_at s (i - len_utf8 c) in
    if i == 0
    then some ([], c ∷ s)
    else if ltb i (len_utf8 c)
    then none
    else elim later [ none ↦ none | some (l, r) ↦ some (c ∷ l, r) ]

-- `String::pop`
unfoldable pub pop : Text → Text
pop [] = []
pop (c ∷ []) = []
pop (c ∷ d ∷ s) = c ∷ pop (d ∷ s)

unfoldable pub digits : ℕ → ℕ → Text → Text
digits zero n acc = acc
digits (suc fuel) n acc =
    let more = digits fuel (n / 10) ((b'0' + n % 10) ∷ acc) in
    if ltb n 10 then (b'0' + n) ∷ acc else more

-- `{n}`; a number is more than its count of digits, so the fuel is enough.
unfoldable pub decimal : ℕ → Text
unfolding digits
decimal n = digits (suc n) n []

-- `Path::components` keeps the parts between slashes that are neither empty nor `.`.
keep_part : Text → List Text → List Text
unfolding text_eq
keep_part [] ps = ps
keep_part (c ∷ p) ps = if text_eq (c ∷ p) (codes ".") then ps else (c ∷ p) ∷ ps

parts : Text → Text → List Text
unfolding keep_part
parts cur [] = keep_part (reverse cur) []
parts cur (c ∷ s) =
    let here = keep_part (reverse cur) (parts [] s) in
    let on = parts (c ∷ cur) s in if c == b'/' then here else on

last_part : List Text → Option Text
last_part [] = none
last_part (p ∷ []) = some p
last_part (p ∷ q ∷ ps) = last_part (q ∷ ps)

-- `Path::file_name`: the last component, unless it is `..`.
unfoldable pub file_name : Text → Option Text
unfolding parts last_part text_eq
file_name path = elim (last_part (parts [] path)) [
  | none ↦ none
  | some p ↦ if text_eq p (codes "..") then none else some p
]
