-- ===== src/Prelude/Decimal.antt =====
-- Rust's `str::trim` and `str::parse::<u32>`, beside the decimal form that `{n}` prints.
use Prim.Native.Nat.{ℕ, zero, suc, ◌+◌, ◌-◌, ◌*◌, ◌/◌, ◌%◌, ◌^◌, ◌<◌}
use mathlib.Core.Path.{◌≡◌, refl}
use mathlib.Core.Bool.{Bool, true, false, ◌&&◌, ◌||◌}
use mathlib.Core.Option.{Option, none, some}
use mathlib.Core.List.{[], ◌∷◌, ◌++◌}
use native.Mathlib.Omega.{arith}
use aegis_boot.Prelude.Tests.{◌==◌, ltb, leb, if◌then◌else◌}
use aegis_boot.Prelude.Strings.{Text, decimal, digits, is_empty}

-- `char::is_whitespace`
unfoldable pub is_whitespace : ℕ → Bool
is_whitespace c =
    c == 32
    || (leb 9 c && leb c 13)
    || c == 0x85
    || c == 0xA0
    || c == 0x1680
    || (leb 0x2000 c && leb c 0x200A)
    || c == 0x2028
    || c == 0x2029
    || c == 0x202F
    || c == 0x205F
    || c == 0x3000

unfoldable pub trim_start : Text → Text
trim_start [] = []
trim_start (c ∷ s) = let rest = trim_start s in if is_whitespace c then rest else c ∷ s

unfoldable pub trim_end : Text → Text
trim_end [] = []
trim_end (c ∷ s) =
    let rest = trim_end s in if is_whitespace c && is_empty rest then [] else c ∷ rest

unfoldable pub trim : Text → Text
trim s = trim_end (trim_start s)

abbrev pub is_digit : ℕ → Bool
is_digit c = leb 48 c && leb c 57

-- The value of a run of digits behind `acc`.
unfoldable pub value : ℕ → Text → Option ℕ
value acc [] = some acc
value acc (c ∷ s) = let rest = value (acc * 10 + (c - 48)) s in if is_digit c then rest else none

abbrev u32_bound : ℕ
u32_bound = 2 ^ 32

abbrev u64_bound : ℕ
u64_bound = 2 ^ 64

abbrev checked : ℕ → Option ℕ → Option ℕ
checked bound none = none
checked bound (some n) = if ltb n bound then some n else none

-- At least one digit, after an optional `+`; the overflow check on each digit is one on the value.
abbrev parse_below : ℕ → Text → Option ℕ
parse_below bound [] = none
parse_below bound (c ∷ s) =
    if c == 43
    then (if is_empty s then none else checked bound (value 0 s))
    else checked bound (value 0 (c ∷ s))

unfoldable pub parse_u32 : Text → Option ℕ
unfolding value
parse_u32 s = parse_below u32_bound s

unfoldable pub parse_u64 : Text → Option ℕ
unfolding value
parse_u64 s = parse_below u64_bound s

abbrev is_digits : Text → Bool
is_digits [] = true
is_digits (c ∷ s) = is_digit c && is_digits s

digits-is_digits :
    (fuel n : ℕ) (acc : Text) → is_digits acc ≡ true → is_digits (digits fuel n acc) ≡ true
unfolding digits
digits-is_digits zero n acc h = h
digits-is_digits (suc fuel) n acc h =
    ground (arith, digits-is_digits fuel (n / 10) ((b'0' + n % 10) ∷ acc))

value-digits : (fuel n : ℕ) (acc : Text) → n < fuel → value 0 (digits fuel n acc) ≡ value n acc
unfolding digits value
value-digits zero n acc h = absurd (omega arith)
value-digits (suc fuel) n acc h = ground (arith, value-digits fuel (n / 10) ((b'0' + n % 10) ∷ acc))

digits-is_empty : (fuel n : ℕ) (acc : Text) → is_empty (digits (suc fuel) n acc) ≡ false
unfolding digits
digits-is_empty zero n acc = ground arith
digits-is_empty (suc fuel) n acc =
    ground (arith, digits-is_empty fuel (n / 10) ((b'0' + n % 10) ∷ acc))

is_whitespace-digit : (c : ℕ) → is_digit c ≡ true → is_whitespace c ≡ false
unfolding is_whitespace
is_whitespace-digit c h = ground arith

trim_end-line : (s : Text) → is_digits s ≡ true → trim_end (s ++ 10 ∷ []) ≡ s
unfolding trim_end is_whitespace
trim_end-line [] h = refl
trim_end-line (c ∷ s) h = ground (arith, trim_end-line s, is_whitespace-digit c)

parse_u32-line :
    (t : Text) (n : ℕ)
    → is_digits t ≡ true
    → is_empty t ≡ false
    → value 0 t ≡ some n
    → n < 2 ^ 32
    → parse_u32 (trim (t ++ 10 ∷ [])) ≡ some n
unfolding trim trim_start parse_u32
parse_u32-line [] n d e v h = cc
parse_u32-line (c ∷ s) n d e v h = ground (arith, is_whitespace-digit c, trim_end-line (c ∷ s) d)

-- What `writeln!("{n}")` writes, `trim` and `parse` read back.
pub parse_u32-decimal : (n : ℕ) → n < 2 ^ 32 → parse_u32 (trim (decimal n ++ 10 ∷ [])) ≡ some n
unfolding decimal value
parse_u32-decimal n h =
    parse_u32-line (digits (suc n) n []) n (digits-is_digits (suc n) n [] refl)
      (digits-is_empty n n []) (value-digits (suc n) n [] (omega arith)) h
