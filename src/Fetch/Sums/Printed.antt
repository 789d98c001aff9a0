-- ===== src/Fetch/Sums/Printed.antt =====
-- crates/aegis-fetch/src/sums.rs: the search beside the layouts in which checksum tools write.
use aegis_boot.Prelude.{
  ◌⊎◌, inl, inr, ℕ, ◌≡◌, ◌∙◌, refl, Bool, true, false, ◌&&◌, List, [], ◌∷◌, ◌++◌, Text, codes,
  text_eq, to_ascii_lowercase, arith, len, is_prefix, some, if◌then◌else◌,
}
use aegis_boot.Prelude.Decimal.{is_whitespace, trim, trim_start, trim_end}
use aegis_boot.Prelude.Parse.{lines, strip_prefix, all_hexdigits, is_ascii_hexdigit}
use aegis_boot.Prelude.Words.{
  all_plain, is_plain, is_line, lines-line, is_line-append, hexdigit_plain, hexdigits_plain,
  plain_line, trim_end-plain, split_whitespace_once-plain, split_find-plain, trim_end-suffix,
  trim_lem, trim_start-plain, trim_start-space,
}
use aegis_boot.Fetch.{FetchError, Outcome, ok, err}
use aegis_boot.Fetch.Sums.{
  is_sha256_hex, bsd_line, without_star, gnu_line, parse_sha256_line, filter_map_lines,
  iter_sha256_lines, find_in, find_iso_sha256,
}

pub data Layout : Type 0 where
  gnu binary bsd : Layout

-- A file's name and its digest, as `sha256sum`, `sha256sum -b` and `sha256sum --tag` print them.
abbrev pub print_line : Layout → Text → Text → Text
print_line gnu name hex = hex ++ (codes "  " ++ name)
print_line binary name hex = hex ++ (codes " *" ++ name)
print_line bsd name hex = codes "SHA256 (" ++ (name ++ (codes ") = " ++ hex))

abbrev pub print_sums : List (Layout × Text × Text) → Text
print_sums [] = []
print_sums ((l, name, hex) ∷ es) = print_line l name hex ++ 10 ∷ print_sums es

abbrev pub are_printable : List (Layout × Text × Text) → Bool
are_printable [] = true
are_printable ((l, name, hex) ∷ es) = is_plain name && is_sha256_hex hex && are_printable es

-- The digest of the first entry of that name, in lower case.
abbrev pub listed_digest : List (Layout × Text × Text) → Text → FetchError → Outcome Text
listed_digest [] f missing = err missing
listed_digest ((l, name, hex) ∷ es) f missing =
    let rest = listed_digest es f (FetchError.iso_not_in_sums f) in
    if text_eq name f then ok (to_ascii_lowercase hex) else rest

without_star-plain : (s : Text) → all_plain s ≡ true → without_star s ≡ s
unfolding without_star
without_star-plain [] h = refl
without_star-plain (c ∷ s) h = ground arith

hex_IsPlain : (hex : Text) → is_sha256_hex hex ≡ true → is_plain hex ≡ true
unfolding is_sha256_hex len all_hexdigits
hex_IsPlain [] h = h
hex_IsPlain (c ∷ s) h = ground (arith, hexdigits_plain (c ∷ s))

without_star-mark : (p : ℕ) (s : Text) → p ≡ 42 → without_star (p ∷ s) ≡ s
unfolding without_star
without_star-mark p s e = ground arith

trim_start-mark : (p : ℕ) (s : Text) → p ≡ 42 → trim_start (p ∷ s) ≡ p ∷ s
unfolding trim_start is_whitespace
trim_start-mark p s e = ground arith

-- What stands behind the digest and one space.
after_space :
    (p : ℕ) (s : Text)
    → (p ≡ 32) ⊎ (p ≡ 42)
    → is_plain s ≡ true
    → without_star (trim_start (p ∷ s)) ≡ s
after_space p [] e h = cc
after_space p (c ∷ s) (inl e) h = rw e (
    rw trim_start-space
      (rw (trim_start-plain (c ∷ s) h) (without_star-plain (c ∷ s) (ground (arith, h)))))
after_space p (c ∷ s) (inr e) h = rw (trim_start-mark p (c ∷ s) e) (without_star-mark p (c ∷ s) e)

gnu_line_lem :
    (hex s : Text) (p : ℕ)
    → is_sha256_hex hex ≡ true
    → is_plain s ≡ true
    → (p ≡ 32) ⊎ (p ≡ 42)
    → gnu_line (hex ++ 32 ∷ p ∷ s) ≡ some (s, to_ascii_lowercase hex)
unfolding gnu_line
gnu_line_lem hex s p h k e =
    ground (arith, split_whitespace_once-plain hex (p ∷ s), after_space p s e, hex_IsPlain hex h)

-- A line that starts with a hexadecimal digit is neither a comment nor of the other layout.
hex_first :
    (c : ℕ) (t : Text)
    → is_ascii_hexdigit c ≡ true
    → trim (c ∷ t) ≡ c ∷ t
    → parse_sha256_line (c ∷ t) ≡ gnu_line (c ∷ t)
unfolding parse_sha256_line is_prefix strip_prefix
hex_first c t h e = ground arith

first_hexdigit : (c : ℕ) (s : Text) → is_sha256_hex (c ∷ s) ≡ true → is_ascii_hexdigit c ≡ true
unfolding is_sha256_hex all_hexdigits
first_hexdigit c s h = ground arith

trim_end-marked : (p : ℕ) (s : Text) → is_plain s ≡ true → trim_end (32 ∷ p ∷ s) ≡ 32 ∷ p ∷ s
trim_end-marked p [] h = cc
trim_end-marked p (c ∷ s) h =
    trim_end-suffix (32 ∷ p ∷ []) (c ∷ s) refl (trim_end-plain (c ∷ s) (ground (arith, h)))

trim-hex_line :
    (c : ℕ) (hex s : Text) (p : ℕ)
    → is_ascii_hexdigit c ≡ true
    → is_plain s ≡ true
    → trim (c ∷ hex ++ 32 ∷ p ∷ s) ≡ c ∷ hex ++ 32 ∷ p ∷ s
trim-hex_line c hex s p h k =
    trim_lem c (hex ++ 32 ∷ p ∷ s) (ground (arith, hexdigit_plain c h))
      (trim_end-suffix (c ∷ hex) (32 ∷ p ∷ s) refl (trim_end-marked p s k))

parse-hex_line :
    (hex s : Text) (p : ℕ)
    → is_sha256_hex hex ≡ true
    → is_plain s ≡ true
    → (p ≡ 32) ⊎ (p ≡ 42)
    → parse_sha256_line (hex ++ 32 ∷ p ∷ s) ≡ some (s, to_ascii_lowercase hex)
parse-hex_line [] s p h k e = absurd (cc (hex_IsPlain [] h))
parse-hex_line (c ∷ hex) s p h k e =
    let d = first_hexdigit c hex h in
    hex_first c (hex ++ 32 ∷ p ∷ s) d (trim-hex_line c hex s p d k)
    ∙ gnu_line_lem (c ∷ hex) s p h k e

bsd_line_lem :
    (name hex : Text)
    → is_plain name ≡ true
    → is_sha256_hex hex ≡ true
    → bsd_line (name ++ (codes ") = " ++ hex)) ≡ some (name, to_ascii_lowercase hex)
unfolding bsd_line strip_prefix
bsd_line_lem name hex h k = ground (arith, split_find-plain name (codes " = " ++ hex))

bsd_first :
    (t : Text)
    → trim (codes "SHA256 (" ++ t) ≡ codes "SHA256 (" ++ t
    → parse_sha256_line (codes "SHA256 (" ++ t) ≡ bsd_line t
unfolding parse_sha256_line is_prefix strip_prefix
bsd_first t e = ground arith

word_end :
    (name hex : Text)
    → is_plain hex ≡ true
    → trim_end (name ++ (codes ") = " ++ hex)) ≡ name ++ (codes ") = " ++ hex)
word_end name [] h = cc
word_end name (c ∷ hex) h =
    trim_end-suffix name (codes ") = " ++ c ∷ hex) refl
      (trim_end-suffix (codes ") = ") (c ∷ hex) refl (trim_end-plain (c ∷ hex) (ground (arith, h))))

trim-bsd_line :
    (name hex : Text)
    → is_plain name ≡ true
    → is_sha256_hex hex ≡ true
    → trim (codes "SHA256 (" ++ (name ++ (codes ") = " ++ hex)))
      ≡ codes "SHA256 (" ++ (name ++ (codes ") = " ++ hex))
unfolding is_whitespace
trim-bsd_line [] hex h k = cc
trim-bsd_line (c ∷ name) hex h k =
    trim_lem b'S' (codes "HA256 (" ++ (c ∷ name ++ (codes ") = " ++ hex))) refl (
      trim_end-suffix (codes "SHA256 (") (c ∷ name ++ (codes ") = " ++ hex)) refl
        (word_end (c ∷ name) hex (hex_IsPlain hex k)))

parse-print_line :
    (l : Layout) (name hex : Text)
    → is_plain name ≡ true
    → is_sha256_hex hex ≡ true
    → parse_sha256_line (print_line l name hex) ≡ some (name, to_ascii_lowercase hex)
parse-print_line gnu name hex h k = parse-hex_line hex name 32 k h (inl refl)
parse-print_line binary name hex h k = parse-hex_line hex name 42 k h (inr refl)
parse-print_line bsd name hex h k =
    bsd_first (name ++ (codes ") = " ++ hex)) (trim-bsd_line name hex h k)
    ∙ bsd_line_lem name hex h k

print_line-is_line :
    (l : Layout) (name hex : Text)
    → is_plain name ≡ true
    → is_sha256_hex hex ≡ true
    → is_line (print_line l name hex) ≡ true
print_line-is_line gnu name hex h k = ground (
  arith,
  is_line-append hex (codes "  " ++ name),
  plain_line hex,
  plain_line name,
  hex_IsPlain hex,
)
print_line-is_line binary name hex h k = ground (
  arith,
  is_line-append hex (codes " *" ++ name),
  plain_line hex,
  plain_line name,
  hex_IsPlain hex,
)
print_line-is_line bsd name hex h k = ground (
  arith,
  is_line-append name (codes ") = " ++ hex),
  plain_line hex,
  plain_line name,
  hex_IsPlain hex,
)

abbrev lowered : List (Layout × Text × Text) → List (Text × Text)
lowered [] = []
lowered ((l, name, hex) ∷ es) = (name, to_ascii_lowercase hex) ∷ lowered es

iter-print_sums :
    (es : List (Layout × Text × Text))
    → are_printable es ≡ true
    → iter_sha256_lines (print_sums es) ≡ lowered es
unfolding iter_sha256_lines filter_map_lines lines
iter-print_sums [] h = refl
iter-print_sums ((l, name, hex) ∷ es) h = ground (
  arith,
  lines-line (print_line l name hex) (print_sums es),
  print_line-is_line l name hex,
  parse-print_line l name hex,
  iter-print_sums es,
)

find_in-lowered :
    (any : Bool) (f : Text) (es : List (Layout × Text × Text))
    → find_in any f (lowered es)
      ≡ listed_digest es f (if any then FetchError.iso_not_in_sums f else FetchError.malformed_sums)
unfolding find_in
find_in-lowered true f [] = refl
find_in-lowered false f [] = refl
find_in-lowered any f ((l, name, hex) ∷ es) = ground (arith, find_in-lowered true f es)

-- In a checksum file of plain names and SHA-256 digests, each line in one of the three layouts of
-- `sha256sum`, the search finds the digest of the first line of that name, in lower case; with no such
-- line it fails as not listed, and with no line at all as malformed.
pub find_iso_sha256-print_sums :
    (es : List (Layout × Text × Text)) (f : Text)
    → are_printable es ≡ true
    → find_iso_sha256 (print_sums es) f ≡ listed_digest es f FetchError.malformed_sums
unfolding find_iso_sha256
find_iso_sha256-print_sums es f h = rw (iter-print_sums es h) (find_in-lowered false f es)
