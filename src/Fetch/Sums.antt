-- ===== src/Fetch/Sums.antt =====
-- crates/aegis-fetch/src/sums.rs: the search of a checksum file for the digest of an ISO. A digest is
-- ASCII where `to_lowercase` is called, so that it is `to_ascii_lowercase` there.
pub mod Printed
use aegis_boot.Prelude.{
  ℕ, Bool, true, false, ◌&&◌, ◌||◌, Option, none, some, List, [], ◌∷◌, Text, codes, text_eq, len,
  to_ascii_lowercase, is_empty, is_prefix, ◌==◌, if◌then◌else◌,
}
use aegis_boot.Prelude.Decimal.{trim, trim_start}
use aegis_boot.Prelude.Parse.{lines, strip_prefix, split_find, split_whitespace_once, all_hexdigits}
use aegis_boot.Fetch.{FetchError, Outcome, ok, err}

unfoldable pub is_sha256_hex : Text → Bool
is_sha256_hex s = len s == 64 && all_hexdigits s

-- A pair of a file's name and its digest in lower case, if the digest is one.
abbrev pair_if_hex : Text → Text → Option (Text × Text)
pair_if_hex filename hex =
    if is_sha256_hex hex then some (filename, to_ascii_lowercase hex) else none

-- `SHA256 (<filename>) = <hex>`, behind its first parenthesis.
bsd_line : Text → Option (Text × Text)
bsd_line rest = elim (split_find b')' rest) [
  | none ↦ none
  | some (filename, close) ↦ elim (strip_prefix (codes ") = ") close) [
    | none ↦ none
    | some after ↦ pair_if_hex filename after
  ]
]

-- `rest.strip_prefix('*').unwrap_or(rest)`
unfoldable pub without_star : Text → Text
without_star [] = []
without_star (c ∷ s) = if c == b'*' then s else c ∷ s

abbrev gnu_parts : (Text × Option Text) → Option (Text × Text)
gnu_parts (hex, none) = none
gnu_parts (hex, some rest) = pair_if_hex (without_star (trim_start rest)) hex

gnu_line : Text → Option (Text × Text)
gnu_line line = gnu_parts (split_whitespace_once line)

unfoldable pub parse_sha256_line : Text → Option (Text × Text)
unfolding bsd_line gnu_line
parse_sha256_line untrimmed =
    let line = trim untrimmed in
    if is_empty line || is_prefix (codes "#") line
    then none
    else elim (strip_prefix (codes "SHA256 (") line) [
      | some rest ↦ bsd_line rest
      | none ↦ gnu_line line
    ]

unfoldable pub filter_map_lines : List Text → List (Text × Text)
filter_map_lines [] = []
filter_map_lines (l ∷ ls) =
    let rest = filter_map_lines ls in elim (parse_sha256_line l) [ none ↦ rest | some p ↦ p ∷ rest ]

unfoldable pub iter_sha256_lines : Text → List (Text × Text)
unfolding filter_map_lines
iter_sha256_lines sums_text = filter_map_lines (lines sums_text)

-- The loop of `find_iso_sha256`; the flag says that a line has been parsed.
unfoldable pub find_in : Bool → Text → List (Text × Text) → Outcome Text
find_in any_sha256 iso_filename [] =
    if any_sha256
    then err (FetchError.iso_not_in_sums iso_filename)
    else err FetchError.malformed_sums
find_in any_sha256 iso_filename ((name, hex) ∷ ps) =
    let rest = find_in true iso_filename ps in if text_eq name iso_filename then ok hex else rest

unfoldable pub find_iso_sha256 : Text → Text → Outcome Text
unfolding iter_sha256_lines find_in
find_iso_sha256 sums_text iso_filename = find_in false iso_filename (iter_sha256_lines sums_text)
