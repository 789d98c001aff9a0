-- ===== src/Parser/Names.antt =====
-- crates/iso-parser/src/lib.rs: the friendly name of a mounted ISO from its release files.
use aegis_boot.Prelude.{
  ℕ, Bool, ◌||◌, ◌&&◌, Option, none, some, List, [], ◌∷◌, ◌++◌, Text, codes, is_empty, ◌==◌,
  if◌then◌else◌,
}
use aegis_boot.Prelude.Decimal.{trim}
use aegis_boot.Prelude.Parse.{lines, strip_prefix}
use aegis_boot.Parser.{FilePath, normal, IsoEnvironment}

abbrev is_quote : ℕ → Bool
is_quote c = c == b'"' || c == b'\''

-- `trim_start_matches` and `trim_end_matches` of a test on characters.
unfoldable pub drop_start : (ℕ → Bool) → Text → Text
drop_start p [] = []
drop_start p (c ∷ s) = let rest = drop_start p s in if p c then rest else c ∷ s

unfoldable pub drop_end : (ℕ → Bool) → Text → Text
drop_end p [] = []
drop_end p (c ∷ s) = let rest = drop_end p s in if p c && is_empty rest then [] else c ∷ rest

-- `trim_matches`
unquoted : Text → Text
unfolding drop_start drop_end
unquoted s = drop_end is_quote (drop_start is_quote s)

abbrev none_if_empty : Text → Option Text
none_if_empty [] = none
none_if_empty (c ∷ s) = some (c ∷ s)

name_in : List Text → Option Text
name_in [] = none
name_in (l ∷ ls) =
    let rest = name_in ls in
    elim (strip_prefix (codes "PRETTY_NAME=") l) [
      | none ↦ rest
      | some value ↦ none_if_empty (unquoted (trim value))
    ]

unfoldable pub parse_os_release_pretty_name : Text → Option Text
unfolding name_in unquoted
parse_os_release_pretty_name content = name_in (lines content)

first_nonempty : List Text → Option Text
first_nonempty [] = none
first_nonempty (l ∷ ls) =
    let rest = first_nonempty ls in if is_empty (trim l) then rest else some (trim l)

module _ (env : IsoEnvironment) where
  read_os_release : FilePath → Option Text
  read_os_release path = elim (env.read_to_string path) [
    | none ↦ none
    | some content ↦ parse_os_release_pretty_name content
  ]

  read_first_nonempty_line : FilePath → Option Text
  unfolding first_nonempty
  read_first_nonempty_line path = elim (env.read_to_string path) [
    | none ↦ none
    | some content ↦ first_nonempty (lines content)
  ]

  abbrev or_else : Option Text → Option Text → Option Text
  or_else none b = b
  or_else (some a) b = some a

  abbrev as_alpine : Option Text → Option Text
  as_alpine none = none
  as_alpine (some version) = some (codes "Alpine Linux " ++ version)

  abbrev file : FilePath → Text → Text → FilePath
  file mount_point dir name = mount_point ++ normal dir ∷ normal name ∷ []

  unfoldable pub read_pretty_name : FilePath → Option Text
  unfolding read_os_release read_first_nonempty_line
  read_pretty_name mount_point =
      or_else (read_os_release (file mount_point (codes "etc") (codes "os-release"))) (
        or_else (read_os_release (file mount_point (codes "lib") (codes "os-release"))) (
          or_else
            (read_os_release (
              mount_point
              ++ normal (codes "usr") ∷ normal (codes "lib") ∷ normal (codes "os-release") ∷ []))
            (or_else (read_first_nonempty_line (file mount_point (codes ".disk") (codes "info"))) (
              as_alpine (
                read_first_nonempty_line
                  (file mount_point (codes "etc") (codes "alpine-release")))))))
