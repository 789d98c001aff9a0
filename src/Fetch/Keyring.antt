-- ===== src/Fetch/Keyring.antt =====
-- crates/aegis-fetch/src/keyring.rs: the vendors' certificates, loaded from the embedded bundles and
-- checked against the pinned fingerprints. The hash map is a list whose first entry for a vendor
-- counts, and a set of fingerprints is a list read as one. The bundles and the pins, which the build
-- embeds, are arguments, and so is the OpenPGP library.
pub mod Pinned
use aegis_boot.Prelude.{
  ℕ, Bool, true, false, ◌&&◌, ◌||◌, Option, none, some, List, [], ◌∷◌, ◌++◌, map, Text, codes,
  text_eq, filter_by, not, is_empty, ◌==◌, if◌then◌else◌,
}
use aegis_boot.Prelude.Answers.{Answer, value, failure}
use aegis_boot.Catalog.{Vendor}
use aegis_boot.Fetch.{FetchError, Outcome, ok, err, ◌>>=◌}
use aegis_boot.Fetch.Verify.{Pgp}

unfoldable pub slug : Vendor → Text
slug Vendor.alma_linux = codes "almalinux"
slug Vendor.alpine = codes "alpine"
slug Vendor.debian = codes "debian"
slug Vendor.fedora = codes "fedora"
slug Vendor.gparted = codes "gparted"
slug Vendor.kali = codes "kali"
slug Vendor.linux_mint = codes "linuxmint"
slug Vendor.manjaro = codes "manjaro"
slug Vendor.mx = codes "mx"
slug Vendor.opensuse = codes "opensuse"
slug Vendor.rocky = codes "rocky"
slug Vendor.system_rescue = codes "system-rescue"
slug Vendor.system76 = codes "system76"
slug Vendor.ubuntu = codes "ubuntu"

-- The place of a vendor in the enum, by which its derived equality goes.
abbrev pub place : Vendor → ℕ
place Vendor.alma_linux = 0
place Vendor.alpine = 1
place Vendor.debian = 2
place Vendor.fedora = 3
place Vendor.gparted = 4
place Vendor.kali = 5
place Vendor.linux_mint = 6
place Vendor.manjaro = 7
place Vendor.mx = 8
place Vendor.opensuse = 9
place Vendor.rocky = 10
place Vendor.system_rescue = 11
place Vendor.system76 = 12
place Vendor.ubuntu = 13

pub record VendorKeyring : Type 0 where
  pub armored : List (Vendor × List ℕ)

abbrev pub empty : VendorKeyring
empty = record { armored = [] }

-- The first value of a vendor.
unfoldable pub find_vendor : {A : Type 0} → Vendor → List (Vendor × A) → Option A
find_vendor v [] = none
find_vendor v ((w, a) ∷ es) =
    let rest = find_vendor v es in if place w == place v then some a else rest

unfoldable pub cert_armor : Vendor → VendorKeyring → Option (List ℕ)
unfolding find_vendor
cert_armor v k = find_vendor v k.armored

abbrev insert : Vendor → List ℕ → VendorKeyring → VendorKeyring
insert v bytes k = record { armored = (v, bytes) ∷ k.armored }

unfoldable pub has_text : Text → List Text → Bool
has_text t [] = false
has_text t (x ∷ xs) = text_eq x t || has_text t xs

-- `a.difference(&b)`
unfoldable pub difference : List Text → List Text → List Text
unfolding has_text
difference xs ys = filter_by (λ x. not (has_text x ys)) xs

abbrev pub no_texts : List Text → Bool
no_texts [] = true
no_texts (_ ∷ _) = false

-- Each set has the other's texts.
unfoldable pub same_set : List Text → List Text → Bool
unfolding difference
same_set xs ys = no_texts (difference xs ys) && no_texts (difference ys xs)

abbrev pub pins_of : Option (List Text) → List Text
pins_of none = []
pins_of (some fps) = fps

-- The file that an error names: `keyring/<slug>.asc`.
abbrev asc_of : Text → Text
asc_of s = codes "keyring/" ++ s ++ codes ".asc"

-- `{:?}` of a list of texts is the argument `debug`.
module _ {Cert Envelope Signature : Type 0} (pgp : Pgp Cert Envelope Signature)
    (debug : List Text → Text) (pins : List (Vendor × List Text)) where
  unfoldable pub parse_primary_fingerprints : List ℕ → Text → Outcome (List Text)
  parse_primary_fingerprints bytes slug_text = elim (pgp.armored_certs bytes) [
    | failure e ↦ err (FetchError.signature_verify_failed (asc_of slug_text) (codes "parse: " ++ e))
    | value certs ↦ ok (map pgp.fingerprint certs)
  ]

  abbrev mismatch : Vendor → List Text → List Text → FetchError
  mismatch vendor actual expected = FetchError.signature_verify_failed (asc_of (slug vendor)) (
      codes "fingerprint pin mismatch — missing "
      ++ debug (difference expected actual)
      ++ codes ", extra "
      ++ debug (difference actual expected))

  abbrev check_pin : Vendor → List Text → List Text → Outcome (Unit {0})
  check_pin vendor actual expected =
      if no_texts expected
      then ok tt
      else if same_set actual expected
      then ok tt
      else err (mismatch vendor actual expected)

  unfoldable pub validate_armored_against_pin : Vendor → List ℕ → Outcome (Unit {0})
  unfolding parse_primary_fingerprints find_vendor slug same_set
  validate_armored_against_pin vendor bytes = do
    actual ← parse_primary_fingerprints bytes (slug vendor)
    check_pin vendor actual (pins_of (find_vendor vendor pins))

  -- The loop of `embedded` over the bundles.
  unfoldable pub load_bundles : List (Vendor × List ℕ) → VendorKeyring → Outcome VendorKeyring
  load_bundles [] k = ok k
  load_bundles ((vendor, bytes) ∷ rest) k = elim (validate_armored_against_pin vendor bytes) [
    | err e ↦ err e
    | ok _ ↦ load_bundles rest (insert vendor bytes k)
  ]

  unfoldable pub embedded : List (Vendor × List ℕ) → Outcome VendorKeyring
  unfolding load_bundles
  embedded bundles = load_bundles bundles empty

-- What reading a bundle's file answers.
pub data BundleFile : Type 0 where
  bundle : List ℕ → BundleFile
  not_found : BundleFile
  unreadable : (detail : Text) → BundleFile

-- `Vendor::all`
abbrev pub all : List Vendor
all =
    Vendor.alma_linux ∷ Vendor.alpine ∷ Vendor.debian ∷ Vendor.fedora ∷ Vendor.gparted ∷ Vendor.kali
    ∷ Vendor.linux_mint ∷ Vendor.manjaro ∷ Vendor.mx ∷ Vendor.opensuse ∷ Vendor.rocky
    ∷ Vendor.system_rescue ∷ Vendor.system76 ∷ Vendor.ubuntu ∷ []

unfoldable pub load_dir : (Text → BundleFile) → List Vendor → VendorKeyring → Outcome VendorKeyring
load_dir read [] k = ok k
load_dir read (v ∷ vs) k = elim (read (slug v ++ codes ".asc")) [
  | bundle bytes ↦ load_dir read vs (insert v bytes k)
  | not_found ↦ load_dir read vs k
  | unreadable detail ↦ err (FetchError.filesystem (codes "read " ++ detail))
]

unfoldable pub from_dir : (Text → BundleFile) → Outcome VendorKeyring
unfolding load_dir slug
from_dir read = load_dir read all empty
