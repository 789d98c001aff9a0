-- ===== src/Fetch/Keyring/Pinned.antt =====
-- crates/aegis-fetch/src/keyring.rs: what the bundles of a loaded keyring have passed.
use aegis_boot.Prelude.{
  ℕ, ◌≡◌, ◌⊎◌, inl, inr, refl, true, some, List, [], ◌∷◌, map, Text, arith, Bool-cases, ◌==◌,
}
use mathlib.Core.Path.{subst}
use aegis_boot.Prelude.Words.{text_eq-eq}
use aegis_boot.Prelude.Answers.{value, Answer-cases}
use aegis_boot.Catalog.{Vendor}
use aegis_boot.Fetch.{ok, Outcome-cases}
use aegis_boot.Fetch.Verify.{Pgp}
use aegis_boot.Fetch.Keyring.{
  VendorKeyring, empty, place, find_vendor, cert_armor, has_text, difference, same_set, no_texts,
  pins_of, parse_primary_fingerprints, validate_armored_against_pin, load_bundles, embedded, insert,
}

has_text-difference :
    (t : Text) (xs ys : List Text)
    → no_texts (difference xs ys) ≡ true
    → has_text t xs ≡ true
    → has_text t ys ≡ true
unfolding has_text difference
has_text-difference t [] ys h k = cc
has_text-difference t (x ∷ xs) ys h k = ground (arith, text_eq-eq x t, has_text-difference t xs ys)

has_text-same_set :
    (t : Text) (xs ys : List Text) → same_set xs ys ≡ true → has_text t xs ≡ has_text t ys
unfolding same_set
has_text-same_set t xs ys h =
    ground (arith, has_text-difference t xs ys, has_text-difference t ys xs)

find_vendor-place :
    {A : Type 0} (v w : Vendor) (es : List (Vendor × A))
    → place w ≡ place v
    → find_vendor w es ≡ find_vendor v es
unfolding find_vendor
find_vendor-place v w [] h = refl
find_vendor-place v w ((u, a) ∷ es) h = ground (arith, find_vendor-place v w es)

module _ {Cert Envelope Signature : Type 0} (pgp : Pgp Cert Envelope Signature)
    (debug : List Text → Text) (pins : List (Vendor × List Text)) (t : Text) where
  -- The bundle's certificates parse, and `t` is the fingerprint of one exactly when it is a pin of the
  -- vendor, if the vendor has pins.
  abbrev pub IsPinned : Vendor → List ℕ → Type 0
  IsPinned v bytes =
      (certs : List Cert) × (pgp.armored_certs bytes ≡ value certs)
      × ((no_texts (pins_of (find_vendor v pins)) ≡ true)
          ⊎ (has_text t (map pgp.fingerprint certs) ≡ has_text t (pins_of (find_vendor v pins))))

  validated :
      (v : Vendor) (bytes : List ℕ) (u : Unit {0})
      → validate_armored_against_pin pgp debug pins v bytes ≡ ok u
      → IsPinned v bytes
  unfolding validate_armored_against_pin parse_primary_fingerprints
  validated v bytes u h = elim (Answer-cases (pgp.armored_certs bytes)) [
    | inr (e, p) ↦ absurd (ground (arith, p))
    | inl (certs, p) ↦
        let actual = map pgp.fingerprint certs in
        let expected = pins_of (find_vendor v pins) in
        elim (Bool-cases (no_texts expected)) [
          | inl q ↦ (certs, p, inl q)
          | inr q ↦ (certs, p, inr (has_text-same_set t actual expected (ground (arith, p, q, h))))
        ]
  ]

  abbrev AllPinned : List (Vendor × List ℕ) → Type 0
  AllPinned [] = Unit
  AllPinned ((v, bytes) ∷ es) = IsPinned v bytes × AllPinned es

  load_bundles-AllPinned :
      (bundles : List (Vendor × List ℕ)) (k k' : VendorKeyring)
      → AllPinned k.armored
      → load_bundles pgp debug pins bundles k ≡ ok k'
      → AllPinned k'.armored
  unfolding load_bundles
  load_bundles-AllPinned [] k k' a h = subst {A = VendorKeyring} (λ x. AllPinned x.armored) (cc h) a
  load_bundles-AllPinned ((v, bytes) ∷ rest) k k' a h =
      elim (Outcome-cases (validate_armored_against_pin pgp debug pins v bytes)) [
        | inr (e, p) ↦ absurd (ground (arith, p))
        | inl (u, p) ↦
            load_bundles-AllPinned rest (insert v bytes k) k' (validated v bytes u p, a)
              (ground (arith, p, h))
      ]

  found :
      (v : Vendor) (es : List (Vendor × List ℕ)) (bytes : List ℕ)
      → AllPinned es
      → find_vendor v es ≡ some bytes
      → IsPinned v bytes
  unfolding find_vendor
  found v [] bytes a h = cc
  found v ((w, x) ∷ es) bytes a h = elim (Bool-cases (place w == place v)) [
    | inr p ↦ found v es bytes a.1 (ground (arith, p, h))
    | inl p ↦
        let (certs, q, r) = a.0 in
        let e = find_vendor-place v w pins (ground (arith, p)) in
        (
          certs,
          ground (arith, p, h, q),
          elim r [ inl z ↦ inl (ground (arith, e, z)) | inr z ↦ inr (ground (arith, e, z)) ],
        )
  ]

  -- Of a keyring that loads, the certificates that it answers for a vendor parse, and where the vendor
  -- has pins, a text is the fingerprint of one of them exactly when it is a pin of that vendor.
  pub embedded-IsPinned :
      (bundles : List (Vendor × List ℕ)) (k : VendorKeyring) (v : Vendor) (bytes : List ℕ)
      → embedded pgp debug pins bundles ≡ ok k
      → cert_armor v k ≡ some bytes
      → IsPinned v bytes
  unfolding embedded cert_armor
  embedded-IsPinned bundles k v bytes h c =
      found v k.armored bytes (load_bundles-AllPinned bundles empty k tt h) c
