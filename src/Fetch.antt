-- ===== src/Fetch.antt =====
-- crates/aegis-fetch/src/lib.rs: the errors of a fetch and its results.
pub mod Sums
pub mod Download
pub mod Verify
pub mod Sha256
pub mod Keyring
pub mod Entry
use aegis_boot.Prelude.{Text, ◌⊎◌, inl, inr, ◌≡◌, refl}
use aegis_boot.Catalog.{Vendor}

pub data FetchError : Type 0 where
  network : (url detail : Text) → FetchError
  filesystem : (detail : Text) → FetchError
  sha256_mismatch : (expected actual iso : Text) → FetchError
  signature_verify_failed : (entry detail : Text) → FetchError
  unknown_vendor : Vendor → FetchError
  iso_not_in_sums : (iso : Text) → FetchError
  malformed_sums not_clearsigned cancelled : FetchError

pub data Outcome (A : Type 0) : Type 0 where
  ok : A → Outcome A
  err : FetchError → Outcome A

infixl 5 ◌>>=◌
abbrev pub ◌>>=◌ : {A B : Type 0} → Outcome A → (A → Outcome B) → Outcome B
ok a >>= f = f a
err e >>= f = err e

pub Outcome-cases :
    {A : Type 0} (r : Outcome A) → ((a : A) × (r ≡ ok a)) ⊎ ((e : FetchError) × (r ≡ err e))
Outcome-cases (ok a) = inl (a, refl)
Outcome-cases (err e) = inr (e, refl)
