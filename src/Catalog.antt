-- ===== src/Catalog.antt =====
-- crates/aegis-catalog-data/src/lib.rs and crates/aegis-fetch/src/lib.rs: a catalog entry, the
-- events of a fetch and its outcome. An entry's `resolver`, a function that only the fetch calls,
-- is left out.
use aegis_boot.Prelude.{ℕ, Option, Text}

pub data SbStatus : Type 0 where
  signed : Text → SbStatus
  unsigned_needs_mok unknown : SbStatus

pub data Category : Type 0 where
  desktop server installer rescue : Category

pub data SigPattern : Type 0 where
  clearsigned_sums detached_sig_on_sums detached_sig_on_iso : SigPattern

pub data Vendor : Type 0 where
  alma_linux alpine debian fedora gparted kali linux_mint manjaro : Vendor
  mx opensuse rocky system_rescue system76 ubuntu : Vendor

pub record Entry : Type 0 where
  pub slug : Text
  pub name : Text
  pub arch : Text
  pub size_mib : ℕ
  pub iso_url : Text
  pub sha256_url : Text
  pub sig_url : Text
  pub sb : SbStatus
  pub purpose : Text
  pub category : Category
  pub vendor : Vendor
  pub verify : SigPattern

pub record FetchProgress : Type 0 where
  pub bytes : ℕ
  pub total : Option ℕ

pub record FetchOutcome : Type 0 where
  pub iso_path : Text
  pub bytes : ℕ
  pub sha256_hex : Text
  pub vendor : Vendor
  pub key_fingerprint : Text

pub data FetchEvent : Type 0 where
  connecting : FetchEvent
  downloading : FetchProgress → FetchEvent
  verifying_hash verifying_sig : FetchEvent
  done : FetchOutcome → FetchEvent
