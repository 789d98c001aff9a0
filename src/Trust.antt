-- ===== src/Trust.antt =====
-- crates/aegis-trust/src/{errors,anchor,seen_epoch}.rs: the trust anchor's check of a signed body and
-- the counter of the epochs that an install has seen. What minisign and the embedded files answer, and
-- what each file operation answers, are arguments.
pub mod Rollback
use aegis_boot.Prelude.{
  ℕ, ◌+◌, ◌≡◌, Bool, true, false, ◌||◌, Option, none, some, List, [], ◌∷◌, ◌++◌, Text, codes, ltb,
  ◌==◌, if◌then◌else◌, decimal,
}
use aegis_boot.Prelude.Decimal.{trim, parse_u32}
use aegis_boot.Prelude.Answers.{Answer, value, failure}

pub data TrustAnchorError : Type 0 where
  unsafe_default_epoch : TrustAnchorError
  epoch_below_binary_floor : (payload_epoch required : ℕ) → TrustAnchorError
  epoch_below_seen_floor : (payload_epoch seen_epoch : ℕ) → TrustAnchorError
  unknown_epoch : (payload_epoch : ℕ) → TrustAnchorError
  signature_invalid : (payload_epoch : ℕ) (detail : Text) → TrustAnchorError
  pubkey_parse_failure : (epoch : ℕ) (detail : Text) → TrustAnchorError
  anchors_parse_failure : Text → TrustAnchorError
  seen_epoch_io : Text → TrustAnchorError

pub data Outcome (A : Type 0) : Type 0 where
  ok : A → Outcome A
  err : TrustAnchorError → Outcome A

pub record EpochEntry : Type 0 where
  pub epoch : ℕ
  pub pubkey_file : Text
  pub pubkey_fingerprint : Text
  pub valid_from : Text
  pub expires_at : Option Text
  pub note : Text

pub record TrustAnchor : Type 0 where
  pub epochs : List EpochEntry
  pub min_required : ℕ

-- `serde_json::from_str` of the embedded list is the argument `parsed`.
unfoldable pub load_with_floor : Answer (List EpochEntry) → ℕ → Outcome TrustAnchor
load_with_floor parsed min_required =
    if min_required == 0 then err unsafe_default_epoch else elim parsed [
      | failure e ↦ err (anchors_parse_failure e)
      | value epochs ↦ ok (record { epochs = epochs; min_required = min_required })
    ]

-- `epochs.iter().find(|e| e.epoch == epoch)`
unfoldable pub find_epoch : ℕ → List EpochEntry → Option EpochEntry
find_epoch n [] = none
find_epoch n (e ∷ es) = let rest = find_epoch n es in if e.epoch == n then some e else rest

-- What the check asks of minisign: a public key from its text, a signature from its bytes (not UTF-8,
-- or no signature), and whether the signature is the key's on the body.
pub record Minisign (Key Signature : Type 0) : Type 0 where
  pub public_key : Text → Answer Key
  pub signature : List ℕ → Answer Signature
  pub verify : Key → Signature → List ℕ → Answer (Unit {0})

module _ {Key Signature : Type 0} (m : Minisign Key Signature) (embedded_epoch_1_pub : Text) where
  abbrev pubkey_for_epoch : ℕ → Option Text
  pubkey_for_epoch epoch = if epoch == 1 then some embedded_epoch_1_pub else none

  -- Past the floors and the list: the key, the signature and the body.
  signed_by : EpochEntry → Text → List ℕ → List ℕ → ℕ → Outcome EpochEntry
  signed_by entry pubkey_text body sig payload_epoch = elim (m.public_key pubkey_text) [
    | failure e ↦ err (pubkey_parse_failure payload_epoch e)
    | value pk ↦ elim (m.signature sig) [
      | failure e ↦ err (signature_invalid payload_epoch e)
      | value s ↦ elim (m.verify pk s body) [
        | failure e ↦ err (signature_invalid payload_epoch e)
        | value _ ↦ ok entry
      ]
    ]
  ]

  unfoldable pub verify_with_epoch :
      TrustAnchor → (body sig : List ℕ) (payload_epoch seen_epoch : ℕ) → Outcome EpochEntry
  unfolding signed_by
  verify_with_epoch anchor body sig payload_epoch seen_epoch =
      if ltb payload_epoch anchor.min_required
      then err (epoch_below_binary_floor payload_epoch anchor.min_required)
      else if ltb payload_epoch seen_epoch
      then err (epoch_below_seen_floor payload_epoch seen_epoch)
      else elim (find_epoch payload_epoch anchor.epochs) [
        | none ↦ err (unknown_epoch payload_epoch)
        | some entry ↦ elim (pubkey_for_epoch payload_epoch) [
          | none ↦ err (unknown_epoch payload_epoch)
          | some pubkey_text ↦ signed_by entry pubkey_text body sig payload_epoch
        ]
      ]

-- The state file: what reading it answers.
pub data SeenFile : Type 0 where
  missing : SeenFile
  contents : Text → SeenFile
  unreadable : Text → SeenFile

-- `{path}: parse {trimmed:?} as u32: {e}`, where the error's text is the argument.
unfoldable pub load_seen_epoch_from : (parse_error : Text → Text) → SeenFile → Outcome ℕ
load_seen_epoch_from parse_error missing = ok 0
load_seen_epoch_from parse_error (unreadable e) = err (seen_epoch_io e)
load_seen_epoch_from parse_error (contents body) = elim (parse_u32 (trim body)) [
  | none ↦ err (seen_epoch_io (parse_error (trim body)))
  | some epoch ↦ ok epoch
]

-- The first of the five file operations that fails, with its message: mkdir, create, write, fsync and
-- rename. Only a rename that succeeds changes the file that is read.
pub data StoreIo : Type 0 where
  done : StoreIo
  failed : Text → StoreIo

abbrev pub larger : ℕ → ℕ → ℕ
larger a b = if ltb a b then b else a

unfoldable pub store_over : StoreIo → SeenFile → ℕ → SeenFile × Outcome ℕ
store_over (failed e) file next = (file, err (seen_epoch_io e))
store_over done file next = (contents (decimal next ++ 10 ∷ []), ok next)

unfoldable pub store_seen_epoch_at :
    (parse_error : Text → Text) → StoreIo → SeenFile → ℕ → SeenFile × Outcome ℕ
unfolding store_over load_seen_epoch_from
store_seen_epoch_at parse_error io file new = elim (load_seen_epoch_from parse_error file) [
  | err e ↦ (file, err e)
  | ok current ↦ store_over io file (larger current new)
]
