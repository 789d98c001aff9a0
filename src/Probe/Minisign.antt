-- ===== src/Probe/Minisign.antt =====
-- crates/iso-probe/src/minisign.rs: the verdict on an ISO's detached signature, under the keys of
-- `AEGIS_TRUSTED_KEYS`. What minisign and the file system answer is the argument `Host`.
pub mod Trusted
use aegis_boot.Prelude.{
  ℕ, Bool, true, false, ◌&&◌, Option, none, some, List, [], ◌∷◌, ◌++◌, Text, codes, text_eq,
  file_name, length, take, leb, ◌==◌, if◌then◌else◌,
}
use Prim.Native.Nat.{bit_and}
use aegis_boot.Prelude.Answers.{Answer, value, failure}
use aegis_boot.Prelude.Decimal.{trim}
use aegis_boot.Iso.{SignatureVerification}
use aegis_boot.Parser.Scan.{extension}
use aegis_boot.Probe.{sidecar_path}

-- What the check of a signature under a key answers; `invalid_signature` is that of the key that the
-- signature names.
pub data Check : Type 0 where
  accepted invalid_signature other_error : Check

pub record Host (Key Signature : Type 0) : Type 0 where
  pub trusted_keys_var : Option Text
  pub is_dir : Text → Bool
  pub is_file : Text → Bool
  pub mode : Text → Option ℕ
  pub children : Text → Option (List Text)
  pub read_to_string : Text → Option Text
  pub read : Text → Answer (List ℕ)
  pub decode_key : Text → Option Key
  pub decode_signature : Text → Answer Signature
  pub trusted_comment : Signature → Text
  pub verify : Key → List ℕ → Signature → Check

-- `split(':')`
unfoldable pub split_colon : Text → List Text
split_colon [] = [] ∷ []
split_colon (c ∷ s) = elim (split_colon s) [
  | [] ↦ (c ∷ []) ∷ []
  | p ∷ ps ↦ if c == b':' then [] ∷ p ∷ ps else (c ∷ p) ∷ ps
]

unfoldable pub has_pub_extension : Text → Bool
unfolding file_name extension text_eq
has_pub_extension path = elim (file_name path) [
  | none ↦ false
  | some name ↦ elim (extension name) [ none ↦ false | some ext ↦ text_eq ext (codes "pub") ]
]

module _ {Key Signature : Type 0} (host : Host Key Signature) where
  -- Neither the group nor the world may write: `mode & 0o022 == 0`.
  unfoldable pub is_path_safely_owned : Text → Bool
  is_path_safely_owned path = elim (host.mode path) [ none ↦ false | some m ↦ bit_and m 18 == 0 ]

  -- The key of a file, if it is let in, beside the file's path.
  unfoldable pub load_key_into : Text → List (Key × Text)
  unfolding is_path_safely_owned
  load_key_into path =
      if is_path_safely_owned path
      then elim (host.read_to_string path) [
        | none ↦ []
        | some text ↦ elim (host.decode_key (trim text)) [ none ↦ [] | some k ↦ (k, path) ∷ [] ]
      ]
      else []

  -- The loop over a directory's files.
  load_children : List Text → List (Key × Text)
  unfolding load_key_into has_pub_extension
  load_children [] = []
  load_children (p ∷ ps) =
      let rest = load_children ps in if has_pub_extension p then load_key_into p ++ rest else rest

  load_dir : Text → List (Key × Text)
  unfolding load_children is_path_safely_owned
  load_dir path =
      if is_path_safely_owned path
      then elim (host.children path) [ none ↦ [] | some ps ↦ load_children ps ]
      else []

  load_entry : Text → List (Key × Text)
  unfolding load_dir load_key_into
  load_entry [] = []
  load_entry (c ∷ s) =
      if host.is_dir (c ∷ s)
      then load_dir (c ∷ s)
      else if host.is_file (c ∷ s)
      then load_key_into (c ∷ s)
      else []

  load_entries : List Text → List (Key × Text)
  unfolding load_entry
  load_entries [] = []
  load_entries (e ∷ es) = load_entry e ++ load_entries es

  unfoldable pub load_trusted_keys : List (Key × Text)
  unfolding load_entries split_colon
  load_trusted_keys = elim host.trusted_keys_var [
    | none ↦ []
    | some var ↦ load_entries (split_colon var)
  ]

  -- At most 40 characters of the trusted comment.
  unfoldable pub key_id_from_sig : Signature → Text
  key_id_from_sig sig =
      let comment = host.trusted_comment sig in
      if leb (length comment) 40 then comment else take 40 comment ++ codes "…"

  abbrev verdict_of : (sig_path : Text) → Signature → Bool → SignatureVerification
  verdict_of sig_path sig saw_forgery =
      if saw_forgery
      then SignatureVerification.forged sig_path
      else SignatureVerification.key_not_trusted (key_id_from_sig sig)

  -- The loop over the trusted keys; the flag says that a key has found the signature invalid.
  unfoldable pub try_keys :
      (sig_path : Text) → Signature → List ℕ → Bool → List (Key × Text) → SignatureVerification
  unfolding key_id_from_sig
  try_keys sig_path sig bytes saw_forgery [] = verdict_of sig_path sig saw_forgery
  try_keys sig_path sig bytes saw_forgery ((key, source) ∷ keys) =
      elim (host.verify key bytes sig) [
        | accepted ↦ SignatureVerification.verified (key_id_from_sig sig) source
        | invalid_signature ↦ try_keys sig_path sig bytes true keys
        | other_error ↦ try_keys sig_path sig bytes saw_forgery keys
      ]

  unfoldable pub verify_iso_signature : (iso_path : Text) → SignatureVerification
  unfolding try_keys load_trusted_keys sidecar_path
  verify_iso_signature iso_path =
      let sig_path = sidecar_path (codes "minisig") iso_path in
      elim (host.read_to_string sig_path) [
        | none ↦ SignatureVerification.not_present
        | some text ↦ elim (host.decode_signature text) [
          | failure e ↦ SignatureVerification.error (codes "sig parse failed: " ++ e)
          | value sig ↦ elim (host.read iso_path) [
            | failure e ↦ SignatureVerification.error (codes "ISO read failed: " ++ e)
            | value bytes ↦ try_keys sig_path sig bytes false load_trusted_keys
          ]
        ]
      ]
