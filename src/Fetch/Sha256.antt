-- ===== src/Fetch/Sha256.antt =====
-- crates/aegis-fetch/src/sha256.rs: the streamed digest of a file. The hash function is the argument
-- `Hasher`, the file's reads are the argument `Reading`.
pub mod Streamed
use aegis_boot.Prelude.{
  ℕ, ◌+◌, ◌-◌, ◌/◌, ◌%◌, ◌^◌, suc, Bool, Option, none, some, List, [], ◌∷◌, ◌++◌, Text, codes,
  length, ltb, if◌then◌else◌,
}
use aegis_boot.Prelude.Answers.{Answer, value, failure}
use aegis_boot.Fetch.{FetchError, Outcome, ok, err}

pub record Hasher (State : Type 0) : Type 0 where
  pub new : State
  pub update : State → List ℕ → State
  pub finalize : State → List ℕ

-- `{b:02x}`
abbrev hex_digit : ℕ → ℕ
hex_digit n = if ltb n 10 then b'0' + n else b'a' + n - 10

unfoldable pub hex_lower : List ℕ → Text
hex_lower [] = []
hex_lower (b ∷ bs) = hex_digit (b / 16) ∷ hex_digit (b % 16) ∷ hex_lower bs

-- What hashing a file meets: the error of opening one that is missing, that of one that is there, the
-- flag at each turn of the loop, and the reads in which bytes come.
pub record Reading : Type 0 where
  pub missing : Text
  pub open_error : Option Text
  pub cancelled : ℕ → Bool
  pub reads : List ℕ → List (Answer (List ℕ))

abbrev pub read_error : Text → Text → FetchError
read_error path e = FetchError.filesystem (codes "read " ++ path ++ codes ": " ++ e)

module _ {State : Type 0} (sha : Hasher State) where
  -- The loop: `turn` counts the looks at the flag, `total` the bytes.
  unfoldable pub hash_reads :
      (Text → FetchError)
      → (ℕ → Bool)
      → ℕ
      → ℕ
      → State
      → List (Answer (List ℕ))
      → Outcome (List ℕ × ℕ)
  hash_reads failed cancelled turn total s [] =
      if cancelled turn then err FetchError.cancelled else ok (sha.finalize s, total)
  hash_reads failed cancelled turn total s (r ∷ rs) =
      if cancelled turn then err FetchError.cancelled else elim r [
        | failure e ↦ err (failed e)
        | value [] ↦ ok (sha.finalize s, total)
        | value (b ∷ bs) ↦
            hash_reads failed cancelled (suc turn) ((total + length (b ∷ bs)) % 2 ^ 64)
              (sha.update s (b ∷ bs)) rs
      ]

  abbrev in_hex : Outcome (List ℕ × ℕ) → Outcome (Text × ℕ)
  in_hex (ok (digest, total)) = ok (hex_lower digest, total)
  in_hex (err e) = err e

  abbrev unopened : Text → Text → Outcome (Text × ℕ)
  unopened path e =
      err (FetchError.filesystem (codes "open " ++ path ++ codes " for hashing: " ++ e))

  -- A file that is not there does not open.
  unfoldable pub hash_file : Reading → (path : Text) → Option (List ℕ) → Outcome (Text × ℕ)
  unfolding hash_reads hex_lower
  hash_file r path none = unopened path r.missing
  hash_file r path (some bytes) = elim r.open_error [
    | some e ↦ unopened path e
    | none ↦ in_hex (hash_reads (read_error path) r.cancelled 0 0 sha.new (r.reads bytes))
  ]
