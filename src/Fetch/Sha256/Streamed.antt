-- ===== src/Fetch/Sha256/Streamed.antt =====
-- crates/aegis-fetch/src/sha256.rs: the streamed digest beside the digest of the whole file.
use aegis_boot.Prelude.{
  ℕ, suc, ◌+◌, ◌%◌, ◌^◌, ◌≡◌, inl, inr, refl, Bool, Option, none, some, List, [], ◌∷◌, ◌++◌, Text,
  length, arith, Option-cases,
}
use aegis_boot.Prelude.Answers.{Answer, value, failure}
use aegis_boot.Fetch.{FetchError, Outcome, ok, Outcome-cases}
use aegis_boot.Fetch.Sha256.{Hasher, Reading, hash_reads, hash_file, hex_lower, read_error}

-- What is relied on of a streaming hash: feeding it in parts is feeding it the whole.
pub record IsStreaming {State : Type 0} (sha : Hasher State) : Type 0 where
  pub update_nil : (s : State) → sha.update s [] ≡ s
  pub update_append :
      (s : State) (a b : List ℕ) → sha.update (sha.update s a) b ≡ sha.update s (a ++ b)

abbrev pub after : List ℕ → Option (List ℕ) → Option (List ℕ)
after bytes none = none
after bytes (some rest) = some (bytes ++ rest)

-- What the reads yield up to the end of the file, `none` if one fails.
abbrev pub read_all : List (Answer (List ℕ)) → Option (List ℕ)
read_all [] = some []
read_all (failure e ∷ rs) = none
read_all (value [] ∷ rs) = some []
read_all (value (b ∷ bs) ∷ rs) = after (b ∷ bs) (read_all rs)

-- What is relied on of a file: its reads, if none fails, yield its bytes.
abbrev pub ReadsFile : Reading → Type 0
ReadsFile r = (bytes x : List ℕ) → read_all (r.reads bytes) ≡ some x → x ≡ bytes

-- The digest of bytes at once, in lower-case hexadecimal.
abbrev pub digest : {State : Type 0} → Hasher State → List ℕ → Text
digest sha bytes = hex_lower (sha.finalize (sha.update sha.new bytes))

module _ {State : Type 0} (sha : Hasher State) (laws : IsStreaming sha) where
  hash_reads-finalize :
      (failed : Text → FetchError) (cancelled : ℕ → Bool) (turn total n : ℕ) (s : State)
      (rs : List (Answer (List ℕ))) (d : List ℕ)
      → hash_reads sha failed cancelled turn total s rs ≡ ok (d, n)
      → (bytes : List ℕ) × (read_all rs ≡ some bytes) × (d ≡ sha.finalize (sha.update s bytes))
  unfolding hash_reads
  hash_reads-finalize failed cancelled turn total n s [] d h =
      ([], refl, ground (arith, laws.update_nil s))
  hash_reads-finalize failed cancelled turn total n s (failure e ∷ rs) d h = absurd (ground arith)
  hash_reads-finalize failed cancelled turn total n s (value [] ∷ rs) d h =
      ([], refl, ground (arith, laws.update_nil s))
  hash_reads-finalize failed cancelled turn total n s (value (b ∷ bs) ∷ rs) d h =
      let (bytes, p, q) =
        hash_reads-finalize failed cancelled (suc turn) ((total + length (b ∷ bs)) % 2 ^ 64) n
          (sha.update s (b ∷ bs)) rs d (ground (arith, h)) in
      (b ∷ bs ++ bytes, rw p, ground (arith, q, laws.update_append s (b ∷ bs) bytes))

  abbrev hashing : Reading → Text → List ℕ → Outcome (List ℕ × ℕ)
  hashing r path bytes = hash_reads sha (read_error path) r.cancelled 0 0 sha.new (r.reads bytes)

  -- A file that hashes is there, and its hash is the digest of its bytes.
  pub hash_file-digest :
      (r : Reading) (path : Text) (file : Option (List ℕ)) (hex : Text) (n : ℕ)
      → ReadsFile r
      → hash_file sha r path file ≡ ok (hex, n)
      → (bytes : List ℕ) × (file ≡ some bytes) × (hex ≡ digest sha bytes)
  unfolding hash_file
  hash_file-digest r path none hex n law h = absurd (ground arith)
  hash_file-digest r path (some bytes) hex n law h = elim (Option-cases r.open_error) [
    | inr (e, o) ↦ absurd (ground (arith, o))
    | inl o ↦ elim (Outcome-cases (hashing r path bytes)) [
      | inr (e, p) ↦ absurd (ground (arith, o, p))
      | inl ((d, m), p) ↦
          let (x, q, f) =
            hash_reads-finalize (read_error path) r.cancelled 0 0 m sha.new (r.reads bytes) d p in
          (bytes, refl, ground (arith, o, p, f, law bytes x q))
    ]
  ]
