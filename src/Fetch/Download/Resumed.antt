-- ===== src/Fetch/Download/Resumed.antt =====
-- crates/aegis-fetch/src/download.rs: a download that is cancelled, and the next one that resumes it.
use aegis_boot.Prelude.{ℕ, ◌≡◌, true, false, none, some, List, [], ◌∷◌, ◌++◌, Text}
use aegis_boot.Prelude.Answers.{value}
use aegis_boot.Fetch.Download.{Outside, written, Round, Response}

-- Turns that each read and write a chunk, which is not empty: its first byte and the others.
abbrev pub good : List (ℕ × List ℕ) → List Round → List Round
good [] tail = tail
good ((c, cs) ∷ xs) tail =
    record { cancelled = false; read = value (c ∷ cs); write = written } ∷ good xs tail

abbrev pub joined : List (ℕ × List ℕ) → List ℕ
joined [] = []
joined ((c, cs) ∷ xs) = c ∷ cs ++ joined xs

abbrev pub stopped : Round → List Round → List Round
stopped r rest = record r { cancelled = true } ∷ rest

-- A first download from nothing, cancelled behind the chunks `xs`.
pub record IsInterrupted (o : Outside) (url : Text) (xs : List (ℕ × List ℕ)) : Type 0 where
  pub resp : Response
  pub next : Round
  pub rest : List Round
  pub asked : o.get url none ≡ value resp
  pub created : o.create ≡ none
  pub comes : resp.body.rounds ≡ good xs (stopped next rest)

-- A server that sends the chunks `ys` behind `n` bytes.
pub record IsResumable (o : Outside) (url : Text) (n : ℕ) (ys : List (ℕ × List ℕ)) : Type 0 where
  pub resp : Response
  pub asked : o.get url (some n) ≡ value resp
  pub partial_content : resp.status ≡ 206
  pub opened : o.append ≡ none
  pub comes : resp.body.rounds ≡ good ys []
  pub not_cancelled : resp.body.cancelled_at_end ≡ false
  pub flushes : resp.body.flush ≡ none
