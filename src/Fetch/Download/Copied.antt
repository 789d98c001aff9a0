-- ===== src/Fetch/Download/Copied.antt =====
-- crates/aegis-fetch/src/download.rs: what the copying loop leaves on the disk and answers.
use aegis_boot.Prelude.{
  ℕ, ◌≡◌, inl, inr, Bool, true, false, Option, none, some, List, [], ◌∷◌, Text, arith, length,
  unwrap_or,
}
use aegis_boot.Prelude.Answers.{Answer-cases}
use aegis_boot.Catalog.{FetchEvent}
use aegis_boot.Fetch.{FetchError, Outcome, ok, err}
use aegis_boot.Fetch.Download.{
  Disk, Outside, Round, Body, Response, ResumeOutcome, pump, pump_to_writer,
  pump_to_writer_with_offset, try_resume, resume_206, fresh, download_to_file, downloading, flushed,
  appended, emit, add_u64, saturating_add, total_full, after_resume,
}

-- The errors that a download may end in.
abbrev pub is_transport : FetchError → Bool
is_transport (FetchError.network _ _) = true
is_transport (FetchError.filesystem _) = true
is_transport FetchError.cancelled = true
is_transport _ = false

abbrev pub ok_or_transport : {A : Type 0} → Outcome A → Bool
ok_or_transport (ok _) = true
ok_or_transport (err e) = is_transport e

-- What every way through a download keeps: the final file; and an error is one of the transport.
abbrev Keeps : {A : Type 0} → Disk → Disk × Outcome A → Type 0
Keeps d x = (x.0.final ≡ d.final) × (ok_or_transport x.1 ≡ true)

flushed-Keeps : (dest : Text) (b : Body) (n : ℕ) (d : Disk) → Keeps d (flushed dest b n d)
unfolding flushed
flushed-Keeps dest b n d = ground arith

pump-Keeps :
    (report : ℕ → ℕ) (total : Option ℕ) (dest : Text) (b : Body) (rs : List Round) (n : ℕ)
    (d : Disk)
    → Keeps d (pump report total dest b rs n d)
unfolding pump
pump-Keeps report total dest b [] n d = ground (arith, flushed-Keeps dest b n d)
pump-Keeps report total dest b (r ∷ rs) n d = elim (Answer-cases r.read) [
  | inr (e, p) ↦ ground (arith, p)
  | inl ([], p) ↦ ground (arith, p, flushed-Keeps dest b n d)
  | inl (c ∷ cs, p) ↦
      let m = add_u64 n (length (c ∷ cs)) in
      ground (
        arith,
        p,
        pump-Keeps report total dest b rs m
            (emit (downloading (report m) total) (appended (c ∷ cs) d)),
      )
]

fresh-Keeps : (o : Outside) (url dest : Text) (d : Disk) → Keeps d (fresh o url dest d)
unfolding fresh pump_to_writer
fresh-Keeps o url dest d = elim (Answer-cases (o.get url none)) [
  | inr (e, p) ↦ ground (arith, p)
  | inl (resp, p) ↦ ground (
    arith,
    p,
    pump-Keeps (λ (n : ℕ). n) resp.content_length dest resp.body resp.body.rounds 0
        (record d { partial = some [] }),
  )
]

resume_206-Keeps :
    (o : Outside) (dest : Text) (n : ℕ) (resp : Response) (d : Disk)
    → Keeps d (resume_206 o dest n resp d)
unfolding resume_206 pump_to_writer_with_offset
resume_206-Keeps o dest n resp d =
    ground
      (arith, pump-Keeps (saturating_add n) (total_full n resp) dest resp.body resp.body.rounds 0 d)

try_resume-Keeps :
    (o : Outside) (url dest : Text) (n : ℕ) (d : Disk) → Keeps d (try_resume o url dest n d)
unfolding try_resume
try_resume-Keeps o url dest n d = elim (Answer-cases (o.get url (some n))) [
  | inr (e, p) ↦ ground (arith, p)
  | inl (resp, p) ↦ ground (arith, p, resume_206-Keeps o dest n resp d)
]

after_resume-Keeps :
    (o : Outside) (url dest : Text) (d : Disk) (x : Disk × Outcome ResumeOutcome)
    → Keeps d x
    → Keeps d (after_resume o url dest x)
after_resume-Keeps o url dest d (d', ok (ResumeOutcome.resumed n)) h = ground arith
after_resume-Keeps o url dest d (d', ok ResumeOutcome.full_restart) h =
    ground (arith, fresh-Keeps o url dest d')
after_resume-Keeps o url dest d (d', err e) h = ground arith

pub download_to_file-Keeps :
    (o : Outside) (url dest : Text) (d : Disk)
    → ((download_to_file o url dest d).0.final ≡ d.final)
      × (ok_or_transport (download_to_file o url dest d).1 ≡ true)
unfolding download_to_file
download_to_file-Keeps o url dest d =
    let e = emit FetchEvent.connecting d in
    let n = length (unwrap_or [] d.partial) in
    ground (
      arith,
      fresh-Keeps o url dest e,
      after_resume-Keeps o url dest e (try_resume o url dest n e) (try_resume-Keeps o url dest n e),
    )
