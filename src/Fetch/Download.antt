-- ===== src/Fetch/Download.antt =====
-- crates/aegis-fetch/src/download.rs: the download of an ISO into its partial file, with the resume of
-- an earlier one. What the HTTP client and the file system answer is an argument. A buffered writer's
-- bytes count as written: they reach the file when it is flushed or dropped.
pub mod Copied
pub mod Resumed
use aegis_boot.Prelude.{
  ℕ, ◌+◌, ◌-◌, ◌%◌, ◌^◌, min, Bool, Option, none, some, List, [], ◌∷◌, ◌++◌, Text, codes, length,
  decimal, unwrap_or, ltb, ◌==◌, if◌then◌else◌,
}
use aegis_boot.Prelude.Answers.{Answer, value, failure}
use aegis_boot.Prelude.Decimal.{trim, parse_u64}
use aegis_boot.Prelude.Parse.{last_segment}
use aegis_boot.Catalog.{FetchEvent}
use aegis_boot.Fetch.{FetchError, Outcome, ok, err}

-- The two files of a fetch, `none` where there is no file, and the events told to the caller.
pub record Disk : Type 0 where
  pub partial : Option (List ℕ)
  pub final : Option (List ℕ)
  pub events : List FetchEvent

-- A write of a chunk; one that fails has written some bytes.
pub data Write : Type 0 where
  written : Write
  short : (kept : List ℕ) (error : Text) → Write

-- A turn of the copying loop: the flag, what the read answers and what the write answers.
pub record Round : Type 0 where
  pub cancelled : Bool
  pub read : Answer (List ℕ)
  pub write : Write

-- A body as it comes: its turns, then the turn whose read is empty, and the error of the last flush.
pub record Body : Type 0 where
  pub rounds : List Round
  pub cancelled_at_end : Bool
  pub flush : Option Text

pub record Response : Type 0 where
  pub status : ℕ
  pub content_range : Option Text
  pub content_length : Option ℕ
  pub body : Body

-- What the outside answers in one fetch: `get` a request for a URL, from a byte on or for all of it;
-- `small` a request for a small body, then its reading; the errors of the file operations.
pub record Outside : Type 0 where
  pub get : (url : Text) (from : Option ℕ) → Answer Response
  pub small : (url : Text) → Answer (Answer (List ℕ))
  pub create_dir : Option Text
  pub create : Option Text
  pub append : Option Text
  pub remove : Option Text
  pub rename : Option Text

abbrev pub emit : FetchEvent → Disk → Disk
emit e d = record d { events = d.events ++ e ∷ [] }

abbrev pub appended : List ℕ → Disk → Disk
appended bytes d = record d { partial = some (unwrap_or [] d.partial ++ bytes) }

abbrev pub u64_max : ℕ
u64_max = 2 ^ 64 - 1

-- `written += n as u64`
abbrev add_u64 : ℕ → ℕ → ℕ
add_u64 a b = (a + b) % 2 ^ 64

abbrev pub saturating_add : ℕ → ℕ → ℕ
saturating_add a b = min (a + b) u64_max

downloading : ℕ → Option ℕ → FetchEvent
downloading bytes total = FetchEvent.downloading (record { bytes = bytes; total = total })

flushed : Text → Body → ℕ → Disk → Disk × Outcome ℕ
flushed dest b n d = elim b.flush [
  | none ↦ (d, ok n)
  | some e ↦ (d, err (FetchError.filesystem (codes "flush " ++ dest ++ codes ": " ++ e)))
]

-- The loop of both copies, which report a count by `report`.
unfoldable pub pump : (ℕ → ℕ) → Option ℕ → Text → Body → List Round → ℕ → Disk → Disk × Outcome ℕ
unfolding flushed downloading
pump report total dest b [] n d =
    if b.cancelled_at_end then (d, err FetchError.cancelled) else flushed dest b n d
pump report total dest b (r ∷ rs) n d =
    if r.cancelled then (d, err FetchError.cancelled) else elim r.read [
      | failure e ↦ (d, err (FetchError.network dest (codes "read body: " ++ e)))
      | value [] ↦ flushed dest b n d
      | value (c ∷ cs) ↦ elim r.write [
        | short kept e ↦ (
          appended kept d,
          err (FetchError.filesystem (codes "write " ++ dest ++ codes ": " ++ e)),
        )
        | written ↦
            pump report total dest b rs (add_u64 n (length (c ∷ cs))) (
              emit (downloading (report (add_u64 n (length (c ∷ cs)))) total) (appended (c ∷ cs) d))
      ]
    ]

unfoldable pub pump_to_writer : Option ℕ → Text → Body → Disk → Disk × Outcome ℕ
unfolding pump
pump_to_writer total dest b d = pump (λ n. n) total dest b b.rounds 0 d

unfoldable pub pump_to_writer_with_offset :
    Option ℕ → (offset : ℕ) → Text → Body → Disk → Disk × Outcome ℕ
unfolding pump
pump_to_writer_with_offset total offset dest b d =
    pump (saturating_add offset) total dest b b.rounds 0 d

pub data ResumeOutcome : Type 0 where
  resumed : ℕ → ResumeOutcome
  full_restart : ResumeOutcome

unfoldable pub parse_content_range_total : Response → Option ℕ
parse_content_range_total resp = elim resp.content_range [
  | none ↦ none
  | some v ↦ parse_u64 (trim (last_segment v))
]

abbrev longer_by : ℕ → Option ℕ → Option ℕ
longer_by existing none = none
longer_by existing (some cl) = some (saturating_add cl existing)

-- The range's total, or else the content's length behind the bytes that are there.
abbrev total_full : ℕ → Response → Option ℕ
total_full existing resp = elim (parse_content_range_total resp) [
  | none ↦ longer_by existing resp.content_length
  | some t ↦ some t
]

abbrev resumed_of : ℕ → (Disk × Outcome ℕ) → Disk × Outcome ResumeOutcome
resumed_of existing (d, ok n) = (d, ok (resumed (saturating_add existing n)))
resumed_of existing (d, err e) = (d, err e)

module _ (o : Outside) where
  resume_206 : Text → ℕ → Response → Disk → Disk × Outcome ResumeOutcome
  unfolding pump_to_writer_with_offset parse_content_range_total
  resume_206 dest existing resp d = elim o.append [
    | some e ↦
        (d, err (FetchError.filesystem (codes "open-for-append " ++ dest ++ codes ": " ++ e)))
    | none ↦
        resumed_of existing
          (pump_to_writer_with_offset (total_full existing resp) existing dest resp.body d)
  ]

  unfoldable pub try_resume : (url dest : Text) (existing : ℕ) → Disk → Disk × Outcome ResumeOutcome
  unfolding resume_206
  try_resume url dest existing d = elim (o.get url (some existing)) [
    | failure e ↦ (d, err (FetchError.network url (codes "range request failed: " ++ e)))
    | value resp ↦
        if resp.status == 200
        then (d, ok full_restart)
        else if resp.status == 206
        then resume_206 dest existing resp d
        else (
          d,
          err (
              FetchError.network url (codes "range request returned HTTP " ++ decimal resp.status)),
        )
  ]

  -- The request from byte 0; `File::create` truncates.
  fresh : (url dest : Text) → Disk → Disk × Outcome ℕ
  unfolding pump_to_writer
  fresh url dest d = elim (o.get url none) [
    | failure e ↦ (d, err (FetchError.network url e))
    | value resp ↦ elim o.create [
      | some e ↦ (d, err (FetchError.filesystem (codes "create " ++ dest ++ codes ": " ++ e)))
      | none ↦ pump_to_writer resp.content_length dest resp.body (record d { partial = some [] })
    ]
  ]

  abbrev after_resume : (url dest : Text) → (Disk × Outcome ResumeOutcome) → Disk × Outcome ℕ
  after_resume url dest (d, ok (resumed total)) = (d, ok total)
  after_resume url dest (d, ok full_restart) = fresh url dest d
  after_resume url dest (d, err e) = (d, err e)

  unfoldable pub download_to_file : (url dest : Text) → Disk → Disk × Outcome ℕ
  unfolding try_resume fresh
  download_to_file url dest before =
      let d = emit FetchEvent.connecting before in
      let existing = length (unwrap_or [] d.partial) in
      if ltb 0 existing
      then after_resume url dest (try_resume url dest existing d)
      else fresh url dest d

  unfoldable pub download_to_vec : Text → Outcome (List ℕ)
  download_to_vec url = elim (o.small url) [
    | failure e ↦ err (FetchError.network url e)
    | value (failure e) ↦ err (FetchError.network url (codes "read body: " ++ e))
    | value (value bytes) ↦ ok bytes
  ]
