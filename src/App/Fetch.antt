-- ===== src/App/Fetch.antt =====
-- crates/rescue-tui/src/state.rs: the catalog overlay and the life of a fetch on its confirm screen.
pub mod Lock
use aegis_boot.Prelude.{
  ℕ, Bool, true, false, Option, none, some, List, Text, ℤ, length, get_elem?, if◌then◌else◌,
}
use aegis_boot.Catalog.{Entry, FetchEvent, FetchOutcome}
use aegis_boot.Rate
use aegis_boot.Rate.{DownloadRateTracker}
use aegis_boot.Screen.{Screen, CatalogOp}
use aegis_boot.App.{AppState}
use aegis_boot.App.Overlay.{Outcome, ok, err, clamped}

unfoldable pub enter_catalog : List Entry → AppState → AppState
enter_catalog entries s = elim s.screen [
  | Screen.catalog _ _ _ _ ↦ s
  | _ ↦ record s { screen = Screen.catalog entries 0 0 s.screen }
]

unfoldable pub cancel_catalog : AppState → AppState
cancel_catalog s = elim s.screen [
  | Screen.catalog entries selected scroll prior ↦ record s { screen = prior }
  | _ ↦ record s { screen = Screen.quitting }
]

unfoldable pub catalog_move_selection : ℤ → AppState → AppState
catalog_move_selection delta s = elim s.screen [
  | Screen.catalog entries selected scroll prior ↦ record s {
    screen = Screen.catalog entries (clamped delta (length entries) selected) scroll prior;
  }
  | _ ↦ s
]

abbrev open_on : ℕ → AppState → Option Entry → AppState × Option Entry
open_on free_bytes s none = (s, none)
open_on free_bytes s (some entry) = (
  record s { screen = Screen.catalog_confirm entry free_bytes CatalogOp.idle s.screen },
  some entry,
)

unfoldable pub catalog_open_confirm : ℕ → AppState → AppState × Option Entry
catalog_open_confirm free_bytes s = elim s.screen [
  | Screen.catalog entries selected scroll prior ↦ open_on free_bytes s (get_elem? entries selected)
  | _ ↦ (s, none)
]

-- `CatalogOp::Idle | CatalogOp::Success(_) | CatalogOp::Failed(_)`
abbrev pub is_settled : CatalogOp → Bool
is_settled CatalogOp.idle = true
is_settled (CatalogOp.success _) = true
is_settled (CatalogOp.failed _) = true
is_settled _ = false

abbrev is_final : CatalogOp → Bool
is_final (CatalogOp.success _) = true
is_final (CatalogOp.failed _) = true
is_final _ = false

unfoldable pub catalog_cancel_confirm : AppState → AppState × Bool
catalog_cancel_confirm s = elim s.screen [
  | Screen.catalog_confirm entry free_bytes op prior ↦
      if is_settled op then (record s { screen = prior }, true) else (s, false)
  | _ ↦ (s, false)
]

unfoldable pub catalog_begin_fetch : AppState → AppState × Option Entry
catalog_begin_fetch s = elim s.screen [
  | Screen.catalog_confirm entry free_bytes op prior ↦
      if is_settled op
      then (
        record s { screen = Screen.catalog_confirm entry free_bytes CatalogOp.connecting prior },
        some entry,
      )
      else (s, none)
  | _ ↦ (s, none)
]

unfoldable pub catalog_block_for_disk_space : Text → AppState → AppState × Bool
catalog_block_for_disk_space message s = elim s.screen [
  | Screen.catalog_confirm entry free_bytes op prior ↦ (
    record s { screen = Screen.catalog_confirm entry free_bytes (CatalogOp.failed message) prior },
    true,
  )
  | _ ↦ (s, false)
]

-- The op that an event leads to; `Done` leads nowhere.
abbrev op_of : FetchEvent → Option CatalogOp
op_of FetchEvent.connecting = some CatalogOp.connecting
op_of (FetchEvent.downloading p) = some (CatalogOp.downloading p.bytes p.total)
op_of FetchEvent.verifying_hash = some CatalogOp.verifying_hash
op_of FetchEvent.verifying_sig = some CatalogOp.verifying_sig
op_of (FetchEvent.done _) = none

-- What an event does to the rate tracker at the instant `now`.
abbrev rate_on : ℕ → FetchEvent → DownloadRateTracker → DownloadRateTracker
rate_on now (FetchEvent.downloading p) r = Rate.record_at now p.bytes r
rate_on now (FetchEvent.done _) r = r
rate_on now _ r = Rate.reset r

abbrev op_on : FetchEvent → CatalogOp → CatalogOp
op_on ev op = if is_final op then op else elim (op_of ev) [ none ↦ op | some next ↦ next ]

unfoldable pub catalog_progress : ℕ → FetchEvent → AppState → AppState
catalog_progress now ev s =
    let t = record s { download_rate = rate_on now ev s.download_rate } in
    elim s.screen [
      | Screen.catalog_confirm entry free_bytes op prior ↦ record t {
        screen = Screen.catalog_confirm entry free_bytes (op_on ev op) prior;
      }
      | _ ↦ t
    ]

abbrev op_of_result : Outcome FetchOutcome → CatalogOp
op_of_result (ok outcome) = CatalogOp.success outcome
op_of_result (err e) = CatalogOp.failed e

unfoldable pub catalog_finish_fetch : Outcome FetchOutcome → AppState → AppState
catalog_finish_fetch result s =
    let t = record s { download_rate = Rate.reset s.download_rate } in
    elim s.screen [
      | Screen.catalog_confirm entry free_bytes op prior ↦ record t {
        screen = Screen.catalog_confirm entry free_bytes (op_of_result result) prior;
      }
      | _ ↦ t
    ]
