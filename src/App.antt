-- ===== src/App.antt =====
-- crates/rescue-tui/src/state.rs: `AppState`, the state that every key of the rescue TUI acts on.
-- A method by `&mut self` is a function to the new state. The colour theme, which only rendering
-- reads, is left out. The methods are in the child modules, by what they are about.
pub mod View
pub mod Browse
pub mod Gate
pub mod Cmdline
pub mod Overlay
pub mod Fetch
pub mod Delete
pub mod Diagnose
use aegis_boot.Prelude.{ℕ, Bool, true, false, Option, none, some, List, [], ◌∷◌, Text}
use aegis_boot.Prelude.Table.{Table}
use aegis_boot.Iso.{DiscoveredIso, FailedIso}
use aegis_boot.Network.{NetworkLease}
use aegis_boot.Status.{SecureBootStatus, TpmStatus, Efivars, detect_secure_boot, detect_tpm}
use aegis_boot.Rate
use aegis_boot.Rate.{DownloadRateTracker}
use aegis_boot.Screen.{Screen, SortOrder, Pane}

pub record AppState : Type 0 where
  pub isos : List DiscoveredIso
  pub failed_isos : List FailedIso
  pub screen : Screen
  pub cmdline_overrides : Table Text
  pub secure_boot : SecureBootStatus
  pub tpm : TpmStatus
  pub shell_requested : Bool
  pub filter : Text
  pub filter_editing : Bool
  pub sort_order : SortOrder
  pub scanned_roots : List Text
  pub skipped_iso_count : ℕ
  pub pane : Pane
  -- u16
  pub info_scroll : ℕ
  pub audit_warning : Option Text
  pub session_consent : Bool
  pub session_network_consent : Bool
  pub download_rate : DownloadRateTracker
  pub network_lease : Option NetworkLease

unfoldable pub new : Efivars → List DiscoveredIso → AppState
new fs isos = record {
  isos = isos;
  failed_isos = [];
  screen = Screen.list 0;
  cmdline_overrides = [];
  secure_boot = detect_secure_boot fs;
  tpm = detect_tpm fs;
  shell_requested = false;
  filter = [];
  filter_editing = false;
  sort_order = SortOrder.name;
  scanned_roots = [];
  skipped_iso_count = 0;
  pane = Pane.list;
  info_scroll = 0;
  audit_warning = none;
  session_consent = false;
  session_network_consent = false;
  download_rate = Rate.empty;
  network_lease = none;
}

-- `with_failed_isos`, `with_scanned_roots`, `with_skipped_iso_count`
unfoldable pub with_failed_isos : List FailedIso → AppState → AppState
with_failed_isos failed s = record s { failed_isos = failed }

unfoldable pub with_scanned_roots : List Text → AppState → AppState
with_scanned_roots roots s = record s { scanned_roots = roots }

unfoldable pub with_skipped_iso_count : ℕ → AppState → AppState
with_skipped_iso_count n s = record s { skipped_iso_count = n }

-- `set_audit_warning`, `clear_audit_warning`
unfoldable pub set_audit_warning : Text → AppState → AppState
set_audit_warning msg s = record s { audit_warning = some msg }

unfoldable pub clear_audit_warning : AppState → AppState
clear_audit_warning s = record s { audit_warning = none }
