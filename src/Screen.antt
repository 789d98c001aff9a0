-- ===== src/Screen.antt =====
-- crates/rescue-tui/src/state.rs: the screens of the rescue TUI and their parts.
use aegis_boot.Prelude.{ℕ, Option, List, Text, codes}
use aegis_boot.Iso.{HashVerification}
use aegis_boot.Network.{NetworkIface, NetworkLease}
use aegis_boot.Catalog.{Entry, FetchOutcome}

pub data NetworkOp : Type 0 where
  idle : NetworkOp
  -- iface, last_status
  pending : Text → Text → NetworkOp
  success : Text → NetworkLease → NetworkOp
  -- iface, err
  failed : Text → Text → NetworkOp

pub data CatalogOp : Type 0 where
  idle connecting : CatalogOp
  -- bytes, total
  downloading : ℕ → Option ℕ → CatalogOp
  verifying_hash verifying_sig : CatalogOp
  success : FetchOutcome → CatalogOp
  failed : Text → CatalogOp

pub data ConsentKind : Type 0 where
  installer_can_erase_disks tier4_force_boot : ConsentKind

pub data SortOrder : Type 0 where
  name size_desc distro : SortOrder

pub data ViewEntry : Type 0 where
  iso : ℕ → ViewEntry
  failed_iso : ℕ → ViewEntry
  rescue_shell : ViewEntry

pub data Pane : Type 0 where
  list info : Pane

-- Fields in the source's order; `prior` is the screen under an overlay.
pub data Screen : Type 0 where
  list : (selected : ℕ) → Screen
  confirm : (selected : ℕ) → Screen
  edit_cmdline : (selected : ℕ) (buffer : Text) (cursor : ℕ) → Screen
  error : (message : Text) (remedy : Option Text) (return_to : ℕ) → Screen
  help : (prior : Screen) → Screen
  confirm_quit : (prior : Screen) → Screen
  trust_challenge : (selected : ℕ) (buffer : Text) → Screen
  verifying : (selected bytes total : ℕ) (result : Option HashVerification) → Screen
  quitting : Screen
  blocked_toast : (message : Text) (return_to : ℕ) → Screen
  consent : (kind : ConsentKind) (selected : ℕ) → Screen
  confirm_delete : (selected : ℕ) → Screen
  network :
      (interfaces : List NetworkIface) (selected : ℕ) (op : NetworkOp) (prior : Screen) → Screen
  consent_network_use : (prior : Screen) → Screen
  catalog : (entries : List Entry) (selected scroll : ℕ) (prior : Screen) → Screen
  catalog_confirm : (entry : Entry) (free_bytes : ℕ) (op : CatalogOp) (prior : Screen) → Screen

-- `SortOrder::next`
unfoldable pub next : SortOrder → SortOrder
next name = size_desc
next size_desc = distro
next distro = name

-- `Pane::toggle`
unfoldable pub toggle : Pane → Pane
toggle list = info
toggle info = list

-- `ConsentKind::title`
pub title : ConsentKind → Text
title installer_can_erase_disks = codes "Confirm: installer can erase disks"
title tier4_force_boot = codes "Confirm: force boot of unparsable ISO"
