-- ===== src/EventLoop/Deletion.antt =====
-- crates/rescue-tui/src/main.rs: what must stand on the screen for a file to be deleted.
use aegis_boot.Prelude.{
  ℕ, ◌≡◌, ◌⊎◌, Bool, true, false, ◌||◌, some, List, [], ◌∷◌, Text, get_elem?, text_eq,
}
use aegis_boot.Iso.{DiscoveredIso}
use aegis_boot.Screen.{Screen}
use aegis_boot.App.{AppState}
use aegis_boot.App.View.{real_index}
use aegis_boot.EventLoop.Kexec.{Effect}
use aegis_boot.EventLoop.Bindings.{KeyCode, char}

-- Whether the effects of a turn hold the deletion of a file.
abbrev pub deletes : Text → List Effect → Bool
deletes path [] = false
deletes path (Effect.delete_iso p ∷ es) = text_eq p path || deletes path es
deletes path (_ ∷ es) = deletes path es

-- The prompt stands for the row `c`, which is an ISO's, with the file `path`, and the key is a yes.
pub record IsConfirmed (s : AppState) (k : KeyCode) (path : Text) : Type 0 where
  pub row : ℕ
  pub idx : ℕ
  pub iso : DiscoveredIso
  pub prompted : s.screen ≡ Screen.confirm_delete row
  pub shown : real_index s row ≡ some idx
  pub listed : get_elem? s.isos idx ≡ some iso
  pub file : text_eq iso.iso_path path ≡ true
  pub yes : (k ≡ char b'y') ⊎ (k ≡ char b'Y')
