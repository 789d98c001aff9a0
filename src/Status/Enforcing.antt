-- ===== src/Status/Enforcing.antt =====
-- crates/rescue-tui/src/state.rs: when startup reports an enforcing Secure Boot.
use aegis_boot.Prelude.{ℕ, ◌≡◌, some, List, Text, get_elem?}
use aegis_boot.Status.{Efivars}

-- A variable that could be read, with a 1 behind its four bytes of attributes.
pub record IsEnforcingVariable (fs : Efivars) (path : Text) (bytes : List ℕ) : Type 0 where
  pub readable : fs.read path ≡ some bytes
  pub value_one : get_elem? bytes 4 ≡ some 1
