-- ===== src/Network.antt =====
-- crates/rescue-tui/src/network.rs: an interface and a lease, as the Network overlay holds them.
use aegis_boot.Prelude.{Option, List, Text}

pub data LinkState : Type 0 where
  up down unknown : LinkState

pub record NetworkIface : Type 0 where
  pub name : Text
  pub link_state : LinkState
  pub ipv4 : Option Text

pub record NetworkLease : Type 0 where
  pub ipv4 : Text
  pub gateway : Option Text
  pub nameservers : List Text
