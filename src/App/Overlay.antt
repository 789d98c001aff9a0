-- ===== src/App/Overlay.antt =====
-- crates/rescue-tui/src/state.rs: the overlays that keep the screen under them: help, the quit
-- prompt, the consent to networking and the Network overlay with its DHCP worker. Where the source
-- takes the screen out by `mem::replace(…, Quitting)` and finds another one than it expects, the
-- replacement stays.
pub mod Return
use aegis_boot.Prelude.{
  ℕ, suc, ◌+◌, ◌-◌, ◌^◌, min, Bool, true, false, Option, none, some, List, [], ◌∷◌, Text, text_eq,
  ℤ, pos, negsuc, length, get_elem?, ltb, ◌==◌, if◌then◌else◌,
}
use aegis_boot.Network.{NetworkIface, NetworkLease}
use aegis_boot.Screen.{Screen, NetworkOp}
use aegis_boot.App.{AppState}

-- A worker's `Result<A, String>`.
pub data Outcome {ℓ} (A : Type ℓ) : Type ℓ where
  ok : A → Outcome A
  err : Text → Outcome A

unfoldable pub open_help : AppState → AppState
open_help s = elim s.screen [
  | Screen.help prior ↦ s
  | _ ↦ record s { screen = Screen.help s.screen }
]

unfoldable pub close_help : AppState → AppState
close_help s = elim s.screen [
  | Screen.help prior ↦ record s { screen = prior }
  | _ ↦ record s { screen = Screen.quitting }
]

unfoldable pub request_quit : AppState → AppState
request_quit s = elim s.screen [
  | Screen.confirm_quit prior ↦ s
  | Screen.quitting ↦ s
  | _ ↦ record s { screen = Screen.confirm_quit s.screen }
]

unfoldable pub cancel_quit : AppState → AppState
cancel_quit s = elim s.screen [
  | Screen.confirm_quit prior ↦ record s { screen = prior }
  | _ ↦ record s { screen = Screen.quitting }
]

unfoldable pub confirm_quit : AppState → AppState
confirm_quit s = record s { screen = Screen.quitting }

unfoldable pub enter_consent_network_use : AppState → AppState
enter_consent_network_use s = elim s.screen [
  | Screen.consent_network_use prior ↦ s
  | _ ↦ record s { screen = Screen.consent_network_use s.screen }
]

unfoldable pub grant_consent_network_use : List NetworkIface → AppState → AppState
grant_consent_network_use interfaces s = elim s.screen [
  | Screen.consent_network_use prior ↦ record s {
    session_network_consent = true;
    screen = Screen.network interfaces 0 NetworkOp.idle prior;
  }
  | _ ↦ s
]

unfoldable pub cancel_consent_network_use : AppState → AppState
cancel_consent_network_use s = elim s.screen [
  | Screen.consent_network_use prior ↦ record s { screen = prior }
  | _ ↦ record s { screen = Screen.quitting }
]

unfoldable pub enter_network : List NetworkIface → AppState → AppState
enter_network interfaces s = elim s.screen [
  | Screen.network _ _ _ _ ↦ s
  | _ ↦ record s { screen = Screen.network interfaces 0 NetworkOp.idle s.screen }
]

unfoldable pub cancel_network : AppState → AppState
cancel_network s = elim s.screen [
  | Screen.network interfaces selected op prior ↦ record s { screen = prior }
  | _ ↦ record s { screen = Screen.quitting }
]

-- `i64::try_from(n).unwrap_or(0)`
abbrev to_i64 : ℕ → ℕ
to_i64 n = if ltb n (2 ^ 63) then n else 0

-- `i32::try_from(delta).unwrap_or(0)`
abbrev to_i32 : ℤ → ℤ
to_i32 (pos n) = if ltb n (2 ^ 31) then pos n else pos 0
to_i32 (negsuc n) = if ltb n (2 ^ 31) then negsuc n else pos 0

-- A sum and a clamp to `0..=max`: a negative sum clamps to 0, as `-` does.
abbrev clamped_sum : ℕ → ℤ → ℕ → ℕ
clamped_sum base (pos n) max = min (base + n) max
clamped_sum base (negsuc n) max = min (base - suc n) max

-- The cursor of `network_move_selection` and `catalog_move_selection` in a table of `n` rows.
unfoldable pub clamped : ℤ → ℕ → ℕ → ℕ
clamped delta n selected =
    if n == 0 then 0 else clamped_sum (to_i64 selected) (to_i32 delta) (to_i64 (n - 1))

unfoldable pub network_move_selection : ℤ → AppState → AppState
network_move_selection delta s = elim s.screen [
  | Screen.network interfaces selected op prior ↦ record s {
    screen = Screen.network interfaces (clamped delta (length interfaces) selected) op prior;
  }
  | _ ↦ s
]

unfoldable pub network_refresh : List NetworkIface → AppState → AppState
network_refresh next s = elim s.screen [
  | Screen.network interfaces selected op prior ↦ record s {
    screen = Screen.network next 0 NetworkOp.idle prior;
  }
  | _ ↦ s
]

abbrev is_pending : NetworkOp → Bool
is_pending (NetworkOp.pending _ _) = true
is_pending _ = false

begin_on : AppState → List NetworkIface → ℕ → NetworkOp → Screen → AppState × Option Text
begin_on s interfaces selected op prior =
    if is_pending op then (s, none) else elim (get_elem? interfaces selected) [
      | none ↦ (s, none)
      | some i ↦ (
        record s {
          screen = Screen.network interfaces selected (NetworkOp.pending i.name []) prior;
        },
        some i.name,
      )
    ]

unfoldable pub network_begin_dhcp : AppState → AppState × Option Text
unfolding begin_on
network_begin_dhcp s = elim s.screen [
  | Screen.network interfaces selected op prior ↦ begin_on s interfaces selected op prior
  | _ ↦ (s, none)
]

abbrev progressed : Text → NetworkOp → NetworkOp
progressed status (NetworkOp.pending iface last_status) = NetworkOp.pending iface status
progressed status op = op

unfoldable pub network_progress : Text → AppState → AppState
network_progress status s = elim s.screen [
  | Screen.network interfaces selected op prior ↦ record s {
    screen = Screen.network interfaces selected (progressed status op) prior;
  }
  | _ ↦ s
]

-- `interfaces.iter_mut().find(|i| i.name == iface)`: the first row of that name.
unfoldable pub set_ipv4 : Text → Text → List NetworkIface → List NetworkIface
set_ipv4 iface ip [] = []
set_ipv4 iface ip (i ∷ is) =
    let rest = set_ipv4 iface ip is in
    if text_eq i.name iface then record i { ipv4 = some ip } ∷ is else i ∷ rest

finish_on : AppState → List NetworkIface → ℕ → Screen → Text → Outcome NetworkLease → AppState
finish_on s interfaces selected prior iface (ok lease) = record s {
  network_lease = some lease;
  screen =
      Screen.network (set_ipv4 iface lease.ipv4 interfaces) selected (NetworkOp.success iface lease)
        prior;
}
finish_on s interfaces selected prior iface (err e) = record s {
  screen = Screen.network interfaces selected (NetworkOp.failed iface e) prior;
}

unfoldable pub network_finish_dhcp : Text → Outcome NetworkLease → AppState → AppState
unfolding finish_on
network_finish_dhcp iface result s = elim s.screen [
  | Screen.network interfaces selected op prior ↦ finish_on s interfaces selected prior iface result
  | _ ↦ s
]
