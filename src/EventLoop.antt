-- ===== src/EventLoop.antt =====
-- crates/rescue-tui/src/main.rs: `event_loop`, one key or one worker's message at a time. What the
-- outside world answers is the argument `Env`; what the loop starts outside is a list of effects.
-- `none` is a panic. The iteration's drain of several messages is several events here.
pub mod Kexec
pub mod Bindings
pub mod Overlays
pub mod Keys
pub mod Guarded
pub mod Permitted
pub mod Total
pub mod Deletion
pub mod Fetching
pub mod Single
pub mod Refused
pub mod Leave
use aegis_boot.Prelude.{
  ℕ, Bool, true, false, ◌&&◌, Option, none, some, List, [], ◌∷◌, ◌++◌, Text, codes, not, is_some,
  if◌then◌else◌,
}
use aegis_boot.Iso.{DiscoveredIso, HashVerification}
use aegis_boot.Network.{NetworkLease}
use aegis_boot.Catalog.{FetchEvent, FetchOutcome}
use aegis_boot.Screen.{Screen}
use aegis_boot.App.{AppState, clear_audit_warning, set_audit_warning}
use aegis_boot.App.Gate.{verify_tick, verify_finish, cancel_verify, iso_being_verified}
use aegis_boot.App.Overlay.{Outcome, ok, err, network_progress, network_finish_dhcp}
use aegis_boot.App.Fetch.{catalog_progress, catalog_finish_fetch}
use aegis_boot.EventLoop.Kexec.{Env, Effect}
use aegis_boot.EventLoop.Bindings.{KeyEvent}
use aegis_boot.EventLoop.Keys.{on_key}

-- The local variables of `event_loop`: the state, and which workers' channels are open.
pub record Loop : Type 0 where
  pub state : AppState
  pub verify_active : Bool
  pub dhcp_active : Bool
  pub fetch_active : Bool

abbrev pub start : AppState → Loop
start s = record { state = s; verify_active = false; dhcp_active = false; fetch_active = false }

-- `rx.try_recv()`: a message, or a channel whose worker is gone.
pub data Event : Type 0 where
  key : KeyEvent → Event
  dhcp_progress : Text → Event
  dhcp_done : Text → Outcome NetworkLease → Event
  dhcp_disconnected : Event
  fetch_event : (now : ℕ) → FetchEvent → Event
  fetch_done : Outcome FetchOutcome → Event
  fetch_disconnected : Event
  verify_progress : (bytes total : ℕ) → Event
  verify_done : Outcome HashVerification → Event
  verify_disconnected : Event

-- A spawned worker opens its channel; a cancelled verify drops it.
abbrev pub open_channels : List Effect → Loop → Loop
open_channels [] l = l
open_channels (Effect.spawn_verify _ ∷ es) l = open_channels es (record l { verify_active = true })
open_channels (Effect.drop_verify ∷ es) l = open_channels es (record l { verify_active = false })
open_channels (Effect.spawn_dhcp _ ∷ es) l = open_channels es (record l { dhcp_active = true })
open_channels (Effect.spawn_fetch _ ∷ es) l = open_channels es (record l { fetch_active = true })
open_channels (_ ∷ es) l = open_channels es l

abbrev pub after_key : Loop → Option (AppState × List Effect) → Option (Loop × List Effect)
after_key l none = none
after_key l (some (s, es)) = some (open_channels es (record l { state = s }), es)

-- The audit-log line of a finished verify, written before the screen is left.
unfoldable pub audit : Env → HashVerification → AppState → AppState
audit env outcome s = elim (iso_being_verified s) [
  | none ↦ s
  | some iso ↦ elim (env.save_verify_audit_log iso.iso_path outcome) [
    | ok path ↦ clear_audit_warning s
    | err e ↦
        set_audit_warning
          (codes "audit log write failed (" ++ e ++ codes ") — verdict shown but not persisted") s
  ]
]

verified : Env → Outcome HashVerification → AppState → AppState
unfolding audit
verified env (ok outcome) s = verify_finish outcome (audit env outcome s)
verified env (err e) s = cancel_verify s

-- A message is read only while its channel is open.
abbrev message : Bool → Loop → Loop → Option (Loop × List Effect)
message active l l' = some (if active then l' else l, [])

unfoldable pub handle : Env → Event → Loop → Option (Loop × List Effect)
unfolding verified
handle env (key k) l = after_key l (on_key env k l.fetch_active l.state)
handle env (dhcp_progress status) l =
    message l.dhcp_active l (record l { state = network_progress status l.state })
handle env (dhcp_done iface result) l =
    message l.dhcp_active l
      (record l { state = network_finish_dhcp iface result l.state; dhcp_active = false })
handle env dhcp_disconnected l = message l.dhcp_active l (record l { dhcp_active = false })
handle env (fetch_event now ev) l =
    message l.fetch_active l (record l { state = catalog_progress now ev l.state })
handle env (fetch_done result) l =
    message l.fetch_active l
      (record l { state = catalog_finish_fetch result l.state; fetch_active = false })
handle env fetch_disconnected l = message l.fetch_active l (record l { fetch_active = false })
handle env (verify_progress bytes total) l =
    message l.verify_active l (record l { state = verify_tick bytes total l.state })
handle env (verify_done result) l =
    message l.verify_active l
      (record l { state = verified env result l.state; verify_active = false })
handle env verify_disconnected l = message l.verify_active l (record l { verify_active = false })

-- `if state.screen == Screen::Quitting { return Ok(()); }`
abbrev pub is_quitting : Screen → Bool
is_quitting Screen.quitting = true
is_quitting _ = false

unfoldable pub step : Env → Event → Loop → Option (Loop × List Effect)
step env e l = if is_quitting l.state.screen then some (l, []) else handle env e l

-- The loop over the events of a session, each with the answers that the world gives to it.
unfoldable pub run : Loop → List (Env × Event) → Option (Loop × List Effect)
run l [] = some (l, [])
run l ((env, e) ∷ rest) = elim (step env e l) [
  | none ↦ none
  | some (l', es) ↦ elim (run l' rest) [ none ↦ none | some (l'', more) ↦ some (l'', es ++ more) ]
]
