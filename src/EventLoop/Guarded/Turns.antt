-- ===== src/EventLoop/Guarded/Turns.antt =====
-- crates/rescue-tui/src/main.rs: the invariant over a turn of the event loop.
use aegis_boot.Prelude.{◌≡◌, refl, Bool, true, false, Option, none, some, List, [], ◌∷◌, arith}
use aegis_boot.Screen.{Screen}
use aegis_boot.Iso.{HashVerification}
use aegis_boot.App.{AppState, set_audit_warning, clear_audit_warning}
use aegis_boot.App.Overlay.{ok, err}
use aegis_boot.EventLoop.{Loop, Event, handle, step, audit, key, open_channels, after_key}
use aegis_boot.EventLoop.Kexec.{Env, Effect, Turn}
use aegis_boot.EventLoop.Bindings.{KeyCode, KeyEvent}
use aegis_boot.EventLoop.Keys.{
  match_key, typed_key, key_on, quit_key, help_key, verifying_key, plain_key, on_key,
}
use aegis_boot.EventLoop.Guarded.{IsGuarded}
use aegis_boot.EventLoop.Guarded.Methods
use aegis_boot.EventLoop.Guarded.Fetches
use aegis_boot.EventLoop.Guarded.Bindings.{
  list_key-IsGuarded, confirm_key-IsGuarded, consent_key-IsGuarded, trust_key-IsGuarded,
  delete_key-IsGuarded, network_consent_key-IsGuarded, network_key-IsGuarded, catalog_key-IsGuarded,
  fetch_key-IsGuarded, editor_key-IsGuarded, error_key-IsGuarded, global_key-IsGuarded,
  chord-IsGuarded, filter_key-IsGuarded,
}

match_key-IsGuarded :
    (v : Screen) (env : Env) (k : KeyCode) (a : Bool) (s t : AppState) (es : List Effect)
    → IsGuarded s
    → match_key v env k a s ≡ some (t, es)
    → IsGuarded t
unfolding match_key
match_key-IsGuarded (Screen.list n) env k a s t es h e =
    ground (arith, list_key-IsGuarded env n k s h)
match_key-IsGuarded (Screen.confirm n) env k a s t es h e =
    ground (arith, confirm_key-IsGuarded env n k s h)
match_key-IsGuarded (Screen.edit_cmdline n b c) env k a s t es h e =
    editor_key-IsGuarded k s t es h e
match_key-IsGuarded (Screen.error m r n) env k a s t es h e =
    ground (arith, error_key-IsGuarded n k s h)
match_key-IsGuarded (Screen.trust_challenge n b) env k a s t es h e =
    ground (arith, trust_key-IsGuarded env n b k s h)
match_key-IsGuarded (Screen.consent c n) env k a s t es h e =
    ground (arith, consent_key-IsGuarded env k s h)
match_key-IsGuarded (Screen.confirm_delete n) env k a s t es h e =
    delete_key-IsGuarded env n k s t es h e
match_key-IsGuarded (Screen.network _ _ _ _) env k a s t es h e =
    ground (arith, network_key-IsGuarded env k s h)
match_key-IsGuarded (Screen.consent_network_use _) env k a s t es h e =
    ground (arith, network_consent_key-IsGuarded env k s h)
match_key-IsGuarded (Screen.catalog _ _ _ _) env k a s t es h e =
    ground (arith, catalog_key-IsGuarded k s h)
match_key-IsGuarded (Screen.catalog_confirm _ _ _ _) env k a s t es h e =
    ground (arith, fetch_key-IsGuarded env a k s h)
match_key-IsGuarded _ env k a s t es h e = ground arith

plain_key-IsGuarded :
    (env : Env) (k : KeyEvent) (a : Bool) (s t : AppState) (es : List Effect)
    → IsGuarded s
    → plain_key env k a s ≡ some (t, es)
    → IsGuarded t
unfolding plain_key
plain_key-IsGuarded env k a s t es h e = ground (
  arith,
  global_key-IsGuarded k.code s t h,
  chord-IsGuarded k s t h,
  match_key-IsGuarded s.screen env k.code a s t es h,
)

-- A key press, on any screen, keeps the invariant.
pub key_on-IsGuarded :
    (v : Screen) (env : Env) (k : KeyEvent) (a : Bool) (s t : AppState) (es : List Effect)
    → IsGuarded s
    → key_on v env k a s ≡ some (t, es)
    → IsGuarded t
unfolding key_on typed_key
key_on-IsGuarded (Screen.verifying _ _ _ _) env k a s t es h e =
    unfold verifying_key in ground (arith, Methods.cancel_verify-IsGuarded s h)
key_on-IsGuarded (Screen.confirm_quit _) env k a s t es h e =
    unfold quit_key in
    ground (arith, Methods.confirm_quit-IsGuarded s h, Methods.cancel_quit-IsGuarded s h)
key_on-IsGuarded (Screen.help _) env k a s t es h e =
    unfold help_key in ground (arith, Methods.close_help-IsGuarded s h)
key_on-IsGuarded (Screen.blocked_toast _ _) env k a s t es h e =
    ground (arith, Methods.dismiss_blocked_toast-IsGuarded s h)
key_on-IsGuarded _ env k a s t es h e =
    ground (arith, filter_key-IsGuarded k.code s h, plain_key-IsGuarded env k a s t es h)

audit-IsGuarded :
    (env : Env) (o : HashVerification) (s : AppState) → IsGuarded s → IsGuarded (audit env o s)
unfolding audit set_audit_warning clear_audit_warning
audit-IsGuarded env o s h = ground arith

pub open_channels-state : (es : List Effect) (l : Loop) → (open_channels es l).state ≡ l.state
open_channels-state [] l = refl
open_channels-state (Effect.spawn_verify _ ∷ es) l =
    open_channels-state es (record l { verify_active = true })
open_channels-state (Effect.drop_verify ∷ es) l =
    open_channels-state es (record l { verify_active = false })
open_channels-state (Effect.spawn_dhcp _ ∷ es) l =
    open_channels-state es (record l { dhcp_active = true })
open_channels-state (Effect.spawn_fetch _ ∷ es) l =
    open_channels-state es (record l { fetch_active = true })
open_channels-state (_ ∷ es) l = open_channels-state es l

after_key-IsGuarded :
    (l l' : Loop) (r : Option Turn) (es : List Effect)
    → ((t : AppState) (fs : List Effect) → r ≡ some (t, fs) → IsGuarded t)
    → after_key l r ≡ some (l', es)
    → IsGuarded l'.state
after_key-IsGuarded l l' none es g e = cc
after_key-IsGuarded l l' (some (t, fs)) es g e =
    ground (arith, g t fs refl, open_channels-state fs (record l { state = t }))

-- Every event, whatever the world answers, keeps the invariant.
pub handle-IsGuarded :
    (env : Env) (e : Event) (l l' : Loop) (es : List Effect)
    → IsGuarded l.state
    → handle env e l ≡ some (l', es)
    → IsGuarded l'.state
unfolding handle
handle-IsGuarded env (key k) l l' es h e =
    after_key-IsGuarded l l' (on_key env k l.fetch_active l.state) es
      (λ t fs p.
        key_on-IsGuarded l.state.screen env k l.fetch_active l.state t fs h (unfold on_key in p))
      e
handle-IsGuarded env (Event.dhcp_progress m) l l' es h e =
    ground (arith, Methods.network_progress-IsGuarded m l.state h)
handle-IsGuarded env (Event.dhcp_done i r) l l' es h e =
    ground (arith, Methods.network_finish_dhcp-IsGuarded i r l.state h)
handle-IsGuarded env (Event.fetch_event now ev) l l' es h e =
    ground (arith, Fetches.catalog_progress-IsGuarded now ev l.state h)
handle-IsGuarded env (Event.fetch_done r) l l' es h e =
    ground (arith, Fetches.catalog_finish_fetch-IsGuarded r l.state h)
handle-IsGuarded env (Event.verify_progress b t) l l' es h e =
    ground (arith, Methods.verify_tick-IsGuarded b t l.state h)
handle-IsGuarded env (Event.verify_done (ok o)) l l' es h e = ground (
  arith,
  Methods.verify_finish-IsGuarded o (audit env o l.state) (audit-IsGuarded env o l.state h),
)
handle-IsGuarded env (Event.verify_done (err m)) l l' es h e =
    ground (arith, Methods.cancel_verify-IsGuarded l.state h)
handle-IsGuarded env _ l l' es h e = ground arith

-- One iteration of the loop keeps the invariant.
pub step-IsGuarded :
    (env : Env) (e : Event) (l l' : Loop) (es : List Effect)
    → IsGuarded l.state
    → step env e l ≡ some (l', es)
    → IsGuarded l'.state
unfolding step
step-IsGuarded env e l l' es h p = ground (arith, handle-IsGuarded env e l l' es h)
