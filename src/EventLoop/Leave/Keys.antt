-- ===== src/EventLoop/Leave/Keys.antt =====
-- crates/rescue-tui/src/main.rs: the keys of a way out of `event_loop`, each on its screen.
use aegis_boot.Prelude.{ℕ, ◌≡◌, Bool, true, false, Option, some, List, [], ◌∷◌, arith, Text}
use aegis_boot.Iso.{HashVerification}
use aegis_boot.Network.{NetworkIface}
use aegis_boot.Screen.{Screen, NetworkOp}
use aegis_boot.App.{AppState}
use aegis_boot.App.Browse.{filter_cancel, dismiss_blocked_toast}
use aegis_boot.App.Gate.{cancel_verify}
use aegis_boot.App.Cmdline.{cancel_cmdline_edit}
use aegis_boot.App.Overlay.{close_help, request_quit, confirm_quit, cancel_network}
use aegis_boot.EventLoop.Kexec.{Env, Effect}
use aegis_boot.EventLoop.Bindings.{char, esc}
use aegis_boot.EventLoop.Overlays.{editor_key}
use aegis_boot.EventLoop.Keys.{
  match_key, filter_key, help_key, quit_key, verifying_key, global_key, chord, plain_key, typed_key,
  key_on, on_key,
}
use aegis_boot.EventLoop.Leave.{plain, asks, is_typed, at_screen}

pub asked :
    (env : Env) (active : Bool) (s : AppState)
    → asks s.screen ≡ true
    → s.filter_editing ≡ false
    → on_key env (plain (char b'q')) active s
      ≡ some (at_screen (Screen.confirm_quit s.screen) s, [])
unfolding on_key key_on typed_key plain_key global_key request_quit
asked env active s p f = ground arith

pub answered :
    (env : Env) (active : Bool) (s : AppState) (prior : Screen)
    → s.screen ≡ Screen.confirm_quit prior
    → on_key env (plain (char b'y')) active s ≡ some (at_screen Screen.quitting s, [])
unfolding on_key key_on quit_key confirm_quit
answered env active s prior p = ground arith

pub cancelled_edit :
    (env : Env) (active : Bool) (s : AppState) (i : ℕ) (b : List ℕ) (c : ℕ)
    → s.screen ≡ Screen.edit_cmdline i b c
    → s.filter_editing ≡ false
    → on_key env (plain esc) active s ≡ some (at_screen (Screen.confirm i) s, [])
unfolding on_key key_on typed_key plain_key global_key chord match_key editor_key
    cancel_cmdline_edit
cancelled_edit env active s i b c p f = ground arith

pub closed_network :
    (env : Env) (active : Bool) (s : AppState) (is : List NetworkIface) (i : ℕ) (op : NetworkOp)
    (prior : Screen)
    → s.screen ≡ Screen.network is i op prior
    → s.filter_editing ≡ false
    → on_key env (plain (char b'q')) active s ≡ some (at_screen prior s, [])
unfolding on_key key_on typed_key plain_key global_key cancel_network
closed_network env active s is i op prior p f = ground arith

pub closed_help :
    (env : Env) (active : Bool) (s : AppState) (prior : Screen)
    → s.screen ≡ Screen.help prior
    → on_key env (plain esc) active s ≡ some (at_screen prior s, [])
unfolding on_key key_on help_key close_help
closed_help env active s prior p = ground arith

pub closed_toast :
    (env : Env) (active : Bool) (s : AppState) (m : Text) (i : ℕ)
    → s.screen ≡ Screen.blocked_toast m i
    → on_key env (plain esc) active s ≡ some (at_screen (Screen.list i) s, [])
unfolding on_key key_on dismiss_blocked_toast
closed_toast env active s m i p = ground arith

pub cancelled_verify :
    (env : Env) (active : Bool) (s : AppState) (i b t : ℕ) (r : Option HashVerification)
    → s.screen ≡ Screen.verifying i b t r
    → on_key env (plain esc) active s
      ≡ some (at_screen (Screen.confirm i) s, Effect.drop_verify ∷ [])
unfolding on_key key_on verifying_key cancel_verify
cancelled_verify env active s i b t r p = ground arith

pub left_filter :
    (env : Env) (active : Bool) (s : AppState)
    → is_typed s.screen ≡ true
    → s.filter_editing ≡ true
    → on_key env (plain esc) active s ≡ some (filter_cancel s, [])
unfolding on_key key_on typed_key filter_key
left_filter env active s p f = ground arith
