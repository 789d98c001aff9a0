-- ===== src/EventLoop/Leave.antt =====
-- crates/rescue-tui/src/main.rs: the way out of `event_loop`: keys that bring the screen to
-- `Quitting`, where the loop returns.
pub mod Keys
pub mod Reached
use aegis_boot.Prelude.{
  ℕ, suc, ◌≡◌, refl, Bool, true, false, ◌&&◌, Option, none, some, List, [], ◌∷◌, ◌++◌, Option-cases,
  ◌≤◌, ◌+◌, arith, length, not, Bool-cases, inl, inr, if◌then◌else◌, Text,
}
use aegis_boot.Iso.{HashVerification}
use aegis_boot.Network.{NetworkIface}
use aegis_boot.Screen.{Screen, NetworkOp}
use aegis_boot.App.{AppState}
use aegis_boot.App.Browse.{filter_cancel, set_cursor, dismiss_blocked_toast, cancel_confirmation}
use aegis_boot.App.Gate.{cancel_verify}
use aegis_boot.App.Cmdline.{cancel_cmdline_edit}
use aegis_boot.App.Overlay.{close_help, request_quit, confirm_quit, cancel_network}
use aegis_boot.EventLoop.{Loop, Event, handle, step, run, key, open_channels, is_quitting}
use aegis_boot.EventLoop.Kexec.{Env, Effect}
use aegis_boot.EventLoop.Bindings.{KeyCode, KeyEvent, char, esc}
use aegis_boot.EventLoop.Overlays.{editor_key}
use aegis_boot.EventLoop.Keys.{
  match_key, filter_key, help_key, quit_key, verifying_key, global_key, chord, plain_key, typed_key,
  key_on, on_key,
}

abbrev pub plain : KeyCode → KeyEvent
plain c = record { code = c; control = false; shift = false }

-- `q`, and the answer to its prompt.
abbrev pub ask : List KeyCode
ask = char b'q' ∷ char b'y' ∷ []

-- Esc leaves the filter editor, where it is open.
abbrev pub past_filter : Bool → List KeyCode → List KeyCode
past_filter editing ks = if editing then esc ∷ ks else ks

abbrev pub at_screen : Screen → AppState → AppState
at_screen v s = record s { screen = v }

-- The keys that leave a screen, where the second argument is `filter_editing`.
unfoldable pub way_out : Screen → Bool → List KeyCode
way_out Screen.quitting editing = []
way_out (Screen.confirm_quit prior) editing = char b'y' ∷ []
way_out (Screen.help prior) editing = esc ∷ way_out prior editing
way_out (Screen.verifying i b t r) editing = esc ∷ past_filter editing (char b'q' ∷ ask)
way_out (Screen.blocked_toast m i) editing = esc ∷ past_filter editing ask
way_out (Screen.confirm i) editing = past_filter editing (char b'q' ∷ ask)
way_out (Screen.edit_cmdline i b c) editing = past_filter editing (esc ∷ char b'q' ∷ ask)
way_out (Screen.network is i op prior) editing =
    past_filter editing (char b'q' ∷ way_out prior false)
way_out _ editing = past_filter editing ask

-- The overlays on top of each other.
unfoldable pub overlays : Screen → ℕ
overlays (Screen.help prior) = suc (overlays prior)
overlays (Screen.network is i op prior) = suc (suc (overlays prior))
overlays _ = 0

-- Keys pressed one after the other, each with its own answers of the world.
unfoldable pub pressed : (ℕ → Env) → List KeyCode → List (Env × Event)
pressed world [] = []
pressed world (k ∷ ks) = (world 0, key (plain k)) ∷ pressed (λ n. world (suc n)) ks

-- A cancelled verify is dropped; nothing is started, saved or deleted.
unfoldable pub starts_nothing : List Effect → Bool
starts_nothing [] = true
starts_nothing (Effect.drop_verify ∷ es) = starts_nothing es
starts_nothing (_ ∷ es) = false

unfoldable pub has_left : Option (Loop × List Effect) → Bool
has_left none = false
has_left (some (l, es)) = is_quitting l.state.screen && starts_nothing es

unfoldable pub leaves : (ℕ → Env) → List KeyCode → Loop → Bool
leaves world ks l = has_left (run l (pressed world ks))

-- The screens on which `q` asks whether to quit.
abbrev pub asks : Screen → Bool
asks (Screen.list _) = true
asks (Screen.error _ _ _) = true
asks (Screen.trust_challenge _ _) = true
asks (Screen.consent _ _) = true
asks (Screen.confirm_delete _) = true
asks (Screen.consent_network_use _) = true
asks (Screen.catalog _ _ _ _) = true
asks (Screen.catalog_confirm _ _ _ _) = true
asks _ = false

-- The screens on which the filter editor takes the keys.
abbrev pub is_typed : Screen → Bool
is_typed (Screen.verifying _ _ _ _) = false
is_typed (Screen.confirm_quit _) = false
is_typed (Screen.help _) = false
is_typed (Screen.blocked_toast _ _) = false
is_typed Screen.quitting = false
is_typed _ = true

starts_nothing-append :
    (xs ys : List Effect) → starts_nothing xs ≡ true → starts_nothing (xs ++ ys) ≡ starts_nothing ys
unfolding starts_nothing
starts_nothing-append [] ys h = refl
starts_nothing-append (Effect.drop_verify ∷ xs) ys h = starts_nothing-append xs ys h
starts_nothing-append (_ ∷ xs) ys h = absurd (ground arith)

step-press :
    (env : Env) (k : KeyCode) (l : Loop) (s' : AppState) (es : List Effect)
    → is_quitting l.state.screen ≡ false
    → on_key env (plain k) l.fetch_active l.state ≡ some (s', es)
    → step env (key (plain k)) l ≡ some (open_channels es (record l { state = s' }), es)
unfolding step handle
step-press env k l s' es n p = ground (arith, n, p)

has_left-after :
    (l l' : Loop) (es : List Effect) (turn : Env × Event) (rest : List (Env × Event))
    → step turn.0 turn.1 l ≡ some (l', es)
    → starts_nothing es ≡ true
    → has_left (run l' rest) ≡ true
    → has_left (run l (turn ∷ rest)) ≡ true
unfolding run has_left
has_left-after l l' es (env, e) rest p q h = elim (Option-cases (run l' rest)) [
  | inl r ↦ absurd (ground (arith, r, h))
  | inr ((l'', more), r) ↦ ground (arith, p, r, h, starts_nothing-append es more q)
]

-- A key that leaves the state `s'`, with the effects `es`, in front of keys that leave from there.
pub leaves-press :
    (world : ℕ → Env) (k : KeyCode) (ks : List KeyCode) (l : Loop) (s' : AppState)
    (es : List Effect)
    → is_quitting l.state.screen ≡ false
    → on_key (world 0) (plain k) l.fetch_active l.state ≡ some (s', es)
    → starts_nothing es ≡ true
    → leaves (λ n. world (suc n)) ks (open_channels es (record l { state = s' })) ≡ true
    → leaves world (k ∷ ks) l ≡ true
unfolding leaves pressed
leaves-press world k ks l s' es n p e h =
    has_left-after l (open_channels es (record l { state = s' })) es (world 0, key (plain k))
      (pressed (λ n. world (suc n)) ks) (step-press (world 0) k l s' es n p) e h
