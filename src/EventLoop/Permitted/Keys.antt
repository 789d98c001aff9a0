-- ===== src/EventLoop/Permitted/Keys.antt =====
-- crates/rescue-tui/src/main.rs: the requests to kexec that each key makes.
use aegis_boot.Prelude.{ℕ, ◌≡◌, refl, Bool, true, false, Option, none, some, List, Text, arith}
use aegis_boot.Screen.{Screen, ConsentKind}
use aegis_boot.App.{AppState}
use aegis_boot.EventLoop.Kexec.{Env, Effect, Turn}
use aegis_boot.EventLoop.Bindings.{
  KeyCode, KeyEvent, enter, list_key, confirm_key, consent_key, trust_key, delete_key,
}
use aegis_boot.EventLoop.Overlays.{
  network_consent_key, network_key, catalog_key, fetch_key, editor_key, error_key,
}
use aegis_boot.EventLoop.Keys.{match_key, plain_key, typed_key, key_on, on_key, verifying_key}
use aegis_boot.EventLoop.{Loop, Event, handle, step, after_key, key}
use aegis_boot.EventLoop.Guarded.Turns.{open_channels-state}
use aegis_boot.EventLoop.Guarded.{IsGuarded}
use aegis_boot.EventLoop.Permitted.{
  requests, IsPermitted, confirm_enter-IsPermitted, consent_yes-IsPermitted,
  trust_enter-IsPermitted,
}

requests-list_key :
    (idx : ℕ) (env : Env) (n : ℕ) (k : KeyCode) (s : AppState)
    → requests idx (list_key env n k s).1 ≡ false
unfolding list_key
requests-list_key idx env n k s = ground arith

requests-network_consent_key :
    (idx : ℕ) (env : Env) (k : KeyCode) (s : AppState)
    → requests idx (network_consent_key env k s).1 ≡ false
unfolding network_consent_key
requests-network_consent_key idx env k s = ground arith

requests-network_key :
    (idx : ℕ) (env : Env) (k : KeyCode) (s : AppState)
    → requests idx (network_key env k s).1 ≡ false
unfolding network_key
requests-network_key idx env k s = ground arith

requests-catalog_key :
    (idx : ℕ) (k : KeyCode) (s : AppState) → requests idx (catalog_key k s).1 ≡ false
unfolding catalog_key
requests-catalog_key idx k s = ground arith

requests-fetch_key :
    (idx : ℕ) (env : Env) (a : Bool) (k : KeyCode) (s : AppState)
    → requests idx (fetch_key env a k s).1 ≡ false
unfolding fetch_key
requests-fetch_key idx env a k s = ground arith

requests-error_key :
    (idx : ℕ) (n : ℕ) (k : KeyCode) (s : AppState) → requests idx (error_key n k s).1 ≡ false
unfolding error_key
requests-error_key idx n k s = ground arith

requests-delete_key :
    (idx : ℕ) (env : Env) (n : ℕ) (k : KeyCode) (s t : AppState) (es : List Effect)
    → delete_key env n k s ≡ some (t, es)
    → requests idx es ≡ false
unfolding delete_key
requests-delete_key idx env n k s t es e = ground arith

requests-editor_key :
    (idx : ℕ) (k : KeyCode) (s t : AppState) (es : List Effect)
    → editor_key k s ≡ some (t, es)
    → requests idx es ≡ false
unfolding editor_key
requests-editor_key idx k s t es e = ground arith

confirm_key-IsPermitted :
    (env : Env) (i idx : ℕ) (k : KeyCode) (s : AppState)
    → requests idx (confirm_key env i k s).1 ≡ true
    → IsPermitted s (confirm_key env i k s).0.session_consent idx
unfolding confirm_key
confirm_key-IsPermitted env i idx enter s h = confirm_enter-IsPermitted env i idx s h
confirm_key-IsPermitted env i idx _ s h = ground arith

consent_key-IsPermitted :
    (env : Env) (kind : ConsentKind) (i idx : ℕ) (k : KeyCode) (s : AppState)
    → IsGuarded s
    → s.screen ≡ Screen.consent kind i
    → requests idx (consent_key env k s).1 ≡ true
    → IsPermitted s (consent_key env k s).0.session_consent idx
unfolding consent_key
consent_key-IsPermitted env kind i idx k s g p h =
    ground (arith, consent_yes-IsPermitted env kind i idx s g p)

trust_key-IsPermitted :
    (env : Env) (b : Text) (i idx : ℕ) (k : KeyCode) (s : AppState)
    → IsGuarded s
    → s.screen ≡ Screen.trust_challenge i b
    → requests idx (trust_key env i b k s).1 ≡ true
    → IsPermitted s (trust_key env i b k s).0.session_consent idx
unfolding trust_key
trust_key-IsPermitted env b i idx enter s g p h = trust_enter-IsPermitted env b i idx s g p h
trust_key-IsPermitted env b i idx _ s g p h = ground arith

match_key-IsPermitted :
    (v : Screen) (env : Env) (k : KeyCode) (a : Bool) (s t : AppState) (es : List Effect) (idx : ℕ)
    → IsGuarded s
    → s.screen ≡ v
    → match_key v env k a s ≡ some (t, es)
    → requests idx es ≡ true
    → IsPermitted s t.session_consent idx
unfolding match_key
match_key-IsPermitted (Screen.list n) env k a s t es idx g p e r =
    ground (arith, requests-list_key idx env n k s)
match_key-IsPermitted (Screen.confirm n) env k a s t es idx g p e r =
    ground (arith, confirm_key-IsPermitted env n idx k s)
match_key-IsPermitted (Screen.edit_cmdline n b c) env k a s t es idx g p e r =
    ground (arith, requests-editor_key idx k s t es)
match_key-IsPermitted (Screen.error m q n) env k a s t es idx g p e r =
    ground (arith, requests-error_key idx n k s)
match_key-IsPermitted (Screen.trust_challenge n b) env k a s t es idx g p e r =
    ground (arith, trust_key-IsPermitted env b n idx k s g p)
match_key-IsPermitted (Screen.consent c n) env k a s t es idx g p e r =
    ground (arith, consent_key-IsPermitted env c n idx k s g p)
match_key-IsPermitted (Screen.confirm_delete n) env k a s t es idx g p e r =
    ground (arith, requests-delete_key idx env n k s t es)
match_key-IsPermitted (Screen.network _ _ _ _) env k a s t es idx g p e r =
    ground (arith, requests-network_key idx env k s)
match_key-IsPermitted (Screen.consent_network_use _) env k a s t es idx g p e r =
    ground (arith, requests-network_consent_key idx env k s)
match_key-IsPermitted (Screen.catalog _ _ _ _) env k a s t es idx g p e r =
    ground (arith, requests-catalog_key idx k s)
match_key-IsPermitted (Screen.catalog_confirm _ _ _ _) env k a s t es idx g p e r =
    ground (arith, requests-fetch_key idx env a k s)
match_key-IsPermitted _ env k a s t es idx g p e r = ground arith

key_on-IsPermitted :
    (v : Screen) (env : Env) (k : KeyEvent) (a : Bool) (s t : AppState) (es : List Effect) (idx : ℕ)
    → IsGuarded s
    → s.screen ≡ v
    → key_on v env k a s ≡ some (t, es)
    → requests idx es ≡ true
    → IsPermitted s t.session_consent idx
unfolding key_on typed_key plain_key verifying_key
key_on-IsPermitted (Screen.verifying _ _ _ _) env k a s t es idx g p e r = ground arith
key_on-IsPermitted _ env k a s t es idx g p e r =
    ground (arith, match_key-IsPermitted s.screen env k.code a s t es idx g refl)

after_key-IsPermitted :
    (s : AppState) (idx : ℕ) (l l' : Loop) (r : Option Turn) (es : List Effect)
    → ((t : AppState) (fs : List Effect)
        → r ≡ some (t, fs)
        → requests idx fs ≡ true
        → IsPermitted s t.session_consent idx)
    → after_key l r ≡ some (l', es)
    → requests idx es ≡ true
    → IsPermitted s l'.state.session_consent idx
after_key-IsPermitted s idx l l' none es g e q = cc
after_key-IsPermitted s idx l l' (some (t, fs)) es g e q =
    ground (arith, g t fs refl, open_channels-state fs (record l { state = t }))

handle_key-IsPermitted :
    (env : Env) (k : KeyEvent) (l l' : Loop) (es : List Effect) (idx : ℕ)
    → IsGuarded l.state
    → handle env (key k) l ≡ some (l', es)
    → requests idx es ≡ true
    → IsPermitted l.state l'.state.session_consent idx
unfolding handle on_key
handle_key-IsPermitted env k l l' es idx g =
    after_key-IsPermitted l.state idx l l' (key_on l.state.screen env k l.fetch_active l.state) es
      λ t fs p. key_on-IsPermitted l.state.screen env k l.fetch_active l.state t fs idx g refl p

-- From a guarded state, a turn requests a kexec only of an ISO that has passed every gate.
pub step-IsPermitted :
    (env : Env) (e : Event) (l l' : Loop) (es : List Effect) (idx : ℕ)
    → IsGuarded l.state
    → step env e l ≡ some (l', es)
    → requests idx es ≡ true
    → IsPermitted l.state l'.state.session_consent idx
unfolding step
step-IsPermitted env (key k) l l' es idx g p r =
    ground (arith, handle_key-IsPermitted env k l l' es idx g)
step-IsPermitted env _ l l' es idx g p r = unfold handle in ground arith
