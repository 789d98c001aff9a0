-- ===== src/EventLoop/Leave/Reached.antt =====
-- crates/rescue-tui/src/main.rs: from every state, the keys of a way out make `event_loop` return.
use aegis_boot.Prelude.{
  ℕ, suc, ◌≡◌, refl, Bool, true, false, List, [], ◌∷◌, ◌≤◌, ◌+◌, arith, length,
}
use aegis_boot.Network.{NetworkIface}
use aegis_boot.Screen.{Screen, NetworkOp}
use aegis_boot.App.Browse.{filter_cancel, set_cursor, cancel_confirmation}
use aegis_boot.App.Overlay.{request_quit, confirm_quit}
use aegis_boot.EventLoop.{Loop, handle, step, run, open_channels}
use aegis_boot.EventLoop.Kexec.{Env, Effect}
use aegis_boot.EventLoop.Bindings.{KeyCode, char, esc}
use aegis_boot.EventLoop.Keys.{quit_key, global_key, plain_key, typed_key, key_on, on_key}
use aegis_boot.EventLoop.Leave.{
  ask, past_filter, asks, is_typed, at_screen, way_out, overlays, pressed, starts_nothing, has_left,
  leaves, leaves-press,
}
use aegis_boot.EventLoop.Leave.Keys.{
  asked, answered, cancelled_edit, closed_network, closed_help, closed_toast, cancelled_verify,
  left_filter,
}

quitting-leaves :
    (world : ℕ → Env) (l : Loop) → l.state.screen ≡ Screen.quitting → leaves world [] l ≡ true
unfolding leaves pressed run has_left starts_nothing
quitting-leaves world l p = ground arith

prompt-leaves :
    (world : ℕ → Env) (l : Loop) (prior : Screen)
    → l.state.screen ≡ Screen.confirm_quit prior
    → leaves world (char b'y' ∷ []) l ≡ true
unfolding starts_nothing
prompt-leaves world l prior p =
    leaves-press world (char b'y') [] l (at_screen Screen.quitting l.state) [] (ground arith)
      (answered (world 0) l.fetch_active l.state prior p) refl
      (quitting-leaves (λ n. world (suc n)) (record l { state = at_screen Screen.quitting l.state })
        refl)

ask-leaves :
    (world : ℕ → Env) (l : Loop)
    → asks l.state.screen ≡ true
    → l.state.filter_editing ≡ false
    → leaves world ask l ≡ true
unfolding starts_nothing
ask-leaves world l p f =
    let s' = at_screen (Screen.confirm_quit l.state.screen) l.state in
    leaves-press world (char b'q') (char b'y' ∷ []) l s' [] (ground arith)
      (asked (world 0) l.fetch_active l.state p f) refl
      (prompt-leaves (λ n. world (suc n)) (record l { state = s' }) l.state.screen refl)

confirm-leaves :
    (world : ℕ → Env) (l : Loop) (i : ℕ)
    → l.state.screen ≡ Screen.confirm i
    → l.state.filter_editing ≡ false
    → leaves world (char b'q' ∷ ask) l ≡ true
unfolding leaves pressed run step handle has_left starts_nothing on_key key_on typed_key plain_key
    global_key quit_key request_quit confirm_quit cancel_confirmation
confirm-leaves world l i p f = ground arith

editor-leaves :
    (world : ℕ → Env) (l : Loop) (i : ℕ) (b : List ℕ) (c : ℕ)
    → l.state.screen ≡ Screen.edit_cmdline i b c
    → l.state.filter_editing ≡ false
    → leaves world (esc ∷ char b'q' ∷ ask) l ≡ true
unfolding starts_nothing
editor-leaves world l i b c p f =
    let s' = at_screen (Screen.confirm i) l.state in
    leaves-press world esc (char b'q' ∷ ask) l s' [] (ground arith)
      (cancelled_edit (world 0) l.fetch_active l.state i b c p f) refl
      (confirm-leaves (λ n. world (suc n)) (record l { state = s' }) i refl f)

network-leaves :
    (world : ℕ → Env) (l : Loop) (is : List NetworkIface) (i : ℕ) (op : NetworkOp) (prior : Screen)
    → l.state.screen ≡ Screen.network is i op prior
    → l.state.filter_editing ≡ false
    → ((w : ℕ → Env) (l' : Loop)
        → l'.state.screen ≡ prior
        → l'.state.filter_editing ≡ false
        → leaves w (way_out prior false) l' ≡ true)
    → leaves world (char b'q' ∷ way_out prior false) l ≡ true
unfolding starts_nothing
network-leaves world l is i op prior p f h =
    let s' = at_screen prior l.state in
    leaves-press world (char b'q') (way_out prior false) l s' [] (ground arith)
      (closed_network (world 0) l.fetch_active l.state is i op prior p f) refl
      (h (λ n. world (suc n)) (record l { state = s' }) refl f)

-- Keys that leave from each state at a screen of the kind `P`, with the filter editor closed, leave
-- from a state at such a screen, after an Esc where the filter editor is open.
past_filter-leaves :
    (P : Screen → Type 0) (ks : List KeyCode)
    → ((world : ℕ → Env) (l : Loop)
        → P l.state.screen
        → l.state.filter_editing ≡ false
        → leaves world ks l ≡ true)
    → (world : ℕ → Env) (editing : Bool) (l : Loop) → l.state.filter_editing ≡ editing
    → is_typed l.state.screen ≡ true
    → P l.state.screen
    → P (set_cursor 0 l.state.screen)
    → leaves world (past_filter editing ks) l ≡ true
unfolding starts_nothing filter_cancel
past_filter-leaves P ks h world true l e t p p' =
    leaves-press world esc ks l (filter_cancel l.state) [] (ground arith)
      (left_filter (world 0) l.fetch_active l.state t e) refl
      (h (λ n. world (suc n)) (record l { state = filter_cancel l.state }) p' refl)
past_filter-leaves P ks h world false l e t p p' = h world l p e

asks-leaves :
    (world : ℕ → Env) (editing : Bool) (l : Loop)
    → l.state.filter_editing ≡ editing
    → asks l.state.screen ≡ true
    → leaves world (past_filter editing ask) l ≡ true
asks-leaves world editing l e p =
    past_filter-leaves (λ v. asks v ≡ true) ask ask-leaves world editing l e (ground arith) p
      (ground arith)

verdict-leaves :
    (world : ℕ → Env) (editing : Bool) (l : Loop) (i : ℕ)
    → l.state.screen ≡ Screen.confirm i
    → l.state.filter_editing ≡ editing
    → leaves world (past_filter editing (char b'q' ∷ ask)) l ≡ true
verdict-leaves world editing l i p e =
    past_filter-leaves (λ v. v ≡ Screen.confirm i) (char b'q' ∷ ask)
      (λ w l' q f. confirm-leaves w l' i q f) world editing l e (ground arith) p (ground arith)

leaves-way_out :
    (v : Screen) (editing : Bool) (world : ℕ → Env) (l : Loop)
    → l.state.screen ≡ v
    → l.state.filter_editing ≡ editing
    → leaves world (way_out v editing) l ≡ true
unfolding way_out starts_nothing
leaves-way_out Screen.quitting b world l p e = quitting-leaves world l p
leaves-way_out (Screen.confirm_quit prior) b world l p e = prompt-leaves world l prior p
leaves-way_out (Screen.help prior) b world l p e =
    let s' = at_screen prior l.state in
    leaves-press world esc (way_out prior b) l s' [] (ground arith)
      (closed_help (world 0) l.fetch_active l.state prior p) refl
      (leaves-way_out prior b (λ n. world (suc n)) (record l { state = s' }) refl e)
leaves-way_out (Screen.verifying i n t r) b world l p e =
    let s' = at_screen (Screen.confirm i) l.state in
    leaves-press world esc (past_filter b (char b'q' ∷ ask)) l s' (Effect.drop_verify ∷ [])
      (ground arith) (cancelled_verify (world 0) l.fetch_active l.state i n t r p) refl
      (verdict-leaves (λ n. world (suc n)) b
        (open_channels (Effect.drop_verify ∷ []) (record l { state = s' })) i refl e)
leaves-way_out (Screen.blocked_toast m i) b world l p e =
    let s' = at_screen (Screen.list i) l.state in
    leaves-press world esc (past_filter b ask) l s' [] (ground arith)
      (closed_toast (world 0) l.fetch_active l.state m i p) refl
      (asks-leaves (λ n. world (suc n)) b (record l { state = s' }) e refl)
leaves-way_out (Screen.confirm i) b world l p e = verdict-leaves world b l i p e
leaves-way_out (Screen.edit_cmdline i x c) b world l p e =
    past_filter-leaves (λ v. v ≡ Screen.edit_cmdline i x c) (esc ∷ char b'q' ∷ ask)
      (λ w l' q f. editor-leaves w l' i x c q f) world b l e (ground arith) p (ground arith)
leaves-way_out (Screen.network is i op prior) b world l p e =
    past_filter-leaves (λ v. v ≡ Screen.network is i op prior) (char b'q' ∷ way_out prior false)
      (λ w l' q f. network-leaves w l' is i op prior q f (leaves-way_out prior false)) world b l e
      (ground arith) p (ground arith)
leaves-way_out v b world l p e = asks-leaves world b l e (ground arith)

length-way_out : (v : Screen) (b : Bool) → length (way_out v b) ≤ 5 + overlays v
unfolding way_out overlays
length-way_out (Screen.help prior) b = omega (arith, length-way_out prior b)
length-way_out (Screen.network is i op prior) true = omega (arith, length-way_out prior false)
length-way_out (Screen.network is i op prior) false = omega (arith, length-way_out prior false)
length-way_out v true = ground arith
length-way_out v false = ground arith

-- From every state of the loop, whatever the world answers, the keys of `way_out` bring the loop to
-- the screen on which it returns. They are at most five, and one more for each help screen and two
-- more for each network overlay on top of the others. Their only effect is the drop of a verify worker.
pub quit_is_reachable :
    (world : ℕ → Env) (l : Loop)
    → (leaves world (way_out l.state.screen l.state.filter_editing) l ≡ true)
      × (length (way_out l.state.screen l.state.filter_editing) ≤ 5 + overlays l.state.screen)
quit_is_reachable world l = (
  leaves-way_out l.state.screen l.state.filter_editing world l refl refl,
  length-way_out l.state.screen l.state.filter_editing,
)
