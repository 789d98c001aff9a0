-- ===== src/EventLoop/Total.antt =====
-- crates/rescue-tui/src/main.rs: the calls of `event_loop` that could panic: the string operations of
-- the editor, and the removal of an ISO.
use aegis_boot.Prelude.{
  ℕ, ◌≡◌, refl, inl, inr, Bool, true, some, List, [], ◌∷◌, arith, is_some, remove?, Option-cases,
}
use aegis_boot.Iso.{DiscoveredIso}
use aegis_boot.Screen.{Screen}
use aegis_boot.App.{AppState}
use aegis_boot.App.View.{real_index}
use aegis_boot.App.View.Count.{real_index-get_elem?}
use aegis_boot.App.Cmdline.{cmdline_insert, cmdline_backspace}
use aegis_boot.App.Cmdline.Cursor
use aegis_boot.App.Delete.{delete_completed}
use aegis_boot.App.Delete.Kept.{remove?-is_some}
use aegis_boot.EventLoop.{Loop, Event, start, handle, step, run, key}
use aegis_boot.EventLoop.Kexec.{Env}
use aegis_boot.EventLoop.Bindings.{KeyCode, KeyEvent, delete_key, char, backspace}
use aegis_boot.EventLoop.Overlays.{editor_key}
use aegis_boot.EventLoop.Keys.{match_key, plain_key, typed_key, key_on, on_key}
use aegis_boot.EventLoop.Guarded.{IsGuarded, guarded}
use aegis_boot.EventLoop.Guarded.Turns.{step-IsGuarded}
use aegis_boot.EventLoop.Permitted.Reach.{start-IsGuarded}

cmdline_insert-is_some : (c : ℕ) (s : AppState) → IsGuarded s → is_some (cmdline_insert c s) ≡ true
unfolding cmdline_insert guarded
cmdline_insert-is_some c s h = grind (arith, Cursor.insert_char-is_some)

cmdline_backspace-is_some : (s : AppState) → IsGuarded s → is_some (cmdline_backspace s) ≡ true
unfolding cmdline_backspace guarded
cmdline_backspace-is_some s h = grind (arith, Cursor.delete_back-is_some)

editor_key-is_some : (k : KeyCode) (s : AppState) → IsGuarded s → is_some (editor_key k s) ≡ true
unfolding editor_key
editor_key-is_some (char c) s h = ground (arith, cmdline_insert-is_some c s h)
editor_key-is_some backspace s h = ground (arith, cmdline_backspace-is_some s h)
editor_key-is_some k s h = ground arith

removal-is_some :
    (s : AppState) (c r : ℕ)
    → real_index s c ≡ some r
    → (ys : List DiscoveredIso) × (remove? s.isos r ≡ some ys)
removal-is_some s c r h =
    let (iso, e, _) = real_index-get_elem? s c r h in
    let (ys, q, l) = remove?-is_some s.isos r iso e in (ys, q)

delete_completed-is_some : (s : AppState) → is_some (delete_completed s) ≡ true
unfolding delete_completed
delete_completed-is_some s = grind (arith, removal-is_some s)

delete_key-is_some :
    (env : Env) (n : ℕ) (k : KeyCode) (s : AppState) → is_some (delete_key env n k s) ≡ true
unfolding delete_key
delete_key-is_some env n k s = ground (arith, delete_completed-is_some s)

match_key-is_some :
    (v : Screen) (env : Env) (k : KeyCode) (a : Bool) (s : AppState)
    → IsGuarded s
    → is_some (match_key v env k a s) ≡ true
unfolding match_key
match_key-is_some v env k a s h = grind (arith, editor_key-is_some k s h, delete_key-is_some)

on_key-is_some :
    (env : Env) (k : KeyEvent) (a : Bool) (s : AppState)
    → IsGuarded s
    → is_some (on_key env k a s) ≡ true
unfolding on_key key_on typed_key plain_key
on_key-is_some env k a s h = ground (arith, match_key-is_some s.screen env k.code a s h)

step-is_some :
    (env : Env) (e : Event) (l : Loop) → IsGuarded l.state → is_some (step env e l) ≡ true
unfolding step handle
step-is_some env (key k) l h = ground (arith, on_key-is_some env k l.fetch_active l.state h)
step-is_some env e l h = ground arith

run-is_some :
    (l : Loop) (turns : List (Env × Event)) → IsGuarded l.state → is_some (run l turns) ≡ true
unfolding run
run-is_some l [] h = refl
run-is_some l ((env, e) ∷ rest) h = elim (Option-cases (step env e l)) [
  | inl p ↦ absurd (ground (arith, step-is_some env e l h))
  | inr ((l', es), p) ↦ ground (arith, p, run-is_some l' rest (step-IsGuarded env e l l' es h p))
]

-- A session that starts on the list never panics: any sequence of keys and workers' messages, with
-- any answers of the world, runs to its end.
pub session_never_panics :
    (s : AppState) (n : ℕ) (turns : List (Env × Event))
    → s.screen ≡ Screen.list n
    → is_some (run (start s) turns) ≡ true
session_never_panics s n turns p = run-is_some (start s) turns (start-IsGuarded s n p)
