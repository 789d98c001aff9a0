-- ===== src/EventLoop/Permitted/Reach.antt =====
-- crates/rescue-tui/src/main.rs: the states that a session reaches.
use aegis_boot.Prelude.{ℕ, ◌≡◌, true, some, List, arith}
use aegis_boot.Screen.{Screen}
use aegis_boot.App.{AppState}
use aegis_boot.EventLoop.{Loop, Event, start, step}
use aegis_boot.EventLoop.Kexec.{Env, Effect}
use aegis_boot.EventLoop.Guarded.{IsGuarded, guarded}
use aegis_boot.EventLoop.Guarded.Turns.{step-IsGuarded}
use aegis_boot.EventLoop.Permitted.{requests, IsPermitted}
use aegis_boot.EventLoop.Permitted.Keys.{step-IsPermitted}

-- Any sequence of events, each with any answers of the world.
pub data Reach (l₀ : Loop) : Loop → Type 0 where
  here : Reach l₀ l₀
  next :
      {l l' : Loop} (env : Env) (e : Event) (es : List Effect)
      → Reach l₀ l
      → step env e l ≡ some (l', es)
      → Reach l₀ l'

pub Reach-IsGuarded : {l₀ l : Loop} → IsGuarded l₀.state → Reach l₀ l → IsGuarded l.state
Reach-IsGuarded g here = g
Reach-IsGuarded g (next {l} {l'} env e es r p) =
    step-IsGuarded env e l l' es (Reach-IsGuarded g r) p

pub start-IsGuarded : (s : AppState) (n : ℕ) → s.screen ≡ Screen.list n → IsGuarded s
unfolding guarded
start-IsGuarded s n p = ground arith

-- In a session that starts on the list, whatever the keys, the workers' messages and the answers of
-- the world, a kexec is requested only of an ISO in the list that no hard block holds (quirk, hash
-- mismatch, forged signature), for which the session has granted its consent if it contains an
-- installer, and which is verified, unless its typed challenge stands on the screen with `boot`.
pub kexec_is_gated :
    (s : AppState) (n : ℕ) (l l' : Loop) (env : Env) (e : Event) (es : List Effect) (idx : ℕ)
    → s.screen ≡ Screen.list n
    → Reach (start s) l
    → step env e l ≡ some (l', es)
    → requests idx es ≡ true
    → IsPermitted l.state l'.state.session_consent idx
kexec_is_gated s n l l' env e es idx p r =
    step-IsPermitted env e l l' es idx (Reach-IsGuarded (start-IsGuarded s n p) r)
