-- ===== src/EventLoop/Single.antt =====
-- crates/rescue-tui/src/main.rs: the download workers of `event_loop`.
use aegis_boot.Prelude.{
  ◌≡◌, refl, Bool, true, false, ◌||◌, ◌&&◌, Option, none, some, List, [], ◌∷◌, arith, not,
  if◌then◌else◌,
}
use aegis_boot.Iso.{HashVerification}
use aegis_boot.Screen.{Screen}
use aegis_boot.App.{AppState, set_audit_warning, clear_audit_warning}
use aegis_boot.App.Browse.{filter_push, filter_backspace, filter_commit, filter_cancel}
use aegis_boot.App.Gate.{verify_tick, verify_finish, cancel_verify}
use aegis_boot.App.Overlay.{
  ok, close_help, open_help, request_quit, cancel_quit, confirm_quit, network_progress,
  network_finish_dhcp,
}
use aegis_boot.App.Fetch.{
  is_settled, catalog_begin_fetch, catalog_cancel_confirm, catalog_progress, catalog_finish_fetch,
}
use aegis_boot.EventLoop.Kexec.{
  Env, Effect, Turn, attempt_kexec, challenge_or_kexec, confirm_enter, consent_yes,
}
use aegis_boot.EventLoop.Bindings.{
  KeyCode, KeyEvent, list_key, confirm_key, consent_key, trust_key, delete_key, delete_at,
}
use aegis_boot.EventLoop.Overlays.{
  network_consent_key, network_key, catalog_key, fetch_key, editor_key, error_key,
}
use aegis_boot.EventLoop.Keys.{
  match_key, plain_key, typed_key, key_on, on_key, verifying_key, help_key, quit_key, filter_key,
  global_key, chord,
}
use aegis_boot.EventLoop.{Loop, Event, handle, step, start, audit, after_key, key, open_channels}
use aegis_boot.EventLoop.Guarded.Turns.{open_channels-state}
use aegis_boot.EventLoop.Permitted.Reach.{Reach, here, next}

-- Whether the effects of a turn start a download.
abbrev pub spawns : List Effect → Bool
spawns [] = false
spawns (Effect.spawn_fetch _ ∷ es) = true
spawns (_ ∷ es) = spawns es

-- The confirm screen of a fetch that is not settled, also under the help and the quit prompt; or the
-- end of the session.
abbrev is_live : Screen → Bool
is_live (Screen.catalog_confirm _ _ op _) = not (is_settled op)
is_live (Screen.help p) = is_live p
is_live (Screen.confirm_quit p) = is_live p
is_live Screen.quitting = true
is_live _ = false

match_key-spawns :
    (v : Screen) (env : Env) (k : KeyCode) (a : Bool) (s t : AppState) (es : List Effect)
    → s.screen ≡ v
    → match_key v env k a s ≡ some (t, es)
    → spawns es ≡ true
    → (is_live v ≡ false) × (is_live t.screen ≡ true)
unfolding match_key
match_key-spawns (Screen.list n) env k a s t es q e h = absurd (unfold list_key in ground arith)
match_key-spawns (Screen.confirm n) env k a s t es q e h =
    absurd (unfold confirm_key confirm_enter challenge_or_kexec attempt_kexec in ground arith)
match_key-spawns (Screen.edit_cmdline n b c) env k a s t es q e h =
    absurd (unfold editor_key in ground arith)
match_key-spawns (Screen.error m r n) env k a s t es q e h =
    absurd (unfold error_key in ground arith)
match_key-spawns (Screen.trust_challenge n b) env k a s t es q e h =
    absurd (unfold trust_key attempt_kexec in ground arith)
match_key-spawns (Screen.consent c n) env k a s t es q e h =
    absurd (unfold consent_key consent_yes challenge_or_kexec attempt_kexec in ground arith)
match_key-spawns (Screen.confirm_delete c) env k a s t es q e h =
    absurd (unfold delete_key delete_at in ground arith)
match_key-spawns (Screen.network _ _ _ _) env k a s t es q e h =
    absurd (unfold network_key in ground arith)
match_key-spawns (Screen.consent_network_use _) env k a s t es q e h =
    absurd (unfold network_consent_key in ground arith)
match_key-spawns (Screen.catalog _ _ _ _) env k a s t es q e h =
    absurd (unfold catalog_key in ground arith)
match_key-spawns (Screen.catalog_confirm _ _ _ _) env k a s t es q e h =
    unfold fetch_key catalog_begin_fetch catalog_cancel_confirm in ground arith
match_key-spawns _ env k a s t es q e h = absurd (ground arith)

key_on-spawns :
    (v : Screen) (env : Env) (k : KeyEvent) (a : Bool) (s t : AppState) (es : List Effect)
    → s.screen ≡ v
    → key_on v env k a s ≡ some (t, es)
    → spawns es ≡ true
    → (is_live v ≡ false) × (is_live t.screen ≡ true)
unfolding key_on typed_key plain_key verifying_key
key_on-spawns (Screen.verifying _ _ _ _) env k a s t es q e h = absurd (ground arith)
key_on-spawns _ env k a s t es q e h =
    ground (arith, match_key-spawns s.screen env k.code a s t es refl)

-- A key on a locked confirm screen, or on an overlay of it, keeps it locked.
key_on-is_live :
    (v : Screen) (env : Env) (k : KeyEvent) (s t : AppState) (es : List Effect)
    → s.screen ≡ v
    → key_on v env k true s ≡ some (t, es)
    → is_live v ≡ true
    → is_live t.screen ≡ true
unfolding key_on typed_key plain_key global_key chord match_key filter_key filter_push
    filter_backspace filter_commit filter_cancel request_quit open_help
key_on-is_live (Screen.help p) env k s t es q e h = unfold help_key close_help in ground arith
key_on-is_live (Screen.confirm_quit p) env k s t es q e h =
    unfold quit_key cancel_quit confirm_quit in ground arith
key_on-is_live (Screen.catalog_confirm _ _ op _) env k s t es q e h =
    unfold fetch_key catalog_begin_fetch catalog_finish_fetch in ground arith
key_on-is_live Screen.quitting env k s t es q e h = ground arith
key_on-is_live _ env k s t es q e h = cc

-- While a worker runs, the screen is locked.
abbrev is_locked : Loop → Bool
is_locked l = if l.fetch_active then is_live l.state.screen else true

open_channels-fetch_active :
    (es : List Effect) (l : Loop)
    → (open_channels es l).fetch_active ≡ (spawns es || l.fetch_active)
open_channels-fetch_active [] l = refl
open_channels-fetch_active (Effect.spawn_verify _ ∷ es) l =
    open_channels-fetch_active es (record l { verify_active = true })
open_channels-fetch_active (Effect.drop_verify ∷ es) l =
    open_channels-fetch_active es (record l { verify_active = false })
open_channels-fetch_active (Effect.spawn_dhcp _ ∷ es) l =
    open_channels-fetch_active es (record l { dhcp_active = true })
open_channels-fetch_active (Effect.spawn_fetch _ ∷ es) l =
    ground (arith, open_channels-fetch_active es (record l { fetch_active = true }))
open_channels-fetch_active (_ ∷ es) l = open_channels-fetch_active es l

key-is_locked :
    (env : Env) (k : KeyEvent) (l l' : Loop) (r : Option Turn) (es : List Effect)
    → key_on l.state.screen env k l.fetch_active l.state ≡ r
    → after_key l r ≡ some (l', es)
    → is_locked l ≡ true
    → (is_locked l' ≡ true) × (spawns es && l.fetch_active ≡ false)
key-is_locked env k l l' none es q e h = cc
key-is_locked env k l l' (some (t, fs)) es q e h = ground (
  arith,
  open_channels-fetch_active fs (record l { state = t }),
  open_channels-state fs (record l { state = t }),
  key_on-spawns l.state.screen env k l.fetch_active l.state t fs refl q,
  key_on-is_live l.state.screen env k l.state t fs refl,
)

audit-screen : (env : Env) (o : HashVerification) (s : AppState) → (audit env o s).screen ≡ s.screen
unfolding audit set_audit_warning clear_audit_warning
audit-screen env o s = ground arith

handle-is_locked :
    (env : Env) (e : Event) (l l' : Loop) (es : List Effect)
    → handle env e l ≡ some (l', es)
    → is_locked l ≡ true
    → (is_locked l' ≡ true) × (spawns es && l.fetch_active ≡ false)
unfolding handle on_key network_progress network_finish_dhcp catalog_progress catalog_finish_fetch
    verify_tick verify_finish cancel_verify
handle-is_locked env (key k) l l' es p h =
    key-is_locked env k l l' (key_on l.state.screen env k l.fetch_active l.state) es refl p h
handle-is_locked env (Event.verify_done (ok o)) l l' es p h =
    ground (arith, audit-screen env o l.state)
handle-is_locked env e l l' es p h = ground arith

step-is_locked :
    (env : Env) (e : Event) (l l' : Loop) (es : List Effect)
    → step env e l ≡ some (l', es)
    → is_locked l ≡ true
    → (is_locked l' ≡ true) × (spawns es && l.fetch_active ≡ false)
unfolding step
step-is_locked env e l l' es p h = ground (arith, handle-is_locked env e l l' es)

Reach-is_locked : (s : AppState) (l : Loop) → Reach (start s) l → is_locked l ≡ true
Reach-is_locked s l here = refl
Reach-is_locked s l' (next {l} env e es r p) =
    (step-is_locked env e l l' es p (Reach-is_locked s l r)).0

-- In a session, whatever the keys, the workers' messages and the answers of the world, a download is
-- started only while no download's channel is open.
pub one_fetch_at_a_time :
    (s : AppState) (l l' : Loop) (env : Env) (e : Event) (es : List Effect)
    → Reach (start s) l
    → step env e l ≡ some (l', es)
    → spawns es ≡ true
    → l.fetch_active ≡ false
one_fetch_at_a_time s l l' env e es r p h =
    ground (arith, step-is_locked env e l l' es p (Reach-is_locked s l r))
