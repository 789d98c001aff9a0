-- ===== src/Tests/Sessions.antt =====
-- The theorems on the event loop, on sessions of a few keys.
use aegis_boot.Prelude.{
  ◌≡◌, refl, Bool, true, false, none, some, List, [], ◌∷◌, codes, is_some, length, ◌≤◌,
}
use aegis_boot.Screen.{Screen, CatalogOp, NetworkOp}
use aegis_boot.App.{AppState, new}
use aegis_boot.App.Browse
use aegis_boot.App.View
use aegis_boot.EventLoop
use aegis_boot.EventLoop.Keys
use aegis_boot.EventLoop.Bindings
use aegis_boot.Prelude.{text_le, to_ascii_lowercase, contains}
use aegis_boot.App.Overlay.{err}
use aegis_boot.EventLoop.{Loop, Event, start, step, run, key}
use aegis_boot.EventLoop.Kexec.{Env, Effect}
use aegis_boot.EventLoop.Bindings.{KeyCode, char}
use aegis_boot.Prelude.{get_elem?}
use aegis_boot.Prelude.Table
use aegis_boot.Iso.{has_quirk}
use aegis_boot.Kexec.{lockdown_refused}
use aegis_boot.App.Gate
use aegis_boot.App.Gate.{boot_token}
use aegis_boot.App.Delete
use aegis_boot.App.Diagnose.{record_kexec_error}
use aegis_boot.App.Fetch.{catalog_begin_fetch}
use aegis_boot.EventLoop.Overlays
use aegis_boot.EventLoop.Kexec.{attempt_kexec}
use aegis_boot.EventLoop.Refused.{evidence_iso, refusal_from_challenge}
use aegis_boot.EventLoop.Single.{one_fetch_at_a_time}
use aegis_boot.EventLoop.Fetching.{press, under_help, confirming, result_under_help_is_lost}
use aegis_boot.EventLoop.Permitted.{IsPermitted}
use aegis_boot.EventLoop.Permitted.Reach.{here, next, kexec_is_gated}
use aegis_boot.EventLoop.Leave.{leaves, way_out, overlays}
use aegis_boot.EventLoop.Leave.Reached.{quit_is_reachable}
use aegis_boot.EventLoop.Total.{session_never_panics}
use aegis_boot.Tests.Fixtures.{three_isos, firmware, world, entry, alpine, mint}

abbrev at_start : AppState
at_start = new firmware three_isos

-- The cursor stands on `alpine`; `debian` is the second row.
abbrev on_debian : AppState
on_debian = record at_start { screen = Screen.list 1 }

abbrev confirming_debian : AppState
confirming_debian = record on_debian { screen = Screen.confirm 0 }

-- The Error screen after a refused kexec.
abbrev refused : AppState → AppState
refused s = record_kexec_error world.mok_remedy lockdown_refused s

abbrev debian_request : List Effect
debian_request =
    Effect.save_choice 0
    ∷ Effect.measure_and_kexec 0
        (record { kernel = codes "vmlinuz"; initrd = none; cmdline = codes "quiet" })
    ∷ []

enter_on_debian :
    step world (key (press KeyCode.enter)) (start on_debian) ≡ some (start confirming_debian, [])
unfolding step EventLoop.handle Keys.on_key Keys.key_on Keys.typed_key new Keys.plain_key
    Keys.global_key Keys.chord Keys.match_key Bindings.list_key Browse.is_shell_selected
    Browse.confirm_selection View.view_entry View.visible_entries View.visible_indices View.sort_by
    View.sort_insert View.indices_from View.matches_filter View.index_le View.failed_indices text_le
    to_ascii_lowercase contains
enter_on_debian = refl

enter_on_confirm :
    step world (key (press KeyCode.enter)) (start confirming_debian)
    ≡ some (start (refused confirming_debian), debian_request)
unfolding step EventLoop.handle Keys.on_key Keys.key_on Keys.typed_key new Keys.plain_key
    Keys.global_key Keys.chord Keys.match_key Bindings.confirm_key EventLoop.Kexec.confirm_enter
    EventLoop.Kexec.challenge_or_kexec EventLoop.Kexec.attempt_kexec Gate.is_kexec_blocked
    Gate.is_blocked Gate.is_degraded_trust Gate.is_unattested Gate.consent_required_for has_quirk
    Table.get
enter_on_confirm = refl

kexec_is_gated_example : IsPermitted confirming_debian (refused confirming_debian).session_consent 0
unfolding new
kexec_is_gated_example =
    kexec_is_gated on_debian 1 (start confirming_debian) (start (refused confirming_debian)) world
      (key (press KeyCode.enter)) debian_request 0 refl
      (next world (key (press KeyCode.enter)) [] here enter_on_debian) enter_on_confirm refl

session_never_panics_example :
    is_some (
      run (start on_debian) (
        (world, key (press KeyCode.enter))
        ∷ (world, key (press (char b'e')))
        ∷ (world, key (press (char b'x')))
        ∷ (world, key (press KeyCode.backspace))
        ∷ []))
    ≡ true
unfolding new
session_never_panics_example =
    session_never_panics on_debian 1
      ((world, key (press KeyCode.enter))
        ∷ (world, key (press (char b'e')))
        ∷ (world, key (press (char b'x')))
        ∷ (world, key (press KeyCode.backspace))
        ∷ [])
      refl

abbrev helped : Loop
helped = record (start at_start) {
  state = record at_start {
    screen = Screen.help (Screen.network [] 0 NetworkOp.idle (Screen.verifying 0 1 2 none));
    filter_editing = true;
  };
  verify_active = true;
}

abbrev helped_keys : List KeyCode
helped_keys =
    KeyCode.esc ∷ KeyCode.esc ∷ char b'q' ∷ KeyCode.esc ∷ char b'q' ∷ char b'q' ∷ char b'y' ∷ []

quit_is_reachable_example :
    (leaves (λ n. world) helped_keys helped ≡ true) × (length helped_keys ≤ 8)
unfolding way_out overlays
quit_is_reachable_example = quit_is_reachable (λ n. world) helped

abbrev deleting : AppState
deleting = record at_start { screen = Screen.confirm_delete 1 }

abbrev after_delete : AppState
after_delete = record deleting { isos = alpine ∷ mint ∷ []; screen = Screen.list 1 }

abbrev fetching : Bool → CatalogOp → Loop
fetching active op = record (start at_start) {
  state = record at_start {
    screen = Screen.catalog_confirm entry 0 op (Screen.catalog (entry ∷ []) 0 0 (Screen.list 0));
  };
  fetch_active = active;
}

abbrev idle_fetch : AppState
idle_fetch = (fetching false CatalogOp.idle).state

enter_on_fetch :
    step world (key (press KeyCode.enter)) (start idle_fetch)
    ≡ some (fetching true CatalogOp.connecting, Effect.spawn_fetch entry ∷ [])
unfolding step EventLoop.handle Keys.on_key Keys.key_on Keys.typed_key new Keys.plain_key
    Keys.global_key Keys.chord Keys.match_key Overlays.fetch_key catalog_begin_fetch
enter_on_fetch = refl

one_fetch_at_a_time_example : (start idle_fetch).fetch_active ≡ false
one_fetch_at_a_time_example =
    one_fetch_at_a_time idle_fetch (start idle_fetch) (fetching true CatalogOp.connecting) world
      (key (press KeyCode.enter)) (Effect.spawn_fetch entry ∷ []) here enter_on_fetch refl

abbrev shown : Screen
shown = Screen.catalog (entry ∷ []) 0 0 (Screen.list 0)

result_under_help_is_lost_example :
    (run (under_help (start at_start) entry 0 CatalogOp.verifying_sig shown) (
        (world, Event.fetch_done (err (codes "bad signature")))
        ∷ (world, key (press KeyCode.esc))
        ∷ [])
      ≡ some (confirming (start at_start) entry 0 CatalogOp.verifying_sig shown false, []))
    × (step world
          (key (press KeyCode.enter))
          (confirming (start at_start) entry 0 CatalogOp.verifying_sig shown false)
        ≡ some (confirming (start at_start) entry 0 CatalogOp.verifying_sig shown false, []))
    × (step world
          (key (press KeyCode.esc))
          (confirming (start at_start) entry 0 CatalogOp.verifying_sig shown false)
        ≡ some (confirming (start at_start) entry 0 CatalogOp.verifying_sig shown false, []))
result_under_help_is_lost_example =
    result_under_help_is_lost world (start at_start) entry 0 CatalogOp.verifying_sig shown
      (err (codes "bad signature")) refl

abbrev challenged : AppState
challenged = record at_start { screen = Screen.trust_challenge 1 boot_token }

refusal_from_challenge_example :
    evidence_iso (attempt_kexec world 1 challenged).0 ≡ get_elem? challenged.isos 0
unfolding new
refusal_from_challenge_example = refusal_from_challenge world 1 boot_token challenged refl refl
