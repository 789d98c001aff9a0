-- ===== src/EventLoop/Fetching.antt =====
-- crates/rescue-tui/src/main.rs: what an overlay does to the result of the catalog's download worker.
use aegis_boot.Prelude.{ℕ, ◌≡◌, refl, Bool, true, false, some, [], ◌∷◌, arith}
use aegis_boot.Catalog.{Entry, FetchOutcome}
use aegis_boot.Rate
use aegis_boot.Screen.{Screen, CatalogOp}
use aegis_boot.App.Overlay.{Outcome, close_help}
use aegis_boot.App.Fetch.{
  is_settled, catalog_begin_fetch, catalog_cancel_confirm, catalog_finish_fetch,
}
use aegis_boot.EventLoop.Kexec.{Env}
use aegis_boot.EventLoop.Bindings.{KeyCode, KeyEvent, enter, esc}
use aegis_boot.EventLoop.Overlays.{fetch_key}
use aegis_boot.EventLoop.Keys.{
  match_key, plain_key, typed_key, key_on, on_key, help_key, global_key, chord,
}
use aegis_boot.EventLoop.{Loop, Event, handle, step, run, key}

-- A key without modifiers.
abbrev pub press : KeyCode → KeyEvent
press k = record { code = k; control = false; shift = false }

module _ (l : Loop) (entry : Entry) (free : ℕ) (op : CatalogOp) (prior : Screen) where
  -- The loop `l` on the confirm screen of a fetch, with its worker or without.
  abbrev pub confirming : Bool → Loop
  confirming active = record l {
    state = record l.state {
      screen = Screen.catalog_confirm entry free op prior;
      filter_editing = false;
      download_rate = Rate.empty;
    };
    fetch_active = active;
  }

  -- The same with a worker, under the help.
  abbrev pub under_help : Loop
  under_help = record (confirming true) {
    state = record (confirming true).state {
      screen = Screen.help (Screen.catalog_confirm entry free op prior);
    };
  }

-- A result that arrives while the help covers the confirm screen is lost: once the help is closed the
-- op is as it was and no worker is left to settle it, and neither Enter nor Esc does anything.
pub result_under_help_is_lost :
    (env : Env) (l : Loop) (entry : Entry) (free : ℕ) (op : CatalogOp) (prior : Screen)
    (r : Outcome FetchOutcome)
    → is_settled op ≡ false
    → (run
          (under_help l entry free op prior)
          ((env, Event.fetch_done r) ∷ (env, key (press esc)) ∷ [])
        ≡ some (confirming l entry free op prior false, []))
      × (step env (key (press enter)) (confirming l entry free op prior false)
          ≡ some (confirming l entry free op prior false, []))
      × (step env (key (press esc)) (confirming l entry free op prior false)
          ≡ some (confirming l entry free op prior false, []))
unfolding run step handle on_key key_on help_key close_help typed_key plain_key global_key chord
    match_key fetch_key catalog_begin_fetch catalog_cancel_confirm catalog_finish_fetch Rate.reset
result_under_help_is_lost env l entry free op prior r h = (refl, ground arith, ground arith)
