-- ===== src/App/Fetch/Lock.antt =====
-- crates/rescue-tui/src/state.rs: the op of a fetch, as a lock on its confirm screen.
use aegis_boot.Prelude.{ℕ, ◌≡◌, Bool, true, false, none, arith}
use aegis_boot.Catalog.{Entry, FetchEvent, FetchOutcome}
use aegis_boot.Screen.{Screen, CatalogOp}
use aegis_boot.App.{AppState}
use aegis_boot.App.Overlay.{Outcome}
use aegis_boot.App.Fetch.{
  is_settled, catalog_cancel_confirm, catalog_begin_fetch, catalog_progress, catalog_finish_fetch,
}

-- Whether a screen is a fetch's, with a settled op.
abbrev pub shows_settled : Screen → Bool
shows_settled (Screen.catalog_confirm _ _ op _) = is_settled op
shows_settled _ = false

-- While a fetch's op is not settled, its confirm screen can neither be left nor start another fetch, a
-- worker's progress keeps it so, and its result settles it.
pub catalog_confirm-lock :
    (entry : Entry) (free : ℕ) (op : CatalogOp) (prior : Screen) (s : AppState) (now : ℕ)
    (ev : FetchEvent) (r : Outcome FetchOutcome)
    → s.screen ≡ Screen.catalog_confirm entry free op prior
    → is_settled op ≡ false
    → (catalog_cancel_confirm s ≡ (s, false))
      × (catalog_begin_fetch s ≡ (s, none))
      × (shows_settled (catalog_progress now ev s).screen ≡ false)
      × (shows_settled (catalog_finish_fetch r s).screen ≡ true)
unfolding catalog_cancel_confirm catalog_begin_fetch catalog_progress catalog_finish_fetch
catalog_confirm-lock entry free op prior s now ev r p h = ground arith
