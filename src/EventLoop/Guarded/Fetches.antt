-- ===== src/EventLoop/Guarded/Fetches.antt =====
-- crates/rescue-tui/src/state.rs: the invariant over the methods of the catalog, of deletion and of
-- diagnosis, and over the way to a kexec.
use aegis_boot.Prelude.{ℕ, ◌≡◌, false, Option, none, some, List, arith, Text}
use aegis_boot.Iso.{DiscoveredIso}
use aegis_boot.App.{AppState}
use aegis_boot.App.Gate.{
  is_kexec_blocked, consent_required_for, enter_consent, enter_trust_challenge, grant_consent,
  trust_challenge_push,
}
use aegis_boot.App.Diagnose.{record_kexec_error}
use aegis_boot.App.Overlay.{Outcome}
use aegis_boot.Prelude.{ℤ}
use aegis_boot.Catalog.{Entry, FetchEvent, FetchOutcome}
use aegis_boot.Kexec.{KexecError}
use aegis_boot.App.Fetch.{
  enter_catalog, cancel_catalog, catalog_move_selection, catalog_progress, catalog_finish_fetch,
}
use aegis_boot.App.Delete.{cancel_delete, record_delete_error}
use aegis_boot.App.Fetch.{catalog_open_confirm, catalog_cancel_confirm, catalog_begin_fetch}
use aegis_boot.App.Overlay.{network_begin_dhcp}
use aegis_boot.App.Cmdline.{cmdline_insert, cmdline_backspace}
use aegis_boot.App.Delete.{enter_delete, delete_completed}
use aegis_boot.EventLoop.Kexec.{Env, attempt_kexec, challenge_or_kexec, confirm_enter, consent_yes}
use aegis_boot.App.Cmdline.Cursor
use aegis_boot.EventLoop.Guarded.{IsGuarded, guarded}

pub enter_catalog-IsGuarded :
    (es : List Entry) (s : AppState) → IsGuarded s → IsGuarded (enter_catalog es s)
unfolding enter_catalog guarded
enter_catalog-IsGuarded es s h = ground arith

pub cancel_catalog-IsGuarded : (s : AppState) → IsGuarded s → IsGuarded (cancel_catalog s)
unfolding cancel_catalog guarded
cancel_catalog-IsGuarded s h = ground arith

pub catalog_move_selection-IsGuarded :
    (d : ℤ) (s : AppState) → IsGuarded s → IsGuarded (catalog_move_selection d s)
unfolding catalog_move_selection guarded
catalog_move_selection-IsGuarded d s h = ground arith

pub catalog_progress-IsGuarded :
    (n : ℕ) (ev : FetchEvent) (s : AppState) → IsGuarded s → IsGuarded (catalog_progress n ev s)
unfolding catalog_progress guarded
catalog_progress-IsGuarded n ev s h = ground arith

pub catalog_finish_fetch-IsGuarded :
    (r : Outcome FetchOutcome) (s : AppState) → IsGuarded s → IsGuarded (catalog_finish_fetch r s)
unfolding catalog_finish_fetch guarded
catalog_finish_fetch-IsGuarded r s h = ground arith

pub cancel_delete-IsGuarded : (s : AppState) → IsGuarded s → IsGuarded (cancel_delete s)
unfolding cancel_delete guarded
cancel_delete-IsGuarded s h = ground arith

pub record_delete_error-IsGuarded :
    (e : Text) (s : AppState) → IsGuarded s → IsGuarded (record_delete_error e s)
unfolding record_delete_error guarded
record_delete_error-IsGuarded e s h = ground arith

pub record_kexec_error-IsGuarded :
    (m : Option DiscoveredIso → Text) (e : KexecError) (s : AppState)
    → IsGuarded s
    → IsGuarded (record_kexec_error m e s)
unfolding record_kexec_error guarded
record_kexec_error-IsGuarded m e s h = ground arith

pub enter_delete-IsGuarded : (n : ℕ) (s : AppState) → IsGuarded s → IsGuarded (enter_delete n s).0
unfolding enter_delete guarded
enter_delete-IsGuarded n s h = ground arith

pub trust_challenge_push-IsGuarded :
    (c : ℕ) (s : AppState) → IsGuarded s → IsGuarded (trust_challenge_push c s).0
unfolding trust_challenge_push guarded
trust_challenge_push-IsGuarded c s h = ground arith

pub network_begin_dhcp-IsGuarded : (s : AppState) → IsGuarded s → IsGuarded (network_begin_dhcp s).0
unfolding network_begin_dhcp guarded
network_begin_dhcp-IsGuarded s h = ground arith

pub catalog_open_confirm-IsGuarded :
    (n : ℕ) (s : AppState) → IsGuarded s → IsGuarded (catalog_open_confirm n s).0
unfolding catalog_open_confirm guarded
catalog_open_confirm-IsGuarded n s h = ground arith

pub catalog_cancel_confirm-IsGuarded :
    (s : AppState) → IsGuarded s → IsGuarded (catalog_cancel_confirm s).0
unfolding catalog_cancel_confirm guarded
catalog_cancel_confirm-IsGuarded s h = ground arith

pub catalog_begin_fetch-IsGuarded :
    (s : AppState) → IsGuarded s → IsGuarded (catalog_begin_fetch s).0
unfolding catalog_begin_fetch guarded
catalog_begin_fetch-IsGuarded s h = ground arith

pub delete_completed-IsGuarded :
    (s t : AppState) → IsGuarded s → delete_completed s ≡ some t → IsGuarded t
unfolding delete_completed guarded
delete_completed-IsGuarded s t h e = ground arith

pub cmdline_insert-IsGuarded :
    (c : ℕ) (s t : AppState) → IsGuarded s → cmdline_insert c s ≡ some t → IsGuarded t
unfolding cmdline_insert guarded
cmdline_insert-IsGuarded c s t h e = grind (arith, Cursor.insert_char-boundary)

pub cmdline_backspace-IsGuarded :
    (s t : AppState) → IsGuarded s → cmdline_backspace s ≡ some t → IsGuarded t
unfolding cmdline_backspace guarded
cmdline_backspace-IsGuarded s t h e = grind (arith, Cursor.delete_back-boundary)

pub attempt_kexec-IsGuarded :
    (env : Env) (i : ℕ) (s : AppState) → IsGuarded s → IsGuarded (attempt_kexec env i s).0
unfolding attempt_kexec record_kexec_error guarded
attempt_kexec-IsGuarded env i s h = ground arith

-- Past the block and the consent, the challenge may open.
pub challenge_or_kexec-IsGuarded :
    (env : Env) (i : ℕ) (s : AppState)
    → IsGuarded s
    → is_kexec_blocked s i ≡ false
    → consent_required_for s i ≡ none
    → IsGuarded (challenge_or_kexec env i s).0
unfolding challenge_or_kexec enter_trust_challenge is_kexec_blocked consent_required_for guarded
challenge_or_kexec-IsGuarded env i s h b c = ground (arith, attempt_kexec-IsGuarded env i s)

pub confirm_enter-IsGuarded :
    (env : Env) (i : ℕ) (s : AppState) → IsGuarded s → IsGuarded (confirm_enter env i s).0
unfolding confirm_enter enter_consent record_kexec_error is_kexec_blocked guarded
confirm_enter-IsGuarded env i s h = ground (arith, challenge_or_kexec-IsGuarded env i s h)

pub consent_yes-IsGuarded :
    (env : Env) (s : AppState) → IsGuarded s → IsGuarded (consent_yes env s).0
unfolding consent_yes grant_consent challenge_or_kexec enter_trust_challenge attempt_kexec
    record_kexec_error guarded
consent_yes-IsGuarded env s h = ground arith
