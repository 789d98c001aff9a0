-- ===== src/Lib.antt =====
-- Models and proofs for aegis-boot, the signed rescue stick that boots ISO files by kexec. What is
-- modelled is the way of an ISO through it: the fetch that downloads and authenticates it
-- (crates/aegis-fetch), the scan that finds it and reads its boot entries (crates/iso-parser), the row
-- and the verdict that discovery makes of it (crates/iso-probe), and the rescue TUI
-- (crates/rescue-tui): the state that keys act on, the event loop that turns keys and workers'
-- messages into changes of that state and requests to the outside, and the gates that stand in front
-- of a kexec.
--
-- The parts, and where each is:
--   Iso         crates/iso-probe/src and crates/iso-parser/src/lib.rs: what discovery hands on
--   Kexec       crates/kexec-loader/src/lib.rs: requests, errors, `classify_errno`
--   Network     crates/rescue-tui/src/network.rs: interfaces and leases
--   Catalog     crates/aegis-catalog-data/src/lib.rs, crates/aegis-fetch/src/lib.rs: entries, events
--   Fetch       crates/aegis-fetch/src: Sums sums.rs, Download download.rs, Verify verify.rs, Sha256
--               sha256.rs, Keyring keyring.rs, Entry `fetch_catalog_entry` and what it dispatches to
--   Parser      crates/iso-parser/src/lib.rs: Layouts `extract_boot_entries`, Names the release files,
--               Scan the walk and the scan of a directory, Reasons `sanitize_reason`
--   Probe       crates/iso-probe/src: Checksum signature.rs, Minisign minisign.rs, Rows
--               `boot_entry_to_discovered`, Discover `discover`
--   Status      crates/rescue-tui/src/state.rs: `SecureBootStatus::detect`, `TpmStatus::detect`
--   Rate        crates/rescue-tui/src/state.rs: `DownloadRateTracker`
--   Screen      crates/rescue-tui/src/state.rs: `Screen` and the enums it holds
--   App         crates/rescue-tui/src/state.rs: `AppState`; View its rows, Browse its cursor and
--               filter, Gate consent, blocks, challenge and verify-now, Cmdline the editor, Overlay
--               help, quit and network, Fetch the catalog, Delete, Diagnose the Error screen
--   Verdict     crates/rescue-tui/src/verdict.rs: the trust tiers and the two axes
--   Trust       crates/aegis-trust/src: the check of a signed body, the counter of seen epochs
--   Update      crates/aegis-cli/src/update.rs and update_apply.rs: the stick's signed chain replaced in
--               place, the rollback of a replacement that failed, and `update --rollback`
--   EventLoop   crates/rescue-tui/src/main.rs: `event_loop` and `attempt_kexec`; Bindings, Overlays
--               and Keys its key bindings, Kexec the way to a kexec, Leave the keys that quit
-- A method by `&mut self` is a function from the state to the new state, with its result beside it; a
-- fetch is steps on a `Disk`, its two files and its events, each step with its error. The child
-- modules named for what they prove (Order, Count, Return, Guarded, Final, Resume, Sound, Found, ...)
-- hold the theorems; Tests applies each to a concrete state. Prelude holds what the modules share:
-- texts as lists of code points with their UTF-8 offsets, the methods of `str` that the parsers call,
-- tables for hash maps, lists by native numbers.
--
-- What the outside world answers is an argument: `Env` for a turn of the loop (interfaces, the
-- catalog, deletion, `prepare`, `load_and_exec`, the text of `build_mokutil_remedy`, the audit log),
-- `Efivars` for the files that startup reads, `Minisign` and the answers of the file operations in
-- Trust; in Fetch `Outside` for the HTTP client and the file operations, `Pgp` for OpenPGP, `Hasher`
-- for SHA-256 and `Reading` for a file's reads; `IsoEnvironment` and the directory tree in Parser;
-- `Host`, `Media` and `Roots` in Probe; `Mtools` in Update, of which `IsFat` is what is relied on of a
-- FAT partition. `IsStreaming` and `ReadsFile` are what is relied on of a streaming hash and of a file
-- that is read to its end. What the loop starts outside is a list of effects. A panic is `none`.
-- A turn handles one key press or one message; the drain of several messages is several turns. `usize`
-- is 64 bits where the source saturates. Loops are structural, over the reads of a body, the
-- certificates, the tree of a directory, or count the steps that the source's range has; only the
-- printing of a decimal runs on fuel, one more than the number, which Prelude/Decimal shows to be
-- enough.
--
-- Not modelled: drawing, labels and colours; polling, and key events that are no press; the worker
-- threads themselves; startup, the text mode and auto-kexec; log lines, the TPM measurement's bytes
-- and the saved choice, which are effects; the layout of the evidence text; the path of the seen-epoch
-- file; the losetup and mount commands; the reading of a sidecar; of the command-line tool all but the
-- update in place, and of that the check whether a stick is eligible, the making of the host's
-- files and the refresh of the manifest; the other crates.

mod Prelude
pub mod Fetch
pub mod Parser
pub mod Probe
pub mod Iso
pub mod Kexec
pub mod Network
pub mod Catalog
pub mod Status
pub mod Rate
pub mod Screen
pub mod App
pub mod EventLoop
pub mod Update
pub mod Verdict
pub mod Trust
pub mod Tests
