-- ===== src/Probe/Discover/Firsts.antt =====
-- crates/iso-probe/src/lib.rs: the rows of one root, beside the first boot entry of each ISO.
use aegis_boot.Prelude.{
  ℕ, ◌≡◌, ◌∙◌, inl, inr, refl, sym, ap, Bool, true, false, ◌&&◌, none, List, [], ◌∷◌, ◌++◌, map,
  Text, text_eq, ◌==◌, if◌then◌else◌, arith, Bool-cases,
}
use mathlib.Core.List.{append_assoc, append-nil}
use aegis_boot.Prelude.Words.{text_eq-eq}
use aegis_boot.Iso.{DiscoveredIso}
use aegis_boot.Parser.{ok, BootEntry, ScanFailure, ScanReport, path_text}
use aegis_boot.Probe.Discover.{
  Roots, discovered, Gathered, has_key, has_path, size_in, keep_entry, keep_entries, keep_failure,
  keep_failures, keep_scan, walked, ended, tried, scan_roots, nothing, discover,
}

-- The first entry of each ISO whose name is not among the given ones.
pub firsts : List Text → List BootEntry → List BootEntry
unfolding has_path text_eq
firsts names [] = []
firsts names (e ∷ es) =
    let again = firsts names es in
    let new = e ∷ firsts (e.source_iso ∷ names) es in
    if has_path e.source_iso names then again else new

module _ (r : Roots) (make : BootEntry → Text → DiscoveredIso) (root : Text) where
  abbrev keys : List Text → List (Text × ℕ)
  keys names = map (λ n. (n, size_in r root n)) names

  abbrev pub rows : List BootEntry → List DiscoveredIso
  rows es = map (λ e. make e root) es

  key_at : (m n : Text) → (text_eq m n && size_in r root m == size_in r root n) ≡ text_eq m n
  key_at m n = elim (Bool-cases (text_eq m n)) [
    | inr e ↦ rw e
    | inl e ↦ rw e (rw (text_eq-eq m n e) (ground arith))
  ]

  has_key-keys :
      (n : Text) (names : List Text) → has_key n (size_in r root n) (keys names) ≡ has_path n names
  unfolding has_key has_path
  has_key-keys n [] = refl
  has_key-keys n (m ∷ names) = rw (key_at m n) (rw (has_key-keys n names))

  abbrev added : BootEntry → Gathered → Gathered
  added e g = record g {
    isos = g.isos ++ make e root ∷ [];
    seen = (e.source_iso, size_in r root e.source_iso) ∷ g.seen;
  }

  keep_entry_lem :
      (e : BootEntry) (g : Gathered) (b : Bool)
      → has_key e.source_iso (size_in r root e.source_iso) g.seen ≡ b
      → keep_entry r make root e g ≡ (if b then g else added e g)
  unfolding keep_entry
  keep_entry_lem e g b h = rw h

  keep_entries-firsts :
      (es : List BootEntry) (names : List Text) (g : Gathered)
      → g.seen ≡ keys names
      → (keep_entries r make root es g).isos ≡ g.isos ++ rows (firsts names es)
  unfolding keep_entries firsts
  keep_entries-firsts [] names g s = sym (append-nil g.isos)
  keep_entries-firsts (e ∷ es) names g s =
      let n = e.source_iso in
      let k : has_key n (size_in r root n) g.seen ≡ has_path n names =
        ap (has_key n (size_in r root n)) s ∙ has_key-keys n names in
      let step = λ (x : Gathered). (keep_entries r make root es x).isos in
      elim (Bool-cases (has_path n names)) [
        | inl old ↦
            ap step (keep_entry_lem e g true (k ∙ old)) ∙ keep_entries-firsts es names g s ∙ rw old
        | inr new ↦
            ap step (keep_entry_lem e g false (k ∙ new))
            ∙ keep_entries-firsts es (n ∷ names) (added e g) (ap (λ x. (n, size_in r root n) ∷ x) s)
            ∙ append_assoc g.isos (make e root ∷ []) (rows (firsts (n ∷ names) es))
            ∙ rw new
      ]

  abbrev Same : Gathered → Gathered → Type 0
  Same g h = (h.isos ≡ g.isos) × (h.walk_succeeded_somewhere ≡ g.walk_succeeded_somewhere)

  keep_failures-Same : (fs : List ScanFailure) (g : Gathered) → Same g (keep_failures r make fs g)
  unfolding keep_failures keep_failure
  keep_failures-Same [] g = (refl, refl)
  keep_failures-Same (f ∷ fs) g =
      let (p, q) = keep_failures-Same fs (keep_failure r make f g) in
      elim (Bool-cases (has_path (path_text f.iso_path) g.seen_failed)) [
        | inl e ↦ ground (arith, p, q, e)
        | inr e ↦ ground (arith, p, q, e)
      ]

  keep_entries-walked :
      (es : List BootEntry) (g : Gathered)
      → (keep_entries r make root es g).walk_succeeded_somewhere ≡ g.walk_succeeded_somewhere
  unfolding keep_entries keep_entry
  keep_entries-walked [] g = refl
  keep_entries-walked (e ∷ es) g =
      keep_entries-walked es (keep_entry r make root e g)
      ∙ elim (Bool-cases (has_key e.source_iso (size_in r root e.source_iso) g.seen)) [
        | inl h ↦ rw h
        | inr h ↦ rw h
      ]

  abbrev pub scanned : ScanReport → Gathered
  scanned report =
      keep_failures r make report.failures
        (keep_entries r make root report.entries (walked r make (nothing r make)))

  firsts-cons :
      (e : BootEntry) (es : List BootEntry)
      → rows (firsts [] (e ∷ es)) ≡ make e root ∷ rows (firsts (e.source_iso ∷ []) es)
  unfolding firsts
  firsts-cons e es = refl

  tried-scanned :
      (report : ScanReport)
      → r.exists root ≡ true
      → r.scan root ≡ ok report
      → tried r make root (nothing r make) ≡ (scanned report, none)
  unfolding tried keep_scan
  tried-scanned report there s = rw there (ap (λ o. keep_scan r make root o (nothing r make)) s)

  scan_roots-one :
      (g g' : Gathered)
      → tried r make root g ≡ (g', none)
      → scan_roots r make (root ∷ []) g ≡ ended r make g'
  unfolding scan_roots
  scan_roots-one g g' h = rw (ap (λ x. x.1) h, scan_roots) (ap (λ x. ended r make x.0) h)

  ended-rows :
      (g : Gathered) (i : DiscoveredIso) (is : List DiscoveredIso)
      → g.walk_succeeded_somewhere ≡ true
      → g.isos ≡ i ∷ is
      → ended r make g ≡ discovered (record { isos = i ∷ is; failed = g.failed })
  unfolding ended
  ended-rows g i is w h = rw w (rw h)

  -- Of one root that is there and whose scan finds a boot entry: discovery succeeds, and its rows are
  -- those of the first entry of each ISO's name, in the scan's order; the other entries of an ISO
  -- have none.
  pub discover-firsts :
      (report : ScanReport) (e : BootEntry) (es : List BootEntry)
      → r.exists root ≡ true
      → r.scan root ≡ ok report
      → report.entries ≡ e ∷ es
      → discover r make (root ∷ [])
        ≡ discovered (record { isos = rows (firsts [] (e ∷ es)); failed = (scanned report).failed })
  unfolding discover
  discover-firsts report e es there s h =
      let start = walked r make (nothing r make) in
      let (p, q) =
        keep_failures-Same report.failures (keep_entries r make root report.entries start) in
      let isos : (scanned report).isos ≡ rows (firsts [] (e ∷ es)) =
        p ∙ keep_entries-firsts report.entries [] start refl ∙ ap (λ x. rows (firsts [] x)) h in
      let walked_well : (scanned report).walk_succeeded_somewhere ≡ true =
        q ∙ keep_entries-walked report.entries start in
      scan_roots-one (nothing r make) (scanned report) (tried-scanned report there s)
      ∙ ended-rows (scanned report) (make e root) (rows (firsts (e.source_iso ∷ []) es)) walked_well
          (isos ∙ firsts-cons e es)
      ∙ ap (λ x. discovered (record { isos = x; failed = (scanned report).failed }))
          (sym (firsts-cons e es))
