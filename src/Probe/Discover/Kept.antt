-- ===== src/Probe/Discover/Kept.antt =====
-- crates/iso-probe/src/lib.rs: what the sets of `discover` hold is in its lists.
use mathlib.Core.Path.{subst}
use aegis_boot.Prelude.{
  ℕ, ◌≡◌, ◌⊎◌, inl, inr, refl, sym, true, ◌&&◌, List, [], ◌∷◌, ◌++◌, Text, text_eq, ◌==◌, arith,
  Bool-cases,
}
use aegis_boot.Prelude.Words.{text_eq-eq}
use aegis_boot.Iso.{DiscoveredIso, FailedIso}
use aegis_boot.Parser.{BootEntry, ScanFailure, path_text}
use aegis_boot.Probe.Rows.{failed_iso}
use aegis_boot.Probe.Discover.{
  Roots, Gathered, has_key, has_path, size_in, keep_entry, keep_entries, keep_failure,
  keep_failures,
}

module _ {A : Type 0} where
  abbrev pub In : A → List A → Type 0
  In x [] = ⊥
  In x (y ∷ ys) = (x ≡ y) ⊎ In x ys

  pub In-append : (x : A) (xs ys : List A) → In x xs → In x (xs ++ ys)
  In-append x [] ys i = elim i [ ]
  In-append x (y ∷ xs) ys (inl e) = inl e
  In-append x (y ∷ xs) ys (inr i) = inr (In-append x xs ys i)

  pub In-last : (x : A) (xs : List A) → In x (xs ++ x ∷ [])
  In-last x [] = inl refl
  In-last x (y ∷ xs) = inr (In-last x xs)

has_key-cons :
    (name n : Text) (size s : ℕ) (keys : List (Text × ℕ))
    → has_key name size ((n, s) ∷ keys) ≡ true
    → ((n ≡ name) × (s ≡ size)) ⊎ (has_key name size keys ≡ true)
unfolding has_key
has_key-cons name n size s keys h = elim (Bool-cases (text_eq n name && s == size)) [
  | inr e ↦ inr (ground (arith, h, e))
  | inl e ↦ inl (text_eq-eq n name (ground (arith, e)), ground (arith, e))
]

has_path-cons :
    (path p : Text) (ps : List Text)
    → has_path path (p ∷ ps) ≡ true
    → (p ≡ path) ⊎ (has_path path ps ≡ true)
unfolding has_path
has_path-cons path p ps h = elim (Bool-cases (text_eq p path)) [
  | inr e ↦ inr (ground (arith, h, e))
  | inl e ↦ inl (text_eq-eq p path e)
]

module _ (r : Roots) (make : BootEntry → Text → DiscoveredIso) where
  -- A row for the ISO of a name and a size.
  abbrev pub HasRow : Text → ℕ → List DiscoveredIso → Type 0
  HasRow name size isos =
      (e : BootEntry) × (root : Text) × In (make e root) isos
      × (e.source_iso ≡ name)
      × (size_in r root e.source_iso ≡ size)

  abbrev pub HasFailure : Text → List FailedIso → Type 0
  HasFailure path failed =
      (f : ScanFailure) × In (failed_iso f) failed × (path_text f.iso_path ≡ path)

  -- What the sets hold is in the lists.
  pub record IsKept (g : Gathered) : Type 0 where
    pub row_of :
        (name : Text) (size : ℕ) → has_key name size g.seen ≡ true → HasRow name size g.isos
    pub failure_of : (path : Text) → has_path path g.seen_failed ≡ true → HasFailure path g.failed

  -- The lists only grow.
  pub record Grows (g h : Gathered) : Type 0 where
    pub rows : (x : DiscoveredIso) → In x g.isos → In x h.isos
    pub failures : (x : FailedIso) → In x g.failed → In x h.failed

  pub Grows-refl : (g : Gathered) → Grows g g
  Grows-refl g = record { rows = λ x i. i; failures = λ x i. i }

  pub Grows-trans : (g h k : Gathered) → Grows g h → Grows h k → Grows g k
  Grows-trans g h k a b = record {
    rows = λ x i. b.rows x (a.rows x i);
    failures = λ x i. b.failures x (a.failures x i);
  }

  pub HasRow-Grows :
      (name : Text) (size : ℕ) (g h : Gathered)
      → Grows g h
      → HasRow name size g.isos
      → HasRow name size h.isos
  HasRow-Grows name size g h a (e, root, i, n, s) = (e, root, a.rows (make e root) i, n, s)

  pub HasFailure-Grows :
      (path : Text) (g h : Gathered)
      → Grows g h
      → HasFailure path g.failed
      → HasFailure path h.failed
  HasFailure-Grows path g h a (f, i, p) = (f, a.failures (failed_iso f) i, p)

  -- A step that keeps the sets and the lists together, and grows the lists.
  abbrev pub Step : Gathered → Gathered → Type 0
  Step g h = IsKept h × Grows g h

  keep_entry-Step :
      (root : Text) (e : BootEntry) (g : Gathered)
      → IsKept g
      → Step g (keep_entry r make root e g)
        × HasRow e.source_iso (size_in r root e.source_iso) (keep_entry r make root e g).isos
  unfolding keep_entry
  keep_entry-Step root e g k =
      let size = size_in r root e.source_iso in
      let row = make e root in
      elim (Bool-cases (has_key e.source_iso size g.seen)) [
        | inl old ↦ rw old ((k, Grows-refl g), k.row_of e.source_iso size old)
        | inr new ↦
            let here : HasRow e.source_iso size (g.isos ++ row ∷ []) =
              (e, root, In-last row g.isos, refl, refl) in
            rw new (
              (
                record {
                  row_of = λ name s h. elim (has_key-cons name e.source_iso s size g.seen h) [
                    | inl (p, q) ↦ (e, root, In-last row g.isos, p, q)
                    | inr old ↦
                        let (e', root', i, n, z) = k.row_of name s old in
                        (e', root', In-append (make e' root') g.isos (row ∷ []) i, n, z)
                  ];
                  failure_of = k.failure_of;
                },
                record { rows = λ x i. In-append x g.isos (row ∷ []) i; failures = λ x i. i },
              ),
              here,
            )
      ]

  keep_failure-Step :
      (f : ScanFailure) (g : Gathered)
      → IsKept g
      → Step g (keep_failure r make f g)
        × HasFailure (path_text f.iso_path) (keep_failure r make f g).failed
  unfolding keep_failure
  keep_failure-Step f g k =
      let path = path_text f.iso_path in
      let row = failed_iso f in
      elim (Bool-cases (has_path path g.seen_failed)) [
        | inl old ↦ rw old ((k, Grows-refl g), k.failure_of path old)
        | inr new ↦
            let here : HasFailure path (g.failed ++ row ∷ []) = (f, In-last row g.failed, refl) in
            rw new (
              (
                record {
                  row_of = k.row_of;
                  failure_of = λ p h. elim (has_path-cons p path g.seen_failed h) [
                    | inl q ↦ (f, In-last row g.failed, q)
                    | inr old ↦
                        let (f', i, q) = k.failure_of p old in
                        (f', In-append (failed_iso f') g.failed (row ∷ []) i, q)
                  ];
                },
                record { rows = λ x i. i; failures = λ x i. In-append x g.failed (row ∷ []) i },
              ),
              here,
            )
      ]

  pub keep_entries-Step :
      (root : Text) (es : List BootEntry) (g : Gathered)
      → IsKept g
      → Step g (keep_entries r make root es g)
        × ((e : BootEntry)
            → In e es
            → HasRow e.source_iso
                (size_in r root e.source_iso)
                (keep_entries r make root es g).isos)
  unfolding keep_entries
  keep_entries-Step root [] g k = ((k, Grows-refl g), λ e i. elim i [ ])
  keep_entries-Step root (e ∷ es) g k =
      let g' = keep_entry r make root e g in
      let ((k', a), row) = keep_entry-Step root e g k in
      let ((k'', b), rows) = keep_entries-Step root es g' k' in
      let last = keep_entries r make root es g' in
      (
        (k'', Grows-trans g g' last a b),
        λ x i. elim i [
          | inl p ↦
              subst (λ (y : BootEntry). HasRow y.source_iso (size_in r root y.source_iso) last.isos)
                (sym p) (HasRow-Grows e.source_iso (size_in r root e.source_iso) g' last b row)
          | inr j ↦ rows x j
        ],
      )

  pub keep_failures-Step :
      (fs : List ScanFailure) (g : Gathered)
      → IsKept g
      → Step g (keep_failures r make fs g)
        × ((f : ScanFailure)
            → In f fs
            → HasFailure (path_text f.iso_path) (keep_failures r make fs g).failed)
  unfolding keep_failures
  keep_failures-Step [] g k = ((k, Grows-refl g), λ f i. elim i [ ])
  keep_failures-Step (f ∷ fs) g k =
      let g' = keep_failure r make f g in
      let ((k', a), row) = keep_failure-Step f g k in
      let ((k'', b), rows) = keep_failures-Step fs g' k' in
      let last = keep_failures r make fs g' in
      (
        (k'', Grows-trans g g' last a b),
        λ x i. elim i [
          | inl p ↦
              subst (λ (y : ScanFailure). HasFailure (path_text y.iso_path) last.failed) (sym p)
                (HasFailure-Grows (path_text f.iso_path) g' last b row)
          | inr j ↦ rows x j
        ],
      )
