-- ===== src/Parser/Scan/Found.antt =====
-- crates/iso-parser/src/lib.rs: the walk beside what stands in the tree.
use mathlib.Core.Path.{subst}
use aegis_boot.Prelude.{
  ◌≡◌, ◌⊎◌, ◌↔◌, inl, inr, refl, sym, Bool, true, false, List, [], ◌∷◌, ◌++◌, arith, if◌then◌else◌,
}
use aegis_boot.Parser.{FilePath, Outcome, ok, Outcome-cases}
use aegis_boot.Parser.Layouts.Built.{In}
use aegis_boot.Parser.Scan.{
  Node, file, dir, Listing, unreadable, nil, cons, is_iso, is_skipped, below, isos_or_none,
  find_iso_files, isos_of,
}

-- A listing that can be read to its end.
abbrev pub is_readable : Listing → Bool
is_readable (unreadable e) = false
is_readable nil = true
is_readable (cons n l) = is_readable l

-- `p` is an ISO file of the tree below `base`, in directories that are read and not skipped.
abbrev mutual
  pub Stands : FilePath → FilePath → Listing → Type 0
  Stands base p (unreadable e) = ⊥
  Stands base p nil = ⊥
  Stands base p (cons n l) = Is base p n ⊎ Stands base p l

  pub Is : FilePath → FilePath → Node → Type 0
  Is base p (file name) = (is_iso name ≡ true) × (p ≡ below base name)
  Is base p (dir name sub) =
      (is_skipped name ≡ false) × (is_readable sub ≡ true) × Stands (below base name) p sub

In-append : (p : FilePath) (xs ys : List FilePath) → In p (xs ++ ys) ↔ (In p xs ⊎ In p ys)
In-append p [] ys = (λ h. inr h, λ h. elim h [ inl x ↦ absurd x | inr y ↦ y ])
In-append p (x ∷ xs) ys = (
  λ h. elim h [
    | inl e ↦ inl (inl e)
    | inr m ↦ elim ((In-append p xs ys).0 m) [ inl a ↦ inl (inr a) | inr b ↦ inr b ]
  ],
  λ h. elim h [
    | inl a ↦ elim a [ inl e ↦ inl e | inr m ↦ inr ((In-append p xs ys).1 (inl m)) ]
    | inr b ↦ inr ((In-append p xs ys).1 (inr b))
  ],
)

In-if : (b : Bool) (p x : FilePath) → In p (if b then x ∷ [] else []) ↔ ((b ≡ true) × (p ≡ x))
In-if true p x = (λ h. elim h [ inl e ↦ (refl, e) | inr m ↦ absurd m ], λ h. inl h.1)
In-if false p x = (λ h. absurd h, λ h. absurd (cc h.0))

In-unless :
    (b : Bool) (p : FilePath) (xs : List FilePath)
    → In p (if b then [] else xs) ↔ ((b ≡ false) × In p xs)
In-unless true p xs = (λ h. absurd h, λ h. absurd (cc h.0))
In-unless false p xs = (λ h. (refl, h), λ h. h.1)

-- The walk fails just where the listing does.
find-is_readable :
    (base : FilePath) (l : Listing) (isos : List FilePath)
    → find_iso_files base l ≡ ok isos
    → is_readable l ≡ true
unfolding find_iso_files
find-is_readable base (unreadable e) isos h = absurd (ground arith)
find-is_readable base nil isos h = refl
find-is_readable base (cons n l) isos h = elim (Outcome-cases (find_iso_files base l)) [
  | inr (e, q) ↦ absurd (ground (arith, q))
  | inl (rest, q) ↦ find-is_readable base l rest q
]

readable-find :
    (base : FilePath) (l : Listing)
    → is_readable l ≡ true
    → (isos : List FilePath) × (find_iso_files base l ≡ ok isos)
unfolding find_iso_files
readable-find base (unreadable e) h = absurd (ground arith)
readable-find base nil h = ([], refl)
readable-find base (cons n l) h =
    let (rest, q) = readable-find base l h in (isos_of base n ++ rest, rw q)

-- What is taken of a directory that may fail.
inside :
    (base p : FilePath) (l : Listing)
    → ((isos : List FilePath) → find_iso_files base l ≡ ok isos → In p isos ↔ Stands base p l)
    → In p (isos_or_none (find_iso_files base l)) ↔ ((is_readable l ≡ true) × Stands base p l)
inside base p l found = elim (Outcome-cases (find_iso_files base l)) [
  | inr (e, q) ↦ (
    λ m. absurd (subst {A = Outcome (List FilePath)} (λ o. In p (isos_or_none o)) q m),
    λ h. (let (isos, u) = readable-find base l h.0 in absurd (ground (arith, q, u))),
  )
  | inl (isos, q) ↦
      let there = found isos q in
      (
        λ m. (
          find-is_readable base l isos q,
          there.0 (subst {A = Outcome (List FilePath)} (λ o. In p (isos_or_none o)) q m),
        ),
        λ h. subst {A = Outcome (List FilePath)} (λ o. In p (isos_or_none o)) (sym q) (there.1 h.1),
      )
]

mutual
  unfolding find_iso_files

  found :
      (base p : FilePath) (l : Listing) (isos : List FilePath)
      → find_iso_files base l ≡ ok isos
      → In p isos ↔ Stands base p l
  found base p (unreadable e) isos h = absurd (ground arith)
  found base p nil [] h = (λ x. x, λ x. x)
  found base p nil (i ∷ is) h = absurd (ground arith)
  found base p (cons n l) isos h = elim (Outcome-cases (find_iso_files base l)) [
    | inr (e, q) ↦ absurd (ground (arith, q))
    | inl (rest, q) ↦
        let made : isos_of base n ++ rest ≡ isos = ground (arith, q, h) in
        let others = found base p l rest q in
        let here = item base p n in
        let both = In-append p (isos_of base n) rest in
        (
          λ m. elim (both.0 (subst {A = List FilePath} (λ xs. In p xs) (sym made) m)) [
            | inl a ↦ inl (here.0 a)
            | inr b ↦ inr (others.0 b)
          ],
          λ s.
              subst {A = List FilePath} (λ xs. In p xs) made
                (both.1 (elim s [ inl a ↦ inl (here.1 a) | inr b ↦ inr (others.1 b) ])),
        )
  ]

  item : (base p : FilePath) (n : Node) → In p (isos_of base n) ↔ Is base p n
  item base p (file name) = In-if (is_iso name) p (below base name)
  item base p (dir name sub) =
      let unskipped =
        In-unless (is_skipped name) p (isos_or_none (find_iso_files (below base name) sub)) in
      let inner = inside (below base name) p sub (found (below base name) p sub) in
      (
        λ m. (let (k, i) = unskipped.0 m in let (r, s) = inner.0 i in (k, r, s)),
        λ h. unskipped.1 (h.0, inner.1 (h.1, h.2)),
      )
