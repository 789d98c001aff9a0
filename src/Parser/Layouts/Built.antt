-- ===== src/Parser/Layouts/Built.antt =====
-- crates/iso-parser/src/lib.rs: what the makers of boot entries build from a kernel and the initrds.
use aegis_boot.Prelude.{
  ◌≡◌, ◌⊎◌, inl, inr, refl, ap, Bool, true, Option, none, some, List, [], ◌∷◌, ◌++◌, Text, codes,
  is_prefix, arith, Option-cases,
}
use aegis_boot.Prelude.Words.{text_eq-eq}
use aegis_boot.Prelude.Answers.{value}
use aegis_boot.Parser.{
  Component, root_dir, cur_dir, parent_dir, normal, FilePath, IsoEnvironment, ok, BootEntry,
  strip_base, component_eq, Outcome-cases,
}
use aegis_boot.Parser.Layouts.{
  name_or_empty, relative, relative_initrd, first_existing, boot_file, built, version_of,
  arch_initrds, arch_made, debian_initrds, debian_made, fedora_initrds, fedora_made, arch_entry,
  debian_entry, fedora_entry, isolinux_entry, windows_kernel,
}

component_eq-eq : (c d : Component) → component_eq c d ≡ true → c ≡ d
unfolding component_eq
component_eq-eq root_dir root_dir h = refl
component_eq-eq cur_dir cur_dir h = refl
component_eq-eq parent_dir parent_dir h = refl
component_eq-eq (normal s) (normal t) h = ap normal (text_eq-eq s t h)
component_eq-eq c d h = cc

append-strip_base : (b p r : FilePath) → strip_base b p ≡ some r → b ++ r ≡ p
unfolding strip_base
append-strip_base [] p r h = ground arith
append-strip_base (c ∷ b) [] r h = cc
append-strip_base (c ∷ b) (d ∷ p) r h = ground (arith, component_eq-eq c d, append-strip_base b p r)

-- A path stands in a list.
abbrev pub In : FilePath → List FilePath → Type 0
In p [] = ⊥
In p (q ∷ qs) = (p ≡ q) ⊎ In p qs

abbrev pub All : (BootEntry → Type 0) → List BootEntry → Type 0
All P [] = Unit
All P (e ∷ es) = P e × All P es

pub All-append :
    (P : BootEntry → Type 0) (xs ys : List BootEntry) → All P xs → All P ys → All P (xs ++ ys)
All-append P [] ys a b = b
All-append P (x ∷ xs) ys (p, a) b = (p, All-append P xs ys a b)

module _ (env : IsoEnvironment) (mount_point : FilePath) where
  -- The kernel is a file that a listing shows, under a kernel's name.
  pub record IsListed (kernel : FilePath) : Type 0 where
    pub dir : FilePath
    pub files : List FilePath
    pub listed : env.list_dir dir ≡ value files
    pub there : In (mount_point ++ kernel) files
    pub named_so : is_prefix (codes "vmlinuz") (name_or_empty (mount_point ++ kernel)) ≡ true

  abbrev pub initrd_exists : Option FilePath → Bool
  initrd_exists none = true
  initrd_exists (some p) = env.exists (mount_point ++ p)

  pub record IsSound (e : BootEntry) : Type 0 where
    pub kernel_there : (e.kernel ≡ windows_kernel env mount_point) ⊎ IsListed e.kernel
    pub initrd_there : initrd_exists e.initrd ≡ true

  relative-append :
      (what : Text) (p r : FilePath) → relative what mount_point p ≡ ok r → mount_point ++ r ≡ p
  unfolding relative
  relative-append what p r h = elim (Option-cases (strip_base mount_point p)) [
    | inl q ↦ absurd (ground (arith, q))
    | inr (x, q) ↦ ground (arith, q, append-strip_base mount_point p x q)
  ]

  first_existing-exists :
      (ps : List FilePath) (p : FilePath) → first_existing env ps ≡ some p → env.exists p ≡ true
  unfolding first_existing
  first_existing-exists [] p h = cc
  first_existing-exists (q ∷ ps) p h = ground (arith, first_existing-exists ps p)

  relative_initrd-exists :
      (ps : List FilePath) (r : Option FilePath)
      → relative_initrd mount_point (first_existing env ps) ≡ ok r
      → initrd_exists r ≡ true
  unfolding relative_initrd
  relative_initrd-exists ps r h = elim (Option-cases (first_existing env ps)) [
    | inl q ↦ ground (arith, q)
    | inr (p, q) ↦ elim (Outcome-cases (relative (codes "Initrd") mount_point p)) [
      | inr (e, u) ↦ absurd (ground (arith, q, u))
      | inl (x, u) ↦
          ground (arith, q, u, first_existing-exists ps p q, relative-append (codes "Initrd") p x u)
    ]
  ]

  -- What a maker of entries turns the file `p` into.
  abbrev pub IsOf : FilePath → BootEntry → Type 0
  IsOf p e = (mount_point ++ e.kernel ≡ p) × (initrd_exists e.initrd ≡ true)

  built-IsOf :
      (p : FilePath) (ps : List FilePath) (make : FilePath → Option FilePath → BootEntry)
      (e : BootEntry)
      → ((k : FilePath) (i : Option FilePath) → ((make k i).kernel ≡ k) × ((make k i).initrd ≡ i))
      → built env mount_point p ps make ≡ ok e
      → IsOf p e
  unfolding built
  built-IsOf p ps make e keeps h = elim (Outcome-cases (relative (codes "Kernel") mount_point p)) [
    | inr (x, q) ↦ absurd (ground (arith, q))
    | inl (k, q) ↦ elim (Outcome-cases (relative_initrd mount_point (first_existing env ps))) [
      | inr (x, u) ↦ absurd (ground (arith, q, u))
      | inl (i, u) ↦ (
        ground (arith, h, q, u, keeps k i, relative-append (codes "Kernel") p k q),
        ground (arith, h, q, u, keeps k i, relative_initrd-exists ps i u),
      )
    ]
  ]

  pub arch_entry-IsOf :
      (source_iso dir p : FilePath) (e : BootEntry)
      → arch_entry env mount_point source_iso dir p ≡ ok e
      → IsOf p e
  unfolding arch_entry
  arch_entry-IsOf source_iso dir p e h =
      built-IsOf p (arch_initrds env dir (name_or_empty p)) (arch_made env source_iso p) e
        (λ k i. (refl, refl)) h

  pub debian_entry-IsOf :
      (source_iso dir : FilePath) (b : Bool) (p : FilePath) (e : BootEntry)
      → debian_entry env mount_point source_iso dir b p ≡ ok e
      → IsOf p e
  unfolding debian_entry
  debian_entry-IsOf source_iso dir b p e h =
      built-IsOf p (debian_initrds env dir) (debian_made env source_iso p b) e (λ k i. (refl, refl))
        h

  pub fedora_entry-IsOf :
      (source_iso dir p : FilePath) (e : BootEntry)
      → fedora_entry env mount_point source_iso dir p ≡ ok e
      → IsOf p e
  unfolding fedora_entry
  fedora_entry-IsOf source_iso dir p e h =
      built-IsOf p (fedora_initrds env dir (version_of env p))
        (fedora_made env (codes "Fedora ") (codes "inst.stage2=hd:LABEL=Fedora-39-x86_64")
          source_iso p)
        e (λ k i. (refl, refl)) h

  pub isolinux_entry-IsOf :
      (source_iso p : FilePath) (e : BootEntry)
      → isolinux_entry env mount_point source_iso p ≡ ok e
      → IsOf p e
  unfolding isolinux_entry
  isolinux_entry-IsOf source_iso p e h =
      built-IsOf p
        (boot_file env (boot_file env mount_point (codes "images")) (codes "initrd.img") ∷ [])
        (fedora_made env (codes "Fedora (isolinux) ") (codes "inst.stage2=hd:LABEL=Fedora")
          source_iso p)
        e (λ k i. (refl, refl)) h
