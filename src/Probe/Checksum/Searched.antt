-- ===== src/Probe/Checksum/Searched.antt =====
-- crates/iso-probe/src/signature.rs: what the search for the published hash has found.
use mathlib.Core.Path.{subst}
use aegis_boot.Prelude.{
  ◌≡◌, ◌∙◌, ◌⊎◌, inl, inr, refl, sym, ap, true, Option, none, some, List, [], ◌∷◌, Text, codes,
  text_eq, file_name, arith, Bool-cases,
}
use aegis_boot.Prelude.Decimal.{trim}
use aegis_boot.Prelude.Parse.{lines}
use aegis_boot.Prelude.Words.{text_eq-eq}
use aegis_boot.Fetch.Entry.{join}
use aegis_boot.Probe.{sidecar_path}
use aegis_boot.Probe.Checksum.{
  TextRead, text, absent, denied, Media, ExpectedHashResult, found, not_found, no_hash, parent,
  parse_sha256sum_line, parse_sha256sums_line, hash_for, found_or, find_line, of_sums, of_hash,
  of_dir, of_beside, find_expected_hash,
}

text_inj : (s t : Text) → text s ≡ text t → s ≡ t
text_inj s t h = cc

some_eq : (s t : Text) → some s ≡ some t → s ≡ t
some_eq s t h = cc

absent-ne-text : (t : Text) → absent ≡ text t → ⊥
absent-ne-text t h = cc

absent-ne-denied : (e : Text) → absent ≡ denied e → ⊥
absent-ne-denied e h = cc

text-ne-denied : (t e : Text) → text t ≡ denied e → ⊥
text-ne-denied t e h = cc

none-ne-some : (t : Text) → none ≡ some t → ⊥
none-ne-some t h = cc

abbrev pub In : Text → List Text → Type 0
In l [] = ⊥
In l (x ∷ xs) = (l ≡ x) ⊎ In l xs

text_eq_refl : (t : Text) → text_eq t t ≡ true
unfolding text_eq
text_eq_refl [] = refl
text_eq_refl (c ∷ t) = ground (arith, text_eq_refl t)

-- A line that names the hash of a file.
abbrev pub Names : (basename hash l : Text) → Type 0
Names basename hash l = parse_sha256sums_line l ≡ some (hash, basename)

hash_for-some :
    (basename hash : Text) (p : Option (Text × Text))
    → hash_for basename p ≡ some hash
    → p ≡ some (hash, basename)
hash_for-some basename hash none q = cc
hash_for-some basename hash (some (h, n)) q = elim (Bool-cases (text_eq n basename)) [
  | inl e ↦ ground (arith, q, e, text_eq-eq n basename)
  | inr e ↦ absurd (ground (arith, q, e))
]

module _ (media : Media) (iso_path : Text) where
  abbrev pub beside : Text
  beside = sidecar_path (codes "sha256") iso_path

  abbrev pub sums_of : Text → Text
  sums_of dir = join dir (codes "SHA256SUMS")

  -- The file beside the ISO, or else a line for it in the directory's sums.
  pub record InSums (hash source : Text) : Type 0 where
    pub dir : Text
    pub sums : Text
    pub basename : Text
    pub line : Text
    pub nothing_beside : media.read_to_string beside ≡ absent
    pub dir_of : parent iso_path ≡ some dir
    pub read : media.read_to_string (sums_of dir) ≡ text sums
    pub name_of : file_name iso_path ≡ some basename
    pub stands : In line (lines sums)
    pub names : parse_sha256sums_line line ≡ some (hash, basename)
    pub from : source ≡ sums_of dir

  abbrev pub Beside : (hash source : Text) → Type 0
  Beside hash source =
      (body : Text) × (media.read_to_string beside ≡ text body)
      × (parse_sha256sum_line (trim body) ≡ some hash)
      × (source ≡ beside)

  abbrev pub Named : (hash source : Text) → Type 0
  Named hash source = Beside hash source ⊎ InSums hash source

  -- Neither file could not be read, and no line names the ISO.
  pub record Unnamed : Type 0 where
    pub nothing_beside : media.read_to_string beside ≡ absent
    pub readable :
        (dir e : Text)
        → parent iso_path ≡ some dir
        → media.read_to_string (sums_of dir) ≡ denied e
        → ⊥
    pub no_line :
        (dir sums basename l hash : Text)
        → parent iso_path ≡ some dir
        → media.read_to_string (sums_of dir) ≡ text sums
        → file_name iso_path ≡ some basename
        → In l (lines sums)
        → Names basename hash l
        → ⊥

  abbrev pub Unreadable : (source reason : Text) → Type 0
  Unreadable source reason =
      (media.read_to_string source ≡ denied reason)
      ⊎ ((body : Text) × (media.read_to_string source ≡ text body)
          × (parse_sha256sum_line (trim body) ≡ none))

  abbrev pub Search : ExpectedHashResult → Type 0
  Search (found hash source) = Named hash source
  Search not_found = Unnamed
  Search (no_hash source reason) = Unreadable source reason

  abbrev Lines : (basename source : Text) → List Text → ExpectedHashResult → Type 0
  Lines basename source ls (found hash s) =
      (l : Text) × In l ls × Names basename hash l × (s ≡ source)
  Lines basename source ls not_found = (l hash : Text) → In l ls → Names basename hash l → ⊥
  Lines basename source ls (no_hash s reason) = ⊥

  hash_for-none :
      (basename hash : Text) (p : Option (Text × Text))
      → hash_for basename p ≡ none
      → p ≡ some (hash, basename)
      → ⊥
  hash_for-none basename hash none q n = cc
  hash_for-none basename hash (some (h, x)) q n = ground (arith, q, n, text_eq_refl basename)

  found_or-Lines :
      (source basename l : Text) (ls : List Text) (h : Option Text) (rest : ExpectedHashResult)
      → hash_for basename (parse_sha256sums_line l) ≡ h
      → Lines basename source ls rest
      → Lines basename source (l ∷ ls) (found_or source h rest)
  found_or-Lines source basename l ls (some hash) rest q k =
      (l, inl refl, hash_for-some basename hash (parse_sha256sums_line l) q, refl)
  found_or-Lines source basename l ls none (found hash s) q (x, i, n, e) = (x, inr i, n, e)
  found_or-Lines source basename l ls none (no_hash s reason) q k = k
  found_or-Lines source basename l ls none not_found q k = λ x hash i n. elim i [
    | inl e ↦
        hash_for-none basename hash (parse_sha256sums_line l) q
          (ap parse_sha256sums_line (sym e) ∙ n)
    | inr j ↦ k x hash j n
  ]

  find_line-Lines :
      (source basename : Text) (ls : List Text)
      → Lines basename source ls (find_line source basename ls)
  unfolding find_line
  find_line-Lines source basename [] = λ l hash i n. i
  find_line-Lines source basename (l ∷ ls) =
      found_or-Lines source basename l ls (hash_for basename (parse_sha256sums_line l))
        (find_line source basename ls) refl (find_line-Lines source basename ls)

  module _ (alone : media.read_to_string beside ≡ absent) (dir : Text)
      (there : parent iso_path ≡ some dir) where
    same_dir :
        (d : Text)
        → parent iso_path ≡ some d
        → media.read_to_string (sums_of d) ≡ media.read_to_string (sums_of dir)
    same_dir d p = ap (λ x. media.read_to_string (sums_of x)) (some_eq d dir (sym p ∙ there))

    of_lines :
        (sums basename : Text) (r : ExpectedHashResult)
        → media.read_to_string (sums_of dir) ≡ text sums
        → file_name iso_path ≡ some basename
        → Lines basename (sums_of dir) (lines sums) r
        → Search r
    of_lines sums basename (found hash s) q n (l, i, k, e) = inr (record {
      dir = dir;
      sums = sums;
      basename = basename;
      line = l;
      nothing_beside = alone;
      dir_of = there;
      read = q;
      name_of = n;
      stands = i;
      names = k;
      from = e;
    })
    of_lines sums basename (no_hash s reason) q n k = elim k [ ]
    of_lines sums basename not_found q n k = record {
      nothing_beside = alone;
      readable = λ d e p r. text-ne-denied sums e (sym q ∙ sym (same_dir d p) ∙ r);
      no_line = λ d s b l hash p r m i h.
          k l hash (subst (λ x. In l (lines x)) (text_inj s sums (sym r ∙ same_dir d p ∙ q)) i)
            (h ∙ ap (λ x. some (hash, x)) (some_eq b basename (sym m ∙ n)));
    }

    of_sums-Search :
        (name : Option Text) (r : TextRead)
        → file_name iso_path ≡ name
        → media.read_to_string (sums_of dir) ≡ r
        → Search (of_sums (sums_of dir) name r)
    unfolding of_sums
    of_sums-Search name (denied e) n q = inl q
    of_sums-Search name absent n q = record {
      nothing_beside = alone;
      readable = λ d e p r. absent-ne-denied e (sym q ∙ sym (same_dir d p) ∙ r);
      no_line = λ d s b l hash p r m i h. absent-ne-text s (sym q ∙ sym (same_dir d p) ∙ r);
    }
    of_sums-Search none (text sums) n q = record {
      nothing_beside = alone;
      readable = λ d e p r. text-ne-denied sums e (sym q ∙ sym (same_dir d p) ∙ r);
      no_line = λ d s b l hash p r m i h. none-ne-some b (sym n ∙ m);
    }
    of_sums-Search (some basename) (text sums) n q =
        of_lines sums basename (find_line (sums_of dir) basename (lines sums)) q n
          (find_line-Lines (sums_of dir) basename (lines sums))

  of_hash-Search :
      (body : Text) (h : Option Text)
      → media.read_to_string beside ≡ text body
      → parse_sha256sum_line (trim body) ≡ h
      → Search (of_hash beside h)
  of_hash-Search body none q p = inr (body, q, p)
  of_hash-Search body (some hash) q p = inl (body, q, p, refl)

  of_dir-Search :
      (dir : Option Text)
      → media.read_to_string beside ≡ absent
      → parent iso_path ≡ dir
      → Search (of_dir media iso_path dir)
  unfolding of_dir
  of_dir-Search none alone p = record {
    nothing_beside = alone;
    readable = λ d e r s. none-ne-some d (sym p ∙ r);
    no_line = λ d s b l hash r q m i h. none-ne-some d (sym p ∙ r);
  }
  of_dir-Search (some dir) alone p =
      of_sums-Search alone dir p (file_name iso_path) (media.read_to_string (sums_of dir)) refl refl

  of_beside-Search :
      (r : TextRead) → media.read_to_string beside ≡ r → Search (of_beside media iso_path beside r)
  unfolding of_beside
  of_beside-Search (denied e) q = inl q
  of_beside-Search absent q = of_dir-Search (parent iso_path) q refl
  of_beside-Search (text body) q = of_hash-Search body (parse_sha256sum_line (trim body)) q refl

  pub find_expected_hash-Search : Search (find_expected_hash media iso_path)
  unfolding find_expected_hash
  find_expected_hash-Search = of_beside-Search (media.read_to_string beside) refl

  pub find_expected_hash-beside :
      (body hash : Text)
      → media.read_to_string beside ≡ text body
      → parse_sha256sum_line (trim body) ≡ some hash
      → find_expected_hash media iso_path ≡ found hash beside
  unfolding find_expected_hash of_beside
  find_expected_hash-beside body hash q p = rw (q, of_beside) (rw p)
