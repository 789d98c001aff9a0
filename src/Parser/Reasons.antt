-- ===== src/Parser/Reasons.antt =====
-- crates/iso-parser/src/lib.rs: `sanitize_reason`, the text of a failure that a terminal shows.
use aegis_boot.Prelude.{
  ℕ, zero, suc, ◌+◌, ◌≤◌, ◌≡◌, inl, inr, refl, Bool, true, ◌&&◌, not, some, [], ◌∷◌, ◌++◌, map,
  Text, codes, len, len_utf8, is_char_boundary, leb, if◌then◌else◌, arith, Bool-cases,
}
use aegis_boot.Prelude.Decimal.{trim, trim_start, trim_end}
use aegis_boot.Prelude.Utf8.{len-append, split_of_boundary, split_at-append, is_char_boundary_zero}
use aegis_boot.Parser.{is_control, max_reason_len, cut_back, truncated, sanitize_reason}

abbrev pub is_printable : Text → Bool
is_printable [] = true
is_printable (c ∷ s) = not (is_control c) && is_printable s

cleaned-is_printable :
    (s : Text) → is_printable (map (λ c. if is_control c then 32 else c) s) ≡ true
cleaned-is_printable [] = refl
cleaned-is_printable (c ∷ s) = ground (arith, cleaned-is_printable s)

trim_start-is_printable : (s : Text) → is_printable s ≡ true → is_printable (trim_start s) ≡ true
unfolding trim_start
trim_start-is_printable [] h = refl
trim_start-is_printable (c ∷ s) h = ground (arith, trim_start-is_printable s)

trim_end-is_printable : (s : Text) → is_printable s ≡ true → is_printable (trim_end s) ≡ true
unfolding trim_end
trim_end-is_printable [] h = refl
trim_end-is_printable (c ∷ s) h = ground (arith, trim_end-is_printable s)

first_part-is_printable :
    (l r : Text) → is_printable (l ++ r) ≡ true → is_printable (l ++ codes "…") ≡ true
first_part-is_printable [] r h = refl
first_part-is_printable (c ∷ l) r h = ground (arith, first_part-is_printable l r)

cut_back_lem : (s : Text) (n : ℕ) → (is_char_boundary s (cut_back s n) ≡ true) × (cut_back s n ≤ n)
unfolding cut_back
cut_back_lem s zero = ground (arith, is_char_boundary_zero s)
cut_back_lem s (suc n) = ground (arith, cut_back_lem s n)

ellipsis-len : len (codes "…") ≡ 3
unfolding len len_utf8
ellipsis-len = refl

truncated_lem :
    (end : ℕ) (s : Text)
    → is_printable s ≡ true
    → (out : Text) × (truncated end s ≡ some out) × (len out ≤ end + 3) × (is_printable out ≡ true)
unfolding truncated
truncated_lem end s h =
    let (b, n) = cut_back_lem s end in
    let (l, r, e, k) = split_of_boundary s (cut_back s end) b in
    (
      l ++ codes "…",
      ground (arith, e, k, split_at-append l r),
      omega (arith, len-append l (codes "…"), ellipsis-len, n, k),
      first_part-is_printable l r (ground (arith, e, h)),
    )

trim-is_printable : (s : Text) → is_printable s ≡ true → is_printable (trim s) ≡ true
unfolding trim
trim-is_printable s h = trim_end-is_printable (trim_start s) (trim_start-is_printable s h)

-- Every reason is turned into a text, with no panic at a character's middle, that has no control
-- character and at most 259 bytes: the limit of 256 and the mark of what is cut off.
pub sanitize_reason_bounds :
    (raw : Text)
    → (out : Text) × (sanitize_reason raw ≡ some out) × (len out ≤ 259) × (is_printable out ≡ true)
unfolding sanitize_reason
sanitize_reason_bounds raw =
    let t = trim (map (λ c. if is_control c then 32 else c) raw) in
    let p =
      trim-is_printable (map (λ c. if is_control c then 32 else c) raw)
        (cleaned-is_printable raw) in
    elim (Bool-cases (leb (len t) max_reason_len)) [
      | inl b ↦ (t, ground (arith, b), ground (arith, b), p)
      | inr b ↦
          let (out, q, n, k) = truncated_lem max_reason_len t p in (out, ground (arith, b, q), n, k)
    ]
