-- ===== src/App/Delete/Kept.antt =====
-- crates/rescue-tui/src/state.rs: what a deletion keeps of the other ISOs.
use aegis_boot.Prelude.{
  ap, Option-cases, inl, inr, ℕ, zero, suc, ◌≡◌, ◌≢◌, refl, some, List, [], ◌∷◌, arith, length,
  get_elem?, remove?,
}
use aegis_boot.Prelude.Table
use aegis_boot.Prelude.Table.{Table, get-insert, get-remove}
use aegis_boot.Screen.{Screen}
use aegis_boot.App.{AppState}
use aegis_boot.App.View.{real_index}
use aegis_boot.App.View.Count.{real_index-get_elem?}
use aegis_boot.App.Cmdline.{effective_cmdline, declared_cmdline}
use aegis_boot.App.Delete.{shift, shifted_overrides, without_iso, delete_completed}

module _ {A : Type 0} where
  -- `get_elem?` past the one removed.
  remove?-suc :
      (x : A) (xs ys : List A) (r : ℕ)
      → remove? (x ∷ xs) (suc r) ≡ some ys
      → (zs : List A) × (remove? xs r ≡ some zs) × (ys ≡ x ∷ zs)
  remove?-suc x xs ys r h = elim (Option-cases (remove? xs r)) [
    | inl e ↦ absurd (ground (arith, e))
    | inr (zs, e) ↦ (zs, e, ground (arith, e))
  ]

  get_elem?-remove? :
      (xs ys : List A) (r i : ℕ)
      → remove? xs r ≡ some ys
      → i ≢ r
      → get_elem? ys (shift r i) ≡ get_elem? xs i
  get_elem?-remove? [] ys r i h n = cc
  get_elem?-remove? (x ∷ xs) ys zero zero h n = absurd (n refl)
  get_elem?-remove? (x ∷ xs) ys zero (suc i) h n = ground arith
  get_elem?-remove? (x ∷ xs) ys (suc r) zero h n = ground arith
  get_elem?-remove? (x ∷ xs) ys (suc r) (suc i) h n =
      let (zs, p, q) = remove?-suc x xs ys r h in ground (arith, get_elem?-remove? xs zs r i p)

  pub remove?-is_some :
      (xs : List A) (r : ℕ) (a : A)
      → get_elem? xs r ≡ some a
      → (ys : List A) × (remove? xs r ≡ some ys) × (suc (length ys) ≡ length xs)
  remove?-is_some [] r a h = cc
  remove?-is_some (x ∷ xs) zero a h = (xs, refl, refl)
  remove?-is_some (x ∷ xs) (suc r) a h =
      let (ys, p, q) = remove?-is_some xs r a h in (x ∷ ys, rw p refl, ap suc q)

module _ {V : Type 0} (r i : ℕ) (n : i ≢ r) where
  get-shifted :
      (m : Table V)
      → Table.get (shift r i) (Table.rekey (shift r) (Table.remove r m)) ≡ Table.get i m
  unfolding Table.get Table.rekey Table.remove
  get-shifted [] = refl
  get-shifted ((j, w) ∷ m) = ground (
    arith,
    get-insert (shift r j) (shift r i) w (Table.rekey (shift r) (Table.remove r m)),
    get-shifted m,
  )

-- A confirmed deletion of the row's ISO succeeds, and every other ISO is found at its new index with
-- the command line it had.
pub delete_completed-effective_cmdline :
    (s : AppState) (c r i : ℕ)
    → s.screen ≡ Screen.confirm_delete c
    → real_index s c ≡ some r
    → i ≢ r
    → (t : AppState) × (delete_completed s ≡ some t)
      × (suc (length t.isos) ≡ length s.isos)
      × (get_elem? t.isos (shift r i) ≡ get_elem? s.isos i)
      × (effective_cmdline t (shift r i) ≡ effective_cmdline s i)
unfolding delete_completed without_iso effective_cmdline declared_cmdline shifted_overrides
delete_completed-effective_cmdline s c r i p h n =
    let (iso, e, _) = real_index-get_elem? s c r h in
    let (ys, q, l) = remove?-is_some s.isos r iso e in
    let kept = get_elem?-remove? s.isos ys r i q n in
    (
      without_iso s c r ys,
      ground arith,
      l,
      kept,
      ground (arith, get-shifted r i n s.cmdline_overrides),
    )
