-- ===== src/App/Gate/Verified.antt =====
-- crates/rescue-tui/src/state.rs: what a finished verify changes in the gates.
use aegis_boot.Prelude.{
  ℕ, zero, suc, ◌≡◌, ◌≢◌, refl, Option, some, List, [], ◌∷◌, arith, get_elem?, modify, ◌||◌, ap,
  not,
}
use aegis_boot.Iso.{
  DiscoveredIso, HashVerification, is_hash_mismatch, is_hash_verified, is_sig_verified, is_forged,
  has_quirk, Quirk,
}
use aegis_boot.Screen.{Screen}
use aegis_boot.App.{AppState}
use aegis_boot.App.Gate.{
  verify_finish, with_hash, is_kexec_blocked, is_blocked, is_degraded_trust, is_unattested,
}

module _ {A : Type 0} (f : A → A) where
  get_elem?-modify :
      (xs : List A) (i : ℕ) (a : A)
      → get_elem? xs i ≡ some a
      → get_elem? (modify xs i f) i ≡ some (f a)
  get_elem?-modify [] i a h = cc
  get_elem?-modify (x ∷ xs) zero a h = ground arith
  get_elem?-modify (x ∷ xs) (suc i) a h = get_elem?-modify xs i a h

  get_elem?-modify_other :
      (xs : List A) (i j : ℕ) → j ≢ i → get_elem? (modify xs i f) j ≡ get_elem? xs j
  get_elem?-modify_other [] i j n = refl
  get_elem?-modify_other (x ∷ xs) zero zero n = absurd (n refl)
  get_elem?-modify_other (x ∷ xs) zero (suc j) n = refl
  get_elem?-modify_other (x ∷ xs) (suc i) zero n = refl
  get_elem?-modify_other (x ∷ xs) (suc i) (suc j) n =
      get_elem?-modify_other xs i j (λ e. n (ap suc e))

-- A finished verify of the ISO at `i` decides its gates anew from the outcome, beside its quirk and
-- its signature, and leaves the gates of every other ISO as they were.
pub verify_finish-gates :
    (s : AppState) (i j b n : ℕ) (r : Option HashVerification) (iso : DiscoveredIso)
    (o : HashVerification)
    → s.screen ≡ Screen.verifying i b n r
    → get_elem? s.isos i ≡ some iso
    → j ≢ i
    → (is_kexec_blocked (verify_finish o s) i ≡ (
        has_quirk Quirk.not_kexec_bootable iso.quirks
        || (is_hash_mismatch o || is_forged iso.signature_verification)))
      × (is_degraded_trust (verify_finish o s) i
          ≡ not (is_sig_verified iso.signature_verification || is_hash_verified o))
      × (is_kexec_blocked (verify_finish o s) j ≡ is_kexec_blocked s j)
      × (is_degraded_trust (verify_finish o s) j ≡ is_degraded_trust s j)
unfolding verify_finish is_kexec_blocked is_degraded_trust is_blocked is_unattested
verify_finish-gates s i j b n r iso o p h d =
    let renewed = get_elem?-modify (with_hash o) s.isos i iso h in
    let other = get_elem?-modify_other (with_hash o) s.isos i j d in
    (ground (arith, renewed), ground (arith, renewed), ground (arith, other), ground (arith, other))
