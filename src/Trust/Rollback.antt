-- ===== src/Trust/Rollback.antt =====
-- crates/aegis-trust/src: the counter of seen epochs over several stores, and what a body that is
-- accepted has passed.
use aegis_boot.Prelude.{
  ℕ, ◌≤◌, ◌<◌, ◌^◌, ◌≡◌, inl, inr, Bool, true, ◌&&◌, some, List, [], ◌∷◌, Text, arith, ltb,
}
use aegis_boot.Prelude.Decimal.{trim, parse_u32, parse_u32-decimal}
use aegis_boot.Prelude.Answers.{Answer, Answer-cases}
use aegis_boot.Trust.{
  TrustAnchor, EpochEntry, ok, Minisign, find_epoch, verify_with_epoch, SeenFile, missing, contents,
  unreadable, load_seen_epoch_from, StoreIo, done, failed, store_seen_epoch_at, larger, store_over,
}

parse_u32-bound : (t : Text) (n : ℕ) → parse_u32 t ≡ some n → n < 2 ^ 32
unfolding parse_u32
parse_u32-bound [] n h = cc
parse_u32-bound (c ∷ s) n h = ground arith

load-bound :
    (pe : Text → Text) (f : SeenFile) (n : ℕ) → load_seen_epoch_from pe f ≡ ok n → n < 2 ^ 32
unfolding load_seen_epoch_from
load-bound pe missing n h = ground arith
load-bound pe (unreadable e) n h = cc
load-bound pe (contents t) n h = ground (arith, parse_u32-bound (trim t) n)

-- A store, whatever its file operations answer, leaves a file that loads, with no smaller epoch.
store-load :
    (pe : Text → Text) (io : StoreIo) (f : SeenFile) (e new : ℕ)
    → load_seen_epoch_from pe f ≡ ok e
    → new < 2 ^ 32
    → (e' : ℕ) × (load_seen_epoch_from pe (store_seen_epoch_at pe io f new).0 ≡ ok e') × (e ≤ e')
unfolding store_seen_epoch_at store_over
store-load pe (failed m) f e new h b = (e, ground arith, omega arith)
store-load pe done f e new h b = (
  larger e new,
  ground (arith, parse_u32-decimal (larger e new), load-bound pe f e h),
  ground arith,
)

-- Any stores, each with its file operations' answers and its epoch.
abbrev pub stores : (Text → Text) → List (StoreIo × ℕ) → SeenFile → SeenFile
stores pe [] f = f
stores pe ((io, new) ∷ rest) f = stores pe rest (store_seen_epoch_at pe io f new).0

abbrev pub are_u32 : List (StoreIo × ℕ) → Bool
are_u32 [] = true
are_u32 ((io, new) ∷ rest) = ltb new 4294967296 && are_u32 rest

-- From a file that loads, any stores of epochs, whatever their file operations answer, leave a file
-- that loads, with an epoch that is no smaller.
pub seen_epoch_never_regresses :
    (pe : Text → Text) (runs : List (StoreIo × ℕ)) (f : SeenFile) (e : ℕ)
    → load_seen_epoch_from pe f ≡ ok e
    → are_u32 runs ≡ true
    → (e' : ℕ) × (load_seen_epoch_from pe (stores pe runs f) ≡ ok e') × (e ≤ e')
seen_epoch_never_regresses pe [] f e h b = (e, h, omega arith)
seen_epoch_never_regresses pe ((io, new) ∷ rest) f e h b =
    let (m, p, q) = store-load pe io f e new h (ground (arith, b)) in
    let (n, r, t) =
      seen_epoch_never_regresses pe rest (store_seen_epoch_at pe io f new).0 m p
        (ground (arith, b)) in
    (n, r, omega arith)

find_epoch-epoch :
    (n : ℕ) (es : List EpochEntry) (x : EpochEntry) → find_epoch n es ≡ some x → x.epoch ≡ n
unfolding find_epoch
find_epoch-epoch n [] x h = cc
find_epoch-epoch n (y ∷ es) x h = ground (arith, find_epoch-epoch n es x)

-- What an accepted body has passed: both floors, the embedded list, and minisign's check under the
-- embedded key.
pub record IsTrusted {Key Signature : Type 0} (m : Minisign Key Signature) (embedded_pub : Text)
    (anchor : TrustAnchor) (body sig : List ℕ) (epoch seen : ℕ) (entry : EpochEntry) : Type 0 where
  pub above_binary_floor : anchor.min_required ≤ epoch
  pub above_seen_floor : seen ≤ epoch
  pub listed : find_epoch epoch anchor.epochs ≡ some entry
  pub named : entry.epoch ≡ epoch
  pub key : Key
  pub signature : Signature
  pub key_of : m.public_key embedded_pub ≡ Answer.value key
  pub signature_of : m.signature sig ≡ Answer.value signature
  pub verified : m.verify key signature body ≡ Answer.value tt

module _ {Key Signature : Type 0} (m : Minisign Key Signature) (embedded_pub : Text) where
  -- A body is accepted only at an epoch that is neither below the binary's floor nor below the seen
  -- one and that the embedded list names, with a signature that minisign verifies under the embedded
  -- key.
  pub verify_with_epoch-IsTrusted :
      (anchor : TrustAnchor) (body sig : List ℕ) (epoch seen : ℕ) (entry : EpochEntry)
      → verify_with_epoch m embedded_pub anchor body sig epoch seen ≡ ok entry
      → IsTrusted m embedded_pub anchor body sig epoch seen entry
  unfolding verify_with_epoch
  verify_with_epoch-IsTrusted anchor body sig epoch seen entry h =
      elim (Answer-cases (m.public_key embedded_pub)) [
        | inr (e, p) ↦ absurd (ground (arith, p))
        | inl (k, p) ↦ elim (Answer-cases (m.signature sig)) [
          | inr (e, q) ↦ absurd (ground (arith, p, q))
          | inl (s, q) ↦ record {
            above_binary_floor = ground (arith, p, q);
            above_seen_floor = ground (arith, p, q);
            listed = ground (arith, p, q);
            named = find_epoch-epoch epoch anchor.epochs entry (ground (arith, p, q));
            key = k;
            signature = s;
            key_of = p;
            signature_of = q;
            verified = ground (arith, p, q);
          }
        ]
      ]

  -- Once an install has seen the epoch `e`, then whatever stores follow, no body of an epoch below
  -- `e` is accepted against the epoch that the file holds.
  pub rollback_is_refused :
      (pe : Text → Text) (runs : List (StoreIo × ℕ)) (f : SeenFile) (e seen epoch : ℕ)
      (anchor : TrustAnchor) (body sig : List ℕ) (entry : EpochEntry)
      → load_seen_epoch_from pe f ≡ ok e
      → are_u32 runs ≡ true
      → load_seen_epoch_from pe (stores pe runs f) ≡ ok seen
      → verify_with_epoch m embedded_pub anchor body sig epoch seen ≡ ok entry
      → e ≤ epoch
  rollback_is_refused pe runs f e seen epoch anchor body sig entry h b l v =
      let (n, p, q) = seen_epoch_never_regresses pe runs f e h b in
      let t = verify_with_epoch-IsTrusted anchor body sig epoch seen entry v in
      ground (arith, p, q, l, t.above_seen_floor)
