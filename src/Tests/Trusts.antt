-- ===== src/Tests/Trusts.antt =====
-- The theorems on the trust anchor, applied to an install that has seen an epoch.
use aegis_boot.Prelude.{ℕ, ◌≡◌, ◌≤◌, refl, none, List, [], ◌∷◌, ◌++◌, Text, codes, decimal, digits}
use aegis_boot.Prelude.Decimal.{trim, trim_start, trim_end, is_whitespace, parse_u32, value}
use aegis_boot.Prelude.Answers.{Answer}
use aegis_boot.Trust.{
  TrustAnchor, EpochEntry, ok, Minisign, find_epoch, verify_with_epoch, SeenFile,
  load_seen_epoch_from, StoreIo, store_seen_epoch_at, store_over,
}
use aegis_boot.Trust.Rollback.{
  stores, IsTrusted, verify_with_epoch-IsTrusted, seen_epoch_never_regresses, rollback_is_refused,
}

abbrev parse_error : Text → Text
parse_error t = t

abbrev seen_one : SeenFile
seen_one = SeenFile.contents (codes "1" ++ 10 ∷ [])

abbrev two_stores : List (StoreIo × ℕ)
two_stores = (StoreIo.failed (codes "disk full"), 7) ∷ (StoreIo.done, 1) ∷ []

-- A minisign whose keys and signatures are their texts, and whose check accepts.
abbrev lenient : Minisign Text (List ℕ)
lenient = record {
  public_key = λ text. Answer.value text;
  signature = λ sig. Answer.value sig;
  verify = λ key sig body. Answer.value tt;
}

abbrev first_epoch : EpochEntry
first_epoch = record {
  epoch = 1;
  pubkey_file = codes "keys/maintainer-epoch-1.pub";
  pubkey_fingerprint = codes "RWS";
  valid_from = codes "2026";
  expires_at = none;
  note = [];
}

abbrev anchor : TrustAnchor
anchor = record { epochs = first_epoch ∷ []; min_required = 1 }

seen_epoch_never_regresses_example :
    (e' : ℕ) × (load_seen_epoch_from parse_error (stores parse_error two_stores seen_one) ≡ ok e')
    × (1 ≤ e')
unfolding load_seen_epoch_from trim trim_start trim_end is_whitespace parse_u32 value
seen_epoch_never_regresses_example =
    seen_epoch_never_regresses parse_error two_stores seen_one 1 refl refl

verify_with_epoch-IsTrusted_example : IsTrusted lenient (codes "RWS") anchor [] [] 1 1 first_epoch
unfolding verify_with_epoch find_epoch
verify_with_epoch-IsTrusted_example =
    verify_with_epoch-IsTrusted lenient (codes "RWS") anchor [] [] 1 1 first_epoch refl

rollback_is_refused_example : 1 ≤ 1
unfolding load_seen_epoch_from store_seen_epoch_at store_over trim trim_start trim_end is_whitespace
    parse_u32 value decimal digits verify_with_epoch find_epoch
rollback_is_refused_example =
    rollback_is_refused lenient (codes "RWS") parse_error two_stores seen_one 1 1 1 anchor [] []
      first_epoch refl refl refl refl
