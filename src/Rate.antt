-- ===== src/Rate.antt =====
-- crates/rescue-tui/src/state.rs: the rolling window of download samples. An instant is a number
-- of nanoseconds. The rate is a division of doubles in the source, which is the argument `rate`:
-- the bytes and the nanoseconds to whole bytes per second.
pub mod Window
use aegis_boot.Prelude.{
  ℕ, ◌-◌, ◌*◌, ◌/◌, Option, none, some, List, [], ◌∷◌, ◌++◌, ltb, ◌==◌, if◌then◌else◌,
}

pub record DownloadRateTracker : Type 0 where
  pub samples : List (ℕ × ℕ)

pub record DownloadStats : Type 0 where
  pub bytes_per_sec : ℕ
  pub eta_seconds : Option ℕ

abbrev pub second : ℕ
second = 1000000000

abbrev pub window : ℕ
window = 30 * second

abbrev pub empty : DownloadRateTracker
empty = record { samples = [] }

-- The `while let` loop; `duration_since` is 0 for a later instant, as `-` is here.
unfoldable pub drop_old : ℕ → List (ℕ × ℕ) → List (ℕ × ℕ)
drop_old now [] = []
drop_old now ((t, b) ∷ rest) =
    let dropped = drop_old now rest in if ltb window (now - t) then dropped else (t, b) ∷ rest

unfoldable pub record_at : ℕ → ℕ → DownloadRateTracker → DownloadRateTracker
unfolding drop_old
record_at now bytes r = record { samples = drop_old now r.samples ++ (now, bytes) ∷ [] }

unfoldable pub reset : DownloadRateTracker → DownloadRateTracker
reset r = empty

last : (ℕ × ℕ) → List (ℕ × ℕ) → ℕ × ℕ
last p [] = p
last p (q ∷ qs) = last q qs

-- `total.and_then(|t| t.checked_sub(b_last)).map(|remaining| remaining / bps)`
eta : Option ℕ → ℕ → ℕ → Option ℕ
eta none b_last bps = none
eta (some t) b_last bps = if ltb t b_last then none else some ((t - b_last) / bps)

stats_of : (ℕ → ℕ → ℕ) → Option ℕ → (ℕ × ℕ) → (ℕ × ℕ) → Option DownloadStats
unfolding eta
stats_of rate total (t_first, b_first) (t_last, b_last) =
    let dt = t_last - t_first in
    let bps = rate (b_last - b_first) dt in
    if ltb dt second
    then none
    else if bps == 0
    then none
    else some (record { bytes_per_sec = bps; eta_seconds = eta total b_last bps })

unfoldable pub stats : (ℕ → ℕ → ℕ) → Option ℕ → DownloadRateTracker → Option DownloadStats
unfolding last stats_of
stats rate total r = elim r.samples [
  | [] ↦ none
  | p ∷ [] ↦ none
  | p ∷ q ∷ qs ↦ stats_of rate total p (last q qs)
]
