-- ===== src/Rate/Window.antt =====
-- crates/rescue-tui/src/state.rs: the samples of the download rate's window.
use aegis_boot.Prelude.{ℕ, ◌-◌, ◌≡◌, refl, Bool, true, ◌&&◌, List, [], ◌∷◌, ◌++◌, arith, leb}
use aegis_boot.Rate.{DownloadRateTracker, record_at, drop_old, window}

-- The samples are in the order of their instants, none later than `now`.
abbrev pub is_ordered : ℕ → List (ℕ × ℕ) → Bool
is_ordered now [] = true
is_ordered now ((t, b) ∷ []) = leb t now
is_ordered now ((t, b) ∷ (u, c) ∷ rest) = leb t u && is_ordered now ((u, c) ∷ rest)

-- No sample is older than the window.
abbrev pub is_fresh : ℕ → List (ℕ × ℕ) → Bool
is_fresh now [] = true
is_fresh now ((t, b) ∷ rest) = leb (now - t) window && is_fresh now rest

ordered_tail :
    (now t b : ℕ) (rest : List (ℕ × ℕ))
    → is_ordered now ((t, b) ∷ rest) ≡ true
    → is_ordered now rest ≡ true
ordered_tail now t b [] h = refl
ordered_tail now t b ((u, c) ∷ rest) h = ground arith

-- In order, the samples behind a fresh one are fresh.
behind_fresh :
    (now t b : ℕ) (rest : List (ℕ × ℕ))
    → is_ordered now ((t, b) ∷ rest) ≡ true
    → leb (now - t) window ≡ true
    → is_fresh now ((t, b) ∷ rest) ≡ true
behind_fresh now t b [] h f = ground arith
behind_fresh now t b ((u, c) ∷ rest) h f = ground (arith, behind_fresh now u c rest)

dropped :
    (now : ℕ) (xs : List (ℕ × ℕ))
    → is_ordered now xs ≡ true
    → (is_ordered now (drop_old now xs) ≡ true) × (is_fresh now (drop_old now xs) ≡ true)
unfolding drop_old
dropped now [] h = (refl, refl)
dropped now ((t, b) ∷ rest) h =
    ground (arith, dropped now rest, ordered_tail now t b rest h, behind_fresh now t b rest h)

appended :
    (now b : ℕ) (xs : List (ℕ × ℕ))
    → is_ordered now xs ≡ true
    → is_fresh now xs ≡ true
    → (is_ordered now (xs ++ (now, b) ∷ []) ≡ true) × (is_fresh now (xs ++ (now, b) ∷ []) ≡ true)
appended now b [] h f = ground arith
appended now b ((t, c) ∷ []) h f = ground arith
appended now b ((t, c) ∷ (u, d) ∷ rest) h f = ground (arith, appended now b ((u, d) ∷ rest))

-- After a sample at `now`, no earlier than those before it, the samples are still in order and none
-- is older than the window of 30 seconds.
pub record_at-window :
    (now bytes : ℕ) (r : DownloadRateTracker)
    → is_ordered now r.samples ≡ true
    → (is_ordered now (record_at now bytes r).samples ≡ true)
      × (is_fresh now (record_at now bytes r).samples ≡ true)
unfolding record_at
record_at-window now bytes r h =
    let (o, f) = dropped now r.samples h in appended now bytes (drop_old now r.samples) o f
