-- ===== src/Candles/Selected.antt =====
-- The candles of a run with a point in time are in strictly increasing order, of the run's symbol and
-- period, and known by then.
use paper_forecast_loop.Prelude.{
  ℕ, String, Bool, true, false, not, ◌&&◌, ◌||◌, ◌⊎◌, none, some, List, [], ◌∷◌, ◌≡◌, refl, ap, ◌∙◌,
  ◌≤◌, ◌<◌, arith, if◌then◌else◌, ltb, leb, eqb, any, All, Bool-cases, inl, inr, leb→le,
  All-sort_from, sorted_by,
}
use mathlib.Core.Bool.{false≢true}
use paper_forecast_loop.Models.Research.{MarketCandleRecord}
use paper_forecast_loop.Candles.{
  in_range, import_lt, put_latest, latest_imports, select_candles, repeated_after,
  repeated_timestamp,
}
use paper_forecast_loop.Candles.Increasing.{
  IsIncreasing, IsKeyed, has_key, IsIncreasing-sort_from, has_key-sort_from,
}

or_assoc : (a b c : Bool) → ((a || b) || c) ≡ (a || (b || c))
or_assoc true b c = refl
or_assoc false b c = refl

module _ {F : Type 0} where
  abbrev pub time_of : MarketCandleRecord F → ℕ
  time_of c = c.timestamp

  -- Of the symbol, in the period, and imported by the point in time.
  abbrev pub IsKnown : String → ℕ → ℕ → ℕ → MarketCandleRecord F → Type 0
  IsKnown symbol start end as_of c = (in_range symbol start end c ≡ true) × (c.imported_at ≤ as_of)

  has_time-put_latest :
      (k : ℕ) (by_time : List (MarketCandleRecord F)) (candle : MarketCandleRecord F)
      → has_key time_of k by_time ≡ false
      → eqb candle.timestamp k ≡ false
      → has_key time_of k (put_latest by_time candle) ≡ false
  has_time-put_latest k [] candle h n = ground arith
  has_time-put_latest k (x ∷ xs) candle h n = ground (arith, has_time-put_latest k xs candle)

  IsKeyed-put_latest :
      (by_time : List (MarketCandleRecord F)) (candle : MarketCandleRecord F)
      → IsKeyed time_of by_time
      → IsKeyed time_of (put_latest by_time candle)
  IsKeyed-put_latest [] candle k = (refl, tt)
  IsKeyed-put_latest (x ∷ xs) candle k =
      ground
        (arith, IsKeyed-put_latest xs candle k.1, has_time-put_latest x.timestamp xs candle k.0)

  has_key-put_latest :
      (k : ℕ) (by_time : List (MarketCandleRecord F)) (candle : MarketCandleRecord F)
      → has_key time_of k (put_latest by_time candle)
        ≡ (has_key time_of k by_time || eqb candle.timestamp k)
  has_key-put_latest k [] candle = ground arith
  has_key-put_latest k (x ∷ xs) candle = ground (arith, has_key-put_latest k xs candle)

  All-put_latest {κ} :
      (P : MarketCandleRecord F → Type κ) (by_time : List (MarketCandleRecord F))
      (candle : MarketCandleRecord F)
      → All P by_time
      → P candle
      → All P (put_latest by_time candle)
  All-put_latest P [] candle h p = (p, tt)
  All-put_latest P (x ∷ xs) candle h p = elim (Bool-cases (eqb x.timestamp candle.timestamp)) [
    | inr other ↦ rw other (h.0, All-put_latest P xs candle h.1 p)
    | inl same ↦ rw same (elim (Bool-cases (import_lt x candle)) [
      | inl newer ↦ rw newer (p, h.1)
      | inr older ↦ rw older h
    ])
  ]

  repeated_after-none :
      (previous : ℕ) (cs : List (MarketCandleRecord F))
      → All (λ c. previous < c.timestamp) cs
      → IsIncreasing time_of cs
      → repeated_after previous cs ≡ none
  repeated_after-none previous [] h s = refl
  repeated_after-none previous (c ∷ cs) h s =
      ground (arith, repeated_after-none c.timestamp cs s.0 s.1)

  -- Nothing is repeated in strictly increasing order.
  pub repeated_timestamp-none :
      (cs : List (MarketCandleRecord F)) → IsIncreasing time_of cs → repeated_timestamp cs ≡ none
  unfolding repeated_timestamp
  repeated_timestamp-none [] s = refl
  repeated_timestamp-none (c ∷ cs) s = repeated_after-none c.timestamp cs s.0 s.1

  above_repeated :
      (previous k : ℕ) (cs : List (MarketCandleRecord F))
      → k ≤ previous
      → repeated_after previous cs ≡ none
      → All (λ c. k < c.timestamp) cs × IsIncreasing time_of cs
  above_repeated previous k [] h e = (tt, tt)
  above_repeated previous k (c ∷ cs) h e = elim (Bool-cases (leb c.timestamp previous)) [
    | inl bad ↦ ground arith
    | inr good ↦
        let rest : repeated_after c.timestamp cs ≡ none = rw good at e in
        (
          (ground arith, (above_repeated c.timestamp k cs (ground arith) rest).0),
          above_repeated c.timestamp c.timestamp cs (omega arith) rest,
        )
  ]

  -- What passes the check is in strictly increasing order.
  pub unrepeated-IsIncreasing :
      (cs : List (MarketCandleRecord F)) → repeated_timestamp cs ≡ none → IsIncreasing time_of cs
  unfolding repeated_timestamp
  unrepeated-IsIncreasing [] e = tt
  unrepeated-IsIncreasing (c ∷ cs) e = above_repeated c.timestamp c.timestamp cs (omega arith) e

  All-fresh :
      (xs : List (MarketCandleRecord F)) → All (λ x. has_key time_of x.timestamp [] ≡ false) xs
  All-fresh [] = tt
  All-fresh (x ∷ xs) = (refl, All-fresh xs)

  module _ (symbol : String) (start end as_of : ℕ) where
    abbrev chosen : List (MarketCandleRecord F) → MarketCandleRecord F → List (MarketCandleRecord F)
    chosen by_time candle =
        if not (in_range symbol start end candle)
        then by_time
        else if ltb as_of candle.imported_at
        then by_time
        else put_latest by_time candle

    abbrev pub is_known : MarketCandleRecord F → Bool
    is_known candle = in_range symbol start end candle && leb candle.imported_at as_of

    chosen-cases :
        (by_time : List (MarketCandleRecord F)) (candle : MarketCandleRecord F)
        → ((chosen by_time candle ≡ by_time) × (is_known candle ≡ false))
          ⊎ ((chosen by_time candle ≡ put_latest by_time candle) × (is_known candle ≡ true))
    chosen-cases by_time candle =
        by_tests (in_range symbol start end candle) candle.imported_at by_time
          (put_latest by_time candle)
      where
        by_tests :
            (inside : Bool) (n : ℕ) (old new : List (MarketCandleRecord F))
            → (((if not inside then old else if ltb as_of n then old else new) ≡ old)
                × ((inside && leb n as_of) ≡ false))
              ⊎ (((if not inside then old else if ltb as_of n then old else new) ≡ new)
                  × ((inside && leb n as_of) ≡ true))
        by_tests false n old new = inl (refl, refl)
        by_tests true n old new = ground arith

    is_known-IsKnown :
        (candle : MarketCandleRecord F)
        → is_known candle ≡ true
        → IsKnown symbol start end as_of candle
    is_known-IsKnown candle h = elim (Bool-cases (in_range symbol start end candle)) [
      | inl inside ↦ (inside, leb→le candle.imported_at as_of (rw inside at h))
      | inr outside ↦ absurd (false≢true (rw outside at h))
    ]

    latest_imports-IsKeyed :
        (by_time candles : List (MarketCandleRecord F))
        → IsKeyed time_of by_time
        → IsKeyed time_of (latest_imports symbol start end as_of by_time candles)
    latest_imports-IsKeyed by_time [] k = k
    latest_imports-IsKeyed by_time (c ∷ cs) k = elim (chosen-cases by_time c) [
      | inl (same, _) ↦ latest_imports-IsKeyed (chosen by_time c) cs (rw same k)
      | inr (put, _) ↦
          latest_imports-IsKeyed (chosen by_time c) cs (rw put (IsKeyed-put_latest by_time c k))
    ]

    latest_imports-IsKnown :
        (by_time candles : List (MarketCandleRecord F))
        → All (IsKnown symbol start end as_of) by_time
        → All
            (IsKnown symbol start end as_of)
            (latest_imports symbol start end as_of by_time candles)
    latest_imports-IsKnown by_time [] k = k
    latest_imports-IsKnown by_time (c ∷ cs) k = elim (chosen-cases by_time c) [
      | inl (same, _) ↦ latest_imports-IsKnown (chosen by_time c) cs (rw same k)
      | inr (put, known) ↦ latest_imports-IsKnown (chosen by_time c) cs (
          rw put (
            All-put_latest (IsKnown symbol start end as_of) by_time c k (is_known-IsKnown c known)))
    ]

    has_key-chosen :
        (k : ℕ) (by_time : List (MarketCandleRecord F)) (c : MarketCandleRecord F)
        → has_key time_of k (chosen by_time c)
          ≡ (has_key time_of k by_time || (is_known c && eqb c.timestamp k))
    has_key-chosen k by_time c = elim (chosen-cases by_time c) [
      | inl (same, unknown) ↦ rw (same, unknown) (ground arith)
      | inr (put, known) ↦ rw (put, known) (has_key-put_latest k by_time c)
    ]

    has_key-latest_imports :
        (k : ℕ) (by_time candles : List (MarketCandleRecord F))
        → has_key time_of k (latest_imports symbol start end as_of by_time candles)
          ≡ (has_key time_of k by_time || any (λ c. is_known c && eqb c.timestamp k) candles)
    has_key-latest_imports k by_time [] = ground arith
    has_key-latest_imports k by_time (c ∷ cs) =
        has_key-latest_imports k (chosen by_time c) cs
        ∙ (ap (λ b. b || any (λ x. is_known x && eqb x.timestamp k) cs) (has_key-chosen k by_time c)
            ∙ or_assoc (has_key time_of k by_time) (is_known c && eqb c.timestamp k) _)

  -- With a point in time, the selected candles are in strictly increasing order of their timestamps,
  -- so that no repetition is found among them; each is of the symbol, lies in the period, and was
  -- imported by the point in time; and a timestamp is covered exactly if a stored candle with it is
  -- of the symbol, in the period, and was imported by then.
  pub select_candles_point_in_time :
      (candles : List (MarketCandleRecord F)) (symbol : String) (start end as_of k : ℕ)
      → (repeated_timestamp (select_candles candles symbol start end (some as_of)) ≡ none)
        × (IsIncreasing time_of (select_candles candles symbol start end (some as_of))
            × (All
                  (IsKnown symbol start end as_of)
                  (select_candles candles symbol start end (some as_of))
                × (has_key time_of k (select_candles candles symbol start end (some as_of))
                    ≡ any (λ c. is_known symbol start end as_of c && eqb c.timestamp k) candles)))
  unfolding select_candles
  select_candles_point_in_time candles symbol start end as_of k =
      let imports = latest_imports symbol start end as_of [] candles in
      let keyed : IsKeyed time_of imports =
        latest_imports-IsKeyed symbol start end as_of [] candles tt in
      let increasing : IsIncreasing time_of (sorted_by time_of imports) =
        IsIncreasing-sort_from time_of [] imports tt keyed (All-fresh imports) in
      (
        repeated_timestamp-none (sorted_by time_of imports) increasing,
        (
          increasing,
          (
            All-sort_from time_of (IsKnown symbol start end as_of) [] imports tt
                (latest_imports-IsKnown symbol start end as_of [] candles tt),
            has_key-sort_from time_of k [] imports
                ∙ has_key-latest_imports symbol start end as_of k [] candles,
          ),
        ),
      )
