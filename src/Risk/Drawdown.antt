-- ===== src/Risk/Drawdown.antt =====
-- What the current drawdown measures (risk.py, `_current_drawdown_pct`).
use paper_forecast_loop.Prelude.{
  ◌≡◌, refl, sym, ◌∙◌, ◌⊎◌, inl, inr, true, false, List, [], ◌∷◌, map, All, arith, Bool-cases,
}
use mathlib.Core.Bool.{false≢true}
use paper_forecast_loop.Runtime.{Runtime, IsIeee, zero_point, max_of}
use paper_forecast_loop.Models.Portfolio.{EquityCurvePoint, PaperPortfolioSnapshot}
use paper_forecast_loop.Risk.{largest, current_drawdown_pct}

module _ {F : Type 0} (rt : Runtime F) where
  pub lt_le : IsIeee rt → (x y : F) → rt.lt x y ≡ true → rt.le x y ≡ true
  lt_le laws x y h = elim (Bool-cases (rt.le x x)) [
    | inr nan ↦ absurd (false≢true (sym (laws.lt_nan_left x y nan) ∙ h))
    | inl fine ↦ elim (Bool-cases (rt.le y y)) [
      | inr nan ↦ absurd (false≢true (sym (laws.lt_nan_right x y nan) ∙ h))
      | inl good ↦ elim (laws.le_total x y fine good) [
        | inl below ↦ below
        | inr above ↦ absurd (ground (arith, laws.lt-eq-not-le x y fine good))
      ]
    ]
  ]

  not_lt :
      IsIeee rt
      → (x y : F) → rt.le x x ≡ true
      → rt.le y y ≡ true
      → rt.lt x y ≡ false
      → rt.le y x ≡ true
  not_lt laws x y nx ny h = ground (arith, laws.lt-eq-not-le x y nx ny)

  abbrev IsNumber : F → Type 0
  IsNumber x = rt.le x x ≡ true

  -- `x` is one of the elements
  abbrev pub IsAmong : F → List F → Type 0
  IsAmong x [] = ⊥
  IsAmong x (y ∷ ys) = (x ≡ y) ⊎ IsAmong x ys

  max_of-cases : (x y : F) → (max_of rt x y ≡ x) ⊎ (max_of rt x y ≡ y)
  max_of-cases x y = elim (Bool-cases (rt.lt x y)) [
    | inl below ↦ inr (rw below refl)
    | inr other ↦ inl (rw other refl)
  ]

  max_of-above :
      IsIeee rt
      → (x y : F) → IsNumber x
      → IsNumber y
      → (rt.le x (max_of rt x y) ≡ true)
        × ((rt.le y (max_of rt x y) ≡ true) × IsNumber (max_of rt x y))
  max_of-above laws x y nx ny = elim (Bool-cases (rt.lt x y)) [
    | inl below ↦ rw below (lt_le laws x y below, (ny, ny))
    | inr other ↦ rw other (nx, (not_lt laws x y nx ny other, nx))
  ]

  largest-IsAmong : (x : F) (ys : List F) → IsAmong (largest rt x ys) (x ∷ ys)
  largest-IsAmong x [] = inl refl
  largest-IsAmong x (y ∷ ys) = elim (largest-IsAmong (max_of rt x y) ys) [
    | inr later ↦ inr (inr later)
    | inl here ↦ elim (max_of-cases x y) [
      | inl first ↦ inl (here ∙ first)
      | inr second ↦ inr (inl (here ∙ second))
    ]
  ]

  largest-above :
      IsIeee rt
      → (x : F) (ys : List F) → IsNumber x
      → All IsNumber ys
      → (rt.le x (largest rt x ys) ≡ true) × All (λ y. rt.le y (largest rt x ys) ≡ true) ys
  largest-above laws x [] nx h = (nx, tt)
  largest-above laws x (y ∷ ys) nx h =
      let (x_below, (y_below, number)) = max_of-above laws x y nx h.0 in
      let (below, rest) = largest-above laws (max_of rt x y) ys number h.1 in
      let up = λ (z : F) (k : rt.le z (max_of rt x y) ≡ true). laws.le_trans z _ _ k below in
      (up x x_below, (up y y_below, rest))

  -- The drawdown of an equity below a peak.
  pub record IsFallFrom (equity : F) (equities : List F) (drawdown peak : F) : Type 0 where
    pub reached : IsAmong peak (equity ∷ equities)
    pub own_below : rt.le equity peak ≡ true
    pub all_below : All (λ e. rt.le e peak ≡ true) equities
    pub measured :
        ((rt.le peak (zero_point rt) ≡ true) × (drawdown ≡ zero_point rt))
        ⊎ ((rt.le peak (zero_point rt) ≡ false)
            × (drawdown ≡ max_of rt (zero_point rt) (rt.div (rt.sub peak equity) peak)))

  -- Under the laws of the IEEE order, and when the portfolio's equity and those of the curve are no
  -- NaN, there is a peak, one of these equities and not below any of them, such that the current
  -- drawdown is 0 when the peak is at or below 0, and is otherwise the larger of 0 and
  -- (peak - equity) / peak for the portfolio's equity.
  pub current_drawdown_pct-IsFallFrom :
      IsIeee rt
      → (portfolio : PaperPortfolioSnapshot F) (equity_curve : List (EquityCurvePoint F))
      → rt.le portfolio.equity portfolio.equity ≡ true
      → All (λ e. rt.le e e ≡ true) (map (λ p. p.equity) equity_curve)
      → (peak : F) × IsFallFrom portfolio.equity
          (map (λ p. p.equity) equity_curve)
          (current_drawdown_pct rt portfolio equity_curve)
          peak
  unfolding current_drawdown_pct
  current_drawdown_pct-IsFallFrom laws portfolio equity_curve own numbers =
      let equities = map (λ p. p.equity) equity_curve in
      let peak = largest rt portfolio.equity equities in
      let (own_below, all_below) = largest-above laws portfolio.equity equities own numbers in
      (
        peak,
        record {
          reached = largest-IsAmong portfolio.equity equities;
          own_below = own_below;
          all_below = all_below;
          measured = elim (Bool-cases (rt.le peak (zero_point rt))) [
            | inl flat ↦ inl (flat, rw flat refl)
            | inr positive ↦ inr (positive, rw positive refl)
          ];
        },
      )
