-- ===== src/Decision/Actions.antt =====
-- What each action of a decision rests on (decision.py).
use paper_forecast_loop.Prelude.{
  ◌+◌, ◌≤◌, String, ◌≡◌, refl, ◌⊎◌, inl, inr, Bool, true, false, not, Option, none, some, [], ◌∷◌,
  ◌==◌, is_none, arith, Bool-cases, Option-cases, ltb,
}
use mathlib.Core.Bool.{false≢true}
use paper_forecast_loop.Prelude.Text.{contains}
use paper_forecast_loop.Runtime.{Runtime, zero_point}
use paper_forecast_loop.Models.Research.{Forecast}
use paper_forecast_loop.Baselines.{bullish_regimes, bearish_regimes}
use paper_forecast_loop.Decision.Selection.{hours, risk_blocked_reason}
use paper_forecast_loop.Decision.{
  Verdict, Evidence, risk_is, edge_fails, gate_reduces, regime_in, regime_verdict, evidence_verdict,
  for_forecast, verdict,
}

module _ {F : Type 0} (rt : Runtime F) where
  abbrev Consistent : Verdict F → Type 0
  Consistent v = v.tradeable ≡ is_none v.blocked_reason

  regime_verdict-Consistent :
      (e : Evidence F) (regime : Option String) → Consistent (regime_verdict rt e regime)
  unfolding regime_verdict
  regime_verdict-Consistent e regime = ground arith

  evidence_verdict-Consistent :
      (e : Evidence F) (regime : Option String)
      → e.research_gate.directional_allowed ≡ is_none e.research_gate.blocked_reason
      → Consistent (evidence_verdict rt e regime)
  unfolding evidence_verdict
  evidence_verdict-Consistent e regime h = ground (arith, regime_verdict-Consistent e regime)

  -- A decision is tradeable exactly when it has no blocked reason, if the research gate allows a
  -- direction exactly when it carries no block reason.
  pub tradeable_iff_unblocked :
      (e : Evidence F)
      → e.research_gate.directional_allowed ≡ is_none e.research_gate.blocked_reason
      → (verdict rt e).tradeable ≡ is_none (verdict rt e).blocked_reason
  unfolding verdict
  tradeable_iff_unblocked e h = by_forecast e.latest_forecast
    where
      by_forecast : (f : Option (Forecast F)) → Consistent (for_forecast rt e f)
      by_forecast none = refl
      by_forecast (some f) = ground (arith, evidence_verdict-Consistent e f.predicted_regime h)

  abbrev is_directional : Verdict F → Bool
  is_directional v = contains ("BUY" ∷ "SELL" ∷ []) v.action

  -- What a purchase or a sale rests on, beside the forecast.
  pub record IsBacked (e : Evidence F) : Type 0 where
    pub edged : edge_fails rt e.baseline.model_edge ≡ false
    pub not_reducing : gate_reduces e.research_gate ≡ false
    pub supported : e.research_gate.directional_allowed ≡ true
    pub graded : contains ("A" ∷ "B" ∷ []) e.baseline.evidence_grade ≡ true
    pub risk_known :
        risk_blocked_reason e.risk_snapshot e.symbol e.now e.risk_stale_after_hours ≡ none

  -- the regime, the action and the position it recommends
  abbrev Directed : Evidence F → Option String → Verdict F → Type 0
  Directed e regime v =
      (v.tradeable ≡ true)
      × (((v.action ≡ "BUY")
            × (regime_in bullish_regimes regime ≡ true)
            × (v.recommended_position_pct ≡ e.max_position_pct))
          ⊎ ((v.action ≡ "SELL")
              × (regime_in bearish_regimes regime ≡ true)
              × (v.recommended_position_pct ≡ zero_point rt)))

  regime_verdict-Directed :
      (e : Evidence F) (regime : Option String)
      → is_directional (regime_verdict rt e regime) ≡ true
      → (risk_blocked_reason e.risk_snapshot e.symbol e.now e.risk_stale_after_hours ≡ none)
        × Directed e regime (regime_verdict rt e regime)
  unfolding regime_verdict
  regime_verdict-Directed e regime h = elim (Bool-cases (regime_in bullish_regimes regime)) [
    | inl bull ↦
        elim (Option-cases
          (risk_blocked_reason e.risk_snapshot e.symbol e.now e.risk_stale_after_hours)) [
            | inl free ↦ rw (bull, free) (refl, (refl, inl (refl, refl, refl)))
            | inr (why, held) ↦ absurd (false≢true (rw (bull, held) at h))
          ]
    | inr other ↦ elim (Bool-cases (regime_in bearish_regimes regime)) [
      | inl bear ↦
          elim (Option-cases
            (risk_blocked_reason e.risk_snapshot e.symbol e.now e.risk_stale_after_hours)) [
              | inl free ↦ rw (other, bear, free) (refl, (refl, inr (refl, refl, refl)))
              | inr (why, held) ↦ absurd (false≢true (rw (other, bear, held) at h))
            ]
      | inr neither ↦ absurd (false≢true (rw (other, neither) at h))
    ]
  ]

  evidence_verdict-Directed :
      (e : Evidence F) (regime : Option String)
      → is_directional (evidence_verdict rt e regime) ≡ true
      → IsBacked e × Directed e regime (evidence_verdict rt e regime)
  unfolding evidence_verdict
  evidence_verdict-Directed e regime h =
      elim (Bool-cases (e.baseline.evidence_grade == "INSUFFICIENT")) [
        | inl a ↦ absurd (false≢true (rw a at h))
        | inr a ↦ elim (Bool-cases (edge_fails rt e.baseline.model_edge)) [
          | inl b ↦ absurd (false≢true (rw (a, b) at h))
          | inr b ↦ elim (Bool-cases (gate_reduces e.research_gate)) [
            | inl c ↦ absurd (false≢true (rw (a, b, c) at h))
            | inr c ↦ elim (Bool-cases (not e.research_gate.directional_allowed)) [
              | inl d ↦ absurd (false≢true (rw (a, b, c, d) at h))
              | inr d ↦ elim (Bool-cases (contains ("A" ∷ "B" ∷ []) e.baseline.evidence_grade)) [
                | inr g ↦ absurd (false≢true (rw (a, b, c, d, g) at h))
                | inl g ↦
                    let (known, directed) =
                      regime_verdict-Directed e regime (rw (a, b, c, d, g) at h) in
                    rw (a, b, c, d, g)
                      (
                        record {
                          edged = b;
                          not_reducing = c;
                          supported = ground arith;
                          graded = g;
                          risk_known = known;
                        },
                        directed,
                      )
              ]
            ]
          ]
        ]
      ]

  -- A BUY or a SELL rests on a fresh forecast, on a risk snapshot for the symbol that is fresh and
  -- calls neither for a stop nor for a reduction, on an edge that is not at or below 0, on a research gate that allows
  -- a direction and on a grade of A or B. It is tradeable; a BUY has a bullish regime and recommends
  -- the maximal position, a SELL a bearish one and recommends none.
  pub directional_rests_on :
      (e : Evidence F)
      → is_directional (verdict rt e) ≡ true
      → (f : Forecast F) × (e.latest_forecast ≡ some f)
        × (e.now ≤ f.anchor_time + hours e.stale_after_hours)
        × (risk_is e.risk_snapshot "STOP_NEW_ENTRIES" ≡ false)
        × (risk_is e.risk_snapshot "REDUCE_RISK" ≡ false)
        × IsBacked e
        × Directed e f.predicted_regime (verdict rt e)
  unfolding verdict
  directional_rests_on e h = by_forecast e.latest_forecast refl h
    where
      by_forecast :
          (o : Option (Forecast F))
          → e.latest_forecast ≡ o
          → is_directional (for_forecast rt e o) ≡ true
          → (f : Forecast F) × (e.latest_forecast ≡ some f)
            × (e.now ≤ f.anchor_time + hours e.stale_after_hours)
            × (risk_is e.risk_snapshot "STOP_NEW_ENTRIES" ≡ false)
            × (risk_is e.risk_snapshot "REDUCE_RISK" ≡ false)
            × IsBacked e
            × Directed e f.predicted_regime (for_forecast rt e o)
      by_forecast none found k = absurd (false≢true k)
      by_forecast (some f) found k =
          elim (Bool-cases (ltb (f.anchor_time + hours e.stale_after_hours) e.now)) [
            | inl stale ↦ absurd (false≢true (rw stale at k))
            | inr fresh ↦ elim (Bool-cases (risk_is e.risk_snapshot "STOP_NEW_ENTRIES")) [
              | inl a ↦ absurd (false≢true (rw (fresh, a) at k))
              | inr a ↦ elim (Bool-cases (risk_is e.risk_snapshot "REDUCE_RISK")) [
                | inl b ↦ absurd (false≢true (rw (fresh, a, b) at k))
                | inr b ↦
                    let (backed, directed) =
                      evidence_verdict-Directed e f.predicted_regime (rw (fresh, a, b) at k) in
                    (f, found, ground arith, a, b, backed, rw (fresh, a, b) directed)
              ]
            ]
          ]
