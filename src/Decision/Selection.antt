-- ===== src/Decision/Selection.antt =====
-- The artifacts a decision is made from (decision.py and research_artifact_selection.py).
use text.Mathlib.Text.{find? as find_text}
use paper_forecast_loop.Prelude.{
  ℕ, ◌+◌, ◌*◌, String, Bool, true, not, ◌&&◌, ◌||◌, Option, none, some, List, [], ◌∷◌, ◌++◌, ◌==◌,
  if◌then◌else◌, ltb, leb, eqb, keep, last?, all, map, is_empty, is_some, take,
}
use paper_forecast_loop.Prelude.Text.{contains, concat, join, sorted_set, text_lt}
use paper_forecast_loop.Runtime.{Runtime}
use paper_forecast_loop.Models.Research.{BacktestResult, BacktestRun, BaselineEvaluation, Review}
use paper_forecast_loop.Models.Portfolio.{RiskSnapshot, PaperPortfolioSnapshot}
use paper_forecast_loop.Models.Portfolio.Snapshots.{empty_portfolio}
use paper_forecast_loop.Storage.{ArtifactRepository, save_portfolio_snapshot}

abbrev pub decision_blocker_backtest_id_context : String
decision_blocker_backtest_id_context =
    "id_context=decision_blocker_research:run_backtest:backtest_result"

-- `timedelta(hours=n)`, in microseconds
abbrev pub hours : ℕ → ℕ
hours n = n * 3_600_000_000

-- `max(xs, key=…)`: the first element that no other is above
abbrev pub max_by {ℓ} : {A : Type ℓ} → (A → A → Bool) → A → List A → A
max_by below best [] = best
max_by below best (x ∷ xs) = max_by below (if below best x then x else best) xs

abbrev pub max_by? {ℓ} : {A : Type ℓ} → (A → A → Bool) → List A → Option A
max_by? below [] = none
max_by? below (x ∷ xs) = some (max_by below x xs)

abbrev at_most : Option ℕ → ℕ → Bool
at_most none t = true
at_most (some limit) t = leb t limit

abbrev at_least : Option ℕ → ℕ → Bool
at_least none t = true
at_least (some limit) t = leb limit t

-- `_latest_for_symbol`, with the fields that it reads
unfoldable pub latest_for_symbol :
    {A : Type 0} → (A → String) → (A → ℕ) → List A → String → Option A
latest_for_symbol symbol_of created_at items symbol =
    max_by? (λ a b. ltb (created_at a) (created_at b)) (keep (λ a. symbol_of a == symbol) items)

module _ {F : Type 0} where
  -- the order of `(created_at, result_id)`
  abbrev backtest_lt : BacktestResult F → BacktestResult F → Bool
  backtest_lt a b =
      ltb a.created_at b.created_at
      || (eqb a.created_at b.created_at && text_lt a.result_id b.result_id)

  -- `run_by_id.get(result.backtest_id, result).decision_basis`
  abbrev basis_of : List (BacktestRun F) → BacktestResult F → String
  basis_of runs result = elim (last? (keep (λ run. run.backtest_id == result.backtest_id) runs)) [
    | none ↦ result.decision_basis
    | some run ↦ run.decision_basis
  ]

  unfoldable pub latest_backtest_for_research :
      List (BacktestResult F)
      → List (BacktestRun F)
      → String
      → Option ℕ
      → Option ℕ
      → Option (BacktestResult F)
  latest_backtest_for_research backtests backtest_runs symbol as_of created_at_min =
      let candidates =
        keep
          (λ result.
            result.symbol == symbol
            && at_most as_of result.created_at
            && at_least created_at_min result.created_at)
          backtests in
      let preferred =
        keep
          (λ result.
            is_some
              (find_text (basis_of backtest_runs result) decision_blocker_backtest_id_context))
          candidates in
      max_by? backtest_lt (if is_empty preferred then candidates else preferred)

  unfoldable pub latest_risk_snapshot : List (RiskSnapshot F) → String → Option (RiskSnapshot F)
  latest_risk_snapshot snapshots symbol = last? (keep (λ s. s.symbol == symbol) snapshots)

  unfoldable pub risk_blocked_reason : Option (RiskSnapshot F) → String → ℕ → ℕ → Option String
  risk_blocked_reason none symbol now risk_stale_after_hours = some "risk_snapshot_missing"
  risk_blocked_reason (some risk) symbol now risk_stale_after_hours =
      if not (risk.symbol == symbol)
      then some "risk_snapshot_symbol_mismatch"
      else if ltb (risk.created_at + hours risk_stale_after_hours) now
      then some "risk_snapshot_stale"
      else none

  unfoldable pub review_ids_for_baseline : List (Review F) → BaselineEvaluation F → List String
  review_ids_for_baseline reviews baseline =
      map (λ r. r.review_id)
        (keep
          (λ r. not (is_empty baseline.score_ids) && all (contains baseline.score_ids) r.score_ids)
          reviews)

module _ {F : Type 0} (rt : Runtime F) where
  -- `_latest_or_empty_portfolio`: a new empty snapshot is stored
  unfoldable pub latest_or_empty_portfolio :
      ArtifactRepository F → ℕ → PaperPortfolioSnapshot F × ArtifactRepository F
  latest_or_empty_portfolio repository now = elim (last? repository.portfolio_snapshots) [
    | some snapshot ↦ (snapshot, repository)
    | none ↦
        let snapshot = empty_portfolio rt now (rt.dec 10000 0) in
        (snapshot, save_portfolio_snapshot snapshot repository)
  ]

abbrev blocker_labels : List (String × String)
blocker_labels =
    ("research_event_edge_missing", "event edge 缺失")
    ∷ ("research_event_edge_not_passed", "event edge 未通過")
    ∷ ("research_event_edge_not_positive", "event edge after-cost edge 不為正")
    ∷ ("research_backtest_missing", "backtest 缺失")
    ∷ ("research_backtest_not_beating_benchmark", "backtest 未打贏 benchmark")
    ∷ ("research_backtest_drawdown_too_high", "backtest 回撤過高")
    ∷ ("research_walk_forward_missing", "walk-forward 缺失")
    ∷ ("research_walk_forward_excess_return_not_positive", "walk-forward 超額報酬不為正")
    ∷ ("research_walk_forward_not_beating_benchmark", "walk-forward 未打贏 benchmark")
    ∷ ("research_walk_forward_overfit_risk", "walk-forward overfit risk")
    ∷ ("research_model_edge_not_positive", "model edge 不為正")
    ∷ ("research_sample_size_too_low", "樣本數不足")
    ∷ ("research_recent_degradation", "近期分數退化")
    ∷ []

abbrev label_in : List (String × String) → String → String
label_in [] flag = flag
label_in ((key, label) ∷ labels) flag = if key == flag then label else label_in labels flag

-- `_research_blocker_summary`: the labels stand in the order of the priority list
unfoldable pub research_blocker_summary : List String → ℕ → String
research_blocker_summary flags limit =
    let priority = map (λ (entry : String × String). entry.0) blocker_labels in
    let ordered = keep (contains flags) priority in
    let others = sorted_set (keep (λ f. not (contains ordered f)) flags) in
    join "、" (map (label_in blocker_labels) (take limit (ordered ++ others)))

unfoldable pub with_research_blockers : String → List String → String
unfolding research_blocker_summary
with_research_blockers summary flags =
    let blocker_summary = research_blocker_summary flags 4 in
    if blocker_summary == ""
    then summary
    else concat (summary ∷ " 主要研究阻擋：" ∷ blocker_summary ∷ "。" ∷ [])
