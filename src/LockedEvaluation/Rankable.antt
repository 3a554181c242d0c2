-- ===== src/LockedEvaluation/Rankable.antt =====
-- What a rankable entry of the leaderboard has passed (locked_evaluation.py).
use paper_forecast_loop.Prelude.{◌≡◌, true}
use paper_forecast_loop.Runtime.{Runtime}
use paper_forecast_loop.Storage.{ArtifactRepository}
use paper_forecast_loop.LockedEvaluation.{
  gather, evaluation_for, entry_for, evaluate_leaderboard_gate,
}
use paper_forecast_loop.LockedEvaluation.Clear.{unblocked-IsClear}
use paper_forecast_loop.LockedEvaluation.Aligned.{Backed, clear-Backed}
use paper_forecast_loop.LockedEvaluation.Gate.{GateRequest}

module _ {F : Type 0} (rt : Runtime F) where
  -- If the entry of a call is rankable, the seven artifacts that its ids name stand in the repository:
  -- the trial is the card's, has passed and is of a symbol that the card lists; the split and the
  -- cost model are locked; the baseline has two samples, an edge that is not at or below 0 and a grade
  -- other than D and INSUFFICIENT; the backtest's return is not at or below its benchmark's and it is
  -- within the limits of the cost model; the walk-forward validation has an excess that is not at or
  -- below 0 and no overfit flag, and lists that backtest; the trial names both; and all are of one
  -- symbol.
  pub rankable-Backed :
      (repository : ArtifactRepository F) (r : GateRequest)
      → let (evaluation, entry, after) = evaluate_leaderboard_gate rt repository r in
        entry.rankable ≡ true → Backed rt r (gather repository r)
  unfolding evaluate_leaderboard_gate evaluation_for entry_for
  rankable-Backed repository r h =
      clear-Backed rt r (gather repository r) (unblocked-IsClear rt r (gather repository r) h)
