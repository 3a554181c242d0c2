-- ===== src/Tests/Shadow.antt =====
-- The outcome of a shadow window over a leaderboard entry that passed the gate.
use paper_forecast_loop.Prelude.{◌≡◌, refl, ◌≤◌, none, some, find?, ◌==◌, Result, ok, err, []}
use paper_forecast_loop.Runtime.Fixed.{Fixed, fixed_runtime, nan, Fixed-IsIeee}
use paper_forecast_loop.Models.Evaluation.{
  LeaderboardEntry, LockedEvaluationResult, PaperShadowOutcome,
}
use paper_forecast_loop.Storage.{ArtifactRepository}
use paper_forecast_loop.LockedEvaluation.{
  evaluate_leaderboard_gate, entry_for, evaluation_for, gather, by_id,
}
use paper_forecast_loop.LockedEvaluation.Gate.{blocked_reasons, alignment_flags}
use paper_forecast_loop.Storage.Unique.{append_unique}
use paper_forecast_loop.Models.Evaluation.Ids.{
  build_leaderboard_entry_id, build_locked_evaluation_id,
}
use paper_forecast_loop.PaperShadow.{
  ShadowWindow, record_paper_shadow_outcome, outcome_for, classify_outcome,
}
use paper_forecast_loop.PaperShadow.Promotion.{
  IsCleared, IsPassing, promotion_ready-IsCleared, nan_excess_is_ready,
}
use paper_forecast_loop.Tests.Fixtures.{amount}
use paper_forecast_loop.Tests.Leaderboard.{lab, gate_request}

abbrev ranked : LeaderboardEntry Fixed
ranked = (evaluate_leaderboard_gate fixed_runtime lab gate_request).1

abbrev ranked_lab : ArtifactRepository Fixed
ranked_lab = (evaluate_leaderboard_gate fixed_runtime lab gate_request).2

abbrev window : ShadowWindow Fixed
window = record {
  created_at = 400;
  leaderboard_entry_id = ranked.entry_id;
  window_start = 100;
  window_end = 300;
  observed_return = amount 4 2;
  benchmark_return = amount 1 2;
  max_adverse_excursion = some (amount 2 2);
  turnover = none;
  note = none;
}

abbrev or_else : {A : Type 0} → Result A → A → A
or_else (ok a) default = a
or_else (err why) default = default

abbrev outcome : PaperShadowOutcome Fixed
outcome =
    or_else (record_paper_shadow_outcome fixed_runtime ranked_lab window).0
      (outcome_for fixed_runtime window ranked [])

promotion_ready-IsCleared_example :
    (entry : LeaderboardEntry Fixed) × ((evaluation : LockedEvaluationResult Fixed) × ((find?
            (λ e. e.entry_id == window.leaderboard_entry_id)
            ranked_lab.leaderboard_entries
          ≡ some entry)
        × ((find? (λ e. e.evaluation_id == entry.evaluation_id) ranked_lab.locked_evaluation_results
              ≡ some evaluation)
            × ((entry.created_at ≤ window.window_start)
                × (IsCleared ranked_lab entry evaluation
                    × IsPassing fixed_runtime
                        (fixed_runtime.round
                          (fixed_runtime.sub window.observed_return window.benchmark_return)
                          8)
                        window.max_adverse_excursion
                        window.turnover)))))
unfolding record_paper_shadow_outcome evaluate_leaderboard_gate append_unique entry_for
    build_leaderboard_entry_id evaluation_for build_locked_evaluation_id blocked_reasons gather
    by_id alignment_flags
promotion_ready-IsCleared_example =
    promotion_ready-IsCleared fixed_runtime ranked_lab window outcome refl refl

nan_excess_promotes :
    (classify_outcome fixed_runtime nan (some (amount 2 2)) none []).strategy_action
    ≡ "PROMOTION_READY"
nan_excess_promotes =
    nan_excess_is_ready fixed_runtime Fixed-IsIeee nan (some (amount 2 2)) none refl refl refl
