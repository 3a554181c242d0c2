-- ===== src/PaperShadow.antt =====
-- paper_shadow.py: the outcome of a shadow window, and what it recommends for the strategy.
pub mod Promotion
use paper_forecast_loop.Prelude.{
  ℕ, String, Bool, true, false, not, ◌&&◌, ◌||◌, Option, none, some, List, [], ◌∷◌, ◌++◌, ◌==◌,
  if◌then◌else◌, ltb, find?, any, is_none, is_empty, Result, ok, err,
}
use paper_forecast_loop.Prelude.Text.{contains, concat}
use paper_forecast_loop.Runtime.{Runtime, zero_point}
use paper_forecast_loop.Models.Evaluation.{
  LeaderboardEntry, LockedEvaluationResult, PaperShadowOutcome,
}
use paper_forecast_loop.Models.Evaluation.Ids.{build_shadow_outcome_id}
use paper_forecast_loop.Storage.{ArtifactRepository, save_paper_shadow_outcome}

-- `_unique`: without empty texts, in the order of the first occurrences
abbrev pub unique_after : List String → List String → List String
unique_after seen [] = []
unique_after seen (item ∷ items) = elim (item == "" || contains seen item) [
  | true ↦ unique_after seen items
  | false ↦ item ∷ unique_after (item ∷ seen) items
]

unfoldable pub unique : List String → List String
unique items = unique_after [] items

abbrev pub blocker_if : Bool → String → List String
blocker_if test blocker = if test then blocker ∷ [] else []

pub record Classified : Type 0 where
  pub grade : String
  pub promotion_stage : String
  pub strategy_action : String
  pub attributions : List String

pub record ShadowWindow (F : Type 0) : Type 0 where
  pub created_at : ℕ
  pub leaderboard_entry_id : String
  pub window_start : ℕ
  pub window_end : ℕ
  pub observed_return : F
  pub benchmark_return : F
  pub max_adverse_excursion : Option F
  pub turnover : Option F
  pub note : Option String

module _ {F : Type 0} where
  unfoldable pub leaderboard_blockers : LeaderboardEntry F → List String
  unfolding unique
  leaderboard_blockers entry = unique (
      blocker_if (not entry.rankable) "leaderboard_entry_not_rankable"
      ++ (blocker_if (entry.promotion_stage == "BLOCKED")
            "leaderboard_entry_promotion_stage_blocked"
          ++ (blocker_if (is_none entry.alpha_score) "leaderboard_entry_alpha_score_missing"
              ++ entry.blocked_reasons)))

  unfoldable pub evaluation_blockers : LockedEvaluationResult F → List String
  unfolding unique
  evaluation_blockers evaluation = unique (
      blocker_if (not evaluation.passed) "locked_evaluation_not_passed"
      ++ (blocker_if (not evaluation.rankable) "locked_evaluation_not_rankable"
          ++ (blocker_if (is_none evaluation.alpha_score) "locked_evaluation_alpha_score_missing"
              ++ evaluation.blocked_reasons)))

  unfoldable pub link_blockers :
      ArtifactRepository F → LeaderboardEntry F → LockedEvaluationResult F → List String
  link_blockers repository entry evaluation =
      blocker_if (not (entry.strategy_card_id == evaluation.strategy_card_id))
        "leaderboard_evaluation_strategy_card_mismatch"
      ++ (blocker_if (not (entry.trial_id == evaluation.trial_id))
            "leaderboard_evaluation_trial_mismatch"
          ++ (blocker_if
                (not
                  (any (λ card. entry.strategy_card_id == card.card_id) repository.strategy_cards))
                "strategy_card_missing"
              ++ (blocker_if
                    (not (
                      any (λ trial. entry.trial_id == trial.trial_id) repository.experiment_trials))
                    "experiment_trial_missing"
                  ++ blocker_if (not evaluation.rankable) "locked_evaluation_not_rankable")))

  unfoldable pub outcome_blockers :
      ArtifactRepository F → LeaderboardEntry F → LockedEvaluationResult F → List String
  unfolding unique leaderboard_blockers evaluation_blockers link_blockers
  outcome_blockers repository entry evaluation = unique (
      leaderboard_blockers entry
      ++ (evaluation_blockers evaluation ++ link_blockers repository entry evaluation))

module _ {F : Type 0} (rt : Runtime F) where
  abbrev pub above : Option F → F → Bool
  above none limit = false
  above (some x) limit = rt.lt limit x

  unfoldable pub classify_outcome : F → Option F → Option F → List String → Classified
  classify_outcome excess_return max_adverse_excursion turnover blocked_reasons =
      let adverse = above max_adverse_excursion (rt.dec 10 2) in
      let attributions =
        blocker_if (rt.le excess_return (zero_point rt)) "negative_excess_return"
        ++ (blocker_if adverse "adverse_excursion_breach"
            ++ blocker_if (above turnover (rt.dec 5 0)) "turnover_breach") in
      if not (is_empty blocked_reasons)
      then record {
        grade = "BLOCKED";
        promotion_stage = "PAPER_SHADOW_BLOCKED";
        strategy_action = "QUARANTINE";
        attributions = [];
      }
      else if adverse || rt.le excess_return (rt.neg (rt.dec 5 2))
      then record {
        grade = "QUARANTINE";
        promotion_stage = "PAPER_SHADOW_QUARANTINED";
        strategy_action = "QUARANTINE";
        attributions = attributions;
      }
      else if not (is_empty attributions)
      then record {
        grade = "FAIL";
        promotion_stage = "PAPER_SHADOW_FAILED";
        strategy_action = "RETIRE";
        attributions = attributions;
      }
      else record {
        grade = "PASS";
        promotion_stage = "PAPER_SHADOW_PASSED";
        strategy_action = "PROMOTION_READY";
        attributions = [];
      }

  -- `[note] if note else []`
  abbrev notes_of : Option String → List String
  notes_of none = []
  notes_of (some note) = if note == "" then [] else note ∷ []

  unfoldable pub outcome_for :
      ShadowWindow F → LeaderboardEntry F → List String → PaperShadowOutcome F
  unfolding classify_outcome build_shadow_outcome_id
  outcome_for w entry blocked =
      let excess_return = rt.round (rt.sub w.observed_return w.benchmark_return) 8 in
      let classified = classify_outcome excess_return w.max_adverse_excursion w.turnover blocked in
      record {
        outcome_id =
            build_shadow_outcome_id rt w.leaderboard_entry_id w.window_start w.window_end
              (some w.observed_return) (some w.benchmark_return);
        created_at = w.created_at;
        leaderboard_entry_id = entry.entry_id;
        evaluation_id = entry.evaluation_id;
        strategy_card_id = entry.strategy_card_id;
        trial_id = entry.trial_id;
        symbol = entry.symbol;
        window_start = w.window_start;
        window_end = w.window_end;
        observed_return = some w.observed_return;
        benchmark_return = some w.benchmark_return;
        excess_return_after_costs = some excess_return;
        max_adverse_excursion = w.max_adverse_excursion;
        turnover = w.turnover;
        outcome_grade = classified.grade;
        failure_attributions = classified.attributions;
        recommended_promotion_stage = classified.promotion_stage;
        recommended_strategy_action = classified.strategy_action;
        blocked_reasons = blocked;
        notes = notes_of w.note;
        decision_basis = "paper_shadow_outcome_learning";
      }

  -- with the locked evaluation of the entry, if there is one
  abbrev pub with_evaluation :
      ArtifactRepository F
      → ShadowWindow F
      → LeaderboardEntry F
      → Option (LockedEvaluationResult F)
      → Result (PaperShadowOutcome F) × ArtifactRepository F
  with_evaluation repository w entry none =
      (err (concat ("locked evaluation not found: " ∷ entry.evaluation_id ∷ [])), repository)
  with_evaluation repository w entry (some evaluation) =
      let outcome = outcome_for w entry (outcome_blockers repository entry evaluation) in
      (ok outcome, save_paper_shadow_outcome outcome repository)

  abbrev pub with_entry :
      ArtifactRepository F
      → ShadowWindow F
      → Option (LeaderboardEntry F)
      → Result (PaperShadowOutcome F) × ArtifactRepository F
  with_entry repository w none =
      (err (concat ("leaderboard entry not found: " ∷ w.leaderboard_entry_id ∷ [])), repository)
  with_entry repository w (some entry) =
      if ltb w.window_start entry.created_at
      then (err "paper_shadow_window_starts_before_leaderboard_entry", repository)
      else with_evaluation repository w entry
          (find? (λ e. e.evaluation_id == entry.evaluation_id) repository.locked_evaluation_results)

  unfoldable pub record_paper_shadow_outcome :
      ArtifactRepository F → ShadowWindow F → Result (PaperShadowOutcome F) × ArtifactRepository F
  unfolding outcome_for outcome_blockers
  record_paper_shadow_outcome repository w =
      with_entry repository w
        (find? (λ e. e.entry_id == w.leaderboard_entry_id) repository.leaderboard_entries)
