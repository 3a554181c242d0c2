-- ===== src/PaperShadow/Promotion.antt =====
-- What stands behind a recommended promotion (paper_shadow.py).
use paper_forecast_loop.Prelude.{
  ◌≡◌, refl, ap, sym, ◌∙◌, arith, ◌≤◌, String, Bool, true, false, not, ◌||◌, Option, some, List, [],
  ◌∷◌, ◌++◌, ◌==◌, is_empty, is_none, any, find?, All, All-split, ok, ok_injective, ok≢err,
  Bool-cases, Option-cases, inl, inr, ltb, ltb→ge, if◌then◌else◌,
}
use paper_forecast_loop.Prelude.Text.{contains}
use mathlib.Core.Bool.{false≢true}
use paper_forecast_loop.Runtime.{Runtime, IsIeee, zero_point}
use paper_forecast_loop.Models.Evaluation.{
  LeaderboardEntry, LockedEvaluationResult, PaperShadowOutcome,
}
use paper_forecast_loop.Storage.{ArtifactRepository}
use paper_forecast_loop.PaperShadow.{
  Classified, unique_after, unique, blocker_if, ShadowWindow, leaderboard_blockers,
  evaluation_blockers, link_blockers, outcome_blockers, above, classify_outcome, outcome_for,
  record_paper_shadow_outcome,
}

abbrev IsBlank : String → Type 0
IsBlank s = (s == "") ≡ true

unblocked :
    (test : Bool) (s : String) → (s == "") ≡ false → All IsBlank (blocker_if test s) → test ≡ false
unblocked false s n h = refl
unblocked true s n h = absurd (false≢true (sym n ∙ h.0))

held : {b : Bool} → not b ≡ false → b ≡ true
held {b = b} h = ground arith

-- `_unique` leaves nothing only of empty texts.
unique-IsBlank : (xs : List String) → is_empty (unique xs) ≡ true → All IsBlank xs
unfolding unique
unique-IsBlank [] h = tt
unique-IsBlank (x ∷ xs) h = elim (Bool-cases (x == "")) [
  | inl blank ↦ (blank, unique-IsBlank xs (rw (is_empty, unique, blank) at h))
  | inr filled ↦ absurd (false≢true (rw (is_empty, unique, filled) at h))
]

unique_after-filled : (seen xs : List String) → All (λ s. (s == "") ≡ false) (unique_after seen xs)
unique_after-filled seen [] = tt
unique_after-filled seen (x ∷ xs) = elim (Bool-cases (x == "")) [
  | inl blank ↦ rw (All, unique_after, blank) (unique_after-filled seen xs)
  | inr filled ↦ elim (Bool-cases (contains seen x)) [
    | inl old ↦ rw (All, unique_after, filled, old) (unique_after-filled seen xs)
    | inr new ↦ rw (All, unique_after, filled, new) (filled, unique_after-filled (x ∷ seen) xs)
  ]
]

empty_if_blank :
    (xs : List String) → All (λ s. (s == "") ≡ false) xs → All IsBlank xs → is_empty xs ≡ true
empty_if_blank [] filled blank = refl
empty_if_blank (x ∷ xs) filled blank = absurd (false≢true (sym filled.0 ∙ blank.0))

unique-unique-IsBlank : (xs : List String) → All IsBlank (unique xs) → All IsBlank xs
unfolding unique
unique-unique-IsBlank xs h =
    unique-IsBlank xs (empty_if_blank (unique xs) (unique_after-filled [] xs) h)

-- The verdict as a function of its tests.
abbrev verdict_of : Bool → Bool → Bool → Bool → Bool → Classified
verdict_of clear negative adverse busy deep =
    let attributions =
      blocker_if negative "negative_excess_return"
      ++ (blocker_if adverse "adverse_excursion_breach" ++ blocker_if busy "turnover_breach") in
    if not clear
    then record {
      grade = "BLOCKED";
      promotion_stage = "PAPER_SHADOW_BLOCKED";
      strategy_action = "QUARANTINE";
      attributions = [];
    }
    else if adverse || deep
    then record {
      grade = "QUARANTINE";
      promotion_stage = "PAPER_SHADOW_QUARANTINED";
      strategy_action = "QUARANTINE";
      attributions = attributions;
    }
    else if not (is_empty attributions)
    then record {
      grade = "FAIL";
      promotion_stage = "PAPER_SHADOW_FAILED";
      strategy_action = "RETIRE";
      attributions = attributions;
    }
    else record {
      grade = "PASS";
      promotion_stage = "PAPER_SHADOW_PASSED";
      strategy_action = "PROMOTION_READY";
      attributions = [];
    }

ready_tests :
    (clear negative adverse busy deep : Bool)
    → ((verdict_of clear negative adverse busy deep).strategy_action == "PROMOTION_READY") ≡ true
    → (clear ≡ true) × ((negative ≡ false) × ((adverse ≡ false) × (busy ≡ false)))
ready_tests false n a t l h = absurd (false≢true h)
ready_tests true n true t l h = absurd (false≢true h)
ready_tests true n false t true h = absurd (false≢true h)
ready_tests true true false t false h = absurd (false≢true h)
ready_tests true false false true false h = absurd (false≢true h)
ready_tests true false false false false h = (refl, (refl, (refl, refl)))

module _ {F : Type 0} where
  -- The artifacts behind a window clear it: the entry and its evaluation are rankable, neither
  -- blocked, and each with an alpha score; they agree on card and trial, which are stored.
  pub record IsCleared (repository : ArtifactRepository F) (entry : LeaderboardEntry F)
      (evaluation : LockedEvaluationResult F) : Type 0 where
    pub entry_rankable : entry.rankable ≡ true
    pub entry_stage : (entry.promotion_stage == "BLOCKED") ≡ false
    pub entry_scored : is_none entry.alpha_score ≡ false
    pub entry_reasons : All IsBlank entry.blocked_reasons
    pub evaluation_passed : evaluation.passed ≡ true
    pub evaluation_rankable : evaluation.rankable ≡ true
    pub evaluation_scored : is_none evaluation.alpha_score ≡ false
    pub evaluation_reasons : All IsBlank evaluation.blocked_reasons
    pub same_card : (entry.strategy_card_id == evaluation.strategy_card_id) ≡ true
    pub same_trial : (entry.trial_id == evaluation.trial_id) ≡ true
    pub card_stored :
        any (λ card. entry.strategy_card_id == card.card_id) repository.strategy_cards ≡ true
    pub trial_stored :
        any (λ trial. entry.trial_id == trial.trial_id) repository.experiment_trials ≡ true

  no_blockers-IsCleared :
      (repository : ArtifactRepository F) (entry : LeaderboardEntry F)
      (evaluation : LockedEvaluationResult F)
      → is_empty (outcome_blockers repository entry evaluation) ≡ true
      → IsCleared repository entry evaluation
  unfolding outcome_blockers leaderboard_blockers evaluation_blockers link_blockers
  no_blockers-IsCleared repository entry evaluation h =
      let all =
        unique-IsBlank
          (leaderboard_blockers entry
            ++ (evaluation_blockers evaluation ++ link_blockers repository entry evaluation))
          h in
      let (entry_blank, rest) = All-split IsBlank (leaderboard_blockers entry) _ all in
      let (evaluation_blank, links) = All-split IsBlank (evaluation_blockers evaluation) _ rest in
      let (e1, e) =
        All-split IsBlank (blocker_if (not entry.rankable) _) _
          (unique-unique-IsBlank _ entry_blank) in
      let (e2, e) = All-split IsBlank (blocker_if (entry.promotion_stage == "BLOCKED") _) _ e in
      let (e3, entry_reasons) = All-split IsBlank (blocker_if (is_none entry.alpha_score) _) _ e in
      let (v1, v) =
        All-split IsBlank (blocker_if (not evaluation.passed) _) _
          (unique-unique-IsBlank _ evaluation_blank) in
      let (v2, v) = All-split IsBlank (blocker_if (not evaluation.rankable) _) _ v in
      let (v3, evaluation_reasons) =
        All-split IsBlank (blocker_if (is_none evaluation.alpha_score) _) _ v in
      let (l1, l) =
        All-split IsBlank
          (blocker_if (not (entry.strategy_card_id == evaluation.strategy_card_id)) _) _ links in
      let (l2, l) =
        All-split IsBlank (blocker_if (not (entry.trial_id == evaluation.trial_id)) _) _ l in
      let (l3, l) =
        All-split IsBlank
          (blocker_if
            (not (any (λ card. entry.strategy_card_id == card.card_id) repository.strategy_cards))
            _)
          _ l in
      let (l4, _) =
        All-split IsBlank
          (blocker_if
            (not (any (λ trial. entry.trial_id == trial.trial_id) repository.experiment_trials)) _)
          _ l in
      record {
        entry_rankable = held (unblocked _ _ refl e1);
        entry_stage = unblocked _ _ refl e2;
        entry_scored = unblocked _ _ refl e3;
        entry_reasons = entry_reasons;
        evaluation_passed = held (unblocked _ _ refl v1);
        evaluation_rankable = held (unblocked _ _ refl v2);
        evaluation_scored = unblocked _ _ refl v3;
        evaluation_reasons = evaluation_reasons;
        same_card = held (unblocked _ _ refl l1);
        same_trial = held (unblocked _ _ refl l2);
        card_stored = held (unblocked _ _ refl l3);
        trial_stored = held (unblocked _ _ refl l4);
      }

module _ {F : Type 0} (rt : Runtime F) where
  -- The numbers behind a pass: an excess return that is not at or below 0, no adverse excursion
  -- above 0.10 and no turnover above 5.
  pub record IsPassing (excess_return : F) (max_adverse_excursion turnover : Option F)
      : Type 0 where
    pub excess : rt.le excess_return (zero_point rt) ≡ false
    pub excursion : above rt max_adverse_excursion (rt.dec 10 2) ≡ false
    pub calm : above rt turnover (rt.dec 5 0) ≡ false

  ready-IsPassing :
      (excess : F) (adverse turnover : Option F) (blocked : List String)
      → ((classify_outcome rt excess adverse turnover blocked).strategy_action == "PROMOTION_READY")
        ≡ true
      → (is_empty blocked ≡ true) × IsPassing excess adverse turnover
  unfolding classify_outcome
  ready-IsPassing excess adverse turnover blocked h =
      let (clear, (negative, (adverse_breach, turnover_breach))) =
        ready_tests (is_empty blocked) (rt.le excess (zero_point rt))
          (above rt adverse (rt.dec 10 2)) (above rt turnover (rt.dec 5 0))
          (rt.le excess (rt.neg (rt.dec 5 2))) h in
      (clear, record { excess = negative; excursion = adverse_breach; calm = turnover_breach })

  -- If the recommendation for a recorded window is PROMOTION_READY, then the window does not start
  -- before its leaderboard entry was made; the entry stands in the repository with its locked
  -- evaluation, and the two clear it: both rankable, with an alpha score and without a blocked reason,
  -- the entry not in the stage BLOCKED, the evaluation passed, and of one card and trial, which are
  -- stored; and the rounded excess return is not at or below 0, no adverse excursion is above 0.10 and
  -- no turnover above 5.
  pub promotion_ready-IsCleared :
      (repository : ArtifactRepository F) (w : ShadowWindow F) (outcome : PaperShadowOutcome F)
      → (record_paper_shadow_outcome rt repository w).0 ≡ ok outcome
      → (outcome.recommended_strategy_action == "PROMOTION_READY") ≡ true
      → (entry : LeaderboardEntry F) × ((evaluation : LockedEvaluationResult F) × ((find?
                (λ e. e.entry_id == w.leaderboard_entry_id)
                repository.leaderboard_entries
              ≡ some entry)
            × ((find?
                    (λ e. e.evaluation_id == entry.evaluation_id)
                    repository.locked_evaluation_results
                  ≡ some evaluation)
                × ((entry.created_at ≤ w.window_start)
                    × (IsCleared repository entry evaluation
                        × IsPassing
                            (rt.round (rt.sub w.observed_return w.benchmark_return) 8)
                            w.max_adverse_excursion
                            w.turnover)))))
  unfolding record_paper_shadow_outcome outcome_for
  promotion_ready-IsCleared repository w outcome e ready =
      elim (Option-cases
        (find? (λ e. e.entry_id == w.leaderboard_entry_id) repository.leaderboard_entries)) [
          | inl missing ↦ absurd (ok≢err (sym (rw (record_paper_shadow_outcome, missing) at e)))
          | inr (entry, found) ↦ elim (Bool-cases (ltb w.window_start entry.created_at)) [
            | inl early ↦
                absurd (ok≢err (sym (rw (record_paper_shadow_outcome, found, early) at e)))
            | inr later ↦
                elim (Option-cases (
                  find? (λ e. e.evaluation_id == entry.evaluation_id)
                    repository.locked_evaluation_results)) [
                      | inl missing ↦ absurd (
                          ok≢err
                            (sym (rw (record_paper_shadow_outcome, found, later, missing) at e)))
                      | inr (evaluation, evaluated) ↦
                          let same =
                            ok_injective
                              (rw (record_paper_shadow_outcome, found, later, evaluated) at e) in
                          let (clear, passing) =
                            ready-IsPassing
                              (rt.round (rt.sub w.observed_return w.benchmark_return) 8)
                              w.max_adverse_excursion w.turnover
                              (outcome_blockers repository entry evaluation)
                              (ap
                                  (λ (o : PaperShadowOutcome F).
                                    o.recommended_strategy_action == "PROMOTION_READY")
                                  same
                                ∙ ready) in
                          (
                            entry,
                            (
                              evaluation,
                              (
                                found,
                                (
                                  evaluated,
                                  (
                                    ltb→ge _ _ later,
                                    (
                                      no_blockers-IsCleared repository entry evaluation clear,
                                      passing,
                                    ),
                                  ),
                                ),
                              ),
                            ),
                          )
                    ]
          ]
        ]

  never_below : IsIeee rt → (x y : F) → rt.le x x ≡ false → rt.le x y ≡ false
  never_below laws x y nan = elim (Bool-cases (rt.le x y)) [
    | inr above ↦ above
    | inl below ↦ absurd (false≢true (sym nan ∙ (laws.refl_of_le x y below).0))
  ]

  -- A window whose excess return is NaN, with no blocker and neither limit passed, is recommended as
  -- PROMOTION_READY: the tests on the excess are written with <=, which is false on NaN.
  pub nan_excess_is_ready :
      IsIeee rt
      → (excess : F) (adverse turnover : Option F) → rt.le excess excess ≡ false
      → above rt adverse (rt.dec 10 2) ≡ false
      → above rt turnover (rt.dec 5 0) ≡ false
      → (classify_outcome rt excess adverse turnover []).strategy_action ≡ "PROMOTION_READY"
  unfolding classify_outcome
  nan_excess_is_ready laws excess adverse turnover nan calm quiet =
      rw
        (
          classify_outcome,
          never_below laws excess (zero_point rt) nan,
          never_below laws excess (rt.neg (rt.dec 5 2)) nan,
          calm,
          quiet,
        )
        refl
