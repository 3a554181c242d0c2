-- ===== src/Experiments/Budget.antt =====
-- The budget of trials (experiment_registry.py).
use paper_forecast_loop.Prelude.{
  ℕ, ◌-◌, eq_iff, ◌+◌, ◌≤◌, String, ◌≡◌, refl, sym, ap, ◌⊎◌, ◌∙◌, true, false, some, List, [], ◌∷◌,
  ◌++◌, Bool-cases, inl, inr, arith, length, le→leb,
}
use paper_forecast_loop.Prelude.Text.{upper, contains, is_text, contains-disjoint}
use paper_forecast_loop.Runtime.{Runtime}
use paper_forecast_loop.Models.Evaluation.{ExperimentTrial}
use paper_forecast_loop.Storage.{ArtifactRepository}
use paper_forecast_loop.Storage.Unique.{append_unique, has_id}
use paper_forecast_loop.Experiments.{
  TrialRequest, final_statuses, open_statuses, has_index, consumes, consume, consume_all,
  consumed_trial_indexes, budget_exhausted, used_after, trial_for, budget_for,
  record_experiment_trial,
}

length-append_one : (xs : List ℕ) (x : ℕ) → length (xs ++ x ∷ []) ≡ length xs + 1
length-append_one [] x = refl
length-append_one (y ∷ xs) x = grind (arith, length-append_one xs x)

module _ {F : Type 0} where
  consume_all-append :
      (card : String) (indexes : List ℕ) (trials : List (ExperimentTrial F)) (t : ExperimentTrial F)
      → consume_all card indexes (trials ++ t ∷ [])
        ≡ consume card (consume_all card indexes trials) t
  unfolding consume_all
  consume_all-append card indexes [] t = refl
  consume_all-append card indexes (x ∷ trials) t =
      consume_all-append card (consume card indexes x) trials t

  consume_skip :
      (card : String) (xs : List ℕ) (t : ExperimentTrial F)
      → consumes card t ≡ false
      → consume card xs t ≡ xs
  unfolding consume
  consume_skip card xs t h = rw h refl

  consume_old :
      (card : String) (xs : List ℕ) (t : ExperimentTrial F)
      → has_index xs t.trial_index ≡ true
      → consume card xs t ≡ xs
  unfolding consume
  consume_old card xs t h = ground arith

  consume_new :
      (card : String) (xs : List ℕ) (t : ExperimentTrial F)
      → consumes card t ≡ true
      → has_index xs t.trial_index ≡ false
      → length (consume card xs t) ≡ length xs + 1
  unfolding consume
  consume_new card xs t h new = ground (arith, length-append_one xs t.trial_index)

  length-consume :
      (card : String) (xs : List ℕ) (t : ExperimentTrial F)
      → length (consume card xs t) ≤ length xs + 1
  unfolding consume
  length-consume card xs t = ground (arith, length-append_one xs t.trial_index)

module _ {F : Type 0} (rt : Runtime F) (repository : ArtifactRepository F)
    (r : TrialRequest F) where
  abbrev consumed : List ℕ
  consumed = consumed_trial_indexes repository.experiment_trials r.strategy_card_id

  abbrev after : ArtifactRepository F
  after = (record_experiment_trial rt repository r).1

  abbrev consumed_after : List ℕ
  consumed_after = consumed_trial_indexes after.experiment_trials r.strategy_card_id

  consumed_after_new :
      has_id (λ t. t.trial_id) (trial_for rt consumed r).trial_id repository.experiment_trials
        ≡ false
      → consumed_after ≡ consume r.strategy_card_id consumed (trial_for rt consumed r)
  unfolding record_experiment_trial append_unique
  consumed_after_new new = rw new (
      consume_all-append r.strategy_card_id [] repository.experiment_trials
        (trial_for rt consumed r))

  -- one call either leaves the consumed indexes alone or consumes the new trial
  consumed_after-cases :
      (consumed_after ≡ consumed)
      ⊎ (consumed_after ≡ consume r.strategy_card_id consumed (trial_for rt consumed r))
  unfolding record_experiment_trial append_unique
  consumed_after-cases =
      elim (Bool-cases (
        has_id (λ t. t.trial_id) (trial_for rt consumed r).trial_id repository.experiment_trials)) [
          | inl old ↦ inl (rw old refl)
          | inr new ↦ inr (consumed_after_new new)
        ]

  exhausted_not_consumed :
      (xs : List ℕ)
      → budget_exhausted xs r ≡ true
      → consumes r.strategy_card_id (trial_for rt xs r) ≡ false
  unfolding trial_for
  exhausted_not_consumed xs h = rw h (ground arith)

  open_not_consumed :
      (xs : List ℕ)
      → budget_exhausted xs r ≡ false
      → contains open_statuses (upper r.status) ≡ true
      → consumes r.strategy_card_id (trial_for rt xs r) ≡ false
  unfolding trial_for
  open_not_consumed xs e h = rw e (ground arith)

  consume_trial-kept :
      (xs : List ℕ)
      → (contains final_statuses (upper r.status) ≡ true)
        ⊎ (contains open_statuses (upper r.status) ≡ true)
      → length xs ≤ r.max_trials
      → length (consume r.strategy_card_id xs (trial_for rt xs r)) ≤ r.max_trials
  unfolding trial_for
  consume_trial-kept xs known h = elim (Bool-cases (budget_exhausted xs r)) [
    | inl e ↦
        rw (consume_skip r.strategy_card_id xs (trial_for rt xs r) (exhausted_not_consumed xs e)) h
    | inr e ↦ elim (Bool-cases (contains final_statuses (upper r.status))) [
      | inl final ↦ elim (Bool-cases (has_index xs r.trial_index)) [
        | inl old ↦ rw (consume_old r.strategy_card_id xs (trial_for rt xs r) old) h
        | inr new ↦ ground (arith, length-consume r.strategy_card_id xs (trial_for rt xs r))
      ]
      | inr other ↦
          rw
            (consume_skip r.strategy_card_id xs (trial_for rt xs r)
              (open_not_consumed xs e (ground arith)))
            h
    ]
  ]

  -- If the status of a request is a final one or PENDING or RUNNING, in any case of letters, and the
  -- card's consumed trials do not exceed the budget, they do not exceed it after the call.
  pub record_trial-keeps_budget :
      (contains final_statuses (upper r.status) ≡ true)
        ⊎ (contains open_statuses (upper r.status) ≡ true)
      → length consumed ≤ r.max_trials
      → length consumed_after ≤ r.max_trials
  record_trial-keeps_budget known h = elim consumed_after-cases [
    | inl same ↦ rw same h
    | inr stepped ↦ rw stepped (consume_trial-kept consumed known h)
  ]

  over_budget-exhausted :
      (xs : List ℕ)
      → contains final_statuses (upper r.status) ≡ true
      → has_index xs r.trial_index ≡ false
      → r.max_trials ≤ length xs
      → budget_exhausted xs r ≡ true
  over_budget-exhausted xs final new full = rw (final, new) (le→leb r.max_trials (length xs) full)

  -- If a request has a final status, in any case of letters, its index is not consumed yet, and the
  -- card's consumed trials are as many as the maximum or more, then the trial is recorded as ABORTED,
  -- with the exhausted budget as its reason, and consumes nothing.
  pub exhausted_trial_aborts :
      contains ("PASSED" ∷ "FAILED" ∷ "ABORTED" ∷ "INVALID" ∷ []) (upper r.status) ≡ true
      → has_index consumed r.trial_index ≡ false
      → r.max_trials ≤ length consumed
      → let trial = (record_experiment_trial rt repository r).0 in
        (trial.status ≡ "ABORTED")
        × (trial.failure_reason ≡ some "trial_budget_exhausted")
        × (consumed_after ≡ consumed)
  unfolding record_experiment_trial trial_for
  exhausted_trial_aborts final new full =
      let exhausted = over_budget-exhausted consumed final new full in
      (
        rw exhausted refl,
        rw exhausted refl,
        elim consumed_after-cases [
          | inl same ↦ same
          | inr stepped ↦
              stepped
              ∙ consume_skip r.strategy_card_id consumed (trial_for rt consumed r)
                  (exhausted_not_consumed consumed exhausted)
        ],
      )

  final_consumed :
      (xs : List ℕ)
      → budget_exhausted xs r ≡ false
      → contains open_statuses (upper r.status) ≡ false
      → is_text r.failure_reason "trial_budget_exhausted" ≡ false
      → consumes r.strategy_card_id (trial_for rt xs r) ≡ true
  unfolding trial_for
  final_consumed xs e closed own =
      rw e (ground (arith, closed, own, (eq_iff r.strategy_card_id r.strategy_card_id).1 refl))

  used_recounts :
      (xs : List ℕ)
      → contains final_statuses (upper r.status) ≡ true
      → contains open_statuses (upper r.status) ≡ false
      → is_text r.failure_reason "trial_budget_exhausted" ≡ false
      → used_after xs r ≡ length (consume r.strategy_card_id xs (trial_for rt xs r))
  unfolding trial_for
  used_recounts xs final closed own = elim (Bool-cases (budget_exhausted xs r)) [
    | inl e ↦
        rw (consume_skip r.strategy_card_id xs (trial_for rt xs r) (exhausted_not_consumed xs e))
          (ground arith)
    | inr e ↦ elim (Bool-cases (has_index xs r.trial_index)) [
      | inl old ↦ rw (consume_old r.strategy_card_id xs (trial_for rt xs r) old) (ground arith)
      | inr new ↦
          rw
            (consume_new r.strategy_card_id xs (trial_for rt xs r) (final_consumed xs e closed own)
              new)
            (ground arith)
    ]
  ]

  -- For a final status and a trial id that is not in use, the snapshot of the budget that is stored
  -- agrees with a recount of the stored trials: its used trials are the consumed ones after the call,
  -- and the remaining ones are those missing to the maximum. The condition on the reason excludes a
  -- caller who gives the reason that marks trials over the budget.
  pub snapshot_recounts :
      contains final_statuses (upper r.status) ≡ true
      → is_text r.failure_reason "trial_budget_exhausted" ≡ false
      → has_id (λ t. t.trial_id) (trial_for rt consumed r).trial_id repository.experiment_trials
        ≡ false
      → let budget = budget_for rt consumed r in
        (after.experiment_budgets
          ≡ append_unique (λ b. b.budget_id) repository.experiment_budgets budget)
        × (budget.used_trials ≡ length consumed_after)
        × (budget.remaining_trials ≡ r.max_trials - length consumed_after)
  unfolding record_experiment_trial budget_for
  snapshot_recounts final own new =
      let counted =
        used_recounts consumed final closed own ∙ ap length (sym (consumed_after_new new)) in
      (refl, counted, ap (λ n. r.max_trials - n) counted)
    where
      closed : contains open_statuses (upper r.status) ≡ false
      closed =
          contains-disjoint final_statuses open_statuses (upper r.status)
            (refl, (refl, (refl, (refl, tt)))) final
