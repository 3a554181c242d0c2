-- ===== src/ExecutionSafety/Subjects.antt =====
-- What each group of checks says when it passes (execution_safety.py).
use mathlib.Core.Bool.{false≢true}
use paper_forecast_loop.Prelude.{
  ◌≡◌, refl, ◌≤◌, String, Bool, true, false, not, ◌&&◌, ◌||◌, Option, none, some, List, ◌==◌,
  is_none, All, find?, find?-none, any, leb, leb→le, Bool-cases, inl, inr, if◌then◌else◌,
}
use paper_forecast_loop.Prelude.Text.{contains}
use paper_forecast_loop.Runtime.{Runtime}
use paper_forecast_loop.Models.Trading.{
  StrategyDecision, PaperControlEvent, PaperOrder, BrokerReconciliation,
}
use paper_forecast_loop.Models.Portfolio.{RiskSnapshot}
use paper_forecast_loop.Storage.{ArtifactRepository}
use paper_forecast_loop.Assets.{Asset}
use paper_forecast_loop.Control.{current_control_state, paper_order_control_block_reason}
use paper_forecast_loop.Orders.{orderable_actions}
use paper_forecast_loop.ExecutionSafety.{GateInput}
use paper_forecast_loop.ExecutionSafety.Checks.{
  Check, passed, decision_checks, control_checks, risk_checks, order_checks, reconciliation_checks,
  market_check, evidence_rank, buys, within, order_delta, is_duplicate_paper, is_duplicate_broker,
}

abbrev pub Passes : Check → Type 0
Passes c = passed c ≡ true

pub passed_if : (b : Bool) → ((if b then "pass" else "fail") == "pass") ≡ true → b ≡ true
passed_if true h = refl
passed_if false h = absurd (false≢true h)

both : (a b : Bool) → (a && b) ≡ true → (a ≡ true) × (b ≡ true)
both true true h = (refl, refl)
both true false h = absurd (false≢true h)
both false b h = absurd (false≢true h)

pub denied : (b : Bool) → not b ≡ true → b ≡ false
denied true h = absurd (false≢true h)
denied false h = refl

unless_refused : (b c : Bool) → (if b then false else c) ≡ true → (b ≡ false) × (c ≡ true)
unless_refused true c h = absurd (false≢true h)
unless_refused false c h = (refl, h)

pub market-Passes :
    (symbol : String) (o : Option Asset) (is_open : Bool)
    → Passes (market_check symbol o is_open)
    → (asset : Asset) × ((o ≡ some asset)
        × ((asset.asset_class == "crypto" || (asset.market == "US" && is_open)) ≡ true))
unfolding market_check
market-Passes symbol none is_open h = absurd (false≢true h)
market-Passes symbol (some asset) is_open h = (asset, (refl, open_if))
  where
    open_if : (asset.asset_class == "crypto" || (asset.market == "US" && is_open)) ≡ true
    open_if = elim (Bool-cases (asset.asset_class == "crypto")) [
      | inl crypto ↦ rw crypto refl
      | inr other ↦ elim (Bool-cases (asset.market == "US")) [
        | inl us ↦
            rw (other, us) (passed_if is_open (rw (Passes, passed, market_check, other, us) at h))
        | inr foreign ↦ absurd (false≢true (rw (Passes, passed, market_check, other, foreign) at h))
      ]
    ]

is_none-none : {A : Type 0} → (o : Option A) → is_none o ≡ true → o ≡ none
is_none-none none h = refl
is_none-none (some a) h = absurd (false≢true h)

none_found :
    {A : Type 0} → (p : A → Bool) (xs : List A) → is_none (find? p xs) ≡ true → any p xs ≡ false
none_found p xs h = find?-none p xs (is_none-none (find? p xs) h)

module _ {F : Type 0} (rt : Runtime F) where
  -- The decision that an allowed gate stands on.
  pub record IsExecutable (events : List (PaperControlEvent F)) (min_grade : String)
      (d : StrategyDecision F) : Type 0 where
    pub tradeable : d.tradeable ≡ true
    pub orderable : contains orderable_actions d.action ≡ true
    pub graded : evidence_rank min_grade 3 ≤ evidence_rank d.evidence_grade 0
    pub unstopped :
        is_none
          (paper_order_control_block_reason rt (current_control_state events (some d.symbol)) d)
        ≡ true

  pub decision-Passes :
      (events : List (PaperControlEvent F)) (min_grade : String) (o : Option (StrategyDecision F))
      → All Passes (decision_checks o min_grade)
      → All Passes (control_checks rt events o)
      → (d : StrategyDecision F) × ((o ≡ some d) × IsExecutable events min_grade d)
  unfolding decision_checks control_checks
  decision-Passes events min_grade none h k = absurd (false≢true h.0)
  decision-Passes events min_grade (some d) (_, (tradeable, (orderable, (graded, _))))
        (unstopped, _) =
      (
        d,
        (
          refl,
          record {
            tradeable = passed_if d.tradeable tradeable;
            orderable = passed_if (contains orderable_actions d.action) orderable;
            graded = leb→le _ _ (
                passed_if (leb (evidence_rank min_grade 3) (evidence_rank d.evidence_grade 0))
                  graded);
            unstopped =
                passed_if
                  (is_none (
                    paper_order_control_block_reason rt
                      (current_control_state events (some d.symbol)) d))
                  unstopped;
          },
        ),
      )

  -- The order: open, within the limit, and the only active one of its symbol.
  pub record IsSubmittable (repository : ArtifactRepository F) (i : GateInput F)
      (broker_mode : String) (decision : Option (StrategyDecision F)) (o : PaperOrder F)
      : Type 0 where
    pub open_order : (o.status == "CREATED") ≡ true
    pub sized : within rt (order_delta rt decision o) i.max_order_position_pct ≡ true
    pub single : any (is_duplicate_paper o) repository.paper_orders ≡ false
    pub unsubmitted :
        any (is_duplicate_broker o i.broker broker_mode) repository.broker_orders ≡ false

  pub order-Passes :
      (repository : ArtifactRepository F) (i : GateInput F) (broker_mode : String)
      (decision : Option (StrategyDecision F)) (o : Option (PaperOrder F))
      → All Passes (
          order_checks rt o decision repository.paper_orders repository.broker_orders i.broker
            broker_mode i.max_order_position_pct)
      → (order : PaperOrder F) × ((o ≡ some order)
          × IsSubmittable repository i broker_mode decision order)
  unfolding order_checks
  order-Passes repository i broker_mode decision none h = absurd (false≢true h.0)
  order-Passes repository i broker_mode decision (some o)
        (_, (is_open, (sized, (single, (unsubmitted, _))))) =
      (
        o,
        (
          refl,
          record {
            open_order = passed_if (o.status == "CREATED") is_open;
            sized =
                passed_if (within rt (order_delta rt decision o) i.max_order_position_pct) sized;
            single =
                none_found (is_duplicate_paper o) repository.paper_orders (
                  passed_if (is_none (find? (is_duplicate_paper o) repository.paper_orders))
                    single);
            unsubmitted =
                none_found (is_duplicate_broker o i.broker broker_mode) repository.broker_orders (
                  passed_if
                    (is_none
                      (find? (is_duplicate_broker o i.broker broker_mode) repository.broker_orders))
                    unsubmitted);
          },
        ),
      )

module _ {F : Type 0} where
  -- The risk: known and not blocking, and without any finding for a purchase.
  pub record IsTolerable (decision : Option (StrategyDecision F)) (r : RiskSnapshot F)
      : Type 0 where
    pub not_blocking : (r.severity == "blocking") ≡ false
    pub clear_for_buys : (buys decision && not (r.severity == "none")) ≡ false

  pub risk-Passes :
      (o : Option (RiskSnapshot F)) (decision : Option (StrategyDecision F))
      → All Passes (risk_checks o decision)
      → (r : RiskSnapshot F) × ((o ≡ some r) × IsTolerable decision r)
  unfolding risk_checks
  risk-Passes none decision h = absurd (false≢true h.0)
  risk-Passes (some r) decision (_, (limits, _)) =
      let (clear, passes) =
        unless_refused (buys decision && not (r.severity == "none"))
          (not (r.severity == "blocking"))
          (passed_if
            (if buys decision && not (r.severity == "none")
              then false
              else not (r.severity == "blocking"))
            limits) in
      (
        r,
        (
          refl,
          record {
            not_blocking = denied (r.severity == "blocking") passes;
            clear_for_buys = clear;
          },
        ),
      )

  pub reconciliation-Passes :
      (o : Option (BrokerReconciliation F))
      → All Passes (reconciliation_checks o)
      → (r : BrokerReconciliation F) × ((o ≡ some r)
          × ((r.repair_required ≡ false) × ((r.severity == "blocking") ≡ false)))
  unfolding reconciliation_checks
  reconciliation-Passes none h = absurd (false≢true h.0)
  reconciliation-Passes (some r) (sound, _) =
      let (repaired, mild) =
        both (not r.repair_required) (not (r.severity == "blocking"))
          (passed_if (not r.repair_required && not (r.severity == "blocking")) sound) in
      (r, (refl, (denied r.repair_required repaired, denied (r.severity == "blocking") mild)))
