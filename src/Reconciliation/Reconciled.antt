-- ===== src/Reconciliation/Reconciled.antt =====
-- What a reconciliation without findings stands on (broker_reconciliation.py).
use mathlib.Core.Bool.{false≢true}
use paper_forecast_loop.Prelude.{
  ◌≡◌, refl, ap, sym, ◌∙◌, ℕ, String, true, false, Option, none, some, [], ◌∷◌, keep, last?,
  is_empty, keep-is_empty, map-is_empty, both_empty, is_some, All, ok, ok_injective, ok≢err,
  guard_ok, Result-cases, Bool-cases, inl, inr, subst,
}
use paper_forecast_loop.Prelude.Text.{contains, upper, dashes_to_underscores}
use paper_forecast_loop.Runtime.{Runtime}
use paper_forecast_loop.Models.Trading.{BrokerReconciliation}
use paper_forecast_loop.Models.Portfolio.{PaperPortfolioSnapshot}
use paper_forecast_loop.Storage.{ArtifactRepository}
use paper_forecast_loop.BrokerLifecycle.{allowed_modes}
use paper_forecast_loop.Reconciliation.Matching.{reconcile_orders, finding_if}
use paper_forecast_loop.Reconciliation.Accounts.{
  ExternalSnapshot, Tolerances, reconcile_portfolio, portfolio_result, numeric_mismatch, is_close,
  deviates, traded_symbols, position_mismatches, has_account,
}
use paper_forecast_loop.Reconciliation.Matched.{
  IsMatched, settled_orders-IsMatched, unfound, unfilled,
}
use paper_forecast_loop.Reconciliation.{
  run_broker_reconciliation, reconciliation_for, normalize_reconciliation_mode, orders_at,
}

module _ {F : Type 0} (rt : Runtime F) where
  -- The portfolio and the account of the snapshot agree.
  pub record IsBalanced (p : PaperPortfolioSnapshot F) (snapshot : ExternalSnapshot F)
      (tolerances : Tolerances F) : Type 0 where
    pub cash_close : is_close rt p.cash snapshot.cash tolerances.cash_tolerance ≡ true
    pub equity_close : is_close rt p.equity snapshot.equity tolerances.equity_tolerance ≡ true
    pub positions_close :
        All
          (λ symbol.
            deviates rt p.positions snapshot.positions tolerances.position_tolerance symbol ≡ false)
          (traded_symbols p.positions snapshot.positions)

  -- Without a portfolio, the snapshot has no account either.
  abbrev pub IsAccounted :
      Option (PaperPortfolioSnapshot F) → ExternalSnapshot F → Tolerances F → Type 0
  IsAccounted none snapshot tolerances = has_account snapshot ≡ false
  IsAccounted (some p) snapshot tolerances = IsBalanced p snapshot tolerances

  close_if :
      (local_value : F) (external : Option F) (tolerance : F) (field : String)
      → is_some (numeric_mismatch rt local_value external tolerance field) ≡ false
      → is_close rt local_value external tolerance ≡ true
  unfolding numeric_mismatch
  close_if local_value none tolerance field h = refl
  close_if local_value (some x) tolerance field h =
      elim (Bool-cases (rt.le (rt.abs (rt.sub local_value x)) tolerance)) [
        | inl close ↦ close
        | inr far ↦ absurd (false≢true (sym (rw far at h)))
      ]

  reconciled_portfolio-IsAccounted :
      (o : Option (PaperPortfolioSnapshot F)) (snapshot : ExternalSnapshot F)
      (tolerances : Tolerances F)
      → is_empty (reconcile_portfolio rt o snapshot tolerances).findings ≡ true
      → IsAccounted o snapshot tolerances
  unfolding reconcile_portfolio portfolio_result position_mismatches
  reconciled_portfolio-IsAccounted none snapshot tolerances h =
      let (nothing, _) = both_empty (finding_if (has_account snapshot) _) _ h in
      unfound (has_account snapshot) _ nothing
  reconciled_portfolio-IsAccounted (some p) snapshot tolerances h =
      let test = deviates rt p.positions snapshot.positions tolerances.position_tolerance in
      let symbols = traded_symbols p.positions snapshot.positions in
      let (cash, rest) = both_empty (finding_if _ _) _ h in
      let (equity, positions) = both_empty (finding_if _ _) _ rest in
      record {
        cash_close = close_if p.cash snapshot.cash _ "cash" (unfound _ _ cash);
        equity_close = close_if p.equity snapshot.equity _ "equity" (unfound _ _ equity);
        positions_close =
            keep-is_empty test symbols
              (sym (map-is_empty _ (keep test symbols)) ∙ unfilled _ (unfound _ _ positions));
      }

  normalized_mode :
      (mode normalized : String)
      → normalize_reconciliation_mode mode ≡ ok normalized
      → contains allowed_modes normalized ≡ true
  unfolding normalize_reconciliation_mode
  normalized_mode mode normalized e =
      let (known, same) =
        guard_ok (contains allowed_modes (dashes_to_underscores (upper mode))) _ _ normalized e in
      subst (λ m. contains allowed_modes m ≡ true) same known

  -- If run_broker_reconciliation returns a reconciliation that needs no repair, then its broker mode is
  -- one of the two paper modes; among the local orders of that broker and mode none that is submitted,
  -- acknowledged or partially filled lacks its external order, and none has another status than that, in
  -- upper case, of the last external order with its reference, unless that is empty; every reference of an
  -- external order is that of a local one, and is there once; and the latest portfolio snapshot agrees
  -- with the account within the tolerances in the cash and the equity the account names, and deviates
  -- in no symbol of the two by more than the tolerance, or, if there is no portfolio snapshot, the
  -- account names no position, no cash and no equity.
  pub repair_free-IsReconciled :
      (repository : ArtifactRepository F) (snapshot : ExternalSnapshot F) (now : ℕ)
      (broker mode : String) (tolerances : Tolerances F) (r : BrokerReconciliation F)
      → (run_broker_reconciliation rt repository snapshot now broker mode tolerances).0 ≡ ok r
      → r.repair_required ≡ false
      → (contains ("EXTERNAL_PAPER" ∷ "SANDBOX" ∷ []) r.broker_mode ≡ true)
        × (IsMatched (orders_at repository broker r.broker_mode) snapshot.orders
            × IsAccounted (last? repository.portfolio_snapshots) snapshot tolerances)
  unfolding run_broker_reconciliation reconciliation_for
  repair_free-IsReconciled repository snapshot now broker mode tolerances r e h =
      elim (Result-cases (normalize_reconciliation_mode mode)) [
        | inl (why, refused) ↦ absurd (ok≢err (sym (rw (run_broker_reconciliation, refused) at e)))
        | inr (normalized, normal) ↦
            let same = ok_injective (rw (run_broker_reconciliation, normal) at e) in
            let locals = orders_at repository broker normalized in
            let free = ap (λ (g : BrokerReconciliation F). g.repair_required) same ∙ h in
            let (orders, accounts) =
              both_empty (reconcile_orders locals snapshot.orders).findings
                (reconcile_portfolio rt (last? repository.portfolio_snapshots) snapshot
                  tolerances).findings
                (unfilled _ free) in
            subst
              (λ (m : String).
                (contains ("EXTERNAL_PAPER" ∷ "SANDBOX" ∷ []) m ≡ true)
                × (IsMatched (orders_at repository broker m) snapshot.orders
                    × IsAccounted (last? repository.portfolio_snapshots) snapshot tolerances))
              (ap (λ (g : BrokerReconciliation F). g.broker_mode) same)
              (
                normalized_mode mode normalized normal,
                (
                  settled_orders-IsMatched locals snapshot.orders orders,
                  reconciled_portfolio-IsAccounted (last? repository.portfolio_snapshots) snapshot
                      tolerances accounts,
                ),
              )
      ]
