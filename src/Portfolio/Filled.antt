-- ===== src/Portfolio/Filled.antt =====
-- What a fill does to the orders (portfolio.py, `fill_paper_order`).
use paper_forecast_loop.Prelude.{
  ℕ, String, ◌≡◌, refl, ap, sym, subst, ◌||◌, All, none≢some, some_injective, ◌⊎◌, inl, inr, Bool,
  true, false, Option, none, some, List, [], ◌∷◌, ◌++◌, ◌==◌, any, arith, Bool-cases, Option-cases,
  last?, if◌then◌else◌, Result, ok, err,
}
use paper_forecast_loop.Runtime.{Runtime, zero_point}
use paper_forecast_loop.Models.Trading.{PaperOrder}
use paper_forecast_loop.Models.Portfolio.{PaperPortfolioSnapshot, PaperFill}
use paper_forecast_loop.Storage.{ArtifactRepository}
use paper_forecast_loop.Orders.{is_active}
use paper_forecast_loop.Orders.Single.{IsSingle}
use paper_forecast_loop.Decision.Selection.{latest_or_empty_portfolio}
use paper_forecast_loop.Portfolio.Fills.{
  build_fill, fill_price, fill_size, FillSize, is_nothing, fill_of,
}
use paper_forecast_loop.Portfolio.{
  PaperFillResult, Selected, behind, select_by_id, select_latest, select_order, mark_filled,
  store_fill, fill_selected, fill_paper_order,
}

module _ {F : Type 0} where
  -- the list that an order was selected from
  abbrev whole : Selected F → List (PaperOrder F)
  whole s = s.before ++ s.order ∷ s.later

  -- the orders that a call looks for, and those that it must not pass over
  abbrev pub wanted : String → PaperOrder F → Bool
  wanted order_id o = if order_id == "latest" then o.status == "CREATED" else o.order_id == order_id

  abbrev pub passed_over : String → Selected F → List (PaperOrder F)
  passed_over order_id s = if order_id == "latest" then s.later else s.before

  -- What a selection among orders by a test finds.
  abbrev Picks :
      (PaperOrder F → Bool)
      → (Selected F → List (PaperOrder F))
      → List (PaperOrder F)
      → Option (Selected F)
      → Type 0
  Picks p skipped orders none = All (λ o. p o ≡ false) orders
  Picks p skipped orders (some s) =
      (orders ≡ whole s) × ((p s.order ≡ true) × All (λ o. p o ≡ false) (skipped s))

  select_by_id-Picks :
      (id : String) (orders : List (PaperOrder F))
      → Picks (λ o. o.order_id == id) (λ s. s.before) orders (select_by_id id orders)
  unfolding select_by_id
  select_by_id-Picks id [] = tt
  select_by_id-Picks id (o ∷ orders) = elim (Bool-cases (o.order_id == id)) [
    | inl here ↦ rw here (refl, (here, tt))
    | inr there ↦ rw there (in_rest there (select_by_id id orders) (select_by_id-Picks id orders))
  ]
    where
      in_rest :
          (o.order_id == id) ≡ false
          → (rest : Option (Selected F)) → Picks (λ o. o.order_id == id) (λ s. s.before) orders rest
          → Picks
              (λ o. o.order_id == id)
              (λ s. s.before)
              (o ∷ orders)
              (elim rest [ none ↦ none | some s ↦ some (behind o s) ])
      in_rest there none h = (there, h)
      in_rest there (some s) (split, (found, skipped)) =
          (ap (λ os. o ∷ os) split, (found, (there, skipped)))

  select_latest-Picks :
      (orders : List (PaperOrder F))
      → Picks (λ o. o.status == "CREATED") (λ s. s.later) orders (select_latest orders)
  unfolding select_latest
  select_latest-Picks [] = tt
  select_latest-Picks (o ∷ orders) = in_rest (select_latest orders) (select_latest-Picks orders)
    where
      in_rest :
          (rest : Option (Selected F))
          → Picks (λ o. o.status == "CREATED") (λ s. s.later) orders rest
          → Picks
              (λ o. o.status == "CREATED")
              (λ s. s.later)
              (o ∷ orders)
              (elim rest [
                | some s ↦ some (behind o s)
                | none ↦
                    if o.status == "CREATED"
                    then some (record { before = []; order = o; later = orders })
                    else none
              ])
      in_rest (some s) (split, rest) = (ap (λ os. o ∷ os) split, rest)
      in_rest none h = elim (Bool-cases (o.status == "CREATED")) [
        | inl open_order ↦ rw open_order (refl, (open_order, h))
        | inr closed ↦ rw closed (closed, h)
      ]

  select_order-Picks :
      (orders : List (PaperOrder F)) (id : String)
      → Picks (wanted id) (passed_over id) orders (select_order orders id)
  unfolding select_order
  select_order-Picks orders id = by_test (id == "latest")
    where
      by_test :
          (latest : Bool)
          → Picks
              (λ o. if latest then o.status == "CREATED" else o.order_id == id)
              (λ s. if latest then s.later else s.before)
              orders
              (if latest then select_latest orders else select_by_id id orders)
      by_test true = select_latest-Picks orders
      by_test false = select_by_id-Picks id orders

  abbrev filled : PaperOrder F → PaperOrder F
  filled o = record o { status = "FILLED" }

  any_active-filled :
      (symbol : String) (before later : List (PaperOrder F)) (o : PaperOrder F)
      → any (is_active symbol) (before ++ o ∷ later) ≡ false
      → any (is_active symbol) (before ++ filled o ∷ later) ≡ false
  any_active-filled symbol [] later o h = ground arith
  any_active-filled symbol (x ∷ before) later o h =
      ground (arith, any_active-filled symbol before later o)

  IsSingle-filled :
      (before later : List (PaperOrder F)) (o : PaperOrder F)
      → IsSingle (before ++ o ∷ later)
      → IsSingle (before ++ filled o ∷ later)
  IsSingle-filled [] later o h = (λ a. ground arith, h.1)
  IsSingle-filled (x ∷ before) later o h =
      (λ a. any_active-filled x.symbol before later o (h.0 a), IsSingle-filled before later o h.1)

-- The order that a call selects: of the wanted ones, the last for "latest", and else the first.
pub record IsSelected {F : Type 0} (orders : List (PaperOrder F)) (order_id : String)
    (s : Selected F) : Type 0 where
  pub in_place : orders ≡ s.before ++ s.order ∷ s.later
  pub is_wanted : wanted order_id s.order ≡ true
  pub no_better : All (λ o. wanted order_id o ≡ false) (passed_over order_id s)

module _ {F : Type 0} (rt : Runtime F) where
  -- The orders when one of them has been filled.
  pub record IsFilled (orders : List (PaperOrder F)) (order_id : String)
      (result : PaperFillResult F) (after : ArtifactRepository F) (s : Selected F)
      (fill : PaperFill F) : Type 0 where
    pub selected : IsSelected orders order_id s
    pub was_open : (s.order.status == "CREATED") ≡ true
    pub status : result.status ≡ "filled"
    pub names_order : result.order_id ≡ some s.order.order_id
    pub names_fill : result.fill ≡ some fill
    pub fill_of_order : fill.order_id ≡ s.order.order_id
    pub fill_not_empty :
        (rt.le fill.gross_value (zero_point rt) || rt.le fill.quantity (zero_point rt)) ≡ false
    pub orders_after :
        after.paper_orders ≡ s.before ++ record s.order { status = "FILLED" } ∷ s.later

module _ {F : Type 0} where
  -- Why no order is filled: there is none, it is not open, or the fill would be empty.
  abbrev pub SkippedFor : List (PaperOrder F) → String → PaperFillResult F → Type 0
  SkippedFor orders order_id result =
      ((result.reason ≡ some "order_not_found") × All (λ o. wanted order_id o ≡ false) orders)
      ⊎ (((s : Selected F) × (IsSelected orders order_id s
              × (((s.order.status == "CREATED") ≡ false)
                  × (result.reason ≡ some "order_not_open"))))
          ⊎ ((s : Selected F) × (IsSelected orders order_id s
                × (((s.order.status == "CREATED") ≡ true)
                    × (result.reason ≡ some "no_fill_required")))))

module _ {F : Type 0} (rt : Runtime F) where
  -- what a call does to the orders
  abbrev pub FillEffect :
      ArtifactRepository F → String → F → Result (PaperFillResult F) × ArtifactRepository F → Type 0
  FillEffect repository order_id market_price (err why, after) =
      (rt.le market_price (zero_point rt) ≡ true) × (after ≡ repository)
  FillEffect repository order_id market_price (ok result, after) =
      (rt.le market_price (zero_point rt) ≡ false)
      × (((result.status ≡ "skipped")
            × ((result.fill ≡ none)
                × ((after.paper_orders ≡ repository.paper_orders)
                    × SkippedFor repository.paper_orders order_id result)))
          ⊎ ((s : Selected F) × ((fill : PaperFill F) × IsFilled rt repository.paper_orders order_id
                  result after s fill)))

  built_fill-of_order :
      (order : PaperOrder F) (now : ℕ) (market_price price : F)
      (portfolio : PaperPortfolioSnapshot F) (fee_bps slippage_bps : F) (fill : PaperFill F)
      → build_fill rt order now market_price price portfolio fee_bps slippage_bps ≡ some fill
      → (fill.order_id ≡ order.order_id)
        × ((rt.le fill.gross_value (zero_point rt) || rt.le fill.quantity (zero_point rt)) ≡ false)
  unfolding build_fill
  built_fill-of_order order now market_price price portfolio fee_bps slippage_bps fill h =
      by_size (fill_size rt order portfolio market_price price) h
    where
      by_size :
          (size : Option (FillSize rt))
          → elim size [
            | none ↦ none
            | some z ↦
                if is_nothing rt z
                then none
                else some (fill_of rt order now market_price price fee_bps slippage_bps z)
          ]
            ≡ some fill
          → (fill.order_id ≡ order.order_id)
            × ((rt.le fill.gross_value (zero_point rt) || rt.le fill.quantity (zero_point rt))
                ≡ false)
      by_size none k = cc
      by_size (some z) k = elim (Bool-cases (is_nothing rt z)) [
        | inl nothing ↦ absurd (none≢some (rw nothing at k))
        | inr something ↦
            let same = some_injective (rw something at k) in
            (
              sym (ap (λ (f : PaperFill F). f.order_id) same),
              subst
                  (λ (f : PaperFill F).
                    (rt.le f.gross_value (zero_point rt) || rt.le f.quantity (zero_point rt))
                    ≡ false)
                  same something,
            )
      ]

  latest-keeps_orders :
      (repository : ArtifactRepository F) (now : ℕ)
      → (latest_or_empty_portfolio rt repository now).1.paper_orders ≡ repository.paper_orders
  unfolding latest_or_empty_portfolio
  latest-keeps_orders repository now = elim (Option-cases (last? repository.portfolio_snapshots)) [
    | inl missing ↦ rw (missing, latest_or_empty_portfolio) refl
    | inr (portfolio, found) ↦ rw (found, latest_or_empty_portfolio) refl
  ]

  module _ (repository : ArtifactRepository F) (order_id : String) (now : ℕ)
      (market_price fee_bps slippage_bps : F) where
    abbrev Effect : PaperFillResult F × ArtifactRepository F → Type 0
    Effect (result, after) = FillEffect repository order_id market_price (ok result, after)

    store-FillEffect :
        rt.le market_price (zero_point rt) ≡ false
        → (s : Selected F) (after : ArtifactRepository F) (latest : PaperPortfolioSnapshot F)
          (price : F) (fill : Option (PaperFill F))
        → build_fill rt s.order now market_price price latest fee_bps slippage_bps ≡ fill
        → IsSelected repository.paper_orders order_id s
        → (s.order.status == "CREATED") ≡ true
        → after.paper_orders ≡ repository.paper_orders
        → Effect (store_fill rt after s latest fill)
    unfolding mark_filled
    store-FillEffect priced s after latest price none built selected open_order same =
        (priced, inl (refl, (refl, (same, inr (inr (s, (selected, (open_order, refl))))))))
    store-FillEffect priced s after latest price (some fill) built selected open_order same =
        let (own, filled_some) =
          built_fill-of_order s.order now market_price price latest fee_bps slippage_bps fill
            built in
        (
          priced,
          inr (
            s,
            (
              fill,
              record {
                selected = selected;
                was_open = open_order;
                status = refl;
                names_order = refl;
                names_fill = refl;
                fill_of_order = own;
                fill_not_empty = filled_some;
                orders_after = refl;
              },
            ),
          ),
        )

    selected-FillEffect :
        rt.le market_price (zero_point rt) ≡ false
        → (o : Option (Selected F))
        → Picks (wanted order_id) (passed_over order_id) repository.paper_orders o
        → Effect (fill_selected rt repository order_id now market_price fee_bps slippage_bps o)
    selected-FillEffect priced none missing =
        (priced, inl (refl, (refl, (refl, inl (refl, missing)))))
    selected-FillEffect priced (some s) (split, (found, skipped)) =
        let selected : IsSelected repository.paper_orders order_id s = record {
          in_place = split;
          is_wanted = found;
          no_better = skipped;
        } in
        elim (Bool-cases (s.order.status == "CREATED")) [
          | inr closed ↦
              rw closed
                (priced, inl (refl, (refl, (refl, inr (inl (s, (selected, (closed, refl))))))))
          | inl open_order ↦ rw open_order (
              store-FillEffect priced s (latest_or_empty_portfolio rt repository now).1
                (latest_or_empty_portfolio rt repository now).0
                (fill_price rt s.order.side market_price slippage_bps) _ refl selected open_order
                (latest-keeps_orders repository now))
        ]

    -- A call raises, exactly when the price is at or below 0, and changes nothing; or it skips, with the
    -- orders as they were: when no order is wanted, when the selected one is not CREATED, or when the
    -- selected one, CREATED, needs no fill; or it fills the selected order, which was CREATED and
    -- stands as FILLED in its place afterwards, with the others as they were, and the result names the
    -- order and a fill of it that is not empty. Wanted are, for "latest", the CREATED orders, and else
    -- those with the given id; selected is the last wanted one for "latest", and else the first.
    pub fill_paper_order-Effect :
        FillEffect repository order_id market_price
          (fill_paper_order rt repository order_id now market_price fee_bps slippage_bps)
    unfolding fill_paper_order
    fill_paper_order-Effect = elim (Bool-cases (rt.le market_price (zero_point rt))) [
      | inl bad ↦ rw bad (bad, refl)
      | inr good ↦ rw good (
          selected-FillEffect good (select_order repository.paper_orders order_id)
            (select_order-Picks repository.paper_orders order_id))
    ]

    Effect-IsSingle :
        (out : Result (PaperFillResult F) × ArtifactRepository F)
        → FillEffect repository order_id market_price out
        → IsSingle repository.paper_orders
        → IsSingle out.1.paper_orders
    Effect-IsSingle (err why, after) (_, same) h = rw same h
    Effect-IsSingle (ok result, after) (_, inl (_, (_, (same, _)))) h = rw same h
    Effect-IsSingle (ok result, after) (_, inr (s, (fill, f))) h =
        rw f.orders_after
          (IsSingle-filled s.before s.later s.order (subst IsSingle f.selected.in_place h))

    -- If of the orders for each symbol at most one is active, that still holds after any call, raised,
    -- skipped or filled.
    pub fill_paper_order-keeps_IsSingle :
        IsSingle repository.paper_orders
        → IsSingle
            (fill_paper_order rt repository order_id now market_price fee_bps
              slippage_bps).1.paper_orders
    fill_paper_order-keeps_IsSingle h = Effect-IsSingle _ fill_paper_order-Effect h
