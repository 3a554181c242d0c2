-- ===== src/BrokerLifecycle/Submission.antt =====
-- What reaches the store of broker orders (broker_lifecycle.py).
use paper_forecast_loop.Prelude.{
  ℕ, String, ◌≡◌, refl, ◌⊎◌, inl, inr, true, false, Option, none, some, List, [], ◌∷◌, ◌++◌, ◌==◌,
  arith, eq_iff, any, find?-none, Bool-cases, Option-cases, Result, ok, err, Result-cases, All,
  guard_ok, subst,
}
use paper_forecast_loop.Prelude.Text.{contains, upper, dashes_to_underscores}
use paper_forecast_loop.Runtime.{Runtime}
use paper_forecast_loop.Models.Trading.{PaperOrder, BrokerOrder}
use paper_forecast_loop.Models.Trading.Enums.{broker_order_statuses}
use paper_forecast_loop.Storage.{ArtifactRepository, save_broker_order}
use paper_forecast_loop.Storage.Unique.{append_unique, has_id, All-append_unique}
use paper_forecast_loop.BrokerLifecycle.{
  BrokerOrderResult, allowed_modes, or_option, or_default, mock_response, submission,
  normalize_broker_mode, normalize_status, select_local_order, is_submission, existing_broker_order,
  build_broker_order, submit_broker_order, lifecycle_of_local, create_broker_order_lifecycle,
}

normalize_broker_mode-allowed :
    (mode normalized : String)
    → normalize_broker_mode mode ≡ ok normalized
    → contains allowed_modes normalized ≡ true
unfolding normalize_broker_mode
normalize_broker_mode-allowed mode normalized h =
    let (known, same) =
      guard_ok (contains allowed_modes (dashes_to_underscores (upper mode))) _ _ _ h in
    subst (λ m. contains allowed_modes m ≡ true) same known

normalize_status-known :
    (status : Option String) (normalized : String)
    → normalize_status status ≡ ok normalized
    → contains broker_order_statuses normalized ≡ true
unfolding normalize_status
normalize_status-known status normalized h =
    let (known, same) =
      guard_ok (contains broker_order_statuses (upper (or_default status "CREATED"))) _ _ _ h in
    subst (λ m. contains broker_order_statuses m ≡ true) same known

module _ {F : Type 0} where
  -- A stored broker order is in a mode that does not trade live, and in a known status.
  pub record IsPaperOnly (o : BrokerOrder F) : Type 0 where
    pub mode_allowed : contains allowed_modes o.broker_mode ≡ true
    pub status_known : contains broker_order_statuses o.status ≡ true

  -- No local order stands twice at one broker in one mode.
  abbrev pub IsSubmittedOnce : List (BrokerOrder F) → Type 0
  IsSubmittedOnce [] = Unit {0}
  IsSubmittedOnce (o ∷ orders) =
      (any (is_submission o.local_order_id o.broker o.broker_mode) orders ≡ false)
      × IsSubmittedOnce orders

  -- What the store of broker orders satisfies between calls.
  abbrev pub IsSound : List (BrokerOrder F) → Type 0
  IsSound orders = IsSubmittedOnce orders × All IsPaperOnly orders

  not_submitted_by :
      (x o : BrokerOrder F)
      → is_submission o.local_order_id o.broker o.broker_mode x ≡ false
      → is_submission x.local_order_id x.broker x.broker_mode o ≡ false
  not_submitted_by x o h = ground (
    arith,
    eq_iff x.local_order_id o.local_order_id,
    eq_iff o.local_order_id x.local_order_id,
    eq_iff x.broker o.broker,
    eq_iff o.broker x.broker,
    eq_iff x.broker_mode o.broker_mode,
    eq_iff o.broker_mode x.broker_mode,
  )

  any_submission-append_one :
      (l b m : String) (orders : List (BrokerOrder F)) (o : BrokerOrder F)
      → any (is_submission l b m) orders ≡ false
      → is_submission l b m o ≡ false
      → any (is_submission l b m) (orders ++ o ∷ []) ≡ false
  any_submission-append_one l b m [] o h k = ground arith
  any_submission-append_one l b m (x ∷ orders) o h k =
      ground (arith, any_submission-append_one l b m orders o)

  IsSubmittedOnce-append_one :
      (orders : List (BrokerOrder F)) (o : BrokerOrder F)
      → IsSubmittedOnce orders
      → any (is_submission o.local_order_id o.broker o.broker_mode) orders ≡ false
      → IsSubmittedOnce (orders ++ o ∷ [])
  IsSubmittedOnce-append_one [] o s h = (refl, tt)
  IsSubmittedOnce-append_one (x ∷ orders) o s h = (
    any_submission-append_one x.local_order_id x.broker x.broker_mode orders o s.0
        (not_submitted_by x o (ground arith)),
    IsSubmittedOnce-append_one orders o s.1 (ground arith),
  )

  append_unique-IsSubmittedOnce :
      (orders : List (BrokerOrder F)) (o : BrokerOrder F)
      → IsSubmittedOnce orders
      → any (is_submission o.local_order_id o.broker o.broker_mode) orders ≡ false
      → IsSubmittedOnce (append_unique (λ x. x.broker_order_id) orders o)
  unfolding append_unique
  append_unique-IsSubmittedOnce orders o s h =
      elim (Bool-cases (has_id (λ x. x.broker_order_id) o.broker_order_id orders)) [
        | inl old ↦ rw old s
        | inr new ↦ rw new (IsSubmittedOnce-append_one orders o s h)
      ]

module _ {F : Type 0} (rt : Runtime F) (repository : ArtifactRepository F) (order_id : String)
    (now : ℕ) (broker broker_mode : String) (submit_status reference : Option String) where
  -- How a call that stores a broker order has come to it.
  pub record IsStored (o : BrokerOrder F) : Type 0 where
    pub local : PaperOrder F
    pub selected : select_local_order repository.paper_orders order_id ≡ some local
    pub open_local : (local.status == "CREATED") ≡ true
    pub links : o.local_order_id ≡ local.order_id
    pub new_submission :
        any (is_submission o.local_order_id o.broker o.broker_mode) repository.broker_orders ≡ false
    pub paper_only : IsPaperOnly o

  -- A call raises or skips and changes nothing, or it reports one stored broker order.
  abbrev pub Effect : Result (BrokerOrderResult F) × ArtifactRepository F → Type 0
  Effect (err why, after) = after ≡ repository
  Effect (ok result, after) =
      ((result.status ≡ "skipped") × (after ≡ repository))
      ⊎ ((o : BrokerOrder F) × (result.status ≡ "created")
          × (result.broker_order ≡ some o)
          × IsStored o
          × (after ≡ save_broker_order o repository))

  submit-Effect :
      (local : PaperOrder F) (mode : String)
      → select_local_order repository.paper_orders order_id ≡ some local
      → (local.status == "CREATED") ≡ true
      → contains allowed_modes mode ≡ true
      → existing_broker_order repository.broker_orders local.order_id broker mode ≡ none
      → Effect (submit_broker_order rt repository local now broker mode submit_status reference)
  unfolding submit_broker_order build_broker_order
  submit-Effect local mode selected open_local allowed lone =
      by_status (normalize_status submit_status) refl
    where
      by_status :
          (r : Result String)
          → normalize_status submit_status ≡ r
          → Effect (submission rt repository local now broker mode reference r)
      by_status (err why) e = refl
      by_status (ok status) e = inr (
        build_broker_order rt local now broker mode status (mock_response status reference)
            (or_option reference reference),
        refl,
        refl,
        record {
          local = local;
          selected = selected;
          open_local = open_local;
          links = refl;
          new_submission =
              find?-none (is_submission local.order_id broker mode) repository.broker_orders lone;
          paper_only = record {
            mode_allowed = allowed;
            status_known = normalize_status-known submit_status status e;
          };
        },
        refl,
      )

  local-Effect :
      (local : PaperOrder F) (mode : String)
      → select_local_order repository.paper_orders order_id ≡ some local
      → contains allowed_modes mode ≡ true
      → Effect (lifecycle_of_local rt repository local now broker mode submit_status reference)
  unfolding lifecycle_of_local
  local-Effect local mode selected allowed = elim (Bool-cases (local.status == "CREATED")) [
    | inr closed ↦ rw closed (inl (refl, refl))
    | inl open_local ↦
        elim (Option-cases
          (existing_broker_order repository.broker_orders local.order_id broker mode)) [
            | inl lone ↦
                rw (open_local, lone) (submit-Effect local mode selected open_local allowed lone)
            | inr (x, twice) ↦ rw (open_local, twice) (inl (refl, refl))
          ]
  ]

  -- A call raises or skips and changes nothing; or it stores and reports one broker order for the
  -- selected open local order, in a paper mode and a known status, and no broker order stood for
  -- that local order at that broker in that mode.
  pub create_broker_order_lifecycle-Effect : Effect (
      create_broker_order_lifecycle rt repository order_id now broker broker_mode submit_status
        reference)
  unfolding create_broker_order_lifecycle
  create_broker_order_lifecycle-Effect = elim (Result-cases (normalize_broker_mode broker_mode)) [
    | inl (why, bad) ↦ rw (bad, create_broker_order_lifecycle) refl
    | inr (mode, good) ↦ elim (Option-cases (select_local_order repository.paper_orders order_id)) [
      | inl missing ↦ rw (good, missing, create_broker_order_lifecycle) (inl (refl, refl))
      | inr (local, selected) ↦
          rw (good, selected, create_broker_order_lifecycle)
            (local-Effect local mode selected (normalize_broker_mode-allowed broker_mode mode good))
    ]
  ]

  Effect-IsSound :
      (out : Result (BrokerOrderResult F) × ArtifactRepository F)
      → Effect out
      → IsSound repository.broker_orders
      → IsSound out.1.broker_orders
  Effect-IsSound (err why, after) same h = rw same h
  Effect-IsSound (ok result, after) (inl (_, same)) h = rw same h
  Effect-IsSound (ok result, after) (inr (o, _, _, stored, saved)) (once, paper) = rw saved (
    append_unique-IsSubmittedOnce repository.broker_orders o once stored.new_submission,
    All-append_unique (λ x. x.broker_order_id) IsPaperOnly repository.broker_orders o paper
        stored.paper_only,
  )

  -- If no local order stands twice at one broker in one mode, and every stored broker order is in a
  -- paper mode and a known status, then both still hold after any call, raised or not.
  pub create_broker_order_lifecycle-IsSound :
      IsSound repository.broker_orders
      → IsSound
          (create_broker_order_lifecycle rt repository order_id now broker broker_mode submit_status
            reference).1.broker_orders
  create_broker_order_lifecycle-IsSound h =
      Effect-IsSound
        (create_broker_order_lifecycle rt repository order_id now broker broker_mode submit_status
          reference)
        create_broker_order_lifecycle-Effect h
