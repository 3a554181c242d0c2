-- ===== src/Orders/Single.antt =====
-- One active order for each symbol (orders.py, `_active_order_for_symbol`).
use paper_forecast_loop.Prelude.{
  String, ◌≡◌, refl, true, false, List, [], ◌∷◌, ◌++◌, arith, eq_iff, any, Bool-cases, inl, inr,
}
use paper_forecast_loop.Models.Trading.{PaperOrder}
use paper_forecast_loop.Storage.Unique.{append_unique, has_id}
use paper_forecast_loop.Orders.{is_active}

module _ {F : Type 0} where
  -- Of the orders for one symbol at most one is active.
  abbrev pub IsSingle : List (PaperOrder F) → Type 0
  IsSingle [] = Unit {0}
  IsSingle (o ∷ orders) =
      (is_active o.symbol o ≡ true → any (is_active o.symbol) orders ≡ false) × IsSingle orders

  any-append_one :
      (symbol : String) (orders : List (PaperOrder F)) (o : PaperOrder F)
      → any (is_active symbol) orders ≡ false
      → is_active symbol o ≡ false
      → any (is_active symbol) (orders ++ o ∷ []) ≡ false
  any-append_one symbol [] o h k = ground arith
  any-append_one symbol (x ∷ orders) o h k = ground (arith, any-append_one symbol orders o)

  not_active_together :
      (x o : PaperOrder F)
      → is_active x.symbol x ≡ true
      → is_active o.symbol x ≡ false
      → is_active x.symbol o ≡ false
  not_active_together x o a b =
      ground (arith, eq_iff x.symbol x.symbol, eq_iff x.symbol o.symbol, eq_iff o.symbol x.symbol)

  IsSingle-append_one :
      (orders : List (PaperOrder F)) (o : PaperOrder F)
      → IsSingle orders
      → any (is_active o.symbol) orders ≡ false
      → IsSingle (orders ++ o ∷ [])
  IsSingle-append_one [] o s h = (λ _. refl, tt)
  IsSingle-append_one (x ∷ orders) o s h = (
    λ a. any-append_one x.symbol orders o (s.0 a) (not_active_together x o a (ground arith)),
    IsSingle-append_one orders o s.1 (ground arith),
  )

  pub append_unique-IsSingle :
      (orders : List (PaperOrder F)) (o : PaperOrder F)
      → IsSingle orders
      → any (is_active o.symbol) orders ≡ false
      → IsSingle (append_unique (λ x. x.order_id) orders o)
  unfolding append_unique
  append_unique-IsSingle orders o s h =
      elim (Bool-cases (has_id (λ x. x.order_id) o.order_id orders)) [
        | inl old ↦ rw old s
        | inr new ↦ rw new (IsSingle-append_one orders o s h)
      ]
