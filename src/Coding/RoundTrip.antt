-- ===== src/Coding/RoundTrip.antt =====
-- Reading back what was written: `from_dict` after `to_dict` of control events, paper orders and
-- broker orders.
use paper_forecast_loop.Prelude.{
  ◌≡◌, refl, sym, arith, String, true, false, Option, none, some, List, [], ◌∷◌, ◌==◌, eq_iff, ok,
  All, Bool-cases, inl, inr, subst,
}
use paper_forecast_loop.Prelude.Text.{upper, contains}
use paper_forecast_loop.Runtime.{Runtime, text_or_null, number_or_null, dict_of-entries_of}
use paper_forecast_loop.Models.Trading.{PaperControlEvent, PaperOrder, BrokerOrder}
use paper_forecast_loop.Models.Trading.Enums.{broker_order_statuses}
use paper_forecast_loop.Control.{control_actions}
use paper_forecast_loop.Coding.{
  Codec, IsCodec, optional_text_value, optional_number_value, float_value,
}
use paper_forecast_loop.Coding.Trading.{
  control_event_to_dict, control_event_from_dict, paper_order_to_dict, paper_order_from_dict,
  broker_order_to_dict, broker_order_from_dict,
}

-- A known action is spelled in capitals.
upper_known : (action : String) → contains control_actions action ≡ true → upper action ≡ action
unfolding upper
upper_known action known =
    from_list control_actions (refl, (refl, (refl, (refl, (refl, (refl, tt)))))) known
  where
    from_list :
        (actions : List String)
        → All (λ a. upper a ≡ a) actions
        → contains actions action ≡ true
        → upper action ≡ action
    from_list [] all k = ground arith
    from_list (a ∷ actions) all k = elim (Bool-cases (action == a)) [
      | inl same ↦
          let e : action ≡ a = (eq_iff action a).0 same in subst (λ t. upper t ≡ t) (sym e) all.0
      | inr other ↦ from_list actions all.1 (rw other at k)
    ]

member_not_empty :
    (xs : List String) (s : String)
    → All (λ x. (x == "") ≡ false) xs
    → contains xs s ≡ true
    → (s == "") ≡ false
member_not_empty [] s all k = ground arith
member_not_empty (x ∷ xs) s all k = elim (Bool-cases (s == x)) [
  | inl same ↦ subst (λ t. (t == "") ≡ false) (sym ((eq_iff s x).0 same)) all.0
  | inr other ↦ member_not_empty xs s all.1 (rw other at k)
]

known_not_empty :
    (action : String) → contains control_actions action ≡ true → (action == "") ≡ false
known_not_empty action =
    member_not_empty control_actions action (refl, (refl, (refl, (refl, (refl, (refl, tt))))))

status_not_empty :
    (status : String) → contains broker_order_statuses status ≡ true → (status == "") ≡ false
status_not_empty status =
    member_not_empty broker_order_statuses status
      (refl, (refl, (refl, (refl, (refl, (refl, (refl, (refl, (refl, tt)))))))))

module _ {F Line : Type 0} (codec : Codec F Line) where
  -- A cap or quantity that `_optional_float` reads: none, or a finite number.
  abbrev pub IsReadable : Option F → Type 0
  IsReadable none = Unit {0}
  IsReadable (some x) = codec.is_finite x ≡ true

module _ {F Line : Type 0} (rt : Runtime F) (codec : Codec F Line) (laws : IsCodec rt codec) where
  pub optional_text_back :
      (key : String) (o : Option String)
      → optional_text_value {F = F} key (some (text_or_null o)) ≡ ok o
  optional_text_back key none = refl
  optional_text_back key (some s) = refl

  optional_number_back :
      (key : String) (o : Option F) → optional_number_value key (some (number_or_null o)) ≡ ok o
  optional_number_back key none = refl
  optional_number_back key (some x) = refl

  optional_float_back :
      (o : Option F) → IsReadable codec o → float_value codec (some (number_or_null o)) ≡ ok o
  optional_float_back none h = refl
  optional_float_back (some x) h = rw (laws.float_of-number x, h) refl

  -- A control event is read back from its dictionary as it was, if its action is known, its id and
  -- reason are not empty, and its parameter is none or finite.
  pub control_event_round_trip :
      (e : PaperControlEvent F)
      → contains control_actions e.action ≡ true
      → (e.control_id == "") ≡ false
      → (e.reason == "") ≡ false
      → IsReadable codec e.parameter_value
      → control_event_from_dict codec (control_event_to_dict rt e) ≡ ok e
  unfolding control_event_from_dict control_event_to_dict
  control_event_round_trip e known id reason value =
      rw
        (
          control_event_from_dict,
          control_event_to_dict,
          known_not_empty e.action known,
          upper_known e.action known,
          known,
          id,
          laws.isoformat_not_empty e.created_at,
          laws.fromisoformat-isoformat e.created_at,
          reason,
          optional_text_back "symbol" e.symbol,
          optional_text_back "parameter_name" e.parameter_name,
          optional_float_back e.parameter_value value,
        )
        refl

  -- A broker order is read back from its dictionary as it was, if its status is known, its required
  -- texts are not empty, and its quantity and target are none or finite.
  pub broker_order_round_trip :
      (o : BrokerOrder F)
      → contains broker_order_statuses o.status ≡ true
      → All
          (λ s. (s == "") ≡ false)
          (o.broker_order_id ∷ o.local_order_id ∷ o.decision_id ∷ o.symbol ∷ o.side ∷ [])
      → IsReadable codec o.quantity
      → IsReadable codec o.target_position_pct
      → broker_order_from_dict codec (broker_order_to_dict rt o) ≡ ok o
  unfolding broker_order_from_dict broker_order_to_dict
  broker_order_round_trip o known (id, (local, (decision, (symbol, (side, _))))) quantity target =
      rw
        (
          broker_order_from_dict,
          broker_order_to_dict,
          status_not_empty o.status known,
          known,
          id,
          laws.isoformat_not_empty o.created_at,
          laws.fromisoformat-isoformat o.created_at,
          laws.isoformat_not_empty o.updated_at,
          laws.fromisoformat-isoformat o.updated_at,
          local,
          decision,
          symbol,
          side,
          optional_float_back o.quantity quantity,
          optional_float_back o.target_position_pct target,
          optional_text_back "broker_status" o.broker_status,
          optional_text_back "broker_order_ref" o.broker_order_ref,
          optional_text_back "client_order_id" o.client_order_id,
          optional_text_back "error_message" o.error_message,
          dict_of-entries_of o.raw_response,
        )
        refl

  -- A paper order is read back from its dictionary as it was.
  pub paper_order_round_trip :
      (o : PaperOrder F) → paper_order_from_dict rt codec (paper_order_to_dict rt o) ≡ ok o
  unfolding paper_order_from_dict paper_order_to_dict
  paper_order_round_trip o =
      rw
        (
          paper_order_from_dict,
          paper_order_to_dict,
          laws.fromisoformat-isoformat o.created_at,
          optional_number_back "target_position_pct" o.target_position_pct,
          optional_number_back "current_position_pct" o.current_position_pct,
        )
        refl
