-- ===== src/Control/Events.antt =====
-- What is stored by `record_control_event` (control.py).
use paper_forecast_loop.Prelude.{
  ℕ, String, ◌≡◌, refl, ◌⊎◌, inl, inr, Bool, true, false, not, ◌&&◌, Option, none, some, ◌==◌,
  arith, Result, ok, err, Result-cases, ok_injective, subst, All, Bool-cases, if◌then◌else◌,
}
use paper_forecast_loop.Prelude.Text.{upper, strip, contains}
use paper_forecast_loop.Runtime.{Runtime, zero_point}
use paper_forecast_loop.Models.Trading.{PaperControlEvent}
use paper_forecast_loop.Storage.{ArtifactRepository, save_control_event}
use paper_forecast_loop.Storage.Unique.{All-append_unique}
use paper_forecast_loop.Control.{
  control_actions, confirmation_required_actions, control_parameter, control_event,
  checked_control_event, record_control_event,
}

module _ {F : Type 0} (rt : Runtime F) where
  -- The parameter of an event fits its action: a cap that is neither below 0 nor above 1.
  abbrev pub Parametrised : String → Option F → Type 0
  Parametrised action value =
      if action == "SET_MAX_POSITION"
      then ((m : F) × (value ≡ some m)
          × (rt.lt m (zero_point rt) ≡ false)
          × (rt.lt (rt.dec 1 0) m ≡ false))
      else value ≡ none

  pub record IsAdmissible (e : PaperControlEvent F) : Type 0 where
    pub known : contains control_actions e.action ≡ true
    pub reasoned : (e.reason == "") ≡ false
    pub confirmed_where_required :
        contains confirmation_required_actions e.action ≡ true → e.confirmed ≡ true
    pub flagged : e.requires_confirmation ≡ contains confirmation_required_actions e.action
    pub parametrised : Parametrised e.action e.parameter_value

  control_parameter-Parametrised :
      (action : String) (cap : Option F) (p : Option String × Option F)
      → control_parameter rt action cap ≡ ok p
      → Parametrised action p.1
  unfolding control_parameter
  control_parameter-Parametrised action none p h = ground arith
  control_parameter-Parametrised action (some m) p h =
      elim (Bool-cases (action == "SET_MAX_POSITION")) [
        | inl sets ↦ rw sets (m, ground arith, ground arith, ground arith)
        | inr other ↦ rw other (ground arith)
      ]

  control_event-IsAdmissible :
      (action : String) (now : ℕ) (reason actor : String) (symbol : Option String)
      (confirmed : Bool) (p : Option String × Option F)
      → contains control_actions action ≡ true
      → (strip reason == "") ≡ false
      → (contains confirmation_required_actions action && not confirmed) ≡ false
      → Parametrised action p.1
      → IsAdmissible (control_event rt action now reason actor symbol confirmed p)
  unfolding control_event
  control_event-IsAdmissible action now reason actor symbol confirmed (name, value) k r c p =
      record {
        known = k;
        reasoned = r;
        confirmed_where_required =
            confirmed_if (contains confirmation_required_actions action) confirmed c;
        flagged = refl;
        parametrised = p;
      }
    where
      confirmed_if : (b c : Bool) → (b && not c) ≡ false → b ≡ true → c ≡ true
      confirmed_if b c g h = ground arith

  module _ (action : String) (now : ℕ) (reason actor : String) (symbol : Option String)
      (confirmed : Bool) (cap : Option F) where
    -- What passes the checks is admissible.
    pub checked_control_event-IsAdmissible :
        (e : PaperControlEvent F)
        → checked_control_event rt action now reason actor symbol confirmed cap ≡ ok e
        → IsAdmissible e
    unfolding checked_control_event
    checked_control_event-IsAdmissible e h =
        by_checks (contains control_actions (upper action)) (strip reason == "")
          (control_parameter rt (upper action) cap)
          (contains confirmation_required_actions (upper action) && not confirmed) refl refl refl
          refl h
      where
        made : Option String × Option F → PaperControlEvent F
        made = control_event rt (upper action) now reason actor symbol confirmed

        by_checks :
            (known empty : Bool) (r : Result (Option String × Option F)) (unconfirmed : Bool)
            → contains control_actions (upper action) ≡ known
            → (strip reason == "") ≡ empty
            → control_parameter rt (upper action) cap ≡ r
            → (contains confirmation_required_actions (upper action) && not confirmed) ≡ unconfirmed
            → (if not known
                then err "unsupported_control_action"
                else if empty
                then err "reason_required"
                else elim r [
                  | err why ↦ err why
                  | ok p ↦ if unconfirmed then err "confirmation_required" else ok (made p)
                ])
              ≡ ok e
            → IsAdmissible e
        by_checks false empty r u k _ _ _ h = cc
        by_checks true true r u _ _ _ _ h = cc
        by_checks true false (err why) u _ _ _ _ h = cc
        by_checks true false (ok p) true _ _ _ _ h = cc
        by_checks true false (ok p) false k r g c h = subst IsAdmissible (ok_injective h) (
            control_event-IsAdmissible (upper action) now reason actor symbol confirmed p k r c
              (control_parameter-Parametrised (upper action) cap p g))

    -- A request is rejected and changes nothing, or it stores one admissible event and reports it.
    pub record_control_event-Effect :
        (repository : ArtifactRepository F)
        → let (result, after) =
            record_control_event rt repository action now reason actor symbol confirmed cap in
          ((result.status ≡ "rejected") × (result.event ≡ none) × (after ≡ repository))
          ⊎ ((e : PaperControlEvent F) × (result.status ≡ "recorded")
              × (result.event ≡ some e)
              × IsAdmissible e
              × (after ≡ save_control_event e repository))
    unfolding record_control_event
    record_control_event-Effect repository =
        elim (Result-cases
          (checked_control_event rt action now reason actor symbol confirmed cap)) [
            | inl (why, bad) ↦ inl (rw (bad, record_control_event) (refl, refl, refl))
            | inr (e, good) ↦ inr (
              e,
              rw (good, record_control_event) refl,
              rw (good, record_control_event) refl,
              checked_control_event-IsAdmissible e good,
              rw (good, record_control_event) refl,
            )
          ]

    -- If every stored control event is admissible (a known action, a reason, a confirmation where one
    -- is required, a cap that is neither below 0 nor above 1), then so is every event after any
    -- request.
    pub record_control_event-keeps_IsAdmissible :
        (repository : ArtifactRepository F)
        → All IsAdmissible repository.control_events
        → All IsAdmissible
            (record_control_event rt repository action now reason actor symbol confirmed
              cap).1.control_events
    record_control_event-keeps_IsAdmissible repository h =
        elim (record_control_event-Effect repository) [
          | inl (_, _, same) ↦ rw same h
          | inr (e, _, _, good, saved) ↦ rw saved (
              All-append_unique (λ x. x.control_id) IsAdmissible repository.control_events e h good)
        ]
