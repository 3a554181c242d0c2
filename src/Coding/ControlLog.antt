-- ===== src/Coding/ControlLog.antt =====
-- The file of control events under `record_control_event`: what is loaded afterwards.
use paper_forecast_loop.Prelude.{
  ℕ, ◌≡◌, refl, arith, String, Bool, true, false, Option, none, some, List, ◌++◌, ◌==◌, ok, err,
  Result-cases, inl, inr,
}
use paper_forecast_loop.Prelude.Text.{strip, upper, prefixed_not_empty, concat}
use paper_forecast_loop.Runtime.{Runtime, IsIeee, zero_point, stable_artifact_id}
use paper_forecast_loop.Models.Trading.{PaperControlEvent}
use paper_forecast_loop.Models.Trading.Ids.{build_control_id}
use paper_forecast_loop.Storage.{ArtifactRepository}
use paper_forecast_loop.Storage.Unique.{has_id}
use paper_forecast_loop.Control.{
  PaperControlResult, control_event, control_parameter, checked_control_event, record_control_event,
}
use paper_forecast_loop.Control.Events.{checked_control_event-IsAdmissible}
use paper_forecast_loop.Coding.{Codec, IsCodec}
use paper_forecast_loop.Coding.File.{append_unique_line, load_lines}
use paper_forecast_loop.Coding.Trading.{control_event_to_dict, control_event_from_dict}
use paper_forecast_loop.Coding.Refinement.{append_unique_refines, unreadable_poisons}
use paper_forecast_loop.Coding.RoundTrip.{IsReadable, control_event_round_trip, optional_text_back}
use paper_forecast_loop.Coding.Stored.{
  control_coding, control_coding-IsCoding, checked_control_event-IsReadable,
}

module _ {F : Type 0} (rt : Runtime F) where
  abbrev pub nan_cap_event : ℕ → String → String → Option String → F → PaperControlEvent F
  nan_cap_event now reason actor symbol cap =
      control_event rt "SET_MAX_POSITION" now reason actor symbol true
        (some "max_position_pct", some cap)

  nan_cap_passes :
      IsIeee rt
      → (now : ℕ) (reason actor : String) (symbol : Option String) (cap : F)
      → (strip reason == "") ≡ false
      → rt.le cap cap ≡ false
      → checked_control_event rt "SET_MAX_POSITION" now reason actor symbol true (some cap)
        ≡ ok (nan_cap_event now reason actor symbol cap)
  unfolding checked_control_event control_parameter upper
  nan_cap_passes ieee now reason actor symbol cap reasoned is_nan =
      rw
        (
          checked_control_event,
          reasoned,
          control_parameter,
          ieee.lt_nan_left cap (zero_point rt) is_nan,
          ieee.lt_nan_right (rt.dec 1 0) cap is_nan,
        )
        refl

module _ {F Line : Type 0} (rt : Runtime F) (codec : Codec F Line) where
  -- `save_control_event` on the file, of the event that was recorded, if any
  abbrev pub stored_control_log : List Line → PaperControlResult F → List Line
  stored_control_log lines result = elim result.event [
    | none ↦ lines
    | some e ↦ append_unique_line codec lines (control_event_to_dict rt e) "control_id"
  ]

  -- If the file of control events loads as the events of the repository, it does so after any request
  -- with a finite cap or none as well: a rejected request leaves both as they were, and a recorded
  -- event is read back from the file as it was, in its place at the end.
  pub control_log_refines :
      IsCodec rt codec
      → (repository : ArtifactRepository F) (lines : List Line) (action : String) (now : ℕ)
        (reason actor : String) (symbol : Option String) (confirmed : Bool) (cap : Option F)
      → IsReadable codec cap
      → load_lines codec (control_event_from_dict codec) lines ≡ ok repository.control_events
      → let (result, after) =
          record_control_event rt repository action now reason actor symbol confirmed cap in
        load_lines codec (control_event_from_dict codec) (stored_control_log lines result)
        ≡ ok after.control_events
  unfolding record_control_event
  control_log_refines laws repository lines action now reason actor symbol confirmed cap readable
        e =
      elim (Result-cases (checked_control_event rt action now reason actor symbol confirmed cap)) [
        | inl (why, bad) ↦ rw (record_control_event, bad) e
        | inr (event, good) ↦
            let admissible =
              checked_control_event-IsAdmissible rt action now reason actor symbol confirmed cap
                event good in
            let (id, value) =
              checked_control_event-IsReadable rt codec action now reason actor symbol confirmed cap
                event readable good in
            rw (record_control_event, good)
              (append_unique_refines rt codec laws (control_coding rt codec)
                (control_coding-IsCoding rt codec) lines repository.control_events event e
                (control_event_round_trip rt codec laws event admissible.known id
                  admissible.reasoned value))
      ]

  unreadable_cap :
      IsCodec rt codec
      → (now : ℕ) (reason actor : String) (symbol : Option String) (cap : F)
      → (strip reason == "") ≡ false
      → codec.is_finite cap ≡ false
      → control_event_from_dict codec
          (control_event_to_dict rt (nan_cap_event rt now reason actor symbol cap))
        ≡ err "numeric field must be finite"
  unfolding control_event_from_dict control_event_to_dict control_event build_control_id
      stable_artifact_id concat upper
  unreadable_cap laws now reason actor symbol cap reasoned infinite =
      rw
        (
          control_event_from_dict,
          control_event_to_dict,
          control_event,
          prefixed_not_empty "control" _ (omega arith),
          laws.isoformat_not_empty now,
          laws.fromisoformat-isoformat now,
          reasoned,
          optional_text_back rt codec laws "symbol" symbol,
          laws.float_of-number cap,
          infinite,
        )
        refl

  -- A confirmed cap that is NaN is recorded, and if its id is new, every later load of the file of
  -- control events raises, whatever is appended behind it.
  pub nan_cap_poisons_control_log :
      IsIeee rt
      → IsCodec rt codec
      → (repository : ArtifactRepository F) (lines later : List Line) (now : ℕ)
        (reason actor : String) (symbol : Option String) (cap : F)
      → load_lines codec (control_event_from_dict codec) lines ≡ ok repository.control_events
      → (strip reason == "") ≡ false
      → rt.le cap cap ≡ false
      → codec.is_finite cap ≡ false
      → has_id
          (λ e. e.control_id)
          (nan_cap_event rt now reason actor symbol cap).control_id
          repository.control_events
        ≡ false
      → let result =
          (record_control_event rt repository "SET_MAX_POSITION" now reason actor symbol true
            (some cap)).0 in
        (result.event ≡ some (nan_cap_event rt now reason actor symbol cap))
        × (load_lines codec
              (control_event_from_dict codec)
              (stored_control_log lines result ++ later)
            ≡ err "numeric field must be finite")
  unfolding record_control_event
  nan_cap_poisons_control_log ieee laws repository lines later now reason actor symbol cap e
        reasoned is_nan infinite new =
      let checked = nan_cap_passes rt ieee now reason actor symbol cap reasoned is_nan in
      rw (record_control_event, checked)
        (
          refl,
          unreadable_poisons rt codec laws (control_coding rt codec)
              (control_coding-IsCoding rt codec) lines later repository.control_events
              (nan_cap_event rt now reason actor symbol cap) "numeric field must be finite" e new
              (unreadable_cap laws now reason actor symbol cap reasoned infinite),
        )
