-- ===== src/Coding/Stored.antt =====
-- The control log as a file: its events are stored and read back, and what an event that cannot be
-- read back does to it.
use paper_forecast_loop.Prelude.{
  ℕ, ◌≡◌, refl, ap, sym, ◌∙◌, arith, String, Bool, false, Option, none, some, [], ◌∷◌, ◌==◌, ok,
  ◌&&◌, ◌||◌, not, subst, Bool-cases, Result-cases, inl, inr, ok_injective, ok≢err, bind_ok,
  unraised,
}
use paper_forecast_loop.Prelude.Text.{prefixed_not_empty, strip, upper, contains, concat}
use paper_forecast_loop.Runtime.{
  Runtime, zero_point, stable_artifact_id, Json, null, flag, integer, number, text, array, object,
  Dict,
}
use paper_forecast_loop.Models.Trading.{PaperControlEvent}
use paper_forecast_loop.Models.Trading.Ids.{build_control_id}
use paper_forecast_loop.Control.{
  control_actions, confirmation_required_actions, control_event, control_parameter,
  checked_control_event,
}
use paper_forecast_loop.Coding.{
  Codec, lookup, required_text, text_or, optional_text, truth, raise_unless, require_string,
  require_aware_datetime, optional_float,
}
use paper_forecast_loop.Coding.Trading.{control_event_to_dict, control_event_from_dict}
use paper_forecast_loop.Coding.Refinement.{Coding, IsCoding}
use paper_forecast_loop.Coding.RoundTrip.{IsReadable}

module _ {F : Type 0} where
  required_text_read :
      (key : String) (value : Option (Json F)) (s : String)
      → required_text key value ≡ ok s
      → value ≡ some (text s)
  required_text_read key none s e = absurd (ok≢err (sym e))
  required_text_read key (some (text t)) s e =
      ap (λ u. some (text u)) (ok_injective (unraised (t == "") _ (ok t) s e).1)
  required_text_read key (some null) s e = absurd (ok≢err (sym e))
  required_text_read key (some (flag _)) s e = absurd (ok≢err (sym e))
  required_text_read key (some (integer _)) s e = absurd (ok≢err (sym e))
  required_text_read key (some (number _)) s e = absurd (ok≢err (sym e))
  required_text_read key (some (array _)) s e = absurd (ok≢err (sym e))
  required_text_read key (some (object _)) s e = absurd (ok≢err (sym e))

module _ {F Line : Type 0} (rt : Runtime F) (codec : Codec F Line) where
  abbrev pub control_coding : Coding F (PaperControlEvent F)
  control_coding = record {
    to_dict = control_event_to_dict rt;
    from_dict = control_event_from_dict codec;
    id = λ e. e.control_id;
    identity_key = "control_id";
  }

  control_id_read :
      (payload : Dict F) (e : PaperControlEvent F)
      → control_event_from_dict codec payload ≡ ok e
      → lookup "control_id" payload ≡ some (text e.control_id)
  unfolding control_event_from_dict require_string
  control_id_read payload e h =
      let (action, (_, h1)) = bind_ok (require_string payload "action") _ e h in
      let (_, (_, h2)) =
        bind_ok
          (raise_unless (contains control_actions (upper action))
            (concat ("unsupported paper control action: " ∷ upper action ∷ [])))
          _ e h1 in
      let (id, (read, h3)) = bind_ok (require_string payload "control_id") _ e h2 in
      let (_, (_, h4)) = bind_ok (require_aware_datetime codec payload "created_at") _ e h3 in
      let (_, (_, h5)) = bind_ok (text_or payload "actor" "operator") _ e h4 in
      let (_, (_, h6)) = bind_ok (require_string payload "reason") _ e h5 in
      let (_, (_, h7)) = bind_ok (text_or payload "status" "ACTIVE") _ e h6 in
      let (_, (_, h8)) = bind_ok (optional_text payload "symbol") _ e h7 in
      let (_, (_, h9)) = bind_ok (truth payload "requires_confirmation") _ e h8 in
      let (_, (_, h10)) = bind_ok (truth payload "confirmed") _ e h9 in
      let (_, (_, h11)) = bind_ok (optional_text payload "parameter_name") _ e h10 in
      let (_, (_, h12)) = bind_ok (optional_float codec payload "parameter_value") _ e h11 in
      let (_, (_, h13)) =
        bind_ok (text_or payload "decision_basis" "legacy_paper_control") _ e h12 in
      required_text_read "control_id" (lookup "control_id" payload) e.control_id
        (read ∙ ap (λ (x : PaperControlEvent F). ok x.control_id) (ok_injective h13))

  pub control_coding-IsCoding : IsCoding control_coding
  unfolding control_event_to_dict
  control_coding-IsCoding = record { id_read = control_id_read; id_written = λ e. refl }

module _ {F Line : Type 0} (rt : Runtime F) (codec : Codec F Line) where
  control_parameter-IsReadable :
      (action : String) (cap : Option F) (p : Option String × Option F)
      → IsReadable codec cap
      → control_parameter rt action cap ≡ ok p
      → IsReadable codec p.1
  unfolding control_parameter
  control_parameter-IsReadable action none p h e =
      subst (λ (q : Option String × Option F). IsReadable codec q.1)
        (ok_injective (unraised (action == "SET_MAX_POSITION") _ (ok (none, none)) p e).1) tt
  control_parameter-IsReadable action (some m) p h e =
      elim (Bool-cases (action == "SET_MAX_POSITION")) [
        | inl sets ↦
            subst (λ (q : Option String × Option F). IsReadable codec q.1)
              (ok_injective
                (unraised (rt.lt m (zero_point rt) || rt.lt (rt.dec 1 0) m) _
                  (ok (some "max_position_pct", some m)) p (rw (control_parameter, sets) at e)).1)
              h
        | inr other ↦
            subst (λ (q : Option String × Option F). IsReadable codec q.1)
              (ok_injective (rw (control_parameter, other) at e)) tt
      ]

  module _ (action : String) (now : ℕ) (reason actor : String) (symbol : Option String)
      (confirmed : Bool) (cap : Option F) where
    pub checked_control_event-IsReadable :
        (e : PaperControlEvent F)
        → IsReadable codec cap
        → checked_control_event rt action now reason actor symbol confirmed cap ≡ ok e
        → ((e.control_id == "") ≡ false) × IsReadable codec e.parameter_value
    unfolding checked_control_event control_event build_control_id stable_artifact_id concat
    checked_control_event-IsReadable e readable h =
        let (_, h1) = unraised (not (contains control_actions (upper action))) _ _ e h in
        let (_, h2) = unraised (strip reason == "") _ _ e h1 in
        elim (Result-cases (control_parameter rt (upper action) cap)) [
          | inl (why, refused) ↦ absurd (ok≢err (sym (rw refused at h2)))
          | inr (p, accepted) ↦
              let (_, made) =
                unraised (contains confirmation_required_actions (upper action) && not confirmed) _
                  _ e (rw accepted at h2) in
              subst
                (λ (x : PaperControlEvent F).
                  ((x.control_id == "") ≡ false) × IsReadable codec x.parameter_value)
                (ok_injective made)
                (
                  prefixed_not_empty "control" _ (omega arith),
                  control_parameter-IsReadable (upper action) cap p readable accepted,
                )
        ]
