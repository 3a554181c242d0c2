-- ===== src/Control/State.antt =====
-- What every control state that is computed from a log of events satisfies (control.py).
use paper_forecast_loop.Prelude.{
  ◌≤◌, String, ◌≡◌, refl, true, false, Option, List, [], ◌∷◌, ◌++◌, All, sorted_by,
  sorted_by-append, arith, ap, ◌∙◌, Bool-cases, inl, inr,
}
use paper_forecast_loop.Models.Trading.{PaperControlEvent}
use paper_forecast_loop.Control.{
  PaperControlState, initial_state, in_scope, apply_event, apply_events, control_step,
  current_control_state,
}

-- An emergency stop is a pause and a reduction of risk, and a reduction of risk stops new entries.
pub record IsConsistent {F : Type 0} (s : PaperControlState F) : Type 0 where
  pub emergency_pauses : s.emergency_stop ≡ true → s.paused ≡ true
  pub emergency_reduces : s.emergency_stop ≡ true → s.reduce_risk ≡ true
  pub reduction_stops : s.reduce_risk ≡ true → s.stop_new_entries ≡ true

module _ {F : Type 0} where
  apply_event-IsConsistent :
      (s : PaperControlState F) (e : PaperControlEvent F)
      → IsConsistent s
      → IsConsistent (apply_event s e)
  unfolding apply_event
  apply_event-IsConsistent s e h = ground arith

  pub control_step-IsConsistent :
      (symbol : Option String) (s : PaperControlState F) (e : PaperControlEvent F)
      → IsConsistent s
      → IsConsistent (control_step symbol s e)
  unfolding control_step
  control_step-IsConsistent symbol s e h = elim (Bool-cases (in_scope e.symbol symbol)) [
    | inl scoped ↦ rw scoped (apply_event-IsConsistent s e h)
    | inr other ↦ rw other h
  ]

  apply_events-IsConsistent :
      (symbol : Option String) (s : PaperControlState F) (events : List (PaperControlEvent F))
      → IsConsistent s
      → IsConsistent (apply_events symbol s events)
  unfolding apply_events
  apply_events-IsConsistent symbol s [] h = h
  apply_events-IsConsistent symbol s (e ∷ events) h =
      apply_events-IsConsistent symbol (control_step symbol s e) events
        (control_step-IsConsistent symbol s e h)

  -- Every state computed from a log, whatever the log holds, is consistent: an emergency stop is
  -- also a pause and a reduction of risk, and a reduction of risk also stops new entries.
  pub current_control_state-IsConsistent :
      (events : List (PaperControlEvent F)) (symbol : Option String)
      → IsConsistent (current_control_state events symbol)
  unfolding current_control_state
  current_control_state-IsConsistent events symbol =
      apply_events-IsConsistent symbol initial_state (sorted_by (λ e. e.created_at) events)
        (ground arith)

  apply_events-append :
      (symbol : Option String) (s : PaperControlState F) (events : List (PaperControlEvent F))
      (e : PaperControlEvent F)
      → apply_events symbol s (events ++ e ∷ [])
        ≡ control_step symbol (apply_events symbol s events) e
  unfolding apply_events
  apply_events-append symbol s [] e = refl
  apply_events-append symbol s (x ∷ events) e =
      apply_events-append symbol (control_step symbol s x) events e

  -- An event that is appended at or after the time of every stored one acts last: the state after it
  -- is the state before it, changed by that event alone.
  pub current_control_state-append :
      (events : List (PaperControlEvent F)) (e : PaperControlEvent F) (symbol : Option String)
      → All (λ x. x.created_at ≤ e.created_at) events
      → current_control_state (events ++ e ∷ []) symbol
        ≡ control_step symbol (current_control_state events symbol) e
  unfolding current_control_state
  current_control_state-append events e symbol h =
      ap (apply_events symbol initial_state) (sorted_by-append (λ x. x.created_at) events e h)
      ∙ apply_events-append symbol initial_state (sorted_by (λ x. x.created_at) events) e

  -- After a RESUME that acts last for the symbol, nothing is paused, stopped or reduced, and the cap
  -- on the position is the one that stood before.
  pub resume_clears :
      (events : List (PaperControlEvent F)) (e : PaperControlEvent F) (symbol : Option String)
      → All (λ x. x.created_at ≤ e.created_at) events
      → in_scope e.symbol symbol ≡ true
      → e.action ≡ "RESUME"
      → let s = current_control_state (events ++ e ∷ []) symbol in
        (s.emergency_stop ≡ false)
        × (s.paused ≡ false)
        × (s.reduce_risk ≡ false)
        × (s.stop_new_entries ≡ false)
        × (s.max_position_pct ≡ (current_control_state events symbol).max_position_pct)
  unfolding control_step apply_event
  resume_clears events e symbol h scoped resumes =
      rw (current_control_state-append events e symbol h, scoped, resumes)
        (refl, refl, refl, refl, refl)

  -- After an EMERGENCY_STOP that acts last for the symbol, the emergency stop is on.
  pub emergency_stops :
      (events : List (PaperControlEvent F)) (e : PaperControlEvent F) (symbol : Option String)
      → All (λ x. x.created_at ≤ e.created_at) events
      → in_scope e.symbol symbol ≡ true
      → e.action ≡ "EMERGENCY_STOP"
      → (current_control_state (events ++ e ∷ []) symbol).emergency_stop ≡ true
  unfolding control_step apply_event
  emergency_stops events e symbol h scoped stops =
      rw (current_control_state-append events e symbol h, scoped, stops)

  -- An event for another symbol changes nothing.
  pub out_of_scope_ignored :
      (events : List (PaperControlEvent F)) (e : PaperControlEvent F) (symbol : Option String)
      → All (λ x. x.created_at ≤ e.created_at) events
      → in_scope e.symbol symbol ≡ false
      → current_control_state (events ++ e ∷ []) symbol ≡ current_control_state events symbol
  unfolding control_step
  out_of_scope_ignored events e symbol h other =
      rw (current_control_state-append events e symbol h, other)
