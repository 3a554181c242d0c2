-- ===== src/Coding.antt =====
-- models.py: the readers of payload fields that the `from_dict` methods share. `Line` stands for a
-- line of a JSONL file. A value of another type than its field is declared with, which the program
-- would keep as it is, ends in an error here, since the records hold typed values.
pub mod Trading
pub mod File
pub mod Refinement
pub mod RoundTrip
pub mod Stored
pub mod ControlLog
use paper_forecast_loop.Prelude.{
  ℕ, String, Bool, true, false, not, ◌&&◌, ◌≡◌, Option, none, some, List, [], ◌∷◌, ◌==◌,
  if◌then◌else◌, eqb, is_empty, map, Result, ok, err, ◌>>=◌,
}
use paper_forecast_loop.Prelude.Text.{concat}
use paper_forecast_loop.Runtime.{
  Runtime, Json, null, flag, integer, number, text, array, object, item, no_items, Items, Dict,
  dict_of,
}

-- What the coding of artifacts takes from Python.
pub record Codec (F Line : Type 0) : Type 0 where
  -- `json.dumps(payload)`, and `json.loads(line)`, which may raise a `JSONDecodeError`
  pub dumps : Dict F → Line
  pub loads : Line → Option (Dict F)
  -- `not line.strip()`
  pub is_blank : Line → Bool
  -- `datetime.fromisoformat`, with whether the time has a timezone
  pub fromisoformat : String → Option (ℕ × Bool)
  -- `math.isfinite`, and `float(value)`, which may raise
  pub is_finite : F → Bool
  pub float_of : Json F → Option F

-- The documented behaviour that storing relies on.
pub record IsCodec {F Line : Type 0} (rt : Runtime F) (codec : Codec F Line) : Type 0 where
  pub loads-dumps : (payload : Dict F) → codec.loads (codec.dumps payload) ≡ some payload
  pub dumps_not_blank : (payload : Dict F) → codec.is_blank (codec.dumps payload) ≡ false
  pub fromisoformat-isoformat : (t : ℕ) → codec.fromisoformat (rt.isoformat t) ≡ some (t, true)
  pub isoformat_not_empty : (t : ℕ) → (rt.isoformat t == "") ≡ false
  pub float_of-number : (x : F) → codec.float_of (number x) ≡ some x

abbrev outside : {A : Type 0} → String → Result A
outside key = err (concat ("value of another type: " ∷ key ∷ []))

module _ {F : Type 0} where
  -- `payload.get(key)`
  abbrev pub lookup : String → Dict F → Option (Json F)
  lookup key [] = none
  lookup key ((k, value) ∷ payload) = if k == key then some value else lookup key payload

  -- `payload[key]` of a text
  abbrev text_value : String → Option (Json F) → Result String
  text_value key none = err (concat ("KeyError: " ∷ key ∷ []))
  text_value key (some (text s)) = ok s
  text_value key (some _) = outside key

  abbrev pub text_at : Dict F → String → Result String
  text_at payload key = text_value key (lookup key payload)

  -- `payload.get(key, default)` of a text, a number, an integer, a truth value
  abbrev text_value_or : String → String → Option (Json F) → Result String
  text_value_or key default none = ok default
  text_value_or key default (some (text s)) = ok s
  text_value_or key default (some _) = outside key

  abbrev pub text_or : Dict F → String → String → Result String
  text_or payload key default = text_value_or key default (lookup key payload)

  abbrev number_value_or : String → F → Option (Json F) → Result F
  number_value_or key default none = ok default
  number_value_or key default (some (number x)) = ok x
  number_value_or key default (some _) = outside key

  abbrev pub number_or : Dict F → String → F → Result F
  number_or payload key default = number_value_or key default (lookup key payload)

  -- `payload.get(key)` of a text or None, and of a number or None
  abbrev pub optional_text_value : String → Option (Json F) → Result (Option String)
  optional_text_value key none = ok none
  optional_text_value key (some null) = ok none
  optional_text_value key (some (text s)) = ok (some s)
  optional_text_value key (some _) = outside key

  abbrev pub optional_text : Dict F → String → Result (Option String)
  optional_text payload key = optional_text_value key (lookup key payload)

  abbrev pub optional_number_value : String → Option (Json F) → Result (Option F)
  optional_number_value key none = ok none
  optional_number_value key (some null) = ok none
  optional_number_value key (some (number x)) = ok (some x)
  optional_number_value key (some _) = outside key

  abbrev pub optional_number : Dict F → String → Result (Option F)
  optional_number payload key = optional_number_value key (lookup key payload)

  -- `dict(payload.get(key, {}))`
  abbrev pub dict_value : String → Option (Json F) → Result (Dict F)
  dict_value key none = ok []
  dict_value key (some (object entries)) = ok (dict_of entries)
  dict_value key (some _) = outside key

  abbrev pub dict_at : Dict F → String → Result (Dict F)
  dict_at payload key = dict_value key (lookup key payload)

  -- `bool(payload.get(key, False))` of a truth value or None
  abbrev truth_value : String → Option (Json F) → Result Bool
  truth_value key none = ok false
  truth_value key (some null) = ok false
  truth_value key (some (flag b)) = ok b
  truth_value key (some _) = outside key

  abbrev pub truth : Dict F → String → Result Bool
  truth payload key = truth_value key (lookup key payload)

  -- `_require_string`
  abbrev pub required_text : String → Option (Json F) → Result String
  required_text key (some (text s)) =
      if s == "" then err (concat ("missing required string field: " ∷ key ∷ [])) else ok s
  required_text key _ = err (concat ("missing required string field: " ∷ key ∷ []))

  unfoldable pub require_string : Dict F → String → Result String
  require_string payload key = required_text key (lookup key payload)

module _ {F Line : Type 0} (codec : Codec F Line) where
  abbrev pub time_value : String → Option (ℕ × Bool) → Result ℕ
  time_value key none = err "Invalid isoformat string"
  time_value key (some (t, true)) = ok t
  time_value key (some (t, false)) =
      err (concat ("datetime field must include timezone: " ∷ key ∷ []))

  abbrev required_time : String → Option (Json F) → Result ℕ
  required_time key (some (text s)) =
      if s == ""
      then err (concat ("missing required datetime field: " ∷ key ∷ []))
      else time_value key (codec.fromisoformat s)
  required_time key none = err (concat ("missing required datetime field: " ∷ key ∷ []))
  required_time key (some null) = err (concat ("missing required datetime field: " ∷ key ∷ []))
  required_time key (some _) = outside key

  -- `_require_aware_datetime`
  unfoldable pub require_aware_datetime : Dict F → String → Result ℕ
  require_aware_datetime payload key = required_time key (lookup key payload)

  abbrev pub optional_time : String → Option (Json F) → Result (Option ℕ)
  optional_time key (some (text s)) =
      if s == "" then ok none else time_value key (codec.fromisoformat s) >>= λ t. ok (some t)
  optional_time key none = ok none
  optional_time key (some null) = ok none
  optional_time key (some _) = outside key

  -- `_optional_aware_datetime`
  unfoldable pub optional_aware_datetime : Dict F → String → Result (Option ℕ)
  optional_aware_datetime payload key = optional_time key (lookup key payload)

  abbrev pub finite_float : Option F → Result (Option F)
  finite_float none = err "could not convert to float"
  finite_float (some x) =
      if codec.is_finite x then ok (some x) else err "numeric field must be finite"

  -- `_optional_float(payload.get(key))`
  abbrev pub float_value : Option (Json F) → Result (Option F)
  float_value none = ok none
  float_value (some null) = ok none
  float_value (some (text s)) = if s == "" then ok none else finite_float (codec.float_of (text s))
  float_value (some (number x)) = finite_float (codec.float_of (number x))
  float_value (some value) = finite_float (codec.float_of value)

  unfoldable pub optional_float : Dict F → String → Result (Option F)
  optional_float payload key = float_value (lookup key payload)

  -- `datetime.fromisoformat(payload[key])`, of a time with or without a timezone
  abbrev any_time : Option (ℕ × Bool) → Result ℕ
  any_time none = err "Invalid isoformat string"
  any_time (some (t, aware)) = ok t

  unfoldable pub datetime_at : Dict F → String → Result ℕ
  datetime_at payload key = text_at payload key >>= λ s. any_time (codec.fromisoformat s)

-- `if not …: raise ValueError(…)`
abbrev pub raise_unless : Bool → String → Result (Unit {0})
raise_unless true why = ok tt
raise_unless false why = err why
