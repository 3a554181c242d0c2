-- ===== src/Tests/Coding.antt =====
-- The coding of artifacts, with a codec whose lines are the dictionaries themselves and whose times
-- are tallies.
use Prim.Native.String.{count}
use paper_forecast_loop.Prelude.{
  ◌-◌, ◌≡◌, refl, ap, arith, Bool, true, false, Option, none, some, List, [], ◌∷◌, ◌++◌, ok, err,
}
use paper_forecast_loop.Tests.Tally.{tally, count-tally, tally_not_empty}
use paper_forecast_loop.Runtime.{Runtime, IsIeee, Json, number, Dict}
use paper_forecast_loop.Runtime.Fixed.{Fixed, fixed_runtime, nan}
use paper_forecast_loop.Models.Trading.{PaperControlEvent, BrokerOrder}
use paper_forecast_loop.Storage.{ArtifactRepository}
use paper_forecast_loop.Storage.Unique.{append_unique}
use paper_forecast_loop.Prelude.Text.{strip}
use paper_forecast_loop.Models.Trading.Ids.{build_control_id}
use paper_forecast_loop.Control.{control_event, record_control_event}
use paper_forecast_loop.Coding.{Codec, IsCodec}
use paper_forecast_loop.Coding.File.{append_unique_line, load_lines}
use paper_forecast_loop.Coding.Trading.{
  control_event_to_dict, control_event_from_dict, broker_order_to_dict, broker_order_from_dict,
}
use paper_forecast_loop.Coding.RoundTrip.{control_event_round_trip, broker_order_round_trip}
use paper_forecast_loop.Coding.Refinement.{append_unique_refines}
use paper_forecast_loop.Coding.Stored.{control_coding, control_coding-IsCoding}
use paper_forecast_loop.Coding.ControlLog.{
  stored_control_log, control_log_refines, nan_cap_event, nan_cap_poisons_control_log,
}
use paper_forecast_loop.Tests.Fixtures.{control, desk, amount}

abbrev clock_runtime : Runtime Fixed
clock_runtime = record fixed_runtime { isoformat = tally }

clock_runtime-IsIeee : IsIeee clock_runtime
clock_runtime-IsIeee = ground arith

abbrev is_number : Fixed → Bool
is_number none = false
is_number (some _) = true

abbrev float_value_of : Json Fixed → Option Fixed
float_value_of (number x) = some x
float_value_of _ = none

abbrev plain_codec : Codec Fixed (Dict Fixed)
plain_codec = record {
  dumps = λ payload. payload;
  loads = λ line. some line;
  is_blank = λ line. false;
  fromisoformat = λ s. some (count s - 1, true);
  is_finite = is_number;
  float_of = float_value_of;
}

plain_codec-IsCodec : IsCodec clock_runtime plain_codec
plain_codec-IsCodec = record {
  loads-dumps = λ payload. refl;
  dumps_not_blank = λ payload. refl;
  fromisoformat-isoformat = λ t. ap (λ n. some (n, true)) (omega (arith, count-tally t));
  isoformat_not_empty = tally_not_empty;
  float_of-number = λ x. refl;
}

abbrev pause : PaperControlEvent Fixed
pause = control 20 "PAUSE" (some "BTC-USD")

pause_loads :
    control_event_from_dict plain_codec (control_event_to_dict clock_runtime pause) ≡ ok pause
pause_loads =
    control_event_round_trip clock_runtime plain_codec plain_codec-IsCodec pause refl refl refl tt

abbrev resume : PaperControlEvent Fixed
resume = control 30 "RESUME" none

control_event_round_trip_example :
    control_event_from_dict plain_codec (control_event_to_dict clock_runtime resume) ≡ ok resume
control_event_round_trip_example =
    control_event_round_trip clock_runtime plain_codec plain_codec-IsCodec resume refl refl refl tt

abbrev broker_order : BrokerOrder Fixed
broker_order = record {
  broker_order_id = "broker-order:1";
  created_at = 3;
  updated_at = 5;
  local_order_id = "paper-order:1";
  decision_id = "decision:1";
  symbol = "BTC-USD";
  side = "BUY";
  quantity = none;
  target_position_pct = some (amount 15 2);
  broker = "mock";
  broker_mode = "SANDBOX";
  status = "ACKNOWLEDGED";
  broker_status = some "accepted";
  broker_order_ref = none;
  client_order_id = some "client:1";
  error_message = none;
  raw_response = ("paper", number (amount 1 0)) ∷ [];
  decision_basis = "test";
}

broker_order_round_trip_example :
    broker_order_from_dict plain_codec (broker_order_to_dict clock_runtime broker_order)
    ≡ ok broker_order
broker_order_round_trip_example =
    broker_order_round_trip clock_runtime plain_codec plain_codec-IsCodec broker_order refl
      (refl, (refl, (refl, (refl, (refl, tt))))) tt refl

-- A file with one event, and the repository that it holds.
abbrev log_file : List (Dict Fixed)
log_file = control_event_to_dict clock_runtime pause ∷ []

abbrev log_desk : ArtifactRepository Fixed
log_desk = record desk { control_events = pause ∷ [] }

log_file_loads :
    load_lines plain_codec (control_event_from_dict plain_codec) log_file ≡ ok (pause ∷ [])
unfolding load_lines
log_file_loads = rw (load_lines, pause_loads) refl

stored_again_refines :
    load_lines plain_codec (control_event_from_dict plain_codec) (
      append_unique_line plain_codec log_file
        (control_event_to_dict clock_runtime pause)
        "control_id")
    ≡ ok (append_unique (λ e. e.control_id) (pause ∷ []) pause)
stored_again_refines =
    append_unique_refines clock_runtime plain_codec plain_codec-IsCodec
      (control_coding clock_runtime plain_codec) (control_coding-IsCoding clock_runtime plain_codec)
      log_file (pause ∷ []) pause log_file_loads pause_loads

control_log_refines_example :
    let (result, after) =
      record_control_event clock_runtime log_desk "set_max_position" 7 "careful" "operator" none
        true
        (some (amount 1 1)) in
    load_lines plain_codec
      (control_event_from_dict plain_codec)
      (stored_control_log clock_runtime plain_codec log_file result)
    ≡ ok after.control_events
control_log_refines_example =
    control_log_refines clock_runtime plain_codec plain_codec-IsCodec log_desk log_file
      "set_max_position" 7 "careful" "operator" none true (some (amount 1 1)) refl log_file_loads

nan_cap_poisons_control_log_example :
    let result =
      (record_control_event clock_runtime log_desk "SET_MAX_POSITION" 7 "careful" "operator" none
        true
        (some nan)).0 in
    (result.event ≡ some (nan_cap_event clock_runtime 7 "careful" "operator" none nan))
    × (load_lines plain_codec
          (control_event_from_dict plain_codec)
          (stored_control_log clock_runtime plain_codec log_file result ++ log_file)
        ≡ err "numeric field must be finite")
unfolding strip control_event build_control_id tally
nan_cap_poisons_control_log_example =
    nan_cap_poisons_control_log clock_runtime plain_codec clock_runtime-IsIeee plain_codec-IsCodec
      log_desk log_file log_file 7 "careful" "operator" none nan log_file_loads refl refl refl refl
