-- ===== src/Runtime/Fixed.antt =====
-- A concrete runtime for the witnesses and tests: decimals of nine places, `none` for NaN, and a
-- digest that spells out the texts of the payload.
mod Int
use Int.{ℤ, pos, ◌+ℤ◌, ◌-ℤ◌, ◌*ℤ◌, abs_ℤ, div_ℤ, ltb_ℤ, leb_ℤ}
use paper_forecast_loop.Prelude.{
  ℕ, ◌+◌, ◌*◌, ◌/◌, ◌^◌, String, Bool, true, false, Option, none, some, List, [], ◌∷◌, map, arith,
}
use paper_forecast_loop.Prelude.Text.{concat}
use paper_forecast_loop.Runtime.Defs.{Runtime, IsIeee, Json, Dict, text, array, item}

abbrev pub Fixed : Type 0
Fixed = Option ℤ

abbrev pub nan : Fixed
nan = none

abbrev unit : ℕ
unit = 1_000_000_000

abbrev lift : (ℤ → ℤ → ℤ) → Fixed → Fixed → Fixed
lift f (some a) (some b) = some (f a b)
lift f _ _ = none

abbrev test : (ℤ → ℤ → Bool) → Fixed → Fixed → Bool
test f (some a) (some b) = f a b
test f _ _ = false

abbrev sum_fixed : List Fixed → Fixed
sum_fixed [] = some (pos 0)
sum_fixed (x ∷ xs) = lift ◌+ℤ◌ x (sum_fixed xs)

abbrev count_fixed : List Fixed → ℕ
count_fixed [] = 0
count_fixed (x ∷ xs) = 1 + count_fixed xs

abbrev mean_fixed : List Fixed → Fixed
mean_fixed xs = lift div_ℤ (sum_fixed xs) (some (pos (count_fixed xs)))

abbrev abs_fixed : Fixed → Fixed
abs_fixed none = none
abs_fixed (some a) = some (pos (abs_ℤ a))

abbrev json_text : Json Fixed → String
json_text (text s) = s
json_text (array (item (text s) _)) = s
json_text _ = "json"

abbrev entry_text : String × Json Fixed → String
entry_text (k, v) = concat (k ∷ "=" ∷ json_text v ∷ ";" ∷ [])

abbrev payload_text : Dict Fixed → String
payload_text p = concat (map entry_text p)

abbrev pub fixed_runtime : Runtime Fixed
fixed_runtime = record {
  dec = λ m k. some (pos (m * unit / 10 ^ k));
  of_nat = λ n. some (pos (n * unit));
  add = lift ◌+ℤ◌;
  sub = lift ◌-ℤ◌;
  mul = lift (λ a b. div_ℤ (a *ℤ b) (pos unit));
  div = lift (λ a b. div_ℤ (a *ℤ pos unit) b);
  neg = lift ◌-ℤ◌ (some (pos 0));
  abs = abs_fixed;
  lt = test ltb_ℤ;
  le = test leb_ℤ;
  sum = sum_fixed;
  mean = mean_fixed;
  pstdev = λ _. some (pos 0);
  sqrt = λ x. x;
  round = λ x _. x;
  show = λ _. "number";
  percent = λ _. "percent";
  show_nat = λ _. "integer";
  isoformat = λ _. "time";
  digest = payload_text;
  hash32 = λ _. 7;
}

-- The laws of the order can be met.
pub Fixed-IsIeee : IsIeee fixed_runtime
Fixed-IsIeee = ground arith
