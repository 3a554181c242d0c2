-- ===== src/Runtime/Defs.antt =====
-- What the program takes from the Python runtime and does not implement: binary floating point, the
-- text of numbers and times, and the hash of a JSON payload. `F` stands for the type `float`. A
-- `datetime` is the number of microseconds since an epoch, so `datetime` orders and differences are
-- those of numbers; an `int` that the program never makes negative is a number too.

use paper_forecast_loop.Prelude.{
  ℕ, String, ◌≡◌, ◌⊎◌, Bool, true, false, not, Option, none, some, List, [], ◌∷◌, map,
  if◌then◌else◌, refl, ap,
}
use paper_forecast_loop.Prelude.Text.{concat}

-- A JSON value, as the payloads of artifact ids and the open dictionaries of artifacts hold them.
mutual
  pub data Json (F : Type 0) : Type 0 where
    null : Json F
    flag : Bool → Json F
    integer : ℕ → Json F
    number : F → Json F
    text : String → Json F
    array : Items F → Json F
    object : Entries F → Json F

  pub data Items (F : Type 0) : Type 0 where
    no_items : Items F
    item : Json F → Items F → Items F

  pub data Entries (F : Type 0) : Type 0 where
    no_entries : Entries F
    entry : String → Json F → Entries F → Entries F

-- `dict[str, object]`
abbrev pub Dict : Type 0 → Type 0
Dict F = List (String × Json F)

module _ {F : Type 0} where
  abbrev pub entries_of : Dict F → Entries F
  entries_of [] = no_entries
  entries_of ((k, v) ∷ d) = entry k v (entries_of d)

  -- the dictionary of an object
  abbrev pub dict_of : Entries F → Dict F
  dict_of no_entries = []
  dict_of (entry k v entries) = (k, v) ∷ dict_of entries

  pub dict_of-entries_of : (d : Dict F) → dict_of (entries_of d) ≡ d
  dict_of-entries_of [] = refl
  dict_of-entries_of ((k, v) ∷ d) = ap (λ rest. (k, v) ∷ rest) (dict_of-entries_of d)

  abbrev pub items_of : List (Json F) → Items F
  items_of [] = no_items
  items_of (j ∷ js) = item j (items_of js)

  abbrev pub object_of : Dict F → Json F
  object_of d = object (entries_of d)

  abbrev pub texts : List String → Json F
  texts ss = array (items_of (map text ss))

  abbrev pub text_or_null : Option String → Json F
  text_or_null none = null
  text_or_null (some s) = text s

  abbrev pub number_or_null : Option F → Json F
  number_or_null none = null
  number_or_null (some x) = number x

  abbrev pub integer_or_null : Option ℕ → Json F
  integer_or_null none = null
  integer_or_null (some n) = integer n

pub record Runtime (F : Type 0) : Type 0 where
  -- `dec m k` is the literal m / 10^k
  pub dec : ℕ → ℕ → F
  pub of_nat : ℕ → F
  pub add : F → F → F
  pub sub : F → F → F
  pub mul : F → F → F
  pub div : F → F → F
  pub neg : F → F
  pub abs : F → F
  pub lt : F → F → Bool
  pub le : F → F → Bool
  -- the builtin `sum` over floats
  pub sum : List F → F
  -- `statistics.mean` and `statistics.pstdev` of a list that is not empty, and `math.sqrt`
  pub mean : List F → F
  pub pstdev : List F → F
  pub sqrt : F → F
  -- `round(x, n)`
  pub round : F → ℕ → F
  -- `f"{x}"` and `f"{x:.2%}"` of a float, `f"{n}"` of an int
  pub show : F → String
  pub percent : F → String
  pub show_nat : ℕ → String
  pub isoformat : ℕ → String
  -- `sha1(json.dumps(payload, sort_keys=True, …)).hexdigest()[:16]`
  pub digest : Dict F → String
  -- `int(sha1(text).hexdigest()[:8], 16)`
  pub hash32 : String → ℕ

module _ {F : Type 0} (rt : Runtime F) where
  abbrev pub zero_point : F
  zero_point = rt.dec 0 0

  -- `max(a, b)` and `min(a, b)`: the first argument, unless the second is strictly beyond it
  abbrev pub max_of : F → F → F
  max_of a b = if rt.lt a b then b else a

  abbrev pub min_of : F → F → F
  min_of a b = if rt.lt b a then b else a

-- The order of IEEE 754, NaN included: NaN is the value that is not `<=` itself, and the order is
-- total away from it. A literal is no NaN.
pub record IsIeee {F : Type 0} (rt : Runtime F) : Type 0 where
  pub le_trans : (x y z : F) → rt.le x y ≡ true → rt.le y z ≡ true → rt.le x z ≡ true
  pub le_total :
      (x y : F) → rt.le x x ≡ true → rt.le y y ≡ true → (rt.le x y ≡ true) ⊎ (rt.le y x ≡ true)
  pub refl_of_le : (x y : F) → rt.le x y ≡ true → (rt.le x x ≡ true) × (rt.le y y ≡ true)
  pub lt-eq-not-le : (x y : F) → rt.le x x ≡ true → rt.le y y ≡ true → rt.lt x y ≡ not (rt.le y x)
  pub lt_nan_left : (x y : F) → rt.le x x ≡ false → rt.lt x y ≡ false
  pub lt_nan_right : (x y : F) → rt.le y y ≡ false → rt.lt x y ≡ false
  pub dec_refl : (m k : ℕ) → rt.le (rt.dec m k) (rt.dec m k) ≡ true

-- `_stable_artifact_id`
unfoldable pub stable_artifact_id : {F : Type 0} → Runtime F → String → Dict F → String
unfolding concat
stable_artifact_id rt prefix payload = concat (prefix ∷ ":" ∷ rt.digest payload ∷ [])
