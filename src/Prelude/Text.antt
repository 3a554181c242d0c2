-- ===== src/Prelude/Text.antt =====
-- The operations on Python's `str` that the program uses, over native texts.
use Prim.Native.Nat.{ℕ, ◌<◌, ◌-◌, Ordering}
use Prim.Native.Char.{Char, code}
use Prim.Native.String.{String, count, ◌++◌, char_at, compare as compare_text}
use mathlib.Core.Bool.{Bool, true, false, ◌&&◌, ◌||◌, false≢true}
use mathlib.Core.List.{List, [], ◌∷◌}
use text.Mathlib.Text.{◌==◌}
use text.Mathlib.TextLemmas.{length-append}
use native.Mathlib.Omega.{arith}
use text.Mathlib.TextEquality.{eq_iff}
use text.Mathlib.TextPositions.{eq_refl}
use mathlib.Core.Path.{◌≡◌, refl, ap, sym, subst}
use mathlib.Core.Logic.{◌≢◌, inl, inr}
use mathlib.Core.Option.{Option, none, some}
use paper_forecast_loop.Prelude.Tests.{Bool-cases, leb, eqb, if◌then◌else◌}
use paper_forecast_loop.Prelude.Lists.{any, All, is_empty}

-- `str.upper` on ASCII letters; other characters are kept as they are.
abbrev upper_char : Char → Char
upper_char c =
    if leb b'a' (code c) && leb (code c) b'z'
    then char_at "ABCDEFGHIJKLMNOPQRSTUVWXYZ" (code c - b'a')
    else c

unfoldable pub upper : String → String
upper String.[] = ""
upper (String.◌∷◌ c s) = String.◌∷◌ (upper_char c) (upper s)

-- `str.lower` on ASCII letters; other characters are kept as they are.
abbrev lower_char : Char → Char
lower_char c =
    if leb b'A' (code c) && leb (code c) b'Z'
    then char_at "abcdefghijklmnopqrstuvwxyz" (code c - b'A')
    else c

unfoldable pub lower : String → String
lower String.[] = ""
lower (String.◌∷◌ c s) = String.◌∷◌ (lower_char c) (lower s)

-- `s.replace("-", "_")`
unfoldable pub dashes_to_underscores : String → String
dashes_to_underscores String.[] = ""
dashes_to_underscores (String.◌∷◌ c s) =
    String.◌∷◌ (if eqb (code c) b'-' then char_at "_" 0 else c) (dashes_to_underscores s)

-- The characters for which `str.isspace` holds.
abbrev is_space : ℕ → Bool
is_space n =
    (leb 9 n && leb n 13)
    || (leb 28 n && leb n 32)
    || eqb n 133
    || eqb n 160
    || eqb n 5760
    || (leb 8192 n && leb n 8202)
    || eqb n 8232
    || eqb n 8233
    || eqb n 8239
    || eqb n 8287
    || eqb n 12288

unfoldable pub strip_left : String → String
strip_left String.[] = ""
strip_left (String.◌∷◌ c s) = if is_space (code c) then strip_left s else String.◌∷◌ c s

-- A space is kept only if something other than spaces follows.
unfoldable pub strip_right : String → String
strip_right String.[] = ""
strip_right (String.◌∷◌ c s) =
    let rest = strip_right s in if is_space (code c) && rest == "" then "" else String.◌∷◌ c rest

unfoldable pub strip : String → String
unfolding strip_left strip_right
strip s = strip_right (strip_left s)

-- `s < t` for texts, by code points
abbrev pub text_lt : String → String → Bool
text_lt s t = elim (compare_text s t) [ Ordering.lt ↦ true | _ ↦ false ]

-- `x in {…}` over texts
abbrev pub contains : List String → String → Bool
contains xs x = any (λ y. x == y) xs

-- `",".join(xs)`
unfoldable pub join : String → List String → String
join sep [] = ""
join sep (x ∷ []) = x
join sep (x ∷ (y ∷ ys)) = x ++ (sep ++ join sep (y ∷ ys))

-- `s or t`
abbrev pub or_text : String → String → String
or_text s t = if s == "" then t else s

-- Concatenation of the pieces of an f-string.
unfoldable pub concat : List String → String
concat [] = ""
concat (x ∷ xs) = x ++ concat xs

-- `sorted(set(xs))`: code-point order, without repetitions.
insert_text : String → List String → List String
insert_text x [] = x ∷ []
insert_text x (y ∷ ys) = elim (compare_text x y) [
  | Ordering.lt ↦ x ∷ (y ∷ ys)
  | Ordering.eq ↦ y ∷ ys
  | Ordering.gt ↦ y ∷ insert_text x ys
]

unfoldable pub sorted_set : List String → List String
unfolding insert_text
sorted_set [] = []
sorted_set (x ∷ xs) = insert_text x (sorted_set xs)

insert_text-is_empty : (x : String) (xs : List String) → is_empty (insert_text x xs) ≡ false
unfolding insert_text
insert_text-is_empty x [] = refl
insert_text-is_empty x (y ∷ ys) = by_order (compare_text x y)
  where
    by_order :
        (o : Ordering)
        → is_empty (elim o [
          | Ordering.lt ↦ x ∷ (y ∷ ys)
          | Ordering.eq ↦ y ∷ ys
          | Ordering.gt ↦ y ∷ insert_text x ys
        ])
          ≡ false
    by_order Ordering.lt = refl
    by_order Ordering.eq = refl
    by_order Ordering.gt = refl

pub sorted_set-is_empty : (xs : List String) → is_empty (sorted_set xs) ≡ is_empty xs
unfolding sorted_set
sorted_set-is_empty [] = refl
sorted_set-is_empty (x ∷ xs) = insert_text-is_empty x (sorted_set xs)

-- `sorted(xs)`
insert_sorted : String → List String → List String
insert_sorted x [] = x ∷ []
insert_sorted x (y ∷ ys) = elim (compare_text y x) [
  | Ordering.lt ↦ y ∷ insert_sorted x ys
  | _ ↦ x ∷ (y ∷ ys)
]

unfoldable pub sorted : List String → List String
unfolding insert_sorted
sorted [] = []
sorted (x ∷ xs) = insert_sorted x (sorted xs)

-- A text in one of two disjoint collections is not in the other.
pub contains-disjoint :
    (xs ys : List String) (s : String)
    → All (λ x. contains ys x ≡ false) xs
    → contains xs s ≡ true
    → contains ys s ≡ false
contains-disjoint [] ys s h k = absurd (false≢true k)
contains-disjoint (x ∷ xs) ys s h k = elim (Bool-cases (s == x)) [
  | inl same ↦ subst (λ t. contains ys t ≡ false) (sym ((eq_iff s x).0 same)) h.0
  | inr other ↦ contains-disjoint xs ys s h.1 (rw other at k)
]

-- Whether an optional text is the given one.
abbrev pub is_text : Option String → String → Bool
is_text none t = false
is_text (some s) t = s == t

pub not_is_text : (o : Option String) (t : String) → is_text o t ≡ false → o ≢ some t
not_is_text o t h e = cc (h, ap (λ p. is_text p t) e, eq_refl t)

-- A text with something before it is not empty.
pub prefixed_not_empty : (s t : String) → 0 < count s → ((s ++ t) == "") ≡ false
prefixed_not_empty s t h = elim (Bool-cases ((s ++ t) == "")) [
  | inr filled ↦ filled
  | inl empty ↦ absurd (omega (arith, ap count ((eq_iff (s ++ t) "").0 empty), length-append s t))
]
