-- ===== src/Prelude/Lists.antt =====
-- Lists by Boolean tests, and the predicates on their elements.
use Prim.Native.Nat.{ℕ, zero, suc, ◌+◌, ◌≤◌}
use mathlib.Core.Path.{◌≡◌, refl, ◌∙◌, ap, subst}
use mathlib.Core.Logic.{◌≢◌, inl, inr}
use mathlib.Core.Bool.{Bool, true, false, ◌&&◌, ◌||◌, false≢true}
use mathlib.Core.List.{List, [], ◌∷◌, ◌++◌, map}
use mathlib.Core.Option.{Option, none, some}
use native.Mathlib.Omega.{arith}
use paper_forecast_loop.Prelude.Tests.{Bool-cases, ltb, if◌then◌else◌}

pub none≢some {ℓ} : {A : Type ℓ} {a : A} → none ≢ some a
none≢some h = cc

pub some_injective {ℓ} : {A : Type ℓ} {a b : A} → some a ≡ some b → a ≡ b
some_injective h = cc

module _ {ℓ} {A : Type ℓ} where
  abbrev pub length : List A → ℕ
  length [] = 0
  length (x ∷ xs) = suc (length xs)

  abbrev pub any : (A → Bool) → List A → Bool
  any p [] = false
  any p (x ∷ xs) = p x || any p xs

  abbrev pub all : (A → Bool) → List A → Bool
  all p [] = true
  all p (x ∷ xs) = p x && all p xs

  -- `[x for x in xs if p(x)]`
  abbrev pub keep : (A → Bool) → List A → List A
  keep p [] = []
  keep p (x ∷ xs) = let rest = keep p xs in if p x then x ∷ rest else rest

  -- `next((x for x in xs if p(x)), None)`
  abbrev pub find? : (A → Bool) → List A → Option A
  find? p [] = none
  find? p (x ∷ xs) = if p x then some x else find? p xs

  -- `xs[-1] if xs else None`
  abbrev pub last? : List A → Option A
  last? [] = none
  last? (x ∷ []) = some x
  last? (x ∷ (y ∷ ys)) = last? (y ∷ ys)

  -- `xs[0] if xs else None`
  abbrev pub first? : List A → Option A
  first? [] = none
  first? (x ∷ xs) = some x

  abbrev last_of : A → List A → A
  last_of x [] = x
  last_of x (y ∷ ys) = last_of y ys

  -- `(xs[0], xs[-1])`
  abbrev pub ends : List A → Option (A × A)
  ends [] = none
  ends (x ∷ xs) = some (x, last_of x xs)

  abbrev pub is_empty : List A → Bool
  is_empty [] = true
  is_empty (_ ∷ _) = false

  abbrev pub get_elem? : List A → ℕ → Option A
  get_elem? [] i = none
  get_elem? (x ∷ xs) zero = some x
  get_elem? (x ∷ xs) (suc i) = get_elem? xs i

  abbrev pub take : ℕ → List A → List A
  take zero xs = []
  take (suc n) [] = []
  take (suc n) (x ∷ xs) = x ∷ take n xs

  abbrev pub drop : ℕ → List A → List A
  drop zero xs = xs
  drop (suc n) [] = []
  drop (suc n) (x ∷ xs) = drop n xs

  pub length-append : (xs ys : List A) → length (xs ++ ys) ≡ length xs + length ys
  length-append [] ys = omega arith
  length-append (x ∷ xs) ys = omega (arith, length-append xs ys)

  pub is_empty-append : (xs ys : List A) → is_empty (xs ++ ys) ≡ (is_empty xs && is_empty ys)
  is_empty-append [] ys = refl
  is_empty-append (x ∷ xs) ys = refl

  pub any-append : (p : A → Bool) (xs ys : List A) → any p (xs ++ ys) ≡ (any p xs || any p ys)
  any-append p [] ys = refl
  any-append p (x ∷ xs) ys = ground (arith, any-append p xs ys)

  pub keep-append : (p : A → Bool) (xs ys : List A) → keep p (xs ++ ys) ≡ keep p xs ++ keep p ys
  keep-append p [] ys = refl
  keep-append p (x ∷ xs) ys = ground (arith, keep-append p xs ys)

  pub last?-append : (xs : List A) (x : A) → last? (xs ++ x ∷ []) ≡ some x
  last?-append [] x = refl
  last?-append (y ∷ []) x = refl
  last?-append (y ∷ (z ∷ zs)) x = last?-append (z ∷ zs) x

  -- A test that fails on every element finds none, and the other way round.
  pub find?-none : (p : A → Bool) (xs : List A) → find? p xs ≡ none → any p xs ≡ false
  find?-none p [] h = refl
  find?-none p (x ∷ xs) h = ground (arith, find?-none p xs)

  pub any-none : (p : A → Bool) (xs : List A) → any p xs ≡ false → find? p xs ≡ none
  any-none p [] h = refl
  any-none p (x ∷ xs) h = ground (arith, any-none p xs)

  pub find?-some : (p : A → Bool) (xs : List A) (x : A) → find? p xs ≡ some x → p x ≡ true
  find?-some p [] x h = ground arith
  find?-some p (y ∷ xs) x h = ground (arith, find?-some p xs x)

module _ {ℓ κ} {A : Type ℓ} (P : A → Type κ) where
  abbrev pub All : List A → Type κ
  All [] = Unit
  All (x ∷ xs) = P x × All xs

  pub All-append : (xs ys : List A) → All xs → All ys → All (xs ++ ys)
  All-append [] ys hx hy = hy
  All-append (x ∷ xs) ys hx hy = (hx.0, All-append xs ys hx.1 hy)

module _ {ℓ κ} {A : Type ℓ} (P : A → Type κ) where
  All-last_of : (x : A) (xs : List A) → P x → All P xs → P (last_of x xs)
  All-last_of x [] p h = p
  All-last_of x (y ∷ ys) p h = All-last_of y ys h.0 h.1

  pub All-ends : (xs : List A) (a b : A) → All P xs → ends xs ≡ some (a, b) → P a × P b
  All-ends [] a b h e = absurd (none≢some e)
  All-ends (x ∷ xs) a b h e =
      let same : (x, last_of x xs) ≡ (a, b) = some_injective e in
      (subst P (ap (λ p. p.0) same) h.0, subst P (ap (λ p. p.1) same) (All-last_of x xs h.0 h.1))

module _ {ℓ κ} {A : Type ℓ} (P : A → Type κ) where
  pub All-split : (xs ys : List A) → All P (xs ++ ys) → All P xs × All P ys
  All-split [] ys h = (tt, h)
  All-split (x ∷ xs) ys h = let (first, second) = All-split xs ys h.1 in ((h.0, first), second)

module _ {ℓ} {A : Type ℓ} (p : A → Bool) where
  pub all-All : (xs : List A) → all p xs ≡ true → All (λ x. p x ≡ true) xs
  all-All [] h = tt
  all-All (x ∷ xs) h = (ground arith, all-All xs (ground arith))

-- Python's stable `sorted(xs, key=key)` over a numeric key.
module _ {ℓ} {A : Type ℓ} (key : A → ℕ) where
  -- `x` goes behind the elements whose key is not above its own
  abbrev pub insert_by : A → List A → List A
  insert_by x [] = x ∷ []
  insert_by x (y ∷ ys) = if ltb (key x) (key y) then x ∷ (y ∷ ys) else y ∷ insert_by x ys

  abbrev pub sort_from : List A → List A → List A
  sort_from acc [] = acc
  sort_from acc (x ∷ xs) = sort_from (insert_by x acc) xs

  abbrev pub sorted_by : List A → List A
  sorted_by xs = sort_from [] xs

  pub sort_from-append :
      (acc xs : List A) (x : A) → sort_from acc (xs ++ x ∷ []) ≡ insert_by x (sort_from acc xs)
  sort_from-append acc [] x = refl
  sort_from-append acc (y ∷ ys) x = sort_from-append (insert_by y acc) ys x

  pub insert_by-last :
      (x : A) (xs : List A) → All (λ y. key y ≤ key x) xs → insert_by x xs ≡ xs ++ x ∷ []
  insert_by-last x [] h = refl
  insert_by-last x (y ∷ ys) h = ground (arith, insert_by-last x ys h.1)

  module _ {κ} (P : A → Type κ) where
    pub All-insert_by : (x : A) (xs : List A) → P x → All P xs → All P (insert_by x xs)
    All-insert_by x [] p h = (p, tt)
    All-insert_by x (y ∷ ys) p h = by_test (ltb (key x) (key y)) (All-insert_by x ys p h.1)
      where
        by_test :
            (b : Bool)
            → All P (insert_by x ys)
            → All P (if b then x ∷ (y ∷ ys) else y ∷ insert_by x ys)
        by_test true ih = (p, h)
        by_test false ih = (h.0, ih)

    pub All-sort_from : (acc xs : List A) → All P acc → All P xs → All P (sort_from acc xs)
    All-sort_from acc [] h k = h
    All-sort_from acc (x ∷ xs) h k =
        All-sort_from (insert_by x acc) xs (All-insert_by x acc k.0 h) k.1

  -- The latest element of a log goes to the end.
  pub sorted_by-append :
      (xs : List A) (x : A)
      → All (λ y. key y ≤ key x) xs
      → sorted_by (xs ++ x ∷ []) ≡ sorted_by xs ++ x ∷ []
  sorted_by-append xs x h =
      sort_from-append [] xs x
      ∙ insert_by-last x (sorted_by xs) (All-sort_from (λ y. key y ≤ key x) [] xs tt h)

-- Nothing kept: the test fails on every element.
pub keep-is_empty :
    {A : Type 0}
    → (p : A → Bool) (xs : List A) → is_empty (keep p xs) ≡ true
    → All (λ x. p x ≡ false) xs
keep-is_empty p [] h = tt
keep-is_empty p (x ∷ xs) h = elim (Bool-cases (p x)) [
  | inl found ↦ absurd (false≢true (rw found at h))
  | inr missed ↦ (missed, keep-is_empty p xs (rw missed at h))
]

pub map-is_empty : {A B : Type 0} → (f : A → B) (xs : List A) → is_empty (map f xs) ≡ is_empty xs
map-is_empty f [] = refl
map-is_empty f (x ∷ xs) = refl

pub both_empty :
    {A : Type 0}
    → (xs ys : List A) → is_empty (xs ++ ys) ≡ true
    → (is_empty xs ≡ true) × (is_empty ys ≡ true)
both_empty [] ys h = (refl, h)
both_empty (x ∷ xs) ys h = absurd (false≢true h)
