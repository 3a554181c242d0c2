-- ===== src/Candles/Increasing.antt =====
-- Lists in strictly increasing order of a numeric key, and their slices.
use paper_forecast_loop.Prelude.{
  ℕ, zero, suc, ◌+◌, ◌≤◌, ◌<◌, ◌≡◌, refl, Bool, false, ◌||◌, some, List, [], ◌∷◌, arith, eqb, ltb,
  any, All, take, drop, ends, none≢some, some_injective, All-ends, ap, length, insert_by, sort_from,
  Bool-cases, inl, inr, ltb→lt, All-insert_by,
}

module _ {ℓ} {A : Type ℓ} where
  pub All-weaken {κ μ} :
      (P : A → Type κ) (Q : A → Type μ)
      → ((x : A) → P x → Q x)
      → (xs : List A) → All P xs
      → All Q xs
  All-weaken P Q f [] h = tt
  All-weaken P Q f (x ∷ xs) h = (f x h.0, All-weaken P Q f xs h.1)

  pub All-drop {κ} : (P : A → Type κ) (n : ℕ) (xs : List A) → All P xs → All P (drop n xs)
  All-drop P zero xs h = h
  All-drop P (suc n) [] h = h
  All-drop P (suc n) (x ∷ xs) h = All-drop P n xs h.1

  pub All-take {κ} : (P : A → Type κ) (n : ℕ) (xs : List A) → All P xs → All P (take n xs)
  All-take P zero xs h = tt
  All-take P (suc n) [] h = tt
  All-take P (suc n) (x ∷ xs) h = (h.0, All-take P n xs h.1)

  pub length-slice : (n i : ℕ) (xs : List A) → i + n ≤ length xs → length (take n (drop i xs)) ≡ n
  length-slice zero i xs h = refl
  length-slice (suc n) zero [] h = absurd (omega arith)
  length-slice (suc n) zero (x ∷ xs) h = omega (arith, length-slice n 0 xs (omega arith))
  length-slice (suc n) (suc i) [] h = absurd (omega arith)
  length-slice (suc n) (suc i) (x ∷ xs) h = length-slice (suc n) i xs (omega arith)

module _ {ℓ} {A : Type ℓ} (key : A → ℕ) where
  abbrev pub IsIncreasing : List A → Type 0
  IsIncreasing [] = Unit {0}
  IsIncreasing (x ∷ xs) = All (λ y. key x < key y) xs × IsIncreasing xs

  abbrev pub has_key : ℕ → List A → Bool
  has_key k xs = any (λ y. eqb (key y) k) xs

  -- No two elements have one key.
  abbrev pub IsKeyed : List A → Type 0
  IsKeyed [] = Unit {0}
  IsKeyed (x ∷ xs) = (has_key (key x) xs ≡ false) × IsKeyed xs

  pub IsIncreasing-drop : (n : ℕ) (xs : List A) → IsIncreasing xs → IsIncreasing (drop n xs)
  IsIncreasing-drop zero xs h = h
  IsIncreasing-drop (suc n) [] h = h
  IsIncreasing-drop (suc n) (x ∷ xs) h = IsIncreasing-drop n xs h.1

  pub IsIncreasing-take : (n : ℕ) (xs : List A) → IsIncreasing xs → IsIncreasing (take n xs)
  IsIncreasing-take zero xs h = tt
  IsIncreasing-take (suc n) [] h = tt
  IsIncreasing-take (suc n) (x ∷ xs) h =
      (All-take (λ y. key x < key y) n xs h.0, IsIncreasing-take n xs h.1)

  -- An earlier slice lies below a later one.
  pub slice_below :
      (i n j : ℕ) (xs : List A)
      → i + n ≤ j
      → IsIncreasing xs
      → All (λ x. All (λ y. key x < key y) (drop j xs)) (take n (drop i xs))
  slice_below zero zero j xs h s = tt
  slice_below zero (suc n) zero xs h s = absurd (omega arith)
  slice_below zero (suc n) (suc j) [] h s = tt
  slice_below zero (suc n) (suc j) (x ∷ xs) h s =
      (All-drop (λ y. key x < key y) j xs s.0, slice_below zero n j xs (omega arith) s.1)
  slice_below (suc i) zero j xs h s = tt
  slice_below (suc i) (suc n) zero xs h s = absurd (omega arith)
  slice_below (suc i) (suc n) (suc j) [] h s = tt
  slice_below (suc i) (suc n) (suc j) (x ∷ xs) h s = slice_below i (suc n) j xs (omega arith) s.1

  pub ends_ordered :
      (xs : List A) (a b : A) → IsIncreasing xs → ends xs ≡ some (a, b) → key a ≤ key b
  ends_ordered [] a b s e = absurd (none≢some e)
  ends_ordered (x ∷ xs) a b s e =
      let first : x ≡ a = ap (λ p. p.0) (some_injective e) in
      rw (← first) (
        (All-ends (λ y. key x ≤ key y) (x ∷ xs) a b
          (
            omega arith,
            All-weaken (λ y. key x < key y) (λ y. key x ≤ key y) (λ y p. omega arith) xs s.0,
          )
          e).1)

  has_key-insert_by :
      (k : ℕ) (x : A) (xs : List A)
      → has_key k (insert_by key x xs) ≡ (eqb (key x) k || has_key k xs)
  has_key-insert_by k x [] = refl
  has_key-insert_by k x (y ∷ ys) = ground (arith, has_key-insert_by k x ys)

  IsIncreasing-insert_by :
      (x : A) (xs : List A)
      → has_key (key x) xs ≡ false
      → IsIncreasing xs
      → IsIncreasing (insert_by key x xs)
  IsIncreasing-insert_by x [] n h = (tt, tt)
  IsIncreasing-insert_by x (y ∷ ys) n h = elim (Bool-cases (ltb (key x) (key y))) [
    | inl before ↦ rw before (
      ((
        ltb→lt (key x) (key y) before,
        All-weaken (λ z. key y < key z) (λ z. key x < key z)
            (λ z p. omega (arith, ltb→lt (key x) (key y) before)) ys h.0,
      )),
      h,
    )
    | inr after ↦ rw after (
      All-insert_by key (λ z. key y < key z) x ys (ground arith) h.0,
      IsIncreasing-insert_by x ys (ground arith) h.1,
    )
  ]

  -- Sorting a keyed list puts it in strictly increasing order.
  pub IsIncreasing-sort_from :
      (acc xs : List A)
      → IsIncreasing acc
      → IsKeyed xs
      → All (λ x. has_key (key x) acc ≡ false) xs
      → IsIncreasing (sort_from key acc xs)
  IsIncreasing-sort_from acc [] s k h = s
  IsIncreasing-sort_from acc (x ∷ xs) s k h =
      IsIncreasing-sort_from (insert_by key x acc) xs (IsIncreasing-insert_by x acc h.0 s) k.1
        (still_fresh xs k.0 h.1)
    where
      still_fresh :
          (ys : List A)
          → has_key (key x) ys ≡ false
          → All (λ y. has_key (key y) acc ≡ false) ys
          → All (λ y. has_key (key y) (insert_by key x acc) ≡ false) ys
      still_fresh [] n p = tt
      still_fresh (y ∷ ys) n p =
          (ground (arith, has_key-insert_by (key y) x acc), still_fresh ys (ground arith) p.1)

  pub has_key-sort_from :
      (k : ℕ) (acc xs : List A) → has_key k (sort_from key acc xs) ≡ (has_key k acc || has_key k xs)
  has_key-sort_from k acc [] = ground arith
  has_key-sort_from k acc (x ∷ xs) =
      ground (arith, has_key-sort_from k (insert_by key x acc) xs, has_key-insert_by k x acc)
