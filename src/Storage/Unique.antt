-- ===== src/Storage/Unique.antt =====
-- `_append_unique`: an artifact is appended unless one with its id is there, so that no id is
-- stored twice.
use paper_forecast_loop.Prelude.{
  ◌≡◌, refl, Bool, true, false, String, List, [], ◌∷◌, ◌++◌, any, All, All-append, arith, ◌==◌,
  eq_iff, if◌then◌else◌, Bool-cases, inl, inr,
}

module _ {ℓ} {A : Type ℓ} (id : A → String) where
  -- `any(existing.id == key for existing in xs)`
  abbrev pub has_id : String → List A → Bool
  has_id key xs = any (λ y. id y == key) xs

  unfoldable pub append_unique : List A → A → List A
  append_unique xs x = if has_id (id x) xs then xs else xs ++ x ∷ []

  -- No two elements have one id.
  abbrev pub IsDistinct : List A → Type 0
  IsDistinct [] = Unit {0}
  IsDistinct (x ∷ xs) = (has_id (id x) xs ≡ false) × IsDistinct xs

  has_id-append_one :
      (key : String) (xs : List A) (x : A)
      → has_id key xs ≡ false
      → (id x == key) ≡ false
      → has_id key (xs ++ x ∷ []) ≡ false
  has_id-append_one key [] x h k = ground arith
  has_id-append_one key (y ∷ xs) x h k = ground (arith, has_id-append_one key xs x)

  IsDistinct-append_one :
      (xs : List A) (x : A) → IsDistinct xs → has_id (id x) xs ≡ false → IsDistinct (xs ++ x ∷ [])
  IsDistinct-append_one [] x d h = (refl, tt)
  IsDistinct-append_one (y ∷ xs) x d h = ground (
    arith,
    IsDistinct-append_one xs x d.1,
    has_id-append_one (id y) xs x d.0,
    eq_iff (id y) (id x),
    eq_iff (id x) (id y),
  )

  pub append_unique-IsDistinct :
      (xs : List A) (x : A) → IsDistinct xs → IsDistinct (append_unique xs x)
  unfolding append_unique
  append_unique-IsDistinct xs x d = elim (Bool-cases (has_id (id x) xs)) [
    | inl old ↦ rw old d
    | inr new ↦ rw new (IsDistinct-append_one xs x d new)
  ]

  pub append_unique_new :
      (xs : List A) (x : A) → has_id (id x) xs ≡ false → append_unique xs x ≡ xs ++ x ∷ []
  unfolding append_unique
  append_unique_new xs x h = rw h

  pub append_unique_old : (xs : List A) (x : A) → has_id (id x) xs ≡ true → append_unique xs x ≡ xs
  unfolding append_unique
  append_unique_old xs x h = rw h

  -- What holds of the stored artifacts and of the new one holds afterwards.
  pub All-append_unique {κ} :
      (P : A → Type κ) (xs : List A) (x : A) → All P xs → P x → All P (append_unique xs x)
  unfolding append_unique
  All-append_unique P xs x h p = elim (Bool-cases (has_id (id x) xs)) [
    | inl old ↦ rw old h
    | inr new ↦ rw new (All-append P xs (x ∷ []) h (p, tt))
  ]
