-- ===== src/Baselines/Grade.antt =====
-- What a grade of the evidence vouches for (baselines.py, `_evidence_grade`).
use paper_forecast_loop.Prelude.{
  ℕ, ◌≤◌, String, ◌≡◌, refl, ◌⊎◌, Bool, true, false, Option, none, some, arith, ◌&&◌, ◌||◌, leb,
  ltb, if◌then◌else◌, is_some, is_none,
}
use paper_forecast_loop.Prelude.Text.{contains}
use paper_forecast_loop.Prelude.{List, [], ◌∷◌}
use paper_forecast_loop.Runtime.{Runtime}
use paper_forecast_loop.Baselines.{evidence_grade, graded, or_zero}

abbrev pub strong_grades : List String
strong_grades = "A" ∷ "B" ∷ []

module _ {F : Type 0} (rt : Runtime F) where
  abbrev pub Vouched : ℕ → F → F → Type 0
  Vouched n x r =
      (5 ≤ n)
      × ((rt.le (rt.dec 10 2) x ≡ true) ⊎ (rt.lt (rt.dec 5 2) x ≡ true))
      × ((rt.le (rt.dec 70 2) r ≡ true) ⊎ (rt.le (rt.dec 60 2) r ≡ true))

  graded-Vouched :
      (n : ℕ) (x r : F) → contains strong_grades (graded rt n x r) ≡ true → Vouched n x r
  graded-Vouched n x r =
      by_tests (leb 20 n && rt.le (rt.dec 10 2) x && rt.le (rt.dec 70 2) r)
        (leb 5 n && rt.lt (rt.dec 5 2) x && rt.le (rt.dec 60 2) r)
        (leb 3 n && rt.lt (rt.dec 0 1) x && rt.le (rt.dec 50 2) r) refl refl
    where
      by_tests :
          (a b c : Bool)
          → (leb 20 n && rt.le (rt.dec 10 2) x && rt.le (rt.dec 70 2) r) ≡ a
          → (leb 5 n && rt.lt (rt.dec 5 2) x && rt.le (rt.dec 60 2) r) ≡ b
          → contains strong_grades (if a then "A" else if b then "B" else if c then "C" else "D")
            ≡ true
          → Vouched n x r
      by_tests true b c p q h = (ground arith, ground arith, ground arith)
      by_tests false true c p q h = (ground arith, ground arith, ground arith)
      by_tests false false true p q h = cc
      by_tests false false false p q h = cc

  abbrev rest : ℕ → Option F → Option F → String
  rest n edge recent = elim edge [
    | none ↦ "INSUFFICIENT"
    | some x ↦ graded rt n x (or_zero rt recent)
  ]

  sufficient :
      (g : Bool) (s : String)
      → contains strong_grades (if g then "INSUFFICIENT" else s) ≡ true
      → (g ≡ false) × (contains strong_grades s ≡ true)
  sufficient true s h = cc
  sufficient false s h = (refl, h)

  -- A grade of A or B stands on at least five scores, an edge over the baseline that is at least 0.1
  -- or above 0.05, and a recent score (0 if there is none) of at least 0.7 or 0.6; both accuracies
  -- are there.
  pub strong_grade_vouches :
      (n : ℕ) (accuracy baseline edge recent : Option F)
      → contains strong_grades (evidence_grade rt n accuracy baseline edge recent) ≡ true
      → (is_some accuracy ≡ true)
        × (is_some baseline ≡ true)
        × ((x : F) × (edge ≡ some x) × Vouched n x (or_zero rt recent))
  unfolding evidence_grade
  strong_grade_vouches n none baseline edge recent h =
      absurd
        (ground (arith, sufficient (ltb n 2 || true || is_none baseline) (rest n edge recent) h))
  strong_grade_vouches n (some a) none edge recent h =
      absurd (ground (arith, sufficient (ltb n 2 || false || true) (rest n edge recent) h))
  strong_grade_vouches n (some a) (some b) none recent h =
      absurd (ground (arith, sufficient (ltb n 2 || false || false) "INSUFFICIENT" h))
  strong_grade_vouches n (some a) (some b) (some x) recent h = (
    refl,
    refl,
    (
      x,
      refl,
      graded-Vouched n x (or_zero rt recent)
          (sufficient (ltb n 2 || false || false) (graded rt n x (or_zero rt recent)) h).1,
    ),
  )
