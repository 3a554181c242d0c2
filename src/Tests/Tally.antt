-- ===== src/Tests/Tally.antt =====
-- Texts that spell numbers by their lengths: times for the tests of the coding.
use Prim.Native.String.{count, ◌++◌}
use text.Mathlib.TextLemmas.{length-append}
use paper_forecast_loop.Prelude.{ℕ, zero, suc, ◌+◌, ◌≡◌, refl, ap, ◌∙◌, arith, String, false, ◌==◌}
use paper_forecast_loop.Prelude.Text.{prefixed_not_empty}

tally_marks : ℕ → String
tally_marks zero = ""
tally_marks (suc n) = "|" ++ tally_marks n

unfoldable pub tally : ℕ → String
unfolding tally_marks
tally n = "t" ++ tally_marks n

count-tally_marks : (n : ℕ) → count (tally_marks n) ≡ n
unfolding tally_marks
count-tally_marks zero = refl
count-tally_marks (suc n) =
    length-append "|" (tally_marks n) ∙ ap (λ k. 1 + k) (count-tally_marks n) ∙ omega arith

pub count-tally : (n : ℕ) → count (tally n) ≡ 1 + n
unfolding tally
count-tally n = length-append "t" (tally_marks n) ∙ ap (λ k. 1 + k) (count-tally_marks n)

pub tally_not_empty : (n : ℕ) → (tally n == "") ≡ false
unfolding tally
tally_not_empty n = prefixed_not_empty "t" (tally_marks n) (omega arith)
