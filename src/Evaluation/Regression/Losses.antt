-- ===== src/Evaluation/Regression/Losses.antt =====
-- The comparison of two numbers, of which the second is no worse than the first or a little
-- (src/agent_runtime/evaluation/regression.py).
use native.Mathlib.Nat.{zero-mod, zero-div}
use agent_reliability_runtim.Prelude.{
  ℕ, zero, suc, ◌+◌, ◌-◌, ◌*◌, ◌≤◌, ◌≡◌, refl, false, Option, none, some, leb, ◌==◌, arith, inl,
  inr, Bool-cases,
}
use agent_reliability_runtim.Evaluation.Regression.Summaries.{
  round_div, signed, delta, exceeds, falls_below, percent_delta, has_regressed,
}

tenths-lower : (a : ℕ) → a ≤ round_div a 10 * 10 + 5
unfolding round_div
tenths-lower a = ground arith

round_div_zero : (b : ℕ) → round_div 0 (suc b) ≡ 0
unfolding round_div
round_div_zero b = ground (arith, zero-div (suc b), zero-mod (suc b))

signed_loss : (q allowed : ℕ) → falls_below (signed false q) allowed ≡ false → q * 1000 ≤ allowed
unfolding falls_below signed
signed_loss zero allowed h = omega arith
signed_loss (suc q) allowed h = ground arith

-- A quality that has not regressed has lost at most what the gate allows.
pub quality_loss :
    (baseline candidate allowed : ℕ)
    → falls_below (delta 1 10 baseline candidate) allowed ≡ false
    → (baseline - candidate) * 100 ≤ allowed + 500
unfolding delta
quality_loss baseline candidate allowed h = elim (Bool-cases (leb baseline candidate)) [
  | inl better ↦ ground arith
  | inr worse ↦
      let lost = signed_loss (round_div ((baseline - candidate) * 1) 10) allowed (rw worse at h) in
      omega (arith, lost, tenths-lower ((baseline - candidate) * 1))
]

pub no_quality_loss :
    (baseline candidate allowed : ℕ)
    → baseline ≤ candidate
    → falls_below (delta 1 10 baseline candidate) allowed ≡ false
unfolding falls_below delta signed
no_quality_loss baseline candidate allowed better = ground arith

signed-exceeds : (q allowed : ℕ) → exceeds (signed false q) allowed ≡ false
unfolding exceeds signed
signed-exceeds zero allowed = ground arith
signed-exceeds (suc q) allowed = refl

-- A metric that has not grown has not regressed, whatever its gate.
pub no_metric_loss :
    (baseline candidate : ℕ) (allowed : Option ℕ)
    → candidate ≤ baseline
    → has_regressed baseline candidate (percent_delta baseline candidate) allowed ≡ false
unfolding has_regressed percent_delta delta signed exceeds
no_metric_loss baseline candidate none better = refl
no_metric_loss zero candidate (some allowed) better = ground arith
no_metric_loss (suc b) candidate (some allowed) better =
    let some_baseline : (suc b == 0) ≡ false = ground arith in
    elim (Bool-cases (leb (suc b) candidate)) [
      | inl same ↦
          let none_more : (candidate - suc b) * 100000 ≡ 0 = ground arith in
          rw (some_baseline, has_regressed, percent_delta, delta, same, none_more, round_div_zero b)
            (ground arith)
      | inr less ↦
          rw (some_baseline, has_regressed, percent_delta, delta, less)
            (signed-exceeds (round_div ((suc b - candidate) * 100000) (suc b)) allowed)
    ]
