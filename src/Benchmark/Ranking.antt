-- ===== src/Benchmark/Ranking.antt =====
-- What the printed results say of the errors and of the latencies.
use indian_sim_sms_gateway.Prelude.{
  ℕ, ◌≡◌, refl, true, Bool-cases, inl, inr, some, is_some, is_empty, arith, total,
}
use indian_sim_sms_gateway.Prelude.Sorting.{
  IsSorted, IsConnex, IsTransitive, sorted-IsSorted, total-sorted,
}
use indian_sim_sms_gateway.Benchmark.Result.{BenchmarkResult, percentile}
use indian_sim_sms_gateway.Benchmark.Rank.{percentile-IsNth}
use indian_sim_sms_gateway.Benchmark.Accounting.{all_errors}
use indian_sim_sms_gateway.Benchmark.Report.{more_frequent, ranked_errors, figures}

connex : IsConnex more_frequent
connex e f h = ground arith

trans : IsTransitive more_frequent
trans d e f h k = ground arith

-- The breakdown of the errors lists the more frequent ones first, and its counts add up to all the
-- errors that were counted.
pub ranked_errors-IsSorted :
    (r : BenchmarkResult)
    → IsSorted more_frequent (ranked_errors r)
      × (total (λ e. e.1) (ranked_errors r) ≡ all_errors r.errors)
ranked_errors-IsSorted r = (
  sorted-IsSorted more_frequent connex trans r.errors,
  total-sorted more_frequent (λ e. e.1) r.errors,
)

percentile_exists : (p : ℕ) (r : BenchmarkResult) → (v : ℕ) × (percentile p r ≡ some v)
unfolding percentile
percentile_exists p r = elim (Bool-cases (is_empty r.latencies_ms)) [
  | inl e ↦ (0, rw e refl)
  | inr e ↦ let (v, ev, nth) = percentile-IsNth p r e in (v, ev)
]

-- Printing the results finds every figure, whatever was measured, also if nothing was: no percentile
-- reads past the end of the latencies.
pub figures-is_some : (r : BenchmarkResult) → is_some (figures r) ≡ true
unfolding figures
figures-is_some r =
    rw ((percentile_exists 50 r).1, (percentile_exists 95 r).1, (percentile_exists 99 r).1) refl
