-- ===== src/Benchmark/Result.antt =====
-- scripts/benchmark.py: the class BenchmarkResult. A latency is the difference of two readings of a
-- clock that never goes back, in ticks; a quotient of floats is the pair of its terms.
use indian_sim_sms_gateway.Prelude.{
  ℕ, ◌-◌, ◌*◌, ◌/◌, min, max, leb, some, none, Option, ◌+◌, List, [], ◌∷◌, length, is_empty,
  get_elem?, total, if◌then◌else◌,
}
use indian_sim_sms_gateway.Prelude.Int.{ℤ, pos, leb_ℤ, eq_ℤ}
use indian_sim_sms_gateway.Prelude.Text.{Text}
use indian_sim_sms_gateway.Prelude.Dict.{Dict, lookup, insert}
use indian_sim_sms_gateway.Prelude.Clock.{Time, elapsed, second}
use indian_sim_sms_gateway.Prelude.Sorting.{sorted}

pub record BenchmarkResult : Type 0 where
  pub total_messages : ℤ
  pub successful : ℕ
  pub failed : ℕ
  pub latencies_ms : List Time
  pub start_time : Time
  pub end_time : Time
  pub errors : Dict ℕ

-- `BenchmarkResult(total_messages=count)`
abbrev pub new_result : ℤ → BenchmarkResult
new_result count = record {
  total_messages = count;
  successful = 0;
  failed = 0;
  latencies_ms = [];
  start_time = 0;
  end_time = 0;
  errors = [];
}

-- `d.get(key, 0)`
abbrev pub get_count : Text → Dict ℕ → ℕ
get_count key d = elim (lookup key d) [ none ↦ 0 | some n ↦ n ]

-- `errors[key] = errors.get(key, 0) + 1`
unfoldable pub count_error : Text → Dict ℕ → Dict ℕ
count_error key d = insert key (get_count key d + 1) d

pub record Ratio : Type 0 where
  pub numerator : ℤ
  pub denominator : ℤ

-- `0.0`
abbrev pub no_ratio : Ratio
no_ratio = record { numerator = pos 0; denominator = pos 1 }

abbrev pub duration_sec : BenchmarkResult → ℤ
duration_sec r = elapsed r.end_time r.start_time

unfoldable pub throughput : BenchmarkResult → Ratio
throughput r =
    if leb_ℤ (duration_sec r) (pos 0)
    then no_ratio
    else record { numerator = pos (r.successful * second); denominator = duration_sec r }

unfoldable pub error_rate : BenchmarkResult → Ratio
error_rate r =
    if eq_ℤ r.total_messages (pos 0)
    then no_ratio
    else record { numerator = pos (r.failed * 100); denominator = r.total_messages }

-- The place of the p-th percentile among n sorted values.
unfoldable pub place : ℕ → ℕ → ℕ
place n p = min (n * p / 100) (n - 1)

-- `none` is an IndexError.
unfoldable pub percentile : ℕ → BenchmarkResult → Option Time
percentile p r =
    let sorted_lat = sorted leb r.latencies_ms in
    if is_empty r.latencies_ms then some 0 else get_elem? sorted_lat (place (length sorted_lat) p)

abbrev pub p50 : BenchmarkResult → Option Time
p50 r = percentile 50 r

abbrev pub p95 : BenchmarkResult → Option Time
p95 r = percentile 95 r

abbrev pub p99 : BenchmarkResult → Option Time
p99 r = percentile 99 r

-- The greatest, and the least, of x and the items of a list.
unfoldable pub largest : ℕ → List ℕ → ℕ
largest x [] = x
largest x (y ∷ ys) = largest (max x y) ys

unfoldable pub smallest : ℕ → List ℕ → ℕ
smallest x [] = x
smallest x (y ∷ ys) = smallest (min x y) ys

-- `max(xs) if xs else 0.0`, and the same of `min`.
abbrev pub max_of : List ℕ → ℕ
max_of [] = 0
max_of (x ∷ xs) = largest x xs

abbrev pub min_of : List ℕ → ℕ
min_of [] = 0
min_of (x ∷ xs) = smallest x xs

abbrev pub max_latency : BenchmarkResult → Time
max_latency r = max_of r.latencies_ms

abbrev pub min_latency : BenchmarkResult → Time
min_latency r = min_of r.latencies_ms

unfoldable pub avg_latency : BenchmarkResult → Ratio
avg_latency r = if is_empty r.latencies_ms then no_ratio else record {
  numerator = pos (total (λ x. x) r.latencies_ms);
  denominator = pos (length r.latencies_ms);
}
