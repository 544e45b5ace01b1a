-- ===== src/Benchmark/Report.antt =====
-- scripts/benchmark.py: what is printed. The formatting of floats is given; colours and column styles
-- of the tables are left out.
use indian_sim_sms_gateway.Prelude.{
  ◌>>=◌, ℕ, ◌*◌, leb, Bool, Option, some, List, [], ◌∷◌, ◌++◌, map, is_empty, if◌then◌else◌,
  replicate,
}
use indian_sim_sms_gateway.Prelude.Int.{pos, scale}
use indian_sim_sms_gateway.Prelude.Text.{Text, str, show_nat, show_int, upper_ascii}
use indian_sim_sms_gateway.Prelude.Clock.{Time, second}
use indian_sim_sms_gateway.Prelude.Sorting.{sorted}
use indian_sim_sms_gateway.Benchmark.Result.{
  BenchmarkResult, Ratio, duration_sec, throughput, error_rate, p50, p95, p99, max_latency,
  min_latency, avg_latency,
}

-- A latency in milliseconds, of which a second has 1000.
abbrev pub milliseconds : Time → Ratio
milliseconds t = record { numerator = pos (t * 1000); denominator = pos second }

abbrev pub milliseconds_of : Ratio → Ratio
milliseconds_of x = record {
  numerator = scale x.numerator 1000;
  denominator = scale x.denominator second;
}

-- The duration, in seconds.
abbrev pub seconds_of : BenchmarkResult → Ratio
seconds_of r = record { numerator = duration_sec r; denominator = pos second }

-- `sorted(errors.items(), key=lambda x: -x[1])`
abbrev pub more_frequent : Text × ℕ → Text × ℕ → Bool
more_frequent e f = leb f.1 e.1

abbrev pub ranked_errors : BenchmarkResult → List (Text × ℕ)
ranked_errors r = sorted more_frequent r.errors

-- The latencies that both outputs show.
pub record Figures : Type 0 where
  pub least : Time
  pub median : Time
  pub high : Time
  pub higher : Time
  pub greatest : Time
  pub average : Ratio

-- `none` is the IndexError of a percentile.
unfoldable pub figures : BenchmarkResult → Option Figures
figures r = do
  median ← p50 r
  high ← p95 r
  higher ← p99 r
  some (record {
    least = min_latency r;
    median = median;
    high = high;
    higher = higher;
    greatest = max_latency r;
    average = avg_latency r;
  })

-- `f"{x:.nf}"`
module _ (fixed : ℕ → Ratio → Text) where
  abbrev ms : Time → Text
  ms t = fixed 2 (milliseconds t)

  -- The rows of the tables that rich prints: the summary, the latencies, and the errors.
  unfoldable pub summary_rows : Text → BenchmarkResult → List (Text × Text)
  summary_rows mode r =
      (str "Mode", upper_ascii mode)
      ∷ (str "Total Messages", show_int r.total_messages)
      ∷ (str "Successful", show_nat r.successful)
      ∷ (str "Failed", show_nat r.failed)
      ∷ (str "Error Rate", fixed 2 (error_rate r) ++ str "%")
      ∷ (str "Duration", fixed 2 (seconds_of r) ++ str "s")
      ∷ (str "Throughput", fixed 1 (throughput r) ++ str " msg/s")
      ∷ []

  unfoldable pub latency_rows : Figures → List (Text × Text)
  latency_rows f =
      (str "Min", ms f.least)
      ∷ (str "P50 (Median)", ms f.median)
      ∷ (str "P95", ms f.high)
      ∷ (str "P99", ms f.higher)
      ∷ (str "Max", ms f.greatest)
      ∷ (str "Average", fixed 2 (milliseconds_of f.average))
      ∷ []

  unfoldable pub error_rows : BenchmarkResult → List (Text × Text)
  error_rows r = map (λ e. (e.0, show_nat e.1)) (ranked_errors r)

  abbrev rule : ℕ → Text
  rule c = replicate 60 c

  -- The lines that are printed without rich.
  abbrev summary_lines : Text → BenchmarkResult → List Text
  summary_lines mode r =
      (str "  Mode:           " ++ upper_ascii mode)
      ∷ (str "  Total Messages: " ++ show_int r.total_messages)
      ∷ (str "  Successful:     " ++ show_nat r.successful)
      ∷ (str "  Failed:         " ++ show_nat r.failed)
      ∷ (str "  Error Rate:     " ++ (fixed 2 (error_rate r) ++ str "%"))
      ∷ (str "  Duration:       " ++ (fixed 2 (seconds_of r) ++ str "s"))
      ∷ (str "  Throughput:     " ++ (fixed 1 (throughput r) ++ str " msg/s"))
      ∷ []

  abbrev latency_lines : Figures → List Text
  latency_lines f =
      str "  Latency Distribution:"
      ∷ (str "    Min:    " ++ (ms f.least ++ str "ms"))
      ∷ (str "    P50:    " ++ (ms f.median ++ str "ms"))
      ∷ (str "    P95:    " ++ (ms f.high ++ str "ms"))
      ∷ (str "    P99:    " ++ (ms f.higher ++ str "ms"))
      ∷ (str "    Max:    " ++ (ms f.greatest ++ str "ms"))
      ∷ (str "    Avg:    " ++ (fixed 2 (milliseconds_of f.average) ++ str "ms"))
      ∷ []

  abbrev error_lines : BenchmarkResult → List Text
  error_lines r =
      if is_empty r.errors
      then []
      else rule b'-'
        ∷ str "  Errors:"
        ∷ map (λ e. str "    " ++ (e.0 ++ (str ": " ++ show_nat e.1))) (ranked_errors r)

  unfoldable pub printed_lines : Text → BenchmarkResult → Figures → List Text
  printed_lines mode r f =
      rule b'='
      ∷ str "  SMS Gateway Benchmark Results"
      ∷ rule b'='
      ∷ (summary_lines mode r
          ++ (rule b'-' ∷ (latency_lines f ++ (error_lines r ++ (rule b'=' ∷ [])))))
