-- ===== src/Benchmark/Export.antt =====
-- scripts/benchmark.py: the exported results, and which benchmark is run. The rounding of floats is
-- given.
use indian_sim_sms_gateway.Prelude.{ℕ, Bool, false, ◌||◌, not, List, [], ◌∷◌, map, if◌then◌else◌}
use indian_sim_sms_gateway.Prelude.Int.{ℤ, pos}
use indian_sim_sms_gateway.Prelude.Text.{Text, str}
use indian_sim_sms_gateway.Prelude.Json.{Json, string, number, json_dict}
use indian_sim_sms_gateway.Prelude.Clock.{Time}
use indian_sim_sms_gateway.Benchmark.Result.{BenchmarkResult, Ratio, throughput, error_rate}
use indian_sim_sms_gateway.Benchmark.Report.{Figures, milliseconds, milliseconds_of, seconds_of}

abbrev error_counts : List (Text × ℕ) → List (Text × Json)
error_counts errors = map (λ e. (e.0, number (pos e.1))) errors

-- What is written to the output file; the first argument is `round`.
unfoldable pub export : (ℕ → Ratio → Json) → Text → BenchmarkResult → Figures → Json
export rounded mode r f =
    let ms = λ (t : Time). rounded 2 (milliseconds t) in
    json_dict (
      (str "mode", string mode)
      ∷ (str "total_messages", number r.total_messages)
      ∷ (str "successful", number (pos r.successful))
      ∷ (str "failed", number (pos r.failed))
      ∷ (str "error_rate_percent", rounded 2 (error_rate r))
      ∷ (str "duration_seconds", rounded 3 (seconds_of r))
      ∷ (str "throughput_msg_per_sec", rounded 1 (throughput r))
      ∷ (
        str "latency_ms",
        json_dict (
            (str "min", ms f.least)
            ∷ (str "p50", ms f.median)
            ∷ (str "p95", ms f.high)
            ∷ (str "p99", ms f.higher)
            ∷ (str "max", ms f.greatest)
            ∷ (str "avg", rounded 2 (milliseconds_of f.average))
            ∷ []),
      )
      ∷ (str "errors", json_dict (error_counts r.errors))
      ∷ [])

-- The options of the command line, and their defaults.
pub record Options : Type 0 where
  pub simulate : Bool
  pub live : Bool
  pub target : Text
  pub count : ℤ
  pub concurrency : ℤ
  pub output : Text

abbrev pub default_options : Options
default_options = record {
  simulate = false;
  live = false;
  target = str "http://localhost:8000";
  count = pos 1000;
  concurrency = pos 50;
  output = [];
}

-- Which benchmark `main` runs; without httpx the live one ends the process with the code 1.
pub data Choice : Type 0 where
  simulation live_benchmark : Choice
  exit_code : ℕ → Choice

unfoldable pub choose : Bool → Options → Choice
choose has_httpx o =
    if o.simulate || not o.live
    then simulation
    else if has_httpx
    then live_benchmark
    else exit_code 1
