-- ===== src/Tests/Benchmark.antt =====
-- scripts/benchmark.py: the theorems at small benchmarks.
use mathlib.Core.List.Perm
use indian_sim_sms_gateway.Prelude.{ℕ, ◌+◌, ◌≡◌, refl, false, some, List, [], ◌∷◌, length}
use indian_sim_sms_gateway.Prelude.Int.{pos}
use indian_sim_sms_gateway.Prelude.Text.{Text, str}
use indian_sim_sms_gateway.Prelude.Clock.{Time}
use indian_sim_sms_gateway.Queue.Step.{returned}
use indian_sim_sms_gateway.Queue.Run.{begins, takes, answers}
use indian_sim_sms_gateway.Benchmark.Result.{BenchmarkResult, new_result, get_count, percentile}
use indian_sim_sms_gateway.Benchmark.Rank.{IsPercentile, percentile-IsPercentile}
use indian_sim_sms_gateway.Benchmark.Live.{Exchange, status, exception, run_live}
use indian_sim_sms_gateway.Benchmark.Accounting.{
  all_errors, tally, has_error, run_live_accounts, run_live_unordered,
}
use indian_sim_sms_gateway.Benchmark.Payload.{Draws}
use indian_sim_sms_gateway.Benchmark.Simulation.{Producer, Turn, produces, works, run_simulation}
use indian_sim_sms_gateway.Benchmark.Capacity.{run_simulation_succeeds}

abbrev measured : BenchmarkResult
measured = record (new_result (pos 4)) { latencies_ms = 70 ∷ 10 ∷ 40 ∷ 10 ∷ [] }

percentile-IsPercentile_example :
    (v : Time) × (percentile 95 measured ≡ some v) × IsPercentile 95 (70 ∷ 10 ∷ 40 ∷ 10 ∷ []) v
percentile-IsPercentile_example = percentile-IsPercentile 95 measured refl

abbrev accepted : Exchange
accepted = record { answer = status 200; start = 5; finish = 9 }

abbrev refused : Exchange
refused = record { answer = status 429; start = 6; finish = 7 }

abbrev timed_out : Exchange
timed_out = record { answer = exception (str "ReadTimeout"); start = 7; finish = 90 }

abbrev exchanges : List Exchange
exchanges = accepted ∷ refused ∷ timed_out ∷ []

run_live_accounts_example :
    let r = run_live (pos 3) 1 100 exchanges in
    (r.successful + r.failed ≡ 3)
    × (length r.latencies_ms ≡ 3)
    × (all_errors r.errors ≡ r.failed)
    × ((e : Text) → get_count e r.errors ≡ tally (has_error e) exchanges)
run_live_accounts_example = run_live_accounts (pos 3) 1 100 exchanges refl

run_live_unordered_example :
    let r = run_live (pos 2) 1 100 (accepted ∷ refused ∷ []) in
    let s = run_live (pos 2) 1 100 (refused ∷ accepted ∷ []) in
    (r.successful ≡ s.successful)
    × (r.failed ≡ s.failed)
    × ((e : Text) → get_count e r.errors ≡ get_count e s.errors)
    × ((p : ℕ) → percentile p r ≡ percentile p s)
run_live_unordered_example =
    run_live_unordered (pos 2) 1 100 (accepted ∷ refused ∷ []) (refused ∷ accepted ∷ [])
      (Perm.swap refused accepted [])

abbrev draws : Draws
draws = record {
  sender_digits = str "9876543210";
  otp = str "123456";
  template = str "Your Google verification code is {otp}";
  node = 2;
  priority = str "high";
  stamp = str "2025-01-01 00:00:00";
}

abbrev producer : ℕ → Producer
producer i = record { index = i; draws = draws; created = 7; start = 5; finish = 8 }

-- The mock consumer fails once in between.
abbrev schedule : List Turn
schedule =
    produces (producer 0)
    ∷ works 0 begins
    ∷ works 0 takes
    ∷ works 0 (answers (returned false))
    ∷ produces (producer 1)
    ∷ []

run_simulation_succeeds_example :
    let r = (run_simulation (pos 2) (pos 1) 0 9 schedule).1 in
    (r.successful ≡ 2) × (r.failed ≡ 0) × (length r.latencies_ms ≡ 2) × (r.errors ≡ [])
run_simulation_succeeds_example = run_simulation_succeeds 2 (pos 1) 0 9 schedule refl
