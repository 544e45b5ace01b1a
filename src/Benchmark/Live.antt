-- ===== src/Benchmark/Live.antt =====
-- scripts/benchmark.py: the benchmark of a live server. A request and its answer are one exchange;
-- `asyncio.as_completed` may end the exchanges in any order, and the list has them in that one.
use indian_sim_sms_gateway.Prelude.{ℕ, ◌-◌, ◌+◌, List, [], ◌∷◌, ◌++◌, ◌==◌, if◌then◌else◌}
use indian_sim_sms_gateway.Prelude.Int.{ℤ}
use indian_sim_sms_gateway.Prelude.Text.{Text, str, show_nat}
use indian_sim_sms_gateway.Prelude.Clock.{Time}
use indian_sim_sms_gateway.Benchmark.Result.{BenchmarkResult, new_result, count_error}

-- The response's status code, or the name of the exception's type.
pub data Answer : Type 0 where
  status : ℕ → Answer
  exception : Text → Answer

-- The answer with the readings of the clock before the request and after it.
pub record Exchange : Type 0 where
  pub answer : Answer
  pub start : Time
  pub finish : Time

abbrev pub http_error : ℕ → Text
http_error n = str "HTTP_" ++ show_nat n

abbrev fail_with : Text → BenchmarkResult → BenchmarkResult
fail_with e r = record r { failed = r.failed + 1; errors = count_error e r.errors }

unfoldable pub settle : Answer → BenchmarkResult → BenchmarkResult
settle (status n) r =
    if n == 200 then record r { successful = r.successful + 1 } else fail_with (http_error n) r
settle (exception e) r = fail_with e r

abbrev pub latency : Exchange → Time
latency x = x.finish - x.start

-- Both ways out of the `try` append the latency.
unfoldable pub send_one : Exchange → BenchmarkResult → BenchmarkResult
unfolding settle
send_one x r = settle x.answer (record r { latencies_ms = r.latencies_ms ++ (latency x ∷ []) })

unfoldable pub send_all : List Exchange → BenchmarkResult → BenchmarkResult
unfolding send_one
send_all [] r = r
send_all (x ∷ xs) r = send_all xs (send_one x r)

-- The exchanges are those of the `count` tasks, in the order in which they end.
unfoldable pub run_live : ℤ → Time → Time → List Exchange → BenchmarkResult
unfolding send_all
run_live count started ended xs =
    record (send_all xs (record (new_result count) { start_time = started })) { end_time = ended }
