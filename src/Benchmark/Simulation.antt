-- ===== src/Benchmark/Simulation.antt =====
-- scripts/benchmark.py: the benchmark of an in-memory queue. The producers and the queue's workers
-- run in the same event loop; a schedule is the order in which their steps are made.
use indian_sim_sms_gateway.Prelude.{ℕ, ◌-◌, ◌+◌, true, false, List, [], ◌∷◌, ◌++◌}
use indian_sim_sms_gateway.Prelude.Int.{ℤ, minus, negsuc}
use indian_sim_sms_gateway.Prelude.Text.{str}
use indian_sim_sms_gateway.Prelude.Clock.{Time}
use indian_sim_sms_gateway.Message.{QueuedMessage, new_message}
use indian_sim_sms_gateway.Queue.State.{MessageQueue, init, register_consumer}
use indian_sim_sms_gateway.Queue.Step.{Outcome, returned, raised}
use indian_sim_sms_gateway.Queue.Run.{start, begin_stop, Move, worker, step, advance}
use indian_sim_sms_gateway.Gateway.Endpoints.{enqueue_now}
use indian_sim_sms_gateway.Benchmark.Result.{BenchmarkResult, new_result, count_error}
use indian_sim_sms_gateway.Benchmark.Payload.{Draws, generate_sms_payload}

-- One producer: its index, what it draws, and the readings of the clocks.
pub record Producer : Type 0 where
  pub index : ℕ
  pub draws : Draws
  pub created : Time
  pub start : Time
  pub finish : Time

abbrev pub sms_of : Producer → QueuedMessage
sms_of p =
    let payload = generate_sms_payload p.index p.draws in
    new_message payload.sms_id payload.sender payload.body payload.timestamp payload.node_id
      p.created

-- What `enqueue` answered: an exception leaves no latency.
unfoldable pub note_outcome : Outcome → Time → BenchmarkResult → BenchmarkResult
note_outcome (returned true) latency r = record r {
  latencies_ms = r.latencies_ms ++ (latency ∷ []);
  successful = r.successful + 1;
}
note_outcome (returned false) latency r = record r {
  latencies_ms = r.latencies_ms ++ (latency ∷ []);
  failed = r.failed + 1;
}
note_outcome (raised e) latency r = record r {
  failed = r.failed + 1;
  errors = count_error e r.errors;
}

abbrev pub Simulation : Type 0
Simulation = MessageQueue × BenchmarkResult

-- The producer's wait for a slot is over.
unfoldable pub produce_one : Producer → Simulation → Simulation
unfolding note_outcome
produce_one p (q, r) =
    let (success, q') = enqueue_now (sms_of p) q in
    (q', note_outcome (returned success) (p.finish - p.start) r)

-- The next step: a producer's, or one of a worker of the queue. What the mock consumer answers is in
-- the moves.
pub data Turn : Type 0 where
  produces : Producer → Turn
  works : ℕ → Move → Turn

unfoldable pub turn : Turn → Simulation → Simulation
unfolding produce_one
turn (produces p) s = produce_one p s
turn (works w mv) (q, r) = ((advance (step (worker w mv) q) q).0, r)

unfoldable pub turns : List Turn → Simulation → Simulation
unfolding turn
turns [] s = s
turns (t ∷ ts) s = turns ts (turn t s)

-- `MessageQueue(max_size=count + 100, concurrency=concurrency)`, with the mock consumer, started.
unfoldable pub simulated_queue : ℤ → ℤ → MessageQueue
simulated_queue count concurrency =
    let q = init (minus count (negsuc 99)) concurrency in
    (start (register_consumer (str "mock_consumer") q)).0

-- What `stop` does after the result is complete is left to the workers' later steps.
unfoldable pub run_simulation : ℤ → ℤ → Time → Time → List Turn → Simulation
unfolding turns simulated_queue
run_simulation count concurrency started ended schedule =
    let r0 = record (new_result count) { start_time = started } in
    let (q, r) = turns schedule (simulated_queue count concurrency, r0) in
    (begin_stop q, record r { end_time = ended })
