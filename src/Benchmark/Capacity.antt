-- ===== src/Benchmark/Capacity.antt =====
-- The queue of a simulated benchmark has a slot for every message.
use indian_sim_sms_gateway.Prelude.{
  ℕ, suc, ◌+◌, ◌-◌, ◌≤◌, ◌<◌, ◌≡◌, refl, subst, ◌∙◌, ap, false, some, List, [], ◌∷◌, arith, length,
  length-append, total, get_elem?, total-replicate,
}
use indian_sim_sms_gateway.Prelude.Int.{ℤ, pos, pos_part}
use indian_sim_sms_gateway.Prelude.Clock.{Time}
use indian_sim_sms_gateway.Message.{QueuedMessage}
use indian_sim_sms_gateway.Queue.State.{created, MessageQueue, full, init, register_consumer}
use indian_sim_sms_gateway.Queue.Step.{placed, accepted, put_item, enqueue}
use indian_sim_sms_gateway.Queue.Run.{
  start, run, Event, enqueues, Move, worker, move_at, step, advance,
}
use indian_sim_sms_gateway.Queue.Flow.{weigh, weigh_phase}
use indian_sim_sms_gateway.Queue.Balance.{one, IsBalanced, lost, run-IsBalanced}
use indian_sim_sms_gateway.Benchmark.Result.{BenchmarkResult, new_result}
use indian_sim_sms_gateway.Benchmark.Simulation.{
  Producer, Simulation, sms_of, note_outcome, produce_one, Turn, produces, works, turn, turns,
  simulated_queue, run_simulation,
}
use indian_sim_sms_gateway.Queue.Steady.{move_at-Steady, advance-Steady}

-- The state after some producers, all of which succeeded: the queue balances, and their number
-- and the limit are known.
pub record Served (limit n : ℕ) (s : Simulation) : Type 0 where
  pub balanced : (g : ℕ) × IsBalanced g s.0
  pub max_size : s.0.max_size ≡ pos limit
  pub enqueued : s.0.total_enqueued ≡ n
  pub successful : s.1.successful ≡ n
  pub failed : s.1.failed ≡ 0
  pub latencies : length s.1.latencies_ms ≡ n
  pub errors : s.1.errors ≡ []

abbrev pub producers : List Turn → ℕ
producers [] = 0
producers (produces p ∷ ts) = suc (producers ts)
producers (works w mv ∷ ts) = producers ts

step-IsBalanced :
    (e : Event) (q : MessageQueue) (g : ℕ)
    → IsBalanced g q
    → (g' : ℕ) × IsBalanced g' (advance (step e q) q).0
unfolding run
step-IsBalanced e q g b = (g + lost (run (e ∷ []) q).1, run-IsBalanced (e ∷ []) q g b)

works-Served :
    (limit n w : ℕ) (mv : Move) (s : Simulation)
    → Served limit n s
    → Served limit n (turn (works w mv) s)
unfolding turn step
works-Served limit n w mv (q, r) h =
    let s = move_at (get_elem? q.workers w) mv q w in
    let (same_size, same_count, same_running, same_stopping) =
      advance-Steady s q (move_at-Steady (get_elem? q.workers w) mv q w) in
    record {
      balanced = step-IsBalanced (worker w mv) q h.balanced.0 h.balanced.1;
      max_size = same_size ∙ h.max_size;
      enqueued = same_count ∙ h.enqueued;
      successful = h.successful;
      failed = h.failed;
      latencies = h.latencies;
      errors = h.errors;
    }

weigh-one : (ms : List QueuedMessage) → total (weigh one) ms ≡ length ms
weigh-one [] = refl
weigh-one (m ∷ ms) = omega (arith, weigh-one ms)

has_room :
    (limit n g : ℕ) (q : MessageQueue)
    → n < limit
    → q.max_size ≡ pos limit
    → q.total_enqueued ≡ n
    → IsBalanced g q
    → full q ≡ false
has_room limit n g q room e c b = rw e (ground (arith, weigh-one q.items, b))

enqueue-has_room :
    (m : QueuedMessage) (q : MessageQueue)
    → full q ≡ false
    → enqueue m q
      ≡ some (
        record (put_item m q) { total_enqueued = q.total_enqueued + 1 },
        placed m ∷ accepted m ∷ [],
      )
unfolding enqueue
enqueue-has_room m q e = rw e refl

produce-Served :
    (limit n : ℕ) (p : Producer) (s : Simulation)
    → n < limit
    → Served limit n s
    → Served limit (suc n) (produce_one p s)
unfolding produce_one note_outcome step
produce-Served limit n p (q, r) room h =
    let m = sms_of p in
    let free = has_room limit n h.balanced.0 q room h.max_size h.enqueued h.balanced.1 in
    let b = step-IsBalanced (enqueues m) q h.balanced.0 h.balanced.1 in
    let taken = enqueue-has_room m q free in
    rw taken (record {
      balanced = rw taken at b;
      max_size = h.max_size;
      enqueued = omega (arith, h.enqueued);
      successful = omega (arith, h.successful);
      failed = h.failed;
      latencies =
          omega (arith, h.latencies, length-append r.latencies_ms ((p.finish - p.start) ∷ []));
      errors = h.errors;
    })

turns-Served :
    (ts : List Turn) (limit n : ℕ) (s : Simulation)
    → n + producers ts ≤ limit
    → Served limit n s
    → Served limit (n + producers ts) (turns ts s)
unfolding turns turn
turns-Served [] limit n s fits h = subst (λ k. Served limit k s) (omega arith) h
turns-Served (produces p ∷ ts) limit n s fits h =
    let e : suc n + producers ts ≡ n + suc (producers ts) = omega arith in
    let now = produce-Served limit n p s (omega (arith, fits)) h in
    subst (λ k. Served limit k (turns ts (produce_one p s))) e
      (turns-Served ts limit (suc n) (produce_one p s) (omega (arith, fits)) now)
turns-Served (works w mv ∷ ts) limit n s fits h =
    turns-Served ts limit n (turn (works w mv) s) fits (works-Served limit n w mv s h)

simulated-Served :
    (count : ℕ) (concurrency : ℤ) (r : BenchmarkResult)
    → r.successful ≡ 0
    → r.failed ≡ 0
    → r.latencies_ms ≡ []
    → r.errors ≡ []
    → Served (count + 100) 0 (simulated_queue (pos count) concurrency, r)
unfolding simulated_queue init register_consumer start
simulated-Served count concurrency r s f l e = record {
  balanced = (
    0,
    (omega (arith, total-replicate (weigh_phase one) (pos_part concurrency) created refl), refl),
  );
  max_size = ground arith;
  enqueued = refl;
  successful = s;
  failed = f;
  latencies = ap length l;
  errors = e;
}

-- A simulated benchmark of `count` messages never waits for a slot, in whatever order its producers
-- and the queue's workers make their steps: with `count` producers every one of them succeeds, none
-- fails, there is a latency for each, and the breakdown of the errors is empty, whatever the mock
-- consumer answers.
pub run_simulation_succeeds :
    (count : ℕ) (concurrency : ℤ) (started ended : Time) (schedule : List Turn)
    → producers schedule ≡ count
    → let r = (run_simulation (pos count) concurrency started ended schedule).1 in
      (r.successful ≡ count) × (r.failed ≡ 0) × (length r.latencies_ms ≡ count) × (r.errors ≡ [])
unfolding run_simulation
run_simulation_succeeds count concurrency started ended schedule same =
    let r0 = record (new_result (pos count)) { start_time = started } in
    let h =
      turns-Served schedule (count + 100) 0 (simulated_queue (pos count) concurrency, r0)
        (omega (arith, same)) (simulated-Served count concurrency r0 refl refl refl refl) in
    (omega (arith, h.successful, same), h.failed, omega (arith, h.latencies, same), h.errors)
