-- ===== src/Queue/Drain.antt =====
-- The unfinished tasks, and what can end a worker.
use indian_sim_sms_gateway.Prelude.{
  ℕ, ◌+◌, ◌≤◌, ◌≡◌, refl, Option, none, some, List, [], ◌∷◌, arith, get_elem?, total-append,
  total-replicate, replicate, length-append, set,
}
use indian_sim_sms_gateway.Prelude.Int.{pos_part}
use indian_sim_sms_gateway.Queue.State.{
  Phase, created, polling, consuming, falling_back, backing_off, requeueing, capturing,
  MessageQueue,
}
use indian_sim_sms_gateway.Queue.Step.{Step?, loop_test, enqueue}
use indian_sim_sms_gateway.Queue.Run.{
  start, begin_stop, end_stop, Move, begins, get_times_out, takes, wakes, puts, answers, move,
  Event, enqueues, gives_up, starts, stops, stop_ends, worker, move_at, step, advance, run,
}
use indian_sim_sms_gateway.Queue.Tasks.{
  busy, dead, crashes, not_captured, not_captured_of, IsAccounted, Holds, Ends, Accounts, busy-set,
  on_consumer-Ends, on_fallback-Ends, take_head-Accounts, requeue-Accounts, wake_up-Accounts,
  on_captured-Accounts,
}

module _ (q : MessageQueue) (w : ℕ) (a : IsAccounted q) where
  holds : (p : Phase) → get_elem? q.workers w ≡ some p → dead p ≡ 0 → busy p ≡ 1 → Holds q w p
  holds p here d b = record { here = here; alive = d; counted = omega arith }

  loop_test-Accounts :
      (p : Phase)
      → get_elem? q.workers w ≡ some p
      → Ends q (record q { workers = set q.workers w (loop_test q.running) }, [])
  loop_test-Accounts p here = ground (arith, busy-set q w p (loop_test q.running) here)

  move-Accounts :
      (p : Phase) (mv : Move) → get_elem? q.workers w ≡ some p → Accounts q (move p mv q w)
  unfolding move
  move-Accounts created begins here = loop_test-Accounts created here
  move-Accounts polling get_times_out here = loop_test-Accounts polling here
  move-Accounts polling takes here = take_head-Accounts q.items q w refl here a
  move-Accounts (consuming m i) (answers o) here =
      on_consumer-Ends q w (consuming m i) m i o (holds (consuming m i) here refl refl)
  move-Accounts (falling_back m) (answers o) here =
      on_fallback-Ends q w (falling_back m) m o (holds (falling_back m) here refl refl)
  move-Accounts (backing_off m s) wakes here =
      wake_up-Accounts q w (backing_off m s) m (holds (backing_off m s) here refl refl)
  move-Accounts (requeueing m) puts here =
      requeue-Accounts q w (requeueing m) m (holds (requeueing m) here refl refl)
  move-Accounts (capturing m) (answers o) here =
      on_captured-Accounts q w (capturing m) m o (holds (capturing m) here refl refl)
  move-Accounts _ _ here = tt

move_at-Accounts :
    (o : Option Phase) (mv : Move) (q : MessageQueue) (w : ℕ)
    → get_elem? q.workers w ≡ o
    → IsAccounted q
    → Accounts q (move_at o mv q w)
move_at-Accounts none mv q w here a = tt
move_at-Accounts (some p) mv q w here a = move-Accounts q w a p mv here

step-Accounts : (e : Event) (q : MessageQueue) → IsAccounted q → Accounts q (step e q)
unfolding step start begin_stop end_stop enqueue
step-Accounts (enqueues m) q a = ground (arith, length-append q.items (m ∷ []))
step-Accounts (gives_up m) q a = omega arith
step-Accounts starts q a =
    let n = pos_part q.concurrency in
    ground (
      arith,
      total-append busy q.workers (replicate n created),
      total-append dead q.workers (replicate n created),
      total-replicate busy n created refl,
      total-replicate dead n created refl,
    )
step-Accounts stops q a = omega arith
step-Accounts stop_ends q a = ground arith
step-Accounts (worker w mv) q a = move_at-Accounts (get_elem? q.workers w) mv q w refl a

advance-Accounts :
    (s : Step?) (q : MessageQueue) → IsAccounted q → Accounts q s → Ends q (advance s q)
advance-Accounts none q a h = (a, omega arith)
advance-Accounts (some s) q a h = h

-- From a queue in which each item and each message in a worker's hands is an unfinished task, as a
-- new one, every interleaving keeps that so, and lets no more workers crash than calls of the Dead
-- Letter Office failed or were cancelled: `task_done` itself never raises.
pub run-IsAccounted :
    (es : List Event) (q : MessageQueue)
    → IsAccounted q
    → let (q', fx) = run es q in IsAccounted q' × (crashes q' ≤ crashes q + not_captured fx)
unfolding run
run-IsAccounted [] q a = (a, omega arith)
run-IsAccounted (e ∷ es) q a =
    let (q', fx) = advance (step e q) q in
    let here = advance-Accounts (step e q) q a (step-Accounts e q a) in
    let later = run-IsAccounted es q' here.0 in
    (later.0, omega (arith, here, later, total-append not_captured_of fx (run es q').1))
