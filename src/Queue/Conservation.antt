-- ===== src/Queue/Conservation.antt =====
-- No step of the queue makes a message up or loses one.
use indian_sim_sms_gateway.Prelude.{
  ℕ, ◌+◌, ◌≡◌, Option, none, some, List, [], ◌∷◌, arith, total, get_elem?, replicate, refl,
  total-append, total-replicate,
}
use indian_sim_sms_gateway.Prelude.Int.{pos_part}
use indian_sim_sms_gateway.Prelude.Text.{Text}
use indian_sim_sms_gateway.Queue.State.{
  Phase, created, polling, consuming, falling_back, backing_off, requeueing, capturing,
  MessageQueue,
}
use indian_sim_sms_gateway.Queue.Step.{loop_test, Step?}
use indian_sim_sms_gateway.Queue.Flow.{
  IsAt, phase-set, Flows, weigh_phase, load, inflow, outflow, on_consumer-Moves, on_fallback-Moves,
  take_head-Flows, requeue-Flows, wake_up-Flows, on_captured-Flows, enqueue-Flows, inflow_of,
  outflow_of,
}
use indian_sim_sms_gateway.Queue.Run.{
  start, begin_stop, cancel_all, end_stop, Move, begins, get_times_out, takes, wakes, puts, answers,
  move, Event, enqueues, gives_up, starts, stops, stop_ends, worker, move_at, step, advance, run,
}

module _ (weight : Text → ℕ) where
  outflow-cancel_all :
      (ps : List Phase)
      → (outflow weight (cancel_all ps) ≡ total (weigh_phase weight) ps)
        × (inflow weight (cancel_all ps) ≡ 0)
  unfolding cancel_all
  outflow-cancel_all [] = (refl, refl)
  outflow-cancel_all (p ∷ ps) = ground (arith, outflow-cancel_all ps)

  end_stop-Flows : (q : MessageQueue) → Flows weight q (end_stop q)
  unfolding end_stop
  end_stop-Flows q = ground (arith, outflow-cancel_all q.workers)

  move-Flows :
      (p : Phase) (mv : Move) (q : MessageQueue) (w : ℕ)
      → IsAt weight q w p
      → Flows weight q (move p mv q w)
  unfolding move
  move-Flows created begins q w here =
      ground (arith, phase-set weight q w created (loop_test q.running) here)
  move-Flows polling get_times_out q w here =
      ground (arith, phase-set weight q w polling (loop_test q.running) here)
  move-Flows polling takes q w here = take_head-Flows weight q.items q w refl here
  move-Flows (consuming m i) (answers o) q w here =
      omega (arith, on_consumer-Moves weight q w (consuming m i) m i o here)
  move-Flows (falling_back m) (answers o) q w here =
      omega (arith, on_fallback-Moves weight q w (falling_back m) m o here)
  move-Flows (backing_off m s) wakes q w here =
      wake_up-Flows weight q w (backing_off m s) m here refl
  move-Flows (requeueing m) puts q w here = requeue-Flows weight q w (requeueing m) m here refl
  move-Flows (capturing m) (answers o) q w here = on_captured-Flows weight q w m o here
  move-Flows _ _ q w here = tt

  start-Flows : (q : MessageQueue) → Flows weight q (some ((start q).0, []))
  unfolding start
  start-Flows q = ground (
    arith,
    total-append (weigh_phase weight) q.workers (replicate (pos_part q.concurrency) created),
    total-replicate (weigh_phase weight) (pos_part q.concurrency) created refl,
  )

  move_at-Flows :
      (o : Option Phase) (mv : Move) (q : MessageQueue) (w : ℕ)
      → get_elem? q.workers w ≡ o
      → Flows weight q (move_at o mv q w)
  move_at-Flows none mv q w here = tt
  move_at-Flows (some p) mv q w here = move-Flows p mv q w here

  step-Flows : (e : Event) (q : MessageQueue) → Flows weight q (step e q)
  unfolding step begin_stop
  step-Flows (enqueues m) q = enqueue-Flows weight m q
  step-Flows (gives_up m) q = omega arith
  step-Flows starts q = start-Flows q
  step-Flows stops q = omega arith
  step-Flows stop_ends q = end_stop-Flows q
  step-Flows (worker w mv) q = move_at-Flows (get_elem? q.workers w) mv q w refl

  advance-Flows :
      (s : Step?) (q : MessageQueue)
      → Flows weight q s
      → inflow weight (advance s q).1 + load weight q
        ≡ load weight (advance s q).0 + outflow weight (advance s q).1
  advance-Flows none q h = omega arith
  advance-Flows (some s) q h = h

  -- Over every interleaving of producers, workers, start and stop, and for every weight of the
  -- ids: what was accepted and what was held before weigh as much as what is held afterwards, in
  -- the queue or by a worker, with what was delivered, dead-lettered, or abandoned by a cancelled
  -- worker. With the weight 1 at one id and 0 elsewhere this counts that id's messages.
  pub run-conserves :
      (es : List Event) (q : MessageQueue)
      → let (q', fx) = run es q in
        inflow weight fx + load weight q ≡ load weight q' + outflow weight fx
  unfolding run
  run-conserves [] q = omega arith
  run-conserves (e ∷ es) q =
      let (q', fx) = advance (step e q) q in
      let fx' = (run es q').1 in
      omega (
        arith,
        advance-Flows (step e q) q (step-Flows e q),
        run-conserves es q',
        total-append (inflow_of weight) fx fx',
        total-append (outflow_of weight) fx fx',
      )
