-- ===== src/Queue/Dispatch.antt =====
-- The steps of a worker between two awaits, put together again: the loop over the consumers.
use indian_sim_sms_gateway.Prelude.{
  ℕ, zero, suc, ◌+◌, ◌≤◌, ◌<◌, ◌≡◌, refl, ◌∙◌, ap, true, false, Bool, none, some, ◌==◌, List, [],
  ◌∷◌, ◌++◌, arith, length, get_elem?, get_elem?-set, set-set, get_elem?-inside, get_elem?-outside,
  Bool-cases, inl, inr, if◌then◌else◌,
}
use indian_sim_sms_gateway.Message.{QueuedMessage}
use indian_sim_sms_gateway.Queue.State.{Phase, crashed, consuming, MessageQueue}
use indian_sim_sms_gateway.Queue.Step.{
  Outcome, returned, raised, Effects, at_phase, loop_test, finish, deliver, dead_letter,
  handle_failure, try_fallback, try_consumer, on_consumer,
}
use indian_sim_sms_gateway.Queue.Run.{Event, worker, answers, move, move_at, step, run}
use mathlib.Core.List.{append-nil}

abbrev pub succeeds : Outcome → Bool
succeeds (returned b) = b
succeeds (raised e) = false

-- `message.last_error = str(e)`
abbrev pub noted : Outcome → QueuedMessage → QueuedMessage
noted (returned b) m = m
noted (raised e) m = record m { last_error = e }

module _ (w : ℕ) (answer : ℕ → Outcome) where
  -- The consumers' answers, from the k-th on.
  pub answers_from : ℕ → ℕ → List Event
  answers_from k zero = []
  answers_from k (suc left) = worker w (answers (answer k)) ∷ answers_from (k + 1) left

  -- The loop over the consumers as it is written, with what follows it, from the k-th consumer on.
  unfoldable pub dispatched : ℕ → ℕ → MessageQueue → QueuedMessage → MessageQueue × Effects
  dispatched k zero q m = try_fallback q w m
  dispatched k (suc left) q m =
      let rest = dispatched (k + 1) left q (noted (answer k) m) in
      if succeeds (answer k) then deliver q w m else rest

  deliver-at_phase :
      (q : MessageQueue) (p : Phase) (m : QueuedMessage)
      → deliver (at_phase q w p) w m ≡ deliver q w m
  unfolding deliver finish
  deliver-at_phase q p m = simp set-set refl

  try_fallback-at_phase :
      (q : MessageQueue) (p : Phase) (m : QueuedMessage)
      → try_fallback (at_phase q w p) w m ≡ try_fallback q w m
  unfolding try_fallback handle_failure dead_letter finish
  try_fallback-at_phase q p m = simp set-set refl

  dispatched-at_phase :
      (k left : ℕ) (q : MessageQueue) (p : Phase) (m : QueuedMessage)
      → dispatched k left (at_phase q w p) m ≡ dispatched k left q m
  unfolding dispatched
  dispatched-at_phase k zero q p m = try_fallback-at_phase q p m
  dispatched-at_phase k (suc left) q p m =
      rw (deliver-at_phase q p m, dispatched-at_phase (k + 1) left q p (noted (answer k) m)) refl

  -- A worker that has delivered its message hears no more answers.
  abbrev pub IsDone : MessageQueue → Type 0
  IsDone q =
      (q' : MessageQueue) (k : ℕ) → move_at (get_elem? q.workers w) (answers (answer k)) q' w ≡ none

  finish-phase :
      (q : MessageQueue) (p : Phase)
      → get_elem? q.workers w ≡ some p
      → get_elem? (finish q w).workers w
        ≡ some (if q.unfinished == 0 then crashed else loop_test q.running)
  unfolding finish
  finish-phase q p here = ground (
    arith,
    get_elem?-set q.workers w p crashed here,
    get_elem?-set q.workers w p (loop_test q.running) here,
  )

  idle :
      (b running : Bool) (o : Outcome) (q : MessageQueue)
      → move (if b then crashed else loop_test running) (answers o) q w ≡ none
  unfolding move
  idle true running o q = refl
  idle false true o q = refl
  idle false false o q = refl

  pub deliver-IsDone :
      (q : MessageQueue) (p : Phase) (m : QueuedMessage)
      → get_elem? q.workers w ≡ some p
      → IsDone (deliver q w m).0
  unfolding deliver
  deliver-IsDone q p m here q' k =
      let q1 = record q { total_delivered = q.total_delivered + 1 } in
      rw (finish-phase q1 p here) (idle (q.unfinished == 0) q.running (answer k) q')

  pub run-IsDone :
      (k left : ℕ) (q : MessageQueue) → IsDone q → run (answers_from k left) q ≡ (q, [])
  unfolding run step answers_from
  run-IsDone k zero q d = refl
  run-IsDone k (suc left) q d = rw (d q k) (run-IsDone (k + 1) left q d)

  -- What is left of a run after its first step.
  then_run : List Event → MessageQueue × Effects → MessageQueue × Effects
  then_run es (q, fx) = let (q', fx') = run es q in (q', fx ++ fx')

  then_run-nil : (s : MessageQueue × Effects) → then_run [] s ≡ s
  unfolding then_run run
  then_run-nil (q, fx) = ap (λ l. (q, l)) (append-nil fx)

  first_step :
      (k left : ℕ) (q : MessageQueue) (m : QueuedMessage)
      → get_elem? q.workers w ≡ some (consuming m k)
      → run (answers_from k (suc left)) q
        ≡ then_run (answers_from (k + 1) left) (on_consumer q w m k (answer k))
  unfolding run step move then_run answers_from
  first_step k left q m here = rw here refl

  on_consumer-succeeds :
      (q : MessageQueue) (m : QueuedMessage) (k : ℕ) (o : Outcome)
      → succeeds o ≡ true
      → on_consumer q w m k o ≡ deliver q w m
  unfolding on_consumer
  on_consumer-succeeds q m k (returned true) e = refl
  on_consumer-succeeds q m k (returned false) e = cc
  on_consumer-succeeds q m k (raised t) e = cc

  on_consumer-fails :
      (q : MessageQueue) (m : QueuedMessage) (k : ℕ) (o : Outcome)
      → succeeds o ≡ false
      → on_consumer q w m k o ≡ try_consumer q w (noted o m) (k + 1)
  unfolding on_consumer
  on_consumer-fails q m k (returned true) e = cc
  on_consumer-fails q m k (returned false) e = refl
  on_consumer-fails q m k (raised t) e = refl

  then_run-deliver :
      (k left : ℕ) (q : MessageQueue) (p : Phase) (m : QueuedMessage)
      → get_elem? q.workers w ≡ some p
      → then_run (answers_from k left) (deliver q w m) ≡ deliver q w m
  unfolding then_run
  then_run-deliver k left q p m here =
      ap (λ r. (r.0, (deliver q w m).1 ++ r.1))
        (run-IsDone k left (deliver q w m).0 (deliver-IsDone q p m here))
      ∙ ap (λ l. ((deliver q w m).0, l)) (append-nil (deliver q w m).1)

  one_step :
      (left k : ℕ) (q : MessageQueue) (m : QueuedMessage)
      → get_elem? q.workers w ≡ some (consuming m k)
      → then_run (answers_from (k + 1) left) (try_consumer q w (noted (answer k) m) (k + 1))
        ≡ dispatched (k + 1) left q (noted (answer k) m)
      → run (answers_from k (suc left)) q ≡ dispatched k (suc left) q m
  unfolding dispatched
  one_step left k q m here rest =
      let es = answers_from (k + 1) left in
      elim (Bool-cases (succeeds (answer k))) [
        | inl e ↦ rw e (
            first_step k left q m here
            ∙ ap (then_run es) (on_consumer-succeeds q m k (answer k) e)
            ∙ then_run-deliver (k + 1) left q (consuming m k) m here)
        | inr e ↦ rw e (
            first_step k left q m here
            ∙ ap (then_run es) (on_consumer-fails q m k (answer k) e)
            ∙ rest)
      ]

  no_more_consumers :
      (q : MessageQueue) (m : QueuedMessage) (i : ℕ)
      → length q.consumers ≤ i
      → try_consumer q w m i ≡ try_fallback q w m
  unfolding try_consumer
  no_more_consumers q m i h = rw (get_elem?-outside q.consumers i h) refl

  next_consumer :
      (q : MessageQueue) (m : QueuedMessage) (i : ℕ)
      → i < length q.consumers
      → try_consumer q w m i ≡ (at_phase q w (consuming m i), [])
  unfolding try_consumer
  next_consumer q m i h = rw (get_elem?-inside q.consumers i h) refl

  -- The steps of a worker that awaits the k-th consumer, fed with the answers of this one and
  -- all the later ones in turn, are the loop over the consumers as it is written: the first
  -- one that succeeds ends it with a delivery, whatever the others would answer, and if none
  -- does, the fallback is tried, with the last error noted.
  pub run-dispatched :
      (left k : ℕ) (q : MessageQueue) (m : QueuedMessage)
      → get_elem? q.workers w ≡ some (consuming m k)
      → k + suc left ≡ length q.consumers
      → run (answers_from k (suc left)) q ≡ dispatched k (suc left) q m
  unfolding dispatched answers_from then_run
  run-dispatched zero k q m here count = one_step zero k q m here (
      ap (then_run []) (no_more_consumers q (noted (answer k) m) (k + 1) (omega arith))
      ∙ then_run-nil (try_fallback q w (noted (answer k) m)))
  run-dispatched (suc left) k q m here count =
      let m' = noted (answer k) m in
      let q' = at_phase q w (consuming m' (k + 1)) in
      one_step (suc left) k q m here (
        ap (then_run (answers_from (k + 1) (suc left))) (next_consumer q m' (k + 1) (omega arith))
        ∙ run-dispatched left (k + 1) q' m'
            (get_elem?-set q.workers w (consuming m k) (consuming m' (k + 1)) here) (omega arith)
        ∙ dispatched-at_phase (k + 1) (suc left) q (consuming m' (k + 1)) m')
