-- ===== src/Queue/Spending.antt =====
-- Every step of a worker uses up energy: lemmas for Termination.
use indian_sim_sms_gateway.Prelude.{
  ℕ, ◌+◌, ◌-◌, ◌≤◌, ◌<◌, ◌≡◌, refl, true, false, none, some, List, [], ◌∷◌, arith, length,
  get_elem?-outside, total, total-append, ⊤, ap, Bool-cases, inl, inr, leb,
}
use indian_sim_sms_gateway.Message.{QueuedMessage, queued, processing}
use indian_sim_sms_gateway.Queue.State.{
  Phase, created, polling, crashed, consuming, falling_back, backing_off, requeueing, capturing,
  MessageQueue,
}
use indian_sim_sms_gateway.Queue.Step.{
  Outcome, returned, raised, Step?, loop_test, try_consumer, on_consumer, on_fallback, put_item,
  take_head, requeue, wake_up, on_captured,
}
use indian_sim_sms_gateway.Queue.Run.{
  Move, begins, get_times_out, takes, wakes, puts, answers, move,
}
use indian_sim_sms_gateway.Queue.Frame.{
  finish-Keeps, try_consumer-Dispatches, on_consumer-Dispatches, on_fallback-Dispatches,
}
use indian_sim_sms_gateway.Queue.Energy.{
  later, item_energy, phase_energy, energy_of, IsAt, Adds, phase-set, finish-Adds, deliver-Adds,
  handle_failure-Adds, try_fallback-Adds, try_consumer-Adds,
}

-- A get that times out only begins the loop again; every other step works on.
abbrev pub works : Move → ℕ
works get_times_out = 0
works mv = 1

abbrev pub energy : MessageQueue → ℕ
energy q = energy_of (length q.consumers) q

-- A step uses up what it counts.
abbrev pub Spends : Move → MessageQueue → Step? → Type 0
Spends mv q none = ⊤
Spends mv q (some (q', fx)) =
    (energy_of (length q.consumers) q' + works mv ≤ energy q) × (q'.consumers ≡ q.consumers)

module _ (w : ℕ) (q : MessageQueue) where
  abbrev n : ℕ
  n = length q.consumers

  -- The next consumer, or what comes after the last one.
  next-Adds :
      (m m' : QueuedMessage) (i : ℕ)
      → IsAt n q w (consuming m i)
      → later n m' ≡ later n m
      → Adds n q (consuming m i) (later n m + (n - i) + 3) (try_consumer q w m' (i + 1)).0
  unfolding try_consumer
  next-Adds m m' i here e = elim (Bool-cases (leb n (i + 1))) [
    | inl last ↦
        let past = get_elem?-outside q.consumers (i + 1) (ground arith) in
        rw past (omega (arith, e, try_fallback-Adds n q w (consuming m i) m' here))
    | inr more ↦
        omega (arith, e, try_consumer-Adds n q w (consuming m i) m' (i + 1) here, inside more)
  ]
    where
      inside : leb n (i + 1) ≡ false → i + 1 < n
      inside h = ground arith

  on_consumer-Adds :
      (m : QueuedMessage) (i : ℕ) (o : Outcome)
      → IsAt n q w (consuming m i)
      → Adds n q (consuming m i) (later n m + (n - i) + 3) (on_consumer q w m i o).0
  unfolding on_consumer later
  on_consumer-Adds m i (returned true) here =
      omega (arith, deliver-Adds n q w (consuming m i) m here)
  on_consumer-Adds m i (returned false) here = next-Adds m m i here refl
  on_consumer-Adds m i (raised e) here = next-Adds m (record m { last_error = e }) i here refl

  on_fallback-Adds :
      (m : QueuedMessage) (o : Outcome)
      → IsAt n q w (falling_back m)
      → Adds n q (falling_back m) (later n m + 2) (on_fallback q w m o).0
  unfolding on_fallback later
  on_fallback-Adds m (returned true) here =
      omega (arith, deliver-Adds n q w (falling_back m) m here)
  on_fallback-Adds m (returned false) here = handle_failure-Adds n q w (falling_back m) m here
  on_fallback-Adds m (raised e) here =
      handle_failure-Adds n q w (falling_back m) (record m { last_error = e }) here

take_head-Spends :
    (items : List QueuedMessage) (q : MessageQueue) (w : ℕ)
    → q.items ≡ items
    → IsAt (length q.consumers) q w polling
    → Spends takes q (take_head items q w)
unfolding take_head later
take_head-Spends [] q w e here = tt
take_head-Spends (m ∷ rest) q w e here =
    let n = length q.consumers in
    let q' = record q { items = rest } in
    let m' = record m { status = processing } in
    (
      omega (arith, ap (total (item_energy n)) e, try_consumer-Adds n q' w polling m' 0 here),
      (try_consumer-Dispatches q' w m' 0).0.consumers,
    )

requeue-Spends :
    (q : MessageQueue) (w : ℕ) (p : Phase) (m : QueuedMessage)
    → IsAt (length q.consumers) q w p
    → item_energy (length q.consumers) m < phase_energy (length q.consumers) p
    → Spends puts q (requeue q w m)
unfolding requeue
requeue-Spends q w p m here less =
    let n = length q.consumers in
    ground (
      arith,
      finish-Adds n (put_item m q) w p here,
      finish-Keeps (put_item m q) w,
      total-append (item_energy n) q.items (m ∷ []),
    )

wake_up-Spends :
    (q : MessageQueue) (w s : ℕ) (m : QueuedMessage)
    → IsAt (length q.consumers) q w (backing_off m s)
    → Spends wakes q (wake_up q w m)
unfolding wake_up later
wake_up-Spends q w s m here =
    let n = length q.consumers in
    let m' = record m { status = queued } in
    ground (
      arith,
      requeue-Spends q w (backing_off m s) m' here (omega arith),
      phase-set n q w (backing_off m s) (requeueing m') here,
    )

on_captured-Spends :
    (q : MessageQueue) (w : ℕ) (m : QueuedMessage) (o : Outcome)
    → IsAt (length q.consumers) q w (capturing m)
    → Spends (answers o) q (on_captured q w m o)
unfolding on_captured
on_captured-Spends q w m (returned b) here =
    ground (arith, finish-Adds (length q.consumers) q w (capturing m) here, finish-Keeps q w)
on_captured-Spends q w m (raised e) here =
    ground (arith, phase-set (length q.consumers) q w (capturing m) crashed here)

pub move-Spends :
    (p : Phase) (mv : Move) (q : MessageQueue) (w : ℕ)
    → IsAt (length q.consumers) q w p
    → Spends mv q (move p mv q w)
unfolding move
move-Spends created begins q w here =
    ground (arith, phase-set (length q.consumers) q w created (loop_test q.running) here)
move-Spends polling get_times_out q w here =
    ground (arith, phase-set (length q.consumers) q w polling (loop_test q.running) here)
move-Spends polling takes q w here = take_head-Spends q.items q w refl here
move-Spends (consuming m i) (answers o) q w here =
    (omega (arith, on_consumer-Adds w q m i o here), (on_consumer-Dispatches q w m i o).0.consumers)
move-Spends (falling_back m) (answers o) q w here =
    (omega (arith, on_fallback-Adds w q m o here), (on_fallback-Dispatches q w m o).0.consumers)
move-Spends (backing_off m s) wakes q w here = wake_up-Spends q w s m here
move-Spends (requeueing m) puts q w here = requeue-Spends q w (requeueing m) m here (omega arith)
move-Spends (capturing m) (answers o) q w here = on_captured-Spends q w m o here
move-Spends _ _ q w here = tt
