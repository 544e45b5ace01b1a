-- ===== src/Queue/Flow.antt =====
-- The weight that a worker's step takes in, holds and lets out: lemmas for Conservation.
use indian_sim_sms_gateway.Prelude.{
  ℕ, ◌+◌, ◌≡◌, none, some, true, false, List, [], ◌∷◌, arith, total, get_elem?, set, ⊤, ap, refl,
  total-append, total-set,
}
use indian_sim_sms_gateway.Prelude.Text.{Text}
use indian_sim_sms_gateway.Message.{QueuedMessage, queued, processing, dead_lettered}
use indian_sim_sms_gateway.Queue.State.{
  Phase, created, polling, exited, crashed, consuming, falling_back, backing_off, requeueing,
  capturing, MessageQueue,
}
use indian_sim_sms_gateway.Queue.Step.{
  Outcome, returned, raised, Effect, accepted, was_delivered, was_dead_lettered, abandoned, Effects,
  loop_test, finish, deliver, dead_letter, backoff, handle_failure, try_fallback, try_consumer,
  on_consumer, on_fallback, enqueue, take_head, requeue, wake_up, on_captured, Step?, put_item,
}

-- A weight for each id: what holds for every choice of it holds of the messages one by one.
module _ (weight : Text → ℕ) where
  abbrev pub weigh : QueuedMessage → ℕ
  weigh m = weight m.sms_id

  -- The message in a worker's hands. One that is on its way to the Dead Letter Office is counted
  -- as dead-lettered already.
  abbrev pub weigh_phase : Phase → ℕ
  weigh_phase created = 0
  weigh_phase polling = 0
  weigh_phase exited = 0
  weigh_phase crashed = 0
  weigh_phase (consuming m i) = weigh m
  weigh_phase (falling_back m) = weigh m
  weigh_phase (backing_off m s) = weigh m
  weigh_phase (requeueing m) = weigh m
  weigh_phase (capturing m) = 0

  abbrev pub load : MessageQueue → ℕ
  load q = total weigh q.items + total weigh_phase q.workers

  abbrev pub inflow_of : Effect → ℕ
  inflow_of (accepted m) = weigh m
  inflow_of e = 0

  abbrev pub outflow_of : Effect → ℕ
  outflow_of (was_delivered m) = weigh m
  outflow_of (was_dead_lettered m) = weigh m
  outflow_of (abandoned m) = weigh m
  outflow_of e = 0

  abbrev pub inflow : Effects → ℕ
  inflow = total inflow_of

  abbrev pub outflow : Effects → ℕ
  outflow = total outflow_of

  abbrev pub IsAt : MessageQueue → ℕ → Phase → Type 0
  IsAt q w p = get_elem? q.workers w ≡ some p

  pub phase-set :
      (q : MessageQueue) (w : ℕ) (p new : Phase)
      → IsAt q w p
      → total weigh_phase (set q.workers w new) + weigh_phase p
        ≡ total weigh_phase q.workers + weigh_phase new
  phase-set q w p new here = total-set weigh_phase q.workers w p new here

  -- What a worker's step does: the message that it holds goes on, or flows out.
  abbrev pub Moves : MessageQueue → Phase → QueuedMessage → MessageQueue × Effects → Type 0
  Moves q p m (q', fx) = (load q' + outflow fx + weigh_phase p ≡ load q + weigh m) × (inflow fx ≡ 0)

  finish-load :
      (q : MessageQueue) (w : ℕ) (p : Phase)
      → IsAt q w p
      → load (finish q w) + weigh_phase p ≡ load q
  unfolding finish
  finish-load q w p here =
      ground (arith, phase-set q w p crashed here, phase-set q w p (loop_test q.running) here)

  pub deliver-Moves :
      (q : MessageQueue) (w : ℕ) (p : Phase) (m : QueuedMessage)
      → IsAt q w p
      → Moves q p m (deliver q w m)
  unfolding deliver
  deliver-Moves q w p m here =
      let e = finish-load (record q { total_delivered = q.total_delivered + 1 }) w p here in
      (omega (arith, e), refl)

  pub dead_letter-Moves :
      (q : MessageQueue) (w : ℕ) (p : Phase) (m : QueuedMessage)
      → IsAt q w p
      → Moves q p m (dead_letter q w m)
  unfolding dead_letter
  dead_letter-Moves q w p m here =
      let q' = record q {
        total_dead_lettered = q.total_dead_lettered + 1;
        total_failed = q.total_failed + 1;
      } in
      ground (
        arith,
        finish-load q' w p here,
        phase-set q' w p (capturing (record m { status = dead_lettered })) here,
      )

  pub handle_failure-Moves :
      (q : MessageQueue) (w : ℕ) (p : Phase) (m : QueuedMessage)
      → IsAt q w p
      → Moves q p m (handle_failure q w m)
  unfolding handle_failure
  handle_failure-Moves q w p m here =
      let m' = record m { retry_count = m.retry_count + 1 } in
      ground
        (arith, dead_letter-Moves q w p m' here, phase-set q w p (backing_off m' (backoff m')) here)

  pub try_fallback-Moves :
      (q : MessageQueue) (w : ℕ) (p : Phase) (m : QueuedMessage)
      → IsAt q w p
      → Moves q p m (try_fallback q w m)
  unfolding try_fallback
  try_fallback-Moves q w p m here =
      ground (arith, handle_failure-Moves q w p m here, phase-set q w p (falling_back m) here)

  pub try_consumer-Moves :
      (q : MessageQueue) (w : ℕ) (p : Phase) (m : QueuedMessage) (i : ℕ)
      → IsAt q w p
      → Moves q p m (try_consumer q w m i)
  unfolding try_consumer
  try_consumer-Moves q w p m i here =
      ground (arith, try_fallback-Moves q w p m here, phase-set q w p (consuming m i) here)

  pub on_consumer-Moves :
      (q : MessageQueue) (w : ℕ) (p : Phase) (m : QueuedMessage) (i : ℕ) (o : Outcome)
      → IsAt q w p
      → Moves q p m (on_consumer q w m i o)
  unfolding on_consumer
  on_consumer-Moves q w p m i (returned true) here = deliver-Moves q w p m here
  on_consumer-Moves q w p m i (returned false) here = try_consumer-Moves q w p m (i + 1) here
  on_consumer-Moves q w p m i (raised e) here =
      try_consumer-Moves q w p (record m { last_error = e }) (i + 1) here

  pub on_fallback-Moves :
      (q : MessageQueue) (w : ℕ) (p : Phase) (m : QueuedMessage) (o : Outcome)
      → IsAt q w p
      → Moves q p m (on_fallback q w m o)
  unfolding on_fallback
  on_fallback-Moves q w p m (returned true) here = deliver-Moves q w p m here
  on_fallback-Moves q w p m (returned false) here = handle_failure-Moves q w p m here
  on_fallback-Moves q w p m (raised e) here =
      handle_failure-Moves q w p (record m { last_error = e }) here

  -- What a whole step does, if it is possible.
  abbrev pub Flows : MessageQueue → Step? → Type 0
  Flows q none = ⊤
  Flows q (some (q', fx)) = inflow fx + load q ≡ load q' + outflow fx

  pub take_head-Flows :
      (items : List QueuedMessage) (q : MessageQueue) (w : ℕ)
      → q.items ≡ items
      → IsAt q w polling
      → Flows q (take_head items q w)
  unfolding take_head
  take_head-Flows [] q w e here = tt
  take_head-Flows (m ∷ rest) q w e here =
      let q' = record q { items = rest } in
      let moved = try_consumer-Moves q' w polling (record m { status = processing }) 0 here in
      omega (arith, moved, ap (total weigh) e)

  pub requeue-Flows :
      (q : MessageQueue) (w : ℕ) (p : Phase) (m : QueuedMessage)
      → IsAt q w p
      → weigh_phase p ≡ weigh m
      → Flows q (requeue q w m)
  unfolding requeue
  requeue-Flows q w p m here e =
      ground (arith, finish-load (put_item m q) w p here, total-append weigh q.items (m ∷ []))

  pub wake_up-Flows :
      (q : MessageQueue) (w : ℕ) (p : Phase) (m : QueuedMessage)
      → IsAt q w p
      → weigh_phase p ≡ weigh m
      → Flows q (wake_up q w m)
  unfolding wake_up
  wake_up-Flows q w p m here e =
      let m' = record m { status = queued } in
      ground (arith, requeue-Flows q w p m' here e, phase-set q w p (requeueing m') here)

  pub on_captured-Flows :
      (q : MessageQueue) (w : ℕ) (m : QueuedMessage) (o : Outcome)
      → IsAt q w (capturing m)
      → Flows q (on_captured q w m o)
  unfolding on_captured
  on_captured-Flows q w m (returned b) here = omega (arith, finish-load q w (capturing m) here)
  on_captured-Flows q w m (raised e) here = omega (arith, phase-set q w (capturing m) crashed here)

  pub enqueue-Flows : (m : QueuedMessage) (q : MessageQueue) → Flows q (enqueue m q)
  unfolding enqueue
  enqueue-Flows m q = ground (arith, total-append weigh q.items (m ∷ []))
