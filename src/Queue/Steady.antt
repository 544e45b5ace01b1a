-- ===== src/Queue/Steady.antt =====
-- What the steps of the workers leave alone.
use indian_sim_sms_gateway.Prelude.{ℕ, ◌≡◌, refl, Option, none, some, List, [], ◌∷◌, arith, ⊤}
use indian_sim_sms_gateway.Message.{QueuedMessage, queued, processing}
use indian_sim_sms_gateway.Queue.State.{
  Phase, created, polling, consuming, falling_back, backing_off, requeueing, capturing,
  MessageQueue,
}
use indian_sim_sms_gateway.Queue.Step.{
  Outcome, returned, raised, Step?, put_item, take_head, requeue, wake_up, on_captured,
}
use indian_sim_sms_gateway.Queue.Run.{
  Move, begins, get_times_out, takes, wakes, puts, answers, move, move_at, advance,
}
use indian_sim_sms_gateway.Queue.Frame.{
  finish-Keeps, try_consumer-Dispatches, on_consumer-Dispatches, on_fallback-Dispatches,
}

-- A worker's step changes neither the limit, nor the count of what was enqueued, nor whether the queue
-- runs or is being stopped.
abbrev pub Steady : MessageQueue → Step? → Type 0
Steady q none = ⊤
Steady q (some (q', fx)) =
    (q'.max_size ≡ q.max_size)
    × (q'.total_enqueued ≡ q.total_enqueued)
    × (q'.running ≡ q.running)
    × (q'.stopping ≡ q.stopping)

take_head-Steady :
    (items : List QueuedMessage) (q : MessageQueue) (w : ℕ) → Steady q (take_head items q w)
unfolding take_head
take_head-Steady [] q w = tt
take_head-Steady (m ∷ rest) q w =
    let q' = record q { items = rest } in
    let (kept, no_put, no_take) =
      try_consumer-Dispatches q' w (record m { status = processing }) 0 in
    (kept.max_size, kept.total_enqueued, kept.running, kept.stopping)

requeue-Steady : (q : MessageQueue) (w : ℕ) (m : QueuedMessage) → Steady q (requeue q w m)
unfolding requeue
requeue-Steady q w m = ground (arith, finish-Keeps (put_item m q) w)

wake_up-Steady : (q : MessageQueue) (w : ℕ) (m : QueuedMessage) → Steady q (wake_up q w m)
unfolding wake_up
wake_up-Steady q w m = ground (arith, requeue-Steady q w (record m { status = queued }))

on_captured-Steady :
    (q : MessageQueue) (w : ℕ) (m : QueuedMessage) (o : Outcome) → Steady q (on_captured q w m o)
unfolding on_captured
on_captured-Steady q w m (returned b) = ground (arith, finish-Keeps q w)
on_captured-Steady q w m (raised e) = (refl, refl, refl, refl)

move-Steady : (p : Phase) (mv : Move) (q : MessageQueue) (w : ℕ) → Steady q (move p mv q w)
unfolding move
move-Steady created begins q w = (refl, refl, refl, refl)
move-Steady polling get_times_out q w = (refl, refl, refl, refl)
move-Steady polling takes q w = take_head-Steady q.items q w
move-Steady (consuming m i) (answers o) q w = ground (arith, on_consumer-Dispatches q w m i o)
move-Steady (falling_back m) (answers o) q w = ground (arith, on_fallback-Dispatches q w m o)
move-Steady (backing_off m s) wakes q w = wake_up-Steady q w m
move-Steady (requeueing m) puts q w = requeue-Steady q w m
move-Steady (capturing m) (answers o) q w = on_captured-Steady q w m o
move-Steady _ _ q w = tt

pub move_at-Steady :
    (o : Option Phase) (mv : Move) (q : MessageQueue) (w : ℕ) → Steady q (move_at o mv q w)
move_at-Steady none mv q w = tt
move_at-Steady (some p) mv q w = move-Steady p mv q w

pub advance-Steady : (s : Step?) (q : MessageQueue) → Steady q s → Steady q (some (advance s q))
advance-Steady none q h = (refl, refl, refl, refl)
advance-Steady (some s) q h = h
