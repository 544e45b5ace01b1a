-- ===== src/Queue/Stuck.antt =====
-- The workers' deadlock: all of them wait for a slot in a full queue.
use indian_sim_sms_gateway.Prelude.{
  ℕ, ◌≡◌, refl, ◌≢◌, true, Option, none, some, List, [], ◌∷◌, get_elem?, All, All-get_elem?, ⊤,
}
use indian_sim_sms_gateway.Queue.State.{
  Phase, created, polling, exited, crashed, consuming, falling_back, backing_off, requeueing,
  capturing, MessageQueue, full,
}
use indian_sim_sms_gateway.Queue.Step.{enqueue, requeue}
use indian_sim_sms_gateway.Queue.Run.{
  start, end_stop, Move, begins, get_times_out, takes, wakes, puts, answers, move, Event, enqueues,
  gives_up, starts, stops, stop_ends, worker, move_at, step, advance, run,
}

-- A worker that waits for a free slot, or is gone.
abbrev pub IsBlocked : Phase → Type 0
IsBlocked (requeueing m) = ⊤
IsBlocked exited = ⊤
IsBlocked crashed = ⊤
IsBlocked _ = ⊥

-- The queue is full, and every worker waits to put a retry back into it.
pub record IsStuck (q : MessageQueue) : Type 0 where
  pub is_full : full q ≡ true
  pub blocked : All IsBlocked q.workers
  pub is_running : q.running ≡ true
  pub not_stopping : q.stopping ≡ 0

move-IsBlocked :
    (p : Phase) (mv : Move) (q : MessageQueue) (w : ℕ)
    → IsBlocked p
    → full q ≡ true
    → move p mv q w ≡ none
unfolding move requeue
move-IsBlocked (requeueing m) begins q w b f = refl
move-IsBlocked (requeueing m) get_times_out q w b f = refl
move-IsBlocked (requeueing m) takes q w b f = refl
move-IsBlocked (requeueing m) wakes q w b f = refl
move-IsBlocked (requeueing m) puts q w b f = rw f
move-IsBlocked (requeueing m) (answers o) q w b f = refl
move-IsBlocked exited mv q w b f = refl
move-IsBlocked crashed mv q w b f = refl
move-IsBlocked created mv q w b f = absurd b
move-IsBlocked polling mv q w b f = absurd b
move-IsBlocked (consuming m i) mv q w b f = absurd b
move-IsBlocked (falling_back m) mv q w b f = absurd b
move-IsBlocked (backing_off m s) mv q w b f = absurd b
move-IsBlocked (capturing m) mv q w b f = absurd b

move_at-IsStuck :
    (o : Option Phase) (mv : Move) (q : MessageQueue) (w : ℕ)
    → get_elem? q.workers w ≡ o
    → IsStuck q
    → move_at o mv q w ≡ none
move_at-IsStuck none mv q w here s = refl
move_at-IsStuck (some p) mv q w here s =
    move-IsBlocked p mv q w (All-get_elem? IsBlocked q.workers w s.blocked here) s.is_full

step-IsStuck : (e : Event) (q : MessageQueue) → IsStuck q → e ≢ stops → (advance (step e q) q).0 ≡ q
unfolding step start end_stop enqueue
step-IsStuck (enqueues m) q s n = rw s.is_full
step-IsStuck (gives_up m) q s n = refl
step-IsStuck starts q s n = rw s.is_running
step-IsStuck stops q s n = absurd (n refl)
step-IsStuck stop_ends q s n = rw s.not_stopping
step-IsStuck (worker w mv) q s n = rw (move_at-IsStuck (get_elem? q.workers w) mv q w refl s)

-- Backpressure on the workers themselves is a deadlock: once the queue is full and every worker
-- waits to put a retry back, no interleaving without a `stop` changes anything, so nothing is
-- delivered or dead-lettered any more, whatever the consumers would answer.
pub run-IsStuck :
    (es : List Event) (q : MessageQueue) → IsStuck q → All (λ e. e ≢ stops) es → (run es q).0 ≡ q
unfolding run
run-IsStuck [] q s n = refl
run-IsStuck (e ∷ es) q s n = rw (step-IsStuck e q s n.0) (run-IsStuck es q s n.1)
