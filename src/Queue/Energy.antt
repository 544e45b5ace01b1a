-- ===== src/Queue/Energy.antt =====
-- How many steps the workers can make of the messages that they have: each step uses some up.
use indian_sim_sms_gateway.Prelude.{
  ℕ, zero, suc, ◌+◌, ◌-◌, ◌≤◌, ◌≡◌, max, true, some, arith, get_elem?, set, total, total-set, ap,
  Bool-cases, inl, inr,
}
use indian_sim_sms_gateway.Prelude.Int.{pos_part}
use indian_sim_sms_gateway.Message.{QueuedMessage, dead_lettered, is_retriable}
use indian_sim_sms_gateway.Queue.State.{
  Phase, created, polling, exited, crashed, consuming, falling_back, backing_off, requeueing,
  capturing, MessageQueue,
}
use indian_sim_sms_gateway.Queue.Step.{
  loop_test, finish, deliver, dead_letter, backoff, handle_failure, try_fallback, try_consumer,
}

-- The rounds that a message has left.
abbrev pub rounds_left : QueuedMessage → ℕ
rounds_left m = max 1 (pos_part m.max_retries - m.retry_count)

-- A round with n consumers takes fewer steps than this.
abbrev pub per_round : ℕ → ℕ
per_round n = n + 5

-- The steps of some rounds.
rounds_energy : ℕ → ℕ → ℕ
rounds_energy n zero = 0
rounds_energy n (suc k) = rounds_energy n k + per_round n

-- The steps of the rounds after this one.
unfoldable pub later : ℕ → QueuedMessage → ℕ
unfolding rounds_energy
later n m = rounds_energy n (rounds_left m - 1)

abbrev pub item_energy : ℕ → QueuedMessage → ℕ
item_energy n m = later n m + per_round n

abbrev pub phase_energy : ℕ → Phase → ℕ
phase_energy n created = 1
phase_energy n polling = 0
phase_energy n exited = 0
phase_energy n crashed = 0
phase_energy n (consuming m i) = later n m + (n - i) + 4
phase_energy n (falling_back m) = later n m + 3
phase_energy n (backing_off m s) = item_energy n m + 2
phase_energy n (requeueing m) = item_energy n m + 1
phase_energy n (capturing m) = 1

abbrev pub energy_of : ℕ → MessageQueue → ℕ
energy_of n q = total (item_energy n) q.items + total (phase_energy n) q.workers

later-retry :
    (n : ℕ) (m : QueuedMessage)
    → let m' = record m { retry_count = m.retry_count + 1 } in
      is_retriable m' ≡ true → item_energy n m' ≡ later n m
unfolding later
later-retry n m h =
    let m' = record m { retry_count = m.retry_count + 1 } in
    let one_less : suc (rounds_left m' - 1) ≡ rounds_left m - 1 = ground arith in
    ap (rounds_energy n) one_less

module _ (n : ℕ) where
  abbrev pub IsAt : MessageQueue → ℕ → Phase → Type 0
  IsAt q w p = get_elem? q.workers w ≡ some p

  -- After a worker's step from the phase p there is this much more energy than without its phase.
  abbrev pub Adds : MessageQueue → Phase → ℕ → MessageQueue → Type 0
  Adds q p bound q' = energy_of n q' + phase_energy n p ≤ energy_of n q + bound

  pub phase-set :
      (q : MessageQueue) (w : ℕ) (p new : Phase)
      → IsAt q w p
      → total (phase_energy n) (set q.workers w new) + phase_energy n p
        ≡ total (phase_energy n) q.workers + phase_energy n new
  phase-set q w p new here = total-set (phase_energy n) q.workers w p new here

  pub finish-Adds : (q : MessageQueue) (w : ℕ) (p : Phase) → IsAt q w p → Adds q p 0 (finish q w)
  unfolding finish
  finish-Adds q w p here =
      ground (arith, phase-set q w p crashed here, phase-set q w p (loop_test q.running) here)

  pub deliver-Adds :
      (q : MessageQueue) (w : ℕ) (p : Phase) (m : QueuedMessage)
      → IsAt q w p
      → Adds q p 0 (deliver q w m).0
  unfolding deliver
  deliver-Adds q w p m here =
      finish-Adds (record q { total_delivered = q.total_delivered + 1 }) w p here

  dead_letter-Adds :
      (q : MessageQueue) (w : ℕ) (p : Phase) (m : QueuedMessage)
      → IsAt q w p
      → Adds q p 1 (dead_letter q w m).0
  unfolding dead_letter
  dead_letter-Adds q w p m here =
      let q' = record q {
        total_dead_lettered = q.total_dead_lettered + 1;
        total_failed = q.total_failed + 1;
      } in
      ground (
        arith,
        finish-Adds q' w p here,
        phase-set q' w p (capturing (record m { status = dead_lettered })) here,
      )

  pub handle_failure-Adds :
      (q : MessageQueue) (w : ℕ) (p : Phase) (m : QueuedMessage)
      → IsAt q w p
      → Adds q p (later n m + 2) (handle_failure q w m).0
  unfolding handle_failure
  handle_failure-Adds q w p m here =
      let m' = record m { retry_count = m.retry_count + 1 } in
      elim (Bool-cases (is_retriable m')) [
        | inl e ↦
            rw e
              (omega (arith, phase-set q w p (backing_off m' (backoff m')) here, later-retry n m e))
        | inr e ↦ rw e (omega (arith, dead_letter-Adds q w p m' here))
      ]

  pub try_fallback-Adds :
      (q : MessageQueue) (w : ℕ) (p : Phase) (m : QueuedMessage)
      → IsAt q w p
      → Adds q p (later n m + 3) (try_fallback q w m).0
  unfolding try_fallback
  try_fallback-Adds q w p m here =
      ground (arith, handle_failure-Adds q w p m here, phase-set q w p (falling_back m) here)

  pub try_consumer-Adds :
      (q : MessageQueue) (w : ℕ) (p : Phase) (m : QueuedMessage) (i : ℕ)
      → IsAt q w p
      → Adds q p (later n m + (n - i) + 4) (try_consumer q w m i).0
  unfolding try_consumer
  try_consumer-Adds q w p m i here =
      ground (arith, try_fallback-Adds q w p m here, phase-set q w p (consuming m i) here)
