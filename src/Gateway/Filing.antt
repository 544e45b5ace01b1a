-- ===== src/Gateway/Filing.antt =====
-- The queue and the Dead Letter Office together: where the dead-lettered messages are.
use indian_sim_sms_gateway.Prelude.{
  ℕ, ◌+◌, ◌≡◌, refl, ap, ◌∙◌, true, false, Bool, Option, none, some, is_some, List, [], ◌∷◌, ◌++◌,
  arith, total, total-append, total-replicate, get_elem?, replicate,
}
use indian_sim_sms_gateway.Prelude.Int.{pos_part}
use indian_sim_sms_gateway.Prelude.Clock.{Time}
use indian_sim_sms_gateway.Message.{QueuedMessage}
use indian_sim_sms_gateway.Queue.State.{
  Phase, created, polling, consuming, falling_back, backing_off, requeueing, capturing,
  MessageQueue,
}
use indian_sim_sms_gateway.Queue.Step.{
  accepted, refused, placed, taken, was_delivered, was_dead_lettered, was_captured,
  was_not_captured, abandoned, Effects, Step?, loop_test, enqueue,
}
use indian_sim_sms_gateway.Queue.Run.{
  start, begin_stop, cancel_all, end_stop, Move, begins, get_times_out, takes, wakes, puts, answers,
  move, Event, enqueues, gives_up, starts, stops, stop_ends, worker, move_at, step, advance,
}
use indian_sim_sms_gateway.Queue.Balance.{dead_lettered_of, step-Counts, advance-Counts}
use indian_sim_sms_gateway.Queue.Captures.{
  on_way_of, on_way, captured_of, cut_off_of, has_office, IsAt, phase-set, Settles, Files-Settles,
  on_consumer-Files, on_fallback-Files, take_head-Files, requeue-Files, wake_up-Files,
  on_captured-Settles,
}
use indian_sim_sms_gateway.DeadLetter.Redis.{RedisClient}
use indian_sim_sms_gateway.DeadLetter.Office.{DeadLetterOffice, capture, file_letter}

move-Settles :
    (p : Phase) (mv : Move) (q : MessageQueue) (w : ℕ)
    → IsAt q w p
    → has_office q ≡ true
    → Settles q (move p mv q w)
unfolding move
move-Settles created begins q w here has =
    (omega (arith, phase-set q w created (loop_test q.running) here, idle q.running), refl)
  where
    idle : (b : Bool) → on_way_of (loop_test b) ≡ 0
    idle true = refl
    idle false = refl
move-Settles polling get_times_out q w here has =
    (ground (arith, phase-set q w polling (loop_test q.running) here), refl)
move-Settles polling takes q w here has =
    Files-Settles q polling (move polling takes q w) refl (take_head-Files q.items q w here has)
move-Settles (consuming m i) (answers o) q w here has =
    Files-Settles q (consuming m i) (move (consuming m i) (answers o) q w) refl
      (on_consumer-Files q w (consuming m i) m i o here has)
move-Settles (falling_back m) (answers o) q w here has =
    Files-Settles q (falling_back m) (move (falling_back m) (answers o) q w) refl
      (on_fallback-Files q w (falling_back m) m o here has)
move-Settles (backing_off m s) wakes q w here has =
    Files-Settles q (backing_off m s) (move (backing_off m s) wakes q w) refl
      (wake_up-Files q w (backing_off m s) m here)
move-Settles (requeueing m) puts q w here has =
    Files-Settles q (requeueing m) (move (requeueing m) puts q w) refl
      (requeue-Files q w (requeueing m) m here)
move-Settles (capturing m) (answers o) q w here has = on_captured-Settles q w m o here
move-Settles _ _ q w here has = tt

move_at-Settles :
    (o : Option Phase) (mv : Move) (q : MessageQueue) (w : ℕ)
    → get_elem? q.workers w ≡ o
    → has_office q ≡ true
    → Settles q (move_at o mv q w)
move_at-Settles none mv q w here has = tt
move_at-Settles (some p) mv q w here has = move-Settles p mv q w here has

cancel_all-cut_off :
    (ps : List Phase)
    → (total cut_off_of (cancel_all ps) ≡ total on_way_of ps)
      × (total captured_of (cancel_all ps) ≡ 0)
      × (total dead_lettered_of (cancel_all ps) ≡ 0)
unfolding cancel_all
cancel_all-cut_off [] = (refl, refl, refl)
cancel_all-cut_off (p ∷ ps) = ground (arith, cancel_all-cut_off ps)

step-Settles : (e : Event) (q : MessageQueue) → has_office q ≡ true → Settles q (step e q)
unfolding step start begin_stop end_stop enqueue
step-Settles (enqueues m) q has = ground arith
step-Settles (gives_up m) q has = (omega arith, refl)
step-Settles starts q has = ground (
  arith,
  total-append on_way_of q.workers (replicate (pos_part q.concurrency) created),
  total-replicate on_way_of (pos_part q.concurrency) created refl,
)
step-Settles stops q has = (omega arith, refl)
step-Settles stop_ends q has = ground (arith, cancel_all-cut_off q.workers)
step-Settles (worker w mv) q has = move_at-Settles (get_elem? q.workers w) mv q w refl has

advance-Settles : (s : Step?) (q : MessageQueue) → Settles q s → Settles q (some (advance s q))
advance-Settles none q h = (omega arith, refl)
advance-Settles (some s) q h = h

module _ (c : RedisClient) where
  -- The office takes each message that a step hands over, at the time of the step.
  unfoldable pub take_in : Effects → Time → DeadLetterOffice c → DeadLetterOffice c
  take_in [] now o = o
  take_in (was_captured m ∷ fx) now o = take_in fx now (capture c m now o)
  take_in (_ ∷ fx) now o = take_in fx now o

  -- An interleaving of the queue's steps, each at its time, with the office beside it.
  unfoldable pub run_filed :
      List (Event × Time)
      → MessageQueue
      → DeadLetterOffice c
      → MessageQueue × Effects × DeadLetterOffice c
  unfolding take_in
  run_filed [] q o = (q, [], o)
  run_filed ((e, now) ∷ es) q o =
      let (q', fx) = advance (step e q) q in
      let (q'', fx', o') = run_filed es q' (take_in fx now o) in (q'', fx ++ fx', o')

  -- What the queue counts as dead-lettered, the office has counted as captured, or a worker is
  -- taking there, or its worker was cut off on the way.
  abbrev pub IsSettled : ℕ → MessageQueue → DeadLetterOffice c → Type 0
  IsSettled cut_off q o = q.total_dead_lettered ≡ o.total_captured + on_way q + cut_off

  captures_one :
      (m : QueuedMessage) (now : Time) (o : DeadLetterOffice c)
      → (capture c m now o).total_captured ≡ o.total_captured + 1
  unfolding capture file_letter
  captures_one m now o = ground arith

  take_in-total_captured :
      (fx : Effects) (now : Time) (o : DeadLetterOffice c)
      → (take_in fx now o).total_captured ≡ o.total_captured + total captured_of fx
  unfolding take_in
  take_in-total_captured [] now o = omega arith
  take_in-total_captured (was_captured m ∷ fx) now o =
      omega (arith, take_in-total_captured fx now (capture c m now o), captures_one m now o)
  take_in-total_captured (accepted m ∷ fx) now o = omega (arith, take_in-total_captured fx now o)
  take_in-total_captured (refused m ∷ fx) now o = omega (arith, take_in-total_captured fx now o)
  take_in-total_captured (placed m ∷ fx) now o = omega (arith, take_in-total_captured fx now o)
  take_in-total_captured (taken m ∷ fx) now o = omega (arith, take_in-total_captured fx now o)
  take_in-total_captured (was_delivered m ∷ fx) now o =
      omega (arith, take_in-total_captured fx now o)
  take_in-total_captured (was_dead_lettered m ∷ fx) now o =
      omega (arith, take_in-total_captured fx now o)
  take_in-total_captured (was_not_captured m ∷ fx) now o =
      omega (arith, take_in-total_captured fx now o)
  take_in-total_captured (abandoned m ∷ fx) now o = omega (arith, take_in-total_captured fx now o)

  -- Whatever the consumers answer, and whatever Redis does: if the queue has the office's callback
  -- and every message that it counts as dead-lettered is counted by the office as captured, or is
  -- on its way there, or lost its worker on the way, then the same holds after every interleaving
  -- of the queue's steps in which the office takes what the workers hand over. The messages lost on
  -- the way are exactly those whose capture raised or whose worker was cancelled at it.
  pub run_filed-IsSettled :
      (es : List (Event × Time)) (q : MessageQueue) (o : DeadLetterOffice c) (cut_off : ℕ)
      → has_office q ≡ true
      → IsSettled cut_off q o
      → let (q', fx, o') = run_filed es q o in IsSettled (cut_off + total cut_off_of fx) q' o'
  unfolding run_filed
  run_filed-IsSettled [] q o cut_off has b = omega (arith, b)
  run_filed-IsSettled ((e, now) ∷ es) q o cut_off has b =
      let (q', fx) = advance (step e q) q in
      let (balance, same) = advance-Settles (step e q) q (step-Settles e q has) in
      let o' = take_in fx now o in
      let counts = advance-Counts (step e q) q (step-Counts e q) in
      let filed = take_in-total_captured fx now o in
      let b' : IsSettled (cut_off + total cut_off_of fx) q' o' =
        omega (arith, b, balance, filed, counts.dead_lettered) in
      omega (
        arith,
        run_filed-IsSettled es q' o' (cut_off + total cut_off_of fx) (ap is_some same ∙ has) b',
        total-append cut_off_of fx (run_filed es q' o').1,
      )
