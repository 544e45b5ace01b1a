-- ===== src/Gateway/Delivery.antt =====
-- What the queue counts as delivered, the dispatchers count as sent.
use indian_sim_sms_gateway.Prelude.{
  ℕ, ◌+◌, ◌≡◌, refl, sym, Bool, true, false, Option, none, some, List, [], ◌∷◌, arith, total,
  get_elem?, if◌then◌else◌,
}
use indian_sim_sms_gateway.Prelude.Text.{Text}
use indian_sim_sms_gateway.Message.{QueuedMessage, processing}
use indian_sim_sms_gateway.Queue.State.{
  Phase, created, polling, consuming, falling_back, backing_off, requeueing, capturing,
  MessageQueue,
}
use indian_sim_sms_gateway.Queue.Step.{
  Outcome, returned, raised, Effects, Step?, deliver, dead_letter, handle_failure, try_fallback,
  try_consumer, on_consumer, on_fallback, enqueue, take_head, requeue, wake_up, on_captured,
}
use indian_sim_sms_gateway.Queue.Run.{
  end_stop, Move, begins, get_times_out, takes, wakes, puts, answers, move, Event, enqueues,
  gives_up, starts, stops, stop_ends, worker, move_at, step, advance,
}
use indian_sim_sms_gateway.Queue.Balance.{
  delivered_of, step-Counts, advance-Counts, cancel_all-uncounted,
}
use indian_sim_sms_gateway.Queue.Dispatch.{succeeds}
use indian_sim_sms_gateway.Telegram.Dispatcher
use indian_sim_sms_gateway.Telegram.Dispatcher.{Sent}
use indian_sim_sms_gateway.Telegram.Budget.{sent_by}
use indian_sim_sms_gateway.Telegram.Counting
use indian_sim_sms_gateway.Email.Counting as EmailCounting
use indian_sim_sms_gateway.Gateway.Wiring.{
  Dispatchers, World, outcome_of, consult, resolve, run_wired,
}

abbrev one_if : Bool → ℕ
one_if b = if b then 1 else 0

abbrev successes : Phase → Move → ℕ
successes (consuming m i) (answers o) = one_if (succeeds o)
successes (falling_back m) (answers o) = one_if (succeeds o)
successes p mv = 0

-- A step delivers n messages.
abbrev Yields : ℕ → Step? → Type 0
Yields n none = n ≡ 0
Yields n (some (q, fx)) = total delivered_of fx ≡ n

abbrev Fails : MessageQueue × Effects → Type 0
Fails s = total delivered_of s.1 ≡ 0

handle_failure-Fails : (q : MessageQueue) (w : ℕ) (m : QueuedMessage) → Fails (handle_failure q w m)
unfolding handle_failure dead_letter
handle_failure-Fails q w m = ground arith

try_consumer-Fails :
    (q : MessageQueue) (w : ℕ) (m : QueuedMessage) (i : ℕ) → Fails (try_consumer q w m i)
unfolding try_consumer try_fallback
try_consumer-Fails q w m i = ground (arith, handle_failure-Fails q w m)

on_consumer-Yields :
    (q : MessageQueue) (w : ℕ) (m : QueuedMessage) (i : ℕ) (o : Outcome)
    → Yields (one_if (succeeds o)) (some (on_consumer q w m i o))
unfolding on_consumer deliver
on_consumer-Yields q w m i (returned true) = refl
on_consumer-Yields q w m i (returned false) = try_consumer-Fails q w m (i + 1)
on_consumer-Yields q w m i (raised e) = try_consumer-Fails q w (record m { last_error = e }) (i + 1)

on_fallback-Yields :
    (q : MessageQueue) (w : ℕ) (m : QueuedMessage) (o : Outcome)
    → Yields (one_if (succeeds o)) (some (on_fallback q w m o))
unfolding on_fallback deliver
on_fallback-Yields q w m (returned true) = refl
on_fallback-Yields q w m (returned false) = handle_failure-Fails q w m
on_fallback-Yields q w m (raised e) = handle_failure-Fails q w (record m { last_error = e })

take_head-Yields :
    (items : List QueuedMessage) (q : MessageQueue) (w : ℕ) → Yields 0 (take_head items q w)
unfolding take_head
take_head-Yields [] q w = refl
take_head-Yields (m ∷ rest) q w =
    omega
      (arith, try_consumer-Fails (record q { items = rest }) w (record m { status = processing }) 0)

wake_up-Yields : (q : MessageQueue) (w : ℕ) (m : QueuedMessage) → Yields 0 (wake_up q w m)
unfolding wake_up requeue
wake_up-Yields q w m = ground arith

requeue-Yields : (q : MessageQueue) (w : ℕ) (m : QueuedMessage) → Yields 0 (requeue q w m)
unfolding requeue
requeue-Yields q w m = ground arith

on_captured-Yields :
    (q : MessageQueue) (w : ℕ) (m : QueuedMessage) (o : Outcome) → Yields 0 (on_captured q w m o)
unfolding on_captured
on_captured-Yields q w m (returned b) = refl
on_captured-Yields q w m (raised e) = refl

move-Yields :
    (p : Phase) (mv : Move) (q : MessageQueue) (w : ℕ) → Yields (successes p mv) (move p mv q w)
unfolding move
move-Yields created begins q w = refl
move-Yields polling get_times_out q w = refl
move-Yields polling takes q w = take_head-Yields q.items q w
move-Yields (consuming m i) (answers o) q w = on_consumer-Yields q w m i o
move-Yields (falling_back m) (answers o) q w = on_fallback-Yields q w m o
move-Yields (backing_off m s) wakes q w = wake_up-Yields q w m
move-Yields (requeueing m) puts q w = requeue-Yields q w m
move-Yields (capturing m) (answers o) q w = on_captured-Yields q w m o
move-Yields _ _ q w = refl

abbrev successes_at : Option Phase → Move → ℕ
successes_at none mv = 0
successes_at (some p) mv = successes p mv

move_at-Yields :
    (o : Option Phase) (mv : Move) (q : MessageQueue) (w : ℕ)
    → Yields (successes_at o mv) (move_at o mv q w)
move_at-Yields none mv q w = refl
move_at-Yields (some p) mv q w = move-Yields p mv q w

abbrev successes_in : Event → MessageQueue → ℕ
successes_in (worker w mv) q = successes_at (get_elem? q.workers w) mv
successes_in e q = 0

step-Yields : (e : Event) (q : MessageQueue) → Yields (successes_in e q) (step e q)
unfolding step enqueue end_stop
step-Yields (enqueues m) q = ground arith
step-Yields (gives_up m) q = refl
step-Yields starts q = refl
step-Yields stops q = refl
step-Yields stop_ends q = ground (arith, cancel_all-uncounted q.workers)
step-Yields (worker w mv) q = move_at-Yields (get_elem? q.workers w) mv q w

advance-Yields : (n : ℕ) (s : Step?) (q : MessageQueue) → Yields n s → Yields n (some (advance s q))
advance-Yields n none q h = sym h
advance-Yields n (some s) q h = h

-- The messages that the two dispatchers count as sent.
abbrev pub sent_count : Dispatchers → ℕ
sent_count d = d.telegram.total_sent + d.email.total_sent

outcome_of-succeeds : (fault : Text) (s : Sent) → sent_by s ≡ one_if (succeeds (outcome_of fault s))
outcome_of-succeeds fault (Dispatcher.returned true) = refl
outcome_of-succeeds fault (Dispatcher.returned false) = refl
outcome_of-succeeds fault Dispatcher.raised = refl

consult-counts :
    (o : Option Phase) (x : World) (mv : Move) (d : Dispatchers)
    → let (mv', d') = consult o x mv d in sent_count d' ≡ sent_count d + successes_at o mv'
unfolding consult
consult-counts (some (consuming m i)) x (answers o) d = omega (
  arith,
  Counting.send-CountsSent x.attempts d.telegram,
  outcome_of-succeeds x.fault (Dispatcher.send x.attempts d.telegram).0,
)
consult-counts (some (falling_back m)) x (answers o) d =
    omega (arith, EmailCounting.send-CountsSent x.installed x.smtp d.email)
consult-counts _ x mv d = omega arith

resolve-counts :
    (e : Event) (x : World) (q : MessageQueue) (d : Dispatchers)
    → let (e', d') = resolve e x q d in sent_count d' ≡ sent_count d + successes_in e' q
unfolding resolve
resolve-counts (worker w mv) x q d = consult-counts (get_elem? q.workers w) x mv d
resolve-counts _ x q d = omega arith

-- Over every interleaving, whatever the Bot API and the mail server do and whether the messages
-- come by Telegram or by email: what the queue counts as delivered in it is exactly what the two
-- dispatchers together count as sent in it.
pub run_wired-sent_count :
    (es : List (Event × World)) (q : MessageQueue) (d : Dispatchers)
    → let (q', d') = run_wired es q d in
      q'.total_delivered + sent_count d ≡ q.total_delivered + sent_count d'
unfolding run_wired
run_wired-sent_count [] q d = refl
run_wired-sent_count ((e, x) ∷ es) q d =
    let (e', d') = resolve e x q d in
    let s = step e' q in
    omega (
      arith,
      resolve-counts e x q d,
      (advance-Counts s q (step-Counts e' q)).delivered,
      advance-Yields (successes_in e' q) s q (step-Yields e' q),
      run_wired-sent_count es (advance s q).0 d',
    )
