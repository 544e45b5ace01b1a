-- ===== src/Queue/Captures.antt =====
-- What becomes of the dead-lettered messages: a worker takes each one to the Dead Letter Office.
use indian_sim_sms_gateway.Prelude.{
  ℕ, ◌+◌, ◌≡◌, refl, true, false, Bool, none, some, is_some, List, [], ◌∷◌, arith, total, total-set,
  get_elem?, set, ⊤,
}
use indian_sim_sms_gateway.Message.{QueuedMessage, queued, processing, dead_lettered}
use indian_sim_sms_gateway.Queue.State.{
  Phase, polling, crashed, consuming, falling_back, backing_off, requeueing, capturing,
  MessageQueue,
}
use indian_sim_sms_gateway.Queue.Step.{
  Outcome, returned, raised, Effect, was_captured, was_not_captured, Effects, Step?, loop_test,
  backoff, finish, deliver, dead_letter, handle_failure, try_fallback, try_consumer, on_consumer,
  on_fallback, put_item, take_head, requeue, wake_up, on_captured,
}
use indian_sim_sms_gateway.Queue.Balance.{dead_lettered_of}

abbrev pub on_way_of : Phase → ℕ
on_way_of (capturing m) = 1
on_way_of p = 0

-- The workers that await the office.
abbrev pub on_way : MessageQueue → ℕ
on_way q = total on_way_of q.workers

abbrev pub captured_of : Effect → ℕ
captured_of (was_captured m) = 1
captured_of e = 0

abbrev pub cut_off_of : Effect → ℕ
cut_off_of (was_not_captured m) = 1
cut_off_of e = 0

abbrev pub IsAt : MessageQueue → ℕ → Phase → Type 0
IsAt q w p = get_elem? q.workers w ≡ some p

abbrev pub has_office : MessageQueue → Bool
has_office q = is_some q.dlo_callback

-- A step of a worker that was in the phase p.
abbrev pub Files : MessageQueue → Phase → MessageQueue × Effects → Type 0
Files q p (q', fx) =
    (on_way q' + total captured_of fx + total cut_off_of fx + on_way_of p
      ≡ on_way q + total dead_lettered_of fx)
    × (q'.dlo_callback ≡ q.dlo_callback)

pub phase-set :
    (q : MessageQueue) (w : ℕ) (p new : Phase)
    → IsAt q w p
    → total on_way_of (set q.workers w new) + on_way_of p ≡ on_way q + on_way_of new
phase-set q w p new here = total-set on_way_of q.workers w p new here

finish-Files : (q : MessageQueue) (w : ℕ) (p : Phase) → IsAt q w p → Files q p (finish q w, [])
unfolding finish
finish-Files q w p here =
    ground (arith, phase-set q w p crashed here, phase-set q w p (loop_test q.running) here)

deliver-Files :
    (q : MessageQueue) (w : ℕ) (p : Phase) (m : QueuedMessage)
    → IsAt q w p
    → Files q p (deliver q w m)
unfolding deliver
deliver-Files q w p m here =
    finish-Files (record q { total_delivered = q.total_delivered + 1 }) w p here

dead_letter-Files :
    (q : MessageQueue) (w : ℕ) (p : Phase) (m : QueuedMessage)
    → IsAt q w p
    → has_office q ≡ true
    → Files q p (dead_letter q w m)
unfolding dead_letter
dead_letter-Files q w p m here has =
    rw has
      (omega (arith, phase-set q w p (capturing (record m { status = dead_lettered })) here), refl)

handle_failure-Files :
    (q : MessageQueue) (w : ℕ) (p : Phase) (m : QueuedMessage)
    → IsAt q w p
    → has_office q ≡ true
    → Files q p (handle_failure q w m)
unfolding handle_failure
handle_failure-Files q w p m here has =
    let m' = record m { retry_count = m.retry_count + 1 } in
    ground (
      arith,
      dead_letter-Files q w p m' here has,
      phase-set q w p (backing_off m' (backoff m')) here,
    )

try_fallback-Files :
    (q : MessageQueue) (w : ℕ) (p : Phase) (m : QueuedMessage)
    → IsAt q w p
    → has_office q ≡ true
    → Files q p (try_fallback q w m)
unfolding try_fallback
try_fallback-Files q w p m here has =
    ground (arith, handle_failure-Files q w p m here has, phase-set q w p (falling_back m) here)

try_consumer-Files :
    (q : MessageQueue) (w : ℕ) (p : Phase) (m : QueuedMessage) (i : ℕ)
    → IsAt q w p
    → has_office q ≡ true
    → Files q p (try_consumer q w m i)
unfolding try_consumer
try_consumer-Files q w p m i here has =
    ground (arith, try_fallback-Files q w p m here has, phase-set q w p (consuming m i) here)

pub on_consumer-Files :
    (q : MessageQueue) (w : ℕ) (p : Phase) (m : QueuedMessage) (i : ℕ) (o : Outcome)
    → IsAt q w p
    → has_office q ≡ true
    → Files q p (on_consumer q w m i o)
unfolding on_consumer
on_consumer-Files q w p m i (returned true) here has = deliver-Files q w p m here
on_consumer-Files q w p m i (returned false) here has = try_consumer-Files q w p m (i + 1) here has
on_consumer-Files q w p m i (raised e) here has =
    try_consumer-Files q w p (record m { last_error = e }) (i + 1) here has

pub on_fallback-Files :
    (q : MessageQueue) (w : ℕ) (p : Phase) (m : QueuedMessage) (o : Outcome)
    → IsAt q w p
    → has_office q ≡ true
    → Files q p (on_fallback q w m o)
unfolding on_fallback
on_fallback-Files q w p m (returned true) here has = deliver-Files q w p m here
on_fallback-Files q w p m (returned false) here has = handle_failure-Files q w p m here has
on_fallback-Files q w p m (raised e) here has =
    handle_failure-Files q w p (record m { last_error = e }) here has

abbrev pub Files? : MessageQueue → Phase → Step? → Type 0
Files? q p none = ⊤
Files? q p (some s) = Files q p s

pub take_head-Files :
    (items : List QueuedMessage) (q : MessageQueue) (w : ℕ)
    → IsAt q w polling
    → has_office q ≡ true
    → Files? q polling (take_head items q w)
unfolding take_head
take_head-Files [] q w here has = tt
take_head-Files (m ∷ rest) q w here has =
    let q' = record q { items = rest } in
    let f = try_consumer-Files q' w polling (record m { status = processing }) 0 here has in
    (omega (arith, f.0), f.1)

pub requeue-Files :
    (q : MessageQueue) (w : ℕ) (p : Phase) (m : QueuedMessage)
    → IsAt q w p
    → Files? q p (requeue q w m)
unfolding requeue
requeue-Files q w p m here = ground (arith, finish-Files (put_item m q) w p here)

pub wake_up-Files :
    (q : MessageQueue) (w : ℕ) (p : Phase) (m : QueuedMessage)
    → IsAt q w p
    → Files? q p (wake_up q w m)
unfolding wake_up
wake_up-Files q w p m here =
    let m' = record m { status = queued } in
    ground (arith, requeue-Files q w p m' here, phase-set q w p (requeueing m') here)

-- A whole step: what was dead-lettered is on its way, or its await of the office has ended.
abbrev pub Settles : MessageQueue → Step? → Type 0
Settles q none = ⊤
Settles q (some (q', fx)) =
    (on_way q' + total captured_of fx + total cut_off_of fx ≡ on_way q + total dead_lettered_of fx)
    × (q'.dlo_callback ≡ q.dlo_callback)

pub on_captured-Settles :
    (q : MessageQueue) (w : ℕ) (m : QueuedMessage) (o : Outcome)
    → IsAt q w (capturing m)
    → Settles q (on_captured q w m o)
unfolding on_captured
on_captured-Settles q w m (returned b) here =
    let f = finish-Files q w (capturing m) here in (omega (arith, f.0), f.1)
on_captured-Settles q w m (raised e) here =
    (omega (arith, phase-set q w (capturing m) crashed here), refl)

pub Files-Settles :
    (q : MessageQueue) (p : Phase) (s : Step?) → on_way_of p ≡ 0 → Files? q p s → Settles q s
Files-Settles q p none e h = tt
Files-Settles q p (some s) e h = (omega (arith, h.0), h.1)
