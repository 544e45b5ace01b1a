-- ===== src/Telegram/Budget.antt =====
-- What one call of `send` costs, and what it counts.
use indian_sim_sms_gateway.Prelude.{
  ℕ, zero, suc, ◌+◌, ◌*◌, ◌≤◌, ◌≡◌, true, ◌||◌, List, ◌++◌, arith, is_empty, total, total-append,
  Bool-cases, inl, inr,
}
use indian_sim_sms_gateway.Prelude.Int.{pos_part}
use indian_sim_sms_gateway.Telegram.Dispatcher.{
  TelegramDispatcher, unreadable, retry_after, Reply, answered, timeout, http_error, other_error,
  Attempt, Sent, returned, Sleep, throttled, backed_off, Sending, throttle, Verdict, ends, goes_on,
  on_reply, send_loop, send, settle,
}

abbrev pub outcomes : TelegramDispatcher → ℕ
outcomes d = d.total_sent + d.total_rate_limited + d.total_errors

-- The time slept for backoff, not by the throttle.
abbrev pub backoff_of : Sleep → ℕ
backoff_of (throttled span) = 0
backoff_of (backed_off span) = span

abbrev pub backoff_time : List Sleep → ℕ
backoff_time = total backoff_of

-- How long the Bot API asks to wait.
abbrev pub asked : Reply → ℕ
asked (answered code (retry_after span)) = span
asked _ = 0

abbrev pub sent_by : Sent → ℕ
sent_by (returned true) = 1
sent_by _ = 0

-- A call that began at d: the counters, and the backoff within a bound.
abbrev pub Costs : TelegramDispatcher → ℕ → ℕ → Sending → Type 0
Costs d attempts bound (r, slept, d') =
    (outcomes d' ≤ outcomes d + attempts)
    × (d'.total_sent ≡ d.total_sent + sent_by r)
    × (backoff_time slept ≤ attempts * bound)

pub throttle-keeps :
    (t : Attempt) (d : TelegramDispatcher)
    → let (slept, d') = throttle t d in
      (backoff_time slept ≡ 0)
      × (d'.total_sent ≡ d.total_sent)
      × (d'.total_rate_limited ≡ d.total_rate_limited)
      × (d'.total_errors ≡ d.total_errors)
      × (d'.max_backoff ≡ d.max_backoff)
unfolding throttle
throttle-keeps t d = ground arith

-- The verdict on one reply.
abbrev Judges : TelegramDispatcher → ℕ → Verdict → Type 0
Judges d bound (ends r d') =
    (outcomes d' ≤ outcomes d + 1) × (d'.total_sent ≡ d.total_sent + sent_by r)
Judges d bound (goes_on more d') =
    (outcomes d' ≤ outcomes d + 1)
    × (d'.total_sent ≡ d.total_sent)
    × (backoff_time more ≤ bound)
    × (d'.max_backoff ≡ d.max_backoff)

on_reply-Judges :
    (k bound : ℕ) (r : Reply) (d : TelegramDispatcher)
    → d.max_backoff ≤ bound
    → asked r ≤ bound
    → Judges d bound (on_reply k r d)
unfolding on_reply
on_reply-Judges k bound (answered code unreadable) d h a = ground arith
on_reply-Judges k bound (answered code (retry_after span)) d h a = ground arith
on_reply-Judges k bound timeout d h a = ground arith
on_reply-Judges k bound http_error d h a = ground arith
on_reply-Judges k bound other_error d h a = ground arith

settle-Costs :
    (d d' : TelegramDispatcher) (left bound : ℕ) (v : Verdict) (slept : List Sleep)
    (rest : TelegramDispatcher → Sending)
    → backoff_time slept ≡ 0
    → outcomes d' ≡ outcomes d
    → d'.total_sent ≡ d.total_sent
    → Judges d' bound v
    → d'.max_backoff ≤ bound
    → ((e : TelegramDispatcher) → e.max_backoff ≤ bound → Costs e left bound (rest e))
    → Costs d (suc left) bound (settle slept v rest)
unfolding settle
settle-Costs d d' left bound (ends r e) slept rest z o s j m ih = omega arith
settle-Costs d d' left bound (goes_on more e) slept rest z o s j m ih = omega (
  arith,
  ih e (omega arith),
  total-append backoff_of slept more,
  total-append backoff_of (slept ++ more) (rest e).1,
)

send_loop-Costs :
    (world : ℕ → Attempt) (bound left k : ℕ) (d : TelegramDispatcher)
    → ((i : ℕ) → asked (world i).reply ≤ bound)
    → d.max_backoff ≤ bound
    → Costs d left bound (send_loop world left k d)
unfolding send_loop
send_loop-Costs world bound zero k d ask m = omega arith
send_loop-Costs world bound (suc left) k d ask m =
    let (slept, d') = throttle (world k) d in
    let t = throttle-keeps (world k) d in
    let r = (world k).reply in
    settle-Costs d d' left bound (on_reply k r d') slept (send_loop world left (k + 1)) t.0
      (omega (arith, t)) t.1 (on_reply-Judges k bound r d' (omega (arith, t)) (ask k))
      (omega (arith, t)) (λ e h. send_loop-Costs world bound left (k + 1) e ask h)

-- A call counts at most one outcome for each of its `max_retries` attempts; it counts a message as
-- sent exactly if it returns True; and if neither the limit of the backoff nor any wait that the
-- Bot API asks for is more than a bound, its backoff takes at most `max_retries` times the bound.
pub send-Costs :
    (world : ℕ → Attempt) (bound : ℕ) (d : TelegramDispatcher)
    → ((i : ℕ) → asked (world i).reply ≤ bound)
    → d.max_backoff ≤ bound
    → Costs d (pos_part d.max_retries) bound (send world d)
unfolding send
send-Costs world bound d ask m = elim (Bool-cases (is_empty d.bot_token || is_empty d.chat_id)) [
  | inl e ↦ rw e (omega arith)
  | inr e ↦ rw e (send_loop-Costs world bound (pos_part d.max_retries) 0 d ask m)
]
