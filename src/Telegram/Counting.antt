-- ===== src/Telegram/Counting.antt =====
-- What a call of `send` counts as sent.
use indian_sim_sms_gateway.Prelude.{
  ℕ, zero, suc, ◌+◌, ◌≡◌, ◌||◌, List, arith, is_empty, Bool-cases, inl, inr,
}
use indian_sim_sms_gateway.Prelude.Int.{pos_part}
use indian_sim_sms_gateway.Telegram.Dispatcher.{
  TelegramDispatcher, unreadable, retry_after, Reply, answered, timeout, http_error, other_error,
  Attempt, Sleep, Sending, throttle, Verdict, ends, goes_on, on_reply, send_loop, send, settle,
}
use indian_sim_sms_gateway.Telegram.Budget.{sent_by, throttle-keeps}

-- A call that began at d counts one message as sent if it returns True, and else none.
abbrev pub CountsSent : TelegramDispatcher → Sending → Type 0
CountsSent d (r, slept, d') = d'.total_sent ≡ d.total_sent + sent_by r

abbrev CountsVerdict : TelegramDispatcher → Verdict → Type 0
CountsVerdict d (ends r d') = d'.total_sent ≡ d.total_sent + sent_by r
CountsVerdict d (goes_on more d') = d'.total_sent ≡ d.total_sent

on_reply-CountsVerdict :
    (k : ℕ) (r : Reply) (d : TelegramDispatcher) → CountsVerdict d (on_reply k r d)
unfolding on_reply
on_reply-CountsVerdict k (answered code unreadable) d = ground arith
on_reply-CountsVerdict k (answered code (retry_after span)) d = ground arith
on_reply-CountsVerdict k timeout d = ground arith
on_reply-CountsVerdict k http_error d = ground arith
on_reply-CountsVerdict k other_error d = ground arith

settle-CountsSent :
    (d : TelegramDispatcher) (v : Verdict) (slept : List Sleep)
    (rest : TelegramDispatcher → Sending)
    → CountsVerdict d v
    → ((e : TelegramDispatcher) → CountsSent e (rest e))
    → CountsSent d (settle slept v rest)
unfolding settle
settle-CountsSent d (ends r e) slept rest j ih = j
settle-CountsSent d (goes_on more e) slept rest j ih = omega (arith, j, ih e)

send_loop-CountsSent :
    (world : ℕ → Attempt) (left k : ℕ) (d : TelegramDispatcher)
    → CountsSent d (send_loop world left k d)
unfolding send_loop
send_loop-CountsSent world zero k d = omega arith
send_loop-CountsSent world (suc left) k d =
    let (slept, d') = throttle (world k) d in
    let t = throttle-keeps (world k) d in
    let r = (world k).reply in
    omega (
      arith,
      t.1,
      settle-CountsSent d' (on_reply k r d') slept (send_loop world left (k + 1))
          (on_reply-CountsVerdict k r d') (λ e. send_loop-CountsSent world left (k + 1) e),
    )

pub send-CountsSent : (world : ℕ → Attempt) (d : TelegramDispatcher) → CountsSent d (send world d)
unfolding send
send-CountsSent world d = elim (Bool-cases (is_empty d.bot_token || is_empty d.chat_id)) [
  | inl e ↦ rw e (omega arith)
  | inr e ↦ rw e (send_loop-CountsSent world (pos_part d.max_retries) 0 d)
]
