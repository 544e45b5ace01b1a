-- ===== src/Telegram/Dispatcher.antt =====
-- backend/telegram_dispatcher.py: the class TelegramDispatcher. What the Bot API answers to an
-- attempt and the times that the attempt reads are an input, one for each attempt. Spans are in
-- ticks; the sleeps of a call are listed in its result.
use indian_sim_sms_gateway.Prelude.{
  ℕ, zero, suc, ◌+◌, ◌*◌, ◌/◌, ◌^◌, min, max, Bool, true, false, ◌||◌, List, [], ◌∷◌, ◌++◌,
  is_empty, if◌then◌else◌,
}
use indian_sim_sms_gateway.Prelude.Int.{ℤ, pos, pos_part, minus, ltb_ℤ, eq_ℤ}
use indian_sim_sms_gateway.Prelude.Text.{Text, str, or_text, concat}
use indian_sim_sms_gateway.Prelude.Clock.{Time, second, elapsed}
use indian_sim_sms_gateway.Message.{QueuedMessage}

pub record TelegramDispatcher : Type 0 where
  pub bot_token : Text
  pub chat_id : Text
  pub max_retries : ℤ
  pub base_backoff : ℕ
  pub max_backoff : ℕ
  pub last_send_time : Time
  pub min_interval : ℕ
  pub total_sent : ℕ
  pub total_rate_limited : ℕ
  pub total_errors : ℕ

-- The last two are the settings' values, which stand in for an empty argument.
unfoldable pub init : Text → Text → ℤ → ℕ → ℕ → Text → Text → TelegramDispatcher
init token chat max_retries base_backoff max_backoff telegram_token telegram_chat = record {
  bot_token = or_text token telegram_token;
  chat_id = or_text chat telegram_chat;
  max_retries = max_retries;
  base_backoff = base_backoff;
  max_backoff = max_backoff;
  last_send_time = 0;
  min_interval = second / 30;
  total_sent = 0;
  total_rate_limited = 0;
  total_errors = 0;
}

-- The JSON of an answer, as far as it is read: it cannot be parsed, or asks to retry after a
-- while, which is 0 if the field is missing.
pub data Body : Type 0 where
  unreadable : Body
  retry_after : ℕ → Body

-- httpx raises a timeout or another of its errors, or something else is raised.
pub data Reply : Type 0 where
  answered : ℤ → Body → Reply
  timeout http_error other_error : Reply

-- An attempt: the times before and after the throttle's sleep, and the reply.
pub record Attempt : Type 0 where
  pub before : Time
  pub after : Time
  pub reply : Reply

pub data Sent : Type 0 where
  returned : Bool → Sent
  raised : Sent

pub data Sleep : Type 0 where
  throttled backed_off : ℕ → Sleep

abbrev pub Sending : Type 0
Sending = Sent × List Sleep × TelegramDispatcher

-- What is done next, after these sleeps.
abbrev pub after_sleeps : List Sleep → Sending → Sending
after_sleeps slept (r, later, d) = (r, slept ++ later, d)

unfoldable pub throttle : Attempt → TelegramDispatcher → List Sleep × TelegramDispatcher
throttle t d =
    let span = elapsed t.before d.last_send_time in
    (
      if ltb_ℤ span (pos d.min_interval)
          then throttled (pos_part (minus (pos d.min_interval) span)) ∷ []
          else [],
      record d { last_send_time = t.after },
    )

-- `min(self._base_backoff * (2 ** attempt), self._max_backoff)`
abbrev pub backoff : TelegramDispatcher → ℕ → ℕ
backoff d attempt = min (d.base_backoff * 2 ^ attempt) d.max_backoff

-- The backoff between retries, which the last attempt leaves out.
abbrev pub gap : TelegramDispatcher → ℕ → List Sleep
gap d attempt =
    if ltb_ℤ (pos (attempt + 1)) d.max_retries then backed_off (backoff d attempt) ∷ [] else []

abbrev pub count_error : TelegramDispatcher → TelegramDispatcher
count_error d = record d { total_errors = d.total_errors + 1 }

-- What an attempt does with its reply: end the call, or sleep and go on.
pub data Verdict : Type 0 where
  ends : Sent → TelegramDispatcher → Verdict
  goes_on : List Sleep → TelegramDispatcher → Verdict

unfoldable pub on_rate_limit : ℕ → Body → TelegramDispatcher → Verdict
on_rate_limit attempt unreadable d = ends raised d
on_rate_limit attempt (retry_after span) d =
    goes_on (backed_off (max span (backoff d attempt)) ∷ []) d

unfoldable pub on_reply : ℕ → Reply → TelegramDispatcher → Verdict
unfolding on_rate_limit
on_reply attempt (answered code body) d =
    if eq_ℤ code (pos 200)
    then ends (returned true) (record d { total_sent = d.total_sent + 1 })
    else if eq_ℤ code (pos 429)
    then on_rate_limit attempt body (record d { total_rate_limited = d.total_rate_limited + 1 })
    else goes_on (gap d attempt) (count_error d)
on_reply attempt timeout d = goes_on (gap d attempt) (count_error d)
on_reply attempt http_error d = goes_on (gap d attempt) (count_error d)
on_reply attempt other_error d = ends raised d

unfoldable pub settle : List Sleep → Verdict → (TelegramDispatcher → Sending) → Sending
settle slept (ends r d) rest = (r, slept, d)
settle slept (goes_on more d) rest = after_sleeps (slept ++ more) (rest d)

-- `for attempt in range(self._max_retries):`, by the number of attempts left.
unfoldable pub send_loop : (ℕ → Attempt) → ℕ → ℕ → TelegramDispatcher → Sending
send_loop world zero attempt d = (returned false, [], d)
send_loop world (suc left) attempt d =
    let (slept, d') = throttle (world attempt) d in
    settle slept (on_reply attempt (world attempt).reply d') (send_loop world left (attempt + 1))

unfoldable pub send : (ℕ → Attempt) → TelegramDispatcher → Sending
send world d =
    if is_empty d.bot_token || is_empty d.chat_id
    then (returned false, [], d)
    else send_loop world (pos_part d.max_retries) 0 d

-- The text of the message, in Telegram's HTML.
unfoldable pub format_message : QueuedMessage → Text
format_message m = concat (
    str "📱 <b>SMS Gateway Alert</b>\n\n"
    ∷ str "<b>From:</b> <code>"
    ∷ m.sender
    ∷ str "</code>\n"
    ∷ str "<b>Time:</b> "
    ∷ m.timestamp
    ∷ str "\n"
    ∷ str "<b>Node:</b> "
    ∷ m.node_id
    ∷ str "\n\n"
    ∷ str "<b>Message:</b>\n<code>"
    ∷ m.body
    ∷ str "</code>\n\n"
    ∷ str "<i>ID: "
    ∷ m.sms_id
    ∷ str "</i>"
    ∷ [])

pub record Metrics : Type 0 where
  pub total_sent : ℕ
  pub total_rate_limited : ℕ
  pub total_errors : ℕ

unfoldable pub metrics : TelegramDispatcher → Metrics
metrics d = record {
  total_sent = d.total_sent;
  total_rate_limited = d.total_rate_limited;
  total_errors = d.total_errors;
}
