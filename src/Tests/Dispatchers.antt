-- ===== src/Tests/Dispatchers.antt =====
-- backend/telegram_dispatcher.py and backend/email_dispatcher.py: the theorems at series of replies.
use indian_sim_sms_gateway.Prelude.{
  ℕ, ◌+◌, ◌*◌, ◌≤◌, ◌<◌, ◌≡◌, ◌↔◌, refl, Bool, true, arith, ◌==◌, if◌then◌else◌,
}
use indian_sim_sms_gateway.Prelude.Int.{pos}
use indian_sim_sms_gateway.Prelude.Text.{str}
use indian_sim_sms_gateway.Message.{QueuedMessage, new_message}
use indian_sim_sms_gateway.Telegram.Dispatcher.{
  TelegramDispatcher, retry_after, answered, timeout, Attempt, returned, format_message,
}
use indian_sim_sms_gateway.Telegram.Dispatcher
use indian_sim_sms_gateway.Telegram.Sending.{delivers, passes, send-delivers}
use indian_sim_sms_gateway.Telegram.Budget.{Costs, asked, send-Costs}
use indian_sim_sms_gateway.Email.{EmailDispatcher}
use indian_sim_sms_gateway.Email
use indian_sim_sms_gateway.Email.Laws.{send-sends}

abbrev pub telegram : TelegramDispatcher
telegram = record {
  bot_token = str "token";
  chat_id = str "chat";
  max_retries = pos 3;
  base_backoff = 10;
  max_backoff = 60;
  last_send_time = 0;
  min_interval = 5;
  total_sent = 0;
  total_rate_limited = 0;
  total_errors = 0;
}

-- The first attempt is rate limited, the others deliver.
abbrev pub limited_once : ℕ → Attempt
limited_once i = record {
  before = 100 * i;
  after = 100 * i;
  reply =
      if i == 0 then answered (pos 429) (retry_after 40) else answered (pos 200) (retry_after 0);
}

within : (i : ℕ) → asked (limited_once i).reply ≤ 60
within i = ground arith

send-delivers_example : ((Dispatcher.send limited_once telegram).0 ≡ returned true) ↔ (
    (i : ℕ) × (i < 3)
    × (delivers (limited_once (0 + i)).reply ≡ true)
    × ((j : ℕ) → j < i → passes (limited_once (0 + j)).reply ≡ true))
send-delivers_example = send-delivers limited_once telegram refl refl

send-Costs_example : Costs telegram 3 60 (Dispatcher.send limited_once telegram)
send-Costs_example = send-Costs limited_once 60 telegram within (omega arith)

abbrev sms : QueuedMessage
sms = new_message (str "a") (str "+91") (str "<b>otp") (str "now") (str "n1") 7

abbrev pub email : EmailDispatcher
email = record {
  smtp_host = str "host";
  smtp_port = pos 587;
  username = str "user";
  password = str "password";
  recipient = str "ops";
  max_retries = pos 3;
  total_sent = 0;
  total_errors = 0;
}

abbrev pub second_works : ℕ → Bool
second_works i = i == 1

send-sends_example :
    ((Email.send true second_works email).0 ≡ true)
    ↔ ((true ≡ true) × (true ≡ true) × ((i : ℕ) × (i < 3) × (second_works (0 + i) ≡ true)))
send-sends_example = send-sends true second_works email
