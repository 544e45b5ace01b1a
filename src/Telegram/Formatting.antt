-- ===== src/Telegram/Formatting.antt =====
-- What the text of a Telegram message holds.
use indian_sim_sms_gateway.Prelude.{[], ◌∷◌, ◌++◌}
use indian_sim_sms_gateway.Prelude.Text.{str, concat}
use indian_sim_sms_gateway.Message.{QueuedMessage}
use indian_sim_sms_gateway.CtoAgent.Triage.{Says}
use indian_sim_sms_gateway.Telegram.Dispatcher.{format_message}
use mathlib.Core.List.{append_assoc}

-- The text sent holds the message's body as it came, between its tags: characters that HTML reads
-- are not escaped.
pub format_message-Says :
    (m : QueuedMessage) → Says (str "<code>" ++ (m.body ++ str "</code>")) (format_message m)
unfolding format_message
format_message-Says m = (
  concat (
      str "📱 <b>SMS Gateway Alert</b>\n\n"
      ∷ str "<b>From:</b> <code>"
      ∷ m.sender
      ∷ str "</code>\n"
      ∷ str "<b>Time:</b> "
      ∷ m.timestamp
      ∷ str "\n"
      ∷ str "<b>Node:</b> "
      ∷ m.node_id
      ∷ str "\n\n"
      ∷ str "<b>Message:</b>\n"
      ∷ []),
  concat (str "\n\n" ∷ str "<i>ID: " ∷ m.sms_id ∷ str "</i>" ∷ []),
  simp append_assoc,
)
