-- ===== src/Message.antt =====
-- backend/message_queue.py: the message and its two enumerations.
use indian_sim_sms_gateway.Prelude.{ℕ, Bool, [], ◌∷◌}
use indian_sim_sms_gateway.Prelude.Int.{ℤ, pos, ltb_ℤ}
use indian_sim_sms_gateway.Prelude.Text.{Text, str}
use indian_sim_sms_gateway.Prelude.Json.{Json, string, number, instant, json_dict}
use indian_sim_sms_gateway.Prelude.Clock.{Time}

pub data MessagePriority : Type 0 where
  high normal low : MessagePriority

pub data MessageStatus : Type 0 where
  queued processing delivered failed dead_lettered : MessageStatus

-- `MessageStatus.value`
abbrev pub status_value : MessageStatus → Text
status_value queued = str "queued"
status_value processing = str "processing"
status_value delivered = str "delivered"
status_value failed = str "failed"
status_value dead_lettered = str "dead_lettered"

pub record QueuedMessage : Type 0 where
  pub sms_id : Text
  pub sender : Text
  pub body : Text
  pub timestamp : Text
  pub node_id : Text
  pub status : MessageStatus
  pub retry_count : ℕ
  pub max_retries : ℤ
  pub created_at : Time
  pub last_error : Text
  pub priority : MessagePriority

-- The constructor with the fields that have no default, the node, and the current time.
abbrev pub new_message : Text → Text → Text → Text → Text → Time → QueuedMessage
new_message sms_id sender body timestamp node_id now = record {
  sms_id = sms_id;
  sender = sender;
  body = body;
  timestamp = timestamp;
  node_id = node_id;
  status = queued;
  retry_count = 0;
  max_retries = pos 5;
  created_at = now;
  last_error = [];
  priority = normal;
}

abbrev pub is_retriable : QueuedMessage → Bool
is_retriable m = ltb_ℤ (pos m.retry_count) m.max_retries

unfoldable pub to_dict : QueuedMessage → Json
to_dict m = json_dict (
    (str "sms_id", string m.sms_id)
    ∷ (str "sender", string m.sender)
    ∷ (str "body", string (str "[ENCRYPTED]"))
    ∷ (str "timestamp", string m.timestamp)
    ∷ (str "node_id", string m.node_id)
    ∷ (str "status", string (status_value m.status))
    ∷ (str "retry_count", number (pos m.retry_count))
    ∷ (str "created_at", instant m.created_at)
    ∷ (str "last_error", string m.last_error)
    ∷ [])
