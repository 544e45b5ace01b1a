-- ===== src/DeadLetter/Letter.antt =====
-- backend/dead_letter_office.py: DeadLetter. json.dumps and json.loads undo one another on the dicts
-- that are written here, so the stored text is modelled by the dict that it encodes.
use indian_sim_sms_gateway.Prelude.{
  ◌>>=◌, ◌≡◌, refl, Option, none, some, List, [], ◌∷◌, if◌then◌else◌,
}
use indian_sim_sms_gateway.Prelude.Int.{ℤ, pos}
use indian_sim_sms_gateway.Prelude.Text.{Text, str, text_eq}
use indian_sim_sms_gateway.Prelude.Json.{
  Json, string, number, instant, object, Members, json_dict, get_member, keys_among, as_text,
  as_number, as_instant,
}
use indian_sim_sms_gateway.Prelude.Clock.{Time}
use indian_sim_sms_gateway.Message.{QueuedMessage}

pub record DeadLetter : Type 0 where
  pub sms_id : Text
  pub sender : Text
  pub body : Text
  pub timestamp : Text
  pub node_id : Text
  pub retry_count : ℤ
  pub last_error : Text
  pub dead_lettered_at : Time
  pub manual_retry_count : ℤ

-- The two dicts differ in the body alone.
abbrev letter_dict : DeadLetter → Text → Json
letter_dict l body = json_dict (
    (str "sms_id", string l.sms_id)
    ∷ (str "sender", string l.sender)
    ∷ (str "body", string body)
    ∷ (str "timestamp", string l.timestamp)
    ∷ (str "node_id", string l.node_id)
    ∷ (str "retry_count", number l.retry_count)
    ∷ (str "last_error", string l.last_error)
    ∷ (str "dead_lettered_at", instant l.dead_lettered_at)
    ∷ (str "manual_retry_count", number l.manual_retry_count)
    ∷ [])

unfoldable pub to_dict : DeadLetter → Json
to_dict l = letter_dict l (str "[ENCRYPTED]")

unfoldable pub to_json : DeadLetter → Json
to_json l = letter_dict l l.body

abbrev known_keys : List Text
known_keys =
    str "sms_id"
    ∷ str "sender"
    ∷ str "body"
    ∷ str "timestamp"
    ∷ str "node_id"
    ∷ str "retry_count"
    ∷ str "last_error"
    ∷ str "dead_lettered_at"
    ∷ str "manual_retry_count"
    ∷ []

-- A field with a default, here the time of the call or 0, which only a missing key gets.
abbrev or_default : {A : Type 0} → (Option Json → Option A) → Option Json → A → Option A
or_default read none d = some d
or_default read (some j) d = read (some j)

-- `cls(**d)`: an unknown key or a missing field raises. The dataclass does not check its values'
-- types; an entry in which one has another type than `to_json` writes, which only another program
-- can have stored, is taken for one that raises.
read_members : Time → Members → Option DeadLetter
read_members now ms = do
  sms_id ← as_text (get_member (str "sms_id") ms)
  sender ← as_text (get_member (str "sender") ms)
  body ← as_text (get_member (str "body") ms)
  timestamp ← as_text (get_member (str "timestamp") ms)
  node_id ← as_text (get_member (str "node_id") ms)
  retry_count ← as_number (get_member (str "retry_count") ms)
  last_error ← as_text (get_member (str "last_error") ms)
  at ← or_default as_instant (get_member (str "dead_lettered_at") ms) now
  manual ← or_default as_number (get_member (str "manual_retry_count") ms) (pos 0)
  some (record {
    sms_id = sms_id;
    sender = sender;
    body = body;
    timestamp = timestamp;
    node_id = node_id;
    retry_count = retry_count;
    last_error = last_error;
    dead_lettered_at = at;
    manual_retry_count = manual;
  })

-- `from_json`; `none` is an exception.
unfoldable pub from_json : Time → Json → Option DeadLetter
unfolding read_members text_eq
from_json now (object ms) = if keys_among known_keys ms then read_members now ms else none
from_json now _ = none

-- What Redis stores is read back whole, the encrypted body included.
pub from_json-to_json : (now : Time) (l : DeadLetter) → from_json now (to_json l) ≡ some l
unfolding from_json to_json
from_json-to_json now l = refl

-- The letter that `capture` makes of a message.
abbrev pub letter_of : QueuedMessage → Time → DeadLetter
letter_of m now = record {
  sms_id = m.sms_id;
  sender = m.sender;
  body = m.body;
  timestamp = m.timestamp;
  node_id = m.node_id;
  retry_count = pos m.retry_count;
  last_error = m.last_error;
  dead_lettered_at = now;
  manual_retry_count = pos 0;
}
