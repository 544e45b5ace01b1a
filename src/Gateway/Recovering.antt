-- ===== src/Gateway/Recovering.antt =====
-- What the endpoints do to the messages: an inbound SMS, and a manual retry.
use indian_sim_sms_gateway.Prelude.{
  ◌≡◌, refl, ap, ◌∙◌, Bool, true, false, not, Option, none, some, List, [], ◌∷◌, ◌++◌, arith,
  if◌then◌else◌,
}
use indian_sim_sms_gateway.Prelude.Int.{ℤ, pos, add_one}
use indian_sim_sms_gateway.Prelude.Text.{Text, str}
use indian_sim_sms_gateway.Prelude.Dict.{lookup, lookup-insert_self}
use indian_sim_sms_gateway.Prelude.Clock.{Time}
use indian_sim_sms_gateway.Message.{QueuedMessage, queued, normal}
use indian_sim_sms_gateway.Queue.State.{MessageQueue, full}
use indian_sim_sms_gateway.Queue.Step.{enqueue}
use indian_sim_sms_gateway.DeadLetter.Letter.{DeadLetter}
use indian_sim_sms_gateway.DeadLetter.Redis.{RedisClient}
use indian_sim_sms_gateway.DeadLetter.Office.{DeadLetterOffice, revived}
use indian_sim_sms_gateway.DeadLetter.Recovery.{counted}
use indian_sim_sms_gateway.DeadLetter.Memory.{retry_moves, retry_refused}
use indian_sim_sms_gateway.Gateway.Requests.{
  InboundSmsRequest, Response, api_response, http_exception, answer, Gateway,
}
use indian_sim_sms_gateway.Gateway.Endpoints.{
  message_of, enqueue_callback, receive_sms, retry_dead_letter, retry_response,
}

-- The items of the queue, if there is one.
abbrev pub items_of : Option MessageQueue → List QueuedMessage
items_of none = []
items_of (some q) = q.items

abbrev pub letter_in : {c : RedisClient} → Text → Option (DeadLetterOffice c) → Option DeadLetter
letter_in k none = none
letter_in k (some o) = lookup k o.in_memory

-- The message of a letter, as one that has just come in.
abbrev pub message_in : DeadLetter → Time → QueuedMessage
message_in l now = record {
  sms_id = l.sms_id;
  sender = l.sender;
  body = l.body;
  timestamp = l.timestamp;
  node_id = l.node_id;
  status = queued;
  retry_count = 0;
  max_retries = pos 5;
  created_at = now;
  last_error = [];
  priority = normal;
}

-- An answer that is no HTTP error.
abbrev pub is_ok : Response → Bool
is_ok (api_response t j) = true
is_ok (http_exception n t) = false
is_ok (answer j) = true

enqueue_callback-free :
    (m : QueuedMessage) (q : MessageQueue)
    → full q ≡ false
    → ((enqueue_callback m q).0 ≡ some true)
      × ((enqueue_callback m q).1.items ≡ q.items ++ (m ∷ []))
unfolding enqueue
enqueue_callback-free m q free = ground arith

enqueue_callback-full :
    (m : QueuedMessage) (q : MessageQueue) → full q ≡ true → enqueue_callback m q ≡ (some false, q)
unfolding enqueue
enqueue_callback-full m q is_full = rw is_full refl

module _ (c : RedisClient) (g : Gateway c) (q : MessageQueue) (up : g.message_queue ≡ some q) where
  -- With the queue up, an inbound SMS is answered with success exactly if the queue has a free
  -- slot; then its message is the last item, with the sender, the body and the retry limit
  -- given, and else the queue's items are what they were.
  pub receive_sms-accepts :
      (r : InboundSmsRequest) (max_retries : ℤ) (stamp : Text) (now created : Time)
      → let (response, g') = receive_sms c r max_retries stamp now created g in
        (is_ok response ≡ not (full q))
        × (items_of g'.message_queue ≡ (
            if full q
            then q.items
            else q.items ++ (message_of r max_retries stamp now created ∷ [])))
  unfolding receive_sms enqueue
  receive_sms-accepts r max_retries stamp now created = rw up (ground arith)

  module _ (o : DeadLetterOffice c) (k : Text) (l : DeadLetter) (now : Time) where
    -- Without Redis, the endpoint for a manual retry of a letter that is there, while the queue has
    -- a free slot: success; the last item of the queue is a queued message with the letter's id,
    -- sender, body, time and node, with no retry used, no error and the constructor's defaults;
    -- and the letter is gone.
    pub retry_dead_letter-moves :
        g.dlo ≡ some o
        → o.redis ≡ none
        → lookup k o.in_memory ≡ some l
        → full q ≡ false
        → let (response, g') = retry_dead_letter c k now g in
          (is_ok response ≡ true)
          × (items_of g'.message_queue ≡ q.items ++ (message_in l now ∷ []))
          × (letter_in k g'.dlo ≡ none)
    unfolding retry_dead_letter
    retry_dead_letter-moves has_dlo no_redis here free =
        let put = enqueue_callback-free (revived l now) q free in
        let moved = retry_moves c o no_redis k now l enqueue_callback q here put.0 in
        rw (has_dlo, up)
          (
            ap (λ b. is_ok (retry_response c k b)) moved.0,
            ap (λ x. x.items) moved.1 ∙ put.1,
            moved.2,
          )

    -- Without Redis, the endpoint for a manual retry of a letter that is there, while the
    -- queue stays full: the answer is 404, not found, though the letter was found and is
    -- still there, with one more manual retry on it, and the queue is as it was.
    pub retry_dead_letter-full :
        g.dlo ≡ some o
        → o.redis ≡ none
        → lookup k o.in_memory ≡ some l
        → full q ≡ true
        → let (response, g') = retry_dead_letter c k now g in
          (response ≡ http_exception 404 (str "SMS " ++ (k ++ str " not found in DLO")))
          × (g'.message_queue ≡ some q)
          × (letter_in k g'.dlo
              ≡ some (record l { manual_retry_count = add_one l.manual_retry_count }))
    unfolding retry_dead_letter
    retry_dead_letter-full has_dlo no_redis here is_full =
        let whole = enqueue_callback-full (revived l now) q is_full in
        let kept =
          retry_refused c o no_redis k now l enqueue_callback q here
            (λ e. cc (e, ap (λ x. x.0) whole)) in
        rw (has_dlo, up)
          (
            ap (retry_response c k) kept.0,
            ap some (kept.1 ∙ ap (λ x. x.1) whole),
            ap (λ x. lookup k x.in_memory) kept.2 ∙ lookup-insert_self k (counted l) o.in_memory,
          )
