-- ===== src/DeadLetter/Memory.antt =====
-- The Dead Letter Office without Redis, as the application makes it.
use indian_sim_sms_gateway.Prelude.{
  ◌+◌, ◌≡◌, refl, ◌≢◌, Bool, true, false, Option, none, some, [], ◌∷◌, arith, map, ap,
  if◌then◌else◌,
}
use indian_sim_sms_gateway.Prelude.Text.{Text, text_eq}
use indian_sim_sms_gateway.Prelude.Dict.{
  Dict, lookup, insert, lookup-insert, lookup-insert_self, lookup-erase_self,
}
use indian_sim_sms_gateway.Prelude.Clock.{Time}
use indian_sim_sms_gateway.Message.{QueuedMessage}
use indian_sim_sms_gateway.DeadLetter.Letter.{DeadLetter, letter_of, to_dict}
use indian_sim_sms_gateway.DeadLetter.Redis.{RedisClient}
use indian_sim_sms_gateway.DeadLetter.Office.{
  DeadLetterOffice, shared, capture, get, remove, revived, values, list_all,
}
use indian_sim_sms_gateway.DeadLetter.Recovery.{retry, counted}

module _ (c : RedisClient) (o : DeadLetterOffice c) (no_redis : o.redis ≡ none) where
  -- Without Redis, a captured message is found under its id, with the body, the retries and the
  -- error that it came with, and every other letter is found as before.
  pub get-capture :
      (m : QueuedMessage) (k : Text) (now later : Time)
      → (get c k later (capture c m now o)).0
        ≡ (if text_eq m.sms_id k then shared (letter_of m now) else (get c k later o).0)
  unfolding get capture
  get-capture m k now later = rw (no_redis, lookup-insert) (ground arith)

  -- Without Redis, a manual retry of a letter that is there, if the queue takes the message:
  -- it returns True and is counted, the queue has been given the message with the letter's
  -- body and no retries yet, and the letter is gone.
  pub retry_moves :
      {S : Type 0} (k : Text) (now : Time) (l : DeadLetter)
      (callback : QueuedMessage → S → Option Bool × S) (s : S)
      → lookup k o.in_memory ≡ some l
      → (callback (revived l now) s).0 ≡ some true
      → let (success, o', s') = retry c k now callback o s in
        (success ≡ true)
        × (s' ≡ (callback (revived l now) s).1)
        × (lookup k o'.in_memory ≡ none)
        × (o'.total_retried ≡ o.total_retried + 1)
  unfolding retry get remove
  retry_moves k now l callback s here taken = ground (
    arith,
    lookup-erase_self k (insert k (counted l) o.in_memory),
    lookup-insert_self k (counted l) o.in_memory,
  )

  -- Without Redis, a manual retry that the queue refuses, or in which it raises, returns False and
  -- keeps the letter, with one more manual retry on it.
  pub retry_refused :
      {S : Type 0} (k : Text) (now : Time) (l : DeadLetter)
      (callback : QueuedMessage → S → Option Bool × S) (s : S)
      → lookup k o.in_memory ≡ some l
      → (callback (revived l now) s).0 ≢ some true
      → let (success, o', s') = retry c k now callback o s in
        (success ≡ false)
        × (s' ≡ (callback (revived l now) s).1)
        × (o' ≡ record o { in_memory = insert k (counted l) o.in_memory })
  unfolding retry get remove
  retry_refused k now l callback s here refused =
      ground (arith, lookup-insert_self k (counted l) o.in_memory)

-- The same letters with other bodies.
unfoldable pub rebodied : (DeadLetter → Text) → Dict DeadLetter → Dict DeadLetter
rebodied f [] = []
rebodied f ((k, l) ∷ d) = (k, record l { body = f l }) ∷ rebodied f d

listed :
    (f : DeadLetter → Text) (d : Dict DeadLetter)
    → map to_dict (values (rebodied f d)) ≡ map to_dict (values d)
unfolding rebodied to_dict
listed f [] = refl
listed f ((k, l) ∷ d) = ap (λ js. to_dict l ∷ js) (listed f d)

-- Without Redis, the listing that the API gives out does not depend on the bodies: offices whose
-- letters differ in nothing else are listed alike.
pub list_all-ignores_bodies :
    (c : RedisClient) (o : DeadLetterOffice c) (now : Time) (f : DeadLetter → Text)
    → o.redis ≡ none
    → (list_all c now (record o { in_memory = rebodied f o.in_memory })).0 ≡ (list_all c now o).0
unfolding list_all
list_all-ignores_bodies c o now f no_redis = rw no_redis (listed f o.in_memory)
