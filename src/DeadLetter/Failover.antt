-- ===== src/DeadLetter/Failover.antt =====
-- The Dead Letter Office in front of a Redis that may fail.
use indian_sim_sms_gateway.Prelude.{
  ℕ, ◌+◌, ◌*◌, ◌<◌, ◌≡◌, subst, is_empty, false, if◌then◌else◌, refl, sym, ◌⊎◌, inl, inr, Bool,
  true, Option, none, some, [], arith, ap, ◌∙◌, Option-cases,
}
use indian_sim_sms_gateway.Prelude.Int.{pos, pos_part, ◌<ℤ◌, ◌≤ℤ◌, add_one}
use indian_sim_sms_gateway.Prelude.Text.{Text}
use indian_sim_sms_gateway.Prelude.Dict.{Dict, lookup, insert, lookup-insert_self}
use indian_sim_sms_gateway.Prelude.Json.{Json}
use indian_sim_sms_gateway.Prelude.Clock.{Time, second}
use indian_sim_sms_gateway.Message.{QueuedMessage}
use indian_sim_sms_gateway.DeadLetter.Letter.{
  DeadLetter, letter_of, to_json, from_json, from_json-to_json,
}
use indian_sim_sms_gateway.DeadLetter.Redis.{RedisClient, IsHash, Outlasts}
use indian_sim_sms_gateway.DeadLetter.Office.{
  DeadLetterOffice, capture, store_letter, file_letter, get, get_from, copied, remove, revived,
}
use indian_sim_sms_gateway.DeadLetter.Recovery.{retry, counted}

-- The letter about a message that has just been dead-lettered.
abbrev pub letter_about : QueuedMessage → Time → DeadLetter
letter_about m now = record {
  sms_id = m.sms_id;
  sender = m.sender;
  body = m.body;
  timestamp = m.timestamp;
  node_id = m.node_id;
  retry_count = pos m.retry_count;
  last_error = m.last_error;
  dead_lettered_at = now;
  manual_retry_count = pos 0;
}

module _ (c : RedisClient) (entries : RedisClient.Store c → Dict Json)
    (left : RedisClient.Store c → Option ℕ) (hash : IsHash c entries left) where
  open c use {Store, hset, expire, hget, pass}

  -- Where a letter can be after `capture`: in memory, or among Redis's entries, as a text that reads
  -- as the letter at any later time.
  abbrev pub IsFiled : Text → DeadLetter → Time → DeadLetterOffice c → Type 0
  IsFiled k l later o =
      (lookup k o.in_memory ≡ some l)
      ⊎ ((s : Store) × (o.redis ≡ some s)
          × ((v : Json) × (lookup k (entries s) ≡ some v) × (from_json later v ≡ some l)))

  file_letter-IsFiled :
      (r : Option Store) (k : Text) (l : DeadLetter) (later : Time) (o : DeadLetterOffice c)
      → pos 0 <ℤ o.ttl_seconds
      → IsFiled k l later (file_letter c r k l o)
  unfolding file_letter store_letter
  file_letter-IsFiled none k l later o live = inl (lookup-insert_self k l o.in_memory)
  file_letter-IsFiled (some s) k l later o live =
      let s' = (hset k (to_json l) s).1 in
      elim (Option-cases (hset k (to_json l) s).0) [
        | inl e ↦ rw e (inl (lookup-insert_self k l o.in_memory))
        | inr (_, e) ↦ elim (Option-cases (expire o.ttl_seconds s').0) [
          | inl f ↦ rw (e, f) (inl (lookup-insert_self k l o.in_memory))
          | inr (_, f) ↦
              let kept = hash.expire_keeps o.ttl_seconds s' live f in
              rw (e, f)
                (inr (
                  (expire o.ttl_seconds s').1,
                  refl,
                  (
                    to_json l,
                    ap (lookup k) (kept ∙ hash.hset_inserts k (to_json l) s e)
                        ∙ lookup-insert_self k (to_json l) (entries s),
                    from_json-to_json later l,
                  ),
                ))
        ]
      ]

  file_letter-total_captured :
      (r : Option Store) (k : Text) (l : DeadLetter) (o : DeadLetterOffice c)
      → (file_letter c r k l o).total_captured + 1 ≡ o.total_captured + 1
  unfolding file_letter
  file_letter-total_captured none k l o = refl
  file_letter-total_captured (some s) k l o = ground arith

  -- With a positive time to live, whatever Redis does, also when it fails half-way, provided that a
  -- call that answers has done what Redis documents: a captured message is in memory or among
  -- Redis's entries, under its id, and is read back from there with its sender, body, time, node,
  -- retries and last error, at the time of the capture, and with no manual retry; and it is
  -- counted.
  pub capture-IsFiled :
      (m : QueuedMessage) (now later : Time) (o : DeadLetterOffice c)
      → pos 0 <ℤ o.ttl_seconds
      → let o' = capture c m now o in
        IsFiled m.sms_id (letter_about m now) later o' × (o'.total_captured ≡ o.total_captured + 1)
  unfolding capture
  capture-IsFiled m now later o live = (
    file_letter-IsFiled o.redis m.sms_id (letter_of m now) later o live,
    file_letter-total_captured o.redis m.sms_id (letter_of m now) o,
  )

  -- With a time to live of 0 or less, and a Redis whose hset and expire answer and do what Redis
  -- documents: `capture` counts the message, but the letter is neither among Redis's entries, which
  -- are all gone, nor put into memory.
  pub capture-loses :
      (m : QueuedMessage) (now : Time) (o : DeadLetterOffice c) (s : Store)
      → o.redis ≡ some s
      → o.ttl_seconds ≤ℤ pos 0
      → (hset m.sms_id (to_json (letter_of m now)) s).0 ≡ some tt
      → (expire o.ttl_seconds (hset m.sms_id (to_json (letter_of m now)) s).1).0 ≡ some tt
      → let o' = capture c m now o in
        (o'.total_captured ≡ o.total_captured + 1)
        × (o'.in_memory ≡ o.in_memory)
        × ((s' : Store) × (o'.redis ≡ some s') × (entries s' ≡ []))
  unfolding capture file_letter store_letter
  capture-loses m now o s redis spent set_ok ttl_ok =
      let s1 = (hset m.sms_id (to_json (letter_of m now)) s).1 in
      rw (redis, set_ok, ttl_ok)
        (
          refl,
          refl,
          ((expire o.ttl_seconds s1).1, refl, hash.expire_deletes o.ttl_seconds s1 spent ttl_ok),
        )

  -- With Redis, whose calls do what Redis documents, and a positive time to live: when those of
  -- `capture` answer, and that of a `get` less than that much later, the letter comes back whole, as a
  -- copy, with the sender, the body, the time, the node, the retries and the last error that the
  -- message had, the time of the capture, and no manual retry.
  pub get-capture_redis :
      (m : QueuedMessage) (now later : Time) (o : DeadLetterOffice c) (s s1 s2 : Store) (n : ℕ)
      (v : Option Json)
      → o.redis ≡ some s
      → pos 0 <ℤ o.ttl_seconds
      → hset m.sms_id (to_json (letter_of m now)) s ≡ (some tt, s1)
      → expire o.ttl_seconds s1 ≡ (some tt, s2)
      → n < pos_part o.ttl_seconds * second
      → (hget m.sms_id (pass n s2)).0 ≡ some v
      → ((capture c m now o).redis ≡ some s2)
        × ((get c m.sms_id later (record (capture c m now o) { redis = some (pass n s2) })).0
            ≡ copied (letter_about m now))
  unfolding get get_from capture file_letter store_letter
  get-capture_redis m now later o s s1 s2 n v redis live set_ok ttl_ok short got =
      let j = to_json (letter_of m now) in
      let after_set : entries s1 ≡ insert m.sms_id j (entries s) =
        sym (ap (λ r. entries r.1) set_ok)
        ∙ hash.hset_inserts m.sms_id j s (ap (λ r. r.0) set_ok) in
      let answered = ap (λ r. r.0) ttl_ok in
      let after_ttl : entries s2 ≡ entries s1 =
        sym (ap (λ r. entries r.1) ttl_ok) ∙ hash.expire_keeps o.ttl_seconds s1 live answered in
      let limit : left s2
          ≡ (if is_empty (entries s1) then none else some (pos_part o.ttl_seconds * second)) =
        sym (ap (λ r. left r.1) ttl_ok) ∙ hash.expire_left o.ttl_seconds s1 live answered in
      let lasts = subst (Outlasts (n + 1)) (sym limit) (unless_empty (is_empty (entries s1))) in
      let found : v ≡ some j =
        (hash.hget_looks_up m.sms_id (pass n s2) v got).0
        ∙ ap (lookup m.sms_id) ((hash.pass_keeps n s2 lasts).0 ∙ after_ttl ∙ after_set)
        ∙ lookup-insert_self m.sms_id j (entries s) in
      rw (redis, set_ok, ttl_ok, get_from, got, found, from_json-to_json later (letter_of m now))
        (refl, refl)
    where
      unless_empty :
          (gone : Bool)
          → Outlasts (n + 1) (if gone then none else some (pos_part o.ttl_seconds * second))
      unless_empty true = tt
      unless_empty false = omega arith

module _ (c : RedisClient) where
  open c use {Store, hget, hdel}

  -- A letter is in memory, since Redis failed when it was captured, and Redis, which answers
  -- again, has no such entry. A manual retry that the queue takes succeeds and is counted, but
  -- the letter is still in memory, with one more manual retry, to be sent again by the next one.
  pub retry_keeps_copy :
      {S : Type 0} (k : Text) (now : Time) (l : DeadLetter) (o : DeadLetterOffice c) (s : Store)
      (n : ℕ) (callback : QueuedMessage → S → Option Bool × S) (q : S)
      → o.redis ≡ some s
      → lookup k o.in_memory ≡ some l
      → (hget k s).0 ≡ some none
      → (hdel k (hget k s).1).0 ≡ some n
      → (callback (revived l now) q).0 ≡ some true
      → let (success, o', _) = retry c k now callback o q in
        (success ≡ true)
        × (o'.total_retried ≡ o.total_retried + 1)
        × (lookup k o'.in_memory
            ≡ some (record l { manual_retry_count = add_one l.manual_retry_count }))
  unfolding retry get remove
  retry_keeps_copy k now l o s n callback q redis here nothing removed taken =
      ground (arith, lookup-insert_self k (counted l) o.in_memory)
