-- ===== src/DeadLetter/Recovery.antt =====
-- backend/dead_letter_office.py: `retry`, `purge_expired`, `purge_all` and `metrics`.
use indian_sim_sms_gateway.Prelude.{
  ℕ, ◌+◌, Bool, true, false, Option, none, some, [], ◌∷◌, length, if◌then◌else◌,
}
use indian_sim_sms_gateway.Prelude.Int.{ℤ, add_one}
use indian_sim_sms_gateway.Prelude.Text.{Text}
use indian_sim_sms_gateway.Prelude.Dict.{Dict}
use indian_sim_sms_gateway.Prelude.Json.{Json}
use indian_sim_sms_gateway.Prelude.Clock.{Time}
use indian_sim_sms_gateway.Message.{QueuedMessage}
use indian_sim_sms_gateway.DeadLetter.Letter.{DeadLetter, from_json}
use indian_sim_sms_gateway.DeadLetter.Redis.{RedisClient}
use indian_sim_sms_gateway.DeadLetter.Office.{
  DeadLetterOffice, Found, missing, copied, shared, remember, get, remove, is_expired, keys_where,
  erase_all, revived,
}

pub record Metrics : Type 0 where
  pub total_captured : ℕ
  pub total_retried : ℕ
  pub total_purged : ℕ
  pub current_count : ℕ

-- `dead_letter.manual_retry_count += 1`
abbrev pub counted : DeadLetter → DeadLetter
counted l = record l { manual_retry_count = add_one l.manual_retry_count }

module _ (c : RedisClient) where
  open c use {Store, hgetall, hdel, hlen, delete}

  -- The try block of `retry`, for the message's queue in the state S; `none` is an exception of
  -- the callback.
  unfoldable pub re_enqueue :
      {S : Type 0}
      → Text
      → DeadLetter
      → Time
      → (QueuedMessage → S → Option Bool × S)
      → DeadLetterOffice c
      → S
      → Bool × DeadLetterOffice c × S
  re_enqueue k l now callback o s =
      let (answer, s') = callback (revived l now) s in
      elim answer [
        | none ↦ (false, o, s')
        | some success ↦
            if success
            then (
              true,
              let o' = (remove c k o).1 in record o' { total_retried = o'.total_retried + 1 },
              s',
            )
            else (false, o, s')
      ]

  abbrev pub retry_found :
      {S : Type 0}
      → Text
      → Found c × DeadLetterOffice c
      → Time
      → (QueuedMessage → S → Option Bool × S)
      → S
      → Bool × DeadLetterOffice c × S
  retry_found k (missing, o) now callback s = (false, o, s)
  retry_found k (copied l, o) now callback s = re_enqueue k (counted l) now callback o s
  retry_found k (shared l, o) now callback s =
      re_enqueue k (counted l) now callback (remember c k (counted l) o) s

  unfoldable pub retry :
      {S : Type 0}
      → Text
      → Time
      → (QueuedMessage → S → Option Bool × S)
      → DeadLetterOffice c
      → S
      → Bool × DeadLetterOffice c × S
  unfolding re_enqueue
  retry k now callback o s = retry_found k (get c k now o) now callback s

  -- The loop over Redis's entries, up to its end or the first exception.
  unfoldable pub purge_entries : ℤ → Time → Dict Json → Store → ℕ × Store
  purge_entries ttl now [] s = (0, s)
  purge_entries ttl now ((k, v) ∷ d) s = elim (from_json now v) [
    | none ↦ (0, s)
    | some l ↦ elim (is_expired ttl now l) [
      | false ↦ purge_entries ttl now d s
      | true ↦ elim (hdel k s).0 [
        | none ↦ (0, (hdel k s).1)
        | some n ↦ let (purged, s') = purge_entries ttl now d (hdel k s).1 in (purged + 1, s')
      ]
    ]
  ]

  abbrev add_purged : ℕ → DeadLetterOffice c → DeadLetterOffice c
  add_purged n o = record o { total_purged = o.total_purged + n }

  unfoldable pub purge_from : Option Store → Time → DeadLetterOffice c → ℕ × DeadLetterOffice c
  purge_from none now o =
      let ids = keys_where (is_expired o.ttl_seconds now) o.in_memory in
      (length ids, add_purged (length ids) (record o { in_memory = erase_all ids o.in_memory }))
  purge_from (some s) now o =
      let (raw, s') = hgetall s in
      elim raw [
        | none ↦ (0, record o { redis = some s' })
        | some d ↦
            let (purged, s'') = purge_entries o.ttl_seconds now d s' in
            (purged, add_purged purged (record o { redis = some s'' }))
      ]

  unfoldable pub purge_expired : Time → DeadLetterOffice c → ℕ × DeadLetterOffice c
  unfolding purge_from
  purge_expired now o = purge_from o.redis now o

  abbrev purge_memory : DeadLetterOffice c → ℕ × DeadLetterOffice c
  purge_memory o =
      (length o.in_memory, add_purged (length o.in_memory) (record o { in_memory = [] }))

  unfoldable pub purge_all_from : Option Store → DeadLetterOffice c → ℕ × DeadLetterOffice c
  purge_all_from none o = purge_memory o
  purge_all_from (some s) o =
      let (count, s') = hlen s in
      let (done, s'') = delete s' in
      elim count [
        | none ↦ purge_memory (record o { redis = some s' })
        | some n ↦ elim done [
          | none ↦ purge_memory (record o { redis = some s'' })
          | some _ ↦ (n, add_purged n (record o { redis = some s'' }))
        ]
      ]

  unfoldable pub purge_all : DeadLetterOffice c → ℕ × DeadLetterOffice c
  unfolding purge_all_from
  purge_all o = purge_all_from o.redis o

  unfoldable pub metrics : DeadLetterOffice c → Metrics
  metrics o = record {
    total_captured = o.total_captured;
    total_retried = o.total_retried;
    total_purged = o.total_purged;
    current_count = length o.in_memory;
  }
