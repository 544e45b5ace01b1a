-- ===== src/DeadLetter/Office.antt =====
-- backend/dead_letter_office.py: the class DeadLetterOffice. The times that a method reads are its
-- arguments; an exception of the Redis client is `none`, and each `except` clause is a branch.
use indian_sim_sms_gateway.Prelude.{
  ℕ, ◌+◌, ltb, Bool, true, false, Option, none, some, List, [], ◌∷◌, map, is_some, if◌then◌else◌,
}
use indian_sim_sms_gateway.Prelude.Int.{ℤ, pos, or_int, scale, minus, ltb_ℤ}
use indian_sim_sms_gateway.Prelude.Text.{Text}
use indian_sim_sms_gateway.Prelude.Dict.{Dict, lookup, insert, erase, has_key}
use indian_sim_sms_gateway.Prelude.Json.{Json}
use indian_sim_sms_gateway.Prelude.Clock.{Time, seconds_ℤ}
use indian_sim_sms_gateway.Message.{QueuedMessage, new_message}
use indian_sim_sms_gateway.DeadLetter.Letter.{DeadLetter, to_dict, to_json, from_json, letter_of}
use indian_sim_sms_gateway.DeadLetter.Redis.{RedisClient}

-- `dl.dead_lettered_at < cutoff`, the cutoff being `time.time() - self._ttl_seconds`.
abbrev pub is_expired : ℤ → Time → DeadLetter → Bool
is_expired ttl_seconds now l =
    ltb_ℤ (pos l.dead_lettered_at) (minus (pos now) (seconds_ℤ ttl_seconds))

-- The keys of the entries that a test picks.
abbrev pub keys_where {ℓ} : {V : Type ℓ} → (V → Bool) → Dict V → List Text
keys_where p [] = []
keys_where p ((k, v) ∷ d) = let rest = keys_where p d in if p v then k ∷ rest else rest

-- `for sms_id in ids: del d[sms_id]`
abbrev pub erase_all {ℓ} : {V : Type ℓ} → List Text → Dict V → Dict V
erase_all [] d = d
erase_all (k ∷ ks) d = erase_all ks (erase k d)

-- `d.values()`
abbrev pub values {ℓ} : {V : Type ℓ} → Dict V → List V
values [] = []
values ((k, v) ∷ d) = v ∷ values d

-- The message of a manual retry: no retries yet, and the constructor's defaults.
abbrev pub revived : DeadLetter → Time → QueuedMessage
revived l now = new_message l.sms_id l.sender l.body l.timestamp l.node_id now

module _ (c : RedisClient) where
  open c use {Store, hset, expire, hget, hgetall, hdel, hlen, delete}

  pub record DeadLetterOffice : Type 0 where
    pub redis : Option Store
    pub ttl_seconds : ℤ
    pub in_memory : Dict DeadLetter
    pub total_captured : ℕ
    pub total_retried : ℕ
    pub total_purged : ℕ

  -- `dlo_ttl_hours` is the setting's.
  unfoldable pub init : Option Store → ℤ → ℤ → DeadLetterOffice
  init redis ttl_hours dlo_ttl_hours = record {
    redis = redis;
    ttl_seconds = scale (or_int ttl_hours dlo_ttl_hours) 3600;
    in_memory = [];
    total_captured = 0;
    total_retried = 0;
    total_purged = 0;
  }

  abbrev pub remember : Text → DeadLetter → DeadLetterOffice → DeadLetterOffice
  remember k l o = record o { in_memory = insert k l o.in_memory }

  -- hset, then expire; true if both answered.
  unfoldable pub store_letter : ℤ → Text → Json → Store → Bool × Store
  store_letter ttl k v s =
      let (set_ok, s') = hset k v s in
      let (ttl_ok, s'') = expire ttl s' in
      if is_some set_ok then (is_some ttl_ok, s'') else (false, s')

  unfoldable pub file_letter :
      Option Store → Text → DeadLetter → DeadLetterOffice → DeadLetterOffice
  file_letter none k l o = remember k l o
  file_letter (some s) k l o =
      let (done, s') = store_letter o.ttl_seconds k (to_json l) s in
      let o' = record o { redis = some s' } in if done then o' else remember k l o'

  unfoldable pub capture : QueuedMessage → Time → DeadLetterOffice → DeadLetterOffice
  unfolding file_letter store_letter
  capture m now o =
      let o' = file_letter o.redis m.sms_id (letter_of m now) o in
      record o' { total_captured = o'.total_captured + 1 }

  -- Every stored text is read; one that cannot be read raises.
  unfoldable pub read_all : Time → Dict Json → Option (List DeadLetter)
  read_all now [] = some []
  read_all now ((k, v) ∷ d) = elim (from_json now v) [
    | none ↦ none
    | some l ↦ elim (read_all now d) [ none ↦ none | some ls ↦ some (l ∷ ls) ]
  ]

  abbrev list_memory : DeadLetterOffice → List Json
  list_memory o = map to_dict (values o.in_memory)

  unfoldable pub list_from : Option Store → Time → DeadLetterOffice → List Json × DeadLetterOffice
  list_from none now o = (list_memory o, o)
  list_from (some s) now o =
      let (raw, s') = hgetall s in
      let o' = record o { redis = some s' } in
      elim raw [
        | none ↦ (list_memory o', o')
        | some d ↦ elim (read_all now d) [
          | none ↦ (list_memory o', o')
          | some ls ↦ (map to_dict ls, o')
        ]
      ]

  unfoldable pub list_all : Time → DeadLetterOffice → List Json × DeadLetterOffice
  unfolding list_from
  list_all now o = list_from o.redis now o

  -- A letter is a copy made from Redis, or the very object in memory.
  pub data Found : Type 0 where
    missing : Found
    copied shared : DeadLetter → Found

  abbrev in_memory_letter : Option DeadLetter → Found
  in_memory_letter none = missing
  in_memory_letter (some l) = shared l

  abbrev read_copy : Time → Option (Option Json) → Option DeadLetter
  read_copy now none = none
  read_copy now (some none) = none
  read_copy now (some (some v)) = from_json now v

  unfoldable pub get_from : Option Store → Text → Time → DeadLetterOffice → Found × DeadLetterOffice
  get_from none k now o = (in_memory_letter (lookup k o.in_memory), o)
  get_from (some s) k now o =
      let (raw, s') = hget k s in
      let o' = record o { redis = some s' } in
      elim (read_copy now raw) [
        | none ↦ (in_memory_letter (lookup k o.in_memory), o')
        | some l ↦ (copied l, o')
      ]

  unfoldable pub get : Text → Time → DeadLetterOffice → Found × DeadLetterOffice
  unfolding get_from
  get k now o = get_from o.redis k now o

  abbrev forget : Text → DeadLetterOffice → Bool × DeadLetterOffice
  forget k o =
      if has_key k o.in_memory
      then (true, record o { in_memory = erase k o.in_memory })
      else (false, o)

  unfoldable pub remove_from : Option Store → Text → DeadLetterOffice → Bool × DeadLetterOffice
  remove_from none k o = forget k o
  remove_from (some s) k o =
      let (removed, s') = hdel k s in
      let o' = record o { redis = some s' } in
      elim removed [ none ↦ forget k o' | some n ↦ (ltb 0 n, o') ]

  unfoldable pub remove : Text → DeadLetterOffice → Bool × DeadLetterOffice
  unfolding remove_from
  remove k o = remove_from o.redis k o
