-- ===== src/DeadLetter/Backends.antt =====
-- The office over a Redis that answers and the office in memory are the same to their clients.
use indian_sim_sms_gateway.Prelude.{
  ℕ, ◌*◌, ◌≡◌, refl, sym, subst, ◌∙◌, ap, true, false, Bool, Option, none, some, [], ⊤, arith,
  is_empty, Option-cases, inl, inr, if◌then◌else◌,
}
use mathlib.Core.Option
use indian_sim_sms_gateway.Prelude.Int.{ℤ, pos, pos_part, ◌<ℤ◌}
use mathlib.Core.List.Permᴰ
use indian_sim_sms_gateway.Prelude.Sorting.{Reorders}
use indian_sim_sms_gateway.DeadLetter.Unordered.{decoded, values-Reorders}
use indian_sim_sms_gateway.Prelude.Text.{Text}
use indian_sim_sms_gateway.Prelude.Dict.{Dict, lookup, insert, erase}
use indian_sim_sms_gateway.Prelude.Json.{Json}
use indian_sim_sms_gateway.Prelude.Clock.{Time, second}
use indian_sim_sms_gateway.Message.{QueuedMessage}
use indian_sim_sms_gateway.DeadLetter.Letter.{
  DeadLetter, letter_of, to_dict, to_json, from_json-to_json,
}
use indian_sim_sms_gateway.DeadLetter.Redis.{RedisClient, IsHash, Outlasts}
use indian_sim_sms_gateway.DeadLetter.Office.{
  DeadLetterOffice, Found, missing, copied, shared, capture, file_letter, store_letter, get,
  get_from, list_all, list_from, values, read_all,
}
use indian_sim_sms_gateway.DeadLetter.Encoded.{
  encoded, lookup-encoded, insert-encoded, read_all-encoded,
}

module _ (c : RedisClient) where
  open c use {Store, hset, expire, hget, hgetall, hdel, hlen, delete}

  -- No call raises.
  pub record IsUp : Type 0 where
    pub hset_answers : (k : Text) (v : Json) (s : Store) → (hset k v s).0 ≡ some tt
    pub expire_answers : (ttl : ℤ) (s : Store) → (expire ttl s).0 ≡ some tt
    pub hget_answers : (k : Text) (s : Store) → (v : Option Json) × ((hget k s).0 ≡ some v)
    pub hgetall_answers : (s : Store) → (d : Dict Json) × ((hgetall s).0 ≡ some d)
    pub hdel_answers : (k : Text) (s : Store) → (n : ℕ) × ((hdel k s).0 ≡ some n)
    pub hlen_answers : (s : Store) → (n : ℕ) × ((hlen s).0 ≡ some n)
    pub delete_answers : (s : Store) → (delete s).0 ≡ some tt

  -- The office p with its letters in Redis instead of in memory.
  abbrev pub backed : Store → DeadLetterOffice c → DeadLetterOffice c
  backed s p = record p { redis = some s; in_memory = [] }

  -- What is found, without whether it is a copy.
  abbrev pub letter_in : Found c → Option DeadLetter
  letter_in missing = none
  letter_in (copied l) = some l
  letter_in (shared l) = some l

-- A queue that takes every message.
abbrev pub takes_all : QueuedMessage → ⊤ → Option Bool × ⊤
takes_all m s = (some true, s)

module _ (c : RedisClient) (entries : RedisClient.Store c → Dict Json)
    (left : RedisClient.Store c → Option ℕ) (hash : IsHash c entries left) where
  open c use {Store, hdel}

  pub same-Outlasts :
      (b : ℕ) (s s' : Store) → left s' ≡ left s → Outlasts b (left s) → Outlasts b (left s')
  same-Outlasts b s s' same lasts = subst (Outlasts b) (sym same) lasts

  pub hdel-Outlasts :
      (b : ℕ) (k : Text) (s : Store) (n : ℕ)
      → (hdel k s).0 ≡ some n
      → Outlasts b (left s)
      → Outlasts b (left (hdel k s).1)
  hdel-Outlasts b k s n removed lasts =
      subst (Outlasts b) (sym (hash.hdel_left k s n removed))
        (either (is_empty (erase k (entries s))))
    where
      either : (gone : Bool) → Outlasts b (if gone then none else left s)
      either true = tt
      either false = lasts

module _ (c : RedisClient) (entries : RedisClient.Store c → Dict Json)
    (left : RedisClient.Store c → Option ℕ) (hash : IsHash c entries left) (up : IsUp c)
    (ttl : ℤ) where
  open c use {Store, hset, expire, hget, hgetall, hdel, hlen, delete}

  -- o keeps in Redis what p keeps in memory, and will for b ticks; otherwise they are the same.
  abbrev pub IsTwin : ℕ → DeadLetterOffice c → DeadLetterOffice c → Type 0
  IsTwin b o p =
      (p.redis ≡ none)
      × (p.ttl_seconds ≡ ttl)
      × ((s : Store) × (o ≡ backed c s p) × (entries s ≡ encoded p.in_memory) × Outlasts b (left s))

  fresh-Outlasts :
      (gone : Bool) (z : ℤ)
      → z ≡ ttl
      → Outlasts (pos_part ttl * second) (if gone then none else some (pos_part z * second))
  fresh-Outlasts true z same = tt
  fresh-Outlasts false z same = rw same (omega arith)

  pub capture-IsTwin :
      (m : QueuedMessage) (now : Time) (s : Store) (p : DeadLetterOffice c)
      → pos 0 <ℤ ttl
      → p.redis ≡ none
      → p.ttl_seconds ≡ ttl
      → entries s ≡ encoded p.in_memory
      → IsTwin (pos_part ttl * second) (capture c m now (backed c s p)) (capture c m now p)
  unfolding capture file_letter store_letter
  capture-IsTwin m now s p positive none_p same_ttl e =
      let live = subst (λ z. pos 0 <ℤ z) (sym same_ttl) positive in
      let j = to_json (letter_of m now) in
      let s1 = (hset m.sms_id j s).1 in
      let set_ok = up.hset_answers m.sms_id j s in
      let ttl_ok = up.expire_answers p.ttl_seconds s1 in
      rw (none_p, set_ok, ttl_ok)
        (
          refl,
          same_ttl,
          (
            (expire p.ttl_seconds s1).1,
            refl,
            hash.expire_keeps p.ttl_seconds s1 live ttl_ok
                ∙ hash.hset_inserts m.sms_id j s set_ok
                ∙ ap (insert m.sms_id j) e
                ∙ insert-encoded m.sms_id (letter_of m now) p.in_memory,
            subst (Outlasts (pos_part ttl * second))
                (sym (hash.expire_left p.ttl_seconds s1 live ttl_ok))
                (fresh-Outlasts (is_empty (entries s1)) p.ttl_seconds same_ttl),
          ),
        )

  pub get-IsTwin :
      (b : ℕ) (k : Text) (now : Time) (s : Store) (p : DeadLetterOffice c)
      → p.redis ≡ none
      → p.ttl_seconds ≡ ttl
      → entries s ≡ encoded p.in_memory
      → Outlasts b (left s)
      → (letter_in c (get c k now (backed c s p)).0 ≡ letter_in c (get c k now p).0)
        × IsTwin b (get c k now (backed c s p)).1 (get c k now p).1
  unfolding get get_from lookup
  get-IsTwin b k now s p none_p same_ttl e lasts =
      let (v, got) = up.hget_answers k s in
      let (looked, kept) = hash.hget_looks_up k s v got in
      let stays =
        same-Outlasts c entries left hash b s (hget k s).1 (hash.hget_left k s v got) lasts in
      let what : v ≡ Option.map to_json (lookup k p.in_memory) =
        looked ∙ ap (lookup k) e ∙ lookup-encoded k p.in_memory in
      elim (Option-cases (lookup k p.in_memory)) [
        | inl absent ↦
            let nothing : v ≡ none = what ∙ ap (Option.map to_json) absent in
            rw (none_p, got, nothing, absent, get_from)
              (refl, (refl, same_ttl, ((hget k s).1, refl, kept ∙ e, stays)))
        | inr (l, present) ↦
            let found : v ≡ some (to_json l) = what ∙ ap (Option.map to_json) present in
            rw (none_p, got, found, present, from_json-to_json now l, get_from)
              (refl, (refl, same_ttl, ((hget k s).1, refl, kept ∙ e, stays)))
      ]

  pub list_all-IsTwin :
      (b : ℕ) (now : Time) (s : Store) (p : DeadLetterOffice c)
      → p.redis ≡ none
      → p.ttl_seconds ≡ ttl
      → entries s ≡ encoded p.in_memory
      → Outlasts b (left s)
      → Reorders (list_all c now (backed c s p)).0 (list_all c now p).0
        × IsTwin b (list_all c now (backed c s p)).1 (list_all c now p).1
  unfolding list_all list_from
  list_all-IsTwin b now s p none_p same_ttl e lasts =
      let (d, got) = up.hgetall_answers s in
      let (read, kept) = hash.hgetall_reads s d got in
      let stays =
        same-Outlasts c entries left hash b s (hgetall s).1 (hash.hgetall_left s d got) lasts in
      let (d', letters, order) = decoded read p.in_memory e in
      let all : read_all c now d ≡ some (values d') =
        ap (read_all c now) letters ∙ read_all-encoded c now d' in
      rw (none_p, got, all, list_from)
        (
          Permᴰ.map to_dict (values-Reorders order),
          (refl, same_ttl, ((hgetall s).1, refl, kept ∙ e, stays)),
        )
