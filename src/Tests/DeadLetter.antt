-- ===== src/Tests/DeadLetter.antt =====
-- backend/dead_letter_office.py: a Redis client that is a dict, and the theorems at small offices.
use indian_sim_sms_gateway.Prelude.{
  ℕ, ◌+◌, ◌-◌, ◌*◌, ◌≤◌, ◌≡◌, refl, ap, subst, Bool, true, false, leb, is_empty, Option, none, some,
  List, [], ◌∷◌, length, ◌==◌, ⊤, arith, if◌then◌else◌,
}
use mathlib.Core.Option
use mathlib.Core.List.Permᴰ
use indian_sim_sms_gateway.Prelude.Sorting.{Reorders}
use indian_sim_sms_gateway.Prelude.Int.{ℤ, pos, negsuc, pos_part, ltb_ℤ, ◌<ℤ◌, ◌≤ℤ◌}
use indian_sim_sms_gateway.Prelude.Text.{str, text_eq}
use indian_sim_sms_gateway.Prelude.Dict.{Dict, lookup, insert, erase, has_key}
use indian_sim_sms_gateway.Prelude.Json.{Json}
use indian_sim_sms_gateway.Prelude.Clock.{Time, second, seconds}
use indian_sim_sms_gateway.Message.{QueuedMessage, new_message}
use indian_sim_sms_gateway.DeadLetter.Letter.{DeadLetter, letter_of, to_json}
use indian_sim_sms_gateway.DeadLetter.Redis.{RedisClient, IsHash, Outlasts}
use indian_sim_sms_gateway.DeadLetter.Office.{DeadLetterOffice, copied, capture, get}
use indian_sim_sms_gateway.DeadLetter.Recovery.{retry, purge_expired, counted}
use indian_sim_sms_gateway.DeadLetter.Purge.{purge_expired-keeps}
use indian_sim_sms_gateway.DeadLetter.Encoded.{encoded}
use indian_sim_sms_gateway.DeadLetter.Backends.{IsUp, IsTwin}
use indian_sim_sms_gateway.DeadLetter.Client.{
  Call, captures, looks_up, lists, removes, retries, waits, AllSame, purges_expired, run,
  run-refines,
}
use indian_sim_sms_gateway.DeadLetter.Failover.{
  IsFiled, capture-IsFiled, capture-loses, get-capture_redis, retry_keeps_copy,
}

-- A hash, and the ticks that it has left to live, if it is there and has a limit.
abbrev Hash : Type 0
Hash = Dict Json × Option ℕ

abbrev with_limit : Dict Json → Option ℕ → Hash
with_limit d left = (d, if is_empty d then none else left)

abbrev expire_hash : ℤ → Hash → Option ⊤ × Hash
expire_hash ttl (d, left) =
    (some tt, if ltb_ℤ (pos 0) ttl then with_limit d (some (pos_part ttl * second)) else ([], none))

abbrev pass_hash : ℕ → Hash → Hash
pass_hash n (d, none) = (d, none)
pass_hash n (d, some r) = if leb r n then ([], none) else (d, some (r - n))

-- Every call answers.
abbrev pub dict_client : RedisClient
dict_client = record {
  Store = Hash;
  hset = λ k v s. (some tt, (insert k v s.0, s.1));
  expire = expire_hash;
  hget = λ k s. (some (lookup k s.0), s);
  hgetall = λ s. (some s.0, s);
  hdel = λ k s. (some (if has_key k s.0 then 1 else 0), with_limit (erase k s.0) s.1);
  hlen = λ s. (some (length s.0), s);
  delete = λ s. (some tt, ([], none));
  pass = pass_hash;
}

abbrev entries : Hash → Dict Json
entries s = s.0

abbrev left : Hash → Option ℕ
left s = s.1

expire_keeps_hash :
    (ttl : ℤ) (s : Hash)
    → pos 0 <ℤ ttl
    → (expire_hash ttl s).1 ≡ with_limit s.0 (some (pos_part ttl * second))
expire_keeps_hash ttl (d, l) h = ground arith

expire_deletes_hash : (ttl : ℤ) (s : Hash) → ttl ≤ℤ pos 0 → (expire_hash ttl s).1 ≡ ([], none)
expire_deletes_hash ttl (d, l) h = ground arith

pass_keeps_hash :
    (n : ℕ) (s : Hash)
    → Outlasts (n + 1) s.1
    → ((pass_hash n s).0 ≡ s.0) × ((pass_hash n s).1 ≡ Option.map (λ r. r - n) s.1)
pass_keeps_hash n (d, none) h = (refl, refl)
pass_keeps_hash n (d, some r) h = ground arith

pass_drops_hash :
    (n r : ℕ) (s : Hash)
    → s.1 ≡ some r
    → r ≤ n
    → ((pass_hash n s).0 ≡ []) × ((pass_hash n s).1 ≡ none)
pass_drops_hash n r (d, none) e h = cc
pass_drops_hash n r (d, some l) e h = ground arith

reads_hash :
    (s : Hash) (d : Dict Json)
    → (RedisClient.hgetall dict_client s).0 ≡ some d
    → Reorders d s.0 × (s.0 ≡ s.0)
reads_hash s d e =
    let same : s.0 ≡ d = cc in (subst (λ x. Reorders x s.0) same (Permᴰ.refl s.0), refl)

dict_client-IsHash : IsHash dict_client entries left
dict_client-IsHash = record {
  hset_inserts = λ k v s e. refl;
  expire_keeps = λ ttl s h e. ap (λ x. x.0) (expire_keeps_hash ttl s h);
  expire_left = λ ttl s h e. ap (λ x. x.1) (expire_keeps_hash ttl s h);
  expire_deletes = λ ttl s h e. ap (λ x. x.0) (expire_deletes_hash ttl s h);
  hget_looks_up = λ k s v e. (cc, refl);
  hget_left = λ k s v e. refl;
  hgetall_reads = reads_hash;
  hgetall_left = λ s d e. refl;
  hdel_erases = λ k s n e. (cc, refl);
  hdel_left = λ k s n e. refl;
  hlen_counts = λ s n e. (cc, refl);
  delete_clears = λ s e. (refl, refl);
  pass_keeps = pass_keeps_hash;
  pass_drops = pass_drops_hash;
}

abbrev sms : QueuedMessage
sms = new_message (str "a") (str "+91") (str "otp") (str "now") (str "n1") 7

abbrev pub letter : DeadLetter
letter = letter_of sms 9

-- Without Redis, one letter in memory; the time to live is an hour.
abbrev pub office : DeadLetterOffice dict_client
office = record {
  redis = none;
  ttl_seconds = pos 3600;
  in_memory = (str "a", letter) ∷ [];
  total_captured = 1;
  total_retried = 0;
  total_purged = 0;
}

-- The same with a Redis that holds nothing.
abbrev backed : DeadLetterOffice dict_client
backed = record office { redis = some ([], none) }

-- A queue that counts what it takes, up to a limit.
abbrev limited : ℕ → QueuedMessage → ℕ → Option Bool × ℕ
limited room m n = if n == room then (some false, n) else (some true, n + 1)

-- Two hours later, with a second letter that is new.
abbrev late : Time
late = seconds 7200

abbrev mixed : DeadLetterOffice dict_client
mixed = record office { in_memory = (str "a", letter) ∷ (str "b", letter_of sms late) ∷ [] }

purge_expired-keeps_example :
    let (purged, o) = purge_expired dict_client late mixed in
    (o.in_memory ≡ (str "b", letter_of sms late) ∷ [])
    × (purged + length o.in_memory ≡ 2)
    × (o.total_purged ≡ 0 + purged)
unfolding lookup text_eq
purge_expired-keeps_example = purge_expired-keeps dict_client mixed late refl (refl, (refl, tt))

capture-IsFiled_example :
    let o = capture dict_client sms 9 backed in
    IsFiled dict_client entries left dict_client-IsHash (str "a") letter 50 o
    × (o.total_captured ≡ 2)
capture-IsFiled_example =
    capture-IsFiled dict_client entries left dict_client-IsHash sms 9 50 backed (omega arith)

-- A time to live of minus one hour.
abbrev spent : DeadLetterOffice dict_client
spent = record backed { ttl_seconds = negsuc 3599 }

capture-loses_example :
    let o = capture dict_client sms 9 spent in
    (o.total_captured ≡ 2)
    × (o.in_memory ≡ (str "a", letter) ∷ [])
    × ((s : Hash) × (o.redis ≡ some s) × (s.0 ≡ []))
capture-loses_example =
    capture-loses dict_client entries left dict_client-IsHash sms 9 spent ([], none) refl
      (omega arith) refl refl

retry_keeps_copy_example :
    let (success, o, _) = retry dict_client (str "a") 20 (limited 5) backed 0 in
    (success ≡ true)
    × (o.total_retried ≡ 1)
    × (lookup (str "a") o.in_memory ≡ some (counted letter))
unfolding lookup text_eq
retry_keeps_copy_example =
    retry_keeps_copy dict_client (str "a") 20 letter backed ([], none) 0 (limited 5) 0 refl refl
      refl refl refl

dict_client-IsUp : IsUp dict_client
dict_client-IsUp = record {
  hset_answers = λ k v s. refl;
  expire_answers = λ ttl s. refl;
  hget_answers = λ k s. (lookup k s.0, refl);
  hgetall_answers = λ s. (s.0, refl);
  hdel_answers = λ k s. (if has_key k s.0 then 1 else 0, refl);
  hlen_answers = λ s. (length s.0, refl);
  delete_answers = λ s. refl;
}

abbrev pub empty : DeadLetterOffice dict_client
empty = record office { in_memory = []; total_captured = 0 }

-- The letter is captured, found half an hour later and retried; the one of the second capture is
-- purged.
abbrev calls : List Call
calls =
    captures sms 9
    ∷ waits (seconds 1800)
    ∷ looks_up (str "a") 10
    ∷ retries (str "a") 20
    ∷ captures sms 30
    ∷ lists 31
    ∷ waits (seconds 3000)
    ∷ purges_expired late
    ∷ removes (str "a")
    ∷ []

abbrev in_redis : DeadLetterOffice dict_client
in_redis = record empty { redis = some ([], none) }

run-refines_example :
    AllSame (run dict_client calls in_redis).0 (run dict_client calls empty).0
    × ((b : ℕ) × IsTwin dict_client entries left dict_client-IsHash dict_client-IsUp
          (pos 3600)
          b
          (run dict_client calls in_redis).1
          (run dict_client calls empty).1)
unfolding encoded
run-refines_example =
    run-refines dict_client entries left dict_client-IsHash dict_client-IsUp (pos 3600)
      (omega arith) calls 0 in_redis empty
      (tt, (omega arith, (tt, (tt, (tt, (tt, (omega arith, (tt, (tt, tt)))))))))
      (refl, refl, (([], none), refl, refl, tt))

abbrev stored : Hash
unfolding insert text_eq
stored = ((str "a", to_json letter) ∷ [], some (seconds 3600))

get-capture_redis_example :
    ((capture dict_client sms 9 backed).redis ≡ some stored)
    × ((get dict_client (str "a") 20 (record (capture dict_client sms 9 backed) {
      redis = some (pass_hash (seconds 1800) stored);
    })).0
        ≡ copied letter)
unfolding insert lookup text_eq
get-capture_redis_example =
    get-capture_redis dict_client entries left dict_client-IsHash sms 9 20 backed ([], none)
      ((str "a", to_json letter) ∷ [], none) stored (seconds 1800) (some (to_json letter)) refl
      (omega arith) refl refl (omega arith) refl
