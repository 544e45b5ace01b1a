-- ===== src/DeadLetter/Redis.antt =====
-- The Redis client, which is not part of the program: its calls on the hash of dead letters. Each
-- may raise, which is `none`. What Redis documents of a call that answers is in `IsHash`.
use indian_sim_sms_gateway.Prelude.{
  ℕ, ◌+◌, ◌-◌, ◌*◌, ◌≤◌, ◌≡◌, Option, some, none, [], length, is_empty, ⊤, if◌then◌else◌,
}
use mathlib.Core.Option
use indian_sim_sms_gateway.Prelude.Sorting.{Reorders}
use indian_sim_sms_gateway.Prelude.Int.{ℤ, pos, pos_part, ◌<ℤ◌, ◌≤ℤ◌}
use indian_sim_sms_gateway.Prelude.Text.{Text}
use indian_sim_sms_gateway.Prelude.Dict.{Dict, lookup, insert, erase, has_key}
use indian_sim_sms_gateway.Prelude.Json.{Json}
use indian_sim_sms_gateway.Prelude.Clock.{second}

pub record RedisClient : Type 1 where
  -- the server, with the history of the hash, and the connection
  pub Store : Type 0
  pub hset : Text → Json → Store → Option ⊤ × Store
  pub expire : ℤ → Store → Option ⊤ × Store
  pub hget : Text → Store → Option (Option Json) × Store
  pub hgetall : Store → Option (Dict Json) × Store
  pub hdel : Text → Store → Option ℕ × Store
  pub hlen : Store → Option ℕ × Store
  pub delete : Store → Option ⊤ × Store
  -- time goes by on the server, in ticks
  pub pass : ℕ → Store → Store

-- A time to live that is at least that long; `none` is no limit.
abbrev pub Outlasts : ℕ → Option ℕ → Type 0
Outlasts n none = ⊤
Outlasts n (some left) = n ≤ left

module _ (c : RedisClient) where
  open c use {Store, hset, expire, hget, hgetall, hdel, hlen, delete, pass}

  -- A call that answers has done this to the entries, which are kept in the order of their insertion, and to the ticks that the hash has left to
  -- live: `none`, if it has no limit or there is no hash. Of a call that raises nothing is said.
  pub record IsHash (entries : Store → Dict Json) (left : Store → Option ℕ) : Type 0 where
    pub hset_inserts :
        (k : Text) (v : Json) (s : Store)
        → (hset k v s).0 ≡ some tt
        → entries (hset k v s).1 ≡ insert k v (entries s)
    -- a positive time to live is set, if there is a hash; another one deletes the hash
    pub expire_keeps :
        (ttl : ℤ) (s : Store)
        → pos 0 <ℤ ttl
        → (expire ttl s).0 ≡ some tt
        → entries (expire ttl s).1 ≡ entries s
    pub expire_left :
        (ttl : ℤ) (s : Store)
        → pos 0 <ℤ ttl
        → (expire ttl s).0 ≡ some tt
        → left (expire ttl s).1
          ≡ (if is_empty (entries s) then none else some (pos_part ttl * second))
    pub expire_deletes :
        (ttl : ℤ) (s : Store)
        → ttl ≤ℤ pos 0
        → (expire ttl s).0 ≡ some tt
        → entries (expire ttl s).1 ≡ []
    pub hget_looks_up :
        (k : Text) (s : Store) (v : Option Json)
        → (hget k s).0 ≡ some v
        → (v ≡ lookup k (entries s)) × (entries (hget k s).1 ≡ entries s)
    pub hget_left :
        (k : Text) (s : Store) (v : Option Json)
        → (hget k s).0 ≡ some v
        → left (hget k s).1 ≡ left s
    -- the order of the answer is not specified
    pub hgetall_reads :
        (s : Store) (d : Dict Json)
        → (hgetall s).0 ≡ some d
        → Reorders d (entries s) × (entries (hgetall s).1 ≡ entries s)
    pub hgetall_left :
        (s : Store) (d : Dict Json) → (hgetall s).0 ≡ some d → left (hgetall s).1 ≡ left s
    pub hdel_erases :
        (k : Text) (s : Store) (n : ℕ)
        → (hdel k s).0 ≡ some n
        → (n ≡ (if has_key k (entries s) then 1 else 0))
          × (entries (hdel k s).1 ≡ erase k (entries s))
    -- a hash without entries is no hash
    pub hdel_left :
        (k : Text) (s : Store) (n : ℕ)
        → (hdel k s).0 ≡ some n
        → left (hdel k s).1 ≡ (if is_empty (erase k (entries s)) then none else left s)
    pub hlen_counts :
        (s : Store) (n : ℕ)
        → (hlen s).0 ≡ some n
        → (n ≡ length (entries s)) × (entries (hlen s).1 ≡ entries s)
    pub delete_clears :
        (s : Store)
        → (delete s).0 ≡ some tt
        → (entries (delete s).1 ≡ []) × (left (delete s).1 ≡ none)
    -- the hash stays until its time is over, and then it is deleted
    pub pass_keeps :
        (n : ℕ) (s : Store)
        → Outlasts (n + 1) (left s)
        → (entries (pass n s) ≡ entries s) × (left (pass n s) ≡ Option.map (λ r. r - n) (left s))
    pub pass_drops :
        (n r : ℕ) (s : Store)
        → left s ≡ some r
        → r ≤ n
        → (entries (pass n s) ≡ []) × (left (pass n s) ≡ none)
