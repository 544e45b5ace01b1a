-- ===== src/HttpClient.antt =====
-- The pooled httpx client that backend/telegram_dispatcher.py and backend/cto_agent.py keep. A
-- client is known by a number; httpx marks it closed as soon as `aclose` begins.
pub mod Laws
use indian_sim_sms_gateway.Prelude.{
  ℕ, suc, ◌==◌, Bool, true, false, not, ◌&&◌, ◌||◌, Option, none, some, List, [], ◌∷◌,
  if◌then◌else◌,
}

-- `httpx.Timeout` in seconds, and `httpx.Limits`, if it is given.
pub record Config : Type 0 where
  pub timeout : ℕ
  pub connect : ℕ
  pub limits : Option (ℕ × ℕ)

-- A client, with what it was created with.
pub record Client : Type 0 where
  pub number : ℕ
  pub config : Config

pub record Connections : Type 0 where
  pub client : Option Client  -- self._client
  -- the clients that are open, and how many were ever created
  pub opened : List Client
  pub created : ℕ
  -- `close` awaits `aclose`
  pub closing : Bool

unfoldable pub no_client : Connections
no_client = record { client = none; opened = []; created = 0; closing = false }

-- `not client.is_closed`
unfoldable pub is_open : Client → List Client → Bool
is_open c [] = false
is_open c (d ∷ ds) = d.number == c.number || is_open c ds

-- `client.aclose()`
unfoldable pub aclose : Client → List Client → List Client
aclose c [] = []
aclose c (d ∷ ds) = let rest = aclose c ds in if d.number == c.number then rest else d ∷ rest

abbrev create : Config → Connections → Connections
create config s =
    let c : Client = record { number = s.created; config = config } in
    record s { client = some c; opened = c ∷ s.opened; created = suc s.created }

-- `_get_client`
unfoldable pub get_client : Config → Connections → Connections
unfolding is_open
get_client config s = elim s.client [
  | none ↦ create config s
  | some c ↦ if is_open c s.opened then s else create config s
]

-- `close` up to its await, and what follows it.
unfoldable pub begin_close : Connections → Connections
unfolding is_open aclose
begin_close s = elim s.client [
  | none ↦ s
  | some c ↦
      if is_open c s.opened then record s { opened = aclose c s.opened; closing = true } else s
]

unfoldable pub end_close : Connections → Connections
end_close s = if s.closing then record s { client = none; closing = false } else s

-- A send that needs the client, and the two halves of `close`.
pub data Use : Type 0 where
  uses begins_close ends_close : Use

unfoldable pub use_client : Config → Use → Connections → Connections
use_client config uses s = get_client config s
use_client config begins_close s = begin_close s
use_client config ends_close s = end_close s

unfoldable pub use_all : Config → List Use → Connections → Connections
unfolding use_client
use_all config [] s = s
use_all config (u ∷ us) s = use_all config us (use_client config u s)
