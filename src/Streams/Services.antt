-- ===== src/Streams/Services.antt =====
-- What streams/outbox_drainer.py calls outside this library: the Redis client, the database driver and
-- the clock, as operations on a state `E` of the surroundings. A call may raise, and may have had its
-- effect all the same; `E` also moves for what other clients do meanwhile.
pub mod Laws
pub mod Pages
use aslan_core.Base.{ℕ, String, Bool, Option, none, some, List, [], ◌∷◌, str_eq, if◌then◌else◌}
use aslan_core.Result.{Result}
use aslan_core.Streams.Ids.{RedisId}

abbrev pub Entries : Type 0
Entries = List (String × String)

-- `fields.get(k)`, with keys and values decoded.
abbrev pub get_field : Entries → String → Option String
get_field [] k = none
get_field ((j, v) ∷ fields) k = if str_eq j k then some v else get_field fields k

-- An entry of a stream.
pub record Entry : Type 0 where
  pub rid : RedisId
  pub fields : Entries

pub record Services (E : Type 0) : Type 0 where
  pub xadd : String → Entries → ℕ → E → Result RedisId × E
  -- With `count`, newest first.
  pub xrevrange : String → ℕ → E → Result (List Entry) × E
  -- The id under "last-entry".
  pub xinfo_stream : String → E → Result (Option RedisId) × E
  -- From `min` to `max`, with `count`, oldest first.
  pub xrange : String → RedisId → RedisId → ℕ → E → Result (List Entry) × E
  -- One statement to the database: what it does to the tables is written where it is sent.
  pub statement : E → Result (Unit {0}) × E
  -- The outbox rows that another transaction has locked.
  pub locked : E → ℕ → Bool
  pub clock : E → ℕ
