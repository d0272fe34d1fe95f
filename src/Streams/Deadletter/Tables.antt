-- ===== src/Streams/Deadletter/Tables.antt =====
-- The tables of the dead letters, `streams.deadletter_xadd_intent`, `streams.deadletter_log` and
-- `streams.deadletter_redis_index`, and the statements of streams/deadletter.py on them.
pub mod Laws
use aslan_core.Base.{
  ℕ, String, Bool, true, false, ◌&&◌, ◌||◌, Option, none, some, List, [], ◌∷◌, ◌++◌, str_eq, ◌==◌,
  is_none, if◌then◌else◌,
}
use aslan_core.Json.{ℤ}
use aslan_core.Streams.Ids.{RedisId}

-- A row of `streams.deadletter_xadd_intent`.
pub record Intent : Type 0 where
  pub failure_id : ℕ
  pub stream_name : String
  pub intent_at : ℕ
  pub redis_lower_bound_id : RedisId
  pub owner_id : String
  pub owner_heartbeat_at : ℕ

-- A row of `streams.deadletter_log`, without the columns of the actor, which no statement sets. The
-- excerpt is the text of the JSONB value.
pub record LogRow : Type 0 where
  pub failure_id : ℕ
  pub stream_name : String
  pub group_name : String
  pub original_message_id : String
  pub deadletter_stream : String
  pub event_id : String
  pub consumer_name : String
  pub failure_count : ℤ
  pub last_error : String
  pub payload_excerpt : String
  pub routed_at : ℕ
  pub redis_message_id : Option RedisId
  pub routed_at_redis : Option ℕ

-- A row of `streams.deadletter_redis_index`.
pub record IndexRow : Type 0 where
  pub failure_id : ℕ
  pub redis_message_id : RedisId

-- WHERE failure_id = :fid
unfoldable pub find_intent : ℕ → List Intent → Option Intent
find_intent fid [] = none
find_intent fid (r ∷ rows) =
    let rest = find_intent fid rows in if r.failure_id == fid then some r else rest

unfoldable pub update_intent : ℕ → (Intent → Intent) → List Intent → List Intent
update_intent fid f [] = []
update_intent fid f (r ∷ rows) = (if r.failure_id == fid then f r else r) ∷ update_intent fid f rows

unfoldable pub delete_intent : ℕ → List Intent → List Intent
delete_intent fid [] = []
delete_intent fid (r ∷ rows) =
    let rest = delete_intent fid rows in if r.failure_id == fid then rest else r ∷ rest

-- The foreign key to `streams.deadletter_log`.
unfoldable pub in_log : ℕ → List LogRow → Bool
in_log fid [] = false
in_log fid (r ∷ rows) = let rest = in_log fid rows in if r.failure_id == fid then true else rest

abbrev pub rid_eq : RedisId → RedisId → Bool
rid_eq a b = a.ms == b.ms && a.seq == b.seq

-- The primary key, the only unique column since migration 0025.
unfoldable pub conflicts : ℕ → List IndexRow → Bool
conflicts fid [] = false
conflicts fid (r ∷ rows) =
    let rest = conflicts fid rows in if r.failure_id == fid then true else rest

-- INSERT … ON CONFLICT DO NOTHING
unfoldable pub insert_index : ℕ → RedisId → List IndexRow → List IndexRow
insert_index fid rid rows =
    if conflicts fid rows
    then rows
    else rows ++ record { failure_id = fid; redis_message_id = rid } ∷ []

unfoldable pub find_index : ℕ → List IndexRow → Option RedisId
find_index fid [] = none
find_index fid (r ∷ rows) =
    let rest = find_index fid rows in if r.failure_id == fid then some r.redis_message_id else rest

-- UPDATE … WHERE failure_id = :fid AND routed_at_redis IS NULL
unfoldable pub mark_routed : ℕ → RedisId → ℕ → List LogRow → List LogRow
mark_routed fid rid now [] = []
mark_routed fid rid now (r ∷ rows) =
    (if r.failure_id == fid && is_none r.routed_at_redis
      then record r { redis_message_id = some rid; routed_at_redis = some now }
      else r)
    ∷ mark_routed fid rid now rows

-- The unique key (stream_name, group_name, original_message_id).
unfoldable pub find_letter : String → String → String → List LogRow → Option LogRow
find_letter stream group message [] = none
find_letter stream group message (r ∷ rows) =
    let rest = find_letter stream group message rows in
    if str_eq r.stream_name stream
      && str_eq r.group_name group
      && str_eq r.original_message_id message
    then some r
    else rest

-- The row count of `mark_routed`, as far as it is zero or not.
unfoldable pub marks : ℕ → List LogRow → Bool
marks fid [] = false
marks fid (r ∷ rows) =
    let rest = marks fid rows in
    if r.failure_id == fid && is_none r.routed_at_redis then true else rest

-- SELECT redis_message_id … WHERE failure_id = :fid: `none` also for NULL.
unfoldable pub select_routed : ℕ → List LogRow → Option RedisId
select_routed fid [] = none
select_routed fid (r ∷ rows) =
    let rest = select_routed fid rows in if r.failure_id == fid then r.redis_message_id else rest

-- DELETE … WHERE failure_id = :fid AND redis_message_id = :rid
unfoldable pub delete_index : ℕ → RedisId → List IndexRow → List IndexRow
delete_index fid rid [] = []
delete_index fid rid (r ∷ rows) =
    let rest = delete_index fid rid rows in
    if r.failure_id == fid && rid_eq r.redis_message_id rid then rest else r ∷ rest
