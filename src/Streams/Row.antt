-- ===== src/Streams/Row.antt =====
-- One row of a batch in `_drain_one_batch` of streams/outbox_drainer.py: the body of its loop.
pub mod Frame
pub mod Effect
pub mod Processed
use Prim.Native.String
use aslan_core.Base.{
  ℕ, zero, suc, ◌^◌, String, Bool, true, false, not, ◌||◌, Option, none, some, List, [], ◌∷◌, ◌==◌,
  str_eq, if◌then◌else◌,
}
use aslan_core.Action.{Action, Outcome, done, raised, pure, raise, ◌>>=◌, ◌>>◌}
use aslan_core.Result.{
  Error, value_error, redis_error, sqlalchemy_error, attribute_error, type_error, runtime_error,
  cancelled_error,
}
use aslan_core.Json.{
  ℤ, pos, negsuc, Json, null, bool, int, float, str, arr, tup, obj, nil, cons, end, field, get,
}
use aslan_core.Streams.Ids.{RedisId}
use aslan_core.Streams.Services.{Entries, Services}
use aslan_core.Streams.Reconcile.{
  Copy, Hub, copy_of, call, index_copy, capture_stream_lower_bound, reconcile_unindexed_xadd,
}
use aslan_core.Streams.Outbox.{
  OutboxRow, Db, World, in_hub, sql, change, mark_published, mark_failed, insert_own,
}

-- The truth value of a Python value: a float is false if it is 0.0 or -0.0.
truthy : Json → Bool
truthy null = false
truthy (bool b) = b
truthy (int (pos n)) = not (n == 0)
truthy (int (negsuc n)) = true
truthy (float bits) = not (bits == 0 || bits == 2 ^ 63)
truthy (str s) = not (str_eq s "")
truthy (arr nil) = false
truthy (arr (cons j items)) = true
truthy (tup nil) = false
truthy (tup (cons j items)) = true
truthy (obj end) = false
truthy (obj (field k v fields)) = true

-- `tb[:n]`
unfoldable pub str_take : ℕ → String → String
str_take zero s = String.[]
str_take (suc n) String.[] = String.[]
str_take (suc n) (String.◌∷◌ c s) = String.◌∷◌ c (str_take n s)

-- The classes of the `except` clause around the reconciliation.
unfoldable pub swallowed : Error → Bool
swallowed attribute_error = true
swallowed (redis_error gone) = true
swallowed sqlalchemy_error = true
swallowed value_error = true
swallowed type_error = true
swallowed runtime_error = true
swallowed _ = false

-- What the drainer calls of the standard library: `json.dumps`, `str`, `traceback.format_exc`, and
-- `total_seconds` of microseconds.
pub record Stdlib : Type 0 where
  pub dumps : Json → String
  pub to_str : Json → String
  pub format_exc : Error → String
  pub total_seconds : ℤ → Json

module _ {E : Type 0} (svc : Services E) (lib : Stdlib) (maxlen : ℕ) where
  -- `str(x or "")` of `x = d.get(k)`
  text_or_empty : Option Json → String
  unfolding truthy
  text_or_empty none = ""
  text_or_empty (some j) = if truthy j then lib.to_str j else ""

  unfoldable pub xadd_fields : OutboxRow → Entries
  unfolding text_or_empty
  xadd_fields r =
      ("event_id", r.event_id)
      ∷ ("schema_version", lib.to_str (int r.schema_version))
      ∷ ("payload", lib.dumps (obj r.payload))
      ∷ ("traceparent", text_or_empty (get r.payload "traceparent"))
      ∷ ("kind", text_or_empty (get r.payload "kind"))
      ∷ []

  abbrev pub copy_for : OutboxRow → RedisId → Copy
  copy_for r rid = copy_of svc r.stream_name r.event_id rid

  -- The `try`: XADD, the copy in a transaction of its own, the row, and the release of the savepoint.
  unfoldable pub publish_row : OutboxRow → Action (World E) RedisId
  publish_row r = do
    rid ← in_hub (call (svc.xadd r.stream_name (xadd_fields r) maxlen))
    in_hub (index_copy svc (copy_for r rid))
    sql svc
    change (mark_published r.outbox_id rid)
    sql svc
    change (insert_own (copy_for r rid))
    sql svc
    pure rid

  abbrev pub swallow : {S : Type 0} → Outcome S Bool → Outcome S (Unit {0})
  swallow (done _ s) = done tt s
  swallow (raised e s) = if swallowed e then done tt s else raised e s

  -- `try: await _reconcile_unindexed_xadd(…) except (…): _log.exception(…)`
  unfoldable pub reconcile_row : OutboxRow → RedisId → Action (World E) (Unit {0})
  reconcile_row r lower w =
      swallow (in_hub (reconcile_unindexed_xadd svc r.stream_name r.event_id lower) w)

  -- `tb = traceback.format_exc()[:4000]`
  unfoldable pub error_text : Error → String
  unfolding str_take
  error_text e = str_take 4000 (lib.format_exc e)

  -- The `except`: back to the savepoint, and the failure is written down in one of its own.
  unfoldable pub recover_row : OutboxRow → RedisId → Error → Db → Action (World E) (Unit {0})
  recover_row r lower e savepoint = do
    sql svc
    change (λ w. savepoint)
    reconcile_row r lower
    sql svc
    sql svc
    change (mark_failed r.outbox_id (error_text e))
    sql svc
    sql svc

  -- Whether the row was drained. A cancellation is no `Exception`.
  unfoldable pub settle_row :
      OutboxRow → RedisId → Db → Outcome (World E) RedisId → Outcome (World E) Bool
  settle_row r lower savepoint (done rid w) = done true w
  settle_row r lower savepoint (raised cancelled_error w) = raised cancelled_error w
  settle_row r lower savepoint (raised e w) = (do recover_row r lower e savepoint; pure false) w

  abbrev pub attempt_row : OutboxRow → RedisId → Action (World E) Bool
  attempt_row r lower w = settle_row r lower w.live (publish_row r w)

  unfoldable pub process_row : OutboxRow → Action (World E) Bool
  process_row r = do
    sql svc
    lower ← in_hub (capture_stream_lower_bound svc r.stream_name)
    attempt_row r lower
