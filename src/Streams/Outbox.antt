-- ===== src/Streams/Outbox.antt =====
-- `streams.outbox`, the statements of streams/outbox_drainer.py on it, and the world of a drainer: its
-- transaction, what is committed, and the surroundings. Times are microseconds; now() is the time of
-- the transaction.
pub mod Laws
pub mod Selected
pub mod Pending
use aslan_core.Base.{
  ℕ, zero, suc, ◌+◌, String, Bool, true, false, ◌&&◌, not, Option, none, some, List, [], ◌∷◌, ◌==◌,
  leb, is_none, take, if◌then◌else◌,
}
use aslan_core.Base.Sort.{sort_by}
use aslan_core.Action.{Action, done, put_back}
use aslan_core.Json.{ℤ, Fields}
use aslan_core.Audit.Context.{Context}
use aslan_core.Audit.Recorder.{Event, AuditCols}
use aslan_core.Streams.Ids.{RedisId}
use aslan_core.Streams.Services.{Services}
use aslan_core.Streams.Reconcile.{Copy, Hub, has_copy, insert_copy, call}

pub record OutboxRow : Type 0 where
  pub outbox_id : ℕ
  pub stream_name : String
  pub event_id : String
  pub schema_version : ℤ
  pub payload : Fields
  pub producer_run_id : ℕ
  pub source_id : String
  pub created_at : ℕ
  pub published_at : Option ℕ
  pub redis_message_id : Option RedisId
  pub publish_attempts : ℕ
  pub last_attempt_at : Option ℕ
  pub last_error : Option String
  pub cols : AuditCols

-- WHERE published_at IS NULL
unfoldable pub pending : OutboxRow → Bool
pending r = is_none r.published_at

abbrev created_le : OutboxRow → OutboxRow → Bool
created_le a b = leb a.created_at b.created_at

unfoldable pub where_pending : (ℕ → Bool) → List OutboxRow → List OutboxRow
unfolding pending
where_pending locked [] = []
where_pending locked (r ∷ rows) =
    let rest = where_pending locked rows in
    if pending r && not (locked r.outbox_id) then r ∷ rest else rest

-- SELECT … WHERE published_at IS NULL ORDER BY created_at LIMIT :n FOR UPDATE SKIP LOCKED
unfoldable pub select_pending : ℕ → (ℕ → Bool) → List OutboxRow → List OutboxRow
select_pending n locked rows = take n (where_pending locked (sort_by created_le rows))

-- SELECT count(*) … WHERE published_at IS NULL
unfoldable pub count_pending : List OutboxRow → ℕ
count_pending [] = 0
count_pending (r ∷ rows) = (if pending r then 1 else 0) + count_pending rows

-- UPDATE … WHERE outbox_id = :oid
unfoldable pub update_outbox : ℕ → (OutboxRow → OutboxRow) → List OutboxRow → List OutboxRow
update_outbox oid f [] = []
update_outbox oid f (r ∷ rows) = (if r.outbox_id == oid then f r else r) ∷ update_outbox oid f rows

-- SET published_at = now(), redis_message_id = :rid
unfoldable pub published : ℕ → RedisId → OutboxRow → OutboxRow
published now rid r = record r { published_at = some now; redis_message_id = some rid }

-- SET publish_attempts = publish_attempts + 1, last_attempt_at = now(), last_error = :err
unfoldable pub failed : ℕ → String → OutboxRow → OutboxRow
failed now err r = record r {
  publish_attempts = r.publish_attempts + 1;
  last_attempt_at = some now;
  last_error = some err;
}

-- What a transaction sees of the tables; `own` holds its own rows of `event_id_to_redis`.
pub record Db : Type 0 where
  pub outbox : List OutboxRow
  pub events : List Event
  pub own : List Copy

-- `live` is what the session sees and `saved` what is committed; the rows of `event_id_to_redis` that
-- are committed are in the hub. `gauge` is `aslan_stream_outbox_pending`.
pub record World (E : Type 0) : Type 0 where
  pub ctx : Context
  pub live : Db
  pub saved : Db
  pub hub : Hub E
  pub gauge : Option ℕ

abbrev pub with_hub : {E : Type 0} → World E → Hub E → World E
with_hub w h = record w { hub = h }

abbrev pub in_hub : {E A : Type 0} → Action (Hub E) A → Action (World E) A
in_hub m w = put_back (with_hub w) (m w.hub)

-- A statement of the session, which may raise, and its effect.
abbrev pub sql : {E : Type 0} → Services E → Action (World E) (Unit {0})
sql svc = in_hub (call svc.statement)

abbrev pub change : {E : Type 0} → (World E → Db) → Action (World E) (Unit {0})
change f w = done tt (record w { live = f w })

unfoldable pub mark_published : {E : Type 0} → ℕ → RedisId → World E → Db
mark_published oid rid w = record (w.live) {
  outbox = update_outbox oid (published w.ctx.now rid) w.live.outbox;
}

unfoldable pub mark_failed : {E : Type 0} → ℕ → String → World E → Db
mark_failed oid err w = record (w.live) {
  outbox = update_outbox oid (failed w.ctx.now err) w.live.outbox;
}

-- The INSERT … ON CONFLICT DO NOTHING of the session.
unfoldable pub insert_own : {E : Type 0} → Copy → World E → Db
insert_own c w =
    if has_copy c w.hub.durable then w.live else record (w.live) { own = insert_copy c w.live.own }
