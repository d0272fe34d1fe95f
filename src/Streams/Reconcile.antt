-- ===== src/Streams/Reconcile.antt =====
-- `_reconcile_unindexed_xadd` of streams/outbox_drainer.py, and the lower bound that it scans from. A
-- call outside the transaction of the batch changes the surroundings, and the committed rows of
-- `streams.event_id_to_redis`. A page holds 1000 entries.
pub mod Copies
pub mod Kept
pub mod Finds
pub mod Complete
pub mod Ends
use aslan_core.Base.{
  ℕ, zero, suc, String, Bool, true, false, ◌&&◌, Option, none, some, List, [], ◌∷◌, ◌++◌, str_eq,
  ◌==◌, if◌then◌else◌,
}
use aslan_core.Action.{Action, Outcome, done, raised, pure, raise, lift, bind, ◌>>=◌, ◌>>◌}
use aslan_core.Result.{Result, ok, err, redis_error, attribute_error}
use aslan_core.Streams.Ids.{RedisId, zero_id, redis_id_increment, after}
use aslan_core.Streams.Ids.Order.{weight}
use aslan_core.Streams.Services.{Entry, get_field, Services}
use aslan_core.Streams.Services.Laws.{last_of}

-- A row of `streams.event_id_to_redis`; the three columns are its primary key.
pub record Copy : Type 0 where
  pub event_id : String
  pub stream_name : String
  pub rid : RedisId

unfoldable pub copy_eq : Copy → Copy → Bool
copy_eq a b =
    str_eq a.event_id b.event_id
    && (str_eq a.stream_name b.stream_name && (a.rid.ms == b.rid.ms && a.rid.seq == b.rid.seq))

unfoldable pub has_copy : Copy → List Copy → Bool
has_copy c [] = false
has_copy c (d ∷ copies) = let rest = has_copy c copies in if copy_eq d c then true else rest

-- INSERT … ON CONFLICT DO NOTHING
unfoldable pub insert_copy : Copy → List Copy → List Copy
insert_copy c copies = if has_copy c copies then copies else copies ++ c ∷ []

-- What is outside the transaction of the batch.
pub record Hub (E : Type 0) : Type 0 where
  pub durable : List Copy
  pub env : E

abbrev pub answer : {E A : Type 0} → Hub E → Result A × E → Outcome (Hub E) A
answer h (r, e) = lift r (record h { env = e })

abbrev pub call : {E A : Type 0} → (E → Result A × E) → Action (Hub E) A
call f h = answer h (f h.env)

module _ {E : Type 0} (svc : Services E) where
  -- `async with session_factory() as s: await s.execute(INSERT …); await s.commit()`
  unfoldable pub index_copy : Copy → Action (Hub E) (Unit {0})
  index_copy c = do
    call svc.statement
    call svc.statement
    (λ h. done tt (record h { durable = insert_copy c h.durable }))

  abbrev pub index_if : Bool → Copy → Action (Hub E) (Unit {0})
  index_if true c = index_copy c
  index_if false c = pure tt

  -- `if eid_field is None: continue` … `if eid_str != event_id: continue`
  abbrev pub index_field : String → Copy → Option String → Action (Hub E) (Unit {0})
  index_field event c none = pure tt
  index_field event c (some eid) = index_if (str_eq eid event) c

  abbrev pub copy_of : String → String → RedisId → Copy
  copy_of stream event rid = record { event_id = event; stream_name = stream; rid = rid }

  unfoldable pub index_match : String → String → Entry → Action (Hub E) (Unit {0})
  index_match stream event x =
      index_field event (copy_of stream event x.rid) (get_field x.fields "event_id")

  unfoldable pub index_page : String → String → List Entry → Action (Hub E) (Unit {0})
  index_page stream event [] = pure tt
  index_page stream event (x ∷ page) = do index_match stream event x; index_page stream event page

  -- `if redis_id_compare(cursor, upper_bound) > 0: break`
  abbrev pub go_on : Bool → (RedisId → Action (Hub E) Bool) → RedisId → Action (Hub E) Bool
  go_on true loop cursor = pure true
  go_on false loop cursor = loop cursor

  -- One page, and the loop from the id after it on: true is returned at a `break`.
  unfoldable pub scan_page :
      (RedisId → Action (Hub E) Bool) → String → String → RedisId → List Entry → Action (Hub E) Bool
  scan_page loop stream event upper [] = pure true
  scan_page loop stream event upper (x ∷ page) = do
    index_page stream event (x ∷ page)
    (let cursor = redis_id_increment (last_of x page).rid in go_on (after cursor upper) loop cursor)

  -- `while True`, which the fuel bounds: false is returned when it runs out.
  unfoldable pub scan : ℕ → String → String → RedisId → RedisId → Action (Hub E) Bool
  scan zero stream event upper cursor = pure false
  scan (suc fuel) stream event upper cursor = do
    page ← call (svc.xrange stream cursor upper 1000)
    scan_page (scan fuel stream event upper) stream event upper page

  -- The replies of XINFO STREAM: its exceptions, and the last entry.
  unfoldable pub scan_info :
      String → String → RedisId → Outcome (Hub E) (Option RedisId) → Outcome (Hub E) Bool
  scan_info stream event lower (raised (redis_error true) h) = done true h
  scan_info stream event lower (raised attribute_error h) = done true h
  scan_info stream event lower (raised e h) = raised e h
  scan_info stream event lower (done none h) = done true h
  scan_info stream event lower (done (some upper) h) =
      if after lower upper
      then done true h
      else scan (suc (suc (weight upper))) stream event upper lower h

  unfoldable pub reconcile_unindexed_xadd : String → String → RedisId → Action (Hub E) Bool
  reconcile_unindexed_xadd stream event lower h =
      scan_info stream event lower (call (svc.xinfo_stream stream) h)

  -- `_capture_stream_lower_bound`
  unfoldable pub lower_of : Outcome (Hub E) (List Entry) → Outcome (Hub E) RedisId
  lower_of (raised (redis_error gone) h) = done zero_id h
  lower_of (raised attribute_error h) = done zero_id h
  lower_of (raised e h) = raised e h
  lower_of (done [] h) = done zero_id h
  lower_of (done (x ∷ older) h) =
      if x.rid.ms == 0 && x.rid.seq == 0 then done zero_id h else done (redis_id_increment x.rid) h

  unfoldable pub capture_stream_lower_bound : String → Action (Hub E) RedisId
  capture_stream_lower_bound stream h = lower_of (call (svc.xrevrange stream 1) h)
