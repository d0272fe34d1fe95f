-- ===== src/Streams/Reconcile/Kept.antt =====
-- What the reconciliation keeps: whatever its calls and its insertions keep.
use aslan_core.Base.{
  ℕ, zero, suc, String, Bool, true, false, Option, none, some, List, [], ◌∷◌, inl, inr, str_eq,
  Bool-cases,
}
use aslan_core.Action.{Action, Outcome, done, raised, state, Keeps, Keeps-bind}
use aslan_core.Result.{redis_error, attribute_error}
use aslan_core.Streams.Ids.{RedisId, redis_id_increment, after}
use aslan_core.Streams.Services.{Entry, get_field, Services}
use aslan_core.Streams.Services.Laws.{last_of}
use aslan_core.Streams.Reconcile.{
  Copy, insert_copy, Hub, call, index_copy, copy_of, index_if, index_field, index_match, index_page,
  go_on, scan_page, scan, scan_info, reconcile_unindexed_xadd,
}

pub record Stable {E : Type 0} (svc : Services E) (Q : Hub E → Type 0) : Type 0 where
  pub statement : Keeps Q (call svc.statement)
  pub xrange :
      (n : String) (lo hi : RedisId) (count : ℕ) → Keeps Q (call (svc.xrange n lo hi count))
  pub xinfo : (n : String) → Keeps Q (call (svc.xinfo_stream n))
  pub insert : (c : Copy) (h : Hub E) → Q h → Q (record h { durable = insert_copy c h.durable })

module _ {E : Type 0} (svc : Services E) (Q : Hub E → Type 0) (stable : Stable svc Q) where
  pub index_copy-Keeps : (c : Copy) → Keeps Q (index_copy svc c)
  unfolding index_copy
  index_copy-Keeps c =
      Keeps-bind Q (call svc.statement) _ stable.statement
        (λ _. Keeps-bind Q (call svc.statement) _ stable.statement (λ _ h q. stable.insert c h q))

  index_if-Keeps : (b : Bool) (c : Copy) → Keeps Q (index_if svc b c)
  index_if-Keeps true c = index_copy-Keeps c
  index_if-Keeps false c = λ h q. q

  index_field-Keeps :
      (event : String) (c : Copy) (o : Option String) → Keeps Q (index_field svc event c o)
  index_field-Keeps event c none = λ h q. q
  index_field-Keeps event c (some eid) = index_if-Keeps (str_eq eid event) c

  index_match-Keeps : (n event : String) (x : Entry) → Keeps Q (index_match svc n event x)
  unfolding index_match
  index_match-Keeps n event x =
      index_field-Keeps event (copy_of svc n event x.rid) (get_field x.fields "event_id")

  pub index_page-Keeps :
      (n event : String) (page : List Entry) → Keeps Q (index_page svc n event page)
  unfolding index_page
  index_page-Keeps n event [] = λ h q. q
  index_page-Keeps n event (x ∷ page) =
      Keeps-bind Q (index_match svc n event x) _ (index_match-Keeps n event x)
        (λ _. index_page-Keeps n event page)

  pub go_on-Keeps :
      (b : Bool) (loop : RedisId → Action (Hub E) Bool) (next : RedisId)
      → ((c : RedisId) → Keeps Q (loop c))
      → Keeps Q (go_on svc b loop next)
  go_on-Keeps true loop next k = λ h q. q
  go_on-Keeps false loop next k = k next

  scan_page-Keeps :
      (loop : RedisId → Action (Hub E) Bool) (n event : String) (upper : RedisId)
      (page : List Entry)
      → ((c : RedisId) → Keeps Q (loop c))
      → Keeps Q (scan_page svc loop n event upper page)
  unfolding scan_page
  scan_page-Keeps loop n event upper [] k = λ h q. q
  scan_page-Keeps loop n event upper (x ∷ page) k =
      Keeps-bind Q (index_page svc n event (x ∷ page)) _ (index_page-Keeps n event (x ∷ page))
        (λ _. go_on-Keeps (after (redis_id_increment (last_of x page).rid) upper) loop _ k)

  pub scan-Keeps :
      (fuel : ℕ) (n event : String) (upper cursor : RedisId)
      → Keeps Q (scan svc fuel n event upper cursor)
  unfolding scan
  scan-Keeps zero n event upper cursor = λ h q. q
  scan-Keeps (suc fuel) n event upper cursor =
      Keeps-bind Q (call (svc.xrange n cursor upper 1000)) _ (stable.xrange n cursor upper 1000)
        (λ page.
          scan_page-Keeps (scan svc fuel n event upper) n event upper page
            (scan-Keeps fuel n event upper))

  scan_info-Keeps :
      (n event : String) (lower : RedisId) (o : Outcome (Hub E) (Option RedisId))
      → Q (state o)
      → Q (state (scan_info svc n event lower o))
  unfolding scan_info
  scan_info-Keeps n event lower (raised (redis_error true) h) q = q
  scan_info-Keeps n event lower (raised attribute_error h) q = q
  scan_info-Keeps n event lower (raised _ h) q = q
  scan_info-Keeps n event lower (done none h) q = q
  scan_info-Keeps n event lower (done (some upper) h) q = elim (Bool-cases (after lower upper)) [
    | inl past ↦ rw (past, state) q
    | inr within ↦ rw (within, state) (scan-Keeps _ n event upper lower h q)
  ]

  pub reconcile-Keeps :
      (n event : String) (lower : RedisId) → Keeps Q (reconcile_unindexed_xadd svc n event lower)
  unfolding reconcile_unindexed_xadd
  reconcile-Keeps n event lower h q =
      scan_info-Keeps n event lower (call (svc.xinfo_stream n) h) (stable.xinfo n h q)
