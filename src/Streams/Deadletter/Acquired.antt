-- ===== src/Streams/Deadletter/Acquired.antt =====
-- What `adopt` and the attempts lead to: what each outcome of `acquire_or_adopt_intent` leaves in the tables.
use mathlib.Core.Path.{subst}
use aslan_core.Base.{
  ℕ, zero, suc, String, Bool, true, false, Option, none, some, List, ◌≡◌, refl, sym, inl, inr,
  str_eq, All, Bool-cases,
}
use aslan_core.Action.{Action, done, OnDone, OnDone-bind}
use aslan_core.Json.{pos}
use aslan_core.Streams.Ids.{RedisId}
use aslan_core.Streams.Ids.Order.{IsId}
use aslan_core.Streams.Services.{Entry}
use aslan_core.Streams.Services.Laws.{IsRedis}
use aslan_core.Streams.Deadletter.Orphan.{ask, deadletter_stream, find_orphan_in_deadletter_stream}
use aslan_core.Streams.Deadletter.Search.{Ended, find_orphan_ends}
use aslan_core.Streams.Deadletter.Tables.{Intent, LogRow, find_intent, in_log}
use aslan_core.Streams.Deadletter.Tables.Laws.{find_intent-append, All-find_intent, HasId}
use aslan_core.Streams.Deadletter.Intent.{
  Claim, Ledger, own, AdoptionResult, with_env, my_intent, sees, insert_intent, insert_missing,
  after_search, adopt_stale, is_fresh, adopt, on_existing, lock_intent, after_insert, one_attempt,
  acquire_or_adopt, acquire_or_adopt_intent,
}
use aslan_core.Streams.Deadletter.Adopted.{
  in_env_then, Verdict, Adopted, Reconciled, reconcile_orphan-Reconciled, replace_and_own-Owned,
  refresh-Adopted,
}

module _ {E : Type 0} (claim : Claim E) where
  open claim use {to_int, to_text, svc, elsewhere, stream, fid, me, my_bound}

  module _ (stream_of : E → String → List Entry) (redis : IsRedis svc stream_of) (old : List LogRow)
      (lower_bounds : (e : E) (rows : List Intent)
        → All HasId rows
        → All HasId (elsewhere e rows)) where
    after_search-Adopted :
        (r : Intent) (found : Option (Option RedisId)) (w : Ledger E)
        → find_intent fid w.intents ≡ some r
        → ¬ (found ≡ none)
        → w.log ≡ old
        → OnDone (Adopted fid me old) (after_search claim r found w)
    after_search-Adopted r none w e ends same = absurd (ends refl)
    after_search-Adopted r (some none) w e ends same =
        OnDone-bind (λ res w'. (res.action ≡ own) × Verdict fid me old own res w')
          (Adopted fid me old) _ _ (replace_and_own-Owned claim old r r w e)
          (λ res w' v. subst (λ a. Verdict fid me old a res w') (sym v.0) v.1)
    after_search-Adopted r (some (some rid)) w e ends same =
        OnDone-bind (Reconciled fid me old) (Adopted fid me old) _ _
          (reconcile_orphan-Reconciled claim old r rid w same)
          (λ res w' v. subst (λ a. Verdict fid me old a res w') (sym v.0) v.1)

    adopt_stale-Adopted :
        (r : Intent) (w : Ledger E)
        → find_intent fid w.intents ≡ some r
        → IsId r.redis_lower_bound_id
        → w.log ≡ old
        → OnDone (Adopted fid me old) (adopt_stale claim r w)
    unfolding adopt_stale
    adopt_stale-Adopted r w e vl same =
        in_env_then (Adopted fid me old) w
          (find_orphan_in_deadletter_stream to_int svc stream r.redis_lower_bound_id (pos fid)
            10000)
          _
          (λ found e1 d.
            after_search-Adopted r found (with_env w e1) e
              (λ out.
                subst
                  (Ended svc stream_of redis to_int (pos fid) (deadletter_stream stream)
                    r.redis_lower_bound_id)
                  out
                  (find_orphan_ends svc stream_of redis to_int (pos fid) stream
                    r.redis_lower_bound_id 10000 w.env vl d))
              same)

    adopt-Adopted :
        (r : Intent) (w : Ledger E)
        → find_intent fid w.intents ≡ some r
        → IsId r.redis_lower_bound_id
        → w.log ≡ old
        → OnDone (Adopted fid me old) (adopt claim r w)
    unfolding adopt
    adopt-Adopted r w e vl same = elim (Bool-cases (str_eq r.owner_id me)) [
      | inl mine ↦ rw mine (refresh-Adopted claim old r w e mine)
      | inr other ↦ elim (Bool-cases (is_fresh w.ctx.now r)) [
        | inl fresh ↦ rw (other, fresh) (r, e, other, fresh)
        | inr stale ↦ rw (other, stale) (adopt_stale-Adopted r w e vl same)
      ]
    ]

    on_existing-Adopted :
        (retry : Action (Ledger E) (Option AdoptionResult)) (w : Ledger E) (o : Option Intent)
        → ((v : Ledger E)
            → All HasId v.intents
            → v.log ≡ old
            → OnDone (Adopted fid me old) (retry v))
        → All HasId w.intents
        → find_intent fid (sees claim w).intents ≡ o
        → w.log ≡ old
        → OnDone (Adopted fid me old) (on_existing claim retry o (sees claim w))
    on_existing-Adopted retry w none again ids e same =
        again _ (lower_bounds w.env w.intents ids) same
    on_existing-Adopted retry w (some r) again ids e same =
        adopt-Adopted r _ e
          (All-find_intent HasId fid (elsewhere w.env w.intents) (lower_bounds w.env w.intents ids)
            e)
          same

    abbrev AfterInsert : Bool → Ledger E → Type 0
    AfterInsert true w = find_intent fid w.intents ≡ some (my_intent claim w.ctx.now)
    AfterInsert false w = All HasId w.intents × (w.log ≡ old)

    -- The row that the INSERT adds, if it adds one.
    insert_missing-AfterInsert :
        (o : Option Intent) (w : Ledger E)
        → All HasId w.intents
        → find_intent fid w.intents ≡ o
        → w.log ≡ old
        → OnDone AfterInsert (insert_missing claim o w)
    insert_missing-AfterInsert (some r) w ids e same = (ids, same)
    insert_missing-AfterInsert none w ids e same = elim (Bool-cases (in_log fid w.log)) [
      | inl logged ↦ rw logged (find_intent-append fid w.intents _ refl e)
      | inr missing ↦ rw missing tt
    ]

    one_attempt-Adopted :
        (retry : Action (Ledger E) (Option AdoptionResult)) (w : Ledger E)
        → ((v : Ledger E)
            → All HasId v.intents
            → v.log ≡ old
            → OnDone (Adopted fid me old) (retry v))
        → All HasId w.intents
        → w.log ≡ old
        → OnDone (Adopted fid me old) (one_attempt claim retry w)
    unfolding insert_intent lock_intent
    one_attempt-Adopted retry w again ids same =
        in_env_then (Adopted fid me old) w (ask svc.statement) _ (λ u e d.
          OnDone-bind AfterInsert (Adopted fid me old) _ _
            (insert_missing-AfterInsert _ _ (lower_bounds e w.intents ids) refl same) after)
      where
        after :
            (inserted : Bool) (v : Ledger E)
            → AfterInsert inserted v
            → OnDone (Adopted fid me old) (after_insert claim retry inserted v)
        after true v added = (_, added, refl, refl, refl)
        after false v (ids', same') =
            in_env_then (Adopted fid me old) v (ask svc.statement) _
              (λ u e d. on_existing-Adopted retry _ _ again ids' refl same')

    attempts-Adopted :
        (left : ℕ) (w : Ledger E)
        → All HasId w.intents
        → w.log ≡ old
        → OnDone (Adopted fid me old) (acquire_or_adopt claim left w)
    unfolding acquire_or_adopt
    attempts-Adopted zero w ids same = one_attempt-Adopted _ w (λ v ids' same'. tt) ids same
    attempts-Adopted (suc left) w ids same =
        one_attempt-Adopted _ w (attempts-Adopted left) ids same

  -- If the lower bounds of the intents are ids of Redis, and stay so, and it returns, the acquisition
  -- has one of three outcomes: the failure's intent is the caller's, with a heartbeat of this time and
  -- the lower bound that is returned; or there is no intent for it, the id that is returned is its id
  -- in the index, each row of the log that was an unrouted one of the failure has got that id and this
  -- time, every other row of the log is as it was, and none of the failure is unrouted; or another
  -- worker's intent with a heartbeat of less than 60 seconds is there. This covers the search, which
  -- ends, and the retries.
  pub acquire_or_adopt_lem :
      (stream_of : E → String → List Entry) (redis : IsRedis svc stream_of)
      (lower_bounds : (e : E) (rows : List Intent) → All HasId rows → All HasId (elsewhere e rows))
      (w : Ledger E) {res : Option AdoptionResult} {w' : Ledger E}
      → All HasId w.intents
      → acquire_or_adopt_intent claim w ≡ done res w'
      → Adopted fid me w.log res w'
  acquire_or_adopt_lem stream_of redis lower_bounds w ids d =
      subst (OnDone (Adopted fid me w.log)) d
        (attempts-Adopted stream_of redis w.log lower_bounds 3 w ids refl)
