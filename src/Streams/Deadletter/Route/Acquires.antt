-- ===== src/Streams/Deadletter/Route/Acquires.antt =====
-- The acquisition of an intent keeps the log row of the message.
use aslan_core.Base.{
  ℕ, zero, suc, String, Bool, true, false, Option, none, some, inl, inr, str_eq, Bool-cases,
}
use aslan_core.Action.{Action, OnDone, OnDone-bind}
use aslan_core.Json.{pos}
use aslan_core.Streams.Ids.{RedisId}
use aslan_core.Streams.Deadletter.Orphan.{ask, find_orphan_in_deadletter_stream}
use aslan_core.Streams.Deadletter.Tables.{Intent, find_intent, in_log, find_index, insert_index}
use aslan_core.Streams.Deadletter.Intent.{
  Claim, Ledger, AdoptionResult, with_env, insert_intent, insert_missing, routed, released, indexed,
  settle_orphan, with_canonical, reconcile_orphan, replace_and_own, change_intent, after_search,
  adopt_stale, refresh, is_fresh, adopt, on_existing, lock_intent, after_insert, one_attempt,
  acquire_or_adopt,
}
use aslan_core.Streams.Deadletter.Adopted.{in_env_then, audit_then}
use aslan_core.Streams.Deadletter.Route.Owned.{Owns, mark_routed-Owns}

module _ (stream group message : String) {E : Type 0} (claim : Claim E) where
  open claim use {to_int, svc, elsewhere, fid, me}

  abbrev pub Held : {A : Type 0} → A → Ledger E → Type 0
  Held a w = Owns stream group message fid w.log

  settle_orphan-Held :
      (r : Intent) (rid : RedisId) (w : Ledger E)
      → Held rid w
      → OnDone Held (settle_orphan claim r rid w)
  unfolding settle_orphan routed released
  settle_orphan-Held r rid w h = in_env_then Held w (ask svc.statement) _ (λ u e d.
      in_env_then Held _ (ask svc.statement) _ (λ u2 e2 d2.
        audit_then Held _ _ _
          (λ events. mark_routed-Owns stream group message fid rid w.ctx.now w.log h)))

  with_canonical-Held :
      (r : Intent) (o : Option RedisId) (w : Ledger E)
      → Held o w
      → OnDone Held (with_canonical claim r o w)
  with_canonical-Held r none w h = tt
  with_canonical-Held r (some rid) w h = settle_orphan-Held r rid w h

  reconcile_orphan-Held :
      (r : Intent) (rid : RedisId) (w : Ledger E)
      → Held rid w
      → OnDone Held (reconcile_orphan claim r rid w)
  unfolding reconcile_orphan indexed
  reconcile_orphan-Held r rid w h = in_env_then Held w (ask svc.statement) _ (λ u e d.
      in_env_then Held _ (ask svc.statement) _
        (λ u2 e2 d2. with_canonical-Held r (find_index fid (insert_index fid rid w.index)) _ h))

  replace_and_own-Held :
      (r : Intent) (w : Ledger E) → Held r w → OnDone Held (replace_and_own claim r w)
  unfolding replace_and_own change_intent
  replace_and_own-Held r w h =
      in_env_then Held w (ask svc.statement) _ (λ u e d. audit_then Held _ _ _ (λ events. h))

  after_search-Held :
      (r : Intent) (found : Option (Option RedisId)) (w : Ledger E)
      → Held r w
      → OnDone Held (after_search claim r found w)
  after_search-Held r none w h = h
  after_search-Held r (some none) w h =
      OnDone-bind Held Held (replace_and_own claim r w) _ (replace_and_own-Held r w h)
        (λ res w' h'. h')
  after_search-Held r (some (some rid)) w h =
      OnDone-bind Held Held (reconcile_orphan claim r rid w) _ (reconcile_orphan-Held r rid w h)
        (λ res w' h'. h')

  adopt-Held : (r : Intent) (w : Ledger E) → Held r w → OnDone Held (adopt claim r w)
  unfolding adopt adopt_stale refresh change_intent
  adopt-Held r w h = elim (Bool-cases (str_eq r.owner_id me)) [
    | inl mine ↦ rw mine (in_env_then Held w (ask svc.statement) _ (λ u e d. h))
    | inr other ↦ elim (Bool-cases (is_fresh w.ctx.now r)) [
      | inl fresh ↦ rw (other, fresh) h
      | inr stale ↦
          rw (other, stale)
            (in_env_then Held w
              (find_orphan_in_deadletter_stream to_int svc claim.stream r.redis_lower_bound_id
                (pos fid) 10000)
              _ (λ found e d. after_search-Held r found (with_env w e) h))
    ]
  ]

  on_existing-Held :
      (retry : Action (Ledger E) (Option AdoptionResult)) (o : Option Intent) (w : Ledger E)
      → ((v : Ledger E) → Held o v → OnDone Held (retry v))
      → Held o w
      → OnDone Held (on_existing claim retry o w)
  on_existing-Held retry none w again h = again w h
  on_existing-Held retry (some r) w again h = adopt-Held r w h

  after_insert-Held :
      (retry : Action (Ledger E) (Option AdoptionResult)) (inserted : Bool) (w : Ledger E)
      → ((v : Ledger E) → Held inserted v → OnDone Held (retry v))
      → Held inserted w
      → OnDone Held (after_insert claim retry inserted w)
  unfolding lock_intent
  after_insert-Held retry true w again h = h
  after_insert-Held retry false w again h =
      in_env_then Held w (ask svc.statement) _
        (λ u e d. on_existing-Held retry (find_intent fid (elsewhere e w.intents)) _ again h)

  insert_missing-Held :
      (o : Option Intent) (w : Ledger E) → Held o w → OnDone Held (insert_missing claim o w)
  insert_missing-Held (some r) w h = h
  insert_missing-Held none w h = elim (Bool-cases (in_log fid w.log)) [
    | inl logged ↦ rw logged h
    | inr missing ↦ rw missing tt
  ]

  one_attempt-Held :
      (retry : Action (Ledger E) (Option AdoptionResult)) (w : Ledger E)
      → ((v : Ledger E) → Held tt v → OnDone Held (retry v))
      → Held tt w
      → OnDone Held (one_attempt claim retry w)
  unfolding insert_intent
  one_attempt-Held retry w again h = in_env_then Held w (ask svc.statement) _ (λ u e d.
      OnDone-bind Held Held _ _ (insert_missing-Held (find_intent fid (elsewhere e w.intents)) _ h)
        (λ inserted v h'. after_insert-Held retry inserted v again h'))

  pub acquire_or_adopt-Held :
      (left : ℕ) (w : Ledger E) → Held left w → OnDone Held (acquire_or_adopt claim left w)
  unfolding acquire_or_adopt
  acquire_or_adopt-Held zero w h = one_attempt-Held _ w (λ v h'. tt) h
  acquire_or_adopt-Held (suc left) w h = one_attempt-Held _ w (acquire_or_adopt-Held left) h
