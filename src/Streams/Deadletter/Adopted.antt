-- ===== src/Streams/Deadletter/Adopted.antt =====
-- What each outcome of `acquire_or_adopt_intent` leaves in the tables.
use mathlib.Core.Path.{subst}
use aslan_core.Base.{
  ℕ, String, true, false, Option, none, some, List, ◌≡◌, refl, str_eq, str_eq_iff, All,
}
use aslan_core.Action.{Action, Outcome, done, raised, bind, OnDone, put_back}
use aslan_core.Audit.Recorder.{AuditRecord, Event, record_event}
use aslan_core.Streams.Ids.{RedisId}
use aslan_core.Streams.Deadletter.Orphan.{ask}
use aslan_core.Streams.Deadletter.Tables.{
  Intent, LogRow, find_intent, find_index, insert_index, mark_routed,
}
use aslan_core.Streams.Deadletter.Tables.Laws.{
  find_intent-update_intent, find_intent-delete_intent, Routed, mark_routed-Routed, RoutedLog,
  mark_routed-RoutedLog,
}
use aslan_core.Streams.Deadletter.Intent.{
  Claim, Ledger, AdoptionAction, own, reconciled_by_us, abort, AdoptionResult, with_env, in_env,
  audit, heartbeat, replaced, change_intent, routed, released, indexed, settle_orphan,
  with_canonical, reconcile_orphan, replace_and_own, refresh, is_fresh,
}

-- What an action on the surroundings leaves alone.
pub in_env_then :
    {E A B : Type 0} (Q : B → Ledger E → Type 0) (w : Ledger E) (m : Action E A)
    (k : A → Action (Ledger E) B)
    → ((a : A) (e : E) → m w.env ≡ done a e → OnDone Q (k a (with_env w e)))
    → OnDone Q (bind (in_env m w) k)
in_env_then {E} {A} {B} Q w m k h = after_call (m w.env) h
  where
    after_call :
        (o : Outcome E A)
        → ((a : A) (e : E) → o ≡ done a e → OnDone Q (k a (with_env w e)))
        → OnDone Q (bind (put_back (with_env w) o) k)
    after_call (done a e) h = h a e refl
    after_call (raised x e) h = tt

pub audit_then :
    {E B : Type 0} (Q : B → Ledger E → Type 0) (w : Ledger E) (r : AuditRecord)
    (k : Action (Ledger E) B)
    → ((events : List Event) → OnDone Q (k (record w { events = events })))
    → OnDone Q (bind (audit r w) (λ _. k))
unfolding audit
audit_then {E} {B} Q w r k h = after_call (record_event w.ctx r w.events)
  where
    after_call :
        (o : Outcome (List Event) (Unit {0}))
        → OnDone Q (bind (put_back (λ events. record w { events = events }) o) (λ _. k))
    after_call (done a events) = h events
    after_call (raised x events) = tt

module _ {E : Type 0} (fid : ℕ) (me : String) (old : List LogRow) where
  -- `old` is the log before the call. Ours, with this time's heartbeat; routed, indexed, and no intent; or another worker's, fresh.
  abbrev pub Verdict : AdoptionAction → AdoptionResult → Ledger E → Type 0
  Verdict own res w =
      (r : Intent) × (find_intent fid w.intents ≡ some r)
      × (r.owner_id ≡ me)
      × (r.owner_heartbeat_at ≡ w.ctx.now)
      × (res.lower_bound ≡ some r.redis_lower_bound_id)
  Verdict reconciled_by_us res w =
      (find_intent fid w.intents ≡ none)
      × ((rid : RedisId) × (res.redis_message_id ≡ some rid)
          × (find_index fid w.index ≡ some rid)
          × RoutedLog fid rid w.ctx.now old w.log)
      × All (Routed fid) w.log
  Verdict abort res w =
      (r : Intent) × (find_intent fid w.intents ≡ some r)
      × (str_eq r.owner_id me ≡ false)
      × (is_fresh w.ctx.now r ≡ true)

  abbrev pub Adopted : Option AdoptionResult → Ledger E → Type 0
  Adopted none w = ⊥
  Adopted (some res) w = Verdict res.action res w

  abbrev pub Reconciled : AdoptionResult → Ledger E → Type 0
  Reconciled res w = (res.action ≡ reconciled_by_us) × Verdict reconciled_by_us res w

  abbrev pub Rescued : Option AdoptionResult → Ledger E → Type 0
  Rescued none w = ⊥
  Rescued (some res) w = Reconciled res w

module _ {E : Type 0} (claim : Claim E) (old : List LogRow) where
  open claim use {to_int, to_text, svc, elsewhere, stream, fid, me, my_bound}

  settle_orphan-Reconciled :
      (r : Intent) (rid : RedisId) (w : Ledger E)
      → find_index fid w.index ≡ some rid
      → w.log ≡ old
      → OnDone (Reconciled fid me old) (settle_orphan claim r rid w)
  unfolding settle_orphan routed released
  settle_orphan-Reconciled r rid w found same =
      in_env_then (Reconciled fid me old) w (ask svc.statement) _ (λ u e d.
        in_env_then (Reconciled fid me old) _ (ask svc.statement) _ (λ u2 e2 d2.
          audit_then (Reconciled fid me old) _ _ _ (λ events. (
            refl,
            (
              find_intent-delete_intent fid w.intents,
              (
                rid,
                refl,
                found,
                subst (λ l. RoutedLog fid rid w.ctx.now l (mark_routed fid rid w.ctx.now w.log))
                    same (mark_routed-RoutedLog fid rid w.ctx.now w.log),
              ),
              mark_routed-Routed fid rid w.ctx.now w.log,
            ),
          ))))

  with_canonical-Reconciled :
      (r : Intent) (o : Option RedisId) (w : Ledger E)
      → find_index fid w.index ≡ o
      → w.log ≡ old
      → OnDone (Reconciled fid me old) (with_canonical claim r o w)
  with_canonical-Reconciled r none w found same = tt
  with_canonical-Reconciled r (some rid) w found same = settle_orphan-Reconciled r rid w found same

  pub reconcile_orphan-Reconciled :
      (r : Intent) (rid : RedisId) (w : Ledger E)
      → w.log ≡ old
      → OnDone (Reconciled fid me old) (reconcile_orphan claim r rid w)
  unfolding reconcile_orphan indexed
  reconcile_orphan-Reconciled r rid w same =
      in_env_then (Reconciled fid me old) w (ask svc.statement) _ (λ u e d.
        in_env_then (Reconciled fid me old) _ (ask svc.statement) _ (λ u2 e2 d2.
          with_canonical-Reconciled r (find_index fid (insert_index fid rid w.index)) _ refl same))

  pub replace_and_own-Owned :
      (r q : Intent) (w : Ledger E)
      → find_intent fid w.intents ≡ some q
      → OnDone
          (λ res w'. (res.action ≡ own) × Verdict fid me old own res w')
          (replace_and_own claim r w)
  unfolding replace_and_own change_intent replaced
  replace_and_own-Owned r q w e = in_env_then Q w (ask svc.statement) _ (λ u e1 d.
      audit_then Q _ _ _ (λ events. (
        refl,
        (replaced_row, find_intent-update_intent fid _ w.intents (λ z. refl) e, refl, refl, refl),
      )))
    where
      Q : AdoptionResult → Ledger E → Type 0
      Q res w' = (res.action ≡ own) × Verdict fid me old own res w'

      replaced_row : Intent
      replaced_row = record q {
        owner_id = me;
        owner_heartbeat_at = w.ctx.now;
        intent_at = w.ctx.now;
        redis_lower_bound_id = my_bound;
      }

  pub refresh-Adopted :
      (r : Intent) (w : Ledger E)
      → find_intent fid w.intents ≡ some r
      → str_eq r.owner_id me ≡ true
      → OnDone (Adopted fid me old) (refresh claim r w)
  unfolding refresh change_intent heartbeat
  refresh-Adopted r w e mine = in_env_then (Adopted fid me old) w (ask svc.statement) _ (λ u e1 d. (
    record r { owner_heartbeat_at = w.ctx.now },
    find_intent-update_intent fid _ w.intents (λ z. refl) e,
    (str_eq_iff r.owner_id me).0 mine,
    refl,
    refl,
  ))
