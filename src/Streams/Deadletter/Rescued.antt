-- ===== src/Streams/Deadletter/Rescued.antt =====
-- The adoption of a stale intent whose entry is in the dead-letter stream.
use mathlib.Core.Path.{subst}
use aslan_core.Base.{ℕ, ◌≤◌, ◌<◌, String, true, false, Option, none, some, List, ◌≡◌, refl, str_eq}
use aslan_core.Action.{done, pure, OnDone, OnDone-bind}
use aslan_core.Json.{ℤ, pos}
use aslan_core.Streams.Ids.{RedisId}
use aslan_core.Streams.Ids.Order.{IsId, weight}
use aslan_core.Streams.Services.{Entry}
use aslan_core.Streams.Services.Laws.{IsRedis}
use aslan_core.Streams.Reconcile.Finds.{Lasts}
use aslan_core.Streams.Deadletter.Orphan.{
  ask, deadletter_stream, is_orphan, find_orphan_in_deadletter_stream,
}
use aslan_core.Streams.Deadletter.Search.{Ended, find_orphan_ends}
use aslan_core.Streams.Deadletter.Absent.{answered-done, find_orphan_misses_none}
use aslan_core.Streams.Deadletter.Tables.{Intent, LogRow, find_intent}
use aslan_core.Streams.Deadletter.Intent.{
  Claim, Ledger, AdoptionResult, with_env, reconcile_orphan, after_search, adopt_stale, is_fresh,
  adopt, lock_intent, insert_intent, acquire_or_adopt, acquire_or_adopt_intent,
}
use aslan_core.Streams.Deadletter.Adopted.{
  in_env_then, Reconciled, Rescued, reconcile_orphan-Reconciled,
}

-- The entry is one of the failure, not before the lower bound of the intent and not 0-0.
abbrev pub IsLanded : (String → Option ℤ) → ℕ → Entry → Intent → Type 0
IsLanded to_int fid x r =
    (is_orphan to_int (pos fid) x ≡ true)
    × IsId x.rid
    × IsId r.redis_lower_bound_id
    × (weight r.redis_lower_bound_id ≤ weight x.rid)
    × (0 < weight x.rid)

module _ {E : Type 0} (claim : Claim E) (stream_of : E → String → List Entry)
    (redis : IsRedis claim.svc stream_of) (x : Entry) (P : E → Type 0)
    (lasts : Lasts claim.svc stream_of (deadletter_stream claim.stream) x P) (r : Intent) where
  open claim use {to_int, to_text, svc, elsewhere, stream, fid, me, my_bound}

  after_search-Rescued :
      (old : List LogRow) (found : Option (Option RedisId)) (w : Ledger E)
      → ¬ (found ≡ none)
      → ¬ (found ≡ some none)
      → w.log ≡ old
      → OnDone (Rescued fid me old) (after_search claim r found w)
  after_search-Rescued old none w ends finds same = absurd (ends refl)
  after_search-Rescued old (some none) w ends finds same = absurd (finds refl)
  after_search-Rescued old (some (some rid)) w ends finds same =
      OnDone-bind (Reconciled fid me old) (Rescued fid me old) (reconcile_orphan claim r rid w)
        (λ res. pure (some res)) (reconcile_orphan-Reconciled claim old r rid w same)
        (λ res w' v. v)

  adopt_stale-Rescued :
      (old : List LogRow) (w : Ledger E)
      → IsLanded to_int fid x r
      → P w.env
      → w.log ≡ old
      → OnDone (Rescued fid me old) (adopt_stale claim r w)
  unfolding adopt_stale
  adopt_stale-Rescued old w (orphan, vx, vl, le, some_id) p same =
      in_env_then (Rescued fid me old) w
        (find_orphan_in_deadletter_stream to_int svc stream r.redis_lower_bound_id (pos fid) 10000)
        _
        (λ found e1 d.
          after_search-Rescued old found (with_env w e1)
            (λ out.
              subst
                (Ended svc stream_of redis to_int (pos fid) (deadletter_stream stream)
                  r.redis_lower_bound_id)
                out
                (find_orphan_ends svc stream_of redis to_int (pos fid) stream r.redis_lower_bound_id
                  10000 w.env vl d))
            (λ out.
              find_orphan_misses_none svc stream_of redis to_int stream (pos fid) x P
                r.redis_lower_bound_id 9999 w.env orphan vx lasts vl le some_id p (rw out at d))
            same)

  module _
      (kept : (e : E) (rows : List Intent)
        → find_intent fid rows ≡ some r
        → find_intent fid (elsewhere e rows) ≡ some r) where
    -- If the intent of the failure is another worker's, with a heartbeat of at least 60 seconds, that
    -- no one else changes, and an entry of the failure, not before the lower bound of that intent and
    -- not 0-0, stays in the dead-letter stream, the acquisition does not hand the failure out again:
    -- it raises, or it returns that it has reconciled it, with no intent left, an id of the index, and
    -- every log row of the failure marked as routed, those that
    -- were not by this call and under the id that it returns.
    pub acquire_or_adopt_intent-Rescued :
        (w : Ledger E) {res : Option AdoptionResult} {w' : Ledger E}
        → IsLanded to_int fid x r
        → find_intent fid w.intents ≡ some r
        → str_eq r.owner_id me ≡ false
        → is_fresh w.ctx.now r ≡ false
        → P w.env
        → acquire_or_adopt_intent claim w ≡ done res w'
        → Rescued fid me w.log res w'
    unfolding acquire_or_adopt insert_intent lock_intent adopt
    acquire_or_adopt_intent-Rescued w landed there other stale p d =
        subst (OnDone (Rescued fid me w.log)) d (
          in_env_then (Rescued fid me w.log) w (ask svc.statement) _ (λ u e1 d1.
            let seen = kept e1 w.intents there in
            rw seen (
              in_env_then (Rescued fid me w.log) _ (ask svc.statement) _ (λ u2 e2 d2.
                rw (kept e2 (elsewhere e1 w.intents) seen, other, stale)
                  (adopt_stale-Rescued w.log _ landed
                    (subst P (answered-done _ d2)
                      (lasts.statement e1 (subst P (answered-done _ d1) (lasts.statement w.env p))))
                    refl)))))
