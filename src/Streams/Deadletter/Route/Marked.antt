-- ===== src/Streams/Deadletter/Route/Marked.antt =====
-- The last step of the routing, which marks the log row.
use aslan_core.Base.{ℕ, String, Bool, true, false, Option, none, some, List, ◌≡◌, refl, ◌&&◌, not}
use aslan_core.Base.Sort.{In, In_of_All}
use aslan_core.Action.{put_back, OnDone, OnDone-bind}
use aslan_core.Result.{Result, ok, err, redis_error}
use aslan_core.Streams.Ids.{RedisId}
use aslan_core.Streams.Deadletter.Orphan.{ask, answered, deadletter_stream}
use aslan_core.Streams.Deadletter.Tables.{LogRow, marks, mark_routed, select_routed, rid_eq}
use aslan_core.Streams.Deadletter.Intent.{Ledger, with_env, routed}
use aslan_core.Streams.Deadletter.Adopted.{in_env_then, audit_then}
use aslan_core.Streams.Deadletter.Route.{
  Routing, swallow_redis, reading, xdel, take_back, lost, after_update, step_4,
}
use aslan_core.Streams.Deadletter.Route.Owned.{
  KeyIs, Owns, marks_lem, select_routed_lem, mark_routed-Owns,
}
use aslan_core.Streams.Deadletter.Route.Letters.{IsLog, OnDone-rolled}

-- What other workers commit keeps the log: failure ids come from the sequence, and keys stay.
pub record IsShared {E : Type 0} (meanwhile : Ledger E → Ledger E) : Type 0 where
  pub well : (w : Ledger E) → IsLog w → IsLog (meanwhile w)
  pub keeps :
      (s g m : String) (fid : ℕ) (w : Ledger E)
      → Owns s g m fid w.log
      → Owns s g m fid (meanwhile w).log

module _ {E : Type 0} (routing : Routing E) where
  open routing use {svc, post, elsewhere, meanwhile, letter}

  -- The log row of the message has the id.
  abbrev pub HasRouted : RedisId → List LogRow → Type 0
  HasRouted rid log =
      (l : LogRow) × In l log
      × KeyIs letter.stream letter.group letter.message_id l
      × (l.redis_message_id ≡ some rid)

  abbrev pub Complete : RedisId → Ledger E → Type 0
  Complete rid w = HasRouted rid w.log

  abbrev pub OfLetter : {A : Type 0} → ℕ → A → Ledger E → Type 0
  OfLetter fid a w = Owns letter.stream letter.group letter.message_id fid w.log

  pub owned-Complete :
      (fid : ℕ) (rid : RedisId) (w : Ledger E)
      → OfLetter fid rid w
      → (l : LogRow) × In l w.log × (l.failure_id ≡ fid) × (l.redis_message_id ≡ some rid)
      → Complete rid w
  owned-Complete fid rid w owns (l, i, same, m) = (
    l,
    i,
    In_of_All (λ b. b.failure_id ≡ fid → KeyIs letter.stream letter.group letter.message_id b) l
        w.log owns.1 i same,
    m,
  )

  module _ (fid : ℕ) where
    pub reading-lem :
        {A : Type 0} (f : Ledger E → A) (C : A → Ledger E → Type 0) (w : Ledger E)
        → ((e : E) → C (f (with_env w e)) (with_env w e))
        → OnDone C (reading routing fid f w)
    reading-lem f C w h = in_env_then C w (ask svc.statement) _ (λ u e d. h e)

    -- XDEL leaves the log alone.
    pub xdel-log :
        (C : List LogRow → Type 0) (rid : RedisId) (w : Ledger E)
        → C w.log
        → OnDone (λ u v. C v.log) (xdel routing fid rid w)
    unfolding xdel
    xdel-log C rid w h =
        swallowed (post.xdel (deadletter_stream letter.stream) rid w.env).0
          (post.xdel (deadletter_stream letter.stream) rid w.env).1
      where
        swallowed :
            (r : Result (Unit {0})) (e : E)
            → OnDone (λ u v. C v.log) (swallow_redis (put_back (with_env w) (answered (r, e))))
        swallowed (ok u) e = h
        swallowed (err (redis_error gone)) e = h
        swallowed (err _) e = tt

    take_back-log :
        (C : List LogRow → Type 0) (ours : Bool) (rid : RedisId) (w : Ledger E)
        → C w.log
        → OnDone (λ u v. C v.log) (take_back routing fid ours rid w)
    take_back-log C false rid w h = h
    take_back-log C true rid w h =
        in_env_then (λ u v. C v.log) w (ask svc.statement) _ (λ u e d. xdel-log C rid _ h)

    lost-Complete :
        (ours : Bool) (rid : RedisId) (winner : Option RedisId) (w : Ledger E)
        → select_routed fid w.log ≡ winner
        → OfLetter fid rid w
        → OnDone Complete (lost routing fid ours rid winner w)
    lost-Complete ours rid none w e h = in_env_then Complete w (ask svc.statement) _ (λ u e2 d. tt)
    lost-Complete ours rid (some winner) w e h =
        OnDone-bind (λ u v. HasRouted winner v.log) Complete
          (take_back routing fid (ours && not (rid_eq winner rid)) rid w) _
          (take_back-log (HasRouted winner) (ours && not (rid_eq winner rid)) rid w
            (owned-Complete fid winner w h (select_routed_lem fid w.log winner e)))
          (λ u v routed. in_env_then Complete v (ask svc.statement) _ (λ u2 e2 d. routed))

    after_update-Complete :
        (marked ours : Bool) (rid : RedisId) (w : Ledger E)
        → marks fid w.log ≡ marked
        → OfLetter fid rid w
        → OnDone Complete (after_update routing fid marked ours rid w)
    unfolding routed
    after_update-Complete true ours rid w e h = audit_then Complete _ _ _ (λ events.
        in_env_then Complete _ (ask svc.statement) _ (λ u e2 d.
          owned-Complete fid rid (record w { log = mark_routed fid rid w.ctx.now w.log })
            (mark_routed-Owns letter.stream letter.group letter.message_id fid rid w.ctx.now w.log
              h)
            (marks_lem fid rid w.ctx.now w.log e)))
    after_update-Complete false ours rid w e h =
        OnDone-bind (λ winner v. (select_routed fid v.log ≡ winner) × OfLetter fid rid v) Complete _
          _
          (reading-lem (λ v. select_routed fid v.log)
            (λ winner v. (select_routed fid v.log ≡ winner) × OfLetter fid rid v) w
            (λ e2. (refl, h)))
          (λ winner v k. lost-Complete ours rid winner v k.0 k.1)

  module _ (shared : IsShared meanwhile) (fid : ℕ) where
    pub after_begin : (w : Ledger E) → OfLetter fid tt w → OfLetter fid tt (meanwhile w)
    after_begin w h = shared.keeps letter.stream letter.group letter.message_id fid w h

    pub step_4-Complete :
        (rid : RedisId) (ours : Bool) (w : Ledger E)
        → OfLetter fid rid w
        → OnDone Complete (step_4 routing fid rid ours w)
    unfolding step_4
    step_4-Complete rid ours w h = OnDone-rolled Complete (meanwhile w) _ (
        in_env_then Complete (meanwhile w) (ask svc.statement) _ (λ u e d.
          after_update-Complete fid (marks fid (meanwhile w).log) ours rid _ refl
            (after_begin w h)))
