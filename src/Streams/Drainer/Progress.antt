-- ===== src/Streams/Drainer/Progress.antt =====
-- Where no call fails and no row is locked elsewhere, each batch publishes the rows that it selects.
use aslan_core.Base.{ℕ, String, Bool, true, false, List, [], ◌∷◌, ◌≡◌, refl, if◌then◌else◌}
use aslan_core.Action.{Action, Outcome, done, raised, put_back, Total, Total-bind, ◌>>◌}
use aslan_core.Result.{Result, ok, err}
use aslan_core.Streams.Ids.{RedisId, zero_id, redis_id_increment}
use aslan_core.Streams.Services.{Entries, Entry, Services}
use aslan_core.Streams.Reconcile.{
  Copy, Hub, call, answer, index_copy, lower_of, capture_stream_lower_bound,
}
use aslan_core.Streams.Outbox.{OutboxRow, Db, World, with_hub, in_hub, sql}
use aslan_core.Streams.Row.{Stdlib, xadd_fields, copy_for, publish_row, settle_row, process_row}

-- The calls of an undisturbed run return, and no row is locked elsewhere.
pub record NeverFails {E : Type 0} (svc : Services E) : Type 0 where
  pub statement : (e : E) → (svc.statement e).0 ≡ ok tt
  pub xadd :
      (n : String) (fields : Entries) (maxlen : ℕ) (e : E)
      → (rid : RedisId) × ((svc.xadd n fields maxlen e).0 ≡ ok rid)
  pub xrevrange :
      (n : String) (count : ℕ) (e : E)
      → (page : List Entry) × ((svc.xrevrange n count e).0 ≡ ok page)
  pub locked : (e : E) (oid : ℕ) → svc.locked e oid ≡ false

abbrev pub Anything : {S A : Type 0} → A → S → Type 0
Anything a s = Unit

module _ {E : Type 0} where
  answer-Total :
      {A : Type 0} (h : Hub E) (r : Result A × E) (a : A) → r.0 ≡ ok a → Total Anything (answer h r)
  answer-Total h (ok b, e) a d = tt
  answer-Total h (err x, e) a d = absurd (cc)

  in_hub-Total :
      {A : Type 0} (w : World E) (o : Outcome (Hub E) A)
      → Total Anything o
      → Total Anything (put_back (with_hub w) o)
  in_hub-Total w (done a h) t = t
  in_hub-Total w (raised e h) t = t

  either-Total :
      (b : Bool) (x y : RedisId) (h : Hub E) → Total Anything (if b then done x h else done y h)
  either-Total true x y h = tt
  either-Total false x y h = tt

module _ {E : Type 0} (svc : Services E) (fair : NeverFails svc) where
  pub sql-Total : (w : World E) → Total Anything (sql svc w)
  sql-Total w =
      in_hub-Total w (call svc.statement w.hub)
        (answer-Total w.hub (svc.statement w.hub.env) tt (fair.statement w.hub.env))

  -- A statement, and what comes after it.
  after_sql :
      {A : Type 0} (Q : A → World E → Type 0) (k : Action (World E) A) (w : World E)
      → ((v : World E) → Total Q (k v))
      → Total Q ((sql svc >> k) w)
  after_sql Q k w t = Total-bind Anything Q (sql svc w) (λ _. k) (sql-Total w) (λ _ v _. t v)

  index_copy-Total : (c : Copy) (h : Hub E) → Total Anything (index_copy svc c h)
  unfolding index_copy
  index_copy-Total c h =
      Total-bind Anything Anything (call svc.statement h) _
        (answer-Total h (svc.statement h.env) tt (fair.statement h.env))
        (λ _ g _.
          Total-bind Anything Anything (call svc.statement g) _
            (answer-Total g (svc.statement g.env) tt (fair.statement g.env)) (λ _ k _. tt))

  lower_of-Total :
      (o : Outcome (Hub E) (List Entry)) → Total Anything o → Total Anything (lower_of svc o)
  unfolding lower_of
  lower_of-Total (done [] h) t = tt
  lower_of-Total (done (x ∷ older) h) t = either-Total _ zero_id (redis_id_increment x.rid) h
  lower_of-Total (raised e h) t = absurd t

  capture-Total : (n : String) (h : Hub E) → Total Anything (capture_stream_lower_bound svc n h)
  unfolding capture_stream_lower_bound
  capture-Total n h =
      let (page, e) = fair.xrevrange n 1 h.env in
      lower_of-Total (call (svc.xrevrange n 1) h) (answer-Total h (svc.xrevrange n 1 h.env) page e)

  module _ (lib : Stdlib) (maxlen : ℕ) where
    publish_row-Total :
        (r : OutboxRow) (w : World E) → Total Anything (publish_row svc lib maxlen r w)
    unfolding publish_row
    publish_row-Total r w =
        let fields : Entries = xadd_fields svc lib maxlen r in
        let (rid, e) = fair.xadd r.stream_name fields maxlen w.hub.env in
        Total-bind Anything Anything (in_hub (call (svc.xadd r.stream_name fields maxlen)) w) _
          (in_hub-Total w (call (svc.xadd r.stream_name fields maxlen) w.hub)
            (answer-Total w.hub (svc.xadd r.stream_name fields maxlen w.hub.env) rid e))
          (λ id v _.
            Total-bind Anything Anything (in_hub (index_copy svc (copy_for svc lib maxlen r id)) v)
              _
              (in_hub-Total v (index_copy svc (copy_for svc lib maxlen r id) v.hub)
                (index_copy-Total (copy_for svc lib maxlen r id) v.hub))
              (λ _ u _.
                after_sql Anything _ u
                  (λ u1. after_sql Anything _ _ (λ u2. after_sql Anything _ _ (λ u3. tt)))))

    settle_row-Total :
        (r : OutboxRow) (lower : RedisId) (savepoint : Db) (o : Outcome (World E) RedisId)
        → Total Anything o
        → Total (λ b v. b ≡ true) (settle_row svc lib maxlen r lower savepoint o)
    unfolding settle_row
    settle_row-Total r lower savepoint (done rid v) t = refl
    settle_row-Total r lower savepoint (raised e v) t = absurd t

    pub process_row-Total :
        (r : OutboxRow) (w : World E) → Total (λ b v. b ≡ true) (process_row svc lib maxlen r w)
    unfolding process_row
    process_row-Total r w =
        after_sql (λ b v. b ≡ true) _ w
          (λ u.
            Total-bind Anything (λ b v. b ≡ true)
              (in_hub (capture_stream_lower_bound svc r.stream_name) u) _
              (in_hub-Total u (capture_stream_lower_bound svc r.stream_name u.hub)
                (capture-Total r.stream_name u.hub))
              (λ lower v _.
                settle_row-Total r lower v.live (publish_row svc lib maxlen r v)
                  (publish_row-Total r v)))
