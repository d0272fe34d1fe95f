-- ===== src/Streams/Row/Frame.antt =====
-- What one row of a batch leaves alone, whether it returns or raises: the committed tables, the actor
-- and the time; and the committed copies only grow.
use mathlib.Core.Path.{subst}
use aslan_core.Base.{
  ℕ, String, Bool, List, [], ◌∷◌, ◌≡◌, refl, sym, ◌==◌, inl, inr, ◌&&◌, Bool-cases,
}
use aslan_core.Base.Sort.{In}
use aslan_core.Action.{Action, Outcome, done, raised, state, Keeps, Keeps-bind, ◌>>=◌, ◌>>◌}
use aslan_core.Result.{Error, Result, redis_error, attribute_error, cancelled_error}
use aslan_core.Streams.Ids.{RedisId}
use aslan_core.Streams.Services.{Entry, Services}
use aslan_core.Streams.Reconcile.{
  Copy, Hub, call, index_copy, lower_of, capture_stream_lower_bound, reconcile_unindexed_xadd,
}
use aslan_core.Streams.Reconcile.Kept.{index_copy-Keeps, reconcile-Keeps}
use aslan_core.Streams.Reconcile.Finds.{durable-Stable, answer-durable}
use aslan_core.Streams.Outbox.{OutboxRow, Db, World, in_hub, sql, change}
use aslan_core.Streams.Outbox.Laws.{Grows, OnlyGrows, Keeps-in_hub}
use aslan_core.Streams.Row.{
  Stdlib, xadd_fields, copy_for, swallowed, swallow, publish_row, reconcile_row, recover_row,
  settle_row, process_row,
}

pub record Frame {E : Type 0} (w v : World E) : Type 0 where
  pub grows : Grows w.hub v.hub
  pub saved : v.saved ≡ w.saved
  pub ctx : v.ctx ≡ w.ctx

pub Frame-refl : {E : Type 0} (w : World E) → Frame w w
Frame-refl w = record { grows = λ c i. i; saved = refl; ctx = refl }

pub in_hub-Frame :
    {E A : Type 0} (w : World E) (m : Action (Hub E) A) → OnlyGrows m → Keeps (Frame w) (in_hub m)
in_hub-Frame w m grows =
    Keeps-in_hub (Frame w) m
      (λ v f. record { grows = λ c i. grows v.hub c (f.grows c i); saved = f.saved; ctx = f.ctx })

pub change-Frame : {E : Type 0} (w : World E) (f : World E → Db) → Keeps (Frame w) (change f)
change-Frame w f v r = record { grows = r.grows; saved = r.saved; ctx = r.ctx }

module _ {E : Type 0} (svc : Services E) where
  pub call-OnlyGrows : {A : Type 0} (f : E → Result A × E) → OnlyGrows (call f)
  call-OnlyGrows f h c i = subst (In c) (sym (answer-durable h (f h.env))) i

  pub index_copy-OnlyGrows : (c : Copy) → OnlyGrows (index_copy svc c)
  index_copy-OnlyGrows c h d = index_copy-Keeps svc (λ g. In d g.durable) (durable-Stable svc d) c h

  reconcile-OnlyGrows :
      (n event : String) (lower : RedisId) → OnlyGrows (reconcile_unindexed_xadd svc n event lower)
  reconcile-OnlyGrows n event lower h d =
      reconcile-Keeps svc (λ g. In d g.durable) (durable-Stable svc d) n event lower h

  lower_of-Grows :
      (g : Hub E) (o : Outcome (Hub E) (List Entry))
      → Grows g (state o)
      → Grows g (state (lower_of svc o))
  unfolding lower_of
  lower_of-Grows g (raised (redis_error gone) h) k = k
  lower_of-Grows g (raised attribute_error h) k = k
  lower_of-Grows g (raised _ h) k = k
  lower_of-Grows g (done [] h) k = k
  lower_of-Grows g (done (x ∷ older) h) k = elim (Bool-cases (x.rid.ms == 0 && x.rid.seq == 0)) [
    | inl zero ↦ rw (zero, state) k
    | inr other ↦ rw (other, state) k
  ]

  capture-OnlyGrows : (n : String) → OnlyGrows (capture_stream_lower_bound svc n)
  unfolding capture_stream_lower_bound
  capture-OnlyGrows n h =
      lower_of-Grows h (call (svc.xrevrange n 1) h) (call-OnlyGrows (svc.xrevrange n 1) h)

  pub sql-Frame : (w : World E) → Keeps (Frame w) (sql svc)
  sql-Frame w = in_hub-Frame w (call svc.statement) (call-OnlyGrows svc.statement)

-- Every outcome of the action is framed.
pub record Framed {E A : Type 0} (w : World E) (m : Action (World E) A) : Type 0 where
  pub keeps : Keeps (Frame w) m

pub then_do :
    {E A B : Type 0} {w : World E} {m : Action (World E) A} {f : A → Action (World E) B}
    → Framed w m
    → ((a : A) → Framed w (f a))
    → Framed w (m >>= f)
then_do {w = w} {m = m} {f = f} first rest = record {
  keeps = Keeps-bind (Frame w) m f first.keeps (λ a. (rest a).keeps);
}

pub then_pure : {E A : Type 0} {w : World E} {a : A} → Framed w (λ v. done a v)
then_pure = record { keeps = λ v f. f }

module _ {E : Type 0} (svc : Services E) (w : World E) where
  pub then_sql : {A : Type 0} {k : Action (World E) A} → Framed w k → Framed w (sql svc >> k)
  then_sql {k = k} framed = record {
    keeps = Keeps-bind (Frame w) (sql svc) (λ _. k) (sql-Frame svc w) (λ _. framed.keeps);
  }

  pub last_sql : Framed w (sql svc)
  last_sql = record { keeps = sql-Frame svc w }

pub then_change :
    {E A : Type 0} {w : World E} {f : World E → Db} {k : Action (World E) A}
    → Framed w k
    → Framed w (change f >> k)
then_change {w = w} {f = f} {k = k} framed = record {
  keeps = Keeps-bind (Frame w) (change f) (λ _. k) (change-Frame w f) (λ _. framed.keeps);
}

in_hub-Framed :
    {E A : Type 0} {w : World E} (m : Action (Hub E) A) → OnlyGrows m → Framed w (in_hub m)
in_hub-Framed {w = w} m grows = record { keeps = in_hub-Frame w m grows }

module _ {E : Type 0} (svc : Services E) (lib : Stdlib) (maxlen : ℕ) (w : World E) where
  pub publish_row-Framed : (r : OutboxRow) → Framed w (publish_row svc lib maxlen r)
  unfolding publish_row
  publish_row-Framed r =
      let send : Action (Hub E) RedisId =
        call (svc.xadd r.stream_name (xadd_fields svc lib maxlen r) maxlen) in
      then_do (in_hub-Framed send (call-OnlyGrows svc _)) (λ rid.
        then_do
          (in_hub-Framed (index_copy svc (copy_for svc lib maxlen r rid))
            (index_copy-OnlyGrows svc _))
          (λ _.
            then_sql svc w (then_change (then_sql svc w (then_change (then_sql svc w then_pure))))))

  swallow-Frame :
      (o : Outcome (World E) Bool) → Frame w (state o) → Frame w (state (swallow svc lib maxlen o))
  swallow-Frame (done b v) f = f
  swallow-Frame (raised e v) f = elim (Bool-cases (swallowed e)) [
    | inl caught ↦ rw (caught, state) f
    | inr passed ↦ rw (passed, state) f
  ]

  reconcile_row-Framed :
      (r : OutboxRow) (lower : RedisId) → Framed w (reconcile_row svc lib maxlen r lower)
  unfolding reconcile_row
  reconcile_row-Framed r lower = record {
    keeps = λ v f.
        swallow-Frame (in_hub (reconcile_unindexed_xadd svc r.stream_name r.event_id lower) v) (
          in_hub-Frame w (reconcile_unindexed_xadd svc r.stream_name r.event_id lower)
            (reconcile-OnlyGrows svc r.stream_name r.event_id lower) v f);
  }

  recover_row-Framed :
      (r : OutboxRow) (lower : RedisId) (e : Error) (savepoint : Db)
      → Framed w (recover_row svc lib maxlen r lower e savepoint)
  unfolding recover_row
  recover_row-Framed r lower e savepoint = then_sql svc w (
      then_change (
        then_do (reconcile_row-Framed r lower)
          (λ _. then_sql svc w (then_sql svc w (then_change (then_sql svc w (last_sql svc w)))))))

  settle_row-Frame :
      (r : OutboxRow) (lower : RedisId) (savepoint : Db) (o : Outcome (World E) RedisId)
      → Frame w (state o)
      → Frame w (state (settle_row svc lib maxlen r lower savepoint o))
  unfolding settle_row
  settle_row-Frame r lower savepoint (done rid v) f = f
  settle_row-Frame r lower savepoint (raised cancelled_error v) f = f
  settle_row-Frame r lower savepoint (raised e v) f =
      Keeps-bind (Frame w) (recover_row svc lib maxlen r lower e savepoint) _
        (recover_row-Framed r lower e savepoint).keeps (λ _ u g. g) v f

  -- A row changes neither the committed tables nor the context, and loses no committed copy.
  pub process_row-Framed : (r : OutboxRow) → Framed w (process_row svc lib maxlen r)
  unfolding process_row
  process_row-Framed r = then_sql svc w (
      then_do
        (in_hub-Framed (capture_stream_lower_bound svc r.stream_name)
          (capture-OnlyGrows svc r.stream_name))
        (λ lower. record {
          keeps = λ v f.
              settle_row-Frame r lower v.live (publish_row svc lib maxlen r v)
                ((publish_row-Framed r).keeps v f);
        }))
