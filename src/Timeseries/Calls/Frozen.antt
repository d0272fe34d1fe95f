-- ===== src/Timeseries/Calls/Frozen.antt =====
-- The fixed columns of a series under any calls of the writers.
use aslan_core.Base.{
  ℕ, ◌+◌, ◌<◌, Bool, true, false, List, [], ◌∷◌, ◌++◌, All, Bool-cases, inl, inr, ◌==◌, arith,
}
use aslan_core.Action.{Outcome, done, raised, state, put_back}
use aslan_core.Audit.Context.{Context}
use aslan_core.Timeseries.Types.{ObservationIn, Env}
use aslan_core.Timeseries.Catalog.{SeriesFields, Catalog, count_observations}
use aslan_core.Timeseries.Gate.{Checks}
use aslan_core.Timeseries.Table.{ObsRow, insert_rows}
use aslan_core.Timeseries.Table.Laws.{insert_rows-append}
use aslan_core.Timeseries.Writer.{Session, write}
use aslan_core.Timeseries.Writer.Kept.{write-Keeps}
use aslan_core.Timeseries.Upsert.{upsert_series, request_of}
use aslan_core.Timeseries.Upsert.Kept.{upsert_checked-Keeps}
use aslan_core.Timeseries.Upsert.Frozen.{IsFrozen, IsFrozen-Stable}
use aslan_core.Timeseries.Calls.{
  WriterCall, write_call, upsert_call, observations_of, with_observations, after, write_in, call,
  calls,
}

count-append :
    (sid : ℕ) (rows new : List ObsRow)
    → 0 < count_observations sid rows
    → 0 < count_observations sid (rows ++ new)
unfolding count_observations
count-append sid [] new h = absurd (omega arith)
count-append sid (r ∷ rows) new h = elim (Bool-cases (r.series_id == sid)) [
  | inl own ↦ rw own (omega arith)
  | inr other ↦
      let left : 0 < 0 + count_observations sid rows = rw other at h in
      rw other (omega (arith, count-append sid rows new (omega (arith, left))))
]

count-insert_rows :
    (sid : ℕ) (ns rows : List ObsRow)
    → 0 < count_observations sid rows
    → 0 < count_observations sid (insert_rows ns rows).0
count-insert_rows sid ns rows h =
    let (new, grown, _, _) = insert_rows-append ns rows in rw grown (count-append sid rows new h)

after_kept :
    {A : Type 0} (Q : Catalog → Type 0) (savepoint : Bool) (w : Catalog) (o : Outcome Catalog A)
    → Q w
    → Q (state o)
    → Q (after savepoint w o)
after_kept Q savepoint w (done a v) q k = k
after_kept Q true w (raised e v) q k = q
after_kept Q false w (raised e v) q k = k

module _ (env : Env) (checks : Checks) (ctx : Context) (run : ℕ) (sid : ℕ) (f : SeriesFields) where
  -- What other transactions commit during an upsert keeps the series.
  abbrev pub OthersKeep : Bool × WriterCall → Type 0
  OthersKeep (savepoint, write_call _ _ _) = Unit {0}
  OthersKeep (savepoint, upsert_call _ _ _ _ meanwhile) =
      (w : Catalog) → IsFrozen sid f w → IsFrozen sid f (meanwhile w)

  write_in-IsFrozen :
      (n occurred_at : ℕ) (observations : List ObservationIn) (w : Catalog)
      → IsFrozen sid f w
      → IsFrozen sid f (state (write_in env checks ctx run n occurred_at observations w))
  unfolding write_in
  write_in-IsFrozen n occurred_at observations w k =
      back (write env ctx run n occurred_at observations (observations_of w)) (
        write-Keeps (λ rows. 0 < count_observations sid rows) (count-insert_rows sid) env ctx run n
          occurred_at observations (observations_of w) k.observed)
    where
      back :
          {A : Type 0} (o : Outcome Session A)
          → 0 < count_observations sid (state o).rows
          → IsFrozen sid f (state (put_back (with_observations w) o))
      back (done a s) h = record { given_out = k.given_out; fixed = k.fixed; observed = h }
      back (raised e s) h = record { given_out = k.given_out; fixed = k.fixed; observed = h }

  call-IsFrozen :
      (savepoint : Bool) (next : WriterCall) (w : Catalog)
      → OthersKeep (savepoint, next)
      → IsFrozen sid f w
      → IsFrozen sid f (call env checks ctx run savepoint next w)
  unfolding call upsert_series
  call-IsFrozen savepoint (write_call n occurred_at observations) w others k =
      after_kept (IsFrozen sid f) savepoint w
        (write_in env checks ctx run n occurred_at observations w) k
        (write_in-IsFrozen n occurred_at observations w k)
  call-IsFrozen savepoint (upsert_call code fields metadata subjects meanwhile) w others k =
      after_kept (IsFrozen sid f) savepoint w
        (upsert_series checks ctx run meanwhile code fields metadata subjects w) k
        (upsert_checked-Keeps (request_of checks ctx run meanwhile code fields metadata subjects)
          (IsFrozen sid f)
          (IsFrozen-Stable (request_of checks ctx run meanwhile code fields metadata subjects) sid f
            others)
          metadata w k)

  -- A series whose id the sequence has given out and that has an observation keeps its source, frequency
  -- and unit, and an observation, under every sequence of writes and upserts of every series, whether
  -- they return, raise, or are rolled back to a savepoint, if what other transactions commit during an
  -- upsert keeps them.
  pub calls-IsFrozen :
      (steps : List (Bool × WriterCall)) (w : Catalog)
      → All OthersKeep steps
      → IsFrozen sid f w
      → IsFrozen sid f (calls env checks ctx run steps w)
  unfolding calls
  calls-IsFrozen [] w others k = k
  calls-IsFrozen ((savepoint, next) ∷ rest) w others k =
      calls-IsFrozen rest (call env checks ctx run savepoint next w) others.1
        (call-IsFrozen savepoint next w others.0 k)
