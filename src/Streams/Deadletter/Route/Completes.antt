-- ===== src/Streams/Deadletter/Route/Completes.antt =====
-- The routing to its end: what RoutingComplete says.
use mathlib.Core.Path.{subst}
use aslan_core.Base.{
  ℕ, Bool, true, false, Option, none, some, ◌≡◌, refl, inl, inr, ◌&&◌, not, Bool-cases,
}
use aslan_core.Base.Sort.{In}
use aslan_core.Action.{Action, Outcome, done, raised, state, bind, put_back, OnDone, OnDone-bind}
use aslan_core.Result.{Result, ok, err, redis_error, sqlalchemy_error}
use aslan_core.Streams.Ids.{RedisId}
use aslan_core.Streams.Deadletter.Orphan.{ask, answered, deadletter_stream}
use aslan_core.Streams.Deadletter.Tables.{LogRow, find_index, in_log, conflicts}
use aslan_core.Streams.Deadletter.Intent.{
  Ledger, AdoptionAction, own, reconciled_by_us, abort, AdoptionResult, with_env, released, indexed,
}
use aslan_core.Streams.Deadletter.Adopted.{in_env_then}
use aslan_core.Streams.Deadletter.Route.{
  claim, Routing, log_letter, RoutingResult, routing_complete, routing_reconciled_by_adoption,
  routing_aborted, rolled, in_routing, reading, bound_of, capture_redis_lower_bound, xdel, step_4,
  insert_index_row, index_and_release, indexing, with_winner, after_indexing, xadd_letter,
  after_xadd, add_letter, complete, by_adoption, by_action, after_adoption, claim_intent,
  route_unindexed, after_lookup, route_logged, resume, route_to_deadletter,
}
use aslan_core.Streams.Deadletter.Route.Owned.{Owns}
use aslan_core.Streams.Deadletter.Route.Acquires.{acquire_or_adopt-Held}
use aslan_core.Streams.Deadletter.Route.Letters.{IsLog, OnDone-rolled, Logged, log_letter-Logged}
use aslan_core.Streams.Deadletter.Route.Marked.{
  IsShared, Complete, OfLetter, owned-Complete, reading-lem, xdel-log, after_begin, step_4-Complete,
}

module _ {E : Type 0} (routing : Routing E) where
  open routing use {svc, post, elsewhere, meanwhile, letter}

  -- What a routing that returns RoutingComplete leaves.
  abbrev pub Completes : Option RoutingResult → Ledger E → Type 0
  Completes (some (routing_complete rid)) w = (Complete routing) rid w
  Completes (some (routing_reconciled_by_adoption rid)) w = Unit
  Completes (some routing_aborted) w = Unit
  Completes none w = Unit

  module _ (shared : IsShared meanwhile) (fid : ℕ) where
    index_and_release-OfLetter :
        (o : Outcome (Ledger E) (Unit {0}))
        → OfLetter routing fid tt (state o)
        → OnDone (OfLetter routing fid) (index_and_release routing fid o)
    unfolding released
    index_and_release-OfLetter (raised sqlalchemy_error w) k = k
    index_and_release-OfLetter (raised _ w) k = tt
    index_and_release-OfLetter (done u w) k =
        in_env_then (OfLetter routing fid) w (ask svc.statement) _
          (λ u e d. in_env_then (OfLetter routing fid) _ (ask svc.statement) _ (λ u2 e2 d2. k))

    insert_index_row-OfLetter :
        (rid : RedisId) (w : Ledger E) (o : Outcome E (Unit {0}))
        → OfLetter routing fid tt w
        → OfLetter routing fid tt
            (state (bind (put_back (with_env w) o) (λ u. insert_index_row routing fid rid)))
    unfolding insert_index_row indexed
    insert_index_row-OfLetter rid w (raised x e) h = h
    insert_index_row-OfLetter rid w (done u e) h =
        elim (Bool-cases (in_log fid w.log && not (conflicts fid w.index))) [
          | inl free ↦ rw (free, state) h
          | inr refused ↦ rw (refused, state) h
        ]

    capture-OfLetter :
        (w : Ledger E)
        → OfLetter routing fid tt w
        → OnDone (OfLetter routing fid) (capture_redis_lower_bound routing fid w)
    unfolding capture_redis_lower_bound
    capture-OfLetter w h =
        replied (svc.xinfo_stream (deadletter_stream letter.stream) w.env).0
          (svc.xinfo_stream (deadletter_stream letter.stream) w.env).1
      where
        replied :
            (r : Result (Option RedisId)) (e : E)
            → OnDone
                (OfLetter routing fid)
                (bound_of routing fid (put_back (with_env w) (answered (r, e))))
        replied (ok none) e = h
        replied (ok (some rid)) e = h
        replied (err (redis_error gone)) e = h
        replied (err _) e = tt

    claim_intent-OfLetter :
        (bound : RedisId) (w : Ledger E)
        → OfLetter routing fid tt w
        → OnDone (OfLetter routing fid) (claim_intent routing fid bound w)
    unfolding claim_intent
    claim_intent-OfLetter bound w h = OnDone-rolled (OfLetter routing fid) (meanwhile w) _ (
        OnDone-bind (OfLetter routing fid) (OfLetter routing fid) _ _
          (acquire_or_adopt-Held letter.stream letter.group letter.message_id
            (claim routing fid bound) 3 (meanwhile w) (after_begin routing shared fid w h))
          (λ adoption v k. in_env_then (OfLetter routing fid) v (ask svc.statement) _ (λ u e d. k)))

    with_winner-Complete :
        (winner : Option RedisId) (w : Ledger E)
        → OfLetter routing fid winner w
        → OnDone (Complete routing) (with_winner routing fid winner w)
    with_winner-Complete none w h = tt
    with_winner-Complete (some winner) w h = step_4-Complete routing shared fid winner false w h

    select_index-OfLetter :
        (w : Ledger E)
        → OfLetter routing fid tt w
        → OnDone
            (OfLetter routing fid)
            (in_routing routing (reading routing fid (λ v. find_index fid v.index)) w)
    select_index-OfLetter w h = OnDone-rolled (OfLetter routing fid) (meanwhile w) _ (
        reading-lem routing fid (λ v. find_index fid v.index) (OfLetter routing fid) (meanwhile w)
          (λ e. after_begin routing shared fid w h))

    after_indexing-Complete :
        (rid : RedisId) (indexed : Bool) (w : Ledger E)
        → OfLetter routing fid indexed w
        → OnDone (Complete routing) (after_indexing routing fid rid indexed w)
    after_indexing-Complete rid true w h = step_4-Complete routing shared fid rid true w h
    after_indexing-Complete rid false w h =
        OnDone-bind (OfLetter routing fid) (Complete routing) (xdel routing fid rid w) _
          (xdel-log routing fid (Owns letter.stream letter.group letter.message_id fid) rid w h)
          (λ u v k.
            OnDone-bind (OfLetter routing fid) (Complete routing) _ _ (select_index-OfLetter v k)
              (λ winner v2 k2. with_winner-Complete winner v2 k2))

    indexing-OfLetter :
        (rid : RedisId) (w : Ledger E)
        → OfLetter routing fid tt w
        → OnDone (OfLetter routing fid) (indexing routing fid rid w)
    indexing-OfLetter rid w h =
        index_and_release-OfLetter
          (bind (put_back (with_env w) (answered (svc.statement w.env)))
            (λ u. insert_index_row routing fid rid))
          (insert_index_row-OfLetter rid w (answered (svc.statement w.env)) h)

    after_xadd-Complete :
        (rid : RedisId) (w : Ledger E)
        → OfLetter routing fid tt w
        → OnDone (Complete routing) (after_xadd routing fid rid w)
    unfolding after_xadd
    after_xadd-Complete rid w h =
        OnDone-bind (OfLetter routing fid) (Complete routing)
          (rolled (meanwhile w) (indexing routing fid rid (meanwhile w))) _
          (OnDone-rolled (OfLetter routing fid) (meanwhile w)
            (indexing routing fid rid (meanwhile w))
            (indexing-OfLetter rid (meanwhile w) (after_begin routing shared fid w h)))
          (λ indexed v k. after_indexing-Complete rid indexed v k)

    add_letter-Complete :
        (w : Ledger E)
        → OfLetter routing fid tt w
        → OnDone (Complete routing) (add_letter routing fid w)
    unfolding add_letter
    add_letter-Complete w h =
        in_env_then (Complete routing) w (xadd_letter routing fid) (after_xadd routing fid)
          (λ rid e d. after_xadd-Complete rid (with_env w e) h)

    complete-Completes :
        (m : Action (Ledger E) RedisId) (w : Ledger E)
        → OnDone (Complete routing) (m w)
        → OnDone Completes (complete routing fid m w)
    complete-Completes m w h = OnDone-bind (Complete routing) Completes (m w) _ h (λ rid v k. k)

    by_adoption-Completes :
        (o : Option RedisId) (w : Ledger E) → OnDone Completes (by_adoption routing fid o w)
    by_adoption-Completes none w = tt
    by_adoption-Completes (some rid) w = tt

    by_action-Completes :
        (action : AdoptionAction) (res : AdoptionResult) (w : Ledger E)
        → OfLetter routing fid res w
        → OnDone Completes (by_action routing fid action res w)
    by_action-Completes abort res w h = tt
    by_action-Completes reconciled_by_us res w h = by_adoption-Completes res.redis_message_id w
    by_action-Completes own res w h =
        complete-Completes (add_letter routing fid) w (add_letter-Complete w h)

    after_adoption-Completes :
        (adoption : Option AdoptionResult) (w : Ledger E)
        → OfLetter routing fid adoption w
        → OnDone Completes (after_adoption routing fid adoption w)
    after_adoption-Completes none w h = tt
    after_adoption-Completes (some res) w h = by_action-Completes res.action res w h

    after_lookup-Completes :
        (o : Option RedisId) (w : Ledger E)
        → OfLetter routing fid o w
        → OnDone Completes (after_lookup routing fid o w)
    unfolding route_unindexed
    after_lookup-Completes (some rid) w h =
        complete-Completes (step_4 routing fid rid false) w
          (step_4-Complete routing shared fid rid false w h)
    after_lookup-Completes none w h =
        OnDone-bind (OfLetter routing fid) Completes _ _ (capture-OfLetter w h) (λ bound v k.
          OnDone-bind (OfLetter routing fid) Completes _ _ (claim_intent-OfLetter bound v k)
            (λ adoption v2 k2. after_adoption-Completes adoption v2 k2))

    resume-Completes :
        (o : Option RedisId) (l : LogRow) (w : Ledger E)
        → l.redis_message_id ≡ o
        → l.failure_id ≡ fid
        → OfLetter routing fid o w
        → In l w.log
        → OnDone Completes (resume routing fid o w)
    unfolding route_logged
    resume-Completes (some rid) l w m same h i = owned-Complete routing fid rid w h (l, i, same, m)
    resume-Completes none l w m same h i =
        OnDone-bind (OfLetter routing fid) Completes _ _ (select_index-OfLetter w h)
          (λ rid v k. after_lookup-Completes rid v k)

  -- If the failure ids of the log are below the sequence and each is of one message, and other workers
  -- keep this between the sessions, a routing that returns RoutingComplete leaves the log row of its
  -- message with the id that it returns: whether it was there, in the index, sent by this routing, or
  -- is that of a winner.
  pub route_to_deadletter_completes :
      (w : Ledger E) (rid : RedisId) {w' : Ledger E}
      → IsShared meanwhile
      → IsLog w
      → route_to_deadletter routing w ≡ done (some (routing_complete rid)) w'
      → (Complete routing) rid w'
  unfolding route_to_deadletter
  route_to_deadletter_completes w rid shared log d = subst (OnDone Completes) d (
      OnDone-bind (Logged routing) Completes (log_letter routing w) _
        (log_letter-Logged routing w (shared.well w log))
        (λ l v k. resume-Completes shared l.failure_id l.redis_message_id l v refl refl k.0 k.1))
