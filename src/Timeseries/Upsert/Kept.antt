-- ===== src/Timeseries/Upsert/Kept.antt =====
-- Invariants of the catalog under the statements of an upsert.
use aslan_core.Base.{
  ℕ, String, Option, none, some, List, [], ◌∷◌, ◌≡◌, refl, ◌⊎◌, inl, inr, ◌&&◌, ltb, Bool-cases,
  arith,
}
use aslan_core.Action.{
  Outcome, done, raised, state, bind, put_back, lift, Keeps, Keeps-bind, Keeps-lift,
}
use aslan_core.Json.{Fields}
use aslan_core.Audit.Recorder.{
  AuditRecord, Event, record_event, assert_actor_or_strict_raise, assert_actor-Keeps,
}
use aslan_core.Timeseries.Gate.{check_request}
use aslan_core.Timeseries.Catalog.{
  CatalogRow, SubjectRef, SubjectRow, Catalog, find_series, update_series, count_observations,
}
use aslan_core.Timeseries.Request.{immutable_changes, Request}
use aslan_core.Timeseries.Upsert.{
  audit, persist_subjects, same, return_existing, changed, guard_immutable, update_row,
  change_recorded, upsert_series_field_change, reconcile_existing, insert_missing, insert_series,
  reconcile_winner, finish_insert, upsert_series_fresh, by_existing, upsert_checked,
}

module _ (request : Request) where
  open request use {ctx, meanwhile, code, new, subjects}

  -- The UPDATE is sent for a row that is found under the code, and where it changes no fixed field, or
  -- the series has no observation.
  pub record Stable (Q : Catalog → Type 0) : Type 0 where
    pub subject : (w : Catalog) (rows : List SubjectRow) → Q w → Q (record w { subjects = rows })
    pub event : (w : Catalog) (events : List Event) → Q w → Q (record w { events = events })
    pub update :
        (w : Catalog) (r : CatalogRow)
        → find_series code w.series ≡ some r
        → (immutable_changes r.fields new ≡ []) ⊎ (count_observations r.series_id w.rows ≡ 0)
        → Q w
        → Q (record w { series = update_series r.series_id (changed request ctx.now) w.series })
    pub others : (w : Catalog) → Q w → Q (meanwhile w)
    pub insert :
        (w : Catalog)
        → Q w
        → Q (
            state
              (insert_missing request (find_series code w.series) (request.checks.refers new) w))

  -- Only the subjects change.
  persist_subjects-Keeps :
      (Q : Catalog → Type 0) (sid : ℕ) (rest : List SubjectRef)
      → ((w : Catalog) (rows : List SubjectRow) → Q w → Q (record w { subjects = rows }))
      → Keeps Q (persist_subjects request sid rest)
  unfolding persist_subjects
  persist_subjects-Keeps Q sid [] k w q = q
  persist_subjects-Keeps Q sid (s ∷ rest) k w q =
      let next = persist_subjects-Keeps Q sid rest k _ (k w _ q) in
      elim (Bool-cases (request.checks.accepts_subject s)) [
        | inl accepted ↦ rw (accepted, state) next
        | inr refused ↦ rw (refused, state) q
      ]

  module _ (Q : Catalog → Type 0) (stable : Stable Q) where
    persist-Keeps : (sid : ℕ) → Keeps Q (persist_subjects request sid subjects)
    persist-Keeps sid = persist_subjects-Keeps Q sid subjects stable.subject

    audit-Keeps : (r : AuditRecord) → Keeps Q (audit request r)
    unfolding audit
    audit-Keeps r w q = recorded (record_event ctx r w.events)
      where
        recorded :
            (o : Outcome (List Event) (Unit {0}))
            → Q (state (put_back (λ events. record w { events = events }) o))
        recorded (done u events) = stable.event w events q
        recorded (raised x events) = stable.event w events q

    return_existing-Keeps : (r : CatalogRow) → Keeps Q (return_existing request r)
    unfolding return_existing
    return_existing-Keeps r =
        Keeps-bind Q (persist_subjects request r.series_id subjects) _ (persist-Keeps r.series_id)
          (λ u. Keeps-bind Q (audit request _) _ (audit-Keeps _) (λ u2 w q. q))

    -- From the UPDATE on.
    changed_rest-Keeps :
        (w : Catalog) (r : CatalogRow)
        → Q (record w { series = update_series r.series_id (changed request ctx.now) w.series })
        → Q w
        → Q (state (bind (update_row request r w) (λ u. change_recorded request r)))
    unfolding update_row change_recorded
    changed_rest-Keeps w r q' q =
        elim (Bool-cases (request.checks.accepts new && request.checks.refers new)) [
          | inl accepted ↦
              rw (accepted, bind, state)
                (Keeps-bind Q (persist_subjects request r.series_id subjects) _
                  (persist-Keeps r.series_id)
                  (λ u. Keeps-bind Q (audit request _) _ (audit-Keeps _) (λ u2 v k. k)) _ q')
          | inr refused ↦ rw (refused, bind, state) q
        ]

    guarded-Keeps :
        (r : CatalogRow) (names : List String) (w : Catalog)
        → immutable_changes r.fields new ≡ names
        → find_series code w.series ≡ some r
        → Q w
        → Q (
            state (
              bind
                (guard_immutable request r names w)
                (λ u v. bind (update_row request r v) (λ u2. change_recorded request r))))
    unfolding guard_immutable
    guarded-Keeps r [] w e found q = changed_rest-Keeps w r (stable.update w r found (inl e) q) q
    guarded-Keeps r (name ∷ names) w e found q =
        elim (Bool-cases (ltb 0 (count_observations r.series_id w.rows))) [
          | inl some_there ↦ rw (some_there, bind, state) q
          | inr none_there ↦
              rw (none_there, bind)
                (changed_rest-Keeps w r (stable.update w r found (inr (ground arith)) q) q)
        ]

    pub reconcile_existing-Keeps :
        (r : CatalogRow) (w : Catalog)
        → find_series code w.series ≡ some r
        → Q w
        → Q (state (reconcile_existing request r w))
    unfolding reconcile_existing upsert_series_field_change
    reconcile_existing-Keeps r w found q = elim (Bool-cases (same request r.fields)) [
      | inl hit ↦ rw hit (return_existing-Keeps r w q)
      | inr differs ↦ rw differs (guarded-Keeps r (immutable_changes r.fields new) w refl found q)
    ]

    reconcile_winner-Keeps :
        (o : Option CatalogRow) (w : Catalog)
        → find_series code w.series ≡ o
        → Q w
        → Q (state (reconcile_winner request o w))
    reconcile_winner-Keeps none w found q = q
    reconcile_winner-Keeps (some r) w found q = reconcile_existing-Keeps r w found q

    finish_insert-Keeps : (o : Option ℕ) → Keeps Q (finish_insert request o)
    unfolding finish_insert
    finish_insert-Keeps none w q = reconcile_winner-Keeps (find_series code w.series) w refl q
    finish_insert-Keeps (some sid) w q =
        Keeps-bind Q (persist_subjects request sid subjects) _ (persist-Keeps sid)
          (λ u. Keeps-bind Q (audit request _) _ (audit-Keeps _) (λ u2 v k. k)) w q

    insert_series-Keeps : Keeps Q (insert_series request)
    unfolding insert_series
    insert_series-Keeps w q = elim (Bool-cases (request.checks.accepts new)) [
      | inl accepted ↦ rw (accepted, state) (stable.insert (meanwhile w) (stable.others w q))
      | inr refused ↦ rw (refused, state) (stable.others w q)
    ]

    by_existing-Keeps :
        (o : Option CatalogRow) (w : Catalog)
        → find_series code w.series ≡ o
        → Q w
        → Q (state (by_existing request o w))
    unfolding upsert_series_fresh
    by_existing-Keeps none w found q =
        Keeps-bind Q (insert_series request) (finish_insert request) insert_series-Keeps
          finish_insert-Keeps w q
    by_existing-Keeps (some r) w found q = reconcile_existing-Keeps r w found q

    pub upsert_checked-Keeps :
        (metadata : Option Fields) → Keeps Q (upsert_checked request metadata)
    unfolding upsert_checked
    upsert_checked-Keeps metadata =
        Keeps-bind Q (assert_actor_or_strict_raise ctx) _ (assert_actor-Keeps Q ctx) (λ u.
          Keeps-bind Q
            (lift
              (check_request request.checks code new.pii_class new.description metadata subjects))
            _ (Keeps-lift Q _) (λ u2 w q. by_existing-Keeps (find_series code w.series) w refl q))
