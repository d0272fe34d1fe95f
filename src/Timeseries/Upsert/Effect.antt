-- ===== src/Timeseries/Upsert/Effect.antt =====
-- The catalog after an upsert that returns.
use mathlib.Core.Path.{subst}
use aslan_core.Base.{
  ℕ, String, Bool, true, false, ◌&&◌, Option, none, some, List, [], ◌∷◌, ◌≡◌, refl, ◌∙◌, ap, inl,
  inr, All, Bool-cases, ltb,
}
use aslan_core.Action.{
  Action, Outcome, done, raised, bind, put_back, OnDone, OnDone-bind, OnDone-map, lift-eq-done,
  bind-eq-done,
}
use aslan_core.Result.{ok}
use aslan_core.Json.{Fields}
use aslan_core.Audit.Recorder.{AuditRecord, Event, record_event, assert_actor_or_strict_raise}
use aslan_core.Timeseries.Catalog.{
  CatalogRow, SubjectRef, Catalog, find_series, has_subject, insert_subject, count_observations,
}
use aslan_core.Timeseries.Catalog.Laws.{
  find_series-update_series, find_series-append, has_subject-insert_subject,
  insert_subject-has_subject,
}
use aslan_core.Timeseries.Gate.{check_request}
use aslan_core.Timeseries.Upsert.Agrees.{Agrees, same-Agrees}
use aslan_core.Timeseries.Request.{Request, SeriesUpsertResult, immutable_changes}
use aslan_core.Timeseries.Upsert.{
  audit, subject_row, persist_subjects, same, return_existing, changed, guard_immutable, update_row,
  change_recorded, upsert_series_field_change, reconcile_existing, inserted_row, insert_missing,
  insert_series, reconcile_winner, finish_insert, upsert_series_fresh, by_existing, upsert_checked,
}

module _ (request : Request) where
  open request use {checks, ctx, meanwhile, code, new, subjects}

  -- The subjects are added, and nothing else of the catalog changes.
  Persisted : ℕ → List SubjectRef → Catalog → Catalog → Type 0
  Persisted sid rest w v =
      (v.series ≡ w.series)
      × ((s : SubjectRef)
          → has_subject sid s w.subjects ≡ true
          → has_subject sid s v.subjects ≡ true)
      × All (λ s. (has_subject sid s v.subjects ≡ true) × (checks.accepts_subject s ≡ true)) rest

  persist_subjects-Persisted :
      (sid : ℕ) (rest : List SubjectRef) (w : Catalog)
      → OnDone (λ u v. Persisted sid rest w v) (persist_subjects request sid rest w)
  unfolding persist_subjects Persisted
  persist_subjects-Persisted sid [] w = (refl, λ s h. h, tt)
  persist_subjects-Persisted sid (s ∷ rest) w =
      let n = subject_row request sid s in
      let added = record w { subjects = insert_subject n w.subjects } in
      let next = persist_subjects-Persisted sid rest added in
      elim (Bool-cases (checks.accepts_subject s)) [
        | inl accepted ↦
            rw (accepted, OnDone)
              (OnDone-map (persist_subjects request sid rest added) next (λ u v p. (
                p.0,
                λ t h. p.1 t (has_subject-insert_subject sid t n w.subjects h),
                ((p.1 s (insert_subject-has_subject n w.subjects), accepted), p.2),
              )))
        | inr refused ↦ rw (refused, OnDone) tt
      ]

  audit_then :
      {B : Type 0} (Q : B → Catalog → Type 0) (r : AuditRecord) (k : Action Catalog B) (w : Catalog)
      → ((events : List Event) → OnDone Q (k (record w { events = events })))
      → OnDone Q (bind (audit request r w) (λ _. k))
  unfolding audit
  audit_then {B} Q r k w h = recorded (record_event ctx r w.events)
    where
      recorded :
          (o : Outcome (List Event) (Unit {0}))
          → OnDone Q (bind (put_back (λ events. record w { events = events }) o) (λ _. k))
      recorded (done u events) = h events
      recorded (raised x events) = tt

  -- The series is there as asked for, under the id that is returned, with the subjects.
  abbrev pub Upserted : SeriesUpsertResult → Catalog → Type 0
  Upserted res w =
      ((r : CatalogRow) × (find_series code w.series ≡ some r)
        × (r.series_id ≡ res.series_id)
        × Agrees request r.fields)
      × All
          (λ s. (has_subject res.series_id s w.subjects ≡ true) × (checks.accepts_subject s ≡ true))
          subjects

  -- The end of each path: the subjects, an audit row, and the result.
  finished :
      (r : CatalogRow) (w : Catalog) (a : AuditRecord) (created : Bool)
      → find_series code w.series ≡ some r
      → Agrees request r.fields
      → OnDone Upserted (
          bind (persist_subjects request r.series_id subjects w) (λ u v.
            bind
              (audit request a v)
              (λ u2 v2. done (record { series_id = r.series_id; created = created }) v2)))
  unfolding Persisted
  finished r w a created found agrees =
      OnDone-bind (λ u v. Persisted r.series_id subjects w v) Upserted
        (persist_subjects request r.series_id subjects w) _
        (persist_subjects-Persisted r.series_id subjects w)
        (λ u v p.
          audit_then Upserted a _ v
            (λ events. ((r, ap (find_series code) p.0 ∙ found, refl, agrees), p.2)))

  change_recorded-Upserted :
      (r : CatalogRow) (w : Catalog)
      → find_series code w.series ≡ some r
      → OnDone Upserted (bind (update_row request r w) (λ u. change_recorded request r))
  unfolding update_row change_recorded changed
  change_recorded-Upserted r w found = elim (Bool-cases (checks.accepts new && checks.refers new)) [
    | inl accepted ↦
        rw (accepted, bind)
          (finished (changed request ctx.now r) _ _ false
            (find_series-update_series code (changed request ctx.now) w.series (λ q. refl) found)
            (refl, inl refl))
    | inr refused ↦ rw (refused, bind) tt
  ]

  guarded-Upserted :
      (r : CatalogRow) (names : List String) (w : Catalog)
      → find_series code w.series ≡ some r
      → OnDone Upserted (
          bind
            (guard_immutable request r names w)
            (λ u v. bind (update_row request r v) (λ u2. change_recorded request r)))
  unfolding guard_immutable
  guarded-Upserted r [] w found = change_recorded-Upserted r w found
  guarded-Upserted r (name ∷ names) w found =
      elim (Bool-cases (ltb 0 (count_observations r.series_id w.rows))) [
        | inl some_there ↦ rw (some_there, bind) tt
        | inr none_there ↦ rw (none_there, bind) (change_recorded-Upserted r w found)
      ]

  reconcile_existing-Upserted :
      (r : CatalogRow) (w : Catalog)
      → find_series code w.series ≡ some r
      → OnDone Upserted (reconcile_existing request r w)
  unfolding reconcile_existing return_existing upsert_series_field_change
  reconcile_existing-Upserted r w found = elim (Bool-cases (same request r.fields)) [
    | inl hit ↦ rw hit (finished r w _ false found (same-Agrees request r.fields hit))
    | inr differs ↦ rw differs (guarded-Upserted r (immutable_changes r.fields new) w found)
  ]

  reconcile_winner-Upserted :
      (o : Option CatalogRow) (w : Catalog)
      → find_series code w.series ≡ o
      → OnDone Upserted (reconcile_winner request o w)
  reconcile_winner-Upserted none w found = tt
  reconcile_winner-Upserted (some r) w found = reconcile_existing-Upserted r w found

  -- After the INSERT: our row is found, or the row of a winner.
  AfterInsert : Option ℕ → Catalog → Type 0
  AfterInsert none w = Unit {0}
  AfterInsert (some sid) w = find_series code w.series ≡ some (inserted_row request sid)

  insert_missing-AfterInsert :
      (o : Option CatalogRow) (keys : Bool) (w : Catalog)
      → find_series code w.series ≡ o
      → OnDone AfterInsert (insert_missing request o keys w)
  unfolding AfterInsert
  insert_missing-AfterInsert (some r) keys w found = tt
  insert_missing-AfterInsert none false w found = tt
  insert_missing-AfterInsert none true w found =
      find_series-append code w.series (inserted_row request w.next_series_id) refl found

  finish_insert-Upserted :
      (o : Option ℕ) (w : Catalog) → AfterInsert o w → OnDone Upserted (finish_insert request o w)
  unfolding finish_insert AfterInsert
  finish_insert-Upserted none w h = reconcile_winner-Upserted (find_series code w.series) w refl
  finish_insert-Upserted (some sid) w found =
      finished (inserted_row request sid) w _ true found (refl, inl refl)

  by_existing-Upserted :
      (o : Option CatalogRow) (w : Catalog)
      → find_series code w.series ≡ o
      → OnDone Upserted (by_existing request o w)
  unfolding upsert_series_fresh insert_series
  by_existing-Upserted (some r) w found = reconcile_existing-Upserted r w found
  by_existing-Upserted none w found = elim (Bool-cases (checks.accepts new)) [
    | inl accepted ↦ rw accepted (
        OnDone-bind AfterInsert Upserted
          (insert_missing request (find_series code (meanwhile w).series) (checks.refers new)
            (meanwhile w))
          _
          (insert_missing-AfterInsert (find_series code (meanwhile w).series) (checks.refers new)
            (meanwhile w) refl)
          finish_insert-Upserted)
    | inr refused ↦ rw refused tt
  ]

  pub upsert_checked-Upserted :
      (metadata : Option Fields) (w : Catalog) {res : SeriesUpsertResult} {v : Catalog}
      → upsert_checked request metadata w ≡ done res v
      → (check_request checks code new.pii_class new.description metadata subjects ≡ ok tt)
        × Upserted res v
  unfolding upsert_checked
  upsert_checked-Upserted metadata w d =
      let (u, w1, d1, d2) = bind-eq-done (assert_actor_or_strict_raise ctx w) _ d in
      let (u2, passed, d3) =
        lift-eq-done (check_request checks code new.pii_class new.description metadata subjects) w1
          _ d2 in
      (
        passed,
        subst (OnDone Upserted) d3 (by_existing-Upserted (find_series code w1.series) w1 refl),
      )
