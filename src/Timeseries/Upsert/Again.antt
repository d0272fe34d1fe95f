-- ===== src/Timeseries/Upsert/Again.antt =====
-- The retry of an upsert.
use mathlib.Core.Path.{subst}
use aslan_core.Base.{
  ℕ, String, true, false, Option, none, some, List, [], ◌∷◌, ◌++◌, ◌≡◌, refl, sym, inl, inr,
  str_eq_refl, ==_iff, All,
}
use aslan_core.Action.{done, bind}
use aslan_core.Result.{ok}
use aslan_core.Json.{Fields, field, end, bool}
use aslan_core.Audit.Context.{Context}
use aslan_core.Audit.Attribution.{refused, record_event_lem, assert_actor_lem}
use aslan_core.Audit.Recorder.{Event, event_of}
use aslan_core.Timeseries.Catalog.{
  SeriesFields, CatalogRow, SubjectRef, Catalog, find_series, has_subject, insert_subject,
}
use aslan_core.Timeseries.Gate.{Checks, check_request}
use aslan_core.Timeseries.Request.{
  Request, SeriesUpsertResult, short_payload, opt_str_eq, opt_uuid_eq,
}
use aslan_core.Timeseries.Upsert.{
  result, series_record, audit, persist_subjects, same, return_existing, reconcile_existing,
  upsert_checked, or_empty, request_of, upsert_series,
}
use aslan_core.Timeseries.Upsert.Agrees.{Agrees}
use aslan_core.Timeseries.Upsert.Effect.{upsert_checked-Upserted}

opt_str_eq_refl : (a : Option String) → opt_str_eq a a ≡ true
opt_str_eq_refl none = refl
opt_str_eq_refl (some a) = str_eq_refl a

opt_uuid_eq_refl : (a : Option ℕ) → opt_uuid_eq a a ≡ true
opt_uuid_eq_refl none = refl
opt_uuid_eq_refl (some a) = (==_iff a a).1 refl

module _ (request : Request) where
  open request use {checks, ctx, code, new, subjects}

  Agrees-same :
      (f : SeriesFields)
      → checks.dict_eq (checks.jsonb new.metadata) new.metadata ≡ true
      → Agrees request f
      → same request f ≡ true
  unfolding same
  Agrees-same f reads (e, m) =
      rw
        (
          e,
          str_eq_refl new.source_id,
          opt_uuid_eq_refl new.entity_id,
          str_eq_refl new.metric,
          str_eq_refl new.frequency,
          str_eq_refl new.unit,
          opt_str_eq_refl new.currency_code,
          str_eq_refl new.restatement_basis,
          opt_str_eq_refl new.accounting_standard,
          opt_str_eq_refl new.consolidation,
          opt_str_eq_refl new.period_type,
          opt_str_eq_refl new.description,
          str_eq_refl new.pii_class,
        )
        (elim m [ inl stored ↦ rw stored reads | inr equal ↦ equal ])

  -- Subjects that are there are not added again.
  persist_again :
      (sid : ℕ) (rest : List SubjectRef) (w : Catalog)
      → All (λ s. (has_subject sid s w.subjects ≡ true) × (checks.accepts_subject s ≡ true)) rest
      → persist_subjects request sid rest w ≡ done tt w
  unfolding persist_subjects insert_subject
  persist_again sid [] w h = refl
  persist_again sid (s ∷ rest) w h = rw (h.0.1, h.0.0) (persist_again sid rest w h.1)

  return_existing-again :
      (r : CatalogRow) (w : Catalog)
      → refused ctx ≡ false
      → All
          (λ s. (has_subject r.series_id s w.subjects ≡ true) × (checks.accepts_subject s ≡ true))
          subjects
      → (e : Event) × (return_existing request r w
          ≡ done (result request r.series_id false) (record w { events = w.events ++ e ∷ [] }))
  unfolding return_existing audit
  return_existing-again r w fine there =
      let hit =
        series_record request r.series_id "series.idempotent_hit"
          (some (short_payload r.series_id code r.fields))
          (some (short_payload r.series_id code r.fields))
          (field "returned_existing" (bool true) end) in
      (
        event_of ctx.actor hit,
        rw (persist_again r.series_id subjects w there, bind, record_event_lem, fine) refl,
      )

  upsert_checked-again :
      (metadata : Option Fields) (r : CatalogRow) (w : Catalog)
      → refused ctx ≡ false
      → check_request checks code new.pii_class new.description metadata subjects ≡ ok tt
      → checks.dict_eq (checks.jsonb new.metadata) new.metadata ≡ true
      → find_series code w.series ≡ some r
      → Agrees request r.fields
      → All
          (λ s. (has_subject r.series_id s w.subjects ≡ true) × (checks.accepts_subject s ≡ true))
          subjects
      → (e : Event) × (upsert_checked request metadata w
          ≡ done (result request r.series_id false) (record w { events = w.events ++ e ∷ [] }))
  unfolding upsert_checked reconcile_existing
  upsert_checked-again metadata r w fine passed reads found agrees there =
      rw (assert_actor_lem, fine, bind, passed, found, Agrees-same r.fields reads agrees)
        (return_existing-again r w fine there)

-- The same upsert again, in another transaction, by anybody whom the audit does not refuse, where the
-- metadata is read back as a dict that is equal to the argument's: it returns the id that the first one
-- returned, as not created, and one audit row is all that it adds.
pub upsert_series_again :
    (checks : Checks) (ctx again : Context) (run run_again : ℕ)
    (meanwhile meanwhile_again : Catalog → Catalog) (code : String) (fields : SeriesFields)
    (metadata : Option Fields) (subjects : List SubjectRef) (w : Catalog) {res : SeriesUpsertResult}
    {v : Catalog}
    → upsert_series checks ctx run meanwhile code fields metadata subjects w ≡ done res v
    → refused again ≡ false
    → checks.dict_eq (checks.jsonb (or_empty metadata)) (or_empty metadata) ≡ true
    → (e : Event) × (upsert_series checks again run_again meanwhile_again code fields metadata
          subjects v
        ≡ done
            (record { series_id = res.series_id; created = false })
            (record v { events = v.events ++ e ∷ [] }))
unfolding upsert_series
upsert_series_again checks ctx again run run_again meanwhile meanwhile_again code fields metadata
      subjects w {res} {v} first fine reads =
    let request = request_of checks ctx run meanwhile code fields metadata subjects in
    let retry = request_of checks again run_again meanwhile_again code fields metadata subjects in
    let (passed, ((r, found, own, agrees), there)) =
      upsert_checked-Upserted request metadata w first in
    let held =
      subst
        (λ sid.
          All (λ s. (has_subject sid s v.subjects ≡ true) × (checks.accepts_subject s ≡ true))
            subjects)
        (sym own) there in
    let (e, done_again) =
      upsert_checked-again retry metadata r v fine passed reads found agrees held in
    (e, rw own at done_again)
