-- ===== src/Timeseries/Series/RoundTrip.antt =====
-- What `get_series` returns after an `upsert_series` that returned.
use aslan_core.Base.{
  ℕ, String, Bool, true, Option, some, List, [], ◌∷◌, ◌≡◌, ap, sym, inl, inr, str_eq, str_eq_iff,
  ◌==◌, &&-parts, All, Bool-cases,
}
use mathlib.Core.Path.{subst}
use aslan_core.Base.Sort.{In, In-sort_by, All_map}
use aslan_core.Action.{done}
use aslan_core.Json.{Fields}
use aslan_core.Audit.Context.{Context}
use aslan_core.Timeseries.Catalog.{
  SeriesFields, SubjectRef, SubjectRow, Catalog, is_subject, has_subject,
}
use aslan_core.Timeseries.Gate.{Checks}
use aslan_core.Timeseries.Request.{SeriesUpsertResult}
use aslan_core.Timeseries.Upsert.{request_of, upsert_series}
use aslan_core.Timeseries.Upsert.Agrees.{Agrees}
use aslan_core.Timeseries.Upsert.Effect.{upsert_checked-Upserted}
use aslan_core.Timeseries.Series.{Series, select_subjects, series_of, with_subjects, get_series}

is_subject→eq :
    (sid : ℕ) (s : SubjectRef) (r : SubjectRow)
    → is_subject sid s r ≡ true
    → ((r.series_id == sid) ≡ true) × (s ≡ r.subject)
unfolding is_subject
is_subject→eq sid s r h =
    let (own, rest) = &&-parts (r.series_id == sid) _ h in
    let (id, role) = &&-parts (str_eq r.subject.subject_id s.subject_id) _ rest in
    let e1 = (str_eq_iff r.subject.subject_id s.subject_id).0 id in
    let e2 = (str_eq_iff r.subject.role s.role).0 role in (own, cc)

In-select_subjects :
    (sid : ℕ) (s : SubjectRef) (rows : List SubjectRow)
    → has_subject sid s rows ≡ true
    → In s (select_subjects sid rows)
unfolding has_subject select_subjects
In-select_subjects sid s [] h = absurd (cc)
In-select_subjects sid s (r ∷ rows) h = elim (Bool-cases (is_subject sid s r)) [
  | inl here ↦ let (own, same) = is_subject→eq sid s r here in rw own (inl same)
  | inr other ↦
      let rest = In-select_subjects sid s rows (rw other at h) in
      elim (Bool-cases (r.series_id == sid)) [
        | inl own ↦ rw own (inr rest)
        | inr foreign ↦ rw foreign rest
      ]
]

-- After an upsert that returns, `get_series` of its code returns a series with the id that was
-- returned, the columns that were asked for, with the metadata read back of the one given or equal to
-- it, and among its subjects each one given: on the paths of a new series, of one that was there, and
-- of a lost race.
pub get_series-upsert_series :
    (checks : Checks) (ctx : Context) (run : ℕ) (meanwhile : Catalog → Catalog) (code : String)
    (fields : SeriesFields) (metadata : Option Fields) (subjects : List SubjectRef)
    (subject_le : SubjectRef → SubjectRef → Bool) (w : Catalog) {res : SeriesUpsertResult}
    {v : Catalog}
    → upsert_series checks ctx run meanwhile code fields metadata subjects w ≡ done res v
    → (s : Series) × (get_series subject_le code v ≡ some s)
      × (s.series_id ≡ res.series_id)
      × Agrees (request_of checks ctx run meanwhile code fields metadata subjects) s.fields
      × All (λ t. In t s.subjects) subjects
unfolding upsert_series get_series series_of
get_series-upsert_series checks ctx run meanwhile code fields metadata subjects subject_le w {res}
      {v} d =
    let request = request_of checks ctx run meanwhile code fields metadata subjects in
    let (passed, ((r, found, same_id, agrees), there)) =
      upsert_checked-Upserted request metadata w d in
    (
      series_of subject_le r v.subjects,
      ap (λ o. with_subjects subject_le o v.subjects) found,
      same_id,
      agrees,
      All_map _ (λ t. In t (series_of subject_le r v.subjects).subjects) subjects
          (λ t h. In-sort_by subject_le t (select_subjects r.series_id v.subjects) (
            In-select_subjects r.series_id t v.subjects
              (subst (λ i. has_subject i t v.subjects ≡ true) (sym same_id) h.0)))
          there,
    )
