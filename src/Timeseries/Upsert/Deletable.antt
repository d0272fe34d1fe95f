-- ===== src/Timeseries/Upsert/Deletable.antt =====
-- The gates of `upsert_series` for an identifying series, and its subjects.
use aslan_core.Base.{ℕ, String, true, Option, some, List, [], ◌∷◌, ◌≡◌, refl, str_eq}
use aslan_core.Action.{done}
use aslan_core.Result.{
  Error, ok, >>=-eq-ok, identifying_series_pii_in_clear_text, identifying_series_metadata_pii,
}
use aslan_core.Json.{Fields}
use aslan_core.Audit.Context.{Context}
use aslan_core.Timeseries.Pii.{PiiFinding, find_pii_in_metadata}
use aslan_core.Timeseries.Catalog.{SeriesFields, SubjectRef, Catalog, has_subject}
use aslan_core.Timeseries.Gate.{
  Checks, skipped, find_pii_in_clear_text, refuse, require, check_identifying, check_keys,
  check_request,
}
use aslan_core.Timeseries.Request.{SeriesUpsertResult}
use aslan_core.Timeseries.Upsert.{request_of, upsert_series}
use aslan_core.Timeseries.Upsert.Effect.{upsert_checked-Upserted}

refuse-eq-ok :
    (found : List PiiFinding) (e : Error) {u : Unit {0}} → refuse found e ≡ ok u → found ≡ []
refuse-eq-ok [] e h = refl
refuse-eq-ok (f ∷ found) e h = absurd (cc)

require-eq-ok :
    (subjects : List SubjectRef) {u : Unit {0}}
    → require subjects ≡ ok u
    → (s : SubjectRef) × (rest : List SubjectRef) × (subjects ≡ s ∷ rest)
require-eq-ok [] h = absurd (cc)
require-eq-ok (s ∷ rest) h = (s, rest, refl)

-- No finding in the code, the description, or the metadata outside its subjects.
pub record IsClear (checks : Checks) (code : String) (description : Option String)
    (metadata : Option Fields) : Type 0 where
  pub code_clear : find_pii_in_clear_text checks.finditer "series_code" (some code) ≡ []
  pub description_clear : find_pii_in_clear_text checks.finditer "description" description ≡ []
  pub metadata_clear : find_pii_in_metadata checks.finditer skipped metadata ≡ []

check_identifying-IsClear :
    (checks : Checks) (code : String) (description : Option String) (metadata : Option Fields)
    (subjects : List SubjectRef) {u : Unit {0}}
    → check_identifying checks code description metadata subjects ≡ ok u
    → IsClear checks code description metadata
      × ((s : SubjectRef) × (rest : List SubjectRef) × (subjects ≡ s ∷ rest))
unfolding check_identifying
check_identifying-IsClear checks code description metadata subjects h =
    let (u1, e1, r1) =
      >>=-eq-ok
        (refuse (find_pii_in_clear_text checks.finditer "series_code" (some code))
          identifying_series_pii_in_clear_text)
        _ h in
    let (u2, e2, r2) =
      >>=-eq-ok
        (refuse (find_pii_in_clear_text checks.finditer "description" description)
          identifying_series_pii_in_clear_text)
        _ r1 in
    let (u3, e3, r3) = >>=-eq-ok (require subjects) _ r2 in
    (
      record {
        code_clear = refuse-eq-ok _ _ e1;
        description_clear = refuse-eq-ok _ _ e2;
        metadata_clear = refuse-eq-ok _ identifying_series_metadata_pii r3;
      },
      require-eq-ok subjects e3,
    )

-- An upsert of an identifying series that returns has found no PII in its code, its description and
-- its metadata outside the subjects, and leaves a subject of the series, by which a deletion finds it.
pub upsert_series-IsClear :
    (checks : Checks) (ctx : Context) (run : ℕ) (meanwhile : Catalog → Catalog) (code : String)
    (fields : SeriesFields) (metadata : Option Fields) (subjects : List SubjectRef) (w : Catalog)
    {res : SeriesUpsertResult} {v : Catalog}
    → str_eq fields.pii_class "identifying" ≡ true
    → upsert_series checks ctx run meanwhile code fields metadata subjects w ≡ done res v
    → IsClear checks code fields.description metadata
      × ((s : SubjectRef) × (has_subject res.series_id s v.subjects ≡ true))
unfolding upsert_series check_request
upsert_series-IsClear checks ctx run meanwhile code fields metadata subjects w identifying d =
    let request = request_of checks ctx run meanwhile code fields metadata subjects in
    let (passed, (found, there)) = upsert_checked-Upserted request metadata w d in
    let (u, keys, gate) = >>=-eq-ok (check_keys checks metadata) _ passed in
    let (clear, (s, rest, given)) =
      check_identifying-IsClear checks code fields.description metadata subjects
        (rw identifying at gate) in
    let there' = rw given at there in (clear, (s, there'.0.0))
