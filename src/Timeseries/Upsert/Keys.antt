-- ===== src/Timeseries/Upsert/Keys.antt =====
-- The keys of the catalog under upserts.
use mathlib.Core.Path.{subst}
use aslan_core.Base.{
  ℕ, Bool, true, false, ◌<◌, String, Option, none, some, List, [], ◌∷◌, ◌≡◌, refl, ◌≢◌, sym,
  All-append, arith,
}
use aslan_core.Base.Sort.{All_map, All_map_both}
use aslan_core.Action.{state}
use aslan_core.Audit.Context.{Context}
use aslan_core.Json.{Fields}
use aslan_core.Timeseries.Catalog.{SeriesFields, CatalogRow, SubjectRef, Catalog, find_series}
use aslan_core.Timeseries.Catalog.Laws.{
  IsKeyed, Apart, Distinct-append, Distinct-update_series, All-update_series, All-none_found,
  KeepsKeys,
}
use aslan_core.Timeseries.Gate.{Checks}
use aslan_core.Timeseries.Request.{Request}
use aslan_core.Timeseries.Upsert.{changed, inserted_row, insert_missing, upsert_series, request_of}
use aslan_core.Timeseries.Upsert.Kept.{Stable, upsert_checked-Keeps}

module _ (request : Request) where
  open request use {ctx, meanwhile, code, new}

  insert_missing-IsKeyed :
      (o : Option CatalogRow) (keys : Bool) (w : Catalog)
      → find_series code w.series ≡ o
      → IsKeyed w
      → IsKeyed (state (insert_missing request o keys w))
  insert_missing-IsKeyed (some r) keys w e k = record {
    given_out = All_map _ _ w.series (λ q lt. omega arith) k.given_out;
    distinct = k.distinct;
  }
  insert_missing-IsKeyed none false w e k = record {
    given_out = All_map _ _ w.series (λ q lt. omega arith) k.given_out;
    distinct = k.distinct;
  }
  insert_missing-IsKeyed none true w e k = record {
    given_out =
        All-append _ w.series (inserted_row request w.next_series_id ∷ [])
          (All_map _ _ w.series (λ q lt. omega arith) k.given_out) (omega arith, tt);
    distinct = Distinct-append w.series (inserted_row request w.next_series_id) k.distinct (
        All_map_both (λ q. q.series_code ≢ code) (λ q. q.series_id < w.next_series_id)
          (λ q. Apart q (inserted_row request w.next_series_id)) w.series
          (λ q c lt. (c, λ e. omega (arith, lt, e))) (All-none_found code w.series e) k.given_out);
  }

  changed-KeepsKeys : KeepsKeys (changed request ctx.now)
  unfolding changed
  changed-KeepsKeys q = (refl, refl)

  IsKeyed-Stable : ((w : Catalog) → IsKeyed w → IsKeyed (meanwhile w)) → Stable request IsKeyed
  IsKeyed-Stable others = record {
    subject = λ w rows k. record { given_out = k.given_out; distinct = k.distinct };
    event = λ w events k. record { given_out = k.given_out; distinct = k.distinct };
    update = λ w r found free k. record {
      given_out =
          All-update_series _ r.series_id (changed request ctx.now) w.series
            (λ q own lt. subst (λ i. i < w.next_series_id) (sym (changed-KeepsKeys q).1) lt)
            k.given_out;
      distinct =
          Distinct-update_series r.series_id (changed request ctx.now) w.series changed-KeepsKeys
            k.distinct;
    };
    others = others;
    insert = λ w k. insert_missing-IsKeyed (find_series code w.series) _ w refl k;
  }

-- That codes and ids are distinct, and the ids given out by the sequence, is kept by an upsert that
-- returns or raises on every path, the lost race for a fresh code included, if other transactions keep
-- it.
pub upsert_series-IsKeyed :
    (checks : Checks) (ctx : Context) (run : ℕ) (meanwhile : Catalog → Catalog) (code : String)
    (fields : SeriesFields) (metadata : Option Fields) (subjects : List SubjectRef) (w : Catalog)
    → ((v : Catalog) → IsKeyed v → IsKeyed (meanwhile v))
    → IsKeyed w
    → IsKeyed (state (upsert_series checks ctx run meanwhile code fields metadata subjects w))
unfolding upsert_series
upsert_series-IsKeyed checks ctx run meanwhile code fields metadata subjects w others k =
    upsert_checked-Keeps (request_of checks ctx run meanwhile code fields metadata subjects) IsKeyed
      (IsKeyed-Stable (request_of checks ctx run meanwhile code fields metadata subjects) others)
      metadata w k
