-- ===== src/Timeseries/Upsert/Frozen.antt =====
-- The fixed columns of a series that has observations, under upserts.
use mathlib.Core.Path.{subst}
use aslan_core.Base.{
  ℕ, ◌<◌, String, Bool, true, false, not, Option, none, some, List, [], ◌∷◌, ◌≡◌, sym, ◌∙◌, ◌⊎◌,
  inl, inr, str_eq, str_eq_iff, All, All-append, Bool-cases, arith,
}
use aslan_core.Action.{state}
use aslan_core.Timeseries.Catalog.{
  SeriesFields, CatalogRow, Catalog, find_series, update_series, count_observations,
}
use aslan_core.Timeseries.Catalog.Laws.{All-update_series, All-find_series}
use aslan_core.Timeseries.Request.{Request, when, immutable_changes}
use aslan_core.Timeseries.Upsert.{changed, inserted_row, insert_missing}
use aslan_core.Timeseries.Upsert.Kept.{Stable}

-- The columns that `_upsert_series_field_change` guards.
abbrev pub SameFixed : SeriesFields → SeriesFields → Type 0
SameFixed a b = (a.source_id ≡ b.source_id) × (a.frequency ≡ b.frequency) × (a.unit ≡ b.unit)

no_change :
    (a b : String) (name : String) (rest : List String)
    → when (not (str_eq a b)) name rest ≡ []
    → (a ≡ b) × (rest ≡ [])
no_change a b name rest e = elim (Bool-cases (str_eq a b)) [
  | inl same ↦ ((str_eq_iff a b).0 same, rw same at e)
  | inr differs ↦ let e' : ◌≡◌ {A = List String} (name ∷ rest) [] = rw differs at e in absurd (cc)
]

no_changes : (old new : SeriesFields) → immutable_changes old new ≡ [] → SameFixed old new
unfolding immutable_changes
no_changes old new e =
    let (source, e1) = no_change old.source_id new.source_id "source_id" _ e in
    let (frequency, e2) = no_change old.frequency new.frequency "frequency" _ e1 in
    let (unit, e3) = no_change old.unit new.unit "unit" _ e2 in (source, frequency, unit)

-- The series `sid`, which has the fixed columns of `f`, has an observation.
pub record IsFrozen (sid : ℕ) (f : SeriesFields) (w : Catalog) : Type 0 where
  pub given_out : sid < w.next_series_id
  pub fixed : All (λ r. r.series_id ≡ sid → SameFixed r.fields f) w.series
  pub observed : 0 < count_observations sid w.rows

module _ (request : Request) (sid : ℕ) (f : SeriesFields) where
  open request use {ctx, meanwhile, code, new}

  update-IsFrozen :
      (w : Catalog) (r : CatalogRow)
      → find_series code w.series ≡ some r
      → (immutable_changes r.fields new ≡ []) ⊎ (count_observations r.series_id w.rows ≡ 0)
      → IsFrozen sid f w
      → All
          (λ q. q.series_id ≡ sid → SameFixed q.fields f)
          (update_series r.series_id (changed request ctx.now) w.series)
  unfolding changed
  update-IsFrozen w r found free k =
      All-update_series Fixed r.series_id (changed request ctx.now) w.series
        (λ q own fixed same. still free (sym own ∙ same)) k.fixed
    where
      Fixed : CatalogRow → Type 0
      Fixed q = q.series_id ≡ sid → SameFixed q.fields f

      still :
          (immutable_changes r.fields new ≡ []) ⊎ (count_observations r.series_id w.rows ≡ 0)
          → r.series_id ≡ sid
          → SameFixed new f
      still (inl none_changed) is_sid =
          let (s, q, u) = no_changes r.fields new none_changed in
          let (s', q', u') = (All-find_series Fixed code w.series k.fixed found).0 is_sid in
          (sym s ∙ s', sym q ∙ q', sym u ∙ u')
      still (inr unobserved) is_sid = absurd (
          omega (arith, k.observed, subst (λ i. count_observations i w.rows ≡ 0) is_sid unobserved))

  insert_missing-IsFrozen :
      (o : Option CatalogRow) (keys : Bool) (w : Catalog)
      → IsFrozen sid f w
      → IsFrozen sid f (state (insert_missing request o keys w))
  insert_missing-IsFrozen (some r) keys w k = record {
    given_out = omega (arith, k.given_out);
    fixed = k.fixed;
    observed = k.observed;
  }
  insert_missing-IsFrozen none false w k = record {
    given_out = omega (arith, k.given_out);
    fixed = k.fixed;
    observed = k.observed;
  }
  insert_missing-IsFrozen none true w k = record {
    given_out = omega (arith, k.given_out);
    fixed =
        All-append _ w.series (inserted_row request w.next_series_id ∷ []) k.fixed
          (λ same. absurd (omega (arith, k.given_out, same)), tt);
    observed = k.observed;
  }

  pub IsFrozen-Stable :
      ((w : Catalog) → IsFrozen sid f w → IsFrozen sid f (meanwhile w))
      → Stable request (IsFrozen sid f)
  IsFrozen-Stable others = record {
    subject =
        λ w rows k. record { given_out = k.given_out; fixed = k.fixed; observed = k.observed };
    event =
        λ w events k. record { given_out = k.given_out; fixed = k.fixed; observed = k.observed };
    update = λ w r found free k. record {
      given_out = k.given_out;
      fixed = update-IsFrozen w r found free k;
      observed = k.observed;
    };
    others = others;
    insert = λ w k. insert_missing-IsFrozen (find_series code w.series) _ w k;
  }
