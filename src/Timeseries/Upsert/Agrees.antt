-- ===== src/Timeseries/Upsert/Agrees.antt =====
-- The comparison of `_reconcile_existing`: when the columns of a series are those of the request.
use aslan_core.Base.{
  ℕ, String, true, Option, none, some, ◌≡◌, refl, ap, ◌⊎◌, inr, str_eq, str_eq_iff, ==_iff,
  &&-parts,
}
use aslan_core.Timeseries.Catalog.{SeriesFields}
use aslan_core.Timeseries.Request.{Request, opt_str_eq, opt_uuid_eq}
use aslan_core.Timeseries.Upsert.{same}

opt_str_eq→eq : (a b : Option String) → opt_str_eq a b ≡ true → a ≡ b
opt_str_eq→eq none none h = refl
opt_str_eq→eq none (some b) h = absurd (cc)
opt_str_eq→eq (some a) none h = absurd (cc)
opt_str_eq→eq (some a) (some b) h = ap some ((str_eq_iff a b).0 h)

opt_uuid_eq→eq : (a b : Option ℕ) → opt_uuid_eq a b ≡ true → a ≡ b
opt_uuid_eq→eq none none h = refl
opt_uuid_eq→eq none (some b) h = absurd (cc)
opt_uuid_eq→eq (some a) none h = absurd (cc)
opt_uuid_eq→eq (some a) (some b) h = ap some ((==_iff a b).0 h)

module _ (request : Request) where
  open request use {checks, new}

  -- The columns are those of the request; the metadata is what is read back of it, or a dict that is
  -- equal to it.
  abbrev pub Agrees : SeriesFields → Type 0
  Agrees f =
      (f ≡ record new { metadata = f.metadata })
      × ((f.metadata ≡ checks.jsonb new.metadata) ⊎ (checks.dict_eq f.metadata new.metadata ≡ true))

  pub same-Agrees : (f : SeriesFields) → same request f ≡ true → Agrees f
  unfolding same
  same-Agrees f h =
      let (h1, r1) = &&-parts (str_eq f.source_id new.source_id) _ h in
      let (h2, r2) = &&-parts (opt_uuid_eq f.entity_id new.entity_id) _ r1 in
      let (h3, r3) = &&-parts (str_eq f.metric new.metric) _ r2 in
      let (h4, r4) = &&-parts (str_eq f.frequency new.frequency) _ r3 in
      let (h5, r5) = &&-parts (str_eq f.unit new.unit) _ r4 in
      let (h6, r6) = &&-parts (opt_str_eq f.currency_code new.currency_code) _ r5 in
      let (h7, r7) = &&-parts (str_eq f.restatement_basis new.restatement_basis) _ r6 in
      let (h8, r8) = &&-parts (opt_str_eq f.accounting_standard new.accounting_standard) _ r7 in
      let (h9, r9) = &&-parts (opt_str_eq f.consolidation new.consolidation) _ r8 in
      let (h10, r10) = &&-parts (opt_str_eq f.period_type new.period_type) _ r9 in
      let (h11, r11) = &&-parts (opt_str_eq f.description new.description) _ r10 in
      let (h12, h13) = &&-parts (str_eq f.pii_class new.pii_class) _ r11 in
      let e1 = (str_eq_iff f.source_id new.source_id).0 h1 in
      let e2 = opt_uuid_eq→eq f.entity_id new.entity_id h2 in
      let e3 = (str_eq_iff f.metric new.metric).0 h3 in
      let e4 = (str_eq_iff f.frequency new.frequency).0 h4 in
      let e5 = (str_eq_iff f.unit new.unit).0 h5 in
      let e6 = opt_str_eq→eq f.currency_code new.currency_code h6 in
      let e7 = (str_eq_iff f.restatement_basis new.restatement_basis).0 h7 in
      let e8 = opt_str_eq→eq f.accounting_standard new.accounting_standard h8 in
      let e9 = opt_str_eq→eq f.consolidation new.consolidation h9 in
      let e10 = opt_str_eq→eq f.period_type new.period_type h10 in
      let e11 = opt_str_eq→eq f.description new.description h11 in
      let e12 = (str_eq_iff f.pii_class new.pii_class).0 h12 in (cc, inr h13)
