-- ===== src/Timeseries/Reader/Latest.antt =====
-- `ObservationReader.latest` of timeseries/reader.py finds the newest row it may see.
use aslan_core.Base.{
  ℕ, true, false, Option, none, some, List, ◌∷◌, ◌≡◌, refl, ◌⊎◌, inl, inr, arith, Bool-cases, All,
  List-cases,
}
use aslan_core.Base.Sort.{
  In, Sorted, sort_by, All-sort_by, sort_by-Sorted, Sorted-sort_by, In-sort_by, In_of_All,
  Sorted-map,
}
use aslan_core.Timeseries.Table.{ObsRow}
use aslan_core.Timeseries.Reader.{
  observation_of, where_latest, select, newest_first, ts_desc, distinct_on, latest, first,
}
use aslan_core.Timeseries.Reader.Rows.{
  newest_first_total, newest_first_trans, select_sound, select_complete, Sorted-distinct_on,
}

-- A visible row that no visible row comes before.
abbrev pub IsNewest : ℕ → Option ℕ → List ObsRow → ObsRow → Type 0
IsNewest sid pit rows r =
    In r rows
    × (where_latest sid pit r ≡ true)
    × ((q : ObsRow) → In q rows → where_latest sid pit q ≡ true → newest_first r q ≡ true)

ts_desc_of_newest_first : (a b : ObsRow) → newest_first a b ≡ true → ts_desc a b ≡ true
ts_desc_of_newest_first a b h = ground arith

newest_first_refl : (a : ObsRow) → newest_first a a ≡ true
newest_first_refl a = ground arith

-- The head of the sorted rows is what the two outer clauses keep.
first_of_Sorted :
    (r : ObsRow) (rows : List ObsRow)
    → Sorted newest_first (r ∷ rows)
    → first (sort_by ts_desc (distinct_on none (r ∷ rows))) ≡ some (observation_of r)
unfolding distinct_on
first_of_Sorted r rows h =
    rw
      (sort_by-Sorted ts_desc (r ∷ distinct_on (some r.stamp.ts) rows) (
        Sorted-map newest_first ts_desc (r ∷ distinct_on (some r.stamp.ts) rows)
          ts_desc_of_newest_first (Sorted-distinct_on newest_first none (r ∷ rows) h)))
      refl

module _ (sid : ℕ) (pit : Option ℕ) (rows : List ObsRow) where
  kept :
      (q : ObsRow)
      → In q rows
      → where_latest sid pit q ≡ true
      → In q (sort_by newest_first (select (where_latest sid pit) rows))
  kept q i v =
      In-sort_by newest_first q (select (where_latest sid pit) rows)
        (select_complete (where_latest sid pit) q rows i v)

  IsNewest-of_head :
      (r : ObsRow) (rest : List ObsRow)
      → sort_by newest_first (select (where_latest sid pit) rows) ≡ r ∷ rest
      → IsNewest sid pit rows r
  IsNewest-of_head r rest e =
      let sound =
        All-sort_by newest_first (λ q. In q rows × (where_latest sid pit q ≡ true))
          (select (where_latest sid pit) rows) (select_sound (where_latest sid pit) rows) in
      let here : (In r rows × (where_latest sid pit r ≡ true))
          × All (λ q. In q rows × (where_latest sid pit q ≡ true)) rest =
        rw e at sound in
      let sorted =
        Sorted-sort_by newest_first newest_first_total newest_first_trans
          (select (where_latest sid pit) rows) in
      let ordered : Sorted newest_first (r ∷ rest) = rw e at sorted in
      (
        here.0.0,
        here.0.1,
        λ q i v.
            let there : In q (r ∷ rest) = rw e at kept q i v in
            In_of_All (λ x. newest_first r x ≡ true) q (r ∷ rest) (newest_first_refl r, ordered.0)
              there,
      )

  -- `latest` finds nothing when no row of the series is visible at the point in time, and otherwise a
  -- visible row of the series that is first by `ts` and, at one `ts`, by `as_of`, among all such rows.
  pub latest_lem :
      ((latest sid pit rows ≡ none) × ((q : ObsRow) → In q rows → where_latest sid pit q ≡ false))
      ⊎ ((r : ObsRow) × (latest sid pit rows ≡ some (observation_of r)) × IsNewest sid pit rows r)
  unfolding latest distinct_on sort_by
  latest_lem = elim (List-cases (sort_by newest_first (select (where_latest sid pit) rows))) [
    | inl e ↦ inl (
      rw e refl,
      λ q i. elim (Bool-cases (where_latest sid pit q)) [
        | inl seen ↦ absurd (rw e at kept q i seen)
        | inr miss ↦ miss
      ],
    )
    | inr (r, rest, e) ↦
        let sorted =
          Sorted-sort_by newest_first newest_first_total newest_first_trans
            (select (where_latest sid pit) rows) in
        inr (r, rw e (first_of_Sorted r rest (rw e at sorted)), IsNewest-of_head r rest e)
  ]
