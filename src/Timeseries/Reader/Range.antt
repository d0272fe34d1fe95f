-- ===== src/Timeseries/Reader/Range.antt =====
-- `ObservationReader.range` of timeseries/reader.py keeps, of each `ts`, the newest row it may see.
use mathlib.Core.Path.{subst}
use aslan_core.Base.{
  ℕ, Bool, true, false, Option, none, some, List, [], ◌∷◌, ltb, leb, ◌≤◌, ◌≡◌, refl, sym, ◌⊎◌, inl,
  inr, arith, Bool-cases, All,
}
use aslan_core.Base.Sort.{
  In, Sorted, All_map, All_map_both, sort_by, All-sort_by, sort_by-Sorted, Sorted-sort_by,
  In-sort_by, In_of_All, Sorted-map,
}
use aslan_core.Timeseries.Table.{ObsRow}
use aslan_core.Timeseries.Reader.{
  where_range, select, oldest_first, ts_asc, same_ts, distinct_on, range_rows,
}
use aslan_core.Timeseries.Reader.Rows.{
  oldest_first_total, oldest_first_trans, select_sound, select_complete, All-distinct_on,
}

abbrev pub ts_before : ObsRow → ObsRow → Bool
ts_before a b = ltb a.stamp.ts b.stamp.ts

-- A row of `out` stands for `q`: it has its `ts` and was not known earlier.
abbrev pub StoodFor : List ObsRow → ObsRow → Type 0
StoodFor out q =
    (r : ObsRow) × In r out × (r.stamp.ts ≡ q.stamp.ts) × (q.stamp.as_of ≤ r.stamp.as_of)

abbrev after_last : Option ℕ → ObsRow → Bool
after_last none x = true
after_last (some t) x = ltb t x.stamp.ts

abbrev from_last : Option ℕ → ObsRow → Bool
from_last none x = true
from_last (some t) x = leb t x.stamp.ts

after_kept :
    (last : Option ℕ) (r x : ObsRow)
    → from_last last r ≡ true
    → same_ts last r ≡ false
    → after_last (some r.stamp.ts) x ≡ true
    → after_last last x ≡ true
after_kept none r x h k a = refl
after_kept (some t) r x h k a = ground arith

after_kept_here :
    (last : Option ℕ) (r : ObsRow)
    → from_last last r ≡ true
    → same_ts last r ≡ false
    → after_last last r ≡ true
after_kept_here none r h k = refl
after_kept_here (some t) r h k = ground arith

from_sorted : (r y : ObsRow) → oldest_first r y ≡ true → from_last (some r.stamp.ts) y ≡ true
from_sorted r y h = ground arith

-- One row of each `ts`, in order.
distinct_increasing :
    (last : Option ℕ) (rows : List ObsRow)
    → Sorted oldest_first rows
    → All (λ x. from_last last x ≡ true) rows
    → All (λ x. after_last last x ≡ true) (distinct_on last rows)
      × Sorted ts_before (distinct_on last rows)
unfolding distinct_on
distinct_increasing last [] s h = (tt, tt)
distinct_increasing last (r ∷ rows) s h = elim (Bool-cases (same_ts last r)) [
  | inl hit ↦ rw hit (distinct_increasing last rows s.1 h.1)
  | inr miss ↦
      let (after, increasing) = distinct_increasing (some r.stamp.ts) rows s.1 (
        All_map (λ y. oldest_first r y ≡ true) (λ y. from_last (some r.stamp.ts) y ≡ true) rows
          (from_sorted r) s.0) in
      rw miss (
        (
          after_kept_here last r h.0 miss,
          All_map (λ x. after_last (some r.stamp.ts) x ≡ true) (λ x. after_last last x ≡ true)
              (distinct_on (some r.stamp.ts) rows) (λ x. after_kept last r x h.0 miss) after,
        ),
        (after, increasing),
      )
]

abbrev Covered : Option ℕ → List ObsRow → ObsRow → Type 0
Covered last out q = (last ≡ some q.stamp.ts) ⊎ StoodFor out q

Covered-skip : (last : Option ℕ) (r : ObsRow) → same_ts last r ≡ true → last ≡ some r.stamp.ts
Covered-skip none r h = absurd (ground arith)
Covered-skip (some t) r h = ground arith

Covered-keep :
    (last : Option ℕ) (r q : ObsRow) (out : List ObsRow)
    → oldest_first r q ≡ true
    → Covered (some r.stamp.ts) out q
    → Covered last (r ∷ out) q
Covered-keep last r q out h (inl e) = inr (r, inl refl, ground (arith, e), ground (arith, e))
Covered-keep last r q out h (inr (x, i, same, known)) = inr (x, inr i, same, known)

distinct_on_skip :
    (last : Option ℕ) (r : ObsRow) (rows : List ObsRow)
    → same_ts last r ≡ true
    → distinct_on last (r ∷ rows) ≡ distinct_on last rows
unfolding distinct_on
distinct_on_skip last r rows h = rw h refl

distinct_on_keep :
    (last : Option ℕ) (r : ObsRow) (rows : List ObsRow)
    → same_ts last r ≡ false
    → distinct_on last (r ∷ rows) ≡ r ∷ distinct_on (some r.stamp.ts) rows
unfolding distinct_on
distinct_on_keep last r rows h = rw h refl

-- Every row of the sorted rows is stood for.
distinct_covers :
    (last : Option ℕ) (rows : List ObsRow)
    → Sorted oldest_first rows
    → All (Covered last (distinct_on last rows)) rows
distinct_covers last [] s = tt
distinct_covers last (r ∷ rows) s = elim (Bool-cases (same_ts last r)) [
  | inl hit ↦
      subst (λ out. All (Covered last out) (r ∷ rows)) (sym (distinct_on_skip last r rows hit))
        (inl (Covered-skip last r hit), distinct_covers last rows s.1)
  | inr miss ↦
      let out : List ObsRow = distinct_on (some r.stamp.ts) rows in
      subst (λ out. All (Covered last out) (r ∷ rows)) (sym (distinct_on_keep last r rows miss))
        (
          inr (r, inl refl, refl, omega arith),
          All_map_both (λ q. oldest_first r q ≡ true) (Covered (some r.stamp.ts) out)
              (Covered last (r ∷ out)) rows (λ q. Covered-keep last r q out) s.0
              (distinct_covers (some r.stamp.ts) rows s.1),
        )
]

all_from_none : (rows : List ObsRow) → All (λ x. from_last none x ≡ true) rows
all_from_none [] = tt
all_from_none (r ∷ rows) = (refl, all_from_none rows)

ts_asc_of_before : (a b : ObsRow) → ts_before a b ≡ true → ts_asc a b ≡ true
ts_asc_of_before a b h = ground arith

-- The rows of an answer: each may be seen, one of each `ts`, in order, and every row that may be seen
-- is stood for.
pub record IsRange (sid start stop : ℕ) (pit : Option ℕ) (rows out : List ObsRow) : Type 0 where
  pub visible : All (λ r. In r rows × (where_range sid start stop pit r ≡ true)) out
  pub increasing : Sorted ts_before out
  pub covered : (q : ObsRow) → In q rows → where_range sid start stop pit q ≡ true → StoodFor out q

module _ (sid start stop : ℕ) (pit : Option ℕ) (rows : List ObsRow) where
  abbrev sorted : List ObsRow
  sorted = sort_by oldest_first (select (where_range sid start stop pit) rows)

  stood :
      (q : ObsRow) → Covered none (distinct_on none sorted) q → StoodFor (distinct_on none sorted) q
  stood q (inl e) = absurd (ground arith)
  stood q (inr c) = c

  pub range_rows_lem : IsRange sid start stop pit rows (range_rows sid start stop pit rows)
  unfolding range_rows
  range_rows_lem =
      let order : Sorted oldest_first sorted =
        Sorted-sort_by oldest_first oldest_first_total oldest_first_trans
          (select (where_range sid start stop pit) rows) in
      let increasing : Sorted ts_before (distinct_on none sorted) =
        (distinct_increasing none sorted order (all_from_none sorted)).1 in
      let same =
        sort_by-Sorted ts_asc (distinct_on none sorted)
          (Sorted-map ts_before ts_asc (distinct_on none sorted) ts_asc_of_before increasing) in
      subst (IsRange sid start stop pit rows) (sym same) record {
        visible =
            All-distinct_on (λ r. In r rows × (where_range sid start stop pit r ≡ true)) none sorted
              (All-sort_by oldest_first (λ r. In r rows × (where_range sid start stop pit r ≡ true))
                (select (where_range sid start stop pit) rows)
                (select_sound (where_range sid start stop pit) rows));
        increasing = increasing;
        covered = λ q i v. stood q (
            In_of_All (Covered none (distinct_on none sorted)) q sorted
              (distinct_covers none sorted order)
              (In-sort_by oldest_first q (select (where_range sid start stop pit) rows)
                (select_complete (where_range sid start stop pit) q rows i v)));
      }
