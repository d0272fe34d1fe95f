-- ===== src/Timeseries/Reader/Rows.antt =====
-- The orders, the selection and DISTINCT ON of timeseries/reader.py.
use aslan_core.Base.{
  ℕ, Bool, true, false, Option, some, List, [], ◌∷◌, ◌++◌, ◌≡◌, refl, sym, ap, ◌∙◌, inl, inr, arith,
  Bool-cases, All,
}
use aslan_core.Base.Sort.{In, Sorted, All_map}
use aslan_core.Timeseries.Table.{ObsRow}
use aslan_core.Timeseries.Reader.{select, newest_first, oldest_first, same_ts, distinct_on}

pub newest_first_total : (a b : ObsRow) → newest_first a b ≡ false → newest_first b a ≡ true
newest_first_total a b h = ground arith

pub newest_first_trans :
    (a b c : ObsRow) → newest_first a b ≡ true → newest_first b c ≡ true → newest_first a c ≡ true
newest_first_trans a b c h k = ground arith

pub oldest_first_total : (a b : ObsRow) → oldest_first a b ≡ false → oldest_first b a ≡ true
oldest_first_total a b h = ground arith

pub oldest_first_trans :
    (a b c : ObsRow) → oldest_first a b ≡ true → oldest_first b c ≡ true → oldest_first a c ≡ true
oldest_first_trans a b c h k = ground arith

module _ (p : ObsRow → Bool) where
  pub select_sound : (rows : List ObsRow) → All (λ r. In r rows × (p r ≡ true)) (select p rows)
  unfolding select
  select_sound [] = tt
  select_sound (r ∷ rows) =
      let rest =
        All_map (λ q. In q rows × (p q ≡ true)) (λ q. In q (r ∷ rows) × (p q ≡ true))
          (select p rows) (λ q h. (inr (h.0), h.1)) (select_sound rows) in
      elim (Bool-cases (p r)) [ inl hit ↦ rw hit ((inl refl, hit), rest) | inr miss ↦ rw miss rest ]

  pub select_complete :
      (q : ObsRow) (rows : List ObsRow) → In q rows → p q ≡ true → In q (select p rows)
  unfolding select
  select_complete q [] i h = elim i [ ]
  select_complete q (r ∷ rows) (inl e) h = rw (ap p (sym e) ∙ h) (inl e)
  select_complete q (r ∷ rows) (inr i) h = elim (Bool-cases (p r)) [
    | inl hit ↦ rw hit (inr (select_complete q rows i h))
    | inr miss ↦ rw miss (select_complete q rows i h)
  ]

  pub select-append : (xs ys : List ObsRow) → select p (xs ++ ys) ≡ select p xs ++ select p ys
  unfolding select
  select-append [] ys = refl
  select-append (x ∷ xs) ys = elim (Bool-cases (p x)) [
    | inl hit ↦ rw (hit, select-append xs ys) refl
    | inr miss ↦ rw (miss, select-append xs ys) refl
  ]

  pub select_none : (xs : List ObsRow) → All (λ r. p r ≡ false) xs → select p xs ≡ []
  unfolding select
  select_none [] h = refl
  select_none (x ∷ xs) h = rw (h.0) (select_none xs h.1)

-- What holds of every row holds of the rows kept.
pub All-distinct_on :
    (P : ObsRow → Type 0) (last : Option ℕ) (rows : List ObsRow)
    → All P rows
    → All P (distinct_on last rows)
unfolding distinct_on
All-distinct_on P last [] h = tt
All-distinct_on P last (r ∷ rows) h = elim (Bool-cases (same_ts last r)) [
  | inl hit ↦ rw hit (All-distinct_on P last rows h.1)
  | inr miss ↦ rw miss (h.0, All-distinct_on P (some r.stamp.ts) rows h.1)
]

pub Sorted-distinct_on :
    (le : ObsRow → ObsRow → Bool) (last : Option ℕ) (rows : List ObsRow)
    → Sorted le rows
    → Sorted le (distinct_on last rows)
unfolding distinct_on
Sorted-distinct_on le last [] h = tt
Sorted-distinct_on le last (r ∷ rows) h = elim (Bool-cases (same_ts last r)) [
  | inl hit ↦ rw hit (Sorted-distinct_on le last rows h.1)
  | inr miss ↦ rw miss (
    All-distinct_on (λ y. le r y ≡ true) (some r.stamp.ts) rows h.0,
    Sorted-distinct_on le (some r.stamp.ts) rows h.1,
  )
]
