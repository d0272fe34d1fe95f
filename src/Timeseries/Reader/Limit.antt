-- ===== src/Timeseries/Reader/Limit.antt =====
-- `ObservationReader.range` of timeseries/reader.py with its LIMIT.
use mathlib.Core.List.{append-nil}
use aslan_core.Base.{
  ℕ, zero, suc, Option, none, some, List, [], ◌∷◌, ◌++◌, map, take, drop, length, ◌≤◌, ◌≡◌, refl,
  sym, ap, ◌⊎◌, inl, inr, arith,
}
use mathlib.Core.Path.{subst}
use aslan_core.Timeseries.Table.{ObsRow}
use aslan_core.Timeseries.Reader.{observation_of, range_rows, range}
use aslan_core.Timeseries.Reader.Range.{IsRange, range_rows_lem}

-- What a limit keeps of a list, and what it leaves out: without a limit, nothing is left out; with
-- one, at most so many are kept, and as many as that if anything is left out.
abbrev pub Limits : Option ℕ → List ObsRow → List ObsRow → Type 0
Limits none kept rest = rest ≡ []
Limits (some n) kept rest = (length kept ≤ n) × ((rest ≡ []) ⊎ (length kept ≡ n))

take-Limits : (n : ℕ) (xs : List ObsRow) → Limits (some n) (take n xs) (drop n xs)
take-Limits zero [] = (omega arith, inl refl)
take-Limits zero (x ∷ xs) = (omega arith, inr refl)
take-Limits (suc n) [] = (omega arith, inl refl)
take-Limits (suc n) (x ∷ xs) =
    let (short, all) = take-Limits n xs in
    (
      omega (arith, short),
      elim all [ inl none_left ↦ inl none_left | inr full ↦ inr (ap suc full) ],
    )

take_and_drop : (n : ℕ) (xs : List ObsRow) → xs ≡ take n xs ++ drop n xs
take_and_drop zero xs = refl
take_and_drop (suc n) [] = refl
take_and_drop (suc n) (x ∷ xs) = ap (λ ys. x ∷ ys) (take_and_drop n xs)

module _ (sid start stop : ℕ) (pit : Option ℕ) where
  -- `range` answers with the observations of some rows, `kept`, in order. With the rows that its limit
  -- leaves out they are visible rows of the window, strictly increasing in `ts`, and every visible row
  -- of the window has a row of its `ts` among the kept and the left out whose `as_of` is not before its
  -- own. Without a limit, nothing is left out; with one, no more rows than it says are kept, and
  -- exactly as many if any is left out.
  pub range_lem :
      (limit : Option ℕ) (rows : List ObsRow)
      → (kept : List ObsRow) × (rest : List ObsRow) × (range sid start stop pit limit rows
          ≡ map observation_of kept)
        × IsRange sid start stop pit rows (kept ++ rest)
        × Limits limit kept rest
  unfolding range
  range_lem none rows =
      let all = range_rows sid start stop pit rows in
      (
        all,
        [],
        refl,
        subst (IsRange sid start stop pit rows) (sym (append-nil all))
            (range_rows_lem sid start stop pit rows),
        refl,
      )
  range_lem (some n) rows =
      let all = range_rows sid start stop pit rows in
      (
        take n all,
        drop n all,
        refl,
        subst (IsRange sid start stop pit rows) (take_and_drop n all)
            (range_rows_lem sid start stop pit rows),
        take-Limits n all,
      )
