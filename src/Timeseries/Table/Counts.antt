-- ===== src/Timeseries/Table/Counts.antt =====
-- How many keys an INSERT takes, and which hashes it leaves.
use aslan_core.Base.{
  ℕ, suc, ◌+◌, Bool, true, false, none, some, List, [], ◌∷◌, ◌++◌, is_some, is_none, if◌then◌else◌,
  ◌≡◌, refl, ap, arith, Bool-cases, inl, inr, length,
}
use aslan_core.Timeseries.Types.{Stamp, stamp_eq}
use aslan_core.Timeseries.Table.{ObsRow, select_hash, insert_rows, mem, difference, stamps}
use aslan_core.Timeseries.Table.Laws.{
  Distinct, OfSeries, stamp_eq→eq, stamp_eq_refl, at_of_series, select-append, mem-inserted,
}

count_if : (Stamp → Bool) → List Stamp → ℕ
count_if p [] = 0
count_if p (k ∷ keys) = (if p k then 1 else 0) + count_if p keys

count_if_congr :
    (p q : Stamp → Bool) (keys : List Stamp)
    → ((k : Stamp) → mem k keys ≡ true → p k ≡ q k)
    → count_if p keys ≡ count_if q keys
unfolding count_if mem
count_if_congr p q [] h = refl
count_if_congr p q (k ∷ keys) h =
    let here : p k ≡ q k = h k (rw stamp_eq_refl) in
    rw here (omega (arith, count_if_congr p q keys (λ j m. h j (ground arith))))

length-difference :
    (xs ys : List Stamp) → length (difference xs ys) + count_if (λ k. mem k ys) xs ≡ length xs
unfolding difference count_if
length-difference [] ys = omega arith
length-difference (x ∷ xs) ys = ground (arith, length-difference xs ys)

length-stamps : (ns : List ObsRow) → length (stamps ns) ≡ length ns
length-stamps [] = refl
length-stamps (n ∷ ns) = ap suc (length-stamps ns)

module _ (sid : ℕ) where
  -- Within one series a row is found exactly for the stamps of the rows.
  pub select-stamps :
      (k : Stamp) (ns : List ObsRow)
      → OfSeries sid ns
      → is_some (select_hash sid k ns) ≡ mem k (stamps ns)
  unfolding select_hash mem
  select-stamps k [] h = refl
  select-stamps k (n ∷ ns) h = ground (arith, select-stamps k ns h.1, at_of_series n sid k h.0)

  select_single :
      (n : ObsRow) (k : Stamp)
      → n.series_id ≡ sid
      → select_hash sid k (n ∷ []) ≡ (if stamp_eq n.stamp k then some n.payload_hash else none)
  unfolding select_hash
  select_single n k h = rw (at_of_series n sid k h)

  -- No row has the key.
  vacant : List ObsRow → Stamp → Bool
  vacant rows k = is_none (select_hash sid k rows)

  length-inserted :
      (ns rows : List ObsRow)
      → OfSeries sid ns
      → Distinct (stamps ns)
      → length (insert_rows ns rows).1 ≡ count_if (vacant rows) (stamps ns)
  unfolding insert_rows count_if
  length-inserted [] rows h d = refl
  length-inserted (n ∷ ns) rows h d =
      elim (Bool-cases (is_some (select_hash n.series_id n.stamp rows))) [
        | inl old ↦ rw (old, taken old) (omega (arith, length-inserted ns rows h.1 d.1))
        | inr fresh ↦
            rw (fresh, free fresh)
              (omega (
                arith,
                length-inserted ns (rows ++ n ∷ []) h.1 d.1,
                count_if_congr (vacant (rows ++ n ∷ [])) (vacant rows) (stamps ns) other,
              ))
      ]
    where
      same : select_hash n.series_id n.stamp rows ≡ select_hash sid n.stamp rows
      same = ap (λ i. select_hash i n.stamp rows) h.0

      taken : is_some (select_hash n.series_id n.stamp rows) ≡ true → vacant rows n.stamp ≡ false
      taken e = unfold vacant in ground (arith, same)

      free : is_some (select_hash n.series_id n.stamp rows) ≡ false → vacant rows n.stamp ≡ true
      free e = unfold vacant in ground (arith, same)

      other : (k : Stamp) → mem k (stamps ns) ≡ true → vacant (rows ++ n ∷ []) k ≡ vacant rows k
      other k m =
          unfold vacant in
          ground (
            arith,
            select-append sid k rows (n ∷ []),
            select_single n k h.0,
            stamp_eq→eq n.stamp k,
            d.0,
          )

  -- Every key of a batch without repetition is inserted or in conflict, and none is both.
  pub inserted_and_conflicted :
      (ns rows : List ObsRow)
      → OfSeries sid ns
      → Distinct (stamps ns)
      → length (insert_rows ns rows).1 + length (difference (stamps ns) (insert_rows ns rows).1)
        ≡ length ns
  inserted_and_conflicted ns rows h d = omega (
    arith,
    length-difference (stamps ns) (insert_rows ns rows).1,
    length-inserted ns rows h d,
    length-stamps ns,
    count_if_congr (λ k. mem k (insert_rows ns rows).1) (vacant rows) (stamps ns) returned,
  )
    where
      returned :
          (k : Stamp) → mem k (stamps ns) ≡ true → mem k (insert_rows ns rows).1 ≡ vacant rows k
      returned k m = unfold vacant in ground (arith, mem-inserted sid k ns rows h)
