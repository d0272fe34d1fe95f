-- ===== src/Timeseries/Writer/Split.antt =====
-- The chunks of a batch, put together again, and the statements over two chunks.
use mathlib.Core.List.{map-append}
use aslan_core.Base.{
  ℕ, zero, suc, ◌≤◌, true, false, List, [], ◌∷◌, ◌++◌, is_some, ◌≡◌, refl, ap, arith, Bool-cases,
  Option-cases, inl, inr, length, take, drop,
}
use aslan_core.Action.{Outcome, done}
use aslan_core.Timeseries.Types.{Stamp}
use aslan_core.Timeseries.Table.{ObsRow, select_hash, insert_rows, mem, difference, stamps}
use aslan_core.Timeseries.Table.Laws.{
  Distinct, OfSeries, stamp_eq→eq, stamp_eq_refl, mem-append, select-insert_rows, select-append,
  mem-inserted,
}
use aslan_core.Timeseries.Table.Counts.{select-stamps}
use aslan_core.Timeseries.Batch.{chunks}
use aslan_core.Timeseries.Writer.Chunk.{Agree}

abbrev pub concat {ℓ} : {A : Type ℓ} → List (List A) → List A
concat [] = []
concat (xs ∷ xss) = xs ++ concat xss

pub take-drop {ℓ} : {A : Type ℓ} (n : ℕ) (xs : List A) → take n xs ++ drop n xs ≡ xs
take-drop zero xs = refl
take-drop (suc n) [] = refl
take-drop (suc n) (x ∷ xs) = ap (λ ys. x ∷ ys) (take-drop n xs)

pub length-drop {ℓ} : {A : Type ℓ} (n : ℕ) (xs : List A) → length (drop n xs) ≤ length xs
length-drop zero xs = omega arith
length-drop (suc n) [] = omega arith
length-drop (suc n) (x ∷ xs) = omega (arith, length-drop n xs)

-- The chunks are the list in order: as many rounds as the list is long are enough.
pub concat-chunks {ℓ} :
    {A : Type ℓ} (fuel n : ℕ) (xs : List A)
    → length xs ≤ fuel
    → concat (chunks fuel (suc n) xs) ≡ xs
unfolding chunks
concat-chunks zero n [] h = refl
concat-chunks zero n (x ∷ xs) h = absurd (omega arith)
concat-chunks (suc fuel) n [] h = refl
concat-chunks (suc fuel) n (x ∷ xs) h =
    rw (concat-chunks fuel n (drop n xs) (omega (arith, length-drop n xs)))
      (ap (λ ys. x ∷ ys) (take-drop n xs))

pub insert_rows-append-left :
    (xs ys rows : List ObsRow)
    → insert_rows (xs ++ ys) rows ≡ (
      (insert_rows ys (insert_rows xs rows).0).0,
      (insert_rows xs rows).1 ++ (insert_rows ys (insert_rows xs rows).0).1,
    )
unfolding insert_rows
insert_rows-append-left [] ys rows = refl
insert_rows-append-left (x ∷ xs) ys rows =
    elim (Bool-cases (is_some (select_hash x.series_id x.stamp rows))) [
      | inl old ↦ rw old (insert_rows-append-left xs ys rows)
      | inr fresh ↦ rw (fresh, insert_rows-append-left xs ys (rows ++ x ∷ [])) refl
    ]

pub difference_congr :
    (a c d : List Stamp)
    → ((k : Stamp) → mem k a ≡ true → mem k c ≡ mem k d)
    → difference a c ≡ difference a d
unfolding difference mem
difference_congr [] c d h = refl
difference_congr (k ∷ a) c d h =
    let here : mem k c ≡ mem k d = h k (rw stamp_eq_refl) in
    let rest = difference_congr a c d (λ j m. h j (ground arith)) in rw (here, rest) refl

pub difference-append :
    (a b c : List Stamp) → difference (a ++ b) c ≡ difference a c ++ difference b c
unfolding difference
difference-append [] b c = refl
difference-append (k ∷ a) b c = ground (arith, difference-append a b c)

-- No key is in both.
abbrev pub Apart : List Stamp → List Stamp → Type 0
Apart a b = (k : Stamp) → mem k a ≡ true → mem k b ≡ false

pub Distinct-parts : (a b : List Stamp) → Distinct (a ++ b) → Distinct a × Distinct b × Apart a b
unfolding mem
Distinct-parts [] b d = (tt, d, λ k m. absurd (cc))
Distinct-parts (x ∷ a) b d =
    let (da, db, apart) = Distinct-parts a b d.1 in
    (
      (ground (arith, mem-append x a b, d.0), da),
      db,
      λ k m. ground (arith, mem-append x a b, d.0, stamp_eq→eq x k, apart k),
    )

pub done_state :
    {S A : Type 0} {o : Outcome S A} {a b : A} {s t : S} → o ≡ done a s → o ≡ done b t → s ≡ t
done_state p q = cc

module _ (sid : ℕ) (xs ys old : List ObsRow) (hx : OfSeries sid xs) (hy : OfSeries sid ys) where
  pub Agree-parts :
      Agree sid old (xs ++ ys)
      → Apart (stamps xs) (stamps ys)
      → Agree sid old xs × Agree sid (insert_rows xs old).0 ys
  Agree-parts agree apart = (
    (λ k h g e e'. agree k h g e (ground (arith, select-append sid k xs ys))),
    (λ k h g e e'. elim (Option-cases (select_hash sid k old)) [
      | inr (a, there) ↦ agree k h g (ground (arith, select-insert_rows sid k xs old)) (
          ground (
            arith,
            select-append sid k xs ys,
            select-stamps sid k xs hx,
            select-stamps sid k ys hy,
            apart k,
          ))
      | inl absent ↦ absurd (
          ground (
            arith,
            select-insert_rows sid k xs old,
            select-stamps sid k xs hx,
            select-stamps sid k ys hy,
            apart k,
          ))
    ]),
  )

  pub Agree-whole :
      Agree sid old xs → Agree sid (insert_rows xs old).0 ys → Agree sid old (xs ++ ys)
  Agree-whole ax ay k h g e e' = elim (Option-cases (select_hash sid k xs)) [
    | inr (a, there) ↦ ax k h g e (ground (arith, select-append sid k xs ys))
    | inl absent ↦
        ay k h g (ground (arith, select-insert_rows sid k xs old))
          (ground (arith, select-append sid k xs ys))
  ]

  -- The keys in conflict, chunk by chunk and at once.
  pub conflicts-append :
      Apart (stamps xs) (stamps ys)
      → difference (stamps (xs ++ ys)) (insert_rows (xs ++ ys) old).1
        ≡ difference (stamps xs) (insert_rows xs old).1
          ++ difference (stamps ys) (insert_rows ys (insert_rows xs old).0).1
  conflicts-append apart =
      let ix = (insert_rows xs old).1 in
      let iy = (insert_rows ys (insert_rows xs old).0).1 in
      rw
        (
          insert_rows-append-left,
          map-append,
          difference-append,
          difference_congr (stamps xs) (ix ++ iy) ix (λ k m. ground (
            arith,
            mem-append k ix iy,
            mem-inserted sid k ys (insert_rows xs old).0 hy,
            apart k,
          )),
          difference_congr (stamps ys) (ix ++ iy) iy
              (λ k m. ground (arith, mem-append k ix iy, mem-inserted sid k xs old hx, apart k)),
        )
        refl
