-- ===== src/Timeseries/Table/Laws.antt =====
-- What the statements do, read through `select_hash`, and the laws of the sets of keys.
use aslan_core.Base.{
  ℕ, suc, ◌+◌, true, false, ◌&&◌, ◌||◌, not, Option, none, some, List, [], ◌∷◌, ◌++◌, is_some,
  is_none, if◌then◌else◌, ◌≡◌, refl, sym, ap, ◌∙◌, arith, Bool-cases, inl, inr, length, All,
  length-append,
}
use mathlib.Core.List.{append-nil, append_assoc}
use aslan_core.Timeseries.Types.{Stamp, stamp_eq}
use aslan_core.Timeseries.Table.{
  ObsRow, at, select_hash, insert_rows, mem, union, difference, stamps,
}

pub stamp_eq_refl : (k : Stamp) → stamp_eq k k ≡ true
unfolding stamp_eq
stamp_eq_refl k = ground arith

pub stamp_eq→eq : (a b : Stamp) → stamp_eq a b ≡ true → a ≡ b
unfolding stamp_eq
stamp_eq→eq a b h = ground arith

at→eq : (r : ObsRow) (sid : ℕ) (k : Stamp) → at r sid k ≡ true → (r.series_id ≡ sid) × (r.stamp ≡ k)
unfolding at
at→eq r sid k h = ground (arith, stamp_eq→eq r.stamp k)

-- In one series the key is the stamp.
pub at_of_series :
    (r : ObsRow) (sid : ℕ) (k : Stamp) → r.series_id ≡ sid → at r sid k ≡ stamp_eq r.stamp k
unfolding at
at_of_series r sid k h = ground arith

-- No key twice.
abbrev pub Distinct : List Stamp → Type 0
Distinct [] = Unit {0}
Distinct (k ∷ keys) = (mem k keys ≡ false) × Distinct keys

-- All rows are of one series.
abbrev pub OfSeries : ℕ → List ObsRow → Type 0
OfSeries sid = All (λ r. r.series_id ≡ sid)

abbrev pub or_else : Option ℕ → Option ℕ → Option ℕ
or_else (some h) o = some h
or_else none o = o

module _ (sid : ℕ) (k : Stamp) where
  pub select-append :
      (rows new : List ObsRow)
      → select_hash sid k (rows ++ new) ≡ or_else (select_hash sid k rows) (select_hash sid k new)
  unfolding select_hash
  select-append [] new = refl
  select-append (r ∷ rows) new = ground (arith, select-append rows new)

  -- A row that is there stays, and where there was none the first new one is found.
  pub select-insert_rows :
      (ns rows : List ObsRow)
      → select_hash sid k (insert_rows ns rows).0
        ≡ or_else (select_hash sid k rows) (select_hash sid k ns)
  unfolding insert_rows select_hash
  select-insert_rows [] rows = ground arith
  select-insert_rows (n ∷ ns) rows = ground (
    arith,
    select-insert_rows ns rows,
    select-insert_rows ns (rows ++ n ∷ []),
    select-append rows (n ∷ []),
    at→eq n sid k,
  )

-- The statement returns the keys that had no row and have one now.
pub mem-inserted :
    (sid : ℕ) (k : Stamp) (ns rows : List ObsRow)
    → OfSeries sid ns
    → mem k (insert_rows ns rows).1 ≡ is_none (select_hash sid k rows) && mem k (stamps ns)
unfolding insert_rows mem
mem-inserted sid k [] rows h = ground arith
mem-inserted sid k (n ∷ ns) rows h = ground (
  arith,
  mem-inserted sid k ns rows h.1,
  mem-inserted sid k ns (rows ++ n ∷ []) h.1,
  select-append sid k rows (n ∷ []),
  single,
  stamp_eq→eq n.stamp k,
)
  where
    single : select_hash sid k (n ∷ []) ≡ (if stamp_eq n.stamp k then some n.payload_hash else none)
    single = unfold select_hash in rw (at_of_series n sid k h.0)

-- The statement only appends, and appends a row for each key that it returns.
pub insert_rows-append :
    (ns rows : List ObsRow)
    → (new : List ObsRow) × ((insert_rows ns rows).0 ≡ rows ++ new)
      × (length new ≡ length (insert_rows ns rows).1)
      × ((P : ObsRow → Type 0) → All P ns → All P new)
unfolding insert_rows
insert_rows-append [] rows = ([], rw append-nil, refl, λ P _. tt)
insert_rows-append (n ∷ ns) rows =
    elim (Bool-cases (is_some (select_hash n.series_id n.stamp rows))) [
      | inl old ↦
          let (new, e, l, p) = insert_rows-append ns rows in
          (new, rw old e, rw old l, λ P h. p P h.1)
      | inr fresh ↦
          let (new, e, l, p) = insert_rows-append ns (rows ++ n ∷ []) in
          (
            n ∷ new,
            rw (fresh, e) (append_assoc rows (n ∷ []) new),
            rw fresh (ap suc l),
            λ P h. (h.0, p P h.1),
          )
    ]

-- Sets.
pub mem-append : (k : Stamp) (xs ys : List Stamp) → mem k (xs ++ ys) ≡ mem k xs || mem k ys
unfolding mem
mem-append k [] ys = refl
mem-append k (x ∷ xs) ys = ground (arith, mem-append k xs ys)

pub mem-union : (k : Stamp) (xs ys : List Stamp) → mem k (union xs ys) ≡ mem k xs || mem k ys
unfolding union mem
mem-union k xs [] = ground arith
mem-union k xs (y ∷ ys) = ground (
  arith,
  mem-union k xs ys,
  mem-union k (xs ++ y ∷ []) ys,
  mem-append k xs (y ∷ []),
  stamp_eq→eq y k,
)

pub length-union :
    (xs ys : List Stamp)
    → Distinct ys
    → ((k : Stamp) → mem k ys ≡ true → mem k xs ≡ false)
    → length (union xs ys) ≡ length xs + length ys
unfolding union mem
length-union xs [] d h = omega arith
length-union xs (y ∷ ys) d h =
    let fresh : mem y xs ≡ false = h y (rw stamp_eq_refl) in
    rw fresh (omega (arith, length-union (xs ++ y ∷ []) ys d.1 rest, length-append xs (y ∷ [])))
  where
    rest : (k : Stamp) → mem k ys ≡ true → mem k (xs ++ y ∷ []) ≡ false
    rest k m = ground (arith, mem-append k xs (y ∷ []), h k, d.0, stamp_eq→eq y k)

pub mem-difference :
    (k : Stamp) (xs ys : List Stamp) → mem k (difference xs ys) ≡ mem k xs && not (mem k ys)
unfolding difference mem
mem-difference k [] ys = refl
mem-difference k (x ∷ xs) ys = ground (arith, mem-difference k xs ys, stamp_eq→eq x k)

pub Distinct-difference : (xs ys : List Stamp) → Distinct xs → Distinct (difference xs ys)
unfolding difference
Distinct-difference [] ys d = tt
Distinct-difference (x ∷ xs) ys d =
    ground (arith, Distinct-difference xs ys d.1, mem-difference x xs ys)

-- The union with keys that are not there appends them.
pub union_fresh :
    (xs ys : List Stamp)
    → Distinct ys
    → ((k : Stamp) → mem k ys ≡ true → mem k xs ≡ false)
    → union xs ys ≡ xs ++ ys
unfolding union mem
union_fresh xs [] d h = sym (append-nil xs)
union_fresh xs (y ∷ ys) d h =
    let fresh : mem y xs ≡ false = h y (rw stamp_eq_refl) in
    rw fresh (union_fresh (xs ++ y ∷ []) ys d.1 rest ∙ append_assoc xs (y ∷ []) ys)
  where
    rest : (k : Stamp) → mem k ys ≡ true → mem k (xs ++ y ∷ []) ≡ false
    rest k m = ground (arith, mem-append k xs (y ∷ []), h k, d.0, stamp_eq→eq y k)

pub union_nil : (ys : List Stamp) → Distinct ys → union [] ys ≡ ys
unfolding mem
union_nil ys d = union_fresh [] ys d (λ k m. refl)

pub Distinct-inserted :
    (sid : ℕ) (ns rows : List ObsRow)
    → OfSeries sid ns
    → Distinct (stamps ns)
    → Distinct (insert_rows ns rows).1
unfolding insert_rows
Distinct-inserted sid [] rows h d = tt
Distinct-inserted sid (n ∷ ns) rows h d =
    elim (Bool-cases (is_some (select_hash n.series_id n.stamp rows))) [
      | inl old ↦ rw old (Distinct-inserted sid ns rows h.1 d.1)
      | inr fresh ↦ rw fresh (
        ground (arith, mem-inserted sid n.stamp ns (rows ++ n ∷ []) h.1, d.0),
        Distinct-inserted sid ns (rows ++ n ∷ []) h.1 d.1,
      )
    ]
