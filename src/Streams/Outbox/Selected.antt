-- ===== src/Streams/Outbox/Selected.antt =====
-- The rows that a batch selects: pending rows of the table, no two with the same key.
use mathlib.Core.Path.{subst}
use aslan_core.Base.{
  ℕ, Bool, true, false, not, ◌&&◌, List, [], ◌∷◌, ◌≡◌, sym, ap, ◌==◌, inl, inr, All, Bool-cases,
  &&-parts, arith,
}
use aslan_core.Base.Sort.{
  In, Sorted, sort_by, All_map, All_of_In, In_of_All, All-sort_by, sort_by-apart, All-take,
  Sorted-take,
}
use aslan_core.Streams.Outbox.{
  OutboxRow, pending, where_pending, select_pending, created_le, update_outbox,
}
use aslan_core.Streams.Outbox.Laws.{All-update_outbox}

-- No two rows have the same key.
abbrev pub apart : OutboxRow → OutboxRow → Bool
apart a b = not (a.outbox_id == b.outbox_id)

abbrev pub HasKey : List OutboxRow → Type 0
HasKey rows = Sorted apart rows

-- The row with the key of `r` is `r` itself.
abbrev pub Sole : OutboxRow → OutboxRow → Type 0
Sole r x = (x.outbox_id == r.outbox_id) ≡ true → x ≡ r

-- What holds of a row that a batch is about to process.
pub record IsChosen (table : List OutboxRow) (r : OutboxRow) : Type 0 where
  pub there : In r table
  pub sole : All (Sole r) table
  pub waiting : pending r ≡ true

apart-sym : (a b : OutboxRow) → apart a b ≡ true → apart b a ≡ true
apart-sym a b h = ground arith

HasKey-Sole : (r : OutboxRow) (rows : List OutboxRow) → HasKey rows → In r rows → All (Sole r) rows
HasKey-Sole r [] k i = tt
HasKey-Sole r (x ∷ rows) k (inl e) = (
  λ same. sym e,
  All_map (λ y. apart x y ≡ true) (Sole r) rows
      (λ y other same. absurd (ground (arith, ap (λ (z : OutboxRow). z.outbox_id) e))) k.0,
)
HasKey-Sole r (x ∷ rows) k (inr i) = (
  λ same. absurd (ground (arith, In_of_All (λ y. apart x y ≡ true) r rows k.0 i)),
  HasKey-Sole r rows k.1 i,
)

module _ (locked : ℕ → Bool) where
  All-where_pending :
      (P : OutboxRow → Type 0) (rows : List OutboxRow)
      → All P rows
      → All (λ r. P r × (pending r ≡ true)) (where_pending locked rows)
  unfolding where_pending
  All-where_pending P [] h = tt
  All-where_pending P (r ∷ rows) h = elim (Bool-cases (pending r && not (locked r.outbox_id))) [
    | inl free ↦ rw free ((h.0, (&&-parts _ _ free).0), All-where_pending P rows h.1)
    | inr skipped ↦ rw skipped (All-where_pending P rows h.1)
  ]

  HasKey-where_pending : (rows : List OutboxRow) → HasKey rows → HasKey (where_pending locked rows)
  unfolding where_pending
  HasKey-where_pending [] k = tt
  HasKey-where_pending (r ∷ rows) k = elim (Bool-cases (pending r && not (locked r.outbox_id))) [
    | inl free ↦ rw free (
      All_map _ (λ y. apart r y ≡ true) (where_pending locked rows) (λ y p. p.0)
          (All-where_pending (λ y. apart r y ≡ true) rows k.0),
      HasKey-where_pending rows k.1,
    )
    | inr skipped ↦ rw skipped (HasKey-where_pending rows k.1)
  ]

  -- The rows of a batch are pending rows of the table, each the only one with its key.
  pub select_pending-IsChosen :
      (n : ℕ) (table : List OutboxRow)
      → HasKey table
      → All (IsChosen table) (select_pending n locked table)
  unfolding select_pending
  select_pending-IsChosen n table k =
      All-take (IsChosen table) n (where_pending locked (sort_by created_le table)) (
        All_map (λ r. In r table × (pending r ≡ true)) (IsChosen table)
          (where_pending locked (sort_by created_le table))
          (λ r p. record { there = p.0; sole = HasKey-Sole r table k p.0; waiting = p.1 })
          (All-where_pending (λ r. In r table) (sort_by created_le table)
            (All-sort_by created_le (λ r. In r table) table
              (All_of_In (λ r. In r table) table (λ r i. i)))))

  pub select_pending-HasKey :
      (n : ℕ) (table : List OutboxRow) → HasKey table → HasKey (select_pending n locked table)
  unfolding select_pending
  select_pending-HasKey n table k =
      Sorted-take apart n (where_pending locked (sort_by created_le table)) (
        HasKey-where_pending (sort_by created_le table)
          (sort_by-apart created_le apart apart-sym table k))

In-update_outbox :
    (oid : ℕ) (f : OutboxRow → OutboxRow) (table : List OutboxRow) (r : OutboxRow)
    → (oid == r.outbox_id) ≡ false
    → In r table
    → In r (update_outbox oid f table)
unfolding update_outbox
In-update_outbox oid f [] r other i = elim i [ ]
In-update_outbox oid f (x ∷ table) r other (inl e) =
    let skipped : (x.outbox_id == oid) ≡ false =
      subst (λ (z : OutboxRow). (z.outbox_id == oid) ≡ false) e (ground arith) in
    rw skipped (inl e)
In-update_outbox oid f (x ∷ table) r other (inr i) = inr (In-update_outbox oid f table r other i)

-- Updating one row leaves the others chosen.
pub update_outbox-IsChosen :
    (oid : ℕ) (f : OutboxRow → OutboxRow) (table : List OutboxRow) (r : OutboxRow)
    → ((x : OutboxRow) → (f x).outbox_id ≡ x.outbox_id)
    → (oid == r.outbox_id) ≡ false
    → IsChosen table r
    → IsChosen (update_outbox oid f table) r
update_outbox-IsChosen oid f table r key other c = record {
  there = In-update_outbox oid f table r other c.there;
  sole =
      All-update_outbox (Sole r) oid f table (λ x same s again. absurd (ground (arith, key x)))
        c.sole;
  waiting = c.waiting;
}

All-apart-update_outbox :
    (r : OutboxRow) (oid : ℕ) (f : OutboxRow → OutboxRow) (table : List OutboxRow)
    → ((x : OutboxRow) → (f x).outbox_id ≡ x.outbox_id)
    → All (λ x. apart r x ≡ true) table
    → All (λ x. apart r x ≡ true) (update_outbox oid f table)
All-apart-update_outbox r oid f table key =
    All-update_outbox (λ x. apart r x ≡ true) oid f table (λ x same h. ground (arith, key x))

pub HasKey-update_outbox :
    (oid : ℕ) (f : OutboxRow → OutboxRow) (table : List OutboxRow)
    → ((x : OutboxRow) → (f x).outbox_id ≡ x.outbox_id)
    → HasKey table
    → HasKey (update_outbox oid f table)
unfolding update_outbox
HasKey-update_outbox oid f [] key k = tt
HasKey-update_outbox oid f (x ∷ table) key k = elim (Bool-cases (x.outbox_id == oid)) [
  | inl same ↦ rw same (
    All_map (λ y. apart x y ≡ true) (λ y. apart (f x) y ≡ true) (update_outbox oid f table)
        (λ y h. ground (arith, key x)) (All-apart-update_outbox x oid f table key k.0),
    HasKey-update_outbox oid f table key k.1,
  )
  | inr other ↦
      rw other
        (All-apart-update_outbox x oid f table key k.0, HasKey-update_outbox oid f table key k.1)
]
