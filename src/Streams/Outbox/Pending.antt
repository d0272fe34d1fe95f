-- ===== src/Streams/Outbox/Pending.antt =====
-- How many rows wait: what a batch selects, and what it leaves.
use mathlib.Core.Path.{subst}
use aslan_core.Base.{
  ℕ, zero, suc, ◌+◌, ◌-◌, Bool, true, false, List, [], ◌∷◌, ◌≡◌, refl, ap, ◌∙◌, ◌==◌, inl, inr,
  take, length, All, Bool-cases, arith,
}
use aslan_core.Base.Sort.{In, sort_by, insert_by, In_of_All, All_map}
use aslan_core.Streams.Ids.{RedisId}
use aslan_core.Streams.Outbox.{
  OutboxRow, pending, where_pending, select_pending, created_le, count_pending, update_outbox,
  published,
}
use aslan_core.Streams.Outbox.Selected.{apart, HasKey}

count-insert_by :
    (r : OutboxRow) (rows : List OutboxRow)
    → count_pending (insert_by created_le r rows) ≡ count_pending (r ∷ rows)
unfolding count_pending insert_by
count-insert_by r [] = refl
count-insert_by r (x ∷ rows) = elim (Bool-cases (created_le r x)) [
  | inl before ↦ rw before refl
  | inr after ↦ rw after (omega (arith, count-insert_by r rows))
]

count-sort_by :
    (rows : List OutboxRow) → count_pending (sort_by created_le rows) ≡ count_pending rows
unfolding count_pending sort_by
count-sort_by [] = refl
count-sort_by (r ∷ rows) =
    count-insert_by r (sort_by created_le rows) ∙ omega (arith, count-sort_by rows)

length-where_pending :
    (locked : ℕ → Bool) (rows : List OutboxRow)
    → ((oid : ℕ) → locked oid ≡ false)
    → length (where_pending locked rows) ≡ count_pending rows
unfolding where_pending count_pending
length-where_pending locked [] free = refl
length-where_pending locked (r ∷ rows) free = elim (Bool-cases (pending r)) [
  | inl waits ↦ rw (waits, free r.outbox_id) (omega (arith, length-where_pending locked rows free))
  | inr done ↦ rw done (omega (arith, length-where_pending locked rows free))
]

length-take : {A : Type 0} (n : ℕ) (xs : List A) → length (take n xs) + (length xs - n) ≡ length xs
length-take zero xs = omega arith
length-take (suc n) [] = omega arith
length-take (suc n) (x ∷ xs) = omega (arith, length-take n xs)

-- With no row locked elsewhere, a batch selects `n` of the rows that wait, or all of them.
pub length-select_pending :
    (n : ℕ) (locked : ℕ → Bool) (rows : List OutboxRow)
    → ((oid : ℕ) → locked oid ≡ false)
    → length (select_pending n locked rows) + (count_pending rows - n) ≡ count_pending rows
unfolding select_pending
length-select_pending n locked rows free =
    let sorted : List OutboxRow = sort_by created_le rows in
    omega (
      arith,
      length-take n (where_pending locked sorted),
      length-where_pending locked sorted free,
      count-sort_by rows,
    )

update_outbox_absent :
    (oid : ℕ) (f : OutboxRow → OutboxRow) (rows : List OutboxRow)
    → All (λ x. (x.outbox_id == oid) ≡ false) rows
    → update_outbox oid f rows ≡ rows
unfolding update_outbox
update_outbox_absent oid f [] h = refl
update_outbox_absent oid f (x ∷ rows) h = rw (h.0, update_outbox_absent oid f rows h.1) refl

-- A row published is one less that waits.
pub count-published :
    (now : ℕ) (rid : RedisId) (r : OutboxRow) (rows : List OutboxRow)
    → HasKey rows
    → In r rows
    → pending r ≡ true
    → suc (count_pending (update_outbox r.outbox_id (published now rid) rows)) ≡ count_pending rows
unfolding count_pending update_outbox pending published
count-published now rid r [] k i p = elim i [ ]
count-published now rid r (x ∷ rows) k (inl e) p =
    let same : (x.outbox_id == r.outbox_id) ≡ true =
      subst (λ (y : OutboxRow). (y.outbox_id == r.outbox_id) ≡ true) e (ground arith) in
    let waits : pending x ≡ true = subst (λ y. pending y ≡ true) e p in
    let others : All (λ y. (y.outbox_id == r.outbox_id) ≡ false) rows =
      All_map (λ y. apart x y ≡ true) (λ y. (y.outbox_id == r.outbox_id) ≡ false) rows
        (λ y h. ground (arith, ap (λ (z : OutboxRow). z.outbox_id) e)) k.0 in
    rw (same, waits, update_outbox_absent r.outbox_id (published now rid) rows others) (omega arith)
count-published now rid r (x ∷ rows) k (inr i) p =
    let other : (x.outbox_id == r.outbox_id) ≡ false =
      ground (arith, In_of_All (λ y. apart x y ≡ true) r rows k.0 i) in
    let rest = count-published now rid r rows k.1 i p in rw other (omega (arith, rest))
