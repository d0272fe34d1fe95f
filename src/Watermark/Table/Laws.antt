-- ===== src/Watermark/Table/Laws.antt =====
-- What the statements do to a table, read through `select_cursor` and `count_key`.
use aslan_core.Base.{
  ◌+◌, ◌≤◌, ◌<◌, String, Bool, true, false, ◌&&◌, none, some, List, [], ◌∷◌, ◌++◌, str_eq,
  if◌then◌else◌, ◌≡◌, refl, arith, ◌↔◌, str_eq_iff, str_eq_refl, is_some,
}
use aslan_core.Watermark.Table.{
  Key, Row, key_eq, select_cursor, count_key, insert_do_nothing, update_where, overwrite, upsert,
}

pub key_eq_refl : (k : Key) → key_eq k k ≡ true
unfolding key_eq
key_eq_refl k = simp str_eq_refl

pub key_eq→eq : (a b : Key) → key_eq a b ≡ true → a ≡ b
unfolding key_eq
key_eq→eq a b h = ground (
  arith,
  str_eq_iff a.source_id b.source_id,
  str_eq_iff a.job_name b.job_name,
  str_eq_iff a.key b.key,
)

-- A table that keeps its primary key: no key twice.
pub record IsKeyed (rows : List Row) : Type 0 where
  pub at_most_one : (k : Key) → count_key k rows ≤ 1

-- A row has the key exactly if the SELECT finds one.
pub count-select :
    (k : Key) (rows : List Row) → (0 < count_key k rows) ↔ (is_some (select_cursor k rows) ≡ true)
unfolding count_key select_cursor
count-select k [] = ground arith
count-select k (r ∷ rows) = ground (arith, count-select k rows)

module _ (new : Row) where
  pub select-append :
      (k : Key) (rows : List Row)
      → select_cursor k (rows ++ new ∷ []) ≡ elim (select_cursor k rows) [
        | some v ↦ some v
        | none ↦ if key_eq new.at k then some new.cursor_value else none
      ]
  unfolding select_cursor
  select-append k [] = refl
  select-append k (r ∷ rows) = ground (arith, select-append k rows)

  pub count-append :
      (k : Key) (rows : List Row)
      → count_key k (rows ++ new ∷ []) ≡ count_key k rows + (if key_eq new.at k then 1 else 0)
  unfolding count_key
  count-append k [] = ground arith
  count-append k (r ∷ rows) = omega (arith, count-append k rows)

  pub count-overwrite :
      (k : Key) (rows : List Row) → count_key k (overwrite new rows) ≡ count_key k rows
  unfolding count_key overwrite
  count-overwrite k [] = refl
  count-overwrite k (r ∷ rows) = ground (arith, count-overwrite k rows)

  pub select-overwrite :
      (k : Key) (rows : List Row)
      → select_cursor k (overwrite new rows) ≡ (
          if key_eq new.at k && is_some (select_cursor k rows)
          then some new.cursor_value
          else select_cursor k rows)
  unfolding select_cursor overwrite
  select-overwrite k [] = ground arith
  select-overwrite k (r ∷ rows) = ground (
    arith,
    select-overwrite k rows,
    key_eq→eq r.at k,
    key_eq→eq r.at new.at,
    key_eq→eq new.at k,
    key_eq_refl k,
  )

  pub count-update :
      (expected : String) (k : Key) (rows : List Row)
      → count_key k (update_where new expected rows).0 ≡ count_key k rows
  unfolding count_key update_where
  count-update e k [] = refl
  count-update e k (r ∷ rows) = ground (arith, count-update e k rows)

-- The cursor at `k` is `expected`.
abbrev pub holds : Key → String → List Row → Bool
holds k expected rows = elim (select_cursor k rows) [ none ↦ false | some v ↦ str_eq v expected ]

module _ (new : Row) where
  overwrite_absent : (rows : List Row) → count_key new.at rows ≡ 0 → overwrite new rows ≡ rows
  unfolding count_key overwrite
  overwrite_absent [] h = refl
  overwrite_absent (r ∷ rows) h = ground (arith, overwrite_absent rows)

  update_absent :
      (expected : String) (rows : List Row)
      → count_key new.at rows ≡ 0
      → update_where new expected rows ≡ (rows, 0)
  unfolding count_key update_where
  update_absent e [] h = refl
  update_absent e (r ∷ rows) h = ground (arith, update_absent e rows)

  -- On a table without repeated keys the guarded UPDATE is a compare and swap: one row or none.
  pub update_lem :
      (expected : String) (rows : List Row)
      → count_key new.at rows ≤ 1
      → update_where new expected rows
        ≡ (if holds new.at expected rows then (overwrite new rows, 1) else (rows, 0))
  unfolding count_key select_cursor update_where overwrite
  update_lem e [] h = refl
  update_lem e (r ∷ rows) h =
      ground (arith, update_lem e rows, update_absent e rows, overwrite_absent rows)

-- Statements keep the primary key.
pub insert-IsKeyed :
    (new : Row) (rows : List Row) → IsKeyed rows → IsKeyed (insert_do_nothing new rows).0
unfolding insert_do_nothing
insert-IsKeyed new rows h = record {
  at_most_one = λ k. ground (arith, count-append new k rows, key_eq→eq new.at k, h.at_most_one k);
}

pub update-IsKeyed :
    (new : Row) (e : String) (rows : List Row) → IsKeyed rows → IsKeyed (update_where new e rows).0
update-IsKeyed new e rows h = record { at_most_one = λ k. rw count-update (h.at_most_one k) }

pub upsert-IsKeyed : (new : Row) (rows : List Row) → IsKeyed rows → IsKeyed (upsert new rows)
unfolding upsert
upsert-IsKeyed new rows h = record {
  at_most_one = λ k. ground (
    arith,
    count-append new k rows,
    count-overwrite new k rows,
    key_eq→eq new.at k,
    h.at_most_one k,
  );
}

-- What is read after each statement.
pub select-insert :
    (new : Row) (k : Key) (rows : List Row)
    → select_cursor k (insert_do_nothing new rows).0 ≡ elim (select_cursor k rows) [
      | some v ↦ some v
      | none ↦ if key_eq new.at k then some new.cursor_value else none
    ]
unfolding insert_do_nothing
select-insert new k rows =
    ground (arith, select-append new k rows, key_eq→eq new.at k, count-select k rows)

pub select-upsert :
    (new : Row) (k : Key) (rows : List Row)
    → select_cursor k (upsert new rows)
      ≡ (if key_eq new.at k then some new.cursor_value else select_cursor k rows)
unfolding upsert
select-upsert new k rows = ground (
  arith,
  select-append new k rows,
  select-overwrite new k rows,
  key_eq→eq new.at k,
  count-select k rows,
)
