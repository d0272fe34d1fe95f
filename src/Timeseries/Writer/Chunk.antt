-- ===== src/Timeseries/Writer/Chunk.antt =====
-- One chunk: what `_write_chunk` leaves when no stored hash disagrees, and that it raises otherwise.
use mathlib.Core.Path.{subst}
use aslan_core.Base.{
  ℕ, true, ◌&&◌, not, Option, none, some, List, [], ◌∷◌, map, ◌≡◌, refl, sym, ap, arith, Bool-cases,
  Option-cases, inl, inr, All, ◌==◌, ==_iff,
}
use aslan_core.Result.{>>=-eq-ok, ok_inj, ok, sqlalchemy_error}
use aslan_core.Action.{bind-eq-done, done, raised, Action, ◌>>=◌}
use aslan_core.Audit.Recorder.{AuditCols, audit_cols}
use aslan_core.Audit.Context.{Context}
use aslan_core.Timeseries.Payload.{payload_hash}
use aslan_core.Timeseries.Types.{ObservationIn, Stamp, stamp_eq, stamp_of, Env}
use aslan_core.Timeseries.Table.{ObsRow, select_hash, insert_rows, mem, difference, stamps}
use aslan_core.Timeseries.Table.Laws.{
  Distinct, OfSeries, stamp_eq→eq, stamp_eq_refl, at_of_series, select-insert_rows, mem-inserted,
  mem-difference, union_nil,
}
use aslan_core.Timeseries.Table.Counts.{select-stamps}
use aslan_core.Timeseries.Batch.{rows_of}
use aslan_core.Timeseries.Writer.{
  Session, insertable, chunk_hash, chunk_keys, check_key, check_keys, insert_chunk, write_chunk,
}

-- No key of `new` has another hash among `old`.
abbrev pub Agree : ℕ → List ObsRow → List ObsRow → Type 0
Agree sid old new =
    (k : Stamp) (h g : ℕ) → select_hash sid k old ≡ some h → select_hash sid k new ≡ some g → h ≡ g

module _ (sid : ℕ) where
  chunk_hash_select :
      (k : Stamp) (chunk : List ObsRow)
      → OfSeries sid chunk
      → Distinct (stamps chunk)
      → chunk_hash k chunk ≡ select_hash sid k chunk
  unfolding chunk_hash select_hash
  chunk_hash_select k [] h d = refl
  chunk_hash_select k (r ∷ chunk) h d = ground (
    arith,
    chunk_hash_select k chunk h.1 d.1,
    at_of_series r sid k h.0,
    select-stamps sid k chunk h.1,
    stamp_eq→eq r.stamp k,
    d.0,
  )

  -- At the keys, the stored hash is the chunk's.
  abbrev Settled : List ObsRow → List ObsRow → List Stamp → Type 0
  Settled rows chunk =
      All (λ k. (h : ℕ) × (select_hash sid k rows ≡ some h) × (chunk_hash k chunk ≡ some h))

  check_keys_done :
      (chunk : List ObsRow) (keys : List Stamp) (s : Session)
      → Settled s.rows chunk keys
      → check_keys sid chunk keys s ≡ done tt s
  unfolding check_keys check_key
  check_keys_done chunk [] s h = refl
  check_keys_done chunk (k ∷ keys) s h =
      rw (h.0.1, h.0.2, (==_iff h.0.0 h.0.0).1 refl) (check_keys_done chunk keys s h.1)

  check_step :
      (k : Stamp) (existing new : Option ℕ) (m : Action Session (Unit {0})) (s s' : Session)
      (u : Unit {0})
      → (check_key sid k existing new >>= λ _. m) s ≡ done u s'
      → ((h : ℕ) × (existing ≡ some h) × (new ≡ some h)) × (m s ≡ done u s')
  unfolding check_key
  check_step k none none m s s' u e = absurd (cc)
  check_step k (some h) none m s s' u e = absurd (cc)
  check_step k none (some g) m s s' u e = absurd (cc)
  check_step k (some h) (some g) m s s' u e = elim (Bool-cases (h == g)) [
    | inl same ↦ ((h, refl, ap some (sym ((==_iff h g).0 same))), ground (arith, e))
    | inr differs ↦ absurd (ground (arith, e))
  ]

  check_keys_inv :
      (chunk : List ObsRow) (keys : List Stamp) (s s' : Session) (u : Unit {0})
      → check_keys sid chunk keys s ≡ done u s'
      → Settled s.rows chunk keys
  unfolding check_keys
  check_keys_inv chunk [] s s' u e = tt
  check_keys_inv chunk (k ∷ keys) s s' u e =
      let (here, rest) =
        check_step k (select_hash sid k s.rows) (chunk_hash k chunk) (check_keys sid chunk keys) s
          s' u e in
      (here, check_keys_inv chunk keys s s' u rest)

  -- `All` over the keys of a set, and at one of its members.
  All_of_mem {ℓ} :
      (P : Stamp → Type ℓ) (keys : List Stamp)
      → ((k : Stamp) → mem k keys ≡ true → P k)
      → All P keys
  unfolding mem
  All_of_mem P [] h = tt
  All_of_mem P (k ∷ keys) h =
      (h k (rw stamp_eq_refl), All_of_mem P keys (λ j m. h j (ground arith)))

  mem_of_All {ℓ} :
      (P : Stamp → Type ℓ) (keys : List Stamp) → All P keys → (k : Stamp) → mem k keys ≡ true → P k
  unfolding mem
  mem_of_All P [] h k m = absurd (cc)
  mem_of_All P (j ∷ keys) h k m = elim (Bool-cases (stamp_eq j k)) [
    | inl same ↦ subst P (stamp_eq→eq j k same) h.0
    | inr other ↦ mem_of_All P keys h.1 k (ground arith)
  ]

  chunk_keys_lem : (chunk : List ObsRow) → Distinct (stamps chunk) → chunk_keys chunk ≡ stamps chunk
  unfolding chunk_keys
  chunk_keys_lem chunk d = union_nil (stamps chunk) d

  -- The keys in conflict after the INSERT hold the chunk's hashes exactly if no stored hash disagrees.
  module _ (chunk rows : List ObsRow) (h : OfSeries sid chunk) (d : Distinct (stamps chunk)) where
    abbrev conflicted : List Stamp
    conflicted = difference (chunk_keys chunk) (insert_rows chunk rows).1

    mem-conflicted :
        (k : Stamp)
        → mem k conflicted ≡ mem k (stamps chunk) && not (mem k (insert_rows chunk rows).1)
    mem-conflicted k = rw (chunk_keys_lem chunk d, mem-difference) refl

    agree→settled : Agree sid rows chunk → Settled (insert_rows chunk rows).0 chunk conflicted
    agree→settled agree = All_of_mem _ conflicted (λ k m.
        elim (Option-cases (select_hash sid k rows)) [
          | inl none_old ↦
              absurd (ground (arith, mem-conflicted k, mem-inserted sid k chunk rows h))
          | inr (a, old) ↦ elim (Option-cases (select_hash sid k chunk)) [
            | inl none_new ↦ absurd (ground (arith, mem-conflicted k, select-stamps sid k chunk h))
            | inr (b, new) ↦ (
              a,
              ground (arith, select-insert_rows sid k chunk rows),
              ground (arith, chunk_hash_select k chunk h d, agree k a b),
            )
          ]
        ])

    settled→agree : Settled (insert_rows chunk rows).0 chunk conflicted → Agree sid rows chunk
    settled→agree all k g g' e e' =
        let there : mem k conflicted ≡ true =
          ground (
            arith,
            mem-conflicted k,
            mem-inserted sid k chunk rows h,
            select-stamps sid k chunk h,
          ) in
        let (x, stored, hashed) = mem_of_All _ conflicted all k there in
        ground (
          arith,
          select-insert_rows sid k chunk rows,
          chunk_hash_select k chunk h d,
          stored,
          hashed,
        )

module _ (env : Env) (c : Context) (run sid : ℕ) where
  -- The rows that a chunk binds carry its keys.
  pub rows_of_lem :
      (cols : AuditCols) (chunk : List ObservationIn) {rows : List ObsRow}
      → rows_of env sid cols run chunk ≡ ok rows
      → OfSeries sid rows × (stamps rows ≡ map stamp_of chunk)
  unfolding rows_of
  rows_of_lem cols [] e = ground arith
  rows_of_lem cols (o ∷ chunk) e =
      let (h, _, e1) = >>=-eq-ok (payload_hash env o) _ e in
      let (rest, r, e2) = >>=-eq-ok (rows_of env sid cols run chunk) _ e1 in
      let (series, keys) = rows_of_lem cols chunk r in
      rw (← ok_inj e2) ((refl, series), ap (λ (ks : List Stamp). stamp_of o ∷ ks) keys)

  -- Where no stored hash disagrees, the chunk is written.
  pub write_chunk_done :
      (chunk : List ObservationIn) (rows : List ObsRow) (s : Session)
      → rows_of env sid (audit_cols c) run chunk ≡ ok rows
      → Distinct (stamps rows)
      → Agree sid s.rows rows
      → insertable env sid run chunk rows s.rows ≡ true
      → write_chunk env c run sid chunk s
        ≡ done
            ((insert_rows rows s.rows).1, difference (stamps rows) (insert_rows rows s.rows).1)
            (record s { rows = (insert_rows rows s.rows).0 })
  unfolding write_chunk insert_chunk
  write_chunk_done chunk rows s e d agree takes =
      let series = (rows_of_lem (audit_cols c) chunk e).0 in
      rw
        (
          e,
          takes,
          check_keys_done sid rows (conflicted sid rows s.rows series d)
              (record s { rows = (insert_rows rows s.rows).0 })
              (agree→settled sid rows s.rows series d agree),
          chunk_keys_lem sid rows d,
        )
        refl

  -- A chunk that is written met no other stored hash.
  pub write_chunk_inv :
      (chunk : List ObservationIn) (rows : List ObsRow) (s s' : Session)
      (r : List Stamp × List Stamp)
      → rows_of env sid (audit_cols c) run chunk ≡ ok rows
      → Distinct (stamps rows)
      → write_chunk env c run sid chunk s ≡ done r s'
      → (insertable env sid run chunk rows s.rows ≡ true) × Agree sid s.rows rows
  unfolding write_chunk insert_chunk
  write_chunk_inv chunk rows s s' r e d run_ok =
      let series = (rows_of_lem (audit_cols c) chunk e).0 in
      let s1 : Session = record s { rows = (insert_rows rows s.rows).0 } in
      let keys = conflicted sid rows s.rows series d in
      elim (Bool-cases (insertable env sid run chunk rows s.rows)) [
        | inr refused ↦
            let failed : raised sqlalchemy_error s ≡ done r s' = rw (e, refused) at run_ok in
            absurd (cc)
        | inl takes ↦
            let (u, s2, checked, _) =
              bind-eq-done (check_keys sid rows keys s1) _ (rw (e, takes) at run_ok) in
            (
              takes,
              settled→agree sid rows s.rows series d (check_keys_inv sid rows keys s1 s2 u checked),
            )
      ]
