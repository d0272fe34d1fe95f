-- ===== src/Timeseries/Writer/Chunks.antt =====
-- The loop over the chunks does what one INSERT of the whole batch would do.
use mathlib.Core.List.{append-nil, append_assoc, map-append}
use mathlib.Core.Path.{subst}
use aslan_core.Base.{ℕ, true, ◌&&◌, List, [], ◌∷◌, ◌++◌, ◌≡◌, refl, ap, ◌∙◌, arith}
use aslan_core.Result.{>>=-eq-ok, ok_inj, ok}
use aslan_core.Action.{bind-eq-done, done}
use aslan_core.Audit.Recorder.{AuditCols, audit_cols}
use aslan_core.Audit.Context.{Context}
use aslan_core.Timeseries.Payload.{payload_hash}
use aslan_core.Timeseries.Types.{ObservationIn, Stamp, Env}
use aslan_core.Timeseries.Table.{ObsRow, select_hash, insert_rows, union, difference, stamps}
use aslan_core.Timeseries.Table.Laws.{
  Distinct, OfSeries, mem-append, mem-inserted, mem-difference, union_fresh, Distinct-inserted,
  Distinct-difference,
}
use aslan_core.Timeseries.Batch.{rows_of, row_of}
use aslan_core.Timeseries.Writer.{
  Session, accepted, permitted, insertable, write_chunk, write_chunks,
}
use aslan_core.Timeseries.Writer.Chunk.{Agree, rows_of_lem, write_chunk_done, write_chunk_inv}
use aslan_core.Timeseries.Writer.Split.{
  concat, insert_rows-append-left, Apart, done_state, Agree-parts, Agree-whole, conflicts-append,
  Distinct-parts,
}

pub accepted-append :
    (env : Env) (a b : List ObservationIn)
    → accepted env (a ++ b) ≡ accepted env a && accepted env b
unfolding accepted
accepted-append env [] b = refl
accepted-append env (o ∷ a) b = ground (arith, accepted-append env a b)

permitted-append :
    (env : Env) (sid run : ℕ) (a b : List Stamp)
    → permitted env sid run (a ++ b) ≡ permitted env sid run a && permitted env sid run b
unfolding permitted
permitted-append env sid run [] b = refl
permitted-append env sid run (k ∷ a) [] = ground (arith, append-nil a)
permitted-append env sid run (k ∷ a) (j ∷ b) = ground arith

-- The database takes two chunks one after the other when it would take them at once.
insertable-append :
    (env : Env) (sid run : ℕ) (a b : List ObservationIn) (xs ys old : List ObsRow)
    → insertable env sid run (a ++ b) (xs ++ ys) old
      ≡ insertable env sid run a xs old && insertable env sid run b ys (insert_rows xs old).0
insertable-append env sid run a b xs ys old =
    let ix = (insert_rows xs old).1 in
    let iy = (insert_rows ys (insert_rows xs old).0).1 in
    rw (accepted-append, insert_rows-append-left, permitted-append env sid run ix iy) (ground arith)

module _ (env : Env) (c : Context) (run sid : ℕ) where
  rows_of-append :
      (cols : AuditCols) (a b : List ObservationIn) {rows : List ObsRow}
      → rows_of env sid cols run (a ++ b) ≡ ok rows
      → (xs ys : List ObsRow) × (rows_of env sid cols run a ≡ ok xs)
        × (rows_of env sid cols run b ≡ ok ys)
        × (rows ≡ xs ++ ys)
  unfolding rows_of
  rows_of-append cols [] b {rows} e = ([], rows, refl, e, refl)
  rows_of-append cols (o ∷ a) b e =
      let (h, hash, e1) = >>=-eq-ok (payload_hash env o) _ e in
      let (rest, r, e2) = >>=-eq-ok (rows_of env sid cols run (a ++ b)) _ e1 in
      let (xs, ys, ex, ey, whole) = rows_of-append cols a b r in
      (row_of env sid cols run o h ∷ xs, ys, rw (hash, ex) refl, ey, rw (← ok_inj e2, whole) refl)

  one_chunk :
      (chunk : List ObservationIn) (cs : List (List ObservationIn)) (xs ys : List ObsRow)
      (ins unch : List Stamp) (s : Session)
      → rows_of env sid (audit_cols c) run chunk ≡ ok xs
      → OfSeries sid xs
      → OfSeries sid ys
      → Distinct (stamps xs)
      → Apart (stamps xs) (stamps ys)
      → Apart (stamps xs) ins
      → Apart (stamps xs) unch
      → Agree sid s.rows xs
      → insertable env sid run chunk xs s.rows ≡ true
      → let ix = (insert_rows xs s.rows).1 in
        let cx = difference (stamps xs) ix in
        let s1 : Session = record s { rows = (insert_rows xs s.rows).0 } in
        let iy = (insert_rows ys s1.rows).1 in
        let cy = difference (stamps ys) iy in
        write_chunks env c run sid cs (ins ++ ix) (unch ++ cx) s1
          ≡ done
              ((ins ++ ix) ++ iy, (unch ++ cx) ++ cy)
              (record s1 { rows = (insert_rows ys s1.rows).0 })
        → write_chunks env c run sid (chunk ∷ cs) ins unch s
          ≡ done
              (
                ins ++ (insert_rows (xs ++ ys) s.rows).1,
                unch ++ difference (stamps (xs ++ ys)) (insert_rows (xs ++ ys) s.rows).1,
              )
              (record s { rows = (insert_rows (xs ++ ys) s.rows).0 })
  unfolding write_chunks
  one_chunk chunk cs xs ys ins unch s ex hx hy dx apart pi pu ax takes rest =
      let ix = (insert_rows xs s.rows).1 in
      let cx = difference (stamps xs) ix in
      rw
        (
          write_chunk_done env c run sid chunk xs s ex dx ax takes,
          union_fresh ins ix (Distinct-inserted sid xs s.rows hx dx)
              (λ k m. ground (arith, mem-inserted sid k xs s.rows hx, pi k)),
          union_fresh unch cx (Distinct-difference (stamps xs) ix dx)
              (λ k m. ground (arith, mem-difference k (stamps xs) ix, pu k)),
          rest,
          conflicts-append sid xs ys s.rows hx hy apart,
          insert_rows-append-left xs ys s.rows,
          append_assoc ins,
          append_assoc unch,
        )
        refl

  -- The whole loop, where no stored hash disagrees.
  pub write_chunks_done :
      (cs : List (List ObservationIn)) (rows : List ObsRow) (ins unch : List Stamp) (s : Session)
      → rows_of env sid (audit_cols c) run (concat cs) ≡ ok rows
      → Distinct (stamps rows)
      → Apart (stamps rows) ins
      → Apart (stamps rows) unch
      → Agree sid s.rows rows
      → insertable env sid run (concat cs) rows s.rows ≡ true
      → write_chunks env c run sid cs ins unch s
        ≡ done
            (
              ins ++ (insert_rows rows s.rows).1,
              unch ++ difference (stamps rows) (insert_rows rows s.rows).1,
            )
            (record s { rows = (insert_rows rows s.rows).0 })
  unfolding write_chunks
  write_chunks_done [] rows ins unch s e d pi pu agree takes =
      let none_left : [] ≡ rows = ok_inj (unfold rows_of in e) in
      rw (← none_left) (unfold insert_rows difference in rw (append-nil, append-nil) refl)
  write_chunks_done (chunk ∷ cs) rows ins unch s e d pi pu agree takes =
      let (xs, ys, ex, ey, whole) = rows_of-append (audit_cols c) chunk (concat cs) e in
      let hx = (rows_of_lem env c run sid (audit_cols c) chunk ex).0 in
      let hy = (rows_of_lem env c run sid (audit_cols c) (concat cs) ey).0 in
      let dist : Distinct (stamps xs ++ stamps ys) = rw map-append at (rw whole at d) in
      let (dx, dy, apart) = Distinct-parts (stamps xs) (stamps ys) dist in
      let agree' : Agree sid s.rows (xs ++ ys) = rw whole at agree in
      let (ax, ay) = Agree-parts sid xs ys s.rows hx hy agree' apart in
      let both = insertable-append env sid run chunk (concat cs) xs ys s.rows in
      let takes' : insertable env sid run (chunk ++ concat cs) (xs ++ ys) s.rows ≡ true =
        rw whole at takes in
      let keys : stamps rows ≡ stamps xs ++ stamps ys =
        ap stamps whole ∙ map-append (λ r. r.stamp) xs ys in
      let ix = (insert_rows xs s.rows).1 in
      let s1 : Session = record s { rows = (insert_rows xs s.rows).0 } in
      let apart_x : (t : List Stamp) → Apart (stamps rows) t → Apart (stamps xs) t =
        λ t h k m. h k (rw keys (ground (arith, mem-append k (stamps xs) (stamps ys)))) in
      let apart_y : (t : List Stamp) → Apart (stamps rows) t → Apart (stamps ys) t =
        λ t h k m. h k (rw keys (ground (arith, mem-append k (stamps xs) (stamps ys)))) in
      let next_ins : Apart (stamps ys) (ins ++ ix) = λ k m.
        ground (
          arith,
          mem-append k ins ix,
          mem-inserted sid k xs s.rows hx,
          apart k,
          apart_y ins pi k,
        ) in
      let next_unch : Apart (stamps ys) (unch ++ difference (stamps xs) ix) = λ k m. ground (
        arith,
        mem-append k unch (difference (stamps xs) ix),
        mem-difference k (stamps xs) ix,
        apart k,
        apart_y unch pu k,
      ) in
      rw whole (
        one_chunk chunk cs xs ys ins unch s ex hx hy dx apart (apart_x ins pi) (apart_x unch pu) ax
          (ground (arith, both, takes'))
          (write_chunks_done cs ys (ins ++ ix) (unch ++ difference (stamps xs) ix) s1 ey dy next_ins
            next_unch ay (ground (arith, both, takes'))))

  -- A loop that ends met no other stored hash.
  pub write_chunks_inv :
      (cs : List (List ObservationIn)) (rows : List ObsRow) (ins unch : List Stamp) (s s' : Session)
      (r : List Stamp × List Stamp)
      → rows_of env sid (audit_cols c) run (concat cs) ≡ ok rows
      → Distinct (stamps rows)
      → write_chunks env c run sid cs ins unch s ≡ done r s'
      → (insertable env sid run (concat cs) rows s.rows ≡ true) × Agree sid s.rows rows
  unfolding write_chunks
  write_chunks_inv [] rows ins unch s s' r e d ran =
      let none_left : [] ≡ rows = ok_inj (unfold rows_of in e) in
      rw (← none_left) (
        (unfold accepted permitted insert_rows in refl),
        unfold select_hash in λ k h g p q. absurd (cc),
      )
  write_chunks_inv (chunk ∷ cs) rows ins unch s s' r e d ran =
      let (xs, ys, ex, ey, whole) = rows_of-append (audit_cols c) chunk (concat cs) e in
      let hx = (rows_of_lem env c run sid (audit_cols c) chunk ex).0 in
      let hy = (rows_of_lem env c run sid (audit_cols c) (concat cs) ey).0 in
      let dist : Distinct (stamps xs ++ stamps ys) = rw map-append at (rw whole at d) in
      let (dx, dy, apart) = Distinct-parts (stamps xs) (stamps ys) dist in
      let (q, s1, first, later) = bind-eq-done (write_chunk env c run sid chunk s) _ ran in
      let (tx, ax) = write_chunk_inv env c run sid chunk xs s s1 q ex dx first in
      let (ty, ay) = write_chunks_inv cs ys (union ins q.0) (union unch q.1) s1 s' r ey dy later in
      let same : s1 ≡ record s { rows = (insert_rows xs s.rows).0 } =
        done_state (first) (write_chunk_done env c run sid chunk xs s ex dx ax tx) in
      let ty' : insertable env sid run (concat cs) ys (insert_rows xs s.rows).0 ≡ true =
        subst (λ (t : Session). insertable env sid run (concat cs) ys t.rows ≡ true) same ty in
      rw whole (
        rw (insertable-append env sid run chunk (concat cs) xs ys s.rows, tx, ty') refl,
        Agree-whole sid xs ys s.rows hx hy ax
            (subst (λ (t : Session). Agree sid t.rows ys) same ay),
      )
