-- ===== src/Timeseries/Writer/Kept.antt =====
-- What a write keeps of the observations, whether it returns or raises: whatever an INSERT keeps.
use aslan_core.Base.{
  ℕ, Option, none, some, List, [], ◌∷◌, ◌==◌, if◌then◌else◌, Bool-cases, inl, inr, length,
}
use aslan_core.Action.{Action, pure, raise, lift, state, Keeps, Keeps-bind, Keeps-lift}
use aslan_core.Result.{key_error, observation_conflict}
use aslan_core.Audit.Context.{Context}
use aslan_core.Audit.Recorder.{audit_cols, assert_actor_or_strict_raise, assert_actor-Keeps}
use aslan_core.Timeseries.Types.{ObservationIn, Stamp, stamp_of, Env}
use aslan_core.Timeseries.Batch.{Seen, seen_hash, validate_rows, dedup, rows_of, chunks}
use aslan_core.Timeseries.BatchHash.{compute_batch_hash}
use aslan_core.Timeseries.Table.{ObsRow, select_hash, insert_rows, mem, union, difference}
use aslan_core.Timeseries.Writer.{
  Session, insertable, KeyAction, chunk_size, chunk_keys, check_key, check_keys, chunk_hash,
  insert_chunk, write_chunk, write_chunks, key_rows, emit_write_batch_audit, write_deduped, write,
}

module _ (P : List ObsRow → Type 0)
    (inserted : (ns rows : List ObsRow) → P rows → P (insert_rows ns rows).0) where
  abbrev pub OnRows : Session → Type 0
  OnRows s = P s.rows

  check_key-Keeps :
      (sid : ℕ) (k : Stamp) (existing new : Option ℕ) → Keeps OnRows (check_key sid k existing new)
  unfolding check_key
  check_key-Keeps sid k existing none s p = p
  check_key-Keeps sid k none (some ph) s p = p
  check_key-Keeps sid k (some h) (some ph) s p = elim (Bool-cases (h == ph)) [
    | inl same ↦ rw (same, state) p
    | inr differs ↦ rw (differs, state) p
  ]

  check_keys-Keeps :
      (sid : ℕ) (chunk : List ObsRow) (keys : List Stamp) → Keeps OnRows (check_keys sid chunk keys)
  unfolding check_keys
  check_keys-Keeps sid chunk [] s p = p
  check_keys-Keeps sid chunk (k ∷ keys) s p =
      Keeps-bind OnRows (check_key sid k (select_hash sid k s.rows) (chunk_hash k chunk)) _
        (check_key-Keeps sid k (select_hash sid k s.rows) (chunk_hash k chunk))
        (λ u. check_keys-Keeps sid chunk keys) s p

  -- The two lookups of an audit row, as `key_rows` writes them.
  abbrev action_of : ℕ → Stamp → List Stamp → List Stamp → ℕ → Action Session KeyAction
  action_of sid k ins unch ph =
      if mem k ins
      then pure KeyAction.inserted
      else if mem k unch
      then pure KeyAction.unchanged
      else raise (observation_conflict sid k.ts k.as_of none ph)

  abbrev hash_or_error : Option ℕ → Action Session ℕ
  hash_or_error o = elim o [ some h ↦ pure h | none ↦ raise key_error ]

  action_of-Keeps :
      (sid : ℕ) (k : Stamp) (ins unch : List Stamp) (ph : ℕ)
      → Keeps OnRows (action_of sid k ins unch ph)
  action_of-Keeps sid k ins unch ph s p = elim (Bool-cases (mem k ins)) [
    | inl new ↦ rw (new, state) p
    | inr old ↦ elim (Bool-cases (mem k unch)) [
      | inl there ↦ rw (old, there, state) p
      | inr missing ↦ rw (old, missing, state) p
    ]
  ]

  hash_or_error-Keeps : (o : Option ℕ) → Keeps OnRows (hash_or_error o)
  hash_or_error-Keeps none s p = p
  hash_or_error-Keeps (some h) s p = p

  module _ (env : Env) (c : Context) (run sid : ℕ) where
    insert_chunk-Keeps :
        (chunk : List ObservationIn) (rows : List ObsRow)
        → Keeps OnRows (insert_chunk env c run sid chunk rows)
    unfolding insert_chunk
    insert_chunk-Keeps chunk rows s p =
        elim (Bool-cases (insertable env sid run chunk rows s.rows)) [
          | inl takes ↦ rw (takes, state) (inserted rows s.rows p)
          | inr refuses ↦ rw (refuses, state) p
        ]

    write_chunk-Keeps :
        (chunk : List ObservationIn) → Keeps OnRows (write_chunk env c run sid chunk)
    unfolding write_chunk
    write_chunk-Keeps chunk =
        Keeps-bind OnRows (lift (rows_of env sid (audit_cols c) run chunk)) _
          (Keeps-lift OnRows (rows_of env sid (audit_cols c) run chunk))
          (λ rows.
            Keeps-bind OnRows (insert_chunk env c run sid chunk rows) _
              (insert_chunk-Keeps chunk rows)
              (λ keys.
                Keeps-bind OnRows (check_keys sid rows (difference (chunk_keys rows) keys)) _
                  (check_keys-Keeps sid rows (difference (chunk_keys rows) keys)) (λ u s p. p)))

    write_chunks-Keeps :
        (parts : List (List ObservationIn)) (ins unch : List Stamp)
        → Keeps OnRows (write_chunks env c run sid parts ins unch)
    unfolding write_chunks
    write_chunks-Keeps [] ins unch = λ s p. p
    write_chunks-Keeps (chunk ∷ rest) ins unch =
        Keeps-bind OnRows (write_chunk env c run sid chunk) _ (write_chunk-Keeps chunk)
          (λ keys. write_chunks-Keeps rest (union ins keys.0) (union unch keys.1))

    key_rows-Keeps :
        (event_id occurred_at : ℕ) (seen : Seen) (ins unch : List Stamp) (os : List ObservationIn)
        → Keeps OnRows (key_rows env c run sid event_id occurred_at seen ins unch os)
    unfolding key_rows
    key_rows-Keeps event_id occurred_at seen ins unch [] = λ s p. p
    key_rows-Keeps event_id occurred_at seen ins unch (o ∷ os) =
        Keeps-bind OnRows (hash_or_error (seen_hash (stamp_of o) seen)) _
          (hash_or_error-Keeps (seen_hash (stamp_of o) seen))
          (λ ph.
            Keeps-bind OnRows (action_of sid (stamp_of o) ins unch ph) _
              (action_of-Keeps sid (stamp_of o) ins unch ph)
              (λ action.
                Keeps-bind OnRows (key_rows env c run sid event_id occurred_at seen ins unch os) _
                  (key_rows-Keeps event_id occurred_at seen ins unch os) (λ rest s p. p)))

    emit-Keeps :
        (occurred_at attempted : ℕ) (first : ObservationIn) (rest : List ObservationIn)
        (seen : Seen) (ins unch : List Stamp)
        → Keeps OnRows
            (emit_write_batch_audit env c run sid occurred_at attempted first rest seen ins unch)
    unfolding emit_write_batch_audit
    emit-Keeps occurred_at attempted first rest seen ins unch =
        Keeps-bind OnRows (lift (compute_batch_hash env sid (first ∷ rest))) _
          (Keeps-lift OnRows (compute_batch_hash env sid (first ∷ rest)))
          (λ digest s p.
            Keeps-bind OnRows
              (key_rows env c run sid (length s.events) occurred_at seen ins unch (first ∷ rest)) _
              (key_rows-Keeps (length s.events) occurred_at seen ins unch (first ∷ rest))
              (λ keys s' p'. p') _ p)

    write_deduped-Keeps :
        (occurred_at attempted : ℕ) (seen : Seen) (os : List ObservationIn)
        → Keeps OnRows (write_deduped env c run sid occurred_at attempted seen os)
    unfolding write_deduped
    write_deduped-Keeps occurred_at attempted seen [] = λ s p. p
    write_deduped-Keeps occurred_at attempted seen (first ∷ rest) =
        Keeps-bind OnRows
          (write_chunks env c run sid (chunks (length (first ∷ rest)) chunk_size (first ∷ rest)) []
            [])
          _ (write_chunks-Keeps (chunks (length (first ∷ rest)) chunk_size (first ∷ rest)) [] [])
          (λ keys.
            Keeps-bind OnRows
              (emit_write_batch_audit env c run sid occurred_at attempted first rest seen keys.0
                keys.1)
              _ (emit-Keeps occurred_at attempted first rest seen keys.0 keys.1) (λ u s p. p))

    pub write-Keeps :
        (occurred_at : ℕ) (observations : List ObservationIn)
        → Keeps OnRows (write env c run sid occurred_at observations)
    unfolding write
    write-Keeps occurred_at observations =
        Keeps-bind OnRows (assert_actor_or_strict_raise c) _ (assert_actor-Keeps OnRows c) (λ u.
          Keeps-bind OnRows (lift (validate_rows 0 observations)) _
            (Keeps-lift OnRows (validate_rows 0 observations))
            (λ u2.
              Keeps-bind OnRows (lift (dedup env sid observations [] [])) _
                (Keeps-lift OnRows (dedup env sid observations [] []))
                (λ found. write_deduped-Keeps occurred_at (length observations) found.0 found.1)))
