-- ===== src/Timeseries/Batch/Dedup.antt =====
-- What Phase 0 leaves: every key once, with the hash of each row that has it.
use aslan_core.Base.{
  ℕ, ◌+◌, ◌≤◌, false, none, some, List, [], ◌∷◌, ◌++◌, is_some, if◌then◌else◌, map, ◌≡◌, refl, ap,
  arith, Bool-cases, Option-cases, ◌⊎◌, inl, inr, length, All, All-append, length-append, ◌==◌,
  ==_iff,
}
use mathlib.Core.List.{map-append}
use aslan_core.Result.{ok, >>=-eq-ok}
use aslan_core.Timeseries.Payload.{payload_hash}
use aslan_core.Timeseries.Types.{ObservationIn, Stamp, stamp_eq, stamp_of, Env}
use aslan_core.Timeseries.Table.{mem}
use aslan_core.Timeseries.Table.Laws.{Distinct, stamp_eq→eq, stamp_eq_refl, mem-append}
use aslan_core.Timeseries.Batch.{Seen, seen_hash, dedup, validate_metadata}

abbrev pub keys_of : List ObservationIn → List Stamp
keys_of = map stamp_of

pub Distinct-append :
    (xs : List Stamp) (k : Stamp) → Distinct xs → mem k xs ≡ false → Distinct (xs ++ k ∷ [])
unfolding mem
Distinct-append [] k d h = (refl, tt)
Distinct-append (x ∷ xs) k d h = (
  ground (arith, mem-append x xs (k ∷ []), stamp_eq→eq x k, stamp_eq→eq k x, stamp_eq_refl k),
  Distinct-append xs k d.1 (ground arith),
)

seen_hash-append :
    (k j : Stamp) (h : ℕ) (seen : Seen)
    → seen_hash k (seen ++ (j, h) ∷ [])
      ≡ elim (seen_hash k seen) [ some g ↦ some g | none ↦ if stamp_eq j k then some h else none ]
unfolding seen_hash
seen_hash-append k j h [] = refl
seen_hash-append k j h ((i, g) ∷ seen) = ground (arith, seen_hash-append k j h seen)

module _ (env : Env) (sid : ℕ) where
  -- The row hashes, and `seen` has that hash at its key.
  abbrev pub Hashed : Seen → ObservationIn → Type 0
  Hashed seen o = (h : ℕ) × (payload_hash env o ≡ ok h) × (seen_hash (stamp_of o) seen ≡ some h)

  -- Between two rounds of the loop.
  pub record IsDeduped (seen : Seen) (deduped : List ObservationIn) : Type 0 where
    pub distinct : Distinct (keys_of deduped)
    pub covered : (k : Stamp) → is_some (seen_hash k seen) ≡ mem k (keys_of deduped)
    pub hashed : All (Hashed seen) deduped

  -- `seen` only grows.
  abbrev Grows : Seen → Seen → Type 0
  Grows a b = (k : Stamp) (h : ℕ) → seen_hash k a ≡ some h → seen_hash k b ≡ some h

  All-Grows :
      (a b : Seen) → Grows a b → (os : List ObservationIn) → All (Hashed a) os → All (Hashed b) os
  All-Grows a b g [] h = tt
  All-Grows a b g (o ∷ os) h = ((h.0.0, h.0.1, g (stamp_of o) h.0.0 h.0.2), All-Grows a b g os h.1)

  keep-IsDeduped :
      (seen : Seen) (out : List ObservationIn) (o : ObservationIn) (h : ℕ)
      → IsDeduped seen out
      → payload_hash env o ≡ ok h
      → seen_hash (stamp_of o) seen ≡ none
      → IsDeduped (seen ++ (stamp_of o, h) ∷ []) (out ++ o ∷ [])
  keep-IsDeduped seen out o h inv hash fresh = record {
    distinct = rw map-append (
        Distinct-append (keys_of out) (stamp_of o) inv.distinct
          (ground (arith, inv.covered (stamp_of o))));
    covered = λ k. rw map-append (
        ground (
          arith,
          mem-append k (keys_of out) (stamp_of o ∷ []),
          seen_hash-append k (stamp_of o) h seen,
          inv.covered k,
          single k,
        ));
    hashed =
        All-append (Hashed (seen ++ (stamp_of o, h) ∷ [])) out (o ∷ [])
          (All-Grows seen _ (λ k g e. ground (arith, seen_hash-append k (stamp_of o) h seen)) out
            inv.hashed)
          (
            (
              h,
              hash,
              ground (
                arith,
                seen_hash-append (stamp_of o) (stamp_of o) h seen,
                stamp_eq_refl (stamp_of o),
              ),
            ),
            tt,
          );
  }
    where
      single : (k : Stamp) → mem k (stamp_of o ∷ []) ≡ stamp_eq (stamp_of o) k
      single k = unfold mem in ground arith

  -- What the loop has done when it ends: the invariant, a hash for each row that it read, and no more
  -- rows than it was given.
  abbrev pub DedupResult :
      List ObservationIn → Seen → List ObservationIn → Seen → List ObservationIn → Type 0
  DedupResult os seen out seen' deduped =
      IsDeduped seen' deduped
      × Grows seen seen'
      × All (Hashed seen') os
      × (length deduped ≤ length out + length os)

  -- One round that does not raise: the row is kept if its key is new, dropped if its hash is there.
  pub dedup_step :
      (o : ObservationIn) (os : List ObservationIn) (seen : Seen) (out : List ObservationIn)
      (r : Seen × List ObservationIn)
      → dedup env sid (o ∷ os) seen out ≡ ok r
      → (h : ℕ) × (payload_hash env o ≡ ok h)
        × (((seen_hash (stamp_of o) seen ≡ none)
              × (dedup env sid os (seen ++ (stamp_of o, h) ∷ []) (out ++ o ∷ []) ≡ ok r))
            ⊎ ((seen_hash (stamp_of o) seen ≡ some h) × (dedup env sid os seen out ≡ ok r)))
  unfolding dedup
  dedup_step o os seen out r e =
      let (_, _, e1) = >>=-eq-ok (validate_metadata env sid o.metadata) _ e in
      let (h, hash, e2) = >>=-eq-ok (payload_hash env o) _ e1 in
      (
        h,
        hash,
        elim (Option-cases (seen_hash (stamp_of o) seen)) [
          | inl new ↦ inl (new, rw new at e2)
          | inr (g, old) ↦ elim (Bool-cases (g == h)) [
            | inl same ↦ inr (rw old (ap some ((==_iff g h).0 same)), ground (arith, e2))
            | inr differs ↦ absurd (ground (arith, e2))
          ]
        ],
      )

  pub dedup_lem :
      (os : List ObservationIn) (seen : Seen) (out : List ObservationIn) {seen' : Seen}
      {deduped : List ObservationIn}
      → IsDeduped seen out
      → dedup env sid os seen out ≡ ok (seen', deduped)
      → DedupResult os seen out seen' deduped
  unfolding dedup
  dedup_lem [] seen out inv e = ground arith
  dedup_lem (o ∷ os) seen out {seen'} {deduped} inv e =
      let (h, hash, next) = dedup_step o os seen out (seen', deduped) e in
      elim next [
        | inl (fresh, rest) ↦
            let (inv', grows, all, len) =
              dedup_lem os (seen ++ (stamp_of o, h) ∷ []) (out ++ o ∷ [])
                (keep-IsDeduped seen out o h inv hash fresh) rest in
            (
              inv',
              (λ k g p. grows k g (ground (arith, seen_hash-append k (stamp_of o) h seen))),
              (
                (
                  h,
                  hash,
                  grows (stamp_of o) h (
                      ground (
                        arith,
                        seen_hash-append (stamp_of o) (stamp_of o) h seen,
                        stamp_eq_refl (stamp_of o),
                      )),
                ),
                all,
              ),
              omega (arith, length-append out (o ∷ [])),
            )
        | inr (old, rest) ↦
            let (inv', grows, all, len) = dedup_lem os seen out inv rest in
            (inv', grows, ((h, hash, grows (stamp_of o) h old), all), omega arith)
      ]
