-- ===== src/Timeseries/Batch/Keys.antt =====
-- The keys of a batch once Phase 0 has dropped its repetitions.
use aslan_core.Base.{
  ℕ, true, List, [], ◌∷◌, ◌++◌, is_some, ◌≡◌, refl, arith, Bool-cases, inl, inr, All, All-append,
}
use aslan_core.Result.{ok}
use aslan_core.Timeseries.Types.{ObservationIn, Stamp, stamp_eq, stamp_of, Env}
use aslan_core.Timeseries.Table.{mem}
use aslan_core.Timeseries.Table.Laws.{stamp_eq→eq, stamp_eq_refl}
use aslan_core.Timeseries.Batch.{Seen, seen_hash, dedup}
use aslan_core.Timeseries.Batch.Dedup.{Hashed, IsDeduped, keys_of, dedup_step, dedup_lem}

-- A batch keeps only rows that it was given.
pub dedup-All :
    (env : Env) (sid : ℕ) (P : ObservationIn → Type 0) (os : List ObservationIn) (seen : Seen)
    (out : List ObservationIn) (seen' : Seen) (ds : List ObservationIn)
    → All P os
    → All P out
    → dedup env sid os seen out ≡ ok (seen', ds)
    → All P ds
unfolding dedup
dedup-All env sid P [] seen out seen' ds h k e = ground arith
dedup-All env sid P (o ∷ os) seen out seen' ds h k e =
    let (g, _, next) = dedup_step env sid o os seen out (seen', ds) e in
    elim next [
      | inl (_, rest) ↦
          dedup-All env sid P os (seen ++ (stamp_of o, g) ∷ []) (out ++ o ∷ []) seen' ds h.1
            (All-append P out (o ∷ []) k (h.0, tt)) rest
      | inr (_, rest) ↦ dedup-All env sid P os seen out seen' ds h.1 k rest
    ]

All_own_keys :
    (os : List ObservationIn) (keys : List Stamp)
    → ((k : Stamp) → mem k (keys_of os) ≡ true → mem k keys ≡ true)
    → All (λ (o : ObservationIn). mem (stamp_of o) keys ≡ true) os
unfolding mem
All_own_keys [] keys h = tt
All_own_keys (o ∷ os) keys h =
    (h (stamp_of o) (rw stamp_eq_refl), All_own_keys os keys (λ k m. h k (ground arith)))

mem_of_own :
    (os : List ObservationIn) (keys : List Stamp) (k : Stamp)
    → All (λ (o : ObservationIn). mem (stamp_of o) keys ≡ true) os
    → mem k (keys_of os) ≡ true
    → mem k keys ≡ true
unfolding mem
mem_of_own [] keys k h m = absurd (cc)
mem_of_own (o ∷ os) keys k h m = elim (Bool-cases (stamp_eq (stamp_of o) k)) [
  | inl same ↦ rw (← stamp_eq→eq (stamp_of o) k same) (h.0)
  | inr other ↦ mem_of_own os keys k h.1 (ground arith)
]

Hashed-mem :
    (env : Env) (sid : ℕ) (seen : Seen) (os : List ObservationIn) (k : Stamp)
    → All (Hashed env sid seen) os
    → mem k (keys_of os) ≡ true
    → is_some (seen_hash k seen) ≡ true
unfolding mem
Hashed-mem env sid seen [] k h m = absurd (cc)
Hashed-mem env sid seen (o ∷ os) k h m = elim (Bool-cases (stamp_eq (stamp_of o) k)) [
  | inl same ↦ rw (← stamp_eq→eq (stamp_of o) k same, h.0.2) refl
  | inr other ↦ Hashed-mem env sid seen os k h.1 (ground arith)
]

-- The rows kept have the keys of the batch.
pub dedup-keys :
    (env : Env) (sid : ℕ) (os : List ObservationIn) (seen : Seen) (ds : List ObservationIn)
    → IsDeduped env sid [] []
    → dedup env sid os [] [] ≡ ok (seen, ds)
    → (k : Stamp) → mem k (keys_of ds) ≡ mem k (keys_of os)
dedup-keys env sid os seen ds start e k =
    let (inv, _, all, _) = dedup_lem env sid os [] [] start e in
    let kept =
      dedup-All env sid (λ o. mem (stamp_of o) (keys_of os) ≡ true) os [] [] seen ds
        (All_own_keys os (keys_of os) (λ j m. m)) tt e in
    ground
      (arith, inv.covered k, Hashed-mem env sid seen os k all, mem_of_own ds (keys_of os) k kept)
