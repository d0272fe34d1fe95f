-- ===== src/Streams/Deadletter/Tables/Laws.antt =====
-- The statements on the tables of the dead letters: what a select reads after each change.
use mathlib.Core.Path.{subst}
use aslan_core.Base.{
  ap, ℕ, Bool, true, false, ◌&&◌, none, some, List, [], ◌∷◌, ◌++◌, ◌≡◌, ◌≢◌, ◌⊎◌, refl, inl, inr,
  ◌==◌, Option-cases, is_none, All, Bool-cases, ==_iff,
}
use aslan_core.Streams.Ids.{RedisId}
use aslan_core.Streams.Ids.Order.{IsId}
use aslan_core.Streams.Deadletter.Tables.{
  Intent, LogRow, find_intent, update_intent, delete_intent, mark_routed,
}

module _ (fid : ℕ) where
  pub find_intent-update_intent :
      (f : Intent → Intent) (rows : List Intent) {r : Intent}
      → ((q : Intent) → (f q).failure_id ≡ q.failure_id)
      → find_intent fid rows ≡ some r
      → find_intent fid (update_intent fid f rows) ≡ some (f r)
  unfolding find_intent update_intent
  find_intent-update_intent f [] same e = absurd (cc)
  find_intent-update_intent f (q ∷ rows) {r} same e = elim (Bool-cases (q.failure_id == fid)) [
    | inl here ↦
        let e' : some q ≡ some r = rw here at e in
        let is_q : q ≡ r = cc in
        let kept : ((f q).failure_id == fid) ≡ true = rw (same q) here in
        rw (here, kept) (ap (λ (z : Intent). some (f z)) is_q)
    | inr other ↦ rw (other, other) (find_intent-update_intent f rows same (rw other at e))
  ]

  pub find_intent-delete_intent :
      (rows : List Intent) → find_intent fid (delete_intent fid rows) ≡ none
  unfolding find_intent delete_intent
  find_intent-delete_intent [] = refl
  find_intent-delete_intent (q ∷ rows) = elim (Bool-cases (q.failure_id == fid)) [
    | inl here ↦ rw here (find_intent-delete_intent rows)
    | inr other ↦ rw (other, other) (find_intent-delete_intent rows)
  ]

  pub find_intent-append :
      (rows : List Intent) (r : Intent)
      → r.failure_id ≡ fid
      → find_intent fid rows ≡ none
      → find_intent fid (rows ++ r ∷ []) ≡ some r
  unfolding find_intent
  find_intent-append [] r own e = rw ((==_iff r.failure_id fid).1 own) refl
  find_intent-append (q ∷ rows) r own e = elim (Bool-cases (q.failure_id == fid)) [
    | inl here ↦ let e' : some q ≡ none = rw here at e in absurd (cc)
    | inr other ↦ rw other (find_intent-append rows r own (rw other at e))
  ]

  -- A log row of the failure is marked as routed.
  abbrev pub Routed : LogRow → Type 0
  Routed l = (l.failure_id == fid && is_none l.routed_at_redis) ≡ false

  pub mark_routed-Routed :
      (rid : RedisId) (now : ℕ) (rows : List LogRow) → All Routed (mark_routed fid rid now rows)
  unfolding mark_routed
  mark_routed-Routed rid now [] = tt
  mark_routed-Routed rid now (l ∷ rows) =
      elim (Bool-cases (l.failure_id == fid && is_none l.routed_at_redis)) [
        | inl unrouted ↦
            rw unrouted (&&-false (l.failure_id == fid), mark_routed-Routed rid now rows)
        | inr closed ↦ rw closed (closed, mark_routed-Routed rid now rows)
      ]
    where
      &&-false : (b : Bool) → (b && false) ≡ false
      &&-false true = refl
      &&-false false = refl

  -- A row of the log before and after the failure is routed under an id: an unrouted row of the
  -- failure has got the id and the time, any other row is as it was.
  abbrev pub RoutedRow : RedisId → ℕ → LogRow → LogRow → Type 0
  RoutedRow rid now l m =
      ((l.failure_id ≡ fid)
        × (l.routed_at_redis ≡ none)
        × (m ≡ record l { redis_message_id = some rid; routed_at_redis = some now }))
      ⊎ (((l.failure_id ≢ fid) ⊎ (l.routed_at_redis ≢ none)) × (m ≡ l))

  abbrev pub RoutedLog : RedisId → ℕ → List LogRow → List LogRow → Type 0
  RoutedLog rid now [] [] = Unit {0}
  RoutedLog rid now [] (m ∷ new) = ⊥
  RoutedLog rid now (l ∷ old) [] = ⊥
  RoutedLog rid now (l ∷ old) (m ∷ new) = RoutedRow rid now l m × RoutedLog rid now old new

  pub mark_routed-RoutedLog :
      (rid : RedisId) (now : ℕ) (rows : List LogRow)
      → RoutedLog rid now rows (mark_routed fid rid now rows)
  unfolding mark_routed
  mark_routed-RoutedLog rid now [] = tt
  mark_routed-RoutedLog rid now (l ∷ rows) = elim (Bool-cases (l.failure_id == fid)) [
    | inr other ↦ rw other (
      inr (inl (λ e. absurd (cc (other, (==_iff l.failure_id fid).1 e))), refl),
      mark_routed-RoutedLog rid now rows,
    )
    | inl same ↦ elim (Option-cases (l.routed_at_redis)) [
      | inl unrouted ↦
          rw (same, unrouted)
            (inl ((==_iff l.failure_id fid).0 same, refl, refl), mark_routed-RoutedLog rid now rows)
      | inr (t, routed) ↦
          rw (same, routed) (inr (inr (λ e. absurd (cc)), refl), mark_routed-RoutedLog rid now rows)
    ]
  ]

pub All-find_intent :
    (P : Intent → Type 0) (fid : ℕ) (rows : List Intent) {r : Intent}
    → All P rows
    → find_intent fid rows ≡ some r
    → P r
unfolding find_intent
All-find_intent P fid [] h e = absurd (cc)
All-find_intent P fid (q ∷ rows) {r} h e = elim (Bool-cases (q.failure_id == fid)) [
  | inl here ↦ let e' : some q ≡ some r = rw here at e in let is_q : q ≡ r = cc in subst P is_q h.0
  | inr other ↦ All-find_intent P fid rows h.1 (rw other at e)
]

-- The lower bound of an intent is an id of Redis.
abbrev pub HasId : Intent → Type 0
HasId r = IsId r.redis_lower_bound_id
