-- ===== src/Streams/Deadletter/Route/Owned.antt =====
-- The log row of a message: which statements keep its failure id and its key.
use aslan_core.Base.{
  ℕ, String, true, ◌&&◌, some, List, [], ◌∷◌, ◌≡◌, refl, inl, inr, ◌==◌, is_none, All, Bool-cases,
  &&-parts, ==_iff,
}
use aslan_core.Base.Sort.{In}
use aslan_core.Streams.Ids.{RedisId}
use aslan_core.Streams.Deadletter.Tables.{LogRow, in_log, mark_routed, marks, select_routed}

module _ (fid : ℕ) (rid : RedisId) (now : ℕ) where
  mark_routed-All :
      (P : LogRow → Type 0) (rows : List LogRow)
      → ((l : LogRow)
          → P l
          → P (record l { redis_message_id = some rid; routed_at_redis = some now }))
      → All P rows
      → All P (mark_routed fid rid now rows)
  unfolding mark_routed
  mark_routed-All P [] k h = tt
  mark_routed-All P (l ∷ rows) k h =
      elim (Bool-cases (l.failure_id == fid && is_none l.routed_at_redis)) [
        | inl unrouted ↦ rw unrouted (k l h.0, mark_routed-All P rows k h.1)
        | inr closed ↦ rw closed (h.0, mark_routed-All P rows k h.1)
      ]

  in_log-mark_routed :
      (rows : List LogRow)
      → in_log fid rows ≡ true
      → in_log fid (mark_routed fid rid now rows) ≡ true
  unfolding mark_routed in_log
  in_log-mark_routed [] h = h
  in_log-mark_routed (l ∷ rows) h =
      elim (Bool-cases (l.failure_id == fid && is_none l.routed_at_redis)) [
        | inl unrouted ↦
            rw (unrouted, (&&-parts (l.failure_id == fid) (is_none l.routed_at_redis) unrouted).0)
              refl
        | inr closed ↦ elim (Bool-cases (l.failure_id == fid)) [
          | inl here ↦ rw (closed, here) refl
          | inr other ↦ rw (closed, other) (in_log-mark_routed rows (rw other at h))
        ]
      ]

  -- A row that the UPDATE has marked.
  pub marks_lem :
      (rows : List LogRow)
      → marks fid rows ≡ true
      → (l : LogRow) × In l (mark_routed fid rid now rows)
        × (l.failure_id ≡ fid)
        × (l.redis_message_id ≡ some rid)
  unfolding mark_routed marks
  marks_lem [] h = absurd (cc)
  marks_lem (l ∷ rows) h = elim (Bool-cases (l.failure_id == fid && is_none l.routed_at_redis)) [
    | inl unrouted ↦ rw unrouted (
      record l { redis_message_id = some rid; routed_at_redis = some now },
      inl refl,
      (==_iff l.failure_id fid).0
          ((&&-parts (l.failure_id == fid) (is_none l.routed_at_redis) unrouted).0),
      refl,
    )
    | inr closed ↦
        let (q, i, same, m) = marks_lem rows (rw closed at h) in rw closed (q, inr i, same, m)
  ]

pub select_routed_lem :
    (fid : ℕ) (rows : List LogRow) (rid : RedisId)
    → select_routed fid rows ≡ some rid
    → (l : LogRow) × In l rows × (l.failure_id ≡ fid) × (l.redis_message_id ≡ some rid)
unfolding select_routed
select_routed_lem fid [] rid h = absurd (cc)
select_routed_lem fid (l ∷ rows) rid h = elim (Bool-cases (l.failure_id == fid)) [
  | inl here ↦ (l, inl refl, (==_iff l.failure_id fid).0 here, rw here at h)
  | inr other ↦
      let (q, i, same, m) = select_routed_lem fid rows rid (rw other at h) in (q, inr i, same, m)
]

module _ (stream group message : String) where
  -- The row is that of the message.
  abbrev pub KeyIs : LogRow → Type 0
  KeyIs l = (l.stream_name ≡ stream) × (l.group_name ≡ group) × (l.original_message_id ≡ message)

  -- A row of the log has the failure id, and only rows of the message do.
  abbrev pub Owns : ℕ → List LogRow → Type 0
  Owns fid log = (in_log fid log ≡ true) × All (λ l. l.failure_id ≡ fid → KeyIs l) log

  pub mark_routed-Owns :
      (fid : ℕ) (rid : RedisId) (now : ℕ) (log : List LogRow)
      → Owns fid log
      → Owns fid (mark_routed fid rid now log)
  mark_routed-Owns fid rid now log (there, keyed) = (
    in_log-mark_routed fid rid now log there,
    mark_routed-All fid rid now (λ l. l.failure_id ≡ fid → KeyIs l) log (λ l k. k) keyed,
  )
