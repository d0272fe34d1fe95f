-- ===== src/Streams/Ids/Order.antt =====
-- The order of Redis ids that redis_id_compare computes, and the place of redis_id_increment in it.
use mathlib.Core.Path.{ap₂}
use aslan_core.Base.{ℕ, suc, ◌+◌, ◌*◌, ◌^◌, ◌≤◌, ◌<◌, true, false, ◌≡◌, ◌↔◌, arith}
use aslan_core.Json.{pos, negsuc}
use aslan_core.Streams.Ids.{RedisId, redis_id_increment, redis_id_compare, after}

-- Both halves of an id of Redis are 64-bit integers; only the second is bounded where the code relies
-- on it.
abbrev pub IsId : RedisId → Type 0
IsId a = a.seq < 2 ^ 64

-- The id as one number.
abbrev pub weight : RedisId → ℕ
weight a = a.ms * 2 ^ 64 + a.seq

pub after_iff : (a b : RedisId) → IsId a → IsId b → (after a b ≡ true) ↔ (weight b < weight a)
unfolding after redis_id_compare
after_iff a b va vb = ground arith

pub not_after_iff : (a b : RedisId) → IsId a → IsId b → (after a b ≡ false) ↔ (weight a ≤ weight b)
unfolding after redis_id_compare
not_after_iff a b va vb = ground arith

pub weight-redis_id_increment :
    (a : RedisId) → IsId a → weight (redis_id_increment a) ≡ suc (weight a)
unfolding redis_id_increment
weight-redis_id_increment a va = ground arith

pub redis_id_increment-IsId : (a : RedisId) → IsId a → IsId (redis_id_increment a)
unfolding redis_id_increment
redis_id_increment-IsId a va = ground arith

compare-eq : (a b : RedisId) → redis_id_compare a b ≡ pos 0 → a ≡ b
unfolding redis_id_compare
compare-eq a b h = ap₂ (λ ms seq. record { ms = ms; seq = seq }) (ground arith) (ground arith)

-- On ids, the comparison is that of the numbers `ms * 2^64 + seq`, and the incremented id is the
-- least one that is greater: it is an id, and an id is greater than `a` exactly if the incremented
-- one is not greater than it.
pub increment_least :
    (a b : RedisId)
    → IsId a
    → IsId b
    → ((redis_id_compare a b ≡ negsuc 0) ↔ (weight a < weight b))
      × ((redis_id_compare a b ≡ pos 0) ↔ (a ≡ b))
      × IsId (redis_id_increment a)
      × ((after b a ≡ true) ↔ (after (redis_id_increment a) b ≡ false))
unfolding redis_id_compare
increment_least a b va vb = (
  ground arith,
  (compare-eq a b, λ e. ground arith),
  redis_id_increment-IsId a va,
  (
    λ h. (not_after_iff next b next-IsId vb).1 (omega (arith, (after_iff b a vb va).0 h, bumped)),
    λ h. (after_iff b a vb va).1 (omega (arith, (not_after_iff next b next-IsId vb).0 h, bumped)),
  ),
)
  where
    next : RedisId
    next = redis_id_increment a

    next-IsId : IsId next
    next-IsId = redis_id_increment-IsId a va

    bumped : weight next ≡ suc (weight a)
    bumped = weight-redis_id_increment a va
