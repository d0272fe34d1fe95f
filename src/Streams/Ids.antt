-- ===== src/Streams/Ids.antt =====
-- The ids of Redis stream entries, `<unix_ms>-<seq>`, and the two helpers of streams/deadletter.py on
-- them. An id is its two halves: the split at the dash and `int` of each half are taken as done.
pub mod Order
use aslan_core.Base.{ℕ, suc, ◌+◌, ◌-◌, ◌^◌, Bool, false, true, ◌==◌, ltb, if◌then◌else◌}
use aslan_core.Json.{ℤ, pos, negsuc}

pub record RedisId : Type 0 where
  pub ms : ℕ
  pub seq : ℕ

abbrev pub zero_id : RedisId
zero_id = record { ms = 0; seq = 0 }

abbrev max_seq : ℕ
max_seq = 2 ^ 64 - 1

unfoldable pub redis_id_increment : RedisId → RedisId
redis_id_increment rid =
    if ltb rid.seq max_seq
    then record { ms = rid.ms; seq = rid.seq + 1 }
    else record { ms = rid.ms + 1; seq = 0 }

unfoldable pub redis_id_compare : RedisId → RedisId → ℤ
redis_id_compare a b =
    if a.ms == b.ms
    then (if a.seq == b.seq then pos 0 else if ltb a.seq b.seq then negsuc 0 else pos 1)
    else (if ltb a.ms b.ms then negsuc 0 else pos 1)

-- `redis_id_compare(a, b) > 0`
abbrev is_positive : ℤ → Bool
is_positive (pos n) = ltb 0 n
is_positive (negsuc n) = false

unfoldable pub after : RedisId → RedisId → Bool
unfolding redis_id_compare
after a b = is_positive (redis_id_compare a b)
