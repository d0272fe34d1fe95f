-- ===== src/Timeseries/BatchHash.antt =====
-- `_compute_batch_hash` of timeseries/writer.py: the bytes that the digest of a batch is taken of.
pub mod Injective
use aslan_core.Base.{
  ℕ, zero, suc, ◌+◌, ◌*◌, ◌-◌, ◌/◌, ◌%◌, ◌^◌, String, Bool, true, false, ◌&&◌, ◌||◌, List, [], ◌∷◌,
  ◌++◌, length, ltb, leb, ◌==◌, if◌then◌else◌, map,
}
use aslan_core.Base.Sort.{sort_by}
use aslan_core.Result.{Result, ok, err, ◌>>=◌}
use aslan_core.Timeseries.Bytes.{big_endian, encode, hex}
use aslan_core.Timeseries.Payload.{payload_hash}
use aslan_core.Timeseries.Types.{Datetime, ObservationIn, Env}

-- One row of the batch: (ts, as_of, payload_hash).
pub record Item : Type 0 where
  pub ts : Datetime
  pub as_of : Datetime
  pub hash : ℕ

-- `(t[0], t[1])` of `a` is at most that of `b`.
abbrev pub item_le : Item → Item → Bool
item_le a b =
    ltb a.ts.instant b.ts.instant
    || a.ts.instant == b.ts.instant && leb a.as_of.instant b.as_of.instant

-- `sorted(…, key=…)`
abbrev pub sort_items : List Item → List Item
sort_items = sort_by item_le

module _ (env : Env) where
  unfoldable pub items_of : List ObservationIn → Result (List Item)
  items_of [] = ok []
  items_of (o ∷ os) = do
    h ← payload_hash env o
    rest ← items_of os
    ok (record { ts = o.ts; as_of = o.as_of; hash = h } ∷ rest)

  -- A text of the row behind its length.
  unfoldable pub prefixed : List ℕ → List ℕ
  prefixed bytes = big_endian 4 (length bytes) ++ bytes

  unfoldable pub item_bytes : Item → List ℕ
  item_bytes i =
      prefixed (encode (env.isoformat i.ts))
      ++ (prefixed (encode (env.isoformat i.as_of)) ++ prefixed (hex 64 i.hash))

  unfoldable pub all_bytes : List Item → List ℕ
  all_bytes [] = []
  all_bytes (i ∷ items) = item_bytes i ++ all_bytes items

  -- All that `h.update` is given.
  unfoldable pub batch_bytes : ℕ → List ObservationIn → Result (List ℕ)
  batch_bytes series_id deduped = do
    items ← items_of deduped
    ok (big_endian 8 series_id ++ all_bytes (sort_items items))

  unfoldable pub compute_batch_hash : ℕ → List ObservationIn → Result ℕ
  compute_batch_hash series_id deduped = do
    bytes ← batch_bytes series_id deduped
    ok (env.sha256 bytes)
