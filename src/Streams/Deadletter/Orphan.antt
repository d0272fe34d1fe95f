-- ===== src/Streams/Deadletter/Orphan.antt =====
-- `find_orphan_in_deadletter_stream` of streams/deadletter.py: a scan by pages, up to the last id at
-- its start. `to_int` is Python's `int` of a string, which raises ValueError on what is no number.
use Prim.Native.String.{◌++◌ as str_append}
use aslan_core.Base.{
  ℕ, zero, suc, String, Bool, true, false, ◌&&◌, Option, none, some, List, [], ◌∷◌, ◌==◌,
  if◌then◌else◌,
}
use aslan_core.Action.{Action, Outcome, done, raised, pure, lift, ◌>>=◌}
use aslan_core.Result.{Result, redis_error}
use aslan_core.Json.{ℤ, pos, negsuc}
use aslan_core.Streams.Ids.{RedisId, redis_id_increment, after}
use aslan_core.Streams.Ids.Order.{weight}
use aslan_core.Streams.Services.{Entry, get_field, Services}
use aslan_core.Streams.Services.Laws.{last_of}

-- A call of Redis or of the database.
abbrev pub answered : {E A : Type 0} → Result A × E → Outcome E A
answered (r, e) = lift r e

abbrev pub ask : {E A : Type 0} → (E → Result A × E) → Action E A
ask f e = answered (f e)

abbrev pub deadletter_stream : String → String
deadletter_stream stream = str_append stream ".deadletter"

abbrev int_eq : ℤ → ℤ → Bool
int_eq (pos m) (pos n) = m == n
int_eq (negsuc m) (negsuc n) = m == n
int_eq m n = false

abbrev or_missing : Option String → String
or_missing none = "-1"
or_missing (some v) = v

-- A ValueError is `continue`.
abbrev equals : Option ℤ → ℤ → Bool
equals none target = false
equals (some fid) target = int_eq fid target

module _ (to_int : String → Option ℤ) where
  unfoldable pub is_orphan : ℤ → Entry → Bool
  is_orphan target x = equals (to_int (or_missing (get_field x.fields "failure_id"))) target

  -- The first entry of a page that is the orphan.
  unfoldable pub first_orphan : ℤ → List Entry → Option RedisId
  first_orphan target [] = none
  first_orphan target (x ∷ page) =
      let rest = first_orphan target page in if is_orphan target x then some x.rid else rest

  module _ {E : Type 0} (svc : Services E) where
    -- `return _decode(entry_id)`, and `if redis_id_compare(cursor, upper_bound) > 0: return None`.
    abbrev pub after_page :
        (RedisId → Action E (Option (Option RedisId)))
        → Option RedisId
        → Bool
        → RedisId
        → Action E (Option (Option RedisId))
    after_page loop (some rid) past cursor = pure (some (some rid))
    after_page loop none true cursor = pure (some none)
    after_page loop none false cursor = loop cursor

    unfoldable pub search_page :
        (RedisId → Action E (Option (Option RedisId)))
        → ℤ
        → RedisId
        → List Entry
        → Action E (Option (Option RedisId))
    search_page loop target upper [] = pure (some none)
    search_page loop target upper (x ∷ page) =
        let cursor = redis_id_increment (last_of x page).rid in
        after_page loop (first_orphan target (x ∷ page)) (after cursor upper) cursor

    -- `while True`, which the fuel bounds: `none` is returned when it runs out.
    unfoldable pub search :
        ℕ → String → ℕ → ℤ → RedisId → RedisId → Action E (Option (Option RedisId))
    search zero name page_size target upper cursor = pure none
    search (suc fuel) name page_size target upper cursor = do
      page ← ask (svc.xrange name cursor upper page_size)
      search_page (search fuel name page_size target upper) target upper page

    -- The replies of XINFO STREAM.
    unfoldable pub search_info :
        String → ℕ → ℤ → RedisId → Outcome E (Option RedisId) → Outcome E (Option (Option RedisId))
    search_info name page_size target lower (raised (redis_error true) e) = done (some none) e
    search_info name page_size target lower (raised x e) = raised x e
    search_info name page_size target lower (done none e) = done (some none) e
    search_info name page_size target lower (done (some upper) e) =
        if upper.ms == 0 && upper.seq == 0
        then done (some none) e
        else search (suc (suc (weight upper))) name page_size target upper lower e

    unfoldable pub find_orphan_in_deadletter_stream :
        String → RedisId → ℤ → ℕ → Action E (Option (Option RedisId))
    find_orphan_in_deadletter_stream stream lower_bound target page_size e =
        search_info (deadletter_stream stream) page_size target lower_bound
          (ask (svc.xinfo_stream (deadletter_stream stream)) e)
