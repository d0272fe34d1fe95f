-- ===== src/Streams/Deadletter/Absent.antt =====
-- When the search for an orphan finds none: an entry that stays in the stream is not missed.
use mathlib.Core.Path.{subst}
use aslan_core.Base.{
  ℕ, zero, suc, ◌≤◌, ◌<◌, String, true, false, ◌&&◌, Option, none, some, List, [], ◌∷◌, ◌≡◌, refl,
  ◌⊎◌, inl, inr, All, Option-cases, ◌==◌, arith,
}
use aslan_core.Base.Sort.{In, In_of_All}
use aslan_core.Action.{Action, Outcome, done, raised, bind-eq-done}
use aslan_core.Result.{Result, ok, err, redis_error}
use aslan_core.Json.{ℤ}
use aslan_core.Streams.Ids.{RedisId, redis_id_increment, after}
use aslan_core.Streams.Ids.Order.{IsId, weight, not_after_iff}
use aslan_core.Streams.Services.{Entry, Services}
use aslan_core.Streams.Services.Laws.{IsRedis, last_of, older}
use aslan_core.Streams.Services.Pages.{OnPage, next_reaches, page_reaches}
use aslan_core.Streams.Reconcile.Finds.{Lasts}
use aslan_core.Streams.Deadletter.Orphan.{
  ask, answered, deadletter_stream, is_orphan, first_orphan, search_page, search, search_info,
  find_orphan_in_deadletter_stream,
}
use aslan_core.Streams.Deadletter.Search.{answered-eq-done, answered-eq-raised, first_orphan-none}

pub answered-done :
    {E A : Type 0} (r : Result A × E) {a : A} {e : E} → answered r ≡ done a e → r.1 ≡ e
answered-done (ok a, e) d = cc
answered-done (err x, e) d = absurd (cc)

module _ {E : Type 0} (svc : Services E) (stream : E → String → List Entry)
    (redis : IsRedis svc stream) (to_int : String → Option ℤ) (target : ℤ) (name : String)
    (x : Entry) (orphan : is_orphan to_int target x ≡ true) (x-IsId : IsId x.rid) (P : E → Type 0)
    (lasts : Lasts svc stream name x P) where
  -- A page that shows the entry, or is all before it, is not the last one without an id.
  page_found :
      (loop : RedisId → Action E (Option (Option RedisId))) (cursor upper : RedisId) (y : Entry)
      (page : List Entry) (e : E) {e' : E}
      → IsId cursor
      → IsId upper
      → weight x.rid ≤ weight upper
      → All (OnPage cursor upper) (y ∷ page)
      → In x (y ∷ page) ⊎ (older (last_of y page) x ≡ true)
      → ((next : RedisId)
          → IsId next
          → weight next ≤ weight x.rid
          → ¬ (loop next e ≡ done (some none) e'))
      → ¬ (search_page to_int svc loop target upper (y ∷ page) e ≡ done (some none) e')
  unfolding search_page
  page_found loop cursor upper y page e {e'} vc vu hi p seen go d =
      elim (Option-cases (first_orphan to_int target (y ∷ page))) [
        | inr (rid, f) ↦
            let d' : ◌≡◌ {A = Outcome E (Option (Option RedisId))} (done (some (some rid)) e)
                (done (some none) e') =
              rw f at d in
            absurd (cc)
        | inl f ↦ elim seen [
          | inl i ↦
              let missed =
                In_of_All (λ z. is_orphan to_int target z ≡ false) x (y ∷ page)
                  (first_orphan-none to_int target (y ∷ page) f) i in
              absurd (cc)
          | inr later ↦
              let (v, reaches, within) = next_reaches cursor upper x y page vu x-IsId hi p later in
              go next v reaches (rw (f, within) at d)
        ]
      ]
    where
      next : RedisId
      next = redis_id_increment (last_of y page).rid

  search_found :
      (fuel : ℕ) (size : ℕ) (cursor upper : RedisId) (e : E) {e' : E}
      → IsId cursor
      → IsId upper
      → weight cursor ≤ weight x.rid
      → weight x.rid ≤ weight upper
      → P e
      → ¬ (search to_int svc fuel name (suc size) target upper cursor e ≡ done (some none) e')
  unfolding search
  search_found zero size cursor upper e vc vu lo hi p d = absurd (cc)
  search_found (suc fuel) size cursor upper e {e'} vc vu lo hi p d =
      let (page, e1, asked, searched) =
        bind-eq-done (ask (svc.xrange name cursor upper (suc size)) e) _ d in
      let (y, rest, same, on_page, seen) =
        page_reaches svc stream redis e name cursor upper size x vc vu x-IsId lo hi
          (lasts.there e p) (answered-eq-done _ asked) in
      page_found (search to_int svc fuel name (suc size) target upper) cursor upper y rest e1 vc vu
        hi on_page seen
        (λ next v le.
          search_found fuel size next upper e1 v vu le hi
            (subst P (answered-done _ asked) (lasts.xrange name cursor upper (suc size) e p)))
        (rw same at searched)

  nothing_there : (e : E) → P e → ¬ (stream e name ≡ [])
  nothing_there e p empty = elim (subst (In x) empty (lasts.there e p)) [ ]

  -- The replies of XINFO STREAM while the entry is there.
  info_found :
      (size : ℕ) (lower : RedisId) (o : Outcome E (Option RedisId)) {e' : E}
      → IsId lower
      → weight lower ≤ weight x.rid
      → 0 < weight x.rid
      → ((e : E) → ¬ (o ≡ raised (redis_error true) e))
      → ((e : E) → ¬ (o ≡ done none e))
      → ((upper : RedisId) (e : E)
          → o ≡ done (some upper) e
          → IsId upper × (weight x.rid ≤ weight upper) × P e)
      → ¬ (search_info to_int svc name (suc size) target lower o ≡ done (some none) e')
  unfolding search_info
  info_found size lower (raised (redis_error true) e) vl lo some_id gone none_there last d =
      gone e refl
  info_found size lower (raised _ e) vl lo some_id gone none_there last d = cc
  info_found size lower (done none e) vl lo some_id gone none_there last d = none_there e refl
  info_found size lower (done (some upper) e) vl lo some_id gone none_there last d =
      let (vu, hi, p) = last upper e refl in
      let other : (upper.ms == 0 && upper.seq == 0) ≡ false = ground arith in
      search_found (suc (suc (weight upper))) size lower upper e vl vu lo hi p (rw other at d)

  found_or_raised :
      (lower : RedisId) (size : ℕ) (e : E) {e' : E}
      → IsId lower
      → weight lower ≤ weight x.rid
      → 0 < weight x.rid
      → P e
      → ¬ (
          search_info to_int svc name (suc size) target lower (ask (svc.xinfo_stream name) e)
          ≡ done (some none) e')
  found_or_raised lower size e vl lo some_id p =
      info_found size lower (ask (svc.xinfo_stream name) e) vl lo some_id
        (λ e1 d. nothing_there e p (redis.no_such_key e name (answered-eq-raised _ d)))
        (λ e1 d. nothing_there e p (redis.info_empty e name (answered-eq-done _ d)))
        (λ upper e1 d.
          let (vu, all) = redis.info_reply e name (answered-eq-done _ d) in
          (
            vu,
            (not_after_iff x.rid upper x-IsId vu).0 (
                In_of_All (λ y. after y.rid upper ≡ false) x (stream e name) all (lasts.there e p)),
            subst P (answered-done _ d) (lasts.xinfo name e p),
          ))

module _ {E : Type 0} (svc : Services E) (stream : E → String → List Entry)
    (redis : IsRedis svc stream) (to_int : String → Option ℤ) where
  -- With pages of one entry at least: if an entry of the failure, whose id is not before the lower
  -- bound and not 0-0, stays in the dead-letter stream while it is searched, the search does not
  -- return that there is none: it raises, or returns an id. The entry may be on any page, and other
  -- clients may append meanwhile.
  pub find_orphan_misses_none :
      (name : String) (target : ℤ) (x : Entry) (P : E → Type 0) (lower : RedisId) (size : ℕ) (e : E)
      {e' : E}
      → is_orphan to_int target x ≡ true
      → IsId x.rid
      → Lasts svc stream (deadletter_stream name) x P
      → IsId lower
      → weight lower ≤ weight x.rid
      → 0 < weight x.rid
      → P e
      → ¬ (
          find_orphan_in_deadletter_stream to_int svc name lower target (suc size) e
          ≡ done (some none) e')
  unfolding find_orphan_in_deadletter_stream
  find_orphan_misses_none name target x P lower size e orphan vx lasts vl lo some_id p =
      found_or_raised svc stream redis to_int target (deadletter_stream name) x orphan vx P lasts
        lower size e vl lo some_id p
