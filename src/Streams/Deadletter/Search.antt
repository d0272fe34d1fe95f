-- ===== src/Streams/Deadletter/Search.antt =====
-- What a page of the search for an orphan shows, and that the search ends.
use mathlib.Core.Path.{subst}
use aslan_core.Base.{
  ℕ, zero, suc, ◌+◌, ◌≤◌, ◌<◌, String, true, false, Option, none, some, List, [], ◌∷◌, ◌≡◌, refl,
  inl, inr, All, Bool-cases, Option-cases, ◌==◌, ◌&&◌, arith,
}
use aslan_core.Base.Sort.{In, In_of_All, All_map}
use aslan_core.Action.{Action, Outcome, done, raised, bind-eq-done, OnDone-done}
use aslan_core.Result.{Error, Result, ok, err, redis_error}
use aslan_core.Json.{ℤ}
use aslan_core.Streams.Ids.{RedisId, redis_id_increment, after}
use aslan_core.Streams.Ids.Order.{IsId, weight, not_after_iff}
use aslan_core.Streams.Services.{Entry, Services}
use aslan_core.Streams.Services.Laws.{IsRedis, last_of}
use aslan_core.Streams.Services.Pages.{OnPage, between_bounds, next_lem, page_shows}
use aslan_core.Streams.Deadletter.Orphan.{
  answered, ask, deadletter_stream, is_orphan, first_orphan, search_page, search, search_info,
  find_orphan_in_deadletter_stream,
}

pub answered-eq-done :
    {E A : Type 0} (r : Result A × E) {a : A} {e : E} → answered r ≡ done a e → r.0 ≡ ok a
answered-eq-done (ok a, e) d = cc
answered-eq-done (err x, e) d = absurd (cc)

pub answered-eq-raised :
    {E A : Type 0} (r : Result A × E) {x : Error} {e : E} → answered r ≡ raised x e → r.0 ≡ err x
answered-eq-raised (ok a, e) d = absurd (cc)
answered-eq-raised (err x, e) d = cc

module _ (to_int : String → Option ℤ) (target : ℤ) where
  pub first_orphan-some :
      (page : List Entry) (rid : RedisId)
      → first_orphan to_int target page ≡ some rid
      → (x : Entry) × In x page × (is_orphan to_int target x ≡ true) × (x.rid ≡ rid)
  unfolding first_orphan
  first_orphan-some [] rid f = absurd (cc)
  first_orphan-some (x ∷ page) rid f = elim (Bool-cases (is_orphan to_int target x)) [
    | inl here ↦ let f' : some x.rid ≡ some rid = rw here at f in (x, inl refl, here, cc)
    | inr other ↦ let (y, i, m, e) = first_orphan-some page rid (rw other at f) in (y, inr i, m, e)
  ]

  pub first_orphan-none :
      (page : List Entry)
      → first_orphan to_int target page ≡ none
      → All (λ x. is_orphan to_int target x ≡ false) page
  unfolding first_orphan
  first_orphan-none [] f = tt
  first_orphan-none (x ∷ page) f = elim (Bool-cases (is_orphan to_int target x)) [
    | inl here ↦ let f' : some x.rid ≡ none = rw here at f in absurd (cc)
    | inr other ↦ (other, first_orphan-none page (rw other at f))
  ]

module _ {E : Type 0} (svc : Services E) (stream : E → String → List Entry)
    (redis : IsRedis svc stream) (to_int : String → Option ℤ) (target : ℤ) where
  -- An entry of the stream, in some surroundings, that the failure names.
  abbrev pub Shown : String → RedisId → RedisId → Type 0
  Shown name lower rid =
      (e : E) × (x : Entry) × In x (stream e name)
      × (is_orphan to_int target x ≡ true)
      × (x.rid ≡ rid)
      × (weight lower ≤ weight rid)

  abbrev pub Ended : String → RedisId → Option (Option RedisId) → Type 0
  Ended name lower none = ⊥
  Ended name lower (some none) = Unit
  Ended name lower (some (some rid)) = Shown name lower rid

  search_page-Ended :
      (name : String) (lower cursor upper : RedisId)
      (loop : RedisId → Action E (Option (Option RedisId))) (page : List Entry) (e e1 : E)
      {r : Option (Option RedisId)} {e' : E}
      → IsId cursor
      → IsId upper
      → weight lower ≤ weight cursor
      → All (λ x. In x (stream e name) × OnPage cursor upper x) page
      → ((next : RedisId)
          → IsId next
          → weight cursor < weight next
          → weight next ≤ weight upper
          → loop next e1 ≡ done r e'
          → Ended name lower r)
      → search_page to_int svc loop target upper page e1 ≡ done r e'
      → Ended name lower r
  unfolding search_page
  search_page-Ended name lower cursor upper loop [] e e1 vc vu le p go d =
      OnDone-done (λ r _. Ended name lower r) d tt
  search_page-Ended name lower cursor upper loop (x ∷ page) e e1 {r} {e'} vc vu le p go d =
      elim (Option-cases (first_orphan to_int target (x ∷ page))) [
        | inr (rid, f) ↦
            let (y, i, m, same) = first_orphan-some to_int target (x ∷ page) rid f in
            let (there, on_page) = In_of_All Seen y (x ∷ page) p i in
            let reached = (between_bounds cursor upper y vc vu on_page).0 in
            let d' : ◌≡◌ {A = Outcome E (Option (Option RedisId))} (done (some (some rid)) e1)
                (done r e') =
              rw f at d in
            OnDone-done (λ r _. Ended name lower r) d'
              (e, y, there, m, same, subst (λ z. weight lower ≤ weight z) same (omega arith))
        | inl f ↦ elim (Bool-cases (after next upper)) [
          | inl past ↦
              let d' : ◌≡◌ {A = Outcome E (Option (Option RedisId))} (done (some none) e1)
                  (done r e') =
                rw (f, past) at d in
              OnDone-done (λ r _. Ended name lower r) d' tt
          | inr within ↦
              let (v, further) =
                next_lem cursor upper x page vc vu
                  (All_map Seen (OnPage cursor upper) (x ∷ page) (λ y q. q.1) p) in
              go next v further ((not_after_iff next upper v vu).0 within) (rw (f, within) at d)
        ]
      ]
    where
      next : RedisId
      next = redis_id_increment (last_of x page).rid

      Seen : Entry → Type 0
      Seen y = In y (stream e name) × OnPage cursor upper y

  pub search-Ended :
      (fuel : ℕ) (name : String) (size : ℕ) (lower upper cursor : RedisId) (e : E)
      {r : Option (Option RedisId)} {e' : E}
      → IsId cursor
      → IsId upper
      → weight lower ≤ weight cursor
      → 0 < fuel
      → weight upper < weight cursor + fuel
      → search to_int svc fuel name size target upper cursor e ≡ done r e'
      → Ended name lower r
  unfolding search
  search-Ended zero name size lower upper cursor e vc vu le pos lt d = absurd (omega arith)
  search-Ended (suc fuel) name size lower upper cursor e vc vu le pos lt d =
      let (page, e1, asked, searched) =
        bind-eq-done (ask (svc.xrange name cursor upper size) e) _ d in
      search_page-Ended name lower cursor upper (search to_int svc fuel name size target upper) page
        e e1 vc vu le
        (page_shows svc stream redis e name cursor upper size (answered-eq-done _ asked))
        (λ next v further within d'.
          search-Ended fuel name size lower upper next e1 v vu (omega arith) (omega arith)
            (omega arith) d')
        searched

  search_info-Ended :
      (name : String) (size : ℕ) (lower : RedisId) (o : Outcome E (Option RedisId))
      {r : Option (Option RedisId)} {e' : E}
      → IsId lower
      → ((upper : RedisId) (e : E) → o ≡ done (some upper) e → IsId upper)
      → search_info to_int svc name size target lower o ≡ done r e'
      → Ended name lower r
  unfolding search_info
  search_info-Ended name size lower (raised (redis_error true) e) vl v d =
      OnDone-done (λ r _. Ended name lower r) d tt
  search_info-Ended name size lower (raised _ e) vl v d = absurd (cc)
  search_info-Ended name size lower (done none e) vl v d =
      OnDone-done (λ r _. Ended name lower r) d tt
  search_info-Ended name size lower (done (some upper) e) vl v d =
      elim (Bool-cases (upper.ms == 0 && upper.seq == 0)) [
        | inl empty ↦ OnDone-done (λ r _. Ended name lower r) (rw empty at d) tt
        | inr other ↦
            search-Ended (suc (suc (weight upper))) name size lower upper lower e vl
              (v upper e refl) (omega arith) (omega arith) (omega arith) (rw other at d)
      ]

  -- From a lower bound that is an id of Redis, the search for the entry of a failure in the
  -- dead-letter stream ends, whatever other clients append meanwhile and whatever the page size: it
  -- raises, or it returns, within its fuel, no id, or the id of an entry that the stream had at some
  -- time, that is not before the lower bound, and whose field failure_id is the failure's.
  pub find_orphan_ends :
      (name : String) (lower : RedisId) (size : ℕ) (e : E) {r : Option (Option RedisId)} {e' : E}
      → IsId lower
      → find_orphan_in_deadletter_stream to_int svc name lower target size e ≡ done r e'
      → Ended (deadletter_stream name) lower r
  unfolding find_orphan_in_deadletter_stream
  find_orphan_ends name lower size e vl d =
      search_info-Ended (deadletter_stream name) size lower
        (ask (svc.xinfo_stream (deadletter_stream name)) e) vl
        (λ upper e1 d'. (redis.info_reply e (deadletter_stream name) (answered-eq-done _ d')).0) d
