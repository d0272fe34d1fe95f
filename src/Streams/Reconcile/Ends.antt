-- ===== src/Streams/Reconcile/Ends.antt =====
-- The loop of `_reconcile_unindexed_xadd` ends, whatever other clients do to the stream meanwhile.
use aslan_core.Base.{
  ℕ, zero, suc, ◌+◌, ◌≤◌, ◌<◌, String, Bool, true, false, Option, none, some, List, [], ◌∷◌, ◌≡◌,
  refl, inl, inr, All, Bool-cases, arith,
}
use aslan_core.Base.Sort.{All_map}
use aslan_core.Action.{Action, pure, Outcome, done, raised, bind-eq-done}
use aslan_core.Result.{Error, Result, ok, err, redis_error, attribute_error}
use aslan_core.Streams.Ids.{RedisId, redis_id_increment, after}
use aslan_core.Streams.Ids.Order.{IsId, weight, not_after_iff}
use aslan_core.Streams.Services.{Entry, Services}
use aslan_core.Streams.Services.Laws.{IsRedis, last_of}
use aslan_core.Streams.Services.Pages.{OnPage, next_lem, page_shows}
use aslan_core.Streams.Reconcile.{
  Hub, go_on, answer, call, index_page, scan_page, scan, scan_info, reconcile_unindexed_xadd,
}

-- A call that returns: its reply, and the state after it.
pub answer-eq-done :
    {E A : Type 0} (h : Hub E) (r : Result A × E) {a : A} {h' : Hub E}
    → answer h r ≡ done a h'
    → (r.0 ≡ ok a) × (h' ≡ record h { env = r.1 })
answer-eq-done h (ok a, e) d = (cc, cc)
answer-eq-done h (err x, e) d = absurd (cc)

pub answer-eq-raised :
    {E A : Type 0} (h : Hub E) (r : Result A × E) {x : Error} {h' : Hub E}
    → answer h r ≡ raised x h'
    → r.0 ≡ err x
answer-eq-raised h (ok a, e) d = absurd (cc)
answer-eq-raised h (err x, e) d = cc

module _ {E : Type 0} (svc : Services E) (stream : E → String → List Entry)
    (redis : IsRedis svc stream) where
  page_lem :
      (n : String) (lo hi : RedisId) (h : Hub E) {page : List Entry} {h' : Hub E}
      → call (svc.xrange n lo hi 1000) h ≡ done page h'
      → All (OnPage lo hi) page
  page_lem n lo hi h {page} d =
      All_map _ (OnPage lo hi) page (λ x p. p.1)
        (page_shows svc stream redis h.env n lo hi 1000 (answer-eq-done h _ d).0)

  -- A page whose loop ends from every later cursor that is not past the end.
  page_ends :
      (loop : RedisId → Action (Hub E) Bool) (n event : String) (upper cursor : RedisId)
      (page : List Entry) (h : Hub E) {h' : Hub E}
      → IsId upper
      → IsId cursor
      → ((next : RedisId) (h1 h2 : Hub E)
          → IsId next
          → weight cursor < weight next
          → weight next ≤ weight upper
          → ¬ (loop next h1 ≡ done false h2))
      → All (OnPage cursor upper) page
      → ¬ (scan_page svc loop n event upper page h ≡ done false h')
  unfolding scan_page
  page_ends loop n event upper cursor [] h vu vc ends p d = cc
  page_ends loop n event upper cursor (x ∷ page) h {h'} vu vc ends p d =
      elim (Bool-cases (after next upper)) [
        | inl past ↦ let stop : pure true h1 ≡ done false h' = rw past at rest in absurd (cc)
        | inr within ↦
            let (v, further) = next_lem cursor upper x page vc vu p in
            ends next h1 h' v further ((not_after_iff next upper v vu).0 within) (rw within at rest)
      ]
    where
      next : RedisId
      next = redis_id_increment (last_of x page).rid

      parts :
          (a : Unit {0}) × (h1 : Hub E) × (index_page svc n event (x ∷ page) h ≡ done a h1)
          × (go_on svc (after next upper) loop next h1 ≡ done false h')
      parts = bind-eq-done (index_page svc n event (x ∷ page) h) _ d

      h1 : Hub E
      h1 = parts.1

      rest : go_on svc (after next upper) loop next h1 ≡ done false h'
      rest = parts.3

  scan_ends :
      (fuel : ℕ) (n event : String) (upper cursor : RedisId) (h : Hub E) {h' : Hub E}
      → IsId upper
      → IsId cursor
      → weight cursor ≤ weight upper
      → weight upper < weight cursor + fuel
      → ¬ (scan svc fuel n event upper cursor h ≡ done false h')
  unfolding scan
  scan_ends zero n event upper cursor h vu vc le lt d = absurd (omega arith)
  scan_ends (suc fuel) n event upper cursor h vu vc le lt d =
      let (page, h1, d1, d2) = bind-eq-done (call (svc.xrange n cursor upper 1000) h) _ d in
      page_ends (scan svc fuel n event upper) n event upper cursor page h1 vu vc
        (λ next g g' v further within.
          scan_ends fuel n event upper next g vu v within (omega arith))
        (page_lem n cursor upper h d1) d2

  info_ends :
      (n event : String) (lower : RedisId) (o : Outcome (Hub E) (Option RedisId)) {h' : Hub E}
      → IsId lower
      → ((last : RedisId) (h : Hub E) → o ≡ done (some last) h → IsId last)
      → ¬ (scan_info svc n event lower o ≡ done false h')
  unfolding scan_info
  info_ends n event lower (done none h) vl v d = cc
  info_ends n event lower (done (some upper) h) {h'} vl v d =
      elim (Bool-cases (after lower upper)) [
        | inl past ↦
            let stop : ◌≡◌ {A = Outcome (Hub E) Bool} (done true h) (done false h') =
              rw past at d in
            absurd (cc)
        | inr within ↦
            let upper-IsId = v upper h refl in
            scan_ends (suc (suc (weight upper))) n event upper lower h upper-IsId vl
              ((not_after_iff lower upper vl upper-IsId).0 within) (omega arith) (rw within at d)
      ]
  info_ends n event lower (raised (redis_error true) h) vl v d = cc
  info_ends n event lower (raised attribute_error h) vl v d = cc
  info_ends n event lower (raised _ h) vl v d = cc

  -- From a lower bound that is an id of Redis, the loop that looks for an unindexed copy ends: the
  -- reconciliation returns or raises, and its fuel, of one more than the ids up to the last entry,
  -- does not run out, even when a page shows what other clients did since the page before.
  pub reconcile_ends :
      (n event : String) (lower : RedisId) (h : Hub E) {h' : Hub E}
      → IsId lower
      → ¬ (reconcile_unindexed_xadd svc n event lower h ≡ done false h')
  unfolding reconcile_unindexed_xadd
  reconcile_ends n event lower h vl =
      info_ends n event lower (call (svc.xinfo_stream n) h) vl
        (λ last g d. (redis.info_reply h.env n (answer-eq-done h _ d).0).0)
