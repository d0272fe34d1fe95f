-- ===== src/Streams/Reconcile/Complete.antt =====
-- What `_reconcile_unindexed_xadd` finds: every entry of the event that stays in the stream.
use mathlib.Core.Path.{subst}
use aslan_core.Base.{
  ℕ, zero, suc, ◌≤◌, String, Bool, true, false, Option, none, some, List, [], ◌∷◌, ◌≡◌, refl, ◌⊎◌,
  inl, inr, All, arith,
}
use aslan_core.Base.Sort.{In, In_of_All}
use aslan_core.Action.{Action, Outcome, done, raised, bind-eq-done, state, Keeps, Keeps-done}
use aslan_core.Result.{redis_error, attribute_error}
use aslan_core.Streams.Ids.{RedisId, redis_id_increment, after}
use aslan_core.Streams.Ids.Order.{IsId, weight, not_after_iff}
use aslan_core.Streams.Services.{Entry, get_field, Services}
use aslan_core.Streams.Services.Laws.{IsRedis, last_of, older}
use aslan_core.Streams.Reconcile.{
  copy_of, Hub, call, index_page, scan_page, scan, scan_info, reconcile_unindexed_xadd,
}
use aslan_core.Streams.Reconcile.Kept.{Stable, index_page-Keeps, go_on-Keeps, scan-Keeps}
use aslan_core.Streams.Services.Pages.{OnPage, next_reaches, page_reaches}
use aslan_core.Streams.Reconcile.Ends.{answer-eq-done, answer-eq-raised, reconcile_ends}
use aslan_core.Streams.Reconcile.Finds.{
  Lasts, Lasts-Stable, durable-Stable, Indexed, index_page_indexes,
}

module _ {E : Type 0} (svc : Services E) (stream : E → String → List Entry)
    (redis : IsRedis svc stream) (n event : String) (x : Entry)
    (field : get_field x.fields "event_id" ≡ some event) (x-IsId : IsId x.rid) (P : E → Type 0)
    (lasts : Lasts svc stream n x P) where
  abbrev Found : Hub E → Type 0
  Found = Indexed svc n event x field

  Found-Stable : Stable svc Found
  Found-Stable = durable-Stable svc (copy_of svc n event x.rid)

  -- A page that shows the entry, or is all before it.
  page_finds :
      (loop : RedisId → Action (Hub E) Bool) (upper cursor : RedisId) (y : Entry)
      (page : List Entry) (h : Hub E) {h' : Hub E}
      → IsId upper
      → weight x.rid ≤ weight upper
      → ((next : RedisId) → Keeps Found (loop next))
      → ((next : RedisId) (g g' : Hub E)
          → IsId next
          → P g.env
          → weight next ≤ weight x.rid
          → loop next g ≡ done true g'
          → Found g')
      → All (OnPage cursor upper) (y ∷ page)
      → In x (y ∷ page) ⊎ (older (last_of y page) x ≡ true)
      → P h.env
      → scan_page svc loop n event upper (y ∷ page) h ≡ done true h'
      → Found h'
  unfolding scan_page
  page_finds loop upper cursor y page h {h'} vu le keeps finds p (inl i) ph d =
      let (a, h1, d1, d2) = bind-eq-done (index_page svc n event (y ∷ page) h) _ d in
      Keeps-done Found _ d2 (
        go_on-Keeps svc Found Found-Stable (after _ upper) loop _ keeps h1
          (index_page_indexes svc n event x field (y ∷ page) h i d1))
  page_finds loop upper cursor y page h {h'} vu le keeps finds p (inr later) ph d =
      let (a, h1, d1, d2) = bind-eq-done (index_page svc n event (y ∷ page) h) _ d in
      let (v, reaches, within) = next_reaches cursor upper x y page vu x-IsId le p later in
      finds (redis_id_increment (last_of y page).rid) h1 h' v
        (Keeps-done (λ g. P g.env) _ d1
          (index_page-Keeps svc (λ g. P g.env) (Lasts-Stable svc stream n x P lasts) n event
            (y ∷ page) h ph))
        reaches (rw within at d2)

  scan_finds :
      (fuel : ℕ) (upper cursor : RedisId) (h : Hub E) {h' : Hub E}
      → IsId upper
      → IsId cursor
      → weight cursor ≤ weight x.rid
      → weight x.rid ≤ weight upper
      → P h.env
      → scan svc fuel n event upper cursor h ≡ done true h'
      → Found h'
  unfolding scan
  scan_finds zero upper cursor h vu vc lo hi ph d = absurd (cc)
  scan_finds (suc fuel) upper cursor h {h'} vu vc lo hi ph d =
      let (page, h1, asked, scanned) = bind-eq-done (call (svc.xrange n cursor upper 1000) h) _ d in
      let (y, rest, same, on_page, seen) =
        page_reaches svc stream redis h.env n cursor upper 999 x vc vu x-IsId lo hi
          (lasts.there h.env ph) (answer-eq-done h _ asked).0 in
      page_finds (scan svc fuel n event upper) upper cursor y rest h1 vu hi
        (λ next. scan-Keeps svc Found Found-Stable fuel n event upper next)
        (λ next g g' v pg le eq. scan_finds fuel upper next g vu v le hi pg eq) on_page seen
        (Keeps-done (λ g. P g.env) _ asked
          ((Lasts-Stable svc stream n x P lasts).xrange n cursor upper 1000 h ph))
        (rw same at scanned)

  nothing_there : (e : E) → P e → ¬ (stream e n ≡ [])
  nothing_there e p empty = elim (subst (In x) empty (lasts.there e p)) [ ]

  -- The replies of XINFO STREAM while the entry is there.
  info_finds :
      (lower : RedisId) (o : Outcome (Hub E) (Option RedisId)) {h' : Hub E}
      → IsId lower
      → weight lower ≤ weight x.rid
      → ((g : Hub E) → ¬ (o ≡ raised (redis_error true) g))
      → ((g : Hub E) → ¬ (o ≡ raised attribute_error g))
      → ((g : Hub E) → ¬ (o ≡ done none g))
      → ((last : RedisId) (g : Hub E)
          → o ≡ done (some last) g
          → IsId last × (weight x.rid ≤ weight last))
      → P (state o).env
      → scan_info svc n event lower o ≡ done true h'
      → Found h'
  unfolding scan_info
  info_finds lower (raised (redis_error true) g) vl le gone mock none_there last p d =
      absurd (gone g refl)
  info_finds lower (raised attribute_error g) vl le gone mock none_there last p d =
      absurd (mock g refl)
  info_finds lower (raised _ g) vl le gone mock none_there last p d = absurd (cc)
  info_finds lower (done none g) vl le gone mock none_there last p d = absurd (none_there g refl)
  info_finds lower (done (some upper) g) vl le gone mock none_there last p d =
      let (vu, hi) = last upper g refl in
      let within : after lower upper ≡ false = (not_after_iff lower upper vl vu).1 (omega arith) in
      scan_finds (suc (suc (weight upper))) upper lower g vu vl le hi p (rw within at d)

  scanned_finds :
      (lower : RedisId) (h : Hub E) {h' : Hub E}
      → IsId lower
      → weight lower ≤ weight x.rid
      → P h.env
      → reconcile_unindexed_xadd svc n event lower h ≡ done true h'
      → In (copy_of svc n event x.rid) h'.durable
  unfolding reconcile_unindexed_xadd
  scanned_finds lower h vl le p d =
      info_finds lower (call (svc.xinfo_stream n) h) vl le
        (λ g e. nothing_there h.env p (redis.no_such_key h.env n (answer-eq-raised h _ e)))
        (λ g e. redis.has_xinfo h.env n (answer-eq-raised h _ e))
        (λ g e. nothing_there h.env p (redis.info_empty h.env n (answer-eq-done h _ e).0))
        (λ last g e.
          let (v, all) = redis.info_reply h.env n (answer-eq-done h _ e).0 in
          (
            v,
            (not_after_iff x.rid last x-IsId v).0 (
                In_of_All (λ y. after y.rid last ≡ false) x (stream h.env n) all
                  (lasts.there h.env p)),
          ))
        ((Lasts-Stable svc stream n x P lasts).xinfo n h p) d

  -- If an entry of the event, whose id is not before the lower bound, stays in the stream while the
  -- reconciliation reads it, and the reconciliation returns, the entry is in `event_id_to_redis` then,
  -- committed: however many pages there are, and whatever other clients append or trim meanwhile.
  pub reconcile_finds :
      (lower : RedisId) (h : Hub E) (completed : Bool) {h' : Hub E}
      → IsId lower
      → weight lower ≤ weight x.rid
      → P h.env
      → reconcile_unindexed_xadd svc n event lower h ≡ done completed h'
      → In (copy_of svc n event x.rid) h'.durable
  reconcile_finds lower h true vl le p d = scanned_finds lower h vl le p d
  reconcile_finds lower h false vl le p d =
      absurd (reconcile_ends svc stream redis n event lower h vl d)
