-- ===== src/Streams/Services/Pages.antt =====
-- The pages of a stream that a loop over XRANGE asks for, each from the id after the last one of the
-- page before: what a page shows, and where the next one starts.
use mathlib.Core.Path.{subst}
use aslan_core.Base.{
  ℕ, suc, ◌≤◌, ◌<◌, true, false, not, List, ◌∷◌, ◌≡◌, refl, sym, ◌∙◌, ◌⊎◌, String, All, &&-parts,
  not-true, arith,
}
use aslan_core.Base.Sort.{In, All_of_In, In_of_All, All_map, All-take}
use aslan_core.Result.{ok}
use aslan_core.Streams.Ids.{RedisId, redis_id_increment, after}
use aslan_core.Streams.Ids.Order.{
  IsId, weight, after_iff, not_after_iff, weight-redis_id_increment, redis_id_increment-IsId,
}
use aslan_core.Streams.Services.{Entry, Services}
use aslan_core.Streams.Services.Laws.{
  IsRedis, between, older, in_range, In-in_range, All-in_range, Sorted-in_range, last_of,
  All-last_of, take_reaches,
}

-- What holds of each entry of a page that is asked for.
abbrev pub OnPage : RedisId → RedisId → Entry → Type 0
OnPage lo hi x = IsId x.rid × (between lo hi x ≡ true)

pub between_bounds :
    (lo hi : RedisId) (x : Entry)
    → IsId lo
    → IsId hi
    → OnPage lo hi x
    → (weight lo ≤ weight x.rid) × (weight x.rid ≤ weight hi)
between_bounds lo hi x vl vh p =
    let (l, r) = &&-parts (not (after lo x.rid)) (not (after x.rid hi)) p.1 in
    (
      (not_after_iff lo x.rid vl p.0).0 (not-true _ l),
      (not_after_iff x.rid hi p.0 vh).0 (not-true _ r),
    )

-- From `lo` on, and not past `hi`.
between_of_weight :
    (lo hi : RedisId) (x : Entry)
    → IsId lo
    → IsId hi
    → IsId x.rid
    → weight lo ≤ weight x.rid
    → weight x.rid ≤ weight hi
    → between lo hi x ≡ true
between_of_weight lo hi x vl vh vx le ge =
    rw ((not_after_iff lo x.rid vl vx).1 le, (not_after_iff x.rid hi vx vh).1 ge) refl

-- The cursor after a page is beyond its own, and an id.
pub next_lem :
    (cursor upper : RedisId) (x : Entry) (page : List Entry)
    → IsId cursor
    → IsId upper
    → All (OnPage cursor upper) (x ∷ page)
    → (let next = redis_id_increment (last_of x page).rid in
        IsId next × (weight cursor < weight next))
next_lem cursor upper x page vc vu p =
    let q = All-last_of (OnPage cursor upper) x page p in
    let bounds = between_bounds cursor upper (last_of x page) vc vu q in
    (
      redis_id_increment-IsId _ q.0,
      omega (arith, weight-redis_id_increment (last_of x page).rid q.0, bounds),
    )

-- It does not pass an entry that is after all of the page, and the loop goes on.
pub next_reaches :
    (cursor upper : RedisId) (x y : Entry) (page : List Entry)
    → IsId upper
    → IsId x.rid
    → weight x.rid ≤ weight upper
    → All (OnPage cursor upper) (y ∷ page)
    → older (last_of y page) x ≡ true
    → (let next = redis_id_increment (last_of y page).rid in
        IsId next × (weight next ≤ weight x.rid) × (after next upper ≡ false))
next_reaches cursor upper x y page vu vx hi p later =
    let last = last_of y page in
    let last-IsId = (All-last_of (OnPage cursor upper) y page p).0 in
    let next = redis_id_increment last.rid in
    let next-IsId = redis_id_increment-IsId last.rid last-IsId in
    let reaches : weight next ≤ weight x.rid = omega (
      arith,
      weight-redis_id_increment last.rid last-IsId,
      (after_iff x.rid last.rid vx last-IsId).0 later,
    ) in
    (next-IsId, reaches, (not_after_iff next upper next-IsId vu).1 (omega (arith, reaches, hi)))

module _ {E : Type 0} (svc : Services E) (stream : E → String → List Entry)
    (redis : IsRedis svc stream) where
  pub page_shows :
      (e : E) (n : String) (lo hi : RedisId) (size : ℕ) {page : List Entry}
      → (svc.xrange n lo hi size e).0 ≡ ok page
      → All (λ x. In x (stream e n) × OnPage lo hi x) page
  page_shows e n lo hi size {page} reply =
      subst (All Seen) (sym (redis.xrange_reply e n lo hi size reply)) (
        All-take Seen size (in_range lo hi xs) (
          All_map _ Seen (in_range lo hi xs) (λ x p. (p.0.0, (p.0.1, p.1)))
            (All-in_range (λ x. In x xs × IsId x.rid) lo hi xs
              (All_of_In (λ x. In x xs × IsId x.rid) xs
                (λ x i. (i, In_of_All (λ y. IsId y.rid) x xs (redis.ids e n) i))))))
    where
      xs : List Entry
      xs = stream e n

      Seen : Entry → Type 0
      Seen x = In x xs × OnPage lo hi x

  -- A page that is asked for while an entry is there shows it, or is all before it.
  pub page_reaches :
      (e : E) (n : String) (lo hi : RedisId) (size : ℕ) (x : Entry) {page : List Entry}
      → IsId lo
      → IsId hi
      → IsId x.rid
      → weight lo ≤ weight x.rid
      → weight x.rid ≤ weight hi
      → In x (stream e n)
      → (svc.xrange n lo hi (suc size) e).0 ≡ ok page
      → (y : Entry) × (rest : List Entry) × (page ≡ y ∷ rest)
        × All (OnPage lo hi) (y ∷ rest)
        × (In x (y ∷ rest) ⊎ (older (last_of y rest) x ≡ true))
  page_reaches e n lo hi size x {page} vl vh vx le ge there reply =
      let (y, rest, shown, seen) =
        take_reaches x size (in_range lo hi (stream e n))
          (Sorted-in_range lo hi (stream e n) (redis.ascending e n))
          (In-in_range lo hi x (stream e n) (between_of_weight lo hi x vl vh vx le ge) there) in
      let same : page ≡ y ∷ rest = redis.xrange_reply e n lo hi (suc size) reply ∙ shown in
      (
        y,
        rest,
        same,
        subst (All (OnPage lo hi)) same
            (All_map _ (OnPage lo hi) page (λ z q. q.1) (page_shows e n lo hi (suc size) reply)),
        seen,
      )
