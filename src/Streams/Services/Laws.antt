-- ===== src/Streams/Services/Laws.antt =====
-- What Redis documents of the commands that the drainer reads a stream with.
use mathlib.Core.Path.{subst}
use aslan_core.Base.{
  ap, ℕ, zero, suc, String, Bool, true, false, not, ◌&&◌, none, some, List, [], ◌∷◌, ◌≡◌, refl, ◌≢◌,
  ◌⊎◌, inl, inr, take, if◌then◌else◌, All, Bool-cases,
}
use aslan_core.Base.Sort.{In, Sorted, In_of_All, All_map}
use aslan_core.Result.{ok, err, redis_error, attribute_error}
use aslan_core.Streams.Ids.{RedisId, after}
use aslan_core.Streams.Ids.Order.{IsId}
use aslan_core.Streams.Services.{Entry, Services}

abbrev map_left : {A B C : Type 0} → (A → B) → A ⊎ C → B ⊎ C
map_left f (inl a) = inl (f a)
map_left f (inr c) = inr c

abbrev pub between : RedisId → RedisId → Entry → Bool
between lo hi x = not (after lo x.rid) && not (after x.rid hi)

unfoldable pub in_range : RedisId → RedisId → List Entry → List Entry
in_range lo hi [] = []
in_range lo hi (x ∷ xs) = let rest = in_range lo hi xs in if between lo hi x then x ∷ rest else rest

abbrev pub older : Entry → Entry → Bool
older x y = after y.rid x.rid

-- `stream e n` is the stream `n` in the surroundings `e`.
pub record IsRedis {E : Type 0} (svc : Services E) (stream : E → String → List Entry) : Type 0 where
  pub ids : (e : E) (n : String) → All (λ x. IsId x.rid) (stream e n)
  pub ascending : (e : E) (n : String) → Sorted older (stream e n)
  pub xrange_reply :
      (e : E) (n : String) (lo hi : RedisId) (count : ℕ) {page : List Entry}
      → (svc.xrange n lo hi count e).0 ≡ ok page
      → page ≡ take count (in_range lo hi (stream e n))
  pub info_reply :
      (e : E) (n : String) {last : RedisId}
      → (svc.xinfo_stream n e).0 ≡ ok (some last)
      → IsId last × All (λ x. after x.rid last ≡ false) (stream e n)
  pub info_empty : (e : E) (n : String) → (svc.xinfo_stream n e).0 ≡ ok none → stream e n ≡ []
  pub no_such_key :
      (e : E) (n : String) → (svc.xinfo_stream n e).0 ≡ err (redis_error true) → stream e n ≡ []
  pub has_xinfo : (e : E) (n : String) → (svc.xinfo_stream n e).0 ≢ err attribute_error

pub In-in_range :
    (lo hi : RedisId) (x : Entry) (xs : List Entry)
    → between lo hi x ≡ true
    → In x xs
    → In x (in_range lo hi xs)
unfolding in_range
In-in_range lo hi x [] b i = i
In-in_range lo hi x (y ∷ xs) b (inl e) = rw (subst (λ z. between lo hi z ≡ true) e b) (inl e)
In-in_range lo hi x (y ∷ xs) b (inr i) = elim (Bool-cases (between lo hi y)) [
  | inl inside ↦ rw inside (inr (In-in_range lo hi x xs b i))
  | inr outside ↦ rw outside (In-in_range lo hi x xs b i)
]

pub All-in_range :
    (P : Entry → Type 0) (lo hi : RedisId) (xs : List Entry)
    → All P xs
    → All (λ x. P x × (between lo hi x ≡ true)) (in_range lo hi xs)
unfolding in_range
All-in_range P lo hi [] h = tt
All-in_range P lo hi (x ∷ xs) h = elim (Bool-cases (between lo hi x)) [
  | inl inside ↦ rw inside ((h.0, inside), All-in_range P lo hi xs h.1)
  | inr outside ↦ rw outside (All-in_range P lo hi xs h.1)
]

pub Sorted-in_range :
    (lo hi : RedisId) (xs : List Entry) → Sorted older xs → Sorted older (in_range lo hi xs)
unfolding in_range
Sorted-in_range lo hi [] h = tt
Sorted-in_range lo hi (x ∷ xs) h = elim (Bool-cases (between lo hi x)) [
  | inl inside ↦ rw inside (
    All_map _ (λ y. older x y ≡ true) (in_range lo hi xs) (λ y p. p.0)
        (All-in_range (λ y. older x y ≡ true) lo hi xs h.0),
    Sorted-in_range lo hi xs h.1,
  )
  | inr outside ↦ rw outside (Sorted-in_range lo hi xs h.1)
]

-- The last entry of a page.
abbrev pub last_of : Entry → List Entry → Entry
last_of x [] = x
last_of x (y ∷ ys) = last_of y ys

pub All-last_of :
    (P : Entry → Type 0) (x : Entry) (xs : List Entry) → All P (x ∷ xs) → P (last_of x xs)
All-last_of P x [] h = h.0
All-last_of P x (y ∷ ys) h = All-last_of P y ys h.1

-- An entry of a stream is on the first page, or after all of it.
pub take_reaches :
    (x : Entry) (n : ℕ) (xs : List Entry)
    → Sorted older xs
    → In x xs
    → (y : Entry) × (rest : List Entry) × (take (suc n) xs ≡ y ∷ rest)
      × (In x (y ∷ rest) ⊎ (older (last_of y rest) x ≡ true))
take_reaches x n [] s i = elim i [ ]
take_reaches x n (y ∷ xs) s (inl e) = (y, take n xs, refl, inl (inl e))
take_reaches x zero (y ∷ xs) s (inr i) =
    (y, [], refl, inr (In_of_All (λ z. older y z ≡ true) x xs s.0 i))
take_reaches x (suc n) (y ∷ xs) s (inr i) =
    let (z, rest, e, found) = take_reaches x n xs s.1 i in
    (y, z ∷ rest, ap (λ page. y ∷ page) e, map_left inr found)
