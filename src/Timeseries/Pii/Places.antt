-- ===== src/Timeseries/Pii/Places.antt =====
-- What `_set_at_path` of timeseries/pii.py writes is there afterwards.
use aslan_core.Base.{
  true, ℕ, zero, suc, String, Option, none, some, [], ◌∷◌, ◌≡◌, refl, str_eq, str_eq_refl,
  Bool-cases, inl, inr,
}
use aslan_core.Json.{
  Json, Items, Fields, null, bool, int, float, str, arr, tup, obj, nil, cons, end, field,
}
use aslan_core.Json as J
use aslan_core.Timeseries.Metadata.{PathElem, JsonPath, key, index}
use aslan_core.Timeseries.Payload.{put_field}
use aslan_core.Timeseries.Pii.Tuples.{no_tuples, item-no_tuples}
use aslan_core.Timeseries.Pii.{rebuild, nth, item, set_nth, assign, then_at, at_path, set_at_path}

get-put_field : (k : String) (v : Json) (fs : Fields) → J.get (put_field k v fs) k ≡ some v
unfolding put_field
get-put_field k v end = rw str_eq_refl refl
get-put_field k v (field j w rest) = elim (Bool-cases (str_eq j k)) [
  | inl same ↦ rw (same, same) refl
  | inr other ↦ rw (other, other) (get-put_field k v rest)
]

nth-set_nth :
    (xs : Items) (i : ℕ) (w new : Json)
    → nth xs i ≡ some w
    → (ys : Items) × (set_nth xs i new ≡ some ys) × (nth ys i ≡ some new)
unfolding nth set_nth
nth-set_nth nil i w new h = absurd (cc)
nth-set_nth (cons v rest) zero w new h = (cons new rest, refl, refl)
nth-set_nth (cons v rest) (suc i) w new h =
    let (ys, e, there) = nth-set_nth rest i w new h in (cons v ys, rw e refl, there)

-- What is there can be overwritten.
pub item-assign :
    (v : Json) (e : PathElem) (w new : Json)
    → no_tuples v ≡ true
    → item v e ≡ some w
    → (v' : Json) × (assign v e new ≡ some v') × (item v' e ≡ some new)
item-assign (obj fs) (key k) w new n h = (obj (put_field k new fs), refl, get-put_field k new fs)
item-assign (arr xs) (index i) w new n h =
    let (ys, e, there) = nth-set_nth xs i w new h in (arr ys, rw (assign, e) refl, there)
item-assign (obj fs) (index i) w new n h = absurd (cc)
item-assign (arr xs) (key k) w new n h = absurd (cc)
item-assign (tup xs) e w new n h = absurd (unfold no_tuples in cc)
item-assign null e w new n h = absurd (cc)
item-assign (bool b) e w new n h = absurd (cc)
item-assign (int m) e w new n h = absurd (cc)
item-assign (float x) e w new n h = absurd (cc)
item-assign (str s) e w new n h = absurd (cc)

-- A container can be rebuilt with a child.
pub item-rebuild :
    (v : Json) (e : PathElem) (w new : Json)
    → item v e ≡ some w
    → (v' : Json) × (rebuild v e new ≡ some v') × (item v' e ≡ some new)
item-rebuild (obj fs) (key k) w new h = (obj (put_field k new fs), refl, get-put_field k new fs)
item-rebuild (arr xs) (index i) w new h =
    let (ys, e, there) = nth-set_nth xs i w new h in (arr ys, rw (rebuild, assign, e) refl, there)
item-rebuild (tup xs) (index i) w new h =
    let (ys, e, there) = nth-set_nth xs i w new h in (tup ys, rw (rebuild, e) refl, there)
item-rebuild (obj fs) (index i) w new h = absurd (cc)
item-rebuild (arr xs) (key k) w new h = absurd (cc)
item-rebuild (tup xs) (key k) w new h = absurd (cc)
item-rebuild null e w new h = absurd (cc)
item-rebuild (bool b) e w new h = absurd (cc)
item-rebuild (int n) e w new h = absurd (cc)
item-rebuild (float x) e w new h = absurd (cc)
item-rebuild (str s) e w new h = absurd (cc)

pub then_at-some :
    (o : Option Json) (f : Json → Option Json) (w : Json)
    → then_at o f ≡ some w
    → (v : Json) × (o ≡ some v) × (f v ≡ some w)
then_at-some none f w h = absurd (cc)
then_at-some (some v) f w h = (v, refl, h)

-- Without tuples, on a non-empty path that leads to a value, `_set_at_path` does not raise, and the path then leads to
-- the new value.
pub at_path-set_at_path :
    (e : PathElem) (path : JsonPath) (v w new : Json)
    → no_tuples v ≡ true
    → at_path (e ∷ path) v ≡ some w
    → (v' : Json) × (set_at_path (e ∷ path) new v ≡ some v') × (at_path (e ∷ path) v' ≡ some new)
unfolding at_path set_at_path
at_path-set_at_path e [] v w new n h =
    let (child, there, _) = then_at-some (item v e) (at_path []) w h in
    let (v', ran, now) = item-assign v e child new n there in (v', ran, rw now refl)
at_path-set_at_path e (d ∷ path) v w new n h =
    let (child, there, deeper) = then_at-some (item v e) (at_path (d ∷ path)) w h in
    let (child', inner, found) =
      at_path-set_at_path d path child w new (item-no_tuples v e child n there) deeper in
    let (v', ran, now) = item-rebuild v e child child' there in
    (v', rw (there, inner) ran, rw now found)
