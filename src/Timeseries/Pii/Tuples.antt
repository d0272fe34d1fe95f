-- ===== src/Timeseries/Pii/Tuples.antt =====
-- Dicts without a tuple in them, as they are read back of a JSONB column, under `_set_at_path` of
-- timeseries/pii.py.
use aslan_core.Base.{
  ℕ, zero, suc, String, Bool, true, false, ◌&&◌, some, [], ◌∷◌, ◌≡◌, refl, arith, str_eq,
  Bool-cases, Option-cases, inl, inr,
}
use aslan_core.Json.{
  Json, Items, Fields, null, bool, int, float, str, arr, tup, obj, nil, cons, end, field,
}
use aslan_core.Json as J
use aslan_core.Timeseries.Metadata.{PathElem, JsonPath, key, index}
use aslan_core.Timeseries.Payload.{put_field}
use aslan_core.Timeseries.Pii.{nth, item, set_nth, assign, rebuild, then_at, set_at_path}

unfoldable mutual
  pub no_tuples : Json → Bool
  no_tuples null = true
  no_tuples (bool b) = true
  no_tuples (int n) = true
  no_tuples (float x) = true
  no_tuples (str s) = true
  no_tuples (arr xs) = none_in_items xs
  no_tuples (tup xs) = false
  no_tuples (obj fs) = none_in_fields fs

  pub none_in_items : Items → Bool
  none_in_items nil = true
  none_in_items (cons v rest) = no_tuples v && none_in_items rest

  pub none_in_fields : Fields → Bool
  none_in_fields end = true
  none_in_fields (field k v rest) = no_tuples v && none_in_fields rest

nth-no_tuples :
    (xs : Items) (i : ℕ) (w : Json)
    → none_in_items xs ≡ true
    → nth xs i ≡ some w
    → no_tuples w ≡ true
unfolding nth none_in_items
nth-no_tuples nil i w h e = absurd (cc)
nth-no_tuples (cons v rest) zero w h e =
    let here : no_tuples v ≡ true = ground (arith, h) in let same : v ≡ w = cc in cc
nth-no_tuples (cons v rest) (suc i) w h e = nth-no_tuples rest i w (ground (arith, h)) e

get-no_tuples :
    (fs : Fields) (k : String) (w : Json)
    → none_in_fields fs ≡ true
    → J.get fs k ≡ some w
    → no_tuples w ≡ true
unfolding none_in_fields
get-no_tuples end k w h e = absurd (cc)
get-no_tuples (field j v rest) k w h e = elim (Bool-cases (str_eq j k)) [
  | inl hit ↦
      let found : some v ≡ some w = rw hit at e in
      let here : no_tuples v ≡ true = ground (arith, h) in let same : v ≡ w = cc in cc
  | inr miss ↦ get-no_tuples rest k w (ground (arith, h)) (rw miss at e)
]

pub item-no_tuples :
    (v : Json) (e : PathElem) (w : Json)
    → no_tuples v ≡ true
    → item v e ≡ some w
    → no_tuples w ≡ true
unfolding no_tuples
item-no_tuples (obj fs) (key k) w h e = get-no_tuples fs k w h e
item-no_tuples (arr xs) (index i) w h e = nth-no_tuples xs i w h e
item-no_tuples (obj fs) (index i) w h e = absurd (cc)
item-no_tuples (arr xs) (key k) w h e = absurd (cc)
item-no_tuples (tup xs) d w h e = absurd (cc)
item-no_tuples null d w h e = absurd (cc)
item-no_tuples (bool b) d w h e = absurd (cc)
item-no_tuples (int n) d w h e = absurd (cc)
item-no_tuples (float x) d w h e = absurd (cc)
item-no_tuples (str s) d w h e = absurd (cc)

set_nth-no_tuples :
    (xs ys : Items) (i : ℕ) (new : Json)
    → none_in_items xs ≡ true
    → no_tuples new ≡ true
    → set_nth xs i new ≡ some ys
    → none_in_items ys ≡ true
unfolding set_nth none_in_items
set_nth-no_tuples nil ys i new h k e = absurd (cc)
set_nth-no_tuples (cons v rest) ys zero new h k e =
    let same : cons new rest ≡ ys = cc in
    let built : (no_tuples new && none_in_items rest) ≡ true = ground (arith, h, k) in
    rw (← same) built
set_nth-no_tuples (cons v rest) ys (suc i) new h k e = elim (Option-cases (set_nth rest i new)) [
  | inl out ↦ absurd (cc (rw out at e))
  | inr (zs, inside) ↦
      let whole : some (cons v zs) ≡ some ys = rw inside at e in
      let same : cons v zs ≡ ys = cc in
      let deeper = set_nth-no_tuples rest zs i new (ground (arith, h)) k inside in
      let built : (no_tuples v && none_in_items zs) ≡ true = ground (arith, h, deeper) in
      rw (← same) built
]

put_field-no_tuples :
    (k : String) (v : Json) (fs : Fields)
    → none_in_fields fs ≡ true
    → no_tuples v ≡ true
    → none_in_fields (put_field k v fs) ≡ true
unfolding put_field none_in_fields
put_field-no_tuples k v end h n = rw n refl
put_field-no_tuples k v (field j w rest) h n = elim (Bool-cases (str_eq j k)) [
  | inl hit ↦ rw hit (ground (arith, h, n))
  | inr miss ↦
      let deeper = put_field-no_tuples k v rest (ground (arith, h)) n in
      rw miss (ground (arith, h, deeper))
]

assign-no_tuples :
    (v : Json) (e : PathElem) (new v' : Json)
    → no_tuples v ≡ true
    → no_tuples new ≡ true
    → assign v e new ≡ some v'
    → no_tuples v' ≡ true
unfolding no_tuples
assign-no_tuples (obj fs) (key k) new v' h n e =
    let same : obj (put_field k new fs) ≡ v' = cc in rw (← same) (put_field-no_tuples k new fs h n)
assign-no_tuples (arr xs) (index i) new v' h n e = elim (Option-cases (set_nth xs i new)) [
  | inl out ↦ absurd (cc (rw (assign, out) at e))
  | inr (ys, inside) ↦
      let whole : some (arr ys) ≡ some v' = rw (assign, inside) at e in
      let same : arr ys ≡ v' = cc in rw (← same) (set_nth-no_tuples xs ys i new h n inside)
]
assign-no_tuples (obj fs) (index i) new v' h n e = absurd (cc)
assign-no_tuples (arr xs) (key k) new v' h n e = absurd (cc)
assign-no_tuples (tup xs) d new v' h n e = absurd (cc)
assign-no_tuples null d new v' h n e = absurd (cc)
assign-no_tuples (bool b) d new v' h n e = absurd (cc)
assign-no_tuples (int m) d new v' h n e = absurd (cc)
assign-no_tuples (float x) d new v' h n e = absurd (cc)
assign-no_tuples (str s) d new v' h n e = absurd (cc)

pub rebuild-assign :
    (v : Json) (e : PathElem) (new : Json) → no_tuples v ≡ true → rebuild v e new ≡ assign v e new
unfolding no_tuples
rebuild-assign (tup xs) e new h = absurd (cc)
rebuild-assign (obj fs) (key k) new h = refl
rebuild-assign (obj fs) (index i) new h = refl
rebuild-assign (arr xs) (key k) new h = refl
rebuild-assign (arr xs) (index i) new h = refl
rebuild-assign null e new h = refl
rebuild-assign (bool b) e new h = refl
rebuild-assign (int n) e new h = refl
rebuild-assign (float x) e new h = refl
rebuild-assign (str s) e new h = refl

-- Writing a text leaves no tuple.
pub set_at_path-no_tuples :
    (p : JsonPath) (new v v' : Json)
    → no_tuples v ≡ true
    → no_tuples new ≡ true
    → set_at_path p new v ≡ some v'
    → no_tuples v' ≡ true
unfolding set_at_path
set_at_path-no_tuples [] new v v' h n e = let same : v ≡ v' = cc in rw (← same) h
set_at_path-no_tuples (a ∷ []) new v v' h n e = assign-no_tuples v a new v' h n e
set_at_path-no_tuples (a ∷ d ∷ p) new v v' h n e = elim (Option-cases (item v a)) [
  | inl out ↦ absurd (cc (rw (out, then_at) at e))
  | inr (c, there) ↦ elim (Option-cases (set_at_path (d ∷ p) new c)) [
    | inl stuck ↦ absurd (cc (rw (there, stuck, then_at) at e))
    | inr (c', inner) ↦
        let deeper =
          set_at_path-no_tuples (d ∷ p) new c c' (item-no_tuples v a c h there) n inner in
        let built : rebuild v a c' ≡ some v' = rw (there, inner, then_at) at e in
        assign-no_tuples v a c' v' h deeper (rw (rebuild-assign v a c' h) at built)
  ]
]
