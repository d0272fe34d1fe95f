-- ===== src/Timeseries/Pii/Elsewhere.antt =====
-- `_set_at_path` of timeseries/pii.py changes no other text.
use mathlib.Core.Path.{subst}
use aslan_core.Base.{
  ℕ, zero, suc, String, true, false, some, [], ◌∷◌, ◌≡◌, ◌≢◌, refl, sym, ap, arith, str_eq,
  str_eq_iff, ◌==◌, ==_iff, Bool-cases, Option-cases, inl, inr,
}
use aslan_core.Json.{
  Json, Items, Fields, null, bool, int, float, str, arr, tup, obj, nil, cons, end, field,
}
use aslan_core.Json as J
use aslan_core.Timeseries.Metadata.{PathElem, JsonPath, key, index}
use aslan_core.Timeseries.Payload.{put_field}
use aslan_core.Timeseries.Pii.{
  elem_eq, nth, item, set_nth, assign, rebuild, then_at, at_path, set_at_path,
}
use aslan_core.Timeseries.Pii.Places.{then_at-some, item-rebuild}

pub elem_eq→eq : (e d : PathElem) → elem_eq e d ≡ true → e ≡ d
elem_eq→eq (key a) (key b) h = ap key ((str_eq_iff a b).0 h)
elem_eq→eq (index i) (index j) h = ap index ((==_iff i j).0 h)
elem_eq→eq (key a) (index j) h = absurd (cc)
elem_eq→eq (index i) (key b) h = absurd (cc)

get-put_field_other :
    (k j : String) (v : Json) (fs : Fields)
    → str_eq k j ≡ false
    → J.get (put_field k v fs) j ≡ J.get fs j
unfolding put_field
get-put_field_other k j v end h = rw h refl
get-put_field_other k j v (field i w rest) h = elim (Bool-cases (str_eq i k)) [
  | inl hit ↦
      let other : str_eq i j ≡ false =
        subst (λ x. str_eq x j ≡ false) (sym ((str_eq_iff i k).0 hit)) h in
      rw (hit, other) refl
  | inr miss ↦ elim (Bool-cases (str_eq i j)) [
    | inl here ↦ rw (miss, here) refl
    | inr on ↦ rw (miss, on) (get-put_field_other k j v rest h)
  ]
]

set_nth-suc :
    (v : Json) (rest ys : Items) (i : ℕ) (new : Json)
    → set_nth (cons v rest) (suc i) new ≡ some ys
    → (zs : Items) × (set_nth rest i new ≡ some zs) × (ys ≡ cons v zs)
unfolding set_nth
set_nth-suc v rest ys i new e = elim (Option-cases (set_nth rest i new)) [
  | inl out ↦ absurd (cc (rw out at e))
  | inr (zs, inside) ↦ let built : some (cons v zs) ≡ some ys = rw inside at e in (zs, inside, cc)
]

nth-set_nth_other :
    (xs ys : Items) (i j : ℕ) (new : Json)
    → (i == j) ≡ false
    → set_nth xs i new ≡ some ys
    → nth ys j ≡ nth xs j
unfolding nth
nth-set_nth_other nil ys i j new h e = absurd (unfold set_nth in cc)
nth-set_nth_other (cons v rest) ys zero zero new h e = absurd (ground arith)
nth-set_nth_other (cons v rest) ys zero (suc j) new h e =
    let same : ys ≡ cons new rest = unfold set_nth in cc in rw same refl
nth-set_nth_other (cons v rest) ys (suc i) zero new h e =
    let (zs, inside, same) = set_nth-suc v rest ys i new e in rw same refl
nth-set_nth_other (cons v rest) ys (suc i) (suc j) new h e =
    let (zs, inside, same) = set_nth-suc v rest ys i new e in
    rw same (nth-set_nth_other rest zs i j new (ground arith) inside)

assign_arr :
    (xs : Items) (v' : Json) (i : ℕ) (new : Json)
    → assign (arr xs) (index i) new ≡ some v'
    → (ys : Items) × (set_nth xs i new ≡ some ys) × (v' ≡ arr ys)
assign_arr xs v' i new e = elim (Option-cases (set_nth xs i new)) [
  | inl out ↦ absurd (cc (rw (assign, out) at e))
  | inr (ys, inside) ↦
      let built : some (arr ys) ≡ some v' = rw (assign, inside) at e in (ys, inside, cc)
]

item-assign_other :
    (v v' : Json) (e d : PathElem) (new : Json)
    → elem_eq e d ≡ false
    → assign v e new ≡ some v'
    → item v' d ≡ item v d
item-assign_other (obj fs) v' (key k) (key j) new h e =
    let same : v' ≡ obj (put_field k new fs) = cc in rw same (get-put_field_other k j new fs h)
item-assign_other (obj fs) v' (key k) (index j) new h e =
    let same : v' ≡ obj (put_field k new fs) = cc in rw same refl
item-assign_other (arr xs) v' (index i) (key k) new h e =
    let (ys, inside, same) = assign_arr xs v' i new e in rw same refl
item-assign_other (arr xs) v' (index i) (index j) new h e =
    let (ys, inside, same) = assign_arr xs v' i new e in
    rw same (nth-set_nth_other xs ys i j new h inside)
item-assign_other (obj fs) v' (index i) d new h e = absurd (cc)
item-assign_other (arr xs) v' (key k) d new h e = absurd (cc)
item-assign_other (tup xs) v' d k new h e = absurd (cc)
item-assign_other null v' e d new h a = absurd (cc)
item-assign_other (bool b) v' e d new h a = absurd (cc)
item-assign_other (int n) v' e d new h a = absurd (cc)
item-assign_other (float x) v' e d new h a = absurd (cc)
item-assign_other (str s) v' e d new h a = absurd (cc)

rebuild_tup :
    (xs : Items) (v' : Json) (i : ℕ) (new : Json)
    → rebuild (tup xs) (index i) new ≡ some v'
    → (ys : Items) × (set_nth xs i new ≡ some ys) × (v' ≡ tup ys)
rebuild_tup xs v' i new e = elim (Option-cases (set_nth xs i new)) [
  | inl out ↦ absurd (cc (rw (rebuild, out) at e))
  | inr (ys, inside) ↦
      let built : some (tup ys) ≡ some v' = rw (rebuild, inside) at e in (ys, inside, cc)
]

item-rebuild_other :
    (v v' : Json) (e d : PathElem) (new : Json)
    → elem_eq e d ≡ false
    → rebuild v e new ≡ some v'
    → item v' d ≡ item v d
item-rebuild_other (tup xs) v' (index i) (key k) new h e =
    let (ys, inside, same) = rebuild_tup xs v' i new e in rw same refl
item-rebuild_other (tup xs) v' (index i) (index j) new h e =
    let (ys, inside, same) = rebuild_tup xs v' i new e in
    rw same (nth-set_nth_other xs ys i j new h inside)
item-rebuild_other (tup xs) v' (key k) d new h e = absurd (cc)
item-rebuild_other (obj fs) v' (key k) d new h e = item-assign_other (obj fs) v' (key k) d new h e
item-rebuild_other (obj fs) v' (index i) d new h e = absurd (cc)
item-rebuild_other (arr xs) v' (index i) d new h e =
    item-assign_other (arr xs) v' (index i) d new h e
item-rebuild_other (arr xs) v' (key k) d new h e = absurd (cc)
item-rebuild_other null v' e d new h a = absurd (cc)
item-rebuild_other (bool b) v' e d new h a = absurd (cc)
item-rebuild_other (int n) v' e d new h a = absurd (cc)
item-rebuild_other (float x) v' e d new h a = absurd (cc)
item-rebuild_other (str s) v' e d new h a = absurd (cc)

-- A text has nothing below it.
text_has_none : (v : Json) (s : String) (e : PathElem) (w : Json) → v ≡ str s → item v e ≢ some w
text_has_none v s e w text h = let nothing : item (str s) e ≡ some w = rw text at h in absurd (cc)

-- When two different paths lead to texts and `_set_at_path` writes at the first, the second leads to
-- the text it led to.
pub at_path-set_at_path_other :
    (p q : JsonPath) (v v' new : Json) (s t : String)
    → at_path p v ≡ some (str s)
    → at_path q v ≡ some (str t)
    → p ≢ q
    → set_at_path p new v ≡ some v'
    → at_path q v' ≡ some (str t)
unfolding at_path set_at_path
at_path-set_at_path_other [] [] v v' new s t hp hq apart e = absurd (apart refl)
at_path-set_at_path_other [] (d ∷ q) v v' new s t hp hq apart e =
    let (w, there, _) = then_at-some (item v d) (at_path q) (str t) hq in
    let text : v ≡ str s = cc in absurd (text_has_none v s d w text there)
at_path-set_at_path_other (e ∷ p) [] v v' new s t hp hq apart h =
    let (w, there, _) = then_at-some (item v e) (at_path p) (str s) hp in
    let text : v ≡ str t = cc in absurd (text_has_none v t e w text there)
at_path-set_at_path_other (e ∷ []) (d ∷ []) v v' new s t hp hq apart h =
    elim (Bool-cases (elem_eq e d)) [
      | inl same ↦ absurd (apart (ap (λ x. x ∷ []) (elem_eq→eq e d same)))
      | inr other ↦ rw (item-assign_other v v' e d new other h) hq
    ]
at_path-set_at_path_other (e ∷ []) (d ∷ y ∷ q) v v' new s t hp hq apart h =
    elim (Bool-cases (elem_eq e d)) [
      | inl same ↦
          let (child, there, leaf) = then_at-some (item v e) (at_path []) (str s) hp in
          let (w, there', deeper) = then_at-some (item v d) (at_path (y ∷ q)) (str t) hq in
          let (z, below, _) = then_at-some (item w y) (at_path q) (str t) deeper in
          let one : e ≡ d = elem_eq→eq e d same in
          let text : w ≡ str s = cc (one, there, there', leaf) in
          absurd (text_has_none w s y z text below)
      | inr other ↦ rw (item-assign_other v v' e d new other h) hq
    ]
at_path-set_at_path_other (e ∷ x ∷ p) (d ∷ q) v v' new s t hp hq apart h =
    let (child, there, deeper) = then_at-some (item v e) (at_path (x ∷ p)) (str s) hp in
    let (c, there', h1) =
      then_at-some (item v e)
        (λ child. then_at (set_at_path (x ∷ p) new child) (λ child'. rebuild v e child')) v' h in
    let (c', inner, ran) =
      then_at-some (set_at_path (x ∷ p) new c) (λ child'. rebuild v e child') v' h1 in
    elim (Bool-cases (elem_eq e d)) [
      | inr other ↦ rw (item-rebuild_other v v' e d c' other ran) hq
      | inl same ↦
          let one : e ≡ d = elem_eq→eq e d same in
          let (w, at_d, deeper_q) = then_at-some (item v d) (at_path q) (str t) hq in
          let same_w : child ≡ w = cc (one, there, at_d) in
          let same_c : c ≡ w = cc (one, there', at_d) in
          let (v2, ran', now) = item-rebuild v e c c' there' in
          let at_v' : item v' d ≡ some c' = cc (ran, ran', now, one) in
          let apart' : x ∷ p ≢ q = λ eq. apart (cc (one, eq)) in
          rw at_v' (
            at_path-set_at_path_other (x ∷ p) q w c' new s t
              (subst (λ u. at_path (x ∷ p) u ≡ some (str s)) same_w deeper) deeper_q apart'
              (subst (λ u. set_at_path (x ∷ p) new u ≡ some c') same_c inner))
    ]
