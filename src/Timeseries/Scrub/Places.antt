-- ===== src/Timeseries/Scrub/Places.antt =====
-- What `scrub_in_python` of timeseries/pii.py leaves at each place of the dict.
use mathlib.Core.Path.{subst}
use aslan_core.Base.{
  ℕ, String, Bool, true, some, List, [], ◌∷◌, ◌≡◌, ◌≢◌, refl, sym, ap, ◌∙◌, str_eq, str_eq_iff,
  ◌==◌, ==_iff, Bool-cases, inl, inr, All,
}
use aslan_core.Base.Sort.{sort_by, Sorted-sort_by, All-sort_by, All_map, All_map_both}
use aslan_core.Json.{Json, Fields, null, bool, int, float, str, arr, tup, obj}
use aslan_core.Timeseries.Metadata.{PathElem, JsonPath, key, index}
use aslan_core.Timeseries.Pii.{
  PiiFinding, Match, find_pii_in_metadata, item, then_at, at_path, set_at_path,
}
use aslan_core.Timeseries.Pii.Findings.{IsDict, IsLocated, find_pii_in_metadata_lem}
use aslan_core.Timeseries.Pii.Tuples.{no_tuples, set_at_path-no_tuples}
use aslan_core.Timeseries.Pii.Places.{then_at-some, at_path-set_at_path}
use aslan_core.Timeseries.Pii.Elsewhere.{at_path-set_at_path_other}
use aslan_core.Timeseries.Scrub.{
  path_eq, comparable, all_comparable, sortable, finding_le, groupby, scrubbed_text, scrub_groups,
  scrub_in_python,
}
use aslan_core.Timeseries.Scrub.Order.{path_eq→eq, finding_le-total, finding_le_trans}
use aslan_core.Timeseries.Scrub.Groups.{
  Group, false→apart, findings_at, group_at, Apart, group_at-none, All-groupby, group_at-groupby,
  groupby-Apart,
}

-- The finding has a path of at least one element, which leads to its text.
abbrev pub IsPlaced : Json → PiiFinding → Type 0
IsPlaced v f =
    (e : PathElem) × (p : JsonPath) × (f.path ≡ e ∷ p)
    × (at_path f.path v ≡ some (str f.full_value))

-- A text after the findings in it are replaced.
abbrev pub scrubbed : List PiiFinding → String → String
scrubbed [] t = t
scrubbed (f ∷ rest) t = scrubbed_text f rest

write_group :
    (f : PiiFinding) (v : Json) (new : String)
    → no_tuples v ≡ true
    → IsPlaced v f
    → (v' : Json) × (set_at_path f.path (str new) v ≡ some v')
      × (at_path f.path v' ≡ some (str new))
write_group f v new n (e, p, path, there) =
    rw path (at_path-set_at_path e p v (str f.full_value) (str new) n (rw path at there))

-- Another finding is still in its text.
still-IsPlaced :
    (f g : PiiFinding) (v v' : Json) (new : String)
    → g.path ≢ f.path
    → IsPlaced v f
    → set_at_path f.path (str new) v ≡ some v'
    → IsPlaced v g
    → IsPlaced v' g
still-IsPlaced f g v v' new apart (_, _, _, there) ran (e, p, path, at_g) = (
  e,
  p,
  path,
  at_path-set_at_path_other f.path g.path v v' (str new) f.full_value g.full_value there at_g
      (λ same. apart (sym same)) ran,
)

Scrubs : List Group → Json → Json → Type 0
Scrubs groups v v' =
    (q : JsonPath) (t : String)
    → at_path q v ≡ some (str t)
    → at_path q v' ≡ some (str (scrubbed (group_at q groups) t))

scrub_groups-Scrubs :
    (groups : List Group) (v : Json)
    → no_tuples v ≡ true
    → Apart groups
    → All (λ (g : Group). IsPlaced v g.0) groups
    → (v' : Json) × (scrub_groups groups v ≡ some v') × Scrubs groups v v'
unfolding scrub_groups Scrubs
scrub_groups-Scrubs [] v n apart placed = (v, refl, λ q t there. there)
scrub_groups-Scrubs ((f, rest) ∷ groups) v n apart placed =
    let (v1, ran, now) = write_group f v (scrubbed_text f rest) n placed.0 in
    let later =
      All_map_both (λ (h : Group). h.0.path ≢ f.path) (λ (h : Group). IsPlaced v h.0)
        (λ (h : Group). IsPlaced v1 h.0) groups
        (λ h differs at_h.
          still-IsPlaced f h.0 v v1 (scrubbed_text f rest) differs placed.0 ran at_h)
        apart.0 placed.1 in
    let (v', done, leaves) =
      scrub_groups-Scrubs groups v1
        (set_at_path-no_tuples f.path (str (scrubbed_text f rest)) v v1 n (unfold no_tuples in refl)
          ran)
        apart.1 later in
    (
      v',
      rw (ran, then_at) done,
      λ q t there. elim (Bool-cases (path_eq f.path q)) [
        | inl equal ↦
            let one = path_eq→eq f.path q equal in
            let no_more =
              ap (λ p. group_at p groups) (sym one) ∙ group_at-none f.path groups apart.0 in
            let text =
              leaves q (scrubbed_text f rest)
                (subst (λ p. at_path p v1 ≡ some (str (scrubbed_text f rest))) one now) in
            rw equal (rw no_more at text)
        | inr other ↦ rw other (
            leaves q t (
              at_path-set_at_path_other f.path q v v1 (str (scrubbed_text f rest)) f.full_value t
                placed.0.3 there (false→apart f q other) ran))
      ],
    )

not_both :
    (v : Json) (k : String) (i : ℕ) (x y : Json)
    → item v (key k) ≡ some x
    → item v (index i) ≢ some y
not_both (obj fs) k i x y a b = absurd (cc)
not_both (arr xs) k i x y a b = absurd (cc)
not_both (tup xs) k i x y a b = absurd (cc)
not_both null k i x y a b = absurd (cc)
not_both (bool c) k i x y a b = absurd (cc)
not_both (int n) k i x y a b = absurd (cc)
not_both (float c) k i x y a b = absurd (cc)
not_both (str s) k i x y a b = absurd (cc)

-- Paths that both lead to a text can be compared: what they share is a dict, or it is a list.
placed-comparable :
    (p q : JsonPath) (v : Json) (s t : String)
    → at_path p v ≡ some (str s)
    → at_path q v ≡ some (str t)
    → comparable p q ≡ true
unfolding comparable at_path
placed-comparable [] q v s t hp hq = refl
placed-comparable (a ∷ p) [] v s t hp hq = refl
placed-comparable (key a ∷ p) (key b ∷ q) v s t hp hq = elim (Bool-cases (str_eq a b)) [
  | inr other ↦ rw other refl
  | inl equal ↦
      let one = (str_eq_iff a b).0 equal in
      let (x, there, below) = then_at-some (item v (key a)) (at_path p) (str s) hp in
      let (y, there_q, below_q) = then_at-some (item v (key b)) (at_path q) (str t) hq in
      let same : y ≡ x = cc in rw equal (placed-comparable p q x s t below (rw same at below_q))
]
placed-comparable (index i ∷ p) (index j ∷ q) v s t hp hq = elim (Bool-cases (i == j)) [
  | inr other ↦ rw other refl
  | inl equal ↦
      let one = (==_iff i j).0 equal in
      let (x, there, below) = then_at-some (item v (index i)) (at_path p) (str s) hp in
      let (y, there_q, below_q) = then_at-some (item v (index j)) (at_path q) (str t) hq in
      let same : y ≡ x = cc in rw equal (placed-comparable p q x s t below (rw same at below_q))
]
placed-comparable (key a ∷ p) (index j ∷ q) v s t hp hq =
    let (x, there, _) = then_at-some (item v (key a)) (at_path p) (str s) hp in
    let (y, there_q, _) = then_at-some (item v (index j)) (at_path q) (str t) hq in
    absurd (not_both v a j x y there there_q)
placed-comparable (index i ∷ p) (key b ∷ q) v s t hp hq =
    let (x, there, _) = then_at-some (item v (index i)) (at_path p) (str s) hp in
    let (y, there_q, _) = then_at-some (item v (key b)) (at_path q) (str t) hq in
    absurd (not_both v b i y x there_q there)

placed-all_comparable :
    (f : PiiFinding) (fs : List PiiFinding) (v : Json)
    → IsPlaced v f
    → All (IsPlaced v) fs
    → all_comparable f.path fs ≡ true
unfolding all_comparable
placed-all_comparable f [] v h hs = refl
placed-all_comparable f (g ∷ fs) v h hs =
    rw (placed-comparable f.path g.path v f.full_value g.full_value h.3 hs.0.3)
      (placed-all_comparable f fs v h hs.1)

placed-sortable : (fs : List PiiFinding) (v : Json) → All (IsPlaced v) fs → sortable fs ≡ true
unfolding sortable
placed-sortable [] v h = refl
placed-sortable (f ∷ fs) v h = rw (placed-all_comparable f fs v h.0 h.1) (placed-sortable fs v h.1)

-- Where no tuple is in the dict and each finding has a path of at least one element that leads to its text, the scrub does not
-- raise, and each path that led to a text leads to the text with its own findings replaced, all of
-- them and in the order of the scrub: to the text as it was, where there is none.
pub scrub_in_python-scrubbed :
    (metadata : Fields) (findings : List PiiFinding)
    → no_tuples (obj metadata) ≡ true
    → All (IsPlaced (obj metadata)) findings
    → (v : Json) × (scrub_in_python metadata findings ≡ some v)
      × ((q : JsonPath) (t : String)
          → at_path q (obj metadata) ≡ some (str t)
          → at_path q v ≡ some (str (scrubbed (findings_at q (sort_by finding_le findings)) t)))
unfolding scrub_in_python Scrubs
scrub_in_python-scrubbed metadata findings n placed =
    let sorted = sort_by finding_le findings in
    let s = Sorted-sort_by finding_le finding_le-total finding_le_trans findings in
    let still = All-sort_by finding_le (IsPlaced (obj metadata)) findings placed in
    let (v, ran, leaves) =
      scrub_groups-Scrubs (groupby sorted) (obj metadata) n (groupby-Apart sorted s)
        (All-groupby (IsPlaced (obj metadata)) sorted still) in
    (
      v,
      rw (placed-sortable findings (obj metadata) placed) ran,
      λ q t there.
          leaves q t there ∙ ap (λ fs. some (str (scrubbed fs t))) (group_at-groupby q sorted s),
    )

-- The findings of a scan are so, on a dict whose keys are distinct.
pub find_pii_in_metadata-IsPlaced :
    (finditer : String → String → List Match) (skip : String → Bool) (metadata : Fields)
    → IsDict metadata
    → All (IsPlaced (obj metadata)) (find_pii_in_metadata finditer skip (some metadata))
unfolding at_path
find_pii_in_metadata-IsPlaced finditer skip metadata h =
    All_map (IsLocated finditer skip metadata) (IsPlaced (obj metadata))
      (find_pii_in_metadata finditer skip (some metadata))
      (λ f (k, p, path, _, there). (key k, p, path, rw path there))
      (find_pii_in_metadata_lem finditer skip metadata h)
