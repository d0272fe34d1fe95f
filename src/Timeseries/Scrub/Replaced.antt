-- ===== src/Timeseries/Scrub/Replaced.antt =====
-- The texts of a dict after `scrub_in_python` of timeseries/pii.py, by the replacement of all the spans
-- of a text at once.
use aslan_core.Base.{
  String, Bool, true, not, ◌||◌, some, List, [], ◌∷◌, ◌≡◌, refl, sym, ap, ◌∙◌, arith, Bool-cases,
  inl, inr, All,
}
use aslan_core.Base.Sort.{Sorted, sort_by, All-sort_by, All_map_both, sort_by-apart}
use aslan_core.Json.{Json, Fields, str, obj}
use aslan_core.Timeseries.Metadata.{JsonPath}
use aslan_core.Timeseries.Pii.Tuples.{no_tuples}
use aslan_core.Timeseries.Pii.{PiiFinding, at_path}
use aslan_core.Timeseries.Scrub.{path_eq, finding_le, last_first, scrub_in_python}
use aslan_core.Timeseries.Scrub.Order.{path_eq→eq, path_eq_refl}
use aslan_core.Timeseries.Scrub.Groups.{findings_at}
use aslan_core.Timeseries.Scrub.Places.{IsPlaced, scrubbed, scrub_in_python-scrubbed}
use aslan_core.Timeseries.Scrub.Splice.{
  IsSpan, disjoint, replaced, count, before-count, scrubbed_text-replaced,
}

-- The findings are in two texts, or no character is in both.
abbrev pub apart : PiiFinding → PiiFinding → Bool
apart f g = not (path_eq f.path g.path) || disjoint f g

apart_sym : (f g : PiiFinding) → apart f g ≡ true → apart g f ≡ true
apart_sym f g h = elim (Bool-cases (path_eq g.path f.path)) [
  | inr other ↦ rw other refl
  | inl equal ↦
      let same = path_eq→eq g.path f.path equal in
      let back : path_eq f.path g.path ≡ true =
        ap (λ p. path_eq f.path p) same ∙ path_eq_refl f.path in
      ground (arith, h, back)
]

-- Of the findings of a path, what holds of all findings.
All-findings_at :
    (P : PiiFinding → Type 0) (q : JsonPath) (fs : List PiiFinding)
    → All P fs
    → All P (findings_at q fs)
All-findings_at P q [] h = tt
All-findings_at P q (f ∷ fs) h = elim (Bool-cases (path_eq f.path q)) [
  | inl here ↦ rw here (h.0, All-findings_at P q fs h.1)
  | inr on ↦ rw on (All-findings_at P q fs h.1)
]

findings_at-path :
    (q : JsonPath) (fs : List PiiFinding)
    → All (λ (f : PiiFinding). path_eq f.path q ≡ true) (findings_at q fs)
findings_at-path q [] = tt
findings_at-path q (f ∷ fs) = elim (Bool-cases (path_eq f.path q)) [
  | inl here ↦ rw here (here, findings_at-path q fs)
  | inr on ↦ rw on (findings_at-path q fs)
]

same_text :
    (f g : PiiFinding) (q : JsonPath)
    → path_eq f.path q ≡ true
    → path_eq g.path q ≡ true
    → apart f g ≡ true
    → disjoint f g ≡ true
same_text f g q at_f at_g h =
    let one = path_eq→eq f.path q at_f in
    let other = path_eq→eq g.path q at_g in
    let both : path_eq f.path g.path ≡ true =
      ap (path_eq f.path) (other ∙ sym one) ∙ path_eq_refl f.path in
    ground (arith, h, both)

findings_at-disjoint :
    (q : JsonPath) (fs : List PiiFinding) → Sorted apart fs → Sorted disjoint (findings_at q fs)
findings_at-disjoint q [] h = tt
findings_at-disjoint q (f ∷ fs) h = elim (Bool-cases (path_eq f.path q)) [
  | inr on ↦ rw on (findings_at-disjoint q fs h.1)
  | inl here ↦ rw here (
    All_map_both (λ g. apart f g ≡ true) (λ g. path_eq g.path q ≡ true) (λ g. disjoint f g ≡ true)
        (findings_at q fs) (λ g far there. same_text f g q here there far)
        (All-findings_at (λ g. apart f g ≡ true) q fs h.0) (findings_at-path q fs),
    findings_at-disjoint q fs h.1,
  )
]

-- A finding at a path that leads to a text is in that text.
own_text :
    (v : Json) (q : JsonPath) (t : String) (f : PiiFinding)
    → at_path q v ≡ some (str t)
    → path_eq f.path q ≡ true
    → IsPlaced v f
    → f.full_value ≡ t
own_text v q t f there at_f (_, _, _, placed) =
    let one = path_eq→eq f.path q at_f in
    let both : some (str t) ≡ some (str f.full_value) =
      sym there ∙ ap (λ p. at_path p v) (sym one) ∙ placed in
    cc

scrubbed-replaced :
    (fs : List PiiFinding) (t : String)
    → All (λ f. f.full_value ≡ t) fs
    → All (λ f. IsSpan f.full_value f) fs
    → Sorted disjoint fs
    → scrubbed fs t ≡ replaced (sort_by last_first fs) (count t) t
unfolding replaced sort_by
scrubbed-replaced [] t same spans far = sym (before-count t)
scrubbed-replaced (f ∷ rest) t same spans far =
    let all_in : All (IsSpan f.full_value) (f ∷ rest) =
      All_map_both (λ g. g.full_value ≡ t) (λ g. IsSpan g.full_value g) (IsSpan f.full_value)
        (f ∷ rest) (λ g e span. rw (same.0, sym e) span) same spans in
    scrubbed_text-replaced f rest all_in far
    ∙ ap (λ s. replaced (sort_by last_first (f ∷ rest)) (count s) s) same.0

-- Where no tuple is in the dict, each finding has a path of at least one element that leads to its text, its span is in that
-- text and not empty, and no two findings of one path share a character, the scrub does not raise;
-- and a path that led to a text leads to that text with each span found at the path replaced by its
-- redaction, and everything else in it as it was.
pub scrub_in_python_lem :
    (metadata : Fields) (findings : List PiiFinding)
    → no_tuples (obj metadata) ≡ true
    → All (IsPlaced (obj metadata)) findings
    → All (λ (f : PiiFinding). IsSpan f.full_value f) findings
    → Sorted apart findings
    → (v : Json) × (scrub_in_python metadata findings ≡ some v)
      × ((q : JsonPath) (t : String)
          → at_path q (obj metadata) ≡ some (str t)
          → at_path q v
            ≡ some (
                str (
                  replaced
                    (sort_by last_first (findings_at q (sort_by finding_le findings)))
                    (count t)
                    t)))
scrub_in_python_lem metadata findings n placed spans far =
    let sorted = sort_by finding_le findings in
    let (v, ran, leaves) = scrub_in_python-scrubbed metadata findings n placed in
    (
      v,
      ran,
      λ q t there.
          leaves q t there
          ∙ ap (λ s. some (str s))
              (scrubbed-replaced (findings_at q sorted) t
                (All_map_both (λ f. path_eq f.path q ≡ true) (IsPlaced (obj metadata))
                  (λ f. f.full_value ≡ t) (findings_at q sorted)
                  (λ f at_f. own_text (obj metadata) q t f there at_f) (findings_at-path q sorted)
                  (All-findings_at (IsPlaced (obj metadata)) q sorted
                    (All-sort_by finding_le (IsPlaced (obj metadata)) findings placed)))
                (All-findings_at (λ f. IsSpan f.full_value f) q sorted
                  (All-sort_by finding_le (λ f. IsSpan f.full_value f) findings spans))
                (findings_at-disjoint q sorted
                  (sort_by-apart finding_le apart apart_sym findings far))),
    )
