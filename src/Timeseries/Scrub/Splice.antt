-- ===== src/Timeseries/Scrub/Splice.antt =====
-- The texts that `scrub_in_python` of timeseries/pii.py writes, and the replacement of all the spans of
-- a text at once.

use aslan_core.Base.{
  ℕ, zero, suc, ◌≤◌, ◌<◌, String, Bool, true, ◌||◌, List, [], ◌∷◌, ◌≡◌, refl, sym, ap, ◌∙◌, arith,
  leb, All,
}
use aslan_core.Base.Sort.{
  sort_by, Sorted, Sorted-sort_by, All-sort_by, All_map, All_map_both, sort_by-apart,
}
use aslan_core.Timeseries.Pii.{PiiFinding}
use aslan_core.Timeseries.Scrub.{
  join, before, from, span_le, replacement, splice, splice_all, last_first, scrubbed_text,
}
use aslan_core.Timeseries.Scrub.Order.{span_le-total, span_le_trans}

-- `len`
unfoldable pub count : String → ℕ
count String.[] = 0
count (String.◌∷◌ c s) = suc (count s)

join_assoc : (s t u : String) → join (join s t) u ≡ join s (join t u)
unfolding join
join_assoc String.[] t u = refl
join_assoc (String.◌∷◌ c s) t u = ap (String.◌∷◌ c) (join_assoc s t u)

join_empty : (s : String) → join s String.[] ≡ s
unfolding join
join_empty String.[] = refl
join_empty (String.◌∷◌ c s) = ap (String.◌∷◌ c) (join_empty s)

pub before-count : (s : String) → before (count s) s ≡ s
unfolding before count
before-count String.[] = refl
before-count (String.◌∷◌ c s) = ap (String.◌∷◌ c) (before-count s)

before-join :
    (a n : ℕ) (s t : String) → a ≤ n → n ≤ count s → before a (join (before n s) t) ≡ before a s
unfolding before join count
before-join zero n s t h k = refl
before-join (suc a) zero s t h k = absurd (omega (arith, h))
before-join (suc a) (suc n) String.[] t h k = absurd (omega (arith, k))
before-join (suc a) (suc n) (String.◌∷◌ c s) t h k =
    ap (String.◌∷◌ c) (before-join a n s t (omega (arith, h)) (omega (arith, k)))

from-join :
    (b n : ℕ) (s t : String)
    → b ≤ n
    → n ≤ count s
    → from b (join (before n s) t) ≡ join (from b (before n s)) t
unfolding before from join count
from-join zero n s t h k = refl
from-join (suc b) zero s t h k = absurd (omega (arith, h))
from-join (suc b) (suc n) String.[] t h k = absurd (omega (arith, k))
from-join (suc b) (suc n) (String.◌∷◌ c s) t h k =
    from-join b n s t (omega (arith, h)) (omega (arith, k))

-- The first `n` characters with each span replaced: what is before the last span, with the others
-- replaced, then the replacement, then what is between the last span and `n` as it was.
unfoldable pub replaced : List PiiFinding → ℕ → String → String
replaced [] n s = before n s
replaced (f ∷ fs) n s =
    join (replaced fs f.span.0 s)
      (join (replacement f.matched_pattern) (from f.span.1 (before n s)))

-- Not empty, and inside the text.
abbrev pub IsSpan : String → PiiFinding → Type 0
IsSpan s f = (f.span.0 < f.span.1) × (f.span.1 ≤ count s)

-- No character is in both.
abbrev pub disjoint : PiiFinding → PiiFinding → Bool
disjoint f g = leb f.span.1 g.span.0 || leb g.span.1 f.span.0

disjoint_sym : (f g : PiiFinding) → disjoint f g ≡ true → disjoint g f ≡ true
disjoint_sym f g h = ground arith

-- Of two disjoint spans that are last first, the second ends before the first starts.
ends_before_lem :
    (x y : ℕ × ℕ)
    → x.0 < x.1
    → y.0 < y.1
    → span_le y x ≡ true
    → (leb x.1 y.0 || leb y.1 x.0) ≡ true
    → y.1 ≤ x.0
ends_before_lem (a, b) (c, d) p q later apart = ground arith

ends_before :
    (f g : PiiFinding)
    → f.span.0 < f.span.1
    → g.span.0 < g.span.1
    → last_first f g ≡ true
    → disjoint f g ≡ true
    → g.span.1 ≤ f.span.0
ends_before f g a b later apart = ends_before_lem f.span g.span a b later apart

splice_all-replaced :
    (fs : List PiiFinding) (n : ℕ) (s tail : String)
    → n ≤ count s
    → All (IsSpan s) fs
    → All (λ f. f.span.1 ≤ n) fs
    → Sorted last_first fs
    → Sorted disjoint fs
    → splice_all fs (join (before n s) tail) ≡ join (replaced fs n s) tail
unfolding splice_all splice replaced
splice_all-replaced [] n s tail k spans ends sorted apart = refl
splice_all-replaced (f ∷ fs) n s tail k spans ends sorted apart =
    let start : f.span.0 ≤ n = omega (arith, spans.0.0, ends.0) in
    let inside : f.span.0 ≤ count s = omega (arith, start, k) in
    let earlier : All (λ g. g.span.1 ≤ f.span.0) fs =
      All_map_both (λ g. IsSpan s g) (λ g. (last_first f g ≡ true) × (disjoint f g ≡ true))
        (λ g. g.span.1 ≤ f.span.0) fs (λ g h both. ends_before f g spans.0.0 h.0 both.0 both.1)
        spans.1
        (All_map_both (λ g. last_first f g ≡ true) (λ g. disjoint f g ≡ true)
          (λ g. (last_first f g ≡ true) × (disjoint f g ≡ true)) fs (λ g h k. (h, k)) sorted.0
          apart.0) in
    let marker = replacement f.matched_pattern in
    rw (before-join f.span.0 n s tail start k, from-join f.span.1 n s tail ends.0 k)
      (splice_all-replaced fs f.span.0 s (join marker (join (from f.span.1 (before n s)) tail))
          inside spans.1 earlier sorted.1 apart.1
        ∙ ap (join (replaced fs f.span.0 s))
            (sym (join_assoc marker (from f.span.1 (before n s)) tail))
        ∙ sym (join_assoc (replaced fs f.span.0 s) (join marker (from f.span.1 (before n s))) tail))

-- Where the spans of the findings in a text are inside it, not empty, and pairwise disjoint, the loop
-- over them replaces each span, and nothing else.
pub scrubbed_text-replaced :
    (f : PiiFinding) (rest : List PiiFinding)
    → All (IsSpan f.full_value) (f ∷ rest)
    → Sorted disjoint (f ∷ rest)
    → scrubbed_text f rest
      ≡ replaced (sort_by last_first (f ∷ rest)) (count f.full_value) f.full_value
unfolding scrubbed_text
scrubbed_text-replaced f rest spans apart =
    let s = f.full_value in
    let fs = sort_by last_first (f ∷ rest) in
    let inside = All-sort_by last_first (IsSpan s) (f ∷ rest) spans in
    let whole =
      splice_all-replaced fs (count s) s String.[] (omega arith) inside
        (All_map (IsSpan s) (λ g. g.span.1 ≤ count s) fs (λ g h. h.1) inside)
        (Sorted-sort_by last_first (λ a b h. span_le-total b.span a.span h)
          (λ a b c h k. span_le_trans c.span b.span a.span k h) (f ∷ rest))
        (sort_by-apart last_first disjoint disjoint_sym (f ∷ rest) apart) in
    ap (splice_all fs) (sym (join_empty (before (count s) s) ∙ before-count s))
    ∙ whole
    ∙ join_empty _
