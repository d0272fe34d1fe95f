-- ===== src/Timeseries/Scrub/Order.antt =====
-- The order in which `scrub_in_python` of timeseries/pii.py sorts the findings.
use Prim.Native.Char.{code}
use mathlib.Core.Path.{subst}
use text.Mathlib.TextEquality.{Char-path}
use aslan_core.Base.{
  ℕ, String, true, false, [], ◌∷◌, ◌≡◌, refl, sym, ap, arith, str_eq_refl, ◌==◌, ==_iff, leb,
  &&-parts,
}
use aslan_core.Timeseries.Metadata.{PathElem, JsonPath, key, index}
use aslan_core.Timeseries.Payload.{str_le}
use aslan_core.Timeseries.Pii.{PiiFinding, elem_eq}
use aslan_core.Timeseries.Pii.Elsewhere.{elem_eq→eq}
use aslan_core.Timeseries.Scrub.{elem_le, path_eq, path_le, span_le, finding_le}
use aslan_core.Timeseries.Scrub.Lexicographic.{
  IsOrder, then_by-total, then_by_trans, then_by-antisym,
}

numbers-IsOrder : IsOrder ◌==◌ leb
numbers-IsOrder = record {
  same = λ a b. (==_iff a b).0;
  own = λ a. (==_iff a a).1 refl;
  total = λ a b h. ground arith;
  trans = λ a b c h k. ground arith;
  antisym = λ a b h k. ground arith;
}

str_le-total : (s t : String) → str_le s t ≡ false → str_le t s ≡ true
unfolding str_le
str_le-total String.[] t h = absurd (cc)
str_le-total (String.◌∷◌ c s) String.[] h = refl
str_le-total (String.◌∷◌ c s) (String.◌∷◌ d t) h = let rest = str_le-total s t in ground arith

str_le_trans : (s t u : String) → str_le s t ≡ true → str_le t u ≡ true → str_le s u ≡ true
unfolding str_le
str_le_trans String.[] t u h k = refl
str_le_trans (String.◌∷◌ c s) String.[] u h k = absurd (cc)
str_le_trans (String.◌∷◌ c s) (String.◌∷◌ d t) String.[] h k = absurd (cc)
str_le_trans (String.◌∷◌ c s) (String.◌∷◌ d t) (String.◌∷◌ e u) h k =
    let rest = str_le_trans s t u in ground arith

str_le-antisym : (s t : String) → str_le s t ≡ true → str_le t s ≡ true → s ≡ t
unfolding str_le
str_le-antisym String.[] String.[] h k = refl
str_le-antisym String.[] (String.◌∷◌ d t) h k = absurd (cc)
str_le-antisym (String.◌∷◌ c s) String.[] h k = absurd (cc)
str_le-antisym (String.◌∷◌ c s) (String.◌∷◌ d t) h k =
    let one : code c ≡ code d = ground arith in
    let there : str_le s t ≡ true = ground arith in
    let back : str_le t s ≡ true = ground arith in
    let first = Char-path c d one in let rest = str_le-antisym s t there back in cc

elem_eq_refl : (e : PathElem) → elem_eq e e ≡ true
elem_eq_refl (key a) = str_eq_refl a
elem_eq_refl (index i) = (==_iff i i).1 refl

elem_le-total : (a b : PathElem) → elem_le a b ≡ false → elem_le b a ≡ true
unfolding elem_le
elem_le-total (key a) (key b) h = str_le-total a b h
elem_le-total (key a) (index j) h = refl
elem_le-total (index i) (key b) h = absurd (cc)
elem_le-total (index i) (index j) h = numbers-IsOrder.total i j h

elem_le_trans : (a b c : PathElem) → elem_le a b ≡ true → elem_le b c ≡ true → elem_le a c ≡ true
unfolding elem_le
elem_le_trans (key a) (key b) (key c) h k = str_le_trans a b c h k
elem_le_trans (key a) (key b) (index j) h k = absurd (cc)
elem_le_trans (key a) (index j) c h k = absurd (cc)
elem_le_trans (index i) b (key c) h k = refl
elem_le_trans (index i) (key b) (index l) h k = absurd (cc)
elem_le_trans (index i) (index j) (index l) h k = numbers-IsOrder.trans i j l h k

elem_le-antisym : (a b : PathElem) → elem_le a b ≡ true → elem_le b a ≡ true → a ≡ b
unfolding elem_le
elem_le-antisym (key a) (key b) h k = ap key (str_le-antisym a b h k)
elem_le-antisym (key a) (index j) h k = absurd (cc)
elem_le-antisym (index i) (key b) h k = absurd (cc)
elem_le-antisym (index i) (index j) h k = ap index (numbers-IsOrder.antisym i j h k)

elements-IsOrder : IsOrder elem_eq elem_le
elements-IsOrder = record {
  same = elem_eq→eq;
  own = elem_eq_refl;
  total = elem_le-total;
  trans = elem_le_trans;
  antisym = elem_le-antisym;
}

pub path_eq→eq : (p q : JsonPath) → path_eq p q ≡ true → p ≡ q
unfolding path_eq
path_eq→eq [] [] h = refl
path_eq→eq [] (b ∷ q) h = absurd (cc)
path_eq→eq (a ∷ p) [] h = absurd (cc)
path_eq→eq (a ∷ p) (b ∷ q) h =
    let (first, rest) = &&-parts (elem_eq a b) (path_eq p q) h in
    let e1 = elem_eq→eq a b first in let e2 = path_eq→eq p q rest in cc

pub path_eq_refl : (p : JsonPath) → path_eq p p ≡ true
unfolding path_eq
path_eq_refl [] = refl
path_eq_refl (a ∷ p) = rw (elem_eq_refl a) (path_eq_refl p)

path_le-total : (p q : JsonPath) → path_le p q ≡ false → path_le q p ≡ true
unfolding path_le
path_le-total [] q h = absurd (cc)
path_le-total (a ∷ p) [] h = refl
path_le-total (a ∷ p) (b ∷ q) h =
    then_by-total elem_eq elem_le elements-IsOrder a b (path_le p q) (path_le q p)
      (path_le-total p q) h

path_le_trans : (p q r : JsonPath) → path_le p q ≡ true → path_le q r ≡ true → path_le p r ≡ true
unfolding path_le
path_le_trans [] q r h k = refl
path_le_trans (a ∷ p) [] r h k = absurd (cc)
path_le_trans (a ∷ p) (b ∷ q) [] h k = absurd (cc)
path_le_trans (a ∷ p) (b ∷ q) (c ∷ r) h k =
    then_by_trans elem_eq elem_le elements-IsOrder a b c (path_le p q) (path_le q r) (path_le p r)
      (path_le_trans p q r) h k

path_le-antisym : (p q : JsonPath) → path_le p q ≡ true → path_le q p ≡ true → p ≡ q
unfolding path_le
path_le-antisym [] [] h k = refl
path_le-antisym [] (b ∷ q) h k = absurd (cc)
path_le-antisym (a ∷ p) [] h k = absurd (cc)
path_le-antisym (a ∷ p) (b ∷ q) h k =
    let (first, there, back) =
      then_by-antisym elem_eq elem_le elements-IsOrder a b (path_le p q) (path_le q p) h k in
    let rest = path_le-antisym p q there back in cc

paths-IsOrder : IsOrder path_eq path_le
paths-IsOrder = record {
  same = path_eq→eq;
  own = path_eq_refl;
  total = path_le-total;
  trans = path_le_trans;
  antisym = path_le-antisym;
}

pub span_le-total : (x y : ℕ × ℕ) → span_le x y ≡ false → span_le y x ≡ true
span_le-total (a, b) (c, d) h = ground arith

pub span_le_trans : (x y z : ℕ × ℕ) → span_le x y ≡ true → span_le y z ≡ true → span_le x z ≡ true
span_le_trans (a, b) (c, d) (e, f) h k = ground arith

pub finding_le-total : (f g : PiiFinding) → finding_le f g ≡ false → finding_le g f ≡ true
unfolding finding_le
finding_le-total f g =
    then_by-total path_eq path_le paths-IsOrder f.path g.path (span_le f.span g.span)
      (span_le g.span f.span) (span_le-total f.span g.span)

pub finding_le_trans :
    (f g h : PiiFinding) → finding_le f g ≡ true → finding_le g h ≡ true → finding_le f h ≡ true
unfolding finding_le
finding_le_trans f g h =
    then_by_trans path_eq path_le paths-IsOrder f.path g.path h.path (span_le f.span g.span)
      (span_le g.span h.span) (span_le f.span h.span) (span_le_trans f.span g.span h.span)

-- A finding between two of one path has that path.
pub between :
    (f g h : PiiFinding)
    → finding_le f g ≡ true
    → finding_le g h ≡ true
    → f.path ≡ h.path
    → f.path ≡ g.path
unfolding finding_le
between f g h before after same =
    let back : finding_le g (record h { path = f.path }) ≡ true =
      subst (λ p. finding_le g (record h { path = p }) ≡ true) (sym same) after in
    (then_by-antisym path_eq path_le paths-IsOrder f.path g.path (span_le f.span g.span)
      (span_le g.span h.span) before back).0
