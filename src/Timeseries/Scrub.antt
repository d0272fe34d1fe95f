-- ===== src/Timeseries/Scrub.antt =====
-- `scrub_in_python` of timeseries/pii.py: the texts of a dict with the findings in them replaced. The
-- deep copy is the value itself; none is the KeyError, IndexError or TypeError.
pub mod Lexicographic
pub mod Order
pub mod Groups
pub mod Places
pub mod Splice
pub mod Replaced
use Prim.Native.String
use aslan_core.Base.{
  ℕ, zero, suc, String, Bool, true, false, ◌&&◌, Option, none, some, List, [], ◌∷◌, if◌then◌else◌,
  str_eq, ◌==◌, leb,
}
use aslan_core.Base.Sort.{sort_by}
use aslan_core.Json.{Json, Fields, str, obj}
use aslan_core.Timeseries.Metadata.{PathElem, JsonPath, key, index}
use aslan_core.Timeseries.Payload.{str_le}
use aslan_core.Timeseries.Pii.{PiiFinding, elem_eq, then_at, set_at_path}

-- `s + t`
unfoldable pub join : String → String → String
join String.[] t = t
join (String.◌∷◌ c s) t = String.◌∷◌ c (join s t)

-- `s[:n]` and `s[n:]`
unfoldable pub before : ℕ → String → String
before zero s = String.[]
before (suc n) String.[] = String.[]
before (suc n) (String.◌∷◌ c s) = String.◌∷◌ c (before n s)

unfoldable pub from : ℕ → String → String
from zero s = s
from (suc n) String.[] = String.[]
from (suc n) (String.◌∷◌ c s) = from n s

-- `<=` of two elements of a path, of two paths, of two spans, and of the key (path, span). A key and an
-- index have no order, see `sortable`.
unfoldable pub elem_le : PathElem → PathElem → Bool
elem_le (key a) (key b) = str_le a b
elem_le (index i) (index j) = leb i j
elem_le (index i) (key b) = true
elem_le (key a) (index j) = false

unfoldable pub path_eq : JsonPath → JsonPath → Bool
path_eq [] [] = true
path_eq (a ∷ p) (b ∷ q) = elem_eq a b && path_eq p q
path_eq _ _ = false

unfoldable pub path_le : JsonPath → JsonPath → Bool
path_le [] q = true
path_le (a ∷ p) [] = false
path_le (a ∷ p) (b ∷ q) = let rest = path_le p q in if elem_eq a b then rest else elem_le a b

abbrev pub span_le : ℕ × ℕ → ℕ × ℕ → Bool
span_le (a, b) (c, d) = if a == c then leb b d else leb a c

unfoldable pub finding_le : PiiFinding → PiiFinding → Bool
finding_le f g = if path_eq f.path g.path then span_le f.span g.span else path_le f.path g.path

-- Two paths that first differ in a key and an index: `<` raises a TypeError, and `sorted` compares, of
-- paths some two of which are so, two neighbours that are so.
unfoldable pub comparable : JsonPath → JsonPath → Bool
comparable [] q = true
comparable (a ∷ p) [] = true
comparable (key a ∷ p) (key b ∷ q) = let rest = comparable p q in if str_eq a b then rest else true
comparable (index i ∷ p) (index j ∷ q) = let rest = comparable p q in if i == j then rest else true
comparable (key a ∷ p) (index j ∷ q) = false
comparable (index i ∷ p) (key b ∷ q) = false

unfoldable pub all_comparable : JsonPath → List PiiFinding → Bool
all_comparable p [] = true
all_comparable p (f ∷ fs) = comparable p f.path && all_comparable p fs

unfoldable pub sortable : List PiiFinding → Bool
sortable [] = true
sortable (f ∷ fs) = all_comparable f.path fs && sortable fs

-- `groupby`: the runs of neighbours of one path, each its first element and the others.
abbrev pub attach :
    PiiFinding → List (PiiFinding × List PiiFinding) → List (PiiFinding × List PiiFinding)
attach f [] = (f, []) ∷ []
attach f ((g, rest) ∷ groups) =
    if path_eq f.path g.path then (f, g ∷ rest) ∷ groups else (f, []) ∷ (g, rest) ∷ groups

unfoldable pub groupby : List PiiFinding → List (PiiFinding × List PiiFinding)
groupby [] = []
groupby (f ∷ fs) = attach f (groupby fs)

abbrev pub replacement : String → String
replacement pattern = join "[REDACTED:Art.17:" (join pattern "]")

-- One step of the loop over a group.
unfoldable pub splice : PiiFinding → String → String
splice f s = join (before f.span.0 s) (join (replacement f.matched_pattern) (from f.span.1 s))

unfoldable pub splice_all : List PiiFinding → String → String
splice_all [] s = s
splice_all (f ∷ fs) s = splice_all fs (splice f s)

-- `sorted(…, key=span, reverse=True)`, which keeps equal spans in their order.
abbrev pub last_first : PiiFinding → PiiFinding → Bool
last_first f g = span_le g.span f.span

unfoldable pub scrubbed_text : PiiFinding → List PiiFinding → String
scrubbed_text f rest = splice_all (sort_by last_first (f ∷ rest)) f.full_value

unfoldable pub scrub_groups : List (PiiFinding × List PiiFinding) → Json → Option Json
scrub_groups [] v = some v
scrub_groups ((f, rest) ∷ groups) v =
    then_at (set_at_path f.path (str (scrubbed_text f rest)) v) (scrub_groups groups)

unfoldable pub scrub_in_python : Fields → List PiiFinding → Option Json
scrub_in_python metadata findings =
    let changed = scrub_groups (groupby (sort_by finding_le findings)) (obj metadata) in
    if sortable findings then changed else none
