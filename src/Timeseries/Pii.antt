-- ===== src/Timeseries/Pii.antt =====
-- timeseries/pii.py: the walker that finds PII in metadata, the filter for one data subject, and
-- `_set_at_path`, by which a scrub writes. Regular expressions, NFC and casefold are parameters.
pub mod Findings
pub mod Tuples
pub mod Places
pub mod Elsewhere
pub mod Complete
use aslan_core.Base.{
  ℕ, zero, suc, ◌+◌, String, Bool, true, false, ◌||◌, not, Option, none, some, List, [], ◌∷◌, ◌++◌,
  if◌then◌else◌, str_eq, ◌==◌, map,
}
use aslan_core.Json.{
  Json, Items, Fields, null, bool, int, float, str, arr, tup, obj, nil, cons, end, field,
}
use aslan_core.Json as J
use aslan_core.Timeseries.Metadata.{PathElem, JsonPath, key, index}
use aslan_core.Timeseries.Payload.{put_field}

pub record PiiFinding : Type 0 where
  pub path : JsonPath
  pub matched_pattern : String
  pub matched_text : String
  pub span : ℕ × ℕ
  pub full_value : String

-- A match of the module `re`: its start and end, and `group(0)`.
pub record Match : Type 0 where
  pub start : ℕ
  pub stop : ℕ
  pub group : String

module _ (finditer : String → String → List Match) where
  abbrev pub finding : JsonPath → String → String → Match → PiiFinding
  finding path pattern full_value m = record {
    path = path;
    matched_pattern = pattern;
    matched_text = m.group;
    span = (m.start, m.stop);
    full_value = full_value;
  }

  -- `_scan_string`, over the two patterns of `_PATTERN_TABLE`.
  unfoldable pub scan_string : JsonPath → String → List PiiFinding
  scan_string path s =
      map (finding path "email" s) (finditer "email" s)
      ++ map (finding path "name" s) (finditer "name" s)

  -- `_walk`: what it appends to `out`.
  unfoldable mutual
    pub walk : JsonPath → Json → List PiiFinding
    walk path null = []
    walk path (bool b) = []
    walk path (int n) = []
    walk path (float x) = []
    walk path (str s) = scan_string path s
    walk path (arr xs) = walk_list path 0 xs
    walk path (tup xs) = walk_list path 0 xs
    walk path (obj fs) = walk_dict path fs

    pub walk_list : JsonPath → ℕ → Items → List PiiFinding
    walk_list path i nil = []
    walk_list path i (cons v rest) = walk (path ++ index i ∷ []) v ++ walk_list path (i + 1) rest

    pub walk_dict : JsonPath → Fields → List PiiFinding
    walk_dict path end = []
    walk_dict path (field k v rest) = walk (path ++ key k ∷ []) v ++ walk_dict path rest

  -- The loop over the top level, which passes over the keys of `skip_top_level_keys`.
  unfoldable pub walk_top : (String → Bool) → Fields → List PiiFinding
  walk_top skip end = []
  walk_top skip (field k v rest) =
      let found = walk (key k ∷ []) v ++ walk_top skip rest in
      if skip k then walk_top skip rest else found

  unfoldable pub find_pii_in_metadata : (String → Bool) → Option Fields → List PiiFinding
  find_pii_in_metadata skip none = []
  find_pii_in_metadata skip (some fs) = walk_top skip fs

-- `==` of two elements of a path.
abbrev pub elem_eq : PathElem → PathElem → Bool
elem_eq (key a) (key b) = str_eq a b
elem_eq (index i) (index j) = i == j
elem_eq _ _ = false

-- `cursor[elem]`; none is the KeyError, IndexError or TypeError.
unfoldable pub nth : Items → ℕ → Option Json
nth nil i = none
nth (cons v rest) zero = some v
nth (cons v rest) (suc i) = nth rest i

abbrev pub item : Json → PathElem → Option Json
item (obj fs) (key k) = J.get fs k
item (arr xs) (index i) = nth xs i
item (tup xs) (index i) = nth xs i
item _ _ = none

-- `cursor[elem] = value`, which adds a key that is not in the dict and is a TypeError on a tuple.
unfoldable pub set_nth : Items → ℕ → Json → Option Items
set_nth nil i new = none
set_nth (cons v rest) zero new = some (cons new rest)
set_nth (cons v rest) (suc i) new = elim (set_nth rest i new) [
  | none ↦ none
  | some xs ↦ some (cons v xs)
]

abbrev pub assign : Json → PathElem → Json → Option Json
assign (obj fs) (key k) new = some (obj (put_field k new fs))
assign (arr xs) (index i) new = elim (set_nth xs i new) [ none ↦ none | some ys ↦ some (arr ys) ]
assign _ _ new = none

-- The container with a child that was changed in place; a tuple too can hold one.
abbrev pub rebuild : Json → PathElem → Json → Option Json
rebuild (tup xs) (index i) new = elim (set_nth xs i new) [ none ↦ none | some ys ↦ some (tup ys) ]
rebuild v e new = assign v e new

-- The value that a path leads to.
abbrev pub then_at : Option Json → (Json → Option Json) → Option Json
then_at none f = none
then_at (some v) f = f v

unfoldable pub at_path : JsonPath → Json → Option Json
at_path [] v = some v
at_path (e ∷ path) v = then_at (item v e) (at_path path)

-- `_set_at_path`, on a tree that shares nothing: a container changed in place is changed in the one
-- that holds it.
unfoldable pub set_at_path : JsonPath → Json → Json → Option Json
set_at_path [] new v = some v
set_at_path (e ∷ []) new v = assign v e new
set_at_path (e ∷ d ∷ path) new v =
    then_at (item v e)
      (λ child. then_at (set_at_path (d ∷ path) new child) (λ child'. rebuild v e child'))
