-- ===== src/Timeseries/Metadata.antt =====
-- The shape of `metadata`: `_validate_no_numeric_string_keys` of timeseries/writer.py, and the
-- non-raising walker of timeseries/pii.py that looks for the same keys.
pub mod Agreement
use Prim.Native.Char.{code}
use Prim.Native.String
use aslan_core.Base.{
  ℕ, suc, ◌+◌, String, Bool, true, false, ◌&&◌, Option, none, some, List, [], ◌∷◌, ◌++◌,
  if◌then◌else◌, ◌==◌,
}
use aslan_core.Result.{Result, ok, err, metadata_schema_violation, ◌>>=◌, ◌>>◌}
use aslan_core.Json.{
  Json, Items, Fields, null, bool, int, float, str, arr, tup, obj, nil, cons, end, field,
}

-- `is_digit` is `\d` of the module `re`: the code points of category Nd.
module _ (is_digit : ℕ → Bool) where
  -- `\d*$` at the current position: `$` also matches before a newline at the end.
  digits_then_end : String → Bool
  digits_then_end String.[] = true
  digits_then_end (String.◌∷◌ c String.[]) = if is_digit (code c) then true else code c == 10
  digits_then_end (String.◌∷◌ c rest) = is_digit (code c) && digits_then_end rest

  -- `^\d+$`, by `re.match`
  unfoldable pub numeric_key : String → Bool
  unfolding digits_then_end
  numeric_key String.[] = false
  numeric_key (String.◌∷◌ c rest) = is_digit (code c) && digits_then_end rest

-- An element of a structured path: a dict key or a list index.
pub data PathElem : Type 0 where
  key : String → PathElem
  index : ℕ → PathElem

abbrev pub JsonPath : Type 0
JsonPath = List PathElem

module _ (is_digit : ℕ → Bool) where
  -- `_validate_no_numeric_string_keys`, which raises at the first such key that it meets. It does not
  -- look into a tuple. A key that is no string, at which it raises too, is not a value of the model.
  unfoldable mutual
    pub validate_keys : Json → Result (Unit {0})
    validate_keys null = ok tt
    validate_keys (bool b) = ok tt
    validate_keys (int n) = ok tt
    validate_keys (float x) = ok tt
    validate_keys (str s) = ok tt
    validate_keys (arr xs) = validate_items xs
    validate_keys (tup xs) = ok tt
    validate_keys (obj fs) = validate_fields fs

    pub validate_items : Items → Result (Unit {0})
    validate_items nil = ok tt
    validate_items (cons v rest) = do validate_keys v; validate_items rest

    pub validate_fields : Fields → Result (Unit {0})
    validate_fields end = ok tt
    validate_fields (field k v rest) =
        let deeper = (do validate_keys v; validate_fields rest) in
        if numeric_key is_digit k then err metadata_schema_violation else deeper

  -- `_walk_for_numeric_keys`: what it appends to `out`. It looks into lists and tuples.
  unfoldable mutual
    pub walk_for_numeric_keys : JsonPath → Json → List JsonPath
    walk_for_numeric_keys path null = []
    walk_for_numeric_keys path (bool b) = []
    walk_for_numeric_keys path (int n) = []
    walk_for_numeric_keys path (float x) = []
    walk_for_numeric_keys path (str s) = []
    walk_for_numeric_keys path (arr xs) = walk_items path 0 xs
    walk_for_numeric_keys path (tup xs) = walk_items path 0 xs
    walk_for_numeric_keys path (obj fs) = walk_fields path fs

    pub walk_items : JsonPath → ℕ → Items → List JsonPath
    walk_items path i nil = []
    walk_items path i (cons v rest) =
        walk_for_numeric_keys (path ++ index i ∷ []) v ++ walk_items path (i + 1) rest

    pub walk_fields : JsonPath → Fields → List JsonPath
    walk_fields path end = []
    walk_fields path (field k v rest) =
        (if numeric_key is_digit k then (path ++ key k ∷ []) ∷ [] else [])
        ++ (walk_for_numeric_keys (path ++ key k ∷ []) v ++ walk_fields path rest)

  unfoldable pub has_numeric_string_keys : Option Fields → List JsonPath
  has_numeric_string_keys none = []
  has_numeric_string_keys (some end) = []
  has_numeric_string_keys (some fs) = walk_for_numeric_keys [] (obj fs)
