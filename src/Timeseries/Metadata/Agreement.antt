-- ===== src/Timeseries/Metadata/Agreement.antt =====
-- The two walkers over `metadata`, of the writer and of timeseries/pii.py.
use mathlib.Core.List.{append-nil}
use aslan_core.Base.{true, ℕ, ◌+◌, Bool, some, List, [], ◌∷◌, ◌++◌, ◌≡◌, refl, arith}
use aslan_core.Result.{Result, ok, err, metadata_schema_violation, ◌>>◌}
use aslan_core.Json.{
  Json, Items, Fields, null, bool, int, float, str, arr, tup, obj, nil, cons, end, field,
}
use aslan_core.Timeseries.Pii.Tuples.{no_tuples, none_in_items, none_in_fields}
use aslan_core.Timeseries.Metadata.{
  JsonPath, key, index, validate_keys, validate_items, validate_fields, walk_for_numeric_keys,
  walk_items, walk_fields, has_numeric_string_keys,
}

-- The verdict of the validator, as the list of paths tells it.
abbrev pub verdict : List JsonPath → Result (Unit {0})
verdict [] = ok tt
verdict (_ ∷ _) = err metadata_schema_violation

verdict-append : (xs ys : List JsonPath) → verdict (xs ++ ys) ≡ (verdict xs >> verdict ys)
verdict-append [] ys = refl
verdict-append (x ∷ xs) ys = refl

module _ (is_digit : ℕ → Bool) where
  mutual
    unfolding no_tuples none_in_items none_in_fields validate_keys validate_items validate_fields
        walk_for_numeric_keys walk_items walk_fields

    keys_verdict :
        (path : JsonPath) (v : Json)
        → no_tuples v ≡ true
        → validate_keys is_digit v ≡ verdict (walk_for_numeric_keys is_digit path v)
    keys_verdict path null h = refl
    keys_verdict path (bool b) h = refl
    keys_verdict path (int n) h = refl
    keys_verdict path (float x) h = refl
    keys_verdict path (str s) h = refl
    keys_verdict path (arr xs) h = items_verdict path 0 xs h
    keys_verdict path (tup xs) h = absurd (cc)
    keys_verdict path (obj fs) h = fields_verdict path fs h

    items_verdict :
        (path : JsonPath) (i : ℕ) (xs : Items)
        → none_in_items xs ≡ true
        → validate_items is_digit xs ≡ verdict (walk_items is_digit path i xs)
    items_verdict path i nil h = refl
    items_verdict path i (cons v rest) h =
        rw
          (
            verdict-append,
            ← keys_verdict (path ++ index i ∷ []) v (ground (arith, h)),
            ← items_verdict path (i + 1) rest (ground (arith, h)),
          )
          refl

    fields_verdict :
        (path : JsonPath) (fs : Fields)
        → none_in_fields fs ≡ true
        → validate_fields is_digit fs ≡ verdict (walk_fields is_digit path fs)
    fields_verdict path end h = refl
    fields_verdict path (field k v rest) h = ground (
      arith,
      verdict-append (walk_for_numeric_keys is_digit (path ++ key k ∷ []) v)
          (walk_fields is_digit path rest),
      keys_verdict (path ++ key k ∷ []) v (ground (arith, h)),
      fields_verdict path rest (ground (arith, h)),
    )

  -- Of a metadata dict with no tuple in it, as one that is read back of the table: the writer accepts it
  -- exactly if `has_numeric_string_keys` reports no path for it, and
  -- raises MetadataSchemaViolation exactly if it reports one.
  pub validate-has_numeric_string_keys :
      (fs : Fields)
      → no_tuples (obj fs) ≡ true
      → validate_fields is_digit fs ≡ verdict (has_numeric_string_keys is_digit (some fs))
  unfolding no_tuples has_numeric_string_keys validate_fields walk_for_numeric_keys walk_fields
  validate-has_numeric_string_keys end h = refl
  validate-has_numeric_string_keys (field k v rest) h = fields_verdict [] (field k v rest) h

  -- They disagree on a tuple: the validator does not look into it, the walker does.
  tuples_differ :
      (fs : Fields)
      → (validate_keys is_digit (tup (cons (obj fs) nil)) ≡ ok tt)
        × (walk_for_numeric_keys is_digit [] (tup (cons (obj fs) nil))
            ≡ walk_fields is_digit (index 0 ∷ []) fs)
  unfolding validate_keys walk_for_numeric_keys walk_items
  tuples_differ fs = (refl, append-nil (walk_fields is_digit (index 0 ∷ []) fs))
