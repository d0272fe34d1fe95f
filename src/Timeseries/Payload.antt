-- ===== src/Timeseries/Payload.antt =====
-- `ObservationIn.payload_hash` of schemas/timeseries.py, with the functions it calls.
pub mod Injective
use Prim.Native.Char.{code}
use Prim.Native.String
use aslan_core.Base.{
  ℕ, zero, suc, ◌+◌, ◌/◌, ◌%◌, String, Bool, true, false, not, ◌&&◌, ◌||◌, Option, none, some, List,
  [], ◌∷◌, ◌++◌, ◌==◌, ltb, length, str_eq, if◌then◌else◌,
}
use aslan_core.Base.Sort.{sort_by}
use aslan_core.Result.{Result, ok, err, metadata_not_finite, ◌>>=◌, ◌>>◌}
use aslan_core.Json.{
  ℤ, Json, Items, Fields, null, bool, int, float, str, arr, tup, obj, nil, cons, end, field,
}
use aslan_core.Timeseries.Types.{ObservationIn, Env}
use aslan_core.Timeseries.Bytes.{big_endian, unsigned_bytes, signed_bytes, encode}

-- `math.isfinite` of the float with these bits.
unfoldable pub isfinite : ℕ → Bool
isfinite x = not (x / 4503599627370496 % 2048 == 2047)

-- `_validate_metadata_finite`
unfoldable mutual
  pub validate_finite : Json → Result (Unit {0})
  validate_finite null = ok tt
  validate_finite (bool b) = ok tt
  validate_finite (int n) = ok tt
  validate_finite (float x) = if isfinite x then ok tt else err metadata_not_finite
  validate_finite (str s) = ok tt
  validate_finite (arr xs) = finite_items xs
  validate_finite (tup xs) = finite_items xs
  validate_finite (obj fs) = finite_fields fs

  pub finite_items : Items → Result (Unit {0})
  finite_items nil = ok tt
  finite_items (cons v rest) = do validate_finite v; finite_items rest

  pub finite_fields : Fields → Result (Unit {0})
  finite_fields end = ok tt
  finite_fields (field k v rest) = do validate_finite v; finite_fields rest

-- Python's order of texts, by code points.
unfoldable pub str_le : String → String → Bool
str_le String.[] t = true
str_le (String.◌∷◌ c s) String.[] = false
str_le (String.◌∷◌ c s) (String.◌∷◌ d t) = ltb (code c) (code d) || code c == code d && str_le s t

abbrev pub item_key_le : String × Json → String × Json → Bool
item_key_le a b = str_le a.0 b.0

-- `d[k] = v`
unfoldable pub put_field : String → Json → Fields → Fields
put_field k v end = field k v end
put_field k v (field j w rest) =
    if str_eq j k then field j v rest else field j w (put_field k v rest)

module _ (env : Env) where
  -- The dict comprehension over the sorted items.
  unfoldable pub normed_dict : Fields → List (String × Json) → Fields
  normed_dict d [] = d
  normed_dict d ((k, v) ∷ items) = normed_dict (put_field (env.nfc k) v d) items

  -- `_norm`; the values are normalised before the items are sorted by key, which changes nothing.
  unfoldable mutual
    pub norm : Json → Json
    norm null = null
    norm (bool b) = bool b
    norm (int n) = int n
    norm (float x) = float x
    norm (str s) = str (env.nfc s)
    norm (arr xs) = arr (norm_items xs)
    norm (tup xs) = arr (norm_items xs)
    norm (obj fs) = obj (normed_dict end (sort_by item_key_le (norm_fields fs)))

    pub norm_items : Items → Items
    norm_items nil = nil
    norm_items (cons v rest) = cons (norm v) (norm_items rest)

    pub norm_fields : Fields → List (String × Json)
    norm_fields end = []
    norm_fields (field k v rest) = (k, norm v) ∷ norm_fields rest

  -- A Python value that may be None.
  abbrev pub metadata_value : Option Fields → Json
  metadata_value none = null
  metadata_value (some fs) = obj fs

  unfoldable pub canonical_json_bytes : Json → List ℕ
  canonical_json_bytes meta = encode (env.dumps (norm meta))

  -- The bytes of a text behind their number.
  unfoldable pub counted : List ℕ → Result (List ℕ)
  counted bytes = do size ← unsigned_bytes (length bytes); ok (size ++ bytes)

  unfoldable pub value_bytes : Option ℕ → List ℕ
  value_bytes none = 118 ∷ []
  value_bytes (some bits) = 86 ∷ big_endian 8 bits

  unfoldable pub text_bytes : Option String → Result (List ℕ)
  text_bytes none = ok (116 ∷ [])
  text_bytes (some s) = do t ← counted (encode (env.nfc s)); ok (84 ∷ t)

  abbrev pub domain : List ℕ
  domain = encode "aslan-core/observation/v1" ++ 0 ∷ []

  -- All that `h.update` is given.
  unfoldable pub payload_bytes : ObservationIn → Result (List ℕ)
  payload_bytes o = do
    validate_finite (metadata_value o.metadata)
    text ← text_bytes o.value_text
    flag ← signed_bytes o.quality_flag
    meta ← counted (canonical_json_bytes (metadata_value o.metadata))
    ok (domain ++ (value_bytes o.value ++ (text ++ ((81 ∷ flag) ++ (77 ∷ meta)))))

  unfoldable pub payload_hash : ObservationIn → Result ℕ
  payload_hash o = do bytes ← payload_bytes o; ok (env.sha256 bytes)
