-- ===== src/Tests/Hashes.antt =====
-- The two hashes at concrete inputs.
use aslan_core.Base.{ℕ, none, List, [], ◌∷◌, ◌≡◌, refl, map, arith}
use aslan_core.Result.{ok}
use aslan_core.Timeseries.Bytes.{big_endian, unsigned_bytes, signed_bytes, utf8, encode, hex}
use aslan_core.Timeseries.Payload.{
  validate_finite, finite_fields, norm, norm_fields, normed_dict, canonical_json_bytes, counted,
  value_bytes, text_bytes, payload_bytes, payload_hash,
}
use aslan_core.Timeseries.BatchHash.{items_of, prefixed, item_bytes, all_bytes, batch_bytes}
use aslan_core.Base.Sort.{insert_by, sort_by}
use aslan_core.Base.Sort.{insert_by, sort_by}
use aslan_core.Result.{Result, err}
use aslan_core.Timeseries.Payload.{metadata_value}
use aslan_core.Timeseries.Payload.Injective.{hashed_text, payload_bytes_inj}
use aslan_core.Timeseries.BatchHash.{Item, sort_items}
use aslan_core.Timeseries.BatchHash.Injective.{bound, batch_bytes_inj}
use aslan_core.Tests.Sample.{env, env-IsDocumented, obs, utc}

-- The bytes, where there are some.
abbrev bytes_of : Result (List ℕ) → List ℕ
bytes_of (ok bytes) = bytes
bytes_of (err _) = []

abbrev hashed : List ℕ
hashed = bytes_of (payload_bytes env (obs 10 20 1))

one_hashed : payload_bytes env (obs 10 20 1) ≡ ok hashed
unfolding payload_bytes validate_finite finite_fields text_bytes value_bytes signed_bytes
    unsigned_bytes big_endian counted canonical_json_bytes norm norm_fields normed_dict sort_by
    insert_by encode utf8
one_hashed = refl

same_hashed : payload_bytes env (obs 11 21 1) ≡ ok hashed
unfolding payload_bytes validate_finite finite_fields text_bytes value_bytes signed_bytes
    unsigned_bytes big_endian counted canonical_json_bytes norm norm_fields normed_dict sort_by
    insert_by encode utf8
same_hashed = refl

payload_bytes_inj_example :
    ((obs 10 20 1).value ≡ (obs 11 21 1).value)
    × (hashed_text env none ≡ hashed_text env none)
    × ((obs 10 20 1).quality_flag ≡ (obs 11 21 1).quality_flag)
    × (canonical_json_bytes env (metadata_value env (obs 10 20 1).metadata)
        ≡ canonical_json_bytes env (metadata_value env (obs 11 21 1).metadata))
payload_bytes_inj_example =
    payload_bytes_inj env (obs 10 20 1) (obs 11 21 1) hashed (omega arith) (omega arith) one_hashed
      same_hashed

abbrev item : ℕ → ℕ → ℕ → Item
item ts as_of h = record { ts = utc ts; as_of = utc as_of; hash = h }

abbrev forward : List Item
forward = item 10 20 3065 ∷ item 11 20 3066 ∷ []

abbrev backward : List Item
backward = item 11 20 3066 ∷ item 10 20 3065 ∷ []

forward_items : items_of env (obs 10 20 1 ∷ obs 11 20 2 ∷ []) ≡ ok forward
unfolding items_of payload_hash payload_bytes validate_finite finite_fields text_bytes value_bytes
    signed_bytes unsigned_bytes big_endian counted canonical_json_bytes norm norm_fields normed_dict
    sort_by insert_by encode utf8
forward_items = refl

backward_items : items_of env (obs 11 20 2 ∷ obs 10 20 1 ∷ []) ≡ ok backward
unfolding items_of payload_hash payload_bytes validate_finite finite_fields text_bytes value_bytes
    signed_bytes unsigned_bytes big_endian counted canonical_json_bytes norm norm_fields normed_dict
    sort_by insert_by encode utf8
backward_items = refl

abbrev committed : List ℕ
committed = bytes_of (batch_bytes env 9 (obs 10 20 1 ∷ obs 11 20 2 ∷ []))

forward_bytes : batch_bytes env 9 (obs 10 20 1 ∷ obs 11 20 2 ∷ []) ≡ ok committed
unfolding batch_bytes items_of payload_hash payload_bytes validate_finite finite_fields text_bytes
    value_bytes signed_bytes unsigned_bytes big_endian counted canonical_json_bytes norm norm_fields
    normed_dict sort_by insert_by encode utf8 all_bytes item_bytes prefixed hex
forward_bytes = refl

backward_bytes : batch_bytes env 9 (obs 11 20 2 ∷ obs 10 20 1 ∷ []) ≡ ok committed
unfolding batch_bytes items_of payload_hash payload_bytes validate_finite finite_fields text_bytes
    value_bytes signed_bytes unsigned_bytes big_endian counted canonical_json_bytes norm norm_fields
    normed_dict sort_by insert_by encode utf8 all_bytes item_bytes prefixed hex
backward_bytes = refl

abbrev nine : ℕ
nine = 9

batch_bytes_inj_example :
    (nine ≡ 9) × (map (bound env) (sort_items forward) ≡ map (bound env) (sort_items backward))
batch_bytes_inj_example =
    batch_bytes_inj env env-IsDocumented 9 9 (obs 10 20 1 ∷ obs 11 20 2 ∷ [])
      (obs 11 20 2 ∷ obs 10 20 1 ∷ []) forward backward committed (omega arith) (omega arith)
      forward_items backward_items forward_bytes backward_bytes
