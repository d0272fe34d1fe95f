-- ===== src/Result.antt =====
-- The exceptions of errors.py that the modelled code raises, and those of the clients that it calls,
-- with the attributes that the code reads;
-- message texts are left out. A pure function that may raise returns a `Result`.
use aslan_core.Base.{ℕ, String, Bool, Option, List, ◌≡◌, refl}

pub data Error : Type 0 where
  value_error : Error
  audit_missing_actor : Error
  unknown_source : String → Error
  -- The index of the row in the batch, and the field that is wrong.
  observation_validation : ℕ → String → Error
  -- A float of the metadata is not finite.
  metadata_not_finite : Error
  metadata_schema_violation : Error
  identifying_series_pii_in_clear_text : Error
  identifying_series_missing_subject : Error
  identifying_series_metadata_pii : Error
  -- The fields that may not change, and the number of observations.
  series_code_conflict : List String → ℕ → Error
  -- The key (series, ts, as_of), the hash that is there, if any, and the new one.
  observation_conflict : ℕ → ℕ → ℕ → Option ℕ → ℕ → Error
  -- The event id, and the stream.
  stream_event_id_conflict : String → String → Error
  unknown_event_kind : String → Error
  -- The failure id, and the attempts.
  stream_routing_contention : ℕ → ℕ → Error
  overflow_error : Error
  key_error : Error
  -- `redis.exceptions.RedisError`, and whether its text says "no such key".
  redis_error : Bool → Error
  sqlalchemy_error : Error
  attribute_error : Error
  type_error : Error
  runtime_error : Error
  -- asyncio's CancelledError, which is no `Exception`.
  cancelled_error : Error
  -- An exception of none of the classes above.
  other_error : Error

pub data Result {ℓ} (A : Type ℓ) : Type ℓ where
  err : Error → Result A
  ok : A → Result A

module _ {ℓ κ} {A : Type ℓ} {B : Type κ} where
  infixl 5 ◌>>=◌
  -- An error ends the chain.
  abbrev pub ◌>>=◌ : Result A → (A → Result B) → Result B
  err raised >>= next = err raised
  ok value >>= next = next value

  -- A chain that returns: its first step did.
  pub >>=-eq-ok :
      (first : Result A) (next : A → Result B) {result : B}
      → (first >>= next) ≡ ok result
      → (value : A) × (first ≡ ok value) × (next value ≡ ok result)
  >>=-eq-ok (err raised) next e = cc
  >>=-eq-ok (ok value) next e = (value, refl, e)

infixl 5 ◌>>◌
abbrev pub ◌>>◌ {ℓ} : {B : Type ℓ} → Result (Unit {0}) → Result B → Result B
first >> rest = first >>= (λ done. rest)

pub ok_inj {ℓ} : {A : Type ℓ} {a b : A} → ok a ≡ ok b → a ≡ b
ok_inj e = cc
