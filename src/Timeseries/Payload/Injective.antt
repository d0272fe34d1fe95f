-- ===== src/Timeseries/Payload/Injective.antt =====
-- The bytes that `payload_hash` of schemas/timeseries.py hashes determine what it hashes.
use mathlib.Core.List.{append_assoc}
use aslan_core.Base.{
  ℕ, ◌^◌, ◌<◌, String, Option, none, some, List, [], ◌∷◌, ◌++◌, length, ◌≡◌, refl, sym, ap, ◌∙◌,
  arith,
}
use aslan_core.Result.{ok, ok_inj, >>=-eq-ok}
use aslan_core.Timeseries.Types.{ObservationIn, Env}
use aslan_core.Timeseries.Bytes.{big_endian, unsigned_bytes, signed_bytes, encode}
use aslan_core.Timeseries.Bytes.Laws.{
  append_split, length-big_endian, big_endian_inj, length-unsigned_bytes, unsigned_bytes_inj,
  length-signed_bytes, signed_bytes_inj,
}
use aslan_core.Timeseries.Payload.{
  validate_finite, metadata_value, canonical_json_bytes, counted, value_bytes, text_bytes, domain,
  payload_bytes,
}

-- A float has 64 bits.
abbrev pub IsFloat : Option ℕ → Type 0
IsFloat none = Unit {0}
IsFloat (some bits) = bits < 256 ^ 8

module _ (env : Env) where
  -- The text as it is hashed, if there is one.
  abbrev pub hashed_text : Option String → Option (List ℕ)
  hashed_text none = none
  hashed_text (some s) = some (encode (env.nfc s))

  -- Bytes behind their number can be told from what follows.
  counted_split :
      (b c x y us vs : List ℕ)
      → counted env b ≡ ok x
      → counted env c ≡ ok y
      → x ++ us ≡ y ++ vs
      → (b ≡ c) × (us ≡ vs)
  unfolding counted
  counted_split b c x y us vs p q e =
      let (m, size_m, em) = >>=-eq-ok (unsigned_bytes (length b)) _ p in
      let (k, size_k, ek) = >>=-eq-ok (unsigned_bytes (length c)) _ q in
      let joined : m ++ (b ++ us) ≡ k ++ (c ++ vs) =
        sym (append_assoc m b us)
        ∙ ap (λ z. z ++ us) (ok_inj em)
        ∙ e
        ∙ sym (ap (λ z. z ++ vs) (ok_inj ek))
        ∙ append_assoc k c vs in
      let (sizes, rest) =
        append_split m k (b ++ us) (c ++ vs)
          (length-unsigned_bytes (length b) m size_m
            ∙ sym (length-unsigned_bytes (length c) k size_k))
          joined in
      append_split b c us vs
        (unsigned_bytes_inj (length b) (length c) m size_m (size_k ∙ ap ok (sym sizes))) rest

  value_split :
      (a b : Option ℕ) (us vs : List ℕ)
      → IsFloat a
      → IsFloat b
      → value_bytes env a ++ us ≡ value_bytes env b ++ vs
      → (a ≡ b) × (us ≡ vs)
  unfolding value_bytes
  value_split none none us vs h k e = (refl, cc)
  value_split none (some y) us vs h k e = absurd (ground arith)
  value_split (some x) none us vs h k e = absurd (ground arith)
  value_split (some x) (some y) us vs h k e =
      let (front, back) =
        append_split (86 ∷ big_endian 8 x) (86 ∷ big_endian 8 y) us vs
          (omega (arith, length-big_endian 8 x, length-big_endian 8 y)) e in
      (ap some (big_endian_inj 8 x y h k cc), back)

  text_split :
      (a b : Option String) (x y us vs : List ℕ)
      → text_bytes env a ≡ ok x
      → text_bytes env b ≡ ok y
      → x ++ us ≡ y ++ vs
      → (hashed_text a ≡ hashed_text b) × (us ≡ vs)
  unfolding text_bytes
  text_split none none x y us vs p q e = (refl, ground arith)
  text_split none (some t) x y us vs p q e = absurd (ground arith)
  text_split (some s) none x y us vs p q e = absurd (ground arith)
  text_split (some s) (some t) x y us vs p q e =
      let (m, count_m, em) = >>=-eq-ok (counted env (encode (env.nfc s))) _ p in
      let (k, count_k, ek) = >>=-eq-ok (counted env (encode (env.nfc t))) _ q in
      let joined : 84 ∷ (m ++ us) ≡ 84 ∷ (k ++ vs) =
        ap (λ z. z ++ us) (ok_inj em) ∙ e ∙ sym (ap (λ z. z ++ vs) (ok_inj ek)) in
      let (texts, rest) =
        counted_split (encode (env.nfc s)) (encode (env.nfc t)) m k us vs count_m count_k cc in
      (ap some texts, rest)

  -- What is hashed, part by part.
  payload_parts :
      (o : ObservationIn) (bytes : List ℕ)
      → payload_bytes env o ≡ ok bytes
      → (text flag meta : List ℕ) × (text_bytes env o.value_text ≡ ok text)
        × (signed_bytes o.quality_flag ≡ ok flag)
        × (counted env (canonical_json_bytes env (metadata_value env o.metadata)) ≡ ok meta)
        × (domain env ++ (value_bytes env o.value ++ (text ++ ((81 ∷ flag) ++ (77 ∷ meta))))
            ≡ bytes)
  unfolding payload_bytes
  payload_parts o bytes e =
      let (_, _, e1) = >>=-eq-ok (validate_finite (metadata_value env o.metadata)) _ e in
      let (text, is_text, e2) = >>=-eq-ok (text_bytes env o.value_text) _ e1 in
      let (flag, is_flag, e3) = >>=-eq-ok (signed_bytes o.quality_flag) _ e2 in
      let (meta, is_meta, e4) =
        >>=-eq-ok (counted env (canonical_json_bytes env (metadata_value env o.metadata))) _ e3 in
      (text, flag, meta, is_text, is_flag, is_meta, ok_inj e4)

  -- Two observations whose hashed bytes are the same have the same value, bit by bit, or both none; the
  -- same text after NFC, or both none; the same quality flag; and the same canonical JSON of metadata:
  -- no bytes of one part can be read as those of another.
  pub payload_bytes_inj :
      (a b : ObservationIn) (bytes : List ℕ)
      → IsFloat a.value
      → IsFloat b.value
      → payload_bytes env a ≡ ok bytes
      → payload_bytes env b ≡ ok bytes
      → (a.value ≡ b.value)
        × (hashed_text a.value_text ≡ hashed_text b.value_text)
        × (a.quality_flag ≡ b.quality_flag)
        × (canonical_json_bytes env (metadata_value env a.metadata)
            ≡ canonical_json_bytes env (metadata_value env b.metadata))
  payload_bytes_inj a b bytes fa fb p q =
      let (ta, qa, ma, is_ta, is_qa, is_ma, ea) = payload_parts a bytes p in
      let (tb, qb, mb, is_tb, is_qb, is_mb, eb) = payload_parts b bytes q in
      let (_, after_domain) =
        append_split (domain env) (domain env)
          (value_bytes env a.value ++ (ta ++ ((81 ∷ qa) ++ (77 ∷ ma))))
          (value_bytes env b.value ++ (tb ++ ((81 ∷ qb) ++ (77 ∷ mb)))) refl (ea ∙ sym eb) in
      let (values, after_value) =
        value_split a.value b.value (ta ++ ((81 ∷ qa) ++ (77 ∷ ma)))
          (tb ++ ((81 ∷ qb) ++ (77 ∷ mb))) fa fb after_domain in
      let (texts, after_text) =
        text_split a.value_text b.value_text ta tb ((81 ∷ qa) ++ (77 ∷ ma)) ((81 ∷ qb) ++ (77 ∷ mb))
          is_ta is_tb after_value in
      let (flags, after_flag) =
        append_split (81 ∷ qa) (81 ∷ qb) (77 ∷ ma) (77 ∷ mb)
          (omega (
            arith,
            length-signed_bytes a.quality_flag qa is_qa,
            length-signed_bytes b.quality_flag qb is_qb,
          ))
          after_text in
      let same_flag : qa ≡ qb = cc in
      let same_meta : ma ++ [] ≡ mb ++ [] = ap (λ z. z ++ []) cc in
      (
        values,
        texts,
        signed_bytes_inj a.quality_flag b.quality_flag qa is_qa (is_qb ∙ ap ok (sym same_flag)),
        (counted_split _ _ ma mb [] [] is_ma is_mb same_meta).0,
      )
