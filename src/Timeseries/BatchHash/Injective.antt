-- ===== src/Timeseries/BatchHash/Injective.antt =====
-- The bytes that `_compute_batch_hash` of timeseries/writer.py hashes bind the payloads to their keys.
use mathlib.Core.Path.{subst}
use mathlib.Core.List.{append_assoc}
use aslan_core.Base.{
  ℕ, ◌+◌, ◌^◌, ◌<◌, List, [], ◌∷◌, ◌++◌, length, map, All, length-append, ◌≡◌, ◌≢◌, refl, sym, ap,
  ◌∙◌, arith,
}
use aslan_core.Base.Sort.{All-sort_by}
use aslan_core.Result.{ok, ok_inj, >>=-eq-ok}
use aslan_core.Timeseries.Types.{Datetime, ObservationIn, Env}
use aslan_core.Timeseries.Bytes.{big_endian, encode, hex}
use aslan_core.Timeseries.Bytes.Laws.{
  append_split, length-big_endian, big_endian_inj, length-hex, hex_inj,
}
use aslan_core.Timeseries.Payload.{payload_hash, payload_bytes}
use aslan_core.Timeseries.BatchHash.{
  Item, item_le, sort_items, items_of, prefixed, item_bytes, all_bytes, batch_bytes,
}

-- What the standard library says of an ISO text, which is short, and of SHA-256, which has 256 bits.
pub record IsDocumented (env : Env) : Type 0 where
  pub short : (d : Datetime) → length (encode (env.isoformat d)) < 256 ^ 4
  pub digest : (bytes : List ℕ) → env.sha256 bytes < 16 ^ 64

-- The texts of the key and the payload hash of a row.
pub record Bound : Type 0 where
  pub ts : List ℕ
  pub as_of : List ℕ
  pub hash : ℕ

abbrev pub bound : Env → Item → Bound
bound env i = record {
  ts = encode (env.isoformat i.ts);
  as_of = encode (env.isoformat i.as_of);
  hash = i.hash;
}

abbrev IsDigest : Item → Type 0
IsDigest i = i.hash < 16 ^ 64

module _ (env : Env) (doc : IsDocumented env) where
  prefixed_split :
      (b c us vs : List ℕ)
      → length b < 256 ^ 4
      → length c < 256 ^ 4
      → prefixed env b ++ us ≡ prefixed env c ++ vs
      → (b ≡ c) × (us ≡ vs)
  unfolding prefixed
  prefixed_split b c us vs hb hc e =
      let joined =
        sym (append_assoc (big_endian 4 (length b)) b us)
        ∙ e
        ∙ append_assoc (big_endian 4 (length c)) c vs in
      let (sizes, rest) =
        append_split (big_endian 4 (length b)) (big_endian 4 (length c)) (b ++ us) (c ++ vs)
          (length-big_endian 4 (length b) ∙ sym (length-big_endian 4 (length c))) joined in
      append_split b c us vs (big_endian_inj 4 (length b) (length c) hb hc sizes) rest

  hex_short : (h : ℕ) → length (hex 64 h) < 256 ^ 4
  hex_short h = rw length-hex (omega arith)

  item_assoc :
      (i : Item) (us : List ℕ)
      → item_bytes env i ++ us
        ≡ prefixed env (encode (env.isoformat i.ts))
          ++ (prefixed env (encode (env.isoformat i.as_of)) ++ (prefixed env (hex 64 i.hash) ++ us))
  unfolding item_bytes
  item_assoc i us =
      append_assoc (prefixed env (encode (env.isoformat i.ts)))
        (prefixed env (encode (env.isoformat i.as_of)) ++ prefixed env (hex 64 i.hash)) us
      ∙ ap (λ z. prefixed env (encode (env.isoformat i.ts)) ++ z)
          (append_assoc (prefixed env (encode (env.isoformat i.as_of)))
            (prefixed env (hex 64 i.hash)) us)

  item_split :
      (i j : Item) (us vs : List ℕ)
      → IsDigest i
      → IsDigest j
      → item_bytes env i ++ us ≡ item_bytes env j ++ vs
      → (bound env i ≡ bound env j) × (us ≡ vs)
  item_split i j us vs hi hj e =
      let (ts, rest) =
        prefixed_split _ _ _ _ (doc.short i.ts) (doc.short j.ts)
          (sym (item_assoc i us) ∙ e ∙ item_assoc j vs) in
      let (as_of, rest') = prefixed_split _ _ _ _ (doc.short i.as_of) (doc.short j.as_of) rest in
      let (hash, back) =
        prefixed_split (hex 64 i.hash) (hex 64 j.hash) us vs (hex_short i.hash) (hex_short j.hash)
          rest' in
      let same = hex_inj 64 i.hash j.hash hi hj hash in (cc, back)

  prefixed_long : (b us : List ℕ) → length (prefixed env b ++ us) ≡ 4 + (length b + length us)
  unfolding prefixed
  prefixed_long b us = omega (
    arith,
    length-append (big_endian 4 (length b) ++ b) us,
    length-append (big_endian 4 (length b)) b,
    length-big_endian 4 (length b),
  )

  bytes_of_some : (i : Item) (us : List ℕ) → [] ≢ item_bytes env i ++ us
  bytes_of_some i us e =
      let more = ap length (e ∙ item_assoc i us) in
      omega (
        arith,
        more,
        prefixed_long (encode (env.isoformat i.ts))
            (prefixed env (encode (env.isoformat i.as_of)) ++ (prefixed env (hex 64 i.hash) ++ us)),
      )

  all_split :
      (xs ys : List Item)
      → All IsDigest xs
      → All IsDigest ys
      → all_bytes env xs ≡ all_bytes env ys
      → map (bound env) xs ≡ map (bound env) ys
  unfolding all_bytes
  all_split [] [] h k e = refl
  all_split [] (y ∷ ys) h k e = absurd (bytes_of_some y (all_bytes env ys) e)
  all_split (x ∷ xs) [] h k e = absurd (bytes_of_some x (all_bytes env xs) (sym e))
  all_split (x ∷ xs) (y ∷ ys) h k e =
      let (same, rest) = item_split x y (all_bytes env xs) (all_bytes env ys) h.0 k.0 e in
      let more = all_split xs ys h.1 k.1 rest in cc

  items_of-IsDigest :
      (os : List ObservationIn) (items : List Item)
      → items_of env os ≡ ok items
      → All IsDigest items
  unfolding items_of payload_hash
  items_of-IsDigest [] items e = subst (All IsDigest) (ok_inj e) tt
  items_of-IsDigest (o ∷ os) items e =
      let (h, hashed, e1) = >>=-eq-ok (payload_hash env o) _ e in
      let (bytes, _, e2) = >>=-eq-ok (payload_bytes env o) _ hashed in
      let (rest, more, e3) = >>=-eq-ok (items_of env os) _ e1 in
      let tail = items_of-IsDigest os rest more in
      subst (All IsDigest) (ok_inj e3)
        (subst (λ x. x < 16 ^ 64) (ok_inj e2) (doc.digest bytes), tail)

  sort_items-IsDigest :
      (os : List ObservationIn) (items : List Item)
      → items_of env os ≡ ok items
      → All IsDigest (sort_items items)
  sort_items-IsDigest os items e = All-sort_by item_le IsDigest items (items_of-IsDigest os items e)

  -- When two batches hash the same bytes, they are of one series, and sorted by (ts, as_of) their rows
  -- are one for one the same in the text of `ts`, the text of `as_of` and the payload hash: payloads
  -- swapped across keys are told apart.
  pub batch_bytes_inj :
      (sid tid : ℕ) (ds es : List ObservationIn) (xs ys : List Item) (bytes : List ℕ)
      → sid < 256 ^ 8
      → tid < 256 ^ 8
      → items_of env ds ≡ ok xs
      → items_of env es ≡ ok ys
      → batch_bytes env sid ds ≡ ok bytes
      → batch_bytes env tid es ≡ ok bytes
      → (sid ≡ tid) × (map (bound env) (sort_items xs) ≡ map (bound env) (sort_items ys))
  unfolding batch_bytes
  batch_bytes_inj sid tid ds es xs ys bytes hs ht is_xs is_ys p q =
      let left : big_endian 8 sid ++ all_bytes env (sort_items xs) ≡ bytes =
        ok_inj (rw is_xs at p) in
      let right : big_endian 8 tid ++ all_bytes env (sort_items ys) ≡ bytes =
        ok_inj (rw is_ys at q) in
      let (series, rest) =
        append_split (big_endian 8 sid) (big_endian 8 tid) (all_bytes env (sort_items xs))
          (all_bytes env (sort_items ys)) (length-big_endian 8 sid ∙ sym (length-big_endian 8 tid))
          (left ∙ sym right) in
      (
        big_endian_inj 8 sid tid hs ht series,
        all_split (sort_items xs) (sort_items ys) (sort_items-IsDigest ds xs is_xs)
            (sort_items-IsDigest es ys is_ys) rest,
      )
