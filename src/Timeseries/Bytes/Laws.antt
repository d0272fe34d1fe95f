-- ===== src/Timeseries/Bytes/Laws.antt =====
-- The byte encodings lose nothing.
use aslan_core.Base.{
  ℕ, zero, suc, ◌-◌, ◌/◌, ◌%◌, ◌^◌, ◌<◌, List, [], ◌∷◌, ◌++◌, length, length-append, ◌≡◌, refl, sym,
  ap, ◌∙◌, arith,
}
use aslan_core.Result.{ok}
use aslan_core.Json.{ℤ, pos, negsuc}
use aslan_core.Timeseries.Bytes.{big_endian, unsigned_bytes, signed_bytes, hex, hex_digit}

-- Two lists cut at one place.
pub append_split :
    {A : Type 0} (xs ys us vs : List A)
    → length xs ≡ length ys
    → xs ++ us ≡ ys ++ vs
    → (xs ≡ ys) × (us ≡ vs)
append_split [] [] us vs h e = (refl, e)
append_split [] (y ∷ ys) us vs h e = absurd (ground arith)
append_split (x ∷ xs) [] us vs h e = absurd (ground arith)
append_split (x ∷ xs) (y ∷ ys) us vs h e =
    let (same, rest) : (x ≡ y) × (xs ++ us ≡ ys ++ vs) = (cc, cc) in
    let (front, back) = append_split xs ys us vs (ground arith) rest in (cc, back)

pub length-big_endian : (n x : ℕ) → length (big_endian n x) ≡ n
unfolding big_endian
length-big_endian zero x = refl
length-big_endian (suc n) x = rw length-append (omega (arith, length-big_endian n (x / 256)))

high_fits : (n x : ℕ) → x < 256 ^ suc n → x / 256 < 256 ^ n
high_fits n x h = omega arith

pub big_endian_inj :
    (n x y : ℕ) → x < 256 ^ n → y < 256 ^ n → big_endian n x ≡ big_endian n y → x ≡ y
unfolding big_endian
big_endian_inj zero x y hx hy e = omega arith
big_endian_inj (suc n) x y hx hy e =
    let (front, back) =
      append_split (big_endian n (x / 256)) (big_endian n (y / 256)) (x % 256 ∷ []) (y % 256 ∷ [])
        (length-big_endian n (x / 256) ∙ sym (length-big_endian n (y / 256))) e in
    let high = big_endian_inj n (x / 256) (y / 256) (high_fits n x hx) (high_fits n y hy) front in
    let low : x % 256 ≡ y % 256 = cc in omega arith

unsigned_done :
    (x : ℕ) (b : List ℕ) → unsigned_bytes x ≡ ok b → (x < 4294967296) × (b ≡ big_endian 4 x)
unfolding unsigned_bytes
unsigned_done x b e = (ground arith, ground arith)

pub length-unsigned_bytes : (x : ℕ) (b : List ℕ) → unsigned_bytes x ≡ ok b → length b ≡ 4
length-unsigned_bytes x b e = rw ((unsigned_done x b e).1) (length-big_endian 4 x)

pub unsigned_bytes_inj :
    (x y : ℕ) (b : List ℕ) → unsigned_bytes x ≡ ok b → unsigned_bytes y ≡ ok b → x ≡ y
unsigned_bytes_inj x y b p q =
    let (hx, ex) = unsigned_done x b p in
    let (hy, ey) = unsigned_done y b q in big_endian_inj 4 x y hx hy (sym ex ∙ ey)

-- The number that the bytes of a signed one are those of.
abbrev twos_complement : ℤ → ℕ
twos_complement (pos n) = n
twos_complement (negsuc n) = 4294967295 - n

abbrev magnitude : ℤ → ℕ
magnitude (pos n) = n
magnitude (negsuc n) = n

signed_done :
    (z : ℤ) (b : List ℕ)
    → signed_bytes z ≡ ok b
    → (magnitude z < 2147483648) × (b ≡ big_endian 4 (twos_complement z))
unfolding signed_bytes
signed_done (pos n) b e = (ground arith, ground arith)
signed_done (negsuc n) b e = (ground arith, ground arith)

twos_complement_inj :
    (y z : ℤ)
    → magnitude y < 2147483648
    → magnitude z < 2147483648
    → twos_complement y ≡ twos_complement z
    → y ≡ z
twos_complement_inj (pos n) (pos m) h k e = ap pos e
twos_complement_inj (pos n) (negsuc m) h k e = absurd (omega arith)
twos_complement_inj (negsuc n) (pos m) h k e = absurd (omega arith)
twos_complement_inj (negsuc n) (negsuc m) h k e = ap negsuc (omega arith)

pub length-signed_bytes : (z : ℤ) (b : List ℕ) → signed_bytes z ≡ ok b → length b ≡ 4
length-signed_bytes z b e = rw ((signed_done z b e).1) (length-big_endian 4 (twos_complement z))

twos_complement_fits : (z : ℤ) → magnitude z < 2147483648 → twos_complement z < 4294967296
twos_complement_fits (pos n) h = omega arith
twos_complement_fits (negsuc n) h = omega arith

pub signed_bytes_inj :
    (y z : ℤ) (b : List ℕ) → signed_bytes y ≡ ok b → signed_bytes z ≡ ok b → y ≡ z
signed_bytes_inj y z b p q =
    let (hy, ey) = signed_done y b p in
    let (hz, ez) = signed_done z b q in
    twos_complement_inj y z hy hz (
      big_endian_inj 4 (twos_complement y) (twos_complement z) (twos_complement_fits y hy)
        (twos_complement_fits z hz) (sym ey ∙ ez))

pub length-hex : (n x : ℕ) → length (hex n x) ≡ n
unfolding hex
length-hex zero x = refl
length-hex (suc n) x = rw length-append (omega (arith, length-hex n (x / 16)))

hex_digit_inj : (a b : ℕ) → a < 16 → b < 16 → hex_digit a ≡ hex_digit b → a ≡ b
hex_digit_inj a b h k e = ground arith

hex_high_fits : (n x : ℕ) → x < 16 ^ suc n → x / 16 < 16 ^ n
hex_high_fits n x h = omega arith

pub hex_inj : (n x y : ℕ) → x < 16 ^ n → y < 16 ^ n → hex n x ≡ hex n y → x ≡ y
unfolding hex
hex_inj zero x y hx hy e = omega arith
hex_inj (suc n) x y hx hy e =
    let (front, back) =
      append_split (hex n (x / 16)) (hex n (y / 16)) (hex_digit (x % 16) ∷ [])
        (hex_digit (y % 16) ∷ []) (length-hex n (x / 16) ∙ sym (length-hex n (y / 16))) e in
    let high = hex_inj n (x / 16) (y / 16) (hex_high_fits n x hx) (hex_high_fits n y hy) front in
    let low = hex_digit_inj (x % 16) (y % 16) (omega arith) (omega arith) cc in omega arith
