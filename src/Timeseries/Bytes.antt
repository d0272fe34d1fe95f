-- ===== src/Timeseries/Bytes.antt =====
-- Bytes as the hashes of schemas/timeseries.py and timeseries/writer.py take them: `struct.pack` and
-- `int.to_bytes`, UTF-8, and hex digits.
pub mod Laws
use Prim.Native.Char.{code}
use Prim.Native.String
use aslan_core.Base.{
  ℕ, zero, suc, ◌+◌, ◌*◌, ◌-◌, ◌/◌, ◌%◌, String, Bool, List, [], ◌∷◌, ◌++◌, ltb, if◌then◌else◌,
}
use aslan_core.Result.{Result, ok, err, overflow_error}
use aslan_core.Json.{ℤ, pos, negsuc}

-- An unsigned number in `n` bytes, most significant first.
unfoldable pub big_endian : ℕ → ℕ → List ℕ
big_endian zero x = []
big_endian (suc n) x = big_endian n (x / 256) ++ (x % 256) ∷ []

-- `x.to_bytes(4, "big")`
unfoldable pub unsigned_bytes : ℕ → Result (List ℕ)
unsigned_bytes x = if ltb x 4294967296 then ok (big_endian 4 x) else err overflow_error

-- `x.to_bytes(4, "big", signed=True)`
unfoldable pub signed_bytes : ℤ → Result (List ℕ)
signed_bytes (pos n) = if ltb n 2147483648 then ok (big_endian 4 n) else err overflow_error
signed_bytes (negsuc n) =
    if ltb n 2147483648 then ok (big_endian 4 (4294967295 - n)) else err overflow_error

-- UTF-8 of one code point.
unfoldable pub utf8 : ℕ → List ℕ
utf8 x =
    if ltb x 128
    then x ∷ []
    else if ltb x 2048
    then (192 + x / 64) ∷ (128 + x % 64) ∷ []
    else if ltb x 65536
    then (224 + x / 4096) ∷ (128 + x / 64 % 64) ∷ (128 + x % 64) ∷ []
    else (240 + x / 262144) ∷ (128 + x / 4096 % 64) ∷ (128 + x / 64 % 64) ∷ (128 + x % 64) ∷ []

-- `.encode("utf-8")`
unfoldable pub encode : String → List ℕ
encode String.[] = []
encode (String.◌∷◌ c s) = utf8 (code c) ++ encode s

-- A digit of a hex digest, and the `n` last ones of a number.
abbrev hex_digit : ℕ → ℕ
hex_digit d = if ltb d 10 then 48 + d else 87 + d

unfoldable pub hex : ℕ → ℕ → List ℕ
hex zero x = []
hex (suc n) x = hex n (x / 16) ++ hex_digit (x % 16) ∷ []
