-- ===== src/Timeseries/Types.antt =====
-- schemas/timeseries.py: the values that the writer takes and the reader returns. A datetime is its
-- instant in UTC with its UTC offset, which is missing in a naive one; aware datetimes are compared
-- by their instants. A float is its 64 bits, as `payload_hash` packs it.
use aslan_core.Base.{ℕ, String, Bool, Option, List, ◌&&◌, ◌==◌}
use aslan_core.Json.{ℤ, Json, Fields}

pub record Datetime : Type 0 where
  pub instant : ℕ
  pub utcoffset : Option ℤ

pub record ObservationIn : Type 0 where
  pub ts : Datetime
  pub as_of : Datetime
  pub value : Option ℕ
  pub value_text : Option String
  pub quality_flag : ℤ
  pub metadata : Option Fields

-- The pair (ts, as_of), which is the key within a series.
pub record Stamp : Type 0 where
  pub ts : ℕ
  pub as_of : ℕ

unfoldable pub stamp_eq : Stamp → Stamp → Bool
stamp_eq a b = a.ts == b.ts && a.as_of == b.as_of

unfoldable pub stamp_of : ObservationIn → Stamp
stamp_of o = record { ts = o.ts.instant; as_of = o.as_of.instant }

pub record WriteCount : Type 0 where
  pub attempted : ℕ
  pub inserted : ℕ
  pub updated : ℕ
  pub unchanged : ℕ

-- What the writer calls and this library does not define: `\d` of the module `re`, `isoformat` of
-- datetime, SHA-256 of hashlib, NFC of unicodedata, and `json.dumps` with sorted keys and no spaces.
-- Of the database, `accepts` says whether the columns and the CHECKs of ts.observation take the
-- values of a row (a `quality_flag` beyond SMALLINT, a text with U+0000), and `refers` whether the
-- series and the ingestion run exist that a row refers to.
-- The theorems about the writer hold for every choice of these.
-- The columns of the actor are taken to be accepted.
pub record Env : Type 0 where
  pub is_digit : ℕ → Bool
  pub isoformat : Datetime → String
  pub sha256 : List ℕ → ℕ
  pub nfc : String → String
  pub dumps : Json → String
  pub accepts : ObservationIn → Bool
  pub refers : ℕ → ℕ → Bool
