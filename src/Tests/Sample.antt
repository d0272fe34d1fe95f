-- ===== src/Tests/Sample.antt =====
-- A small world: an actor, a context, and functions for what the code calls outside this library.
use native.Mathlib.Omega.{arith}
use aslan_core.Base.{ℕ, ◌+◌, ◌%◌, ◌^◌, Bool, true, ◌&&◌, none, some, List, [], ◌∷◌, leb}
use aslan_core.Json.{ℤ, pos, negsuc, end}
use aslan_core.Audit.Context.{Actor, Context}
use aslan_core.Timeseries.Types.{Env, Datetime, ObservationIn}
use aslan_core.Timeseries.Bytes.{encode, utf8}
use aslan_core.Timeseries.BatchHash.Injective.{IsDocumented}
use aslan_core.Timeseries.Writer.{Session}

abbrev pub alice : Actor
alice = record {
  actor_id = "alice";
  actor_kind = "user";
  client_ip = none;
  user_agent = none;
  request_id = some 7;
}

abbrev pub strict : Context
strict = record { actor = some alice; audit_strict = true; now = 100 }

abbrev pub nobody : Context
nobody = record { actor = none; audit_strict = true; now = 100 }

abbrev sum : List ℕ → ℕ
sum [] = 0
sum (x ∷ xs) = x + sum xs

abbrev is_smallint : ℤ → Bool
is_smallint (pos n) = leb n 32767
is_smallint (negsuc n) = leb n 32767

abbrev pub env : Env
env = record {
  is_digit = λ c. leb 48 c && leb c 57;
  isoformat = λ d. "2026";
  sha256 = λ bytes. sum bytes % 16 ^ 64;
  nfc = λ s. s;
  dumps = λ j. "{}";
  accepts = λ o. is_smallint o.quality_flag;
  refers = λ sid run. leb sid 9;
}

pub env-IsDocumented : IsDocumented env
unfolding encode utf8
env-IsDocumented = record { short = λ d. omega arith; digest = λ bytes. omega arith }

abbrev pub utc : ℕ → Datetime
utc t = record { instant = t; utcoffset = some (pos 0) }

-- An observation at `ts`, known from `as_of` on, with the bits of its value.
abbrev pub obs : ℕ → ℕ → ℕ → ObservationIn
obs ts as_of bits = record {
  ts = utc ts;
  as_of = utc as_of;
  value = some bits;
  value_text = none;
  quality_flag = pos 0;
  metadata = some end;
}

abbrev pub empty : Session
empty = record { rows = []; events = []; batch_keys = [] }

-- Two observations, of which the first is there twice.
abbrev pub batch : List ObservationIn
batch = obs 10 20 1 ∷ obs 11 20 2 ∷ obs 10 20 1 ∷ []
