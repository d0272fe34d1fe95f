-- ===== src/Json.antt =====
-- JSON-shaped Python values: the `dict[str, Any]` payloads of audit rows, event payloads and
-- metadata. A float is its 64 bits; a list is `arr` and a tuple `tup`; a dict is its items in
-- insertion order, under keys that are strings.
use aslan_core.Base.{ℕ, String, Option, none, some, Bool, str_eq, if◌then◌else◌}

-- A Python `int`; `negsuc n` is -(n + 1).
pub data ℤ : Type 0 where
  pos : ℕ → ℤ
  negsuc : ℕ → ℤ

mutual
  pub data Json : Type 0 where
    null : Json
    bool : Bool → Json
    int : ℤ → Json
    float : ℕ → Json
    str : String → Json
    arr : Items → Json
    tup : Items → Json
    obj : Fields → Json

  pub data Items : Type 0 where
    nil : Items
    cons : Json → Items → Items

  pub data Fields : Type 0 where
    end : Fields
    field : String → Json → Fields → Fields

abbrev pub num : ℕ → Json
num n = int (pos n)

-- `d.get(k)`
abbrev pub get : Fields → String → Option Json
get end k = none
get (field j v rest) k = if str_eq j k then some v else get rest k

abbrev pub opt_str : Option String → Json
opt_str none = null
opt_str (some s) = str s
