-- ===== src/Timeseries/Pii/Findings.antt =====
-- Where the findings of timeseries/pii.py are.
use mathlib.Core.Path.{subst}
use mathlib.Core.List.{append-nil, append_assoc}
use aslan_core.Base.{
  ℕ, suc, ◌+◌, String, Bool, false, Option, none, some, List, [], ◌∷◌, ◌++◌, ◌≡◌, refl, sym, ap,
  ◌∙◌, arith, str_eq, str_eq_refl, str_eq_iff, Bool-cases, inl, inr, map, All, All-append,
}
use aslan_core.Base.Sort.{All_map}
use aslan_core.Json.{
  Json, Items, Fields, null, bool, int, float, str, arr, tup, obj, nil, cons, end, field,
}
use aslan_core.Json as J
use aslan_core.Timeseries.Metadata.{JsonPath, key, index}
use aslan_core.Timeseries.Pii.{
  PiiFinding, Match, finding, scan_string, walk, walk_list, walk_dict, walk_top,
  find_pii_in_metadata, nth, then_at, at_path,
}

-- A Python dict has a key once, here and in what it holds.
unfoldable mutual
  pub IsValue : Json → Type 0
  IsValue (arr xs) = AreValues xs
  IsValue (tup xs) = AreValues xs
  IsValue (obj fs) = IsDict fs
  IsValue _ = Unit

  pub AreValues : Items → Type 0
  AreValues nil = Unit
  AreValues (cons v rest) = IsValue v × AreValues rest

  pub IsDict : Fields → Type 0
  IsDict end = Unit
  IsDict (field k v rest) = (J.get rest k ≡ none) × IsValue v × IsDict rest

-- The finding is in a text below `v`, which stands at `path`.
abbrev pub FoundIn : JsonPath → Json → PiiFinding → Type 0
FoundIn path v f = (p : JsonPath) × (f.path ≡ path ++ p) × (at_path p v ≡ some (str f.full_value))

abbrev FoundInList : JsonPath → ℕ → Items → PiiFinding → Type 0
FoundInList path i xs f =
    (j : ℕ) × (p : JsonPath) × (f.path ≡ path ++ index (i + j) ∷ p)
    × (then_at (nth xs j) (at_path p) ≡ some (str f.full_value))

abbrev FoundInDict : JsonPath → Fields → PiiFinding → Type 0
FoundInDict path fs f =
    (k : String) × (p : JsonPath) × (f.path ≡ path ++ key k ∷ p)
    × (then_at (J.get fs k) (at_path p) ≡ some (str f.full_value))

module _ (finditer : String → String → List Match) where
  all_here :
      (path : JsonPath) (pattern s : String) (ms : List Match)
      → All (FoundIn path (str s)) (map (finding finditer path pattern s) ms)
  unfolding at_path
  all_here path pattern s [] = tt
  all_here path pattern s (m ∷ ms) = (([], sym (append-nil path), refl), all_here path pattern s ms)

  scan_here :
      (path : JsonPath) (s : String) → All (FoundIn path (str s)) (scan_string finditer path s)
  unfolding scan_string
  scan_here path s =
      All-append (FoundIn path (str s)) (map (finding finditer path "email" s) (finditer "email" s))
        (map (finding finditer path "name" s) (finditer "name" s))
        (all_here path "email" s (finditer "email" s)) (all_here path "name" s (finditer "name" s))

  later_item :
      (path : JsonPath) (i : ℕ) (v : Json) (rest : Items) (f : PiiFinding)
      → FoundInList path (i + 1) rest f
      → FoundInList path i (cons v rest) f
  unfolding nth
  later_item path i v rest f (j, p, e, there) =
      (suc j, p, e ∙ ap (λ n. path ++ index n ∷ p) (omega arith), there)

  this_item :
      (path : JsonPath) (i : ℕ) (v : Json) (rest : Items) (f : PiiFinding)
      → FoundIn (path ++ index i ∷ []) v f
      → FoundInList path i (cons v rest) f
  unfolding nth
  this_item path i v rest f (p, e, there) = (
    0,
    p,
    e ∙ append_assoc path (index i ∷ []) p ∙ ap (λ n. path ++ index n ∷ p) (omega arith),
    there,
  )

  this_field :
      (path : JsonPath) (k : String) (v : Json) (rest : Fields) (f : PiiFinding)
      → FoundIn (path ++ key k ∷ []) v f
      → FoundInDict path (field k v rest) f
  this_field path k v rest f (p, e, there) =
      (k, p, e ∙ append_assoc path (key k ∷ []) p, rw str_eq_refl there)

  -- A field that comes later is found past one with another key.
  get_later :
      (k j : String) (v : Json) (rest : Fields) (g : Json → Option Json) (w : Json)
      → J.get rest k ≡ none
      → then_at (J.get rest j) g ≡ some w
      → then_at (J.get (field k v rest) j) g ≡ some w
  get_later k j v rest g w once there = elim (Bool-cases (str_eq k j)) [
    | inl same ↦
        let gone : J.get rest j ≡ none =
          subst (λ x. J.get rest x ≡ none) ((str_eq_iff k j).0 same) once in
        let nowhere : none ≡ some w = rw gone at there in absurd (cc)
    | inr other ↦ rw other there
  ]

  later_field :
      (path : JsonPath) (k : String) (v : Json) (rest : Fields) (f : PiiFinding)
      → J.get rest k ≡ none
      → FoundInDict path rest f
      → FoundInDict path (field k v rest) f
  later_field path k v rest f once (j, p, e, there) =
      (j, p, e, get_later k j v rest (at_path p) (str f.full_value) once there)

  mutual
    unfolding walk walk_list walk_dict at_path IsValue AreValues IsDict

    walk_found :
        (path : JsonPath) (v : Json) → IsValue v → All (FoundIn path v) (walk finditer path v)
    walk_found path null h = tt
    walk_found path (bool b) h = tt
    walk_found path (int n) h = tt
    walk_found path (float x) h = tt
    walk_found path (str s) h = scan_here path s
    walk_found path (arr xs) h =
        All_map (FoundInList path 0 xs) (FoundIn path (arr xs)) (walk_list finditer path 0 xs)
          (λ f found. (
            index (found.0) ∷ found.1,
            found.2 ∙ ap (λ n. path ++ index n ∷ found.1) (omega arith),
            found.3,
          ))
          (list_found path 0 xs h)
    walk_found path (tup xs) h =
        All_map (FoundInList path 0 xs) (FoundIn path (tup xs)) (walk_list finditer path 0 xs)
          (λ f found. (
            index (found.0) ∷ found.1,
            found.2 ∙ ap (λ n. path ++ index n ∷ found.1) (omega arith),
            found.3,
          ))
          (list_found path 0 xs h)
    walk_found path (obj fs) h =
        All_map (FoundInDict path fs) (FoundIn path (obj fs)) (walk_dict finditer path fs)
          (λ f found. (key (found.0) ∷ found.1, found.2, found.3)) (dict_found path fs h)

    list_found :
        (path : JsonPath) (i : ℕ) (xs : Items)
        → AreValues xs
        → All (FoundInList path i xs) (walk_list finditer path i xs)
    list_found path i nil h = tt
    list_found path i (cons v rest) h =
        All-append (FoundInList path i (cons v rest)) (walk finditer (path ++ index i ∷ []) v)
          (walk_list finditer path (i + 1) rest)
          (All_map (FoundIn (path ++ index i ∷ []) v) (FoundInList path i (cons v rest))
            (walk finditer (path ++ index i ∷ []) v) (this_item path i v rest)
            (walk_found (path ++ index i ∷ []) v h.0))
          (All_map (FoundInList path (i + 1) rest) (FoundInList path i (cons v rest))
            (walk_list finditer path (i + 1) rest) (later_item path i v rest)
            (list_found path (i + 1) rest h.1))

    dict_found :
        (path : JsonPath) (fs : Fields)
        → IsDict fs
        → All (FoundInDict path fs) (walk_dict finditer path fs)
    dict_found path end h = tt
    dict_found path (field k v rest) h =
        All-append (FoundInDict path (field k v rest)) (walk finditer (path ++ key k ∷ []) v)
          (walk_dict finditer path rest)
          (All_map (FoundIn (path ++ key k ∷ []) v) (FoundInDict path (field k v rest))
            (walk finditer (path ++ key k ∷ []) v) (this_field path k v rest)
            (walk_found (path ++ key k ∷ []) v (h.1)))
          (All_map (FoundInDict path rest) (FoundInDict path (field k v rest))
            (walk_dict finditer path rest) (λ f. later_field path k v rest f h.0)
            (dict_found path rest (h.2)))

  -- The finding is in a text of the dict, under a top-level key that is not passed over.
  abbrev pub IsLocated : (String → Bool) → Fields → PiiFinding → Type 0
  IsLocated skip fs f =
      (k : String) × (p : JsonPath) × (f.path ≡ key k ∷ p)
      × (skip k ≡ false)
      × (then_at (J.get fs k) (at_path p) ≡ some (str f.full_value))

  later_top :
      (skip : String → Bool) (k : String) (v : Json) (rest : Fields) (f : PiiFinding)
      → J.get rest k ≡ none
      → IsLocated skip rest f
      → IsLocated skip (field k v rest) f
  later_top skip k v rest f once (j, p, e, kept, there) =
      (j, p, e, kept, get_later k j v rest (at_path p) (str f.full_value) once there)

  top-IsLocated :
      (skip : String → Bool) (fs : Fields)
      → IsDict fs
      → All (IsLocated skip fs) (walk_top finditer skip fs)
  unfolding walk_top IsDict
  top-IsLocated skip end h = tt
  top-IsLocated skip (field k v rest) h =
      let deeper =
        All_map (IsLocated skip rest) (IsLocated skip (field k v rest))
          (walk_top finditer skip rest) (λ f. later_top skip k v rest f h.0)
          (top-IsLocated skip rest (h.2)) in
      elim (Bool-cases (skip k)) [
        | inl passed ↦ rw passed deeper
        | inr kept ↦ rw kept (
            All-append (IsLocated skip (field k v rest)) (walk finditer (key k ∷ []) v)
              (walk_top finditer skip rest)
              (All_map (FoundIn (key k ∷ []) v) (IsLocated skip (field k v rest))
                (walk finditer (key k ∷ []) v)
                (λ f found. (k, found.0, found.1, kept, rw str_eq_refl found.2))
                (walk_found (key k ∷ []) v (h.1)))
              deeper)
      ]

  -- Each finding of `find_pii_in_metadata` on a dict whose keys are distinct at each level has a
  -- path that starts with a top-level key that is not passed over and leads, in the dict, to the text
  -- `full_value` that the match is in.
  pub find_pii_in_metadata_lem :
      (skip : String → Bool) (fs : Fields)
      → IsDict fs
      → All (IsLocated skip fs) (find_pii_in_metadata finditer skip (some fs))
  unfolding find_pii_in_metadata
  find_pii_in_metadata_lem skip fs h = top-IsLocated skip fs h
