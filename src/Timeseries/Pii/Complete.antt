-- ===== src/Timeseries/Pii/Complete.antt =====
-- `find_pii_in_metadata` of timeseries/pii.py misses no text.
use mathlib.Core.List.{append-nil, append_assoc}
use mathlib.Core.Path.{subst}
use aslan_core.Base.{
  ℕ, zero, suc, ◌+◌, String, Bool, false, some, List, [], ◌∷◌, ◌++◌, ◌≡◌, sym, arith, str_eq,
  str_eq_iff, Bool-cases, inl, inr, All,
}
use aslan_core.Base.Sort.{In, All_of_In}
use aslan_core.Json.{
  Json, Items, Fields, null, bool, int, float, str, arr, tup, obj, nil, cons, end, field,
}
use aslan_core.Json as J
use aslan_core.Timeseries.Metadata.{PathElem, JsonPath, key, index}
use aslan_core.Timeseries.Pii.{
  PiiFinding, Match, scan_string, walk, walk_list, walk_dict, walk_top, find_pii_in_metadata, nth,
  item, at_path,
}
use aslan_core.Timeseries.Pii.Places.{then_at-some}

In-append_left : {A : Type 0} (a : A) (xs ys : List A) → In a xs → In a (xs ++ ys)
In-append_left a [] ys i = elim i [ ]
In-append_left a (x ∷ xs) ys (inl e) = inl e
In-append_left a (x ∷ xs) ys (inr i) = inr (In-append_left a xs ys i)

In-append_right : {A : Type 0} (a : A) (xs ys : List A) → In a ys → In a (xs ++ ys)
In-append_right a [] ys i = i
In-append_right a (x ∷ xs) ys i = inr (In-append_right a xs ys i)

module _ (finditer : String → String → List Match) where
  In-list :
      (path : JsonPath) (i j : ℕ) (xs : Items) (w : Json) (f : PiiFinding)
      → nth xs j ≡ some w
      → In f (walk finditer (path ++ index (i + j) ∷ []) w)
      → In f (walk_list finditer path i xs)
  unfolding nth walk_list
  In-list path i j nil w f h found = absurd (cc)
  In-list path i zero (cons v rest) w f h found =
      let same : w ≡ v = cc in
      let at_i : i + 0 ≡ i = omega arith in
      In-append_left f (walk finditer (path ++ index i ∷ []) v)
        (walk_list finditer path (i + 1) rest)
        (subst (λ n. In f (walk finditer (path ++ index n ∷ []) v)) at_i
          (subst (λ u. In f (walk finditer (path ++ index (i + 0) ∷ []) u)) same found))
  In-list path i (suc j) (cons v rest) w f h found =
      let shift : i + suc j ≡ i + 1 + j = omega arith in
      In-append_right f (walk finditer (path ++ index i ∷ []) v)
        (walk_list finditer path (i + 1) rest)
        (In-list path (i + 1) j rest w f h
          (subst (λ n. In f (walk finditer (path ++ index n ∷ []) w)) shift found))

  In-dict :
      (path : JsonPath) (k : String) (fs : Fields) (w : Json) (f : PiiFinding)
      → J.get fs k ≡ some w
      → In f (walk finditer (path ++ key k ∷ []) w)
      → In f (walk_dict finditer path fs)
  unfolding walk_dict
  In-dict path k end w f h found = absurd (cc)
  In-dict path k (field j v rest) w f h found = elim (Bool-cases (str_eq j k)) [
    | inl hit ↦
        let here : some v ≡ some w = rw hit at h in
        let same : w ≡ v = cc in
        let named : k ≡ j = sym ((str_eq_iff j k).0 hit) in
        In-append_left f (walk finditer (path ++ key j ∷ []) v) (walk_dict finditer path rest) (
          subst (λ n. In f (walk finditer (path ++ key n ∷ []) v)) named
            (subst (λ u. In f (walk finditer (path ++ key k ∷ []) u)) same found))
    | inr miss ↦
        let there : J.get rest k ≡ some w = rw miss at h in
        In-append_right f (walk finditer (path ++ key j ∷ []) v) (walk_dict finditer path rest)
          (In-dict path k rest w f there found)
  ]

  -- One step down.
  In-item :
      (path : JsonPath) (e : PathElem) (v w : Json) (f : PiiFinding)
      → item v e ≡ some w
      → In f (walk finditer (path ++ e ∷ []) w)
      → In f (walk finditer path v)
  unfolding walk
  In-item path (key k) (obj fs) w f h found = In-dict path k fs w f h found
  In-item path (index i) (arr xs) w f h found =
      In-list path 0 i xs w f h
        (subst (λ n. In f (walk finditer (path ++ index n ∷ []) w)) (omega arith) found)
  In-item path (index i) (obj fs) w f h found = absurd (cc)
  In-item path (key k) (arr xs) w f h found = absurd (cc)
  In-item path (index i) (tup xs) w f h found =
      In-list path 0 i xs w f h
        (subst (λ n. In f (walk finditer (path ++ index n ∷ []) w)) (omega arith) found)
  In-item path (key k) (tup xs) w f h found = absurd (cc)
  In-item path e null w f h found = absurd (cc)
  In-item path e (bool b) w f h found = absurd (cc)
  In-item path e (int n) w f h found = absurd (cc)
  In-item path e (float x) w f h found = absurd (cc)
  In-item path e (str s) w f h found = absurd (cc)

  In-walk :
      (p path : JsonPath) (v : Json) (s : String) (f : PiiFinding)
      → at_path p v ≡ some (str s)
      → In f (scan_string finditer (path ++ p) s)
      → In f (walk finditer path v)
  unfolding at_path walk
  In-walk [] path v s f h found =
      let text : str s ≡ v = cc in
      subst (λ u. In f (walk finditer path u)) text
        (subst (λ q. In f (scan_string finditer q s)) (append-nil path) found)
  In-walk (e ∷ p) path v s f h found =
      let (w, there, deeper) = then_at-some (item v e) (at_path p) (str s) h in
      In-item path e v w f there (
        In-walk p (path ++ e ∷ []) w s f deeper
          (subst (λ q. In f (scan_string finditer q s)) (sym (append_assoc path (e ∷ []) p)) found))

  In-top :
      (skip : String → Bool) (k : String) (fs : Fields) (w : Json) (f : PiiFinding)
      → skip k ≡ false
      → J.get fs k ≡ some w
      → In f (walk finditer (key k ∷ []) w)
      → In f (walk_top finditer skip fs)
  unfolding walk_top
  In-top skip k end w f kept h found = absurd (cc)
  In-top skip k (field j v rest) w f kept h found = elim (Bool-cases (str_eq j k)) [
    | inl hit ↦
        let here : some v ≡ some w = rw hit at h in
        let same : w ≡ v = cc in
        let named : k ≡ j = sym ((str_eq_iff j k).0 hit) in
        let open_j : skip j ≡ false = subst (λ n. skip n ≡ false) named kept in
        rw open_j (
          In-append_left f (walk finditer (key j ∷ []) v) (walk_top finditer skip rest) (
            subst (λ n. In f (walk finditer (key n ∷ []) v)) named
              (subst (λ u. In f (walk finditer (key k ∷ []) u)) same found)))
    | inr miss ↦
        let there : J.get rest k ≡ some w = rw miss at h in
        let later = In-top skip k rest w f kept there found in
        elim (Bool-cases (skip j)) [
          | inl passed ↦ rw passed later
          | inr kept_j ↦
              rw kept_j (
                In-append_right f (walk finditer (key j ∷ []) v) (walk_top finditer skip rest)
                  later)
        ]
  ]

  -- Whatever text a path of the dict leads to, below a top-level key that is not passed over: every
  -- match of either pattern in it is among the findings, with that path.
  pub find_pii_in_metadata_complete :
      (skip : String → Bool) (fs : Fields) (k : String) (p : JsonPath) (s : String)
      → skip k ≡ false
      → at_path (key k ∷ p) (obj fs) ≡ some (str s)
      → All
          (λ f. In f (find_pii_in_metadata finditer skip (some fs)))
          (scan_string finditer (key k ∷ p) s)
  unfolding find_pii_in_metadata at_path
  find_pii_in_metadata_complete skip fs k p s kept h =
      let (w, there, deeper) = then_at-some (J.get fs k) (at_path p) (str s) h in
      All_of_In (λ f. In f (walk_top finditer skip fs)) (scan_string finditer (key k ∷ p) s)
        (λ f i. In-top skip k fs w f kept there (In-walk p (key k ∷ []) w s f deeper i))
