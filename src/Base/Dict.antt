-- ===== src/Base/Dict.antt =====
-- A Python `dict` with text keys: its items in the order of their first insertion.
use Prim.Native.String.{String}
use mathlib.Core.Path.{◌≡◌, refl}
use mathlib.Core.Option.{Option, none, some}
use mathlib.Core.List.{List, [], ◌∷◌}
use native.Mathlib.Omega.{arith}
use text.Mathlib.Text.{◌==◌ as str_eq}
use text.Mathlib.TextEquality.{eq_iff}
use aslan_core.Base.Tests.{if◌then◌else◌}

module _ {ℓ} {V : Type ℓ} where
  -- `d.get(k)`
  unfoldable pub lookup : String → List (String × V) → Option V
  lookup k [] = none
  lookup k ((j, v) ∷ d) = if str_eq j k then some v else lookup k d

  -- `d[k] = v`
  unfoldable pub put : String → V → List (String × V) → List (String × V)
  put k v [] = (k, v) ∷ []
  put k v ((j, w) ∷ d) = if str_eq j k then (j, v) ∷ d else (j, w) ∷ put k v d

  pub lookup-put :
      (k j : String) (v : V) (d : List (String × V))
      → lookup j (put k v d) ≡ (if str_eq k j then some v else lookup j d)
  unfolding lookup put
  lookup-put k j v [] = refl
  lookup-put k j v ((i, w) ∷ d) =
      ground (arith, eq_iff k j, eq_iff i k, eq_iff i j, lookup-put k j v d)

  put_all : List (String × V) → List (String × V) → List (String × V)
  put_all d [] = d
  put_all d ((k, v) ∷ items) = put_all (put k v d) items

  -- `{k: v for k, v in items}`
  unfoldable pub dict_of : List (String × V) → List (String × V)
  unfolding put_all
  dict_of items = put_all [] items

  -- The items with the key, last first: what the comprehension leaves at the key.
  unfoldable pub last_of : String → List (String × V) → Option V
  last_of k [] = none
  last_of k ((j, v) ∷ items) = elim (last_of k items) [
    | some w ↦ some w
    | none ↦ if str_eq j k then some v else none
  ]

  lookup-put_all :
      (k : String) (d items : List (String × V))
      → lookup k (put_all d items) ≡ elim (last_of k items) [ some w ↦ some w | none ↦ lookup k d ]
  unfolding put_all last_of
  lookup-put_all k d [] = refl
  lookup-put_all k d ((j, v) ∷ items) =
      ground (arith, lookup-put_all k (put j v d) items, lookup-put j k v d)

  pub lookup-dict_of :
      (k : String) (items : List (String × V)) → lookup k (dict_of items) ≡ last_of k items
  unfolding dict_of lookup
  lookup-dict_of k items = ground (arith, lookup-put_all k [] items)
