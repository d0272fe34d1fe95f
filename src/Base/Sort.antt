-- ===== src/Base/Sort.antt =====
-- A stable sort by a Boolean order: Python's `sorted` and SQL's ORDER BY.
use Prim.Native.Nat.{ℕ, zero, suc}
use mathlib.Core.Path.{◌≡◌, refl, sym, subst}
use mathlib.Core.Bool.{Bool, true, false}
use mathlib.Core.Logic.{◌⊎◌, inl, inr}
use mathlib.Core.List.{List, [], ◌∷◌}
use aslan_core.Base.Tests.{if◌then◌else◌, Bool-cases}
use aslan_core.Base.Lists.{All, take}

-- Membership, with its place.
abbrev pub In : {A : Type 0} → A → List A → Type 0
In a [] = ⊥
In a (x ∷ xs) = (a ≡ x) ⊎ In a xs

pub All_of_In : {A : Type 0} (P : A → Type 0) (xs : List A) → ((a : A) → In a xs → P a) → All P xs
All_of_In P [] h = tt
All_of_In P (x ∷ xs) h = (h x (inl refl), All_of_In P xs (λ a i. h a (inr i)))

pub All_map :
    {A : Type 0} (P Q : A → Type 0) (xs : List A) → ((a : A) → P a → Q a) → All P xs → All Q xs
All_map P Q [] f h = tt
All_map P Q (x ∷ xs) f h = (f x h.0, All_map P Q xs f h.1)

pub All_map_both :
    {A : Type 0} (P Q R : A → Type 0) (xs : List A)
    → ((a : A) → P a → Q a → R a)
    → All P xs
    → All Q xs
    → All R xs
All_map_both P Q R [] f h k = tt
All_map_both P Q R (x ∷ xs) f h k = (f x h.0 k.0, All_map_both P Q R xs f h.1 k.1)

module _ {A : Type 0} (le : A → A → Bool) where
  unfoldable pub insert_by : A → List A → List A
  insert_by a [] = a ∷ []
  insert_by a (b ∷ xs) = if le a b then a ∷ b ∷ xs else b ∷ insert_by a xs

  unfoldable pub sort_by : List A → List A
  sort_by [] = []
  sort_by (a ∷ xs) = insert_by a (sort_by xs)

  -- Each element is before all that follow it.
  abbrev pub Sorted : List A → Type 0
  Sorted [] = Unit
  Sorted (x ∷ xs) = All (λ y. le x y ≡ true) xs × Sorted xs

  All-insert_by : (P : A → Type 0) (a : A) (xs : List A) → P a → All P xs → All P (insert_by a xs)
  unfolding insert_by
  All-insert_by P a [] p h = (p, tt)
  All-insert_by P a (b ∷ xs) p h = elim (Bool-cases (le a b)) [
    | inl before ↦ rw before (p, h)
    | inr after ↦ rw after (h.0, All-insert_by P a xs p h.1)
  ]

  All-insert_by_inv :
      (P : A → Type 0) (a : A) (xs : List A) → All P (insert_by a xs) → P a × All P xs
  unfolding insert_by
  All-insert_by_inv P a [] h = h
  All-insert_by_inv P a (b ∷ xs) h = elim (Bool-cases (le a b)) [
    | inl before ↦ let g : All P (a ∷ b ∷ xs) = rw before at h in (g.0, g.1)
    | inr after ↦
        let g : All P (b ∷ insert_by a xs) = rw after at h in
        let (p, rest) = All-insert_by_inv P a xs g.1 in (p, (g.0, rest))
  ]

  -- The sorted list has the same elements.
  pub All-sort_by : (P : A → Type 0) (xs : List A) → All P xs → All P (sort_by xs)
  unfolding sort_by
  All-sort_by P [] h = tt
  All-sort_by P (x ∷ xs) h = All-insert_by P x (sort_by xs) h.0 (All-sort_by P xs h.1)

  pub All-sort_by_inv : (P : A → Type 0) (xs : List A) → All P (sort_by xs) → All P xs
  unfolding sort_by
  All-sort_by_inv P [] h = tt
  All-sort_by_inv P (x ∷ xs) h =
      let (p, rest) = All-insert_by_inv P x (sort_by xs) h in (p, All-sort_by_inv P xs rest)

  insert_first : (x : A) (xs : List A) → All (λ y. le x y ≡ true) xs → insert_by x xs ≡ x ∷ xs
  unfolding insert_by
  insert_first x [] h = refl
  insert_first x (y ∷ xs) h = rw (h.0) refl

  -- Sorting a sorted list changes nothing.
  pub sort_by-Sorted : (xs : List A) → Sorted xs → sort_by xs ≡ xs
  unfolding sort_by
  sort_by-Sorted [] h = refl
  sort_by-Sorted (x ∷ xs) h = rw (sort_by-Sorted xs h.1) (insert_first x xs h.0)

  module _ (total : (a b : A) → le a b ≡ false → le b a ≡ true)
      (trans : (a b c : A) → le a b ≡ true → le b c ≡ true → le a c ≡ true) where
    Sorted-insert_by : (a : A) (xs : List A) → Sorted xs → Sorted (insert_by a xs)
    unfolding insert_by
    Sorted-insert_by a [] h = (tt, tt)
    Sorted-insert_by a (b ∷ xs) h = elim (Bool-cases (le a b)) [
      | inl before ↦ rw before (
        (
          before,
          All_map (λ y. le b y ≡ true) (λ y. le a y ≡ true) xs (λ y. trans a b y before) h.0,
        ),
        h,
      )
      | inr after ↦
          rw after (
            All-insert_by (λ y. le b y ≡ true) a xs (total a b after) h.0,
            Sorted-insert_by a xs h.1,
          )
    ]

    pub Sorted-sort_by : (xs : List A) → Sorted (sort_by xs)
    unfolding sort_by
    Sorted-sort_by [] = tt
    Sorted-sort_by (x ∷ xs) = Sorted-insert_by x (sort_by xs) (Sorted-sort_by xs)

pub In_of_All : {A : Type 0} (P : A → Type 0) (a : A) (xs : List A) → All P xs → In a xs → P a
In_of_All P a [] h i = elim i [ ]
In_of_All P a (x ∷ xs) h (inl e) = subst P (sym e) h.0
In_of_All P a (x ∷ xs) h (inr i) = In_of_All P a xs h.1 i

pub In-sort_by :
    {A : Type 0} (le : A → A → Bool) (a : A) (xs : List A) → In a xs → In a (sort_by le xs)
In-sort_by le a xs =
    In_of_All (λ b. In b (sort_by le xs)) a xs
      (All-sort_by_inv le (λ b. In b (sort_by le xs)) xs
        (All_of_In (λ b. In b (sort_by le xs)) (sort_by le xs) (λ b i. i)))

pub Sorted-map :
    {A : Type 0} (le le' : A → A → Bool) (xs : List A)
    → ((a b : A) → le a b ≡ true → le' a b ≡ true)
    → Sorted le xs
    → Sorted le' xs
Sorted-map le le' [] f h = tt
Sorted-map le le' (x ∷ xs) f h =
    (All_map (λ y. le x y ≡ true) (λ y. le' x y ≡ true) xs (f x) h.0, Sorted-map le le' xs f h.1)

-- A relation of pairs that does not mind the order is kept by any sort.
module _ {A : Type 0} (le apart : A → A → Bool)
    (swap : (a b : A) → apart a b ≡ true → apart b a ≡ true) where
  insert_by-apart :
      (a : A) (xs : List A)
      → All (λ x. apart a x ≡ true) xs
      → Sorted apart xs
      → Sorted apart (insert_by le a xs)
  unfolding insert_by
  insert_by-apart a [] h s = (tt, tt)
  insert_by-apart a (x ∷ xs) h s = elim (Bool-cases (le a x)) [
    | inl before ↦ rw before (h, s)
    | inr after ↦ rw after (
      All-insert_by le (λ y. apart x y ≡ true) a xs (swap a x h.0) s.0,
      insert_by-apart a xs h.1 s.1,
    )
  ]

  pub sort_by-apart : (xs : List A) → Sorted apart xs → Sorted apart (sort_by le xs)
  unfolding sort_by
  sort_by-apart [] s = tt
  sort_by-apart (x ∷ xs) s =
      insert_by-apart x (sort_by le xs) (All-sort_by le (λ y. apart x y ≡ true) xs s.0)
        (sort_by-apart xs s.1)

pub All-take : {A : Type 0} (P : A → Type 0) (n : ℕ) (xs : List A) → All P xs → All P (take n xs)
All-take P zero xs h = tt
All-take P (suc n) [] h = tt
All-take P (suc n) (x ∷ xs) h = (h.0, All-take P n xs h.1)

pub Sorted-take :
    {A : Type 0} (le : A → A → Bool) (n : ℕ) (xs : List A) → Sorted le xs → Sorted le (take n xs)
Sorted-take le zero xs s = tt
Sorted-take le (suc n) [] s = tt
Sorted-take le (suc n) (x ∷ xs) s =
    (All-take (λ y. le x y ≡ true) n xs s.0, Sorted-take le n xs s.1)
