-- ===== src/Streams/Reconcile/Copies.antt =====
-- The insertion into `streams.event_id_to_redis`.
use aslan_core.Base.{
  Bool, true, ◌&&◌, List, [], ◌∷◌, ◌++◌, ◌≡◌, refl, sym, inl, inr, ◌==◌, ==_iff, str_eq, str_eq_iff,
  Bool-cases, &&-parts,
}
use aslan_core.Base.Sort.{In}
use aslan_core.Streams.Reconcile.{Copy, copy_eq, has_copy, insert_copy}

copy_eq-eq : (a b : Copy) → copy_eq a b ≡ true → a ≡ b
unfolding copy_eq
copy_eq-eq a b h = λ i. record {
  event_id = event i;
  stream_name = stream i;
  rid = record { ms = ms i; seq = seq i };
}
  where
    -- The tests of the three columns.
    stream_test : Bool
    stream_test = str_eq a.stream_name b.stream_name

    rid_test : Bool
    rid_test = a.rid.ms == b.rid.ms && a.rid.seq == b.rid.seq

    outer : (str_eq a.event_id b.event_id ≡ true) × ((stream_test && rid_test) ≡ true)
    outer = &&-parts _ _ h

    inner : (stream_test ≡ true) × (rid_test ≡ true)
    inner = &&-parts _ _ outer.1

    halves : ((a.rid.ms == b.rid.ms) ≡ true) × ((a.rid.seq == b.rid.seq) ≡ true)
    halves = &&-parts _ _ inner.1

    event : a.event_id ≡ b.event_id
    event = (str_eq_iff _ _).0 outer.0

    stream : a.stream_name ≡ b.stream_name
    stream = (str_eq_iff _ _).0 inner.0

    ms : a.rid.ms ≡ b.rid.ms
    ms = (==_iff _ _).0 halves.0

    seq : a.rid.seq ≡ b.rid.seq
    seq = (==_iff _ _).0 halves.1

has_copy-In : (c : Copy) (copies : List Copy) → has_copy c copies ≡ true → In c copies
unfolding has_copy
has_copy-In c [] h = cc
has_copy-In c (d ∷ copies) h = elim (Bool-cases (copy_eq d c)) [
  | inl same ↦ inl (sym (copy_eq-eq d c same))
  | inr other ↦ inr (has_copy-In c copies (rw other at h))
]

In-append : {A : Type 0} (a b : A) (xs : List A) → In a xs → In a (xs ++ b ∷ [])
In-append a b [] i = elim i [ ]
In-append a b (x ∷ xs) (inl e) = inl e
In-append a b (x ∷ xs) (inr i) = inr (In-append a b xs i)

In-last : {A : Type 0} (a : A) (xs : List A) → In a (xs ++ a ∷ [])
In-last a [] = inl refl
In-last a (x ∷ xs) = inr (In-last a xs)

-- The insertion: the row is there, and so is every row that was.
pub In-insert_copy : (c : Copy) (copies : List Copy) → In c (insert_copy c copies)
unfolding insert_copy
In-insert_copy c copies = elim (Bool-cases (has_copy c copies)) [
  | inl there ↦ rw there (has_copy-In c copies there)
  | inr absent ↦ rw absent (In-last c copies)
]

pub insert_copy-keeps :
    (c d : Copy) (copies : List Copy) → In d copies → In d (insert_copy c copies)
unfolding insert_copy
insert_copy-keeps c d copies i = elim (Bool-cases (has_copy c copies)) [
  | inl there ↦ rw there i
  | inr absent ↦ rw absent (In-append d c copies i)
]
