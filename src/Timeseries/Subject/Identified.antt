-- ===== src/Timeseries/Subject/Identified.antt =====
-- The identifiers that a finding of `find_pii_in_metadata_for_subject` of timeseries/pii.py has to do
-- with, where `x in y` of two strings is a substring.
use Prim.Native.Char.{code}
use text.Mathlib.TextEquality.{Char-path}
use aslan_core.Base.{
  String, Bool, true, ◌||◌, Option, List, [], ◌∷◌, ◌==◌, ==_iff, str_eq, str_eq_iff, ◌≡◌, ◌≢◌, ◌↔◌,
  ◌⊎◌, refl, sym, ap, arith, Bool-cases, inl, inr,
}
use aslan_core.Base.Sort.{In}
use aslan_core.Json.{Fields}
use aslan_core.Timeseries.Pii.{PiiFinding, Match, find_pii_in_metadata}
use aslan_core.Timeseries.Scrub.{join}
use aslan_core.Timeseries.Subject.{
  starts_with, contains, touches, needles_of, find_pii_in_metadata_for_subject, for_subject-touches,
}

-- The haystack is something, then the needle, then something.
abbrev pub Within : String → String → Type 0
Within needle haystack = (pre : String) × (post : String) × (join pre (join needle post) ≡ haystack)

starts_with_iff : (s t : String) → (starts_with s t ≡ true) ↔ ((post : String) × (join t post ≡ s))
unfolding starts_with join
starts_with_iff s String.[] = ((λ h. (s, refl)), λ h. refl)
starts_with_iff String.[] (String.◌∷◌ d t) = ((λ h. absurd (cc)), λ h. absurd (cc (h.1)))
starts_with_iff (String.◌∷◌ c s) (String.◌∷◌ d t) = (
  (λ h.
      let first : (code c == code d) ≡ true = ground (arith, h) in
      let rest : starts_with s t ≡ true = ground (arith, h) in
      let same = Char-path c d ((==_iff (code c) (code d)).0 first) in
      let (post, e) = (starts_with_iff s t).0 rest in (post, rw (e, same) refl)),
  (λ (post, e).
      let tails : join t post ≡ s = cc in
      let heads : d ≡ c = cc in
      let first : (code c == code d) ≡ true = (==_iff (code c) (code d)).1 (sym (ap code heads)) in
      rw first ((starts_with_iff s t).1 (post, tails))),
)

contains_there : (pre post s t : String) → join pre (join t post) ≡ s → contains s t ≡ true
unfolding contains join
contains_there String.[] post String.[] t e = (starts_with_iff String.[] t).1 (post, e)
contains_there String.[] post (String.◌∷◌ c s) t e =
    rw ((starts_with_iff (String.◌∷◌ c s) t).1 (post, e)) refl
contains_there (String.◌∷◌ d pre) post String.[] t e = absurd (cc)
contains_there (String.◌∷◌ d pre) post (String.◌∷◌ c s) t e =
    let below : join pre (join t post) ≡ s = cc in
    let later = contains_there pre post s t below in ground (arith, later)

contains_found : (s t : String) → contains s t ≡ true → Within t s
unfolding contains join
contains_found String.[] t h =
    let (post, e) = (starts_with_iff String.[] t).0 h in (String.[], post, e)
contains_found (String.◌∷◌ c s) t h = elim (Bool-cases (starts_with (String.◌∷◌ c s) t)) [
  | inl here ↦ let (post, e) = (starts_with_iff (String.◌∷◌ c s) t).0 here in (String.[], post, e)
  | inr on ↦
      let (pre, post, e) = contains_found s t (ground (arith, h, on)) in
      (String.◌∷◌ c pre, post, ap (String.◌∷◌ c) e)
]

contains_iff : (s t : String) → (contains s t ≡ true) ↔ Within t s
contains_iff s t = (contains_found s t, λ (pre, post, e). contains_there pre post s t e)

-- The two texts overlap as wholes: one is in the other.
abbrev pub Overlaps : String → String → Type 0
Overlaps s t = Within s t ⊎ Within t s

overlaps_lem : (s t : String) → (contains t s || contains s t ≡ true) ↔ Overlaps s t
overlaps_lem s t = (
  (λ h. elim (Bool-cases (contains t s)) [
    | inl here ↦ inl ((contains_iff t s).0 here)
    | inr missed ↦ inr ((contains_iff s t).0 (ground (arith, h, missed)))
  ]),
  (λ h. elim h [
    | inl w ↦ rw ((contains_iff t s).1 w) refl
    | inr w ↦ let other = (contains_iff s t).1 w in ground (arith, other)
  ]),
)

module _ (finditer : String → String → List Match) (nfc_lower : String → String) where
  -- One of the identifiers, not empty, is in the text or the text is in it, after `nfc_lower`.
  abbrev pub Concerns : List String → String → Type 0
  Concerns identifiers t =
      (s : String) × In s identifiers × (s ≢ "") × Overlaps (nfc_lower s) (nfc_lower t)

  Concerns-later :
      (s : String) (identifiers : List String) (t : String)
      → Concerns identifiers t
      → Concerns (s ∷ identifiers) t
  Concerns-later s identifiers t (u, i, full, o) = (u, inr i, full, o)

  touches_iff :
      (identifiers : List String) (t : String)
      → (touches (nfc_lower t) (needles_of finditer nfc_lower identifiers) ≡ true)
        ↔ Concerns identifiers t
  unfolding touches needles_of
  touches_iff [] t = ((λ h. absurd (cc)), λ (s, i, full, o). elim i [ ])
  touches_iff (s ∷ identifiers) t = elim (Bool-cases (str_eq s "")) [
    | inl blank ↦
        let none : s ≡ "" = (str_eq_iff s "").0 blank in
        rw blank (
          (λ h. Concerns-later s identifiers t ((touches_iff identifiers t).0 h)),
          (λ (u, i, full, o). elim i [
            | inl same ↦ absurd (full (cc))
            | inr later ↦ (touches_iff identifiers t).1 (u, later, full, o)
          ]),
        )
    | inr full ↦ rw full (
      (λ h.
          elim (Bool-cases
            (contains (nfc_lower t) (nfc_lower s) || contains (nfc_lower s) (nfc_lower t))) [
              | inl hit ↦ (
                s,
                inl refl,
                (λ e. absurd (cc ((str_eq_iff s "").1 e, full))),
                (overlaps_lem (nfc_lower s) (nfc_lower t)).0 hit,
              )
              | inr miss ↦
                  Concerns-later s identifiers t
                    ((touches_iff identifiers t).0 (ground (arith, h, miss)))
            ]),
      (λ (u, i, filled, o). elim i [
        | inl same ↦
            let here = (overlaps_lem (nfc_lower s) (nfc_lower t)).1 (rw (same) at (o)) in
            rw here refl
        | inr later ↦
            let rest = (touches_iff identifiers t).1 (u, later, filled, o) in ground (arith, rest)
      ]),
    )
  ]

  -- The findings for a subject are exactly the findings of the sweep for which one of the subject's
  -- identifiers is not empty and, after NFC and casefold of both, is a substring of the matched text,
  -- or has the matched text as a substring.
  pub for_subject_iff :
      (skip : String → Bool) (identifiers : List String) (metadata : Option Fields) (f : PiiFinding)
      → In f (find_pii_in_metadata_for_subject finditer nfc_lower skip identifiers metadata)
        ↔ (In f (find_pii_in_metadata finditer skip metadata) × Concerns identifiers f.matched_text)
  for_subject_iff skip identifiers metadata f =
      let (to, back) = for_subject-touches finditer nfc_lower skip identifiers metadata f in
      (
        (λ i. let (there, hit) = to i in (there, (touches_iff identifiers f.matched_text).0 hit)),
        (λ (there, concerned). back (there, (touches_iff identifiers f.matched_text).1 concerned)),
      )
