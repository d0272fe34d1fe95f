-- ===== src/Timeseries/Subject.antt =====
-- `find_pii_in_metadata_for_subject` of timeseries/pii.py: the findings of one data subject.
pub mod Identified
use Prim.Native.Char.{code}
use aslan_core.Base.{
  String, Bool, true, false, ◌&&◌, ◌||◌, Option, List, [], ◌∷◌, ◌==◌, str_eq, if◌then◌else◌, ◌≡◌,
  ◌↔◌, sym, Bool-cases, inl, inr,
}
use mathlib.Core.Path.{subst}
use aslan_core.Base.Sort.{In}
use aslan_core.Json.{Fields}
use aslan_core.Timeseries.Pii.{PiiFinding, Match, find_pii_in_metadata}

-- `needle in haystack`
unfoldable pub starts_with : String → String → Bool
starts_with s String.[] = true
starts_with String.[] (String.◌∷◌ d t) = false
starts_with (String.◌∷◌ c s) (String.◌∷◌ d t) = code c == code d && starts_with s t

unfoldable pub contains : String → String → Bool
contains String.[] needle = starts_with String.[] needle
contains (String.◌∷◌ c s) needle = starts_with (String.◌∷◌ c s) needle || contains s needle

-- `any(n in haystack or haystack in n for n in needles)`
unfoldable pub touches : String → List String → Bool
touches haystack [] = false
touches haystack (n ∷ needles) =
    (contains haystack n || contains n haystack) || touches haystack needles

-- `nfc_lower` is `_nfc_lower`: NFC of unicodedata, and casefold.
module _ (finditer : String → String → List Match) (nfc_lower : String → String) where
  unfoldable pub needles_of : List String → List String
  needles_of [] = []
  needles_of (s ∷ identifiers) =
      let rest = needles_of identifiers in if str_eq s "" then rest else nfc_lower s ∷ rest

  unfoldable pub matched : List String → List PiiFinding → List PiiFinding
  matched needles [] = []
  matched needles (f ∷ findings) =
      let rest = matched needles findings in
      if touches (nfc_lower f.matched_text) needles then f ∷ rest else rest

  -- The two early returns, and the filter.
  unfoldable pub filtered : List String → List PiiFinding → List PiiFinding
  filtered [] findings = []
  filtered (n ∷ needles) findings = matched (n ∷ needles) findings

  unfoldable pub find_pii_in_metadata_for_subject :
      (String → Bool) → List String → Option Fields → List PiiFinding
  find_pii_in_metadata_for_subject skip [] metadata = []
  find_pii_in_metadata_for_subject skip (s ∷ identifiers) metadata =
      filtered (needles_of (s ∷ identifiers)) (find_pii_in_metadata finditer skip metadata)

  matched_iff :
      (needles : List String) (findings : List PiiFinding) (f : PiiFinding)
      → In f (matched needles findings)
        ↔ (In f findings × (touches (nfc_lower f.matched_text) needles ≡ true))
  unfolding matched
  matched_iff needles [] f = ((λ i. elim i [ ]), λ h. h.0)
  matched_iff needles (g ∷ findings) f =
      elim (Bool-cases (touches (nfc_lower g.matched_text) needles)) [
        | inl hit ↦ rw hit (
          (λ i. elim i [
            | inl same ↦ (
              inl same,
              subst (λ (u : PiiFinding). touches (nfc_lower u.matched_text) needles ≡ true)
                  (sym same) hit,
            )
            | inr later ↦
                let (there, touched) = (matched_iff needles findings f).0 later in
                (inr there, touched)
          ]),
          λ h. elim (h.0) [
            | inl same ↦ inl same
            | inr later ↦ inr ((matched_iff needles findings f).1 (later, h.1))
          ],
        )
        | inr miss ↦ rw miss (
          (λ i.
              let (there, touched) = (matched_iff needles findings f).0 i in (inr there, touched)),
          λ h. elim (h.0) [
            | inl same ↦ absurd (
                cc (
                  miss,
                  subst (λ (u : PiiFinding). touches (nfc_lower u.matched_text) needles ≡ true) same
                      (h.1),
                ))
            | inr later ↦ (matched_iff needles findings f).1 (later, h.1)
          ],
        )
      ]

  filtered_iff :
      (needles : List String) (findings : List PiiFinding) (f : PiiFinding)
      → In f (filtered needles findings)
        ↔ (In f findings × (touches (nfc_lower f.matched_text) needles ≡ true))
  unfolding filtered touches
  filtered_iff [] findings f = ((λ i. elim i [ ]), λ h. absurd (cc (h.1)))
  filtered_iff (n ∷ needles) findings f = matched_iff (n ∷ needles) findings f

  -- In terms of the needles.
  pub for_subject-touches :
      (skip : String → Bool) (identifiers : List String) (metadata : Option Fields) (f : PiiFinding)
      → In f (find_pii_in_metadata_for_subject skip identifiers metadata) ↔ (
          In f (find_pii_in_metadata finditer skip metadata)
          × (touches (nfc_lower f.matched_text) (needles_of identifiers) ≡ true))
  unfolding find_pii_in_metadata_for_subject needles_of touches
  for_subject-touches skip [] metadata f = ((λ i. elim i [ ]), λ h. absurd (cc (h.1)))
  for_subject-touches skip (s ∷ identifiers) metadata f =
      filtered_iff (needles_of (s ∷ identifiers)) (find_pii_in_metadata finditer skip metadata) f
