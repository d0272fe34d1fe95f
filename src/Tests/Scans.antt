-- ===== src/Tests/Scans.antt =====
-- The walker for PII at a concrete dict.
use aslan_core.Base.{String, Bool, some, List, [], ◌∷◌, ◌≡◌, ◌↔◌, ◌≢◌, refl, All, str_eq}
use aslan_core.Base.Sort.{In}
use aslan_core.Json.{Json, Fields, str, arr, obj, nil, cons, end, field, null}
use aslan_core.Timeseries.Metadata.{key, index}
use aslan_core.Timeseries.Pii.{
  PiiFinding, Match, scan_string, find_pii_in_metadata, at_path, set_at_path, nth, set_nth,
}
use aslan_core.Timeseries.Payload.{put_field}
use aslan_core.Timeseries.Subject.{find_pii_in_metadata_for_subject}
use aslan_core.Timeseries.Subject.Identified.{Concerns, for_subject_iff}
use aslan_core.Timeseries.Pii.Findings.{IsDict, IsLocated, find_pii_in_metadata_lem}
use aslan_core.Timeseries.Pii.Complete.{find_pii_in_metadata_complete}

-- One match, of the whole text.
abbrev finditer : String → String → List Match
finditer pattern s = record { start = 0; stop = 3; group = s } ∷ []

abbrev skip : String → Bool
skip k = str_eq k "subjects"

abbrev notes : Json
notes = arr (cons null (cons (str "a@b") nil))

abbrev metadata : Fields
metadata = field "subjects" (str "c@d") (field "notes" notes end)

metadata-IsDict : IsDict metadata
unfolding IsDict
metadata-IsDict = (refl, tt, (refl, (tt, (tt, tt)), tt))

reaches : at_path (key "notes" ∷ index 1 ∷ []) (obj metadata) ≡ some (str "a@b")
unfolding at_path nth
reaches = refl

find_pii_in_metadata_lem_example :
    All (IsLocated finditer skip metadata) (find_pii_in_metadata finditer skip (some metadata))
find_pii_in_metadata_lem_example = find_pii_in_metadata_lem finditer skip metadata metadata-IsDict

find_pii_in_metadata_complete_example :
    All
      (λ f. In f (find_pii_in_metadata finditer skip (some metadata)))
      (scan_string finditer (key "notes" ∷ index 1 ∷ []) "a@b")
find_pii_in_metadata_complete_example =
    find_pii_in_metadata_complete finditer skip metadata "notes" (index 1 ∷ []) "a@b" refl reaches

abbrev redacted : Json
redacted = obj (
    field "subjects" (str "c@d")
      (field "notes" (arr (cons null (cons (str "[REDACTED]") nil))) end))

reaches_subjects : at_path (key "subjects" ∷ []) (obj metadata) ≡ some (str "c@d")
unfolding at_path
reaches_subjects = refl

redaction :
    set_at_path (key "notes" ∷ index 1 ∷ []) (str "[REDACTED]") (obj metadata) ≡ some redacted
unfolding set_at_path nth set_nth put_field
redaction = refl

apart : key "notes" ∷ index 1 ∷ [] ≢ key "subjects" ∷ []
apart e = absurd (cc)

abbrev hit : PiiFinding
hit = record {
  path = key "notes" ∷ index 1 ∷ [];
  matched_pattern = "email";
  matched_text = "a@b";
  span = (0, 3);
  full_value = "a@b";
}

for_subject_iff_example :
    In hit (find_pii_in_metadata_for_subject finditer (λ s. s) skip ("a@b" ∷ []) (some metadata))
    ↔ (In hit (find_pii_in_metadata finditer skip (some metadata))
        × Concerns finditer (λ s. s) ("a@b" ∷ []) "a@b")
for_subject_iff_example = for_subject_iff finditer (λ s. s) skip ("a@b" ∷ []) (some metadata) hit
