-- ===== src/Tests/Scrubs.antt =====
-- `scrub_in_python` at concrete dicts.
use aslan_core.Base.{ℕ, String, true, some, [], ◌∷◌, ◌≡◌, refl, All, arith}
use aslan_core.Base.Sort.{insert_by, sort_by}
use aslan_core.Json.{Json, Fields, null, str, arr, obj, nil, cons, end, field}
use aslan_core.Timeseries.Metadata.{JsonPath, key, index}
use aslan_core.Timeseries.Pii.Tuples.{no_tuples, none_in_items, none_in_fields}
use aslan_core.Timeseries.Pii.{PiiFinding, nth, at_path, set_at_path, set_nth}
use aslan_core.Timeseries.Payload.{put_field, str_le}
use aslan_core.Timeseries.Scrub.{
  join, before, from, elem_le, path_eq, path_le, finding_le, comparable, all_comparable, sortable,
  groupby, splice, splice_all, last_first, scrubbed_text, scrub_groups, scrub_in_python,
}
use aslan_core.Timeseries.Scrub.Groups.{findings_at}
use aslan_core.Timeseries.Scrub.Places.{IsPlaced}
use aslan_core.Timeseries.Scrub.Replaced.{scrub_in_python_lem}
use aslan_core.Timeseries.Scrub.Splice.{replaced, count, scrubbed_text-replaced}

abbrev notes : Fields
notes =
    field "notes" (arr (cons null (cons (str "Ann Lee, Bo Fox") nil)))
      (field "by" (str "a@b.c") end)

abbrev found : JsonPath → String → String → ℕ → ℕ → String → PiiFinding
found path pattern text start stop value = record {
  path = path;
  matched_pattern = pattern;
  matched_text = text;
  span = (start, stop);
  full_value = value;
}

abbrev ann : PiiFinding
ann = found (key "notes" ∷ index 1 ∷ []) "name" "Ann Lee" 0 7 "Ann Lee, Bo Fox"

abbrev bo : PiiFinding
bo = found (key "notes" ∷ index 1 ∷ []) "name" "Bo Fox" 9 15 "Ann Lee, Bo Fox"

abbrev author : PiiFinding
author = found (key "by" ∷ []) "email" "a@b.c" 0 5 "a@b.c"

notes-IsPlaced : All (IsPlaced (obj notes)) (bo ∷ author ∷ ann ∷ [])
unfolding at_path nth
notes-IsPlaced = (
  (key "notes", index 1 ∷ [], refl, refl),
  ((key "by", [], refl, refl), ((key "notes", index 1 ∷ [], refl, refl), tt)),
)

notes-no_tuples : no_tuples (obj notes) ≡ true
unfolding no_tuples none_in_items none_in_fields
notes-no_tuples = refl

scrub_in_python_lem_example :
    (v : Json) × (scrub_in_python notes (bo ∷ author ∷ ann ∷ []) ≡ some v)
    × ((q : JsonPath) (t : String)
        → at_path q (obj notes) ≡ some (str t)
        → at_path q v
          ≡ some (
              str (
                replaced
                  (sort_by last_first (findings_at q (sort_by finding_le (bo ∷ author ∷ ann ∷ []))))
                  (count t)
                  t)))
unfolding count path_eq
scrub_in_python_lem_example =
    scrub_in_python_lem notes (bo ∷ author ∷ ann ∷ []) notes-no_tuples notes-IsPlaced
      ((omega arith, omega arith), ((omega arith, omega arith), ((omega arith, omega arith), tt)))
      ((refl, (refl, tt)), ((refl, tt), (tt, tt)))

scrubs_notes :
    scrub_in_python notes (bo ∷ author ∷ ann ∷ [])
    ≡ some (
        obj (
          field "notes"
            (arr (cons null (cons (str "[REDACTED:Art.17:name], [REDACTED:Art.17:name]") nil)))
            (field "by" (str "[REDACTED:Art.17:email]") end)))
unfolding scrub_in_python scrub_groups scrubbed_text splice_all splice groupby sortable
    all_comparable comparable finding_le path_le path_eq elem_le sort_by insert_by set_at_path
    set_nth nth put_field join before from str_le
scrubs_notes = refl

scrubbed_text-replaced_example :
    scrubbed_text ann (bo ∷ [])
    ≡ replaced (sort_by last_first (ann ∷ bo ∷ [])) (count "Ann Lee, Bo Fox") "Ann Lee, Bo Fox"
unfolding count
scrubbed_text-replaced_example =
    scrubbed_text-replaced ann (bo ∷ [])
      ((omega arith, omega arith), ((omega arith, omega arith), tt)) ((refl, tt), (tt, tt))

-- A name that overlaps an e-mail address: the second step cuts inside the replacement of the first.
overlapping :
    scrubbed_text
      (found (key "by" ∷ []) "name" "John Doe" 0 8 "John Doe@x.com")
      (found (key "by" ∷ []) "email" "Doe@x.com" 5 14 "John Doe@x.com" ∷ [])
    ≡ "[REDACTED:Art.17:name]DACTED:Art.17:email]"
unfolding scrubbed_text splice_all splice sort_by insert_by join before from
overlapping = refl
