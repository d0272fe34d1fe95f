-- ===== src/Timeseries/Catalog/Laws.antt =====
-- What a select of the catalog reads after each statement.
use mathlib.Core.Path.{subst}
use aslan_core.Base.{
  ap, ℕ, ◌<◌, String, true, false, none, some, List, [], ◌∷◌, ◌++◌, ◌≡◌, refl, sym, ◌∙◌, ◌≢◌, ◌||◌,
  inl, inr, str_eq, str_eq_iff, str_eq_refl, ◌==◌, ==_iff, All, All-append, Bool-cases, arith,
}
use aslan_core.Base.Sort.{All_map}
use aslan_core.Timeseries.Catalog.{
  CatalogRow, SubjectRef, SubjectRow, Catalog, find_series, update_series, is_subject, has_subject,
  insert_subject,
}

-- An UPDATE that keeps the codes: what is found is what was found, changed.
pub find_series-update_series :
    (code : String) (f : CatalogRow → CatalogRow) (series : List CatalogRow) {r : CatalogRow}
    → ((q : CatalogRow) → (f q).series_code ≡ q.series_code)
    → find_series code series ≡ some r
    → find_series code (update_series r.series_id f series) ≡ some (f r)
unfolding find_series update_series
find_series-update_series code f [] same e = absurd (cc)
find_series-update_series code f (q ∷ series) {r} same e =
    elim (Bool-cases (str_eq q.series_code code)) [
      | inl here ↦
          let e' : some q ≡ some r = rw here at e in
          let is_q : q ≡ r = cc in
          let own : (q.series_id == r.series_id) ≡ true =
            subst (λ (z : CatalogRow). (q.series_id == z.series_id) ≡ true) is_q
              ((==_iff q.series_id q.series_id).1 refl) in
          let kept : str_eq (f q).series_code code ≡ true = rw (same q) here in
          rw (own, kept) (ap (λ (z : CatalogRow). some (f z)) is_q)
      | inr other ↦ elim (Bool-cases (q.series_id == r.series_id)) [
        | inl own ↦
            let kept : str_eq (f q).series_code code ≡ false = rw (same q) other in
            rw (own, kept) (find_series-update_series code f series same (rw other at e))
        | inr own ↦ rw (own, other) (find_series-update_series code f series same (rw other at e))
      ]
    ]

pub find_series-append :
    (code : String) (series : List CatalogRow) (r : CatalogRow)
    → r.series_code ≡ code
    → find_series code series ≡ none
    → find_series code (series ++ r ∷ []) ≡ some r
unfolding find_series
find_series-append code [] r own e = rw ((str_eq_iff r.series_code code).1 own) refl
find_series-append code (q ∷ series) r own e = elim (Bool-cases (str_eq q.series_code code)) [
  | inl here ↦ let e' : some q ≡ none = rw here at e in absurd (cc)
  | inr other ↦ rw other (find_series-append code series r own (rw other at e))
]

pub All-find_series :
    (P : CatalogRow → Type 0) (code : String) (series : List CatalogRow) {r : CatalogRow}
    → All P series
    → find_series code series ≡ some r
    → P r × (r.series_code ≡ code)
unfolding find_series
All-find_series P code [] h e = absurd (cc)
All-find_series P code (q ∷ series) {r} h e = elim (Bool-cases (str_eq q.series_code code)) [
  | inl here ↦
      let e' : some q ≡ some r = rw here at e in
      let is_q : q ≡ r = cc in
      subst (λ z. P z × (z.series_code ≡ code)) is_q (h.0, (str_eq_iff q.series_code code).0 here)
  | inr other ↦ All-find_series P code series h.1 (rw other at e)
]

pub All-none_found :
    (code : String) (series : List CatalogRow)
    → find_series code series ≡ none
    → All (λ q. q.series_code ≢ code) series
unfolding find_series
All-none_found code [] e = tt
All-none_found code (q ∷ series) e = elim (Bool-cases (str_eq q.series_code code)) [
  | inl here ↦ let e' : some q ≡ none = rw here at e in absurd (cc)
  | inr other ↦ (
    λ same. let here = (str_eq_iff q.series_code code).1 same in cc,
    All-none_found code series (rw other at e),
  )
]

pub All-update_series :
    (P : CatalogRow → Type 0) (sid : ℕ) (f : CatalogRow → CatalogRow) (series : List CatalogRow)
    → ((q : CatalogRow) → q.series_id ≡ sid → P q → P (f q))
    → All P series
    → All P (update_series sid f series)
unfolding update_series
All-update_series P sid f [] k h = tt
All-update_series P sid f (q ∷ series) k h = elim (Bool-cases (q.series_id == sid)) [
  | inl own ↦
      rw own (k q ((==_iff q.series_id sid).0 own) h.0, All-update_series P sid f series k h.1)
  | inr other ↦ rw other (h.0, All-update_series P sid f series k h.1)
]

-- No two rows have a code or an id in common.
abbrev pub Apart : CatalogRow → CatalogRow → Type 0
Apart a b = (a.series_code ≢ b.series_code) × (a.series_id ≢ b.series_id)

abbrev pub Distinct : List CatalogRow → Type 0
Distinct [] = Unit {0}
Distinct (r ∷ series) = All (Apart r) series × Distinct series

pub record IsKeyed (w : Catalog) : Type 0 where
  pub given_out : All (λ r. r.series_id < w.next_series_id) w.series
  pub distinct : Distinct w.series

-- The keys of a row do not change.
abbrev pub KeepsKeys : (CatalogRow → CatalogRow) → Type 0
KeepsKeys f =
    (q : CatalogRow) → ((f q).series_code ≡ q.series_code) × ((f q).series_id ≡ q.series_id)

Apart-update_series :
    (sid : ℕ) (f : CatalogRow → CatalogRow) (p q : CatalogRow) (series : List CatalogRow)
    → KeepsKeys f
    → p.series_code ≡ q.series_code
    → p.series_id ≡ q.series_id
    → All (Apart q) series
    → All (Apart p) (update_series sid f series)
Apart-update_series sid f p q series same c i d =
    All-update_series (Apart p) sid f series
      (λ z own a.
        let (same_code, same_id) = same z in (λ e. a.0 (e ∙ same_code), λ e. a.1 (e ∙ same_id)))
      (All_map (Apart q) (Apart p) series (λ z a. (λ e. a.0 (sym c ∙ e), λ e. a.1 (sym i ∙ e))) d)

pub Distinct-update_series :
    (sid : ℕ) (f : CatalogRow → CatalogRow) (series : List CatalogRow)
    → KeepsKeys f
    → Distinct series
    → Distinct (update_series sid f series)
unfolding update_series
Distinct-update_series sid f [] same d = tt
Distinct-update_series sid f (q ∷ series) same d =
    let rest = Distinct-update_series sid f series same d.1 in
    elim (Bool-cases (q.series_id == sid)) [
      | inl own ↦
          rw own (Apart-update_series sid f (f q) q series same (same q).0 (same q).1 d.0, rest)
      | inr other ↦ rw other (Apart-update_series sid f q q series same refl refl d.0, rest)
    ]

pub Distinct-append :
    (series : List CatalogRow) (r : CatalogRow)
    → Distinct series
    → All (λ q. Apart q r) series
    → Distinct (series ++ r ∷ [])
Distinct-append [] r d a = (tt, tt)
Distinct-append (q ∷ series) r d a =
    (All-append (Apart q) series (r ∷ []) d.0 (a.0, tt), Distinct-append series r d.1 a.1)

has_subject-append :
    (sid : ℕ) (s : SubjectRef) (rows : List SubjectRow) (n : SubjectRow)
    → has_subject sid s (rows ++ n ∷ []) ≡ has_subject sid s rows || is_subject sid s n
unfolding has_subject
has_subject-append sid s [] n = ground arith
has_subject-append sid s (r ∷ rows) n = elim (Bool-cases (is_subject sid s r)) [
  | inl here ↦ rw here refl
  | inr other ↦ rw other (has_subject-append sid s rows n)
]

-- What was there stays, and the row is there.
pub has_subject-insert_subject :
    (sid : ℕ) (s : SubjectRef) (n : SubjectRow) (rows : List SubjectRow)
    → has_subject sid s rows ≡ true
    → has_subject sid s (insert_subject n rows) ≡ true
unfolding insert_subject
has_subject-insert_subject sid s n rows h =
    elim (Bool-cases (has_subject n.series_id n.subject rows)) [
      | inl there ↦ rw there h
      | inr missing ↦ rw (missing, has_subject-append sid s rows n, h) refl
    ]

pub insert_subject-has_subject :
    (n : SubjectRow) (rows : List SubjectRow)
    → has_subject n.series_id n.subject (insert_subject n rows) ≡ true
unfolding insert_subject is_subject
insert_subject-has_subject n rows = elim (Bool-cases (has_subject n.series_id n.subject rows)) [
  | inl there ↦ rw there there
  | inr missing ↦
      rw
        (
          missing,
          has_subject-append n.series_id n.subject rows n,
          missing,
          (==_iff n.series_id n.series_id).1 refl,
          str_eq_refl n.subject.subject_id,
          str_eq_refl n.subject.role,
        )
        refl
]
