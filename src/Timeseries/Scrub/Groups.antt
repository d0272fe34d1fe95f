-- ===== src/Timeseries/Scrub/Groups.antt =====
-- The groups of sorted findings in `scrub_in_python` of timeseries/pii.py.
use aslan_core.Base.{
  true, false, List, [], ◌∷◌, ◌≡◌, ◌≢◌, refl, sym, ap, ◌∙◌, if◌then◌else◌, Bool-cases, inl, inr,
  All,
}
use aslan_core.Base.Sort.{Sorted, All_map}
use aslan_core.Timeseries.Metadata.{JsonPath}
use aslan_core.Timeseries.Pii.{PiiFinding}
use aslan_core.Timeseries.Scrub.{path_eq, finding_le, attach, groupby}
use aslan_core.Timeseries.Scrub.Order.{path_eq→eq, path_eq_refl, between}

abbrev pub Group : Type 0
Group = PiiFinding × List PiiFinding

-- The findings of a path.
abbrev pub findings_at : JsonPath → List PiiFinding → List PiiFinding
findings_at q [] = []
findings_at q (f ∷ fs) = let rest = findings_at q fs in if path_eq f.path q then f ∷ rest else rest

abbrev pub group_at : JsonPath → List Group → List PiiFinding
group_at q [] = []
group_at q ((f, rest) ∷ groups) =
    let others = group_at q groups in if path_eq f.path q then f ∷ rest else others

abbrev pub Apart : List Group → Type 0
Apart [] = Unit {0}
Apart (g ∷ groups) = All (λ (h : Group). h.0.path ≢ g.0.path) groups × Apart groups

apart→false : (f : PiiFinding) (q : JsonPath) → f.path ≢ q → path_eq f.path q ≡ false
apart→false f q apart = elim (Bool-cases (path_eq f.path q)) [
  | inl equal ↦ absurd (apart (path_eq→eq f.path q equal))
  | inr other ↦ other
]

pub false→apart : (f : PiiFinding) (q : JsonPath) → path_eq f.path q ≡ false → f.path ≢ q
false→apart f q other equal = absurd (cc (other, path_eq_refl f.path, ap (path_eq f.path) equal))

pub group_at-none :
    (q : JsonPath) (groups : List Group)
    → All (λ (h : Group). h.0.path ≢ q) groups
    → group_at q groups ≡ []
group_at-none q [] h = refl
group_at-none q ((f, rest) ∷ groups) h = rw (apart→false f q h.0) (group_at-none q groups h.1)

findings_at-none :
    (q : JsonPath) (fs : List PiiFinding)
    → All (λ (h : PiiFinding). h.path ≢ q) fs
    → findings_at q fs ≡ []
findings_at-none q [] h = refl
findings_at-none q (f ∷ fs) h = rw (apart→false f q h.0) (findings_at-none q fs h.1)

attach-first :
    (g : PiiFinding) (groups : List Group)
    → (rest : List PiiFinding) × (others : List Group) × (attach g groups ≡ (g, rest) ∷ others)
attach-first g [] = ([], [], refl)
attach-first g ((h, hs) ∷ groups) = elim (Bool-cases (path_eq g.path h.path)) [
  | inl equal ↦ (h ∷ hs, groups, rw (attach, equal) refl)
  | inr other ↦ ([], (h, hs) ∷ groups, rw (attach, other) refl)
]

All-attach :
    (P : PiiFinding → Type 0) (f : PiiFinding) (groups : List Group)
    → P f
    → All (λ (g : Group). P g.0) groups
    → All (λ (g : Group). P g.0) (attach f groups)
All-attach P f [] p h = (p, tt)
All-attach P f ((g, rest) ∷ groups) p h = elim (Bool-cases (path_eq f.path g.path)) [
  | inl equal ↦ rw equal (p, h.1)
  | inr other ↦ rw other (p, h)
]

pub All-groupby :
    (P : PiiFinding → Type 0) (fs : List PiiFinding)
    → All P fs
    → All (λ (g : Group). P g.0) (groupby fs)
unfolding groupby
All-groupby P [] h = tt
All-groupby P (f ∷ fs) h = All-attach P f (groupby fs) h.0 (All-groupby P fs h.1)

-- In a sorted list a path does not come again once another has come.
gone :
    (f g : PiiFinding) (fs : List PiiFinding)
    → Sorted finding_le (f ∷ g ∷ fs)
    → path_eq f.path g.path ≡ false
    → All (λ (h : PiiFinding). h.path ≢ f.path) (g ∷ fs)
gone f g fs s other =
    let apart : f.path ≢ g.path = false→apart f g.path other in
    (
      λ e. apart (sym e),
      All_map (λ h. finding_le g h ≡ true) (λ h. h.path ≢ f.path) fs
          (λ h after e. apart (between f g h s.0.0 after (sym e))) s.1.0,
    )

pub group_at-groupby :
    (q : JsonPath) (fs : List PiiFinding)
    → Sorted finding_le fs
    → group_at q (groupby fs) ≡ findings_at q fs
unfolding groupby
group_at-groupby q [] s = refl
group_at-groupby q (f ∷ []) s = refl
group_at-groupby q (f ∷ g ∷ fs) s =
    let (rest, others, first) = attach-first g (groupby fs) in
    let inner : group_at q ((g, rest) ∷ others) ≡ findings_at q (g ∷ fs) =
      ap (group_at q) (sym first) ∙ group_at-groupby q (g ∷ fs) s.1 in
    rw first (elim (Bool-cases (path_eq f.path g.path)) [
      | inl equal ↦
          rw (equal, sym inner, path_eq→eq f.path g.path equal)
            (elim (Bool-cases (path_eq g.path q)) [ inl here ↦ rw here refl | inr on ↦ rw on refl ])
      | inr other ↦ elim (Bool-cases (path_eq f.path q)) [
        | inl here ↦
            let one = path_eq→eq f.path q here in
            let none_left = findings_at-none f.path (g ∷ fs) (gone f g fs s other) in
            rw (other, here)
              (ap (λ x. f ∷ x) (sym (ap (λ p. findings_at p (g ∷ fs)) (sym one) ∙ none_left)))
        | inr on ↦ rw (other, on) inner
      ]
    ])

pub groupby-Apart : (fs : List PiiFinding) → Sorted finding_le fs → Apart (groupby fs)
unfolding groupby
groupby-Apart [] s = tt
groupby-Apart (f ∷ []) s = (tt, tt)
groupby-Apart (f ∷ g ∷ fs) s =
    let (rest, others, first) = attach-first g (groupby fs) in
    let inner : Apart ((g, rest) ∷ others) = rw first at (groupby-Apart (g ∷ fs) s.1) in
    rw first (elim (Bool-cases (path_eq f.path g.path)) [
      | inl equal ↦ rw equal (
        All_map (λ (h : Group). h.0.path ≢ g.path) (λ (h : Group). h.0.path ≢ f.path) others
            (λ h apart e. apart (e ∙ path_eq→eq f.path g.path equal)) inner.0,
        inner.1,
      )
      | inr other ↦
          rw other
            (rw first at (All-groupby (λ h. h.path ≢ f.path) (g ∷ fs) (gone f g fs s other)), inner)
    ])
