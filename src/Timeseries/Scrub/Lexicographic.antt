-- ===== src/Timeseries/Scrub/Lexicographic.antt =====
-- Total orders given by Boolean tests, and the lexicographic step from one to the next.
use mathlib.Core.Path.{subst}
use aslan_core.Base.{Bool, true, false, ◌≡◌, sym, ap, if◌then◌else◌, Bool-cases, inl, inr}

pub record IsOrder {A : Type 0} (eq le : A → A → Bool) : Type 0 where
  pub same : (a b : A) → eq a b ≡ true → a ≡ b
  pub own : (a : A) → eq a a ≡ true
  pub total : (a b : A) → le a b ≡ false → le b a ≡ true
  pub trans : (a b c : A) → le a b ≡ true → le b c ≡ true → le a c ≡ true
  pub antisym : (a b : A) → le a b ≡ true → le b a ≡ true → a ≡ b

-- The lexicographic step: by `a` and `b` where they differ, else by what comes after them.
module _ {A : Type 0} (eq le : A → A → Bool) (order : IsOrder eq le) where
  abbrev pub then_by : A → A → Bool → Bool
  then_by a b after = if eq a b then after else le a b

  eq-sym : (a b : A) → eq a b ≡ false → eq b a ≡ false
  eq-sym a b apart = elim (Bool-cases (eq b a)) [
    | inr other ↦ other
    | inl equal ↦
        let e = order.same b a equal in
        absurd (cc (order.own a, subst (λ x. eq a x ≡ false) e apart))
  ]

  pub then_by-total :
      (a b : A) (ab ba : Bool)
      → (ab ≡ false → ba ≡ true)
      → then_by a b ab ≡ false
      → then_by b a ba ≡ true
  then_by-total a b ab ba after h = elim (Bool-cases (eq a b)) [
    | inl equal ↦
        let e = order.same a b equal in
        let back : eq b a ≡ true = subst (λ x. eq x a ≡ true) e (order.own a) in
        rw back (after (rw equal at h))
    | inr other ↦ let back = eq-sym a b other in rw back (order.total a b (rw other at h))
  ]

  pub then_by_trans :
      (a b c : A) (ab bc ac : Bool)
      → (ab ≡ true → bc ≡ true → ac ≡ true)
      → then_by a b ab ≡ true
      → then_by b c bc ≡ true
      → then_by a c ac ≡ true
  then_by_trans a b c ab bc ac after h k = elim (Bool-cases (eq a b)) [
    | inl equal ↦
        let e = sym (order.same a b equal) in
        let k' : then_by a c bc ≡ true = subst (λ x. then_by x c bc ≡ true) e k in
        let first : ab ≡ true = rw equal at h in
        elim (Bool-cases (eq a c)) [
          | inl all_equal ↦ rw all_equal (after first (rw all_equal at k'))
          | inr other ↦ let le_ac : le a c ≡ true = rw other at k' in rw other le_ac
        ]
    | inr apart ↦
        let le_ab : le a b ≡ true = rw apart at h in
        elim (Bool-cases (eq b c)) [
          | inl equal ↦
              let e = order.same b c equal in
              let apart' : eq a c ≡ false = subst (λ x. eq a x ≡ false) e apart in
              rw apart' (subst (λ x. le a x ≡ true) e le_ab)
          | inr apart_bc ↦
              let le_bc : le b c ≡ true = rw apart_bc at k in
              elim (Bool-cases (eq a c)) [
                | inr other ↦ rw other (order.trans a b c le_ab le_bc)
                | inl equal ↦
                    let e = order.same a c equal in
                    let le_ba : le b a ≡ true = subst (λ x. le b x ≡ true) (sym e) le_bc in
                    let one = order.antisym a b le_ab le_ba in
                    absurd (cc (apart, order.own a, ap (eq a) one))
              ]
        ]
  ]

  pub then_by-antisym :
      (a b : A) (ab ba : Bool)
      → then_by a b ab ≡ true
      → then_by b a ba ≡ true
      → (a ≡ b) × (ab ≡ true) × (ba ≡ true)
  then_by-antisym a b ab ba h k = elim (Bool-cases (eq a b)) [
    | inl equal ↦
        let e = order.same a b equal in
        let back : eq b a ≡ true = subst (λ x. eq x a ≡ true) e (order.own a) in
        (e, rw equal at h, rw back at k)
    | inr apart ↦
        let back = eq-sym a b apart in
        let e = order.antisym a b (rw apart at h) (rw back at k) in
        absurd (cc (apart, order.own a, ap (eq a) e))
  ]
