-- ===== src/Action.antt =====
-- Methods that change a state and may raise. The state after a raise is the state at the raise:
-- whether it is rolled back is the caller's transaction.
use mathlib.Core.Path.{subst}
use aslan_core.Base.{Bool, true, false, ◌≡◌, refl, ◌⊎◌, inl, inr, if◌then◌else◌}
use aslan_core.Result.{Error, Result, ok, err}

pub data Outcome (S : Type 0) (A : Type 0) : Type 0 where
  done : A → S → Outcome S A
  raised : Error → S → Outcome S A

abbrev pub Action : Type 0 → Type 0 → Type 0
Action S A = S → Outcome S A

module _ {S A : Type 0} where
  abbrev pub pure : A → Action S A
  pure a s = done a s

  abbrev pub raise : Error → Action S A
  raise e s = raised e s

  abbrev pub lift : Result A → Action S A
  lift (ok a) s = done a s
  lift (err e) s = raised e s

  abbrev pub state : Outcome S A → S
  state (done a s) = s
  state (raised e s) = s

module _ {S A B : Type 0} where
  abbrev pub bind : Outcome S A → (A → Action S B) → Outcome S B
  bind (done a s) f = f a s
  bind (raised e s) f = raised e s

  infixl 5 ◌>>=◌ ◌>>◌
  abbrev pub ◌>>=◌ : Action S A → (A → Action S B) → Action S B
  ◌>>=◌ m f s = bind (m s) f

  abbrev pub ◌>>◌ : Action S A → Action S B → Action S B
  m >> k = m >>= λ _. k

module _ {S T A : Type 0} where
  -- The outcome of an action on a part of the state, put back into the whole.
  abbrev pub put_back : (S → T) → Outcome S A → Outcome T A
  put_back f (done a s) = done a (f s)
  put_back f (raised e s) = raised e (f s)

-- A chain that returns: its first step did.
pub bind-eq-done :
    {S A B : Type 0} (o : Outcome S A) (f : A → Action S B) {b : B} {s' : S}
    → bind o f ≡ done b s'
    → (a : A) × (s : S) × (o ≡ done a s) × (f a s ≡ done b s')
bind-eq-done (done a s) f h = (a, s, refl, h)
bind-eq-done (raised e s) f h = absurd (cc)

pub lift-eq-done :
    {S A B : Type 0} (r : Result A) (s : S) (f : A → Action S B) {b : B} {s' : S}
    → bind (lift r s) f ≡ done b s'
    → (a : A) × (r ≡ ok a) × (f a s ≡ done b s')
lift-eq-done (ok a) s f h = (a, refl, h)
lift-eq-done (err e) s f h = absurd (cc)

-- What holds before an action holds after it, whether it returns or raises.
abbrev pub Keeps : {S A : Type 0} → (S → Type 0) → Action S A → Type 0
Keeps {S} Q m = (s : S) → Q s → Q (state (m s))

pub Keeps-bind :
    {S A B : Type 0} (Q : S → Type 0) (m : Action S A) (f : A → Action S B)
    → Keeps Q m
    → ((a : A) → Keeps Q (f a))
    → Keeps Q (m >>= f)
Keeps-bind {S} {A} {B} Q m f km kf s q = after_first (m s) (km s q)
  where
    after_first : (o : Outcome S A) → Q (state o) → Q (state (bind o f))
    after_first (done a s') q' = kf a s' q'
    after_first (raised e s') q' = q'

pub Keeps-done :
    {S A : Type 0} (Q : S → Type 0) (o : Outcome S A) {a : A} {s : S}
    → o ≡ done a s
    → Q (state o)
    → Q s
Keeps-done Q o e q = rw e at q

-- It holds of the result and the state of an outcome that returns.
abbrev pub OnDone : {S A : Type 0} → (A → S → Type 0) → Outcome S A → Type 0
OnDone Q (done a s) = Q a s
OnDone Q (raised e s) = Unit

pub OnDone-done :
    {S A : Type 0} (Q : A → S → Type 0) {a b : A} {s t : S}
    → ◌≡◌ {A = Outcome S A} (done a s) (done b t)
    → Q a s
    → Q b t
OnDone-done Q e q = subst (OnDone Q) e q

pub OnDone-of :
    {S A : Type 0} (Q : A → S → Type 0) (o : Outcome S A)
    → ((a : A) (s : S) → o ≡ done a s → Q a s)
    → OnDone Q o
OnDone-of Q (done a s) k = k a s refl
OnDone-of Q (raised e s) k = tt

pub Keeps-if :
    {S : Type 0} (Q : S → Type 0) (b : Bool) (m : Action S (Unit {0}))
    → Keeps Q m
    → Keeps Q (if b then m else pure tt)
Keeps-if Q true m k = k
Keeps-if Q false m k = λ s q. q

-- It returns, and it holds of the result and the state.
abbrev pub Total : {S A : Type 0} → (A → S → Type 0) → Outcome S A → Type 0
Total Q (done a s) = Q a s
Total Q (raised e s) = ⊥

pub Total-bind :
    {S A B : Type 0} (P : A → S → Type 0) (Q : B → S → Type 0) (o : Outcome S A)
    (f : A → Action S B)
    → Total P o
    → ((a : A) (s : S) → P a s → Total Q (f a s))
    → Total Q (bind o f)
Total-bind P Q (done a s) f t k = k a s t
Total-bind P Q (raised e s) f t k = t

-- An outcome that returns, with its equation.
pub Total-eq-done :
    {S A : Type 0} (P : A → S → Type 0) (o : Outcome S A)
    → Total P o
    → (a : A) × (s : S) × (o ≡ done a s) × P a s
Total-eq-done P (done a s) t = (a, s, refl, t)
Total-eq-done P (raised e s) t = absurd t

pub Total-put_back :
    {S T A : Type 0} (Q : A → T → Type 0) (f : S → T) (o : Outcome S A)
    → Total (λ a s. Q a (f s)) o
    → Total Q (put_back f o)
Total-put_back Q f (done a s) t = t
Total-put_back Q f (raised e s) t = t

pub Total-state :
    {S A B : Type 0} (P : A → S → Type 0) (R : S → Type 0) (o : Outcome S A) (f : A → Action S B)
    → Total P o
    → ((a : A) (s : S) → P a s → R (state (f a s)))
    → R (state (bind o f))
Total-state P R (done a s) f t k = k a s t
Total-state P R (raised e s) f t k = absurd t

pub Total-map :
    {S A : Type 0} (P Q : A → S → Type 0) (o : Outcome S A)
    → ((a : A) (s : S) → P a s → Q a s)
    → Total P o
    → Total Q o
Total-map P Q (done a s) k t = k a s t
Total-map P Q (raised e s) k t = t

-- A chain that raises: its first step did, or what came after it.
pub bind-eq-raised :
    {S A B : Type 0} (o : Outcome S A) (f : A → Action S B) {x : Error} {s' : S}
    → bind o f ≡ raised x s'
    → (o ≡ raised x s') ⊎ ((a : A) × (s : S) × (o ≡ done a s) × (f a s ≡ raised x s'))
bind-eq-raised (done a s) f h = inr (a, s, refl, h)
bind-eq-raised (raised e s) f h = inl cc

pub OnDone-bind :
    {S A B : Type 0} (P : A → S → Type 0) (Q : B → S → Type 0) (o : Outcome S A)
    (f : A → Action S B)
    → OnDone P o
    → ((a : A) (s : S) → P a s → OnDone Q (f a s))
    → OnDone Q (bind o f)
OnDone-bind P Q (done a s) f p k = k a s p
OnDone-bind P Q (raised e s) f p k = tt

pub Keeps-lift : {S A : Type 0} (Q : S → Type 0) (r : Result A) → Keeps Q (lift r)
Keeps-lift Q (ok a) s q = q
Keeps-lift Q (err e) s q = q

pub OnDone-map :
    {S A : Type 0} {P Q : A → S → Type 0} (o : Outcome S A)
    → OnDone P o
    → ((a : A) (s : S) → P a s → Q a s)
    → OnDone Q o
OnDone-map (done a s) p k = k a s p
OnDone-map (raised e s) p k = tt
