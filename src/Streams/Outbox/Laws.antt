-- ===== src/Streams/Outbox/Laws.antt =====
-- What calls outside a transaction and statements keep, and how an UPDATE by key changes the rows.
use mathlib.Core.Path.{subst}
use aslan_core.Base.{ℕ, true, List, [], ◌∷◌, ◌≡◌, refl, sym, ◌∙◌, ◌==◌, inl, inr, All, Bool-cases}
use aslan_core.Base.Sort.{In}
use aslan_core.Action.{Action, Outcome, done, raised, put_back, state, bind, bind-eq-done, Keeps}
use aslan_core.Streams.Reconcile.{Copy, Hub}
use aslan_core.Streams.Outbox.{OutboxRow, World, with_hub, in_hub, update_outbox}

pub state-put_back :
    {S T A : Type 0} (f : S → T) (o : Outcome S A) → state (put_back f o) ≡ f (state o)
state-put_back f (done a s) = refl
state-put_back f (raised e s) = refl

-- Copies that are durable stay so.
abbrev pub Grows : {E : Type 0} → Hub E → Hub E → Type 0
Grows g h = (c : Copy) → In c g.durable → In c h.durable

abbrev pub OnlyGrows : {E A : Type 0} → Action (Hub E) A → Type 0
OnlyGrows {E} m = (h : Hub E) → Grows h (state (m h))

-- A call outside the transaction that returns.
pub in_hub-eq-done :
    {E A : Type 0} (m : Action (Hub E) A) (w : World E) {a : A} {w' : World E}
    → in_hub m w ≡ done a w'
    → (h : Hub E) × (m w.hub ≡ done a h) × (w' ≡ with_hub w h)
in_hub-eq-done {A = A} m w {a} {w'} d = split (m w.hub) refl d
  where
    split :
        (o : Outcome (Hub _) A)
        → m w.hub ≡ o
        → put_back (with_hub w) o ≡ done a w'
        → (h : Hub _) × (m w.hub ≡ done a h) × (w' ≡ with_hub w h)
    split (done b h) e d' = (h, e ∙ cc, cc)
    split (raised x h) e d' = absurd (cc)

-- A chain that starts with such a call and returns.
pub peel :
    {E A B : Type 0} (m : Action (Hub E) A) (f : A → Action (World E) B) (w : World E) {b : B}
    {w' : World E}
    → bind (in_hub m w) f ≡ done b w'
    → (a : A) × (h : Hub E) × (m w.hub ≡ done a h) × (f a (with_hub w h) ≡ done b w')
peel m f w {b} {w'} d =
    let (a, v, d1, d2) = bind-eq-done (in_hub m w) f d in
    let (h, d3, e) = in_hub-eq-done m w d1 in (a, h, d3, subst (λ u. f a u ≡ done b w') e d2)

pub Keeps-in_hub :
    {E A : Type 0} (Q : World E → Type 0) (m : Action (Hub E) A)
    → ((w : World E) → Q w → Q (with_hub w (state (m w.hub))))
    → Keeps Q (in_hub m)
Keeps-in_hub Q m k w q = subst Q (sym (state-put_back (with_hub w) (m w.hub))) (k w q)

pub All-update_outbox :
    (P : OutboxRow → Type 0) (oid : ℕ) (f : OutboxRow → OutboxRow) (rows : List OutboxRow)
    → ((r : OutboxRow) → (r.outbox_id == oid) ≡ true → P r → P (f r))
    → All P rows
    → All P (update_outbox oid f rows)
unfolding update_outbox
All-update_outbox P oid f [] k h = tt
All-update_outbox P oid f (r ∷ rows) k h = elim (Bool-cases (r.outbox_id == oid)) [
  | inl same ↦ rw same (k r same h.0, All-update_outbox P oid f rows k h.1)
  | inr other ↦ rw other (h.0, All-update_outbox P oid f rows k h.1)
]

-- The updated rows by what held of them.
pub All-update_outbox_to :
    (P Q : OutboxRow → Type 0) (oid : ℕ) (f : OutboxRow → OutboxRow) (rows : List OutboxRow)
    → ((r : OutboxRow) → (r.outbox_id == oid) ≡ true → P r → Q (f r))
    → ((r : OutboxRow) → P r → Q r)
    → All P rows
    → All Q (update_outbox oid f rows)
unfolding update_outbox
All-update_outbox_to P Q oid f [] k j h = tt
All-update_outbox_to P Q oid f (r ∷ rows) k j h = elim (Bool-cases (r.outbox_id == oid)) [
  | inl same ↦ rw same (k r same h.0, All-update_outbox_to P Q oid f rows k j h.1)
  | inr other ↦ rw other (j r h.0, All-update_outbox_to P Q oid f rows k j h.1)
]
