-- ===== src/Streams/Producer/Checks.antt =====
-- What `publish_many` checks before its first INSERT, and its audit row.
use aslan_core.Base.{
  String, false, Option, none, some, List, [], ◌∷◌, ◌++◌, ◌≡◌, refl, sym, ap, ◌∙◌, inl, inr,
  Bool-cases,
}
use mathlib.Core.Path.{subst}
use aslan_core.Action.{Outcome, done, raised, lift, bind-eq-done, bind-eq-raised, state}
use aslan_core.Result.{Error, Result, ok, err}
use aslan_core.Audit.Recorder.{AuditRecord, event_of}
use aslan_core.Audit.Attribution.{refused, assert_actor_lem, record_event_lem}
use aslan_core.Streams.Producer.{
  StreamEvent, Publication, Producer, resolve_streams, first_duplicate, with_events, audit_publish,
  assert_actor, reject_duplicate, check_batch,
}

module _ (p : Producer) where
  -- The steps before the first INSERT leave the transaction alone.
  pub reject-raised :
      (o stream : Option String) (s : Publication) {x : Error} {t : Publication}
      → reject_duplicate p o stream s ≡ raised x t
      → t ≡ s
  reject-raised none stream s d = absurd (cc)
  reject-raised (some eid) stream s d =
      sym (ap (λ (o : Outcome Publication (Unit {0})). state {S = Publication} o) d)

  pub reject-done :
      (o stream : Option String) (s : Publication) {u : Unit {0}} {t : Publication}
      → reject_duplicate p o stream s ≡ done u t
      → t ≡ s
  reject-done none stream s d =
      sym (ap (λ (o : Outcome Publication (Unit {0})). state {S = Publication} o) d)
  reject-done (some eid) stream s d = absurd (cc)

  pub state-assert_actor : (s : Publication) → state (assert_actor p s) ≡ s
  unfolding assert_actor
  state-assert_actor s = elim (Bool-cases (refused s.ctx)) [
    | inl barred ↦ rw (assert_actor_lem s.ctx s, barred, state) refl
    | inr fine ↦ rw (assert_actor_lem s.ctx s, fine, state) refl
  ]

  pub assert_actor-done :
      (s : Publication) {u : Unit {0}} {t : Publication}
      → assert_actor p s ≡ done u t
      → (refused s.ctx ≡ false) × (t ≡ s)
  unfolding assert_actor
  assert_actor-done s d = elim (Bool-cases (refused s.ctx)) [
    | inl barred ↦ absurd (cc (rw (assert_actor_lem s.ctx s, barred) at d))
    | inr fine ↦ (
      fine,
      sym (ap (λ (o : Outcome Publication (Unit {0})). state {S = Publication} o) d)
          ∙ state-assert_actor s,
    )
  ]

  pub audit_publish-fine :
      (r : AuditRecord) (s : Publication)
      → refused s.ctx ≡ false
      → audit_publish p r s
        ≡ done tt (with_events p s (s.live.events ++ event_of s.ctx.actor r ∷ []))
  unfolding audit_publish
  audit_publish-fine r s fine = rw (record_event_lem s.ctx r s.live.events, fine) refl

  pub lift-done :
      {A : Type 0} (r : Result A) (s : Publication) {a : A} {t : Publication}
      → ◌≡◌ {A = Outcome Publication A} (lift r s) (done a t)
      → (r ≡ ok a) × (t ≡ s)
  lift-done (ok a) s d = (cc, cc)
  lift-done (err e) s d = absurd (cc)

  pub lift-raised :
      {A : Type 0} (r : Result A) (s : Publication) {x : Error} {t : Publication}
      → ◌≡◌ {A = Outcome Publication A} (lift r s) (raised x t)
      → t ≡ s
  lift-raised {A = A} (ok a) s d = absurd (cc)
  lift-raised {A = A} (err e) s d =
      sym (ap (λ (o : Outcome Publication A). state {S = Publication} o) d)

  pub check_batch-raised :
      (events : List StreamEvent) (stream : Option String) (s : Publication) {x : Error}
      {t : Publication}
      → check_batch p events stream s ≡ raised x t
      → t ≡ s
  unfolding check_batch
  check_batch-raised events stream s d =
      elim (bind-eq-raised (reject_duplicate p (first_duplicate events []) stream s) _ d) [
        | inl first ↦ reject-raised (first_duplicate events []) stream s first
        | inr (u, s1, d1, k1) ↦
            let e1 : s1 ≡ s = reject-done (first_duplicate events []) stream s d1 in
            elim (bind-eq-raised (assert_actor p s1) _ k1) [
              | inl barred ↦
                  sym
                    (ap (λ (o : Outcome Publication (Unit {0})). state {S = Publication} o) barred)
                  ∙ state-assert_actor s1
                  ∙ e1
              | inr (v, s2, d2, k2) ↦
                  lift-raised (resolve_streams events stream) s2 k2
                  ∙ (assert_actor-done s1 d2).1
                  ∙ e1
            ]
      ]

  pub check_batch-done :
      (events : List StreamEvent) (stream : Option String) (s : Publication) {streams : List String}
      {t : Publication}
      → check_batch p events stream s ≡ done streams t
      → (t ≡ s) × (refused s.ctx ≡ false) × (resolve_streams events stream ≡ ok streams)
  unfolding check_batch
  check_batch-done events stream s {streams} {t} d =
      let (u, s1, d1, k1) =
        bind-eq-done (reject_duplicate p (first_duplicate events []) stream s) _ d in
      let (v, s2, d2, k2) = bind-eq-done (assert_actor p s1) _ k1 in
      let e1 : s1 ≡ s = reject-done (first_duplicate events []) stream s d1 in
      let (fine, e2) = assert_actor-done s1 d2 in
      let (r, e3) = lift-done (resolve_streams events stream) s2 k2 in
      (e3 ∙ e2 ∙ e1, subst (λ (w : Publication). refused w.ctx ≡ false) e1 fine, r)
