-- ===== src/Streams/Producer/Atomic.antt =====
-- A batch of events is published whole or not at all.
use aslan_core.Base.{
  ℕ, String, true, false, Option, none, some, List, [], ◌∷◌, ◌++◌, ◌≡◌, refl, sym, ap, ◌∙◌, ◌⊎◌,
  inl, inr, length, length-map, map, All, Bool-cases, is_none,
}
use mathlib.Core.Path.{subst, ap₂}
use aslan_core.Action.{done, raised, pure, bind, bind-eq-done, bind-eq-raised, OnDone-done, ◌>>◌}
use aslan_core.Result.{Error, ok}
use aslan_core.Audit.Context.{Actor, Context, current_actor}
use aslan_core.Audit.Recorder.{Event, event_of}
use aslan_core.Audit.Attribution.{refused}
use aslan_core.Streams.Outbox.{OutboxRow, pending}
use aslan_core.Streams.Producer.{
  StreamEvent, Publication, Producer, resolve_streams, stamp, with_actor, with_traceparent,
  audit_publish, insert_all, check_batch, publish_batch, publish_many, publish_many_record,
}
use aslan_core.Streams.Producer.Added.{insert_all-Added, insert_all-raised, resolve_streams-length}
use aslan_core.Streams.Producer.Checks.{audit_publish-fine, check_batch-raised, check_batch-done}

module _ (p : Producer) where
  inserts_raised :
      (events : List StreamEvent) (streams : List String) (s : Publication) {x : Error}
      {t : Publication}
      → refused s.ctx ≡ false
      → length streams ≡ length events
      → bind
          (insert_all p streams events s)
          (λ ids. audit_publish p (publish_many_record p events streams ids) >> pure ids)
        ≡ raised x t
      → t.live ≡ s.saved
  inserts_raised events streams s fine e d =
      elim (bind-eq-raised (insert_all p streams events s) _ d) [
        | inl first ↦ insert_all-raised p streams events s e first
        | inr (ids, u, d1, k1) ↦
            let (rows, a) = insert_all-Added p streams events s d1 in
            let fine' : refused u.ctx ≡ false = subst (λ c. refused c ≡ false) (sym a.ctx) fine in
            absurd (
              cc (
                rw (audit_publish-fine p (publish_many_record p events streams ids) u fine') at k1))
      ]

  -- What `publish_many` stamps and inserts.
  abbrev stamped : List StreamEvent → Publication → List StreamEvent
  stamped events s = map (stamp p (current_actor s.ctx)) events

  publish_batch-raised :
      (events : List StreamEvent) (stream : Option String) (s : Publication) {x : Error}
      {t : Publication}
      → publish_batch p events stream s ≡ raised x t
      → (t ≡ s) ⊎ (t.live ≡ s.saved)
  unfolding publish_batch
  publish_batch-raised events stream s d =
      elim (bind-eq-raised (check_batch p events stream s) _ d) [
        | inl check ↦ inl (check_batch-raised p events stream s check)
        | inr (streams, s1, d1, k1) ↦
            let (e, fine, r) = check_batch-done p events stream s d1 in
            let size : length streams ≡ length (stamped events s1) =
              resolve_streams-length p events stream r
              ∙ sym (length-map events (stamp p (current_actor s1.ctx))) in
            inr (
              inserts_raised (stamped events s1) streams s1
                (subst (λ (w : Publication). refused w.ctx ≡ false) (sym e) fine) size k1
              ∙ ap (λ (w : Publication). w.saved) e)
      ]

  -- A `publish_many` that raises has published nothing: the transaction of the caller is as it was, or
  -- is rolled back to what is committed.
  pub publish_many-raised :
      (events : List StreamEvent) (stream : Option String) (s : Publication) {x : Error}
      {t : Publication}
      → publish_many p events stream s ≡ raised x t
      → (t ≡ s) ⊎ (t.live ≡ s.saved)
  unfolding publish_many
  publish_many-raised [] stream s d = absurd (cc)
  publish_many-raised (event ∷ events) stream s d = publish_batch-raised (event ∷ events) stream s d

  -- What a batch that returns has done.
  pub record Sent (events : List StreamEvent) (s : Publication) (streams : List String)
      (rows : List OutboxRow) (ids : List ℕ) (t : Publication) : Type 0 where
    pub outbox : t.live.outbox ≡ s.live.outbox ++ rows
    pub keys : ids ≡ map (λ (r : OutboxRow). r.outbox_id) rows
    pub stream_names : map (λ (r : OutboxRow). r.stream_name) rows ≡ streams
    pub event_ids :
        map (λ (r : OutboxRow). r.event_id) rows ≡ map (λ (e : StreamEvent). e.event_id) events
    pub waiting : All (λ r. pending r ≡ true) rows
    pub audit :
        t.live.events
        ≡ s.live.events
          ++ event_of s.ctx.actor (publish_many_record p (stamped events s) streams ids) ∷ []
    pub saved : t.saved ≡ s.saved

  with_traceparent-event_id : (e : StreamEvent) → (with_traceparent p e).event_id ≡ e.event_id
  with_traceparent-event_id e = elim (Bool-cases (is_none e.traceparent)) [
    | inl bare ↦ rw bare refl
    | inr carried ↦ rw carried refl
  ]

  with_actor-event_id :
      (actor : Option Actor) (e : StreamEvent) → (with_actor p actor e).event_id ≡ e.event_id
  with_actor-event_id none e = refl
  with_actor-event_id (some a) e = elim (Bool-cases (is_none e.actor_id)) [
    | inl bare ↦ rw bare refl
    | inr named ↦ rw named refl
  ]

  stamp-event_id :
      (actor : Option Actor) (e : StreamEvent) → (stamp p actor e).event_id ≡ e.event_id
  unfolding stamp
  stamp-event_id actor e =
      let owned : StreamEvent = record e { producer_run_id = p.ingestion_run_id } in
      with_traceparent-event_id (with_actor p actor owned) ∙ with_actor-event_id actor owned

  map-stamp :
      (actor : Option Actor) (events : List StreamEvent)
      → map (λ (e : StreamEvent). e.event_id) (map (stamp p actor) events)
        ≡ map (λ (e : StreamEvent). e.event_id) events
  map-stamp actor [] = refl
  map-stamp actor (e ∷ events) =
      ap₂ (λ (x : String) xs. x ∷ xs) (stamp-event_id actor e) (map-stamp actor events)

  -- A `publish_many` of some events that returns has added one waiting row for each, in their order,
  -- under the keys that it returns, with the stream that is resolved for it, and one audit row, with
  -- the actor of the call; what is committed is as before.
  pub publish_many_lem :
      (event : StreamEvent) (events : List StreamEvent) (stream : Option String) (s : Publication)
      {ids : List ℕ} {t : Publication}
      → publish_many p (event ∷ events) stream s ≡ done ids t
      → (streams : List String) × (rows : List OutboxRow) × (resolve_streams (event ∷ events) stream
          ≡ ok streams)
        × Sent (event ∷ events) s streams rows ids t
  unfolding publish_many publish_batch
  publish_many_lem event events stream s {ids} {t} d =
      let all : List StreamEvent = event ∷ events in
      let (streams, s1, d1, k1) = bind-eq-done (check_batch p all stream s) _ d in
      let (e, fine, r) = check_batch-done p all stream s d1 in
      let k =
        subst
          (λ (w : Publication).
            bind (insert_all p streams (stamped all w) w) (λ ids.
              audit_publish p (publish_many_record p (stamped all w) streams ids) >> pure ids)
            ≡ done ids t)
          e k1 in
      let (ids', u, d2, k2) = bind-eq-done (insert_all p streams (stamped all s) s) _ k in
      let (rows, a) = insert_all-Added p streams (stamped all s) s d2 in
      let rec = publish_many_record p (stamped all s) streams ids' in
      let fine' : refused u.ctx ≡ false = subst (λ c. refused c ≡ false) (sym a.ctx) fine in
      (
        streams,
        rows,
        r,
        OnDone-done (λ ids t. Sent all s streams rows ids t)
            (rw (audit_publish-fine p rec u fine') at k2)
            (record {
              outbox = a.outbox;
              keys = a.keys;
              stream_names = a.stream_names;
              event_ids = a.event_ids ∙ map-stamp (current_actor s.ctx) all;
              waiting = a.waiting;
              audit =
                  ap₂ (λ (xs : List Event) (c : Context). xs ++ event_of c.actor rec ∷ []) a.audit
                    a.ctx;
              saved = a.saved;
            }),
      )
