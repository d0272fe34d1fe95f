-- ===== src/Streams/Producer/Added.antt =====
-- What `_insert_outbox` adds, one event after the other.
use aslan_core.Base.{
  ℕ, suc, String, true, Option, List, [], ◌∷◌, ◌++◌, ◌≡◌, refl, sym, ap, ◌∙◌, inl, inr, length, map,
  All, arith, Bool-cases,
}
use mathlib.Core.Path.{ap₂}
use mathlib.Core.List.{append-nil, append_assoc}
use aslan_core.Action.{Outcome, done, raised, bind-eq-done, bind-eq-raised, state, OnDone-done}
use aslan_core.Result.{Error, Result, ok, err, ok_inj}
use aslan_core.Streams.Outbox.{OutboxRow, pending}
use aslan_core.Streams.Producer.{
  StreamEvent, Publication, Producer, resolve_stream, resolve_streams, add_stream, outbox_row,
  violates, add_row, insert_outbox, insert_all,
}

module _ (p : Producer) where
  -- One row more for each event, in their order, each waiting to be sent.
  pub record Added (streams : List String) (events : List StreamEvent) (s : Publication)
      (ids : List ℕ) (t : Publication) (rows : List OutboxRow) : Type 0 where
    pub outbox : t.live.outbox ≡ s.live.outbox ++ rows
    pub keys : ids ≡ map (λ (r : OutboxRow). r.outbox_id) rows
    pub event_ids :
        map (λ (r : OutboxRow). r.event_id) rows ≡ map (λ (e : StreamEvent). e.event_id) events
    pub stream_names : map (λ (r : OutboxRow). r.stream_name) rows ≡ streams
    pub waiting : All (λ r. pending r ≡ true) rows
    pub saved : t.saved ≡ s.saved
    pub ctx : t.ctx ≡ s.ctx
    pub audit : t.live.events ≡ s.live.events

  pub insert_outbox-done :
      (event : StreamEvent) (stream : String) (s : Publication) {oid : ℕ} {t : Publication}
      → insert_outbox p event stream s ≡ done oid t
      → (oid ≡ s.next_outbox_id) × (t ≡ add_row p (outbox_row p event stream s) s)
  unfolding insert_outbox
  insert_outbox-done event stream s d = elim (Bool-cases (violates p event s)) [
    | inl bad ↦ absurd (cc (rw bad at d))
    | inr fine ↦
        OnDone-done
          (λ oid t. (oid ≡ s.next_outbox_id) × (t ≡ add_row p (outbox_row p event stream s) s))
          (rw fine at d) (refl, refl)
  ]

  pub insert_outbox-raised :
      (event : StreamEvent) (stream : String) (s : Publication) {x : Error} {t : Publication}
      → insert_outbox p event stream s ≡ raised x t
      → t.live ≡ s.saved
  unfolding insert_outbox
  insert_outbox-raised event stream s d = elim (Bool-cases (violates p event s)) [
    | inl bad ↦
        sym (ap (λ (o : Outcome Publication ℕ). (state {S = Publication} o).live) (rw bad at d))
    | inr fine ↦ absurd (cc (rw fine at d))
  ]

  pub insert_all-Added :
      (streams : List String) (events : List StreamEvent) (s : Publication) {ids : List ℕ}
      {t : Publication}
      → insert_all p streams events s ≡ done ids t
      → (rows : List OutboxRow) × Added streams events s ids t rows
  unfolding insert_all outbox_row pending
  insert_all-Added [] [] s d = (
    [],
    OnDone-done (λ ids t. Added [] [] s ids t []) d
        (record {
          outbox = sym (append-nil s.live.outbox);
          keys = refl;
          event_ids = refl;
          stream_names = refl;
          waiting = tt;
          saved = refl;
          ctx = refl;
          audit = refl;
        }),
  )
  insert_all-Added [] (event ∷ events) s d = absurd (cc)
  insert_all-Added (stream ∷ streams) [] s d = absurd (cc)
  insert_all-Added (stream ∷ streams) (event ∷ events) s {ids} {t} d =
      let (oid, u, d1, k1) = bind-eq-done (insert_outbox p event stream s) _ d in
      let (rest, v, d2, k2) = bind-eq-done (insert_all p streams events u) _ k1 in
      let (key, same) = insert_outbox-done event stream s d1 in
      let (rows, a) = insert_all-Added streams events u d2 in
      let r : OutboxRow = outbox_row p event stream s in
      (
        r ∷ rows,
        OnDone-done (λ ids t. Added (stream ∷ streams) (event ∷ events) s ids t (r ∷ rows)) k2
            (record {
              outbox =
                  a.outbox
                  ∙ ap (λ (w : Publication). w.live.outbox ++ rows) same
                  ∙ append_assoc s.live.outbox (r ∷ []) rows;
              keys = ap₂ (λ (n : ℕ) ns. n ∷ ns) key a.keys;
              event_ids = ap (λ es. event.event_id ∷ es) a.event_ids;
              stream_names = ap (λ ss. stream ∷ ss) a.stream_names;
              waiting = (refl, a.waiting);
              saved = a.saved ∙ ap (λ (w : Publication). w.saved) same;
              ctx = a.ctx ∙ ap (λ (w : Publication). w.ctx) same;
              audit = a.audit ∙ ap (λ (w : Publication). w.live.events) same;
            }),
      )

  pub insert_all-raised :
      (streams : List String) (events : List StreamEvent) (s : Publication) {x : Error}
      {t : Publication}
      → length streams ≡ length events
      → insert_all p streams events s ≡ raised x t
      → t.live ≡ s.saved
  unfolding insert_all
  insert_all-raised [] [] s e d = absurd (cc)
  insert_all-raised [] (event ∷ events) s e d = absurd (omega arith)
  insert_all-raised (stream ∷ streams) [] s e d = absurd (omega arith)
  insert_all-raised (stream ∷ streams) (event ∷ events) s e d =
      elim (bind-eq-raised (insert_outbox p event stream s) _ d) [
        | inl first ↦ insert_outbox-raised event stream s first
        | inr (oid, u, d1, k1) ↦ elim (bind-eq-raised (insert_all p streams events u) _ k1) [
          | inl later ↦
              insert_all-raised streams events u (omega arith) later
              ∙ ap (λ (w : Publication). w.saved) (insert_outbox-done event stream s d1).1
          | inr (ids, v, d2, k2) ↦ absurd (cc)
        ]
      ]

  pub add_stream-ok :
      (first : Result String) (rest : Result (List String)) {streams : List String}
      → add_stream first rest ≡ ok streams
      → (s : String) × (more : List String) × (rest ≡ ok more) × (streams ≡ s ∷ more)
  add_stream-ok (err e) rest d = absurd (cc)
  add_stream-ok (ok s) (err e) d = absurd (cc)
  add_stream-ok (ok s) (ok more) d = (s, more, refl, sym (ok_inj d))

  pub resolve_streams-length :
      (events : List StreamEvent) (stream : Option String) {streams : List String}
      → resolve_streams events stream ≡ ok streams
      → length streams ≡ length events
  unfolding resolve_streams
  resolve_streams-length [] stream e = sym (ap length (ok_inj e))
  resolve_streams-length (event ∷ events) stream e =
      let (s, rest, r, same) =
        add_stream-ok (resolve_stream event stream) (resolve_streams events stream) e in
      ap length same ∙ ap suc (resolve_streams-length events stream r)
