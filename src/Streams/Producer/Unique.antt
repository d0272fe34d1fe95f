-- ===== src/Streams/Producer/Unique.antt =====
-- The keys of the outbox and the event ids in it stay distinct.
use aslan_core.Base.{
  ℕ, suc, ◌<◌, String, Bool, true, false, not, ◌||◌, Option, none, some, List, [], ◌∷◌, ◌++◌, ◌≡◌,
  refl, sym, str_eq, All, All-append, arith, Bool-cases, inl, inr, map,
}
use mathlib.Core.Path.{subst}
use aslan_core.Base.Sort.{Sorted, All_map}
use aslan_core.Action.{lift, state, Keeps, Keeps-bind}
use aslan_core.Result.{Result, ok, err}
use aslan_core.Audit.Context.{current_actor}
use aslan_core.Audit.Recorder.{AuditRecord, record_event}
use aslan_core.Audit.Attribution.{refused, assert_actor_lem}
use aslan_core.Streams.Outbox.{OutboxRow}
use aslan_core.Streams.Outbox.Laws.{state-put_back}
use aslan_core.Streams.Outbox.Selected.{apart, HasKey}
use aslan_core.Streams.Producer.{
  StreamEvent, Publication, Producer, resolve_stream, resolve_streams, first_duplicate, has_event,
  stamp, outbox_row, violates, insert_outbox, with_events, audit_publish, assert_actor, publish,
  insert_all, reject_duplicate, check_batch, publish_batch, publish_many, publish_record,
  publish_many_record,
}

abbrev other_event : OutboxRow → OutboxRow → Bool
other_event a b = not (str_eq a.event_id b.event_id)

-- The table with its sequence: distinct keys, all given out by the sequence, and distinct event ids.
pub record IsOutbox (rows : List OutboxRow) (next : ℕ) : Type 0 where
  pub key : HasKey rows
  pub given : All (λ r. r.outbox_id < next) rows
  pub events : Sorted other_event rows

pub Sorted-append :
    {A : Type 0} (le : A → A → Bool) (xs : List A) (y : A)
    → All (λ x. le x y ≡ true) xs
    → Sorted le xs
    → Sorted le (xs ++ y ∷ [])
Sorted-append le [] y h s = (tt, tt)
Sorted-append le (x ∷ xs) y h s =
    (All-append (λ z. le x z ≡ true) xs (y ∷ []) s.0 (h.0, tt), Sorted-append le xs y h.1 s.1)

IsOutbox-suc : (rows : List OutboxRow) (next : ℕ) → IsOutbox rows next → IsOutbox rows (suc next)
IsOutbox-suc rows next o = record {
  key = o.key;
  given =
      All_map (λ r. r.outbox_id < next) (λ r. r.outbox_id < suc next) rows (λ r h. omega arith)
        o.given;
  events = o.events;
}

absent :
    (eid : String) (rows : List OutboxRow)
    → has_event eid rows ≡ false
    → All (λ r. not (str_eq r.event_id eid) ≡ true) rows
unfolding has_event
absent eid [] h = tt
absent eid (r ∷ rows) h = elim (Bool-cases (str_eq r.event_id eid)) [
  | inl same ↦ let bad : true ≡ false = rw same at h in absurd (cc)
  | inr other ↦ (rw other refl, absent eid rows (rw other at h))
]

-- A row with the next key and an event id that is not there.
pub IsOutbox-append :
    (rows : List OutboxRow) (next : ℕ) (r : OutboxRow)
    → r.outbox_id ≡ next
    → has_event r.event_id rows ≡ false
    → IsOutbox rows next
    → IsOutbox (rows ++ r ∷ []) (suc next)
IsOutbox-append rows next r e new o = record {
  key =
      Sorted-append apart rows r
        (All_map (λ x. x.outbox_id < next) (λ x. apart x r ≡ true) rows (λ x h. ground arith)
          o.given)
        o.key;
  given =
      All-append (λ x. x.outbox_id < suc next) rows (r ∷ []) (IsOutbox-suc rows next o).given
        (omega arith, tt);
  events = Sorted-append other_event rows r (absent r.event_id rows new) o.events;
}

-- Of what the transaction sees and of what is committed, under the one sequence.
abbrev pub Distinct : Publication → Type 0
Distinct s = IsOutbox s.live.outbox s.next_outbox_id × IsOutbox s.saved.outbox s.next_outbox_id

module _ (p : Producer) where
  insert_outbox-Distinct :
      (event : StreamEvent) (stream : String) → Keeps Distinct (insert_outbox p event stream)
  unfolding insert_outbox outbox_row violates
  insert_outbox-Distinct event stream s d = elim (Bool-cases (violates p event s)) [
    | inl bad ↦
        rw (bad, state)
          (
            IsOutbox-suc s.saved.outbox s.next_outbox_id d.1,
            IsOutbox-suc s.saved.outbox s.next_outbox_id d.1,
          )
    | inr fine ↦
        rw (fine, state)
          (
            IsOutbox-append s.live.outbox s.next_outbox_id (outbox_row p event stream s) refl
                (or_left (has_event event.event_id s.live.outbox) _ fine) d.0,
            IsOutbox-suc s.saved.outbox s.next_outbox_id d.1,
          )
  ]
    where
      or_left : (a b : Bool) → (a || b) ≡ false → a ≡ false
      or_left true b h = cc
      or_left false b h = refl

  audit_publish-Distinct : (r : AuditRecord) → Keeps Distinct (audit_publish p r)
  unfolding audit_publish
  audit_publish-Distinct r s d =
      subst Distinct (sym (state-put_back (with_events p s) (record_event s.ctx r s.live.events))) d

  assert_actor-Distinct : Keeps Distinct (assert_actor p)
  unfolding assert_actor
  assert_actor-Distinct s d = elim (Bool-cases (refused s.ctx)) [
    | inl barred ↦ rw (assert_actor_lem s.ctx s, barred, state) d
    | inr fine ↦ rw (assert_actor_lem s.ctx s, fine, state) d
  ]

  lift-Distinct : {A : Type 0} (r : Result A) → Keeps Distinct (lift r)
  lift-Distinct (ok a) s d = d
  lift-Distinct (err e) s d = d

  insert_all-Distinct :
      (streams : List String) (events : List StreamEvent)
      → Keeps Distinct (insert_all p streams events)
  unfolding insert_all
  insert_all-Distinct [] [] = λ s d. d
  insert_all-Distinct [] (event ∷ events) = λ s d. d
  insert_all-Distinct (stream ∷ streams) [] = λ s d. d
  insert_all-Distinct (stream ∷ streams) (event ∷ events) =
      Keeps-bind Distinct (insert_outbox p event stream) _ (insert_outbox-Distinct event stream)
        (λ oid.
          Keeps-bind Distinct (insert_all p streams events) _ (insert_all-Distinct streams events)
            (λ ids s d. d))

  reject-Distinct : (o stream : Option String) → Keeps Distinct (reject_duplicate p o stream)
  reject-Distinct none stream s d = d
  reject-Distinct (some eid) stream s d = d

  check_batch-Distinct :
      (events : List StreamEvent) (stream : Option String)
      → Keeps Distinct (check_batch p events stream)
  unfolding check_batch
  check_batch-Distinct events stream =
      Keeps-bind Distinct (reject_duplicate p (first_duplicate events []) stream) _
        (reject-Distinct (first_duplicate events []) stream)
        (λ _.
          Keeps-bind Distinct (assert_actor p) _ assert_actor-Distinct
            (λ _. lift-Distinct (resolve_streams events stream)))

  publish_batch-Distinct :
      (events : List StreamEvent) (stream : Option String)
      → Keeps Distinct (publish_batch p events stream)
  unfolding publish_batch
  publish_batch-Distinct events stream =
      Keeps-bind Distinct (check_batch p events stream) _ (check_batch-Distinct events stream)
        (λ streams s d.
          let stamped = map (stamp p (current_actor s.ctx)) events in
          Keeps-bind Distinct (insert_all p streams stamped) _ (insert_all-Distinct streams stamped)
            (λ ids.
              Keeps-bind Distinct (audit_publish p (publish_many_record p stamped streams ids)) _
                (audit_publish-Distinct (publish_many_record p stamped streams ids)) (λ _ u k. k))
            s d)

  publish_many-Distinct :
      (events : List StreamEvent) (stream : Option String)
      → Keeps Distinct (publish_many p events stream)
  unfolding publish_many
  publish_many-Distinct [] stream s d = d
  publish_many-Distinct (event ∷ events) stream s d =
      publish_batch-Distinct (event ∷ events) stream s d

  publish-Distinct :
      (event : StreamEvent) (stream : Option String) → Keeps Distinct (publish p event stream)
  unfolding publish
  publish-Distinct event stream =
      Keeps-bind Distinct (lift (resolve_stream event stream)) _
        (lift-Distinct (resolve_stream event stream))
        (λ resolved. Keeps-bind Distinct (assert_actor p) _ assert_actor-Distinct (λ _ s d.
          let stamped = stamp p (current_actor s.ctx) event in
          Keeps-bind Distinct (insert_outbox p stamped resolved) _
            (insert_outbox-Distinct stamped resolved)
            (λ oid.
              Keeps-bind Distinct (audit_publish p (publish_record p stamped resolved oid)) _
                (audit_publish-Distinct (publish_record p stamped resolved oid)) (λ _ u k. k))
            s d))

  -- If in what the transaction sees and in what is committed the keys of the outbox are distinct and
  -- given out by the sequence, and the event ids distinct, all this is so after `publish` and after
  -- `publish_many`, whether they return or raise.
  pub published-Distinct :
      (event : StreamEvent) (events : List StreamEvent) (stream : Option String) (s : Publication)
      → Distinct s
      → Distinct (state (publish p event stream s))
        × Distinct (state (publish_many p events stream s))
  published-Distinct event events stream s d =
      (publish-Distinct event stream s d, publish_many-Distinct events stream s d)
