-- ===== src/Streams/Drainer/Refines.antt =====
-- The delivery that the drainer promises, as a machine on the status of one event, and the outbox as a
-- refinement of it.
use mathlib.Core.Path.{subst}
use aslan_core.Base.{
  ℕ, ◌+◌, String, Bool, true, Option, none, some, List, [], ◌∷◌, ◌≡◌, refl, sym, ◌∙◌, ◌==◌, is_none,
  All, Bool-cases, inl, inr,
}
use aslan_core.Action.{state}
use aslan_core.Streams.Ids.{RedisId}
use aslan_core.Streams.Services.{Services}
use aslan_core.Streams.Outbox.{OutboxRow, World, pending, update_outbox, published, failed}
use aslan_core.Streams.Outbox.Selected.{HasKey, Sole}
use aslan_core.Streams.Row.{Stdlib}
use aslan_core.Streams.Drainer.{drain_outbox}
use aslan_core.Streams.Drainer.Ran.{Kept}
use aslan_core.Streams.Drainer.Indexed.{drain_outbox-Safe}

-- An event waits, with the attempts that failed, or is sent, with its message id.
pub data Status : Type 0 where
  waiting : ℕ → Status
  sent : Option RedisId → Status

-- One attempt: it fails, or it sends the event. Nothing follows on `sent`.
pub data Attempt : Status → Status → Type 0 where
  retry : (n : ℕ) → Attempt (waiting n) (waiting (n + 1))
  send : (n : ℕ) (rid : RedisId) → Attempt (waiting n) (sent (some rid))

pub data Attempts : Status → Status → Type 0 where
  stay : {s : Status} → Attempts s s
  later : {s t u : Status} → Attempts s t → Attempt t u → Attempts s u

abbrev status_by : Option ℕ → OutboxRow → Status
status_by none r = waiting r.publish_attempts
status_by (some at) r = sent r.redis_message_id

abbrev pub status : OutboxRow → Status
status r = status_by r.published_at r

-- The same event, further on.
pub record Follows (r x : OutboxRow) : Type 0 where
  pub key : x.outbox_id ≡ r.outbox_id
  pub event : x.event_id ≡ r.event_id
  pub stream : x.stream_name ≡ r.stream_name
  pub payload : x.payload ≡ r.payload
  pub attempts : Attempts (status r) (status x)

-- Row by row.
abbrev pub Refines : List OutboxRow → List OutboxRow → Type 0
Refines [] [] = Unit
Refines [] (x ∷ table) = ⊥
Refines (r ∷ start) [] = ⊥
Refines (r ∷ start) (x ∷ table) = Follows r x × Refines start table

pub Refines-refl : (table : List OutboxRow) → Refines table table
Refines-refl [] = tt
Refines-refl (r ∷ table) = (
  record { key = refl; event = refl; stream = refl; payload = refl; attempts = stay },
  Refines-refl table,
)

none_after : {s t : Status} (o : Option RedisId) → Attempt s t → ¬ (s ≡ sent o)
none_after o (retry n) e = cc
none_after o (send n rid) e = cc

-- Nothing happens to an event that is sent.
sent_stays : {s t : Status} (o : Option RedisId) → Attempts s t → s ≡ sent o → t ≡ sent o
sent_stays o stay e = e
sent_stays o (later a b) e = absurd (none_after o b (sent_stays o a e))

-- An update that attempts a pending row.
Refines-update_outbox :
    (start table : List OutboxRow) (r : OutboxRow) (f : OutboxRow → OutboxRow)
    → ((x : OutboxRow) → pending x ≡ true → Attempt (status x) (status (f x)))
    → ((x : OutboxRow)
        → ((f x).outbox_id ≡ x.outbox_id)
          × ((f x).event_id ≡ x.event_id)
          × ((f x).stream_name ≡ x.stream_name)
          × ((f x).payload ≡ x.payload))
    → pending r ≡ true
    → All (Sole r) table
    → Refines start table
    → Refines start (update_outbox r.outbox_id f table)
unfolding update_outbox
Refines-update_outbox [] [] r f step keeps p s h = h
Refines-update_outbox [] (x ∷ table) r f step keeps p s h = elim h [ ]
Refines-update_outbox (a ∷ start) [] r f step keeps p s h = elim h [ ]
Refines-update_outbox (a ∷ start) (x ∷ table) r f step keeps p s h =
    let rest = Refines-update_outbox start table r f step keeps p s.1 h.1 in
    elim (Bool-cases (x.outbox_id == r.outbox_id)) [
      | inl same ↦
          let open_row : pending x ≡ true = subst (λ y. pending y ≡ true) (sym (s.0 same)) p in
          let (key, event, stream, payload) = keeps x in
          rw same (
            record {
              key = key ∙ h.0.key;
              event = event ∙ h.0.event;
              stream = stream ∙ h.0.stream;
              payload = payload ∙ h.0.payload;
              attempts = later h.0.attempts (step x open_row);
            },
            rest,
          )
      | inr other ↦ rw other (h.0, rest)
    ]

module _ {E : Type 0} (svc : Services E) (lib : Stdlib) (maxlen : ℕ) where
  -- The two updates are attempts.
  send_row :
      (now : ℕ) (rid : RedisId) (x : OutboxRow)
      → pending x ≡ true
      → Attempt (status x) (status (published now rid x))
  unfolding published pending
  send_row now rid x p = by_time x.published_at p
    where
      by_time : (at : Option ℕ) → is_none at ≡ true → Attempt (status_by at x) (sent (some rid))
      by_time none p = send x.publish_attempts rid
      by_time (some t) p = absurd (cc)

  retry_row :
      (now : ℕ) (err : String) (x : OutboxRow)
      → pending x ≡ true
      → Attempt (status x) (status (failed now err x))
  unfolding failed pending
  retry_row now err x p = by_time x.published_at p
    where
      by_time :
          (at : Option ℕ)
          → is_none at ≡ true
          → Attempt (status_by at x) (status_by at (failed now err x))
      by_time none p = retry x.publish_attempts
      by_time (some t) p = absurd (cc)

  Refines-Kept : (start : List OutboxRow) → Kept svc lib maxlen (λ table d. Refines start table)
  unfolding published failed
  Refines-Kept start = record {
    more_copies = λ table d d' grows h. h;
    publish = λ table d r now rid chosen there h.
        Refines-update_outbox start table r (published now rid) (send_row now rid)
          (λ x. (refl, refl, refl, refl)) chosen.waiting chosen.sole h;
    fail = λ table d r now err chosen h.
        Refines-update_outbox start table r (failed now err) (retry_row now err)
          (λ x. (refl, refl, refl, refl)) chosen.waiting chosen.sole h;
  }

  -- If no two rows of the committed outbox have the same key, then `drain_outbox`, whether it returns
  -- or raises and whatever fails in it, loses and adds no row: each row holds the event, the stream and
  -- the payload that it held, and its status is reached from the one before by attempts of the
  -- abstract machine, which count the failures of a waiting event and never touch one that is sent.
  pub drain_outbox-Refines :
      (n : ℕ) (once : Bool) (batches : ℕ) (w : World E)
      → HasKey w.saved.outbox
      → Refines w.saved.outbox (state (drain_outbox svc lib maxlen n once batches w)).saved.outbox
  drain_outbox-Refines n once batches w key =
      (drain_outbox-Safe svc lib maxlen (λ table d. Refines w.saved.outbox table)
        (Refines-Kept w.saved.outbox) n once batches w (key, Refines-refl w.saved.outbox)).1
