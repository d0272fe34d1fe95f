-- ===== src/Audit/Attribution.antt =====
-- Who an audit row names.
use aslan_core.Base.{
  ℕ, String, Bool, true, false, Option, none, some, List, [], ◌∷◌, ◌++◌, ◌≡◌, refl, ◌&&◌, ◌⊎◌,
  arith, Bool-cases, inl, inr, str_eq, is_none, All, All-append, if◌then◌else◌,
}
use aslan_core.Action.{bind, Action, done, raised, state}
use aslan_core.Result.{audit_missing_actor, value_error}
use aslan_core.Audit.Context.{Actor, Context, IsActor, HasActor, make_actor, valid_kind}
use aslan_core.Audit.Recorder.{
  AuditRecord, Event, event_of, record_event, assert_actor_or_strict_raise,
}

-- The mutation is refused: strict mode and nobody to name.
abbrev pub refused : Context → Bool
refused c = c.audit_strict && is_none c.actor

-- A row names somebody: a non-empty id and one of the three kinds.
pub record IsAttributed (e : Event) : Type 0 where
  pub named : str_eq e.actor_id "" ≡ false
  pub kind : valid_kind e.actor_kind ≡ true

-- The constructor accepts exactly the non-empty ids with a valid kind, and raises otherwise.
pub make_actor_iff :
    {S : Type 0} (i k : String) (ip ua : Option String) (rq : Option ℕ) (s : S)
    → ((a : Actor) × (make_actor i k ip ua rq s ≡ done a s) × IsActor a)
      ⊎ ((make_actor i k ip ua rq s ≡ raised value_error s)
          × ((str_eq i "" ≡ true) ⊎ (valid_kind k ≡ false)))
unfolding make_actor
make_actor_iff i k ip ua rq s = elim (Bool-cases (str_eq i "")) [
  | inl e ↦ inr (rw e, inl e)
  | inr e ↦ elim (Bool-cases (valid_kind k)) [
    | inl v ↦ inl (
      record { actor_id = i; actor_kind = k; client_ip = ip; user_agent = ua; request_id = rq },
      rw (e, v),
      record { named = e; kind = v },
    )
    | inr v ↦ inr (rw (e, v), inr v)
  ]
]

event_of-IsAttributed :
    (c : Context) (r : AuditRecord) → HasActor c → IsAttributed (event_of c.actor r)
unfolding event_of valid_kind
event_of-IsAttributed c r h = go c.actor h
  where
    go : (o : Option Actor) → ((a : Actor) → o ≡ some a → IsActor a) → IsAttributed (event_of o r)
    go none _ = record { named = refl; kind = refl }
    go (some a) k = record { named = (k a refl).named; kind = (k a refl).kind }

-- What `record` does to the table: nothing when the mutation is refused, else one row more.
pub record_event_lem :
    (c : Context) (r : AuditRecord) (events : List Event)
    → record_event c r events ≡ (
        if refused c
        then raised audit_missing_actor events
        else done tt (events ++ event_of c.actor r ∷ []))
unfolding record_event
record_event_lem c r events = ground arith

pub assert_actor_lem :
    {S : Type 0} (c : Context) (s : S)
    → assert_actor_or_strict_raise c s
      ≡ (if refused c then raised audit_missing_actor s else done tt s)
unfolding assert_actor_or_strict_raise
assert_actor_lem c s = ground arith

-- If every row of the table names somebody, with a non-empty id and a valid kind, and the actor that
-- is set was made by the constructor, then every row does after `record`, also where it raises.
pub record_event-IsAttributed :
    (c : Context) (r : AuditRecord) (events : List Event)
    → HasActor c
    → All IsAttributed events
    → All IsAttributed (state (record_event c r events))
record_event-IsAttributed c r events h all = elim (Bool-cases (refused c)) [
  | inl no_actor ↦ rw (record_event_lem, no_actor) all
  | inr fine ↦
      rw (record_event_lem, fine)
        (All-append IsAttributed events _ all (event_of-IsAttributed c r h, tt))
]

-- A mutation that returns was not refused, and went on from the state that it found.
pub assert_actor-eq-done :
    {S B : Type 0} (c : Context) (s : S) (f : Unit {0} → Action S B) {b : B} {s' : S}
    → bind (assert_actor_or_strict_raise c s) f ≡ done b s'
    → (refused c ≡ false) × (f tt s ≡ done b s')
assert_actor-eq-done c s f h = elim (Bool-cases (refused c)) [
  | inl no_actor ↦ absurd (cc (assert_actor_lem c s, no_actor, h))
  | inr fine ↦ (fine, rw (assert_actor_lem, fine) at h)
]
