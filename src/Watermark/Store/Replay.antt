-- ===== src/Watermark/Store/Replay.antt =====
-- The audit log is enough to rebuild the cursors, and `list_for_job` agrees with `get`.
use mathlib.Core.List.{append-nil}
use aslan_core.Base.{
  ◌≤◌, String, Bool, true, false, ◌&&◌, Option, none, some, List, [], ◌∷◌, ◌++◌, str_eq,
  if◌then◌else◌, ◌≡◌, refl, arith, Bool-cases, inl, inr,
}
use aslan_core.Base.Dict.{lookup, last_of, lookup-dict_of}
use aslan_core.Action.{state}
use aslan_core.Json.{Json, Fields, str}
use aslan_core.Json as J
use aslan_core.Audit.Context.{Actor, Context}
use aslan_core.Audit.Recorder.{entry-event_of, Event, AuditRecord, event_of}
use aslan_core.Audit.Attribution.{refused}
use aslan_core.Watermark.Table.{Key, Row, key_eq, select_cursor, count_key, select_job}
use aslan_core.Watermark.Table.Laws.{IsKeyed}
use aslan_core.Watermark.Store.{Session, target_pk, snapshot, get, advance, set, list_for_job}
use aslan_core.Watermark.Store.Cas.{
  advance_cas, set_lem, mutations_refused, opt_eq, advance_record, set_record, hit_record,
}

-- A call of a mutating method, with the context that it runs in.
pub data Call : Type 0 where
  advance_call : Context → Key → String → Option String → Call
  set_call : Context → Key → String → Call

-- The session after a call, whether it returned or raised.
unfoldable pub after : Call → Session → Session
after (advance_call c k new expected) s = state (advance c k new expected s)
after (set_call c k v) s = state (set c k v s)

unfoldable pub run : List Call → Session → Session
run [] s = s
run (call ∷ calls) s = run calls (after call s)

-- A text column of a JSON object.
abbrev text : Option Json → Option String
text (some (str v)) = some v
text _ = none

abbrev text_is : Option Json → String → Bool
text_is (some (str v)) w = str_eq v w
text_is _ w = false

-- The object names the key.
unfoldable pub names_key : Fields → Key → Bool
names_key pk k =
    text_is (J.get pk "source_id") k.source_id
    && text_is (J.get pk "job_name") k.job_name
    && text_is (J.get pk "key") k.key

abbrev after_cursor : Option Fields → Option String → Option String
after_cursor none v = v
after_cursor (some f) v = text (J.get f "cursor_value")

-- One audit row, read by somebody who has the log alone.
unfoldable pub replay_event : Key → Option String → Event → Option String
replay_event k v e = if names_key e.entry.target_pk k then after_cursor e.entry.after v else v

unfoldable pub replay : Key → Option String → List Event → Option String
replay k v [] = v
replay k v (e ∷ events) = replay k (replay_event k v e) events

replay-append :
    (k : Key) (v : Option String) (events : List Event) (e : Event)
    → replay k v (events ++ e ∷ []) ≡ replay_event k (replay k v events) e
unfolding replay
replay-append k v [] e = refl
replay-append k v (f ∷ events) e = replay-append k (replay_event k v f) events e

names_target_pk : (a k : Key) → names_key (target_pk a) k ≡ key_eq a k
unfolding names_key target_pk key_eq
names_target_pk a k = refl

-- The invariant: the key is unique, and the log replays to the cursors.
pub record IsReplayed (s : Session) : Type 0 where
  pub keyed : IsKeyed s.rows
  pub replays : (k : Key) → get k s ≡ replay k none s.events

-- A row about the key `a` whose `after` is a snapshot with the cursor `new`.
replay_snapshot :
    (o : Option Actor) (r : AuditRecord) (a k : Key) (new : String) (v : Option String)
    → r.target_pk ≡ target_pk a
    → r.after ≡ some (snapshot a new)
    → replay_event k v (event_of o r) ≡ (if key_eq a k then some new else v)
unfolding replay_event snapshot
replay_snapshot o r a k new v p q = rw (entry-event_of, p, q, names_target_pk) refl

advance_event :
    (o : Option Actor) (a k : Key) (new : String) (expected v : Option String)
    → replay_event k v (event_of o (advance_record a new expected))
      ≡ (if key_eq a k then some new else v)
advance_event o a k new none v = replay_snapshot o (advance_record a new none) a k new v refl refl
advance_event o a k new (some e) v =
    replay_snapshot o (advance_record a new (some e)) a k new v refl refl

set_event :
    (o : Option Actor) (a k : Key) (new : String) (old v : Option String) (b : Bool)
    → replay_event k v (event_of o (if b then hit_record a new else set_record a new old))
      ≡ (if key_eq a k then some new else v)
set_event o a k new old v true = replay_snapshot o (hit_record a new) a k new v refl refl
set_event o a k new none v false = replay_snapshot o (set_record a new none) a k new v refl refl
set_event o a k new (some w) v false =
    replay_snapshot o (set_record a new (some w)) a k new v refl refl

after-IsReplayed : (call : Call) (s : Session) → IsReplayed s → IsReplayed (after call s)
unfolding after
after-IsReplayed (advance_call c a new expected) s h = elim (Bool-cases (refused c)) [
  | inl no_actor ↦ rw ((mutations_refused c a new new expected s no_actor).0) h
  | inr fine ↦
      let (s', ran, reads, wrote, _, keyed) = advance_cas c a new expected s fine h.keyed in
      rw ran (record {
        keyed = keyed;
        replays = λ k.
            rw (reads k, wrote)
              (elim (Bool-cases (opt_eq (get a s) expected)) [
                | inl hit ↦ rw (hit, replay-append, advance_event, h.replays k) refl
                | inr miss ↦ rw (miss, append-nil) (h.replays k)
              ]);
      })
]
after-IsReplayed (set_call c a v) s h = elim (Bool-cases (refused c)) [
  | inl no_actor ↦ rw ((mutations_refused c a v v none s no_actor).1) h
  | inr fine ↦
      let (s', ran, reads, wrote, _, keyed) = set_lem c a v s fine h.keyed in
      rw ran (record {
        keyed = keyed;
        replays = λ k. rw (reads k, wrote, replay-append, set_event, h.replays k) refl;
      })
]

-- Whatever mutations run on a session whose table has its primary key and whose log replays to its
-- cursors, in whatever contexts, refused, missed or done: afterwards the table still has its primary
-- key, and reading the audit log alone gives the cursor of every key.
pub run-IsReplayed : (calls : List Call) (s : Session) → IsReplayed s → IsReplayed (run calls s)
unfolding run
run-IsReplayed [] s h = h
run-IsReplayed (call ∷ calls) s h = run-IsReplayed calls (after call s) (after-IsReplayed call s h)

abbrev pub empty : Session
empty = record { rows = []; events = [] }

pub empty-IsReplayed : IsReplayed empty
unfolding get select_cursor count_key replay
empty-IsReplayed = record { keyed = record { at_most_one = λ k. omega arith }; replays = λ k. refl }

job_absent :
    (source job key : String) (rows : List Row)
    → count_key (record { source_id = source; job_name = job; key = key }) rows ≡ 0
    → last_of key (select_job source job rows) ≡ none
unfolding count_key key_eq select_job last_of
job_absent source job key [] h = refl
job_absent source job key (r ∷ rows) h = ground (arith, job_absent source job key rows)

last_of-select_job :
    (source job key : String) (rows : List Row)
    → count_key (record { source_id = source; job_name = job; key = key }) rows ≤ 1
    → last_of key (select_job source job rows)
      ≡ select_cursor (record { source_id = source; job_name = job; key = key }) rows
unfolding count_key key_eq select_job last_of select_cursor
last_of-select_job source job key [] h = refl
last_of-select_job source job key (r ∷ rows) h =
    ground (arith, last_of-select_job source job key rows, job_absent source job key rows)

-- On a table with its primary key, the dict that `list_for_job` returns has at each key the cursor
-- that `get` returns for it, and no other keys.
pub lookup-list_for_job :
    (source job key : String) (s : Session)
    → IsKeyed s.rows
    → lookup key (list_for_job source job s)
      ≡ get (record { source_id = source; job_name = job; key = key }) s
unfolding list_for_job get
lookup-list_for_job source job key s h =
    rw lookup-dict_of (last_of-select_job source job key s.rows (h.at_most_one _))
