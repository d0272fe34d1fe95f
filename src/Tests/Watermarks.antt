-- ===== src/Tests/Watermarks.antt =====
-- The store of watermarks at concrete inputs.
use aslan_core.Base.{
  true, false, ◌&&◌, none, some, List, [], ◌∷◌, ◌++◌, if◌then◌else◌, ◌≡◌, refl, ◌⊎◌,
}
use aslan_core.Action.{done, state}
use aslan_core.Audit.Context.{current_actor}
use aslan_core.Audit.Recorder.{event_of, assert_actor_or_strict_raise, record_event}
use aslan_core.Watermark.Table.{Key, key_eq, count_key, insert_do_nothing}
use aslan_core.Watermark.Table.Laws.{IsKeyed}
use aslan_core.Watermark.Store.{Session, get, advance, set, swap, audit_advance, audit, already}
use aslan_core.Watermark.Store.Cas.{
  opt_eq, advance_cas, set_lem, advance_race, advance_record, set_record, hit_record,
}
use aslan_core.Watermark.Store.Replay.{
  Call, advance_call, set_call, run, IsReplayed, run-IsReplayed, empty, empty-IsReplayed,
}
use aslan_core.Tests.Sample.{alice, strict, nobody}

abbrev daily : Key
daily = record { source_id = "kap"; job_name = "daily"; key = "since" }

abbrev calls : List Call
calls =
    advance_call strict daily "a" none
    ∷ set_call nobody daily "b"
    ∷ advance_call strict daily "c" (some "x")
    ∷ set_call strict daily "d"
    ∷ []

run-IsReplayed_example : IsReplayed (run calls empty)
run-IsReplayed_example = run-IsReplayed calls empty empty-IsReplayed

abbrev busy : Session
busy = run calls empty

busy-IsReplayed : IsReplayed busy
busy-IsReplayed = run-IsReplayed calls empty empty-IsReplayed

advance_cas_example :
    (s' : Session) × (advance strict daily "e" (some "d") busy
      ≡ done (opt_eq (get daily busy) (some "d")) s')
    × ((j : Key)
        → get j s'
          ≡ (if opt_eq (get daily busy) (some "d") && key_eq daily j then some "e" else get j busy))
    × (s'.events
        ≡ busy.events
          ++ (if opt_eq (get daily busy) (some "d")
              then event_of (some alice) (advance_record daily "e" (some "d")) ∷ []
              else []))
    × ((opt_eq (get daily busy) (some "d") ≡ true) ⊎ (s' ≡ busy))
    × IsKeyed s'.rows
advance_cas_example = advance_cas strict daily "e" (some "d") busy refl (busy-IsReplayed.keyed)

set_lem_example :
    (s' : Session) × (set strict daily "d" busy ≡ done tt s')
    × ((j : Key) → get j s' ≡ (if key_eq daily j then some "d" else get j busy))
    × (s'.events
        ≡ busy.events
          ++ event_of (some alice) (
              if already (get daily busy) "d"
              then hit_record daily "d"
              else set_record daily "d" (get daily busy))
            ∷ [])
    × ((already (get daily busy) "d" ≡ false) ⊎ (s'.rows ≡ busy.rows))
    × IsKeyed s'.rows
set_lem_example = set_lem strict daily "d" busy refl (busy-IsReplayed.keyed)

abbrev first_won : Session
first_won = state (advance strict daily "a" none empty)

won : advance strict daily "a" none empty ≡ done true first_won
unfolding advance swap insert_do_nothing count_key assert_actor_or_strict_raise current_actor
    audit_advance audit record_event
won = refl

advance_race_example : advance strict daily "b" none first_won ≡ done false first_won
advance_race_example =
    advance_race strict strict daily "a" "b" none empty first_won refl refl (empty-IsReplayed.keyed)
      won refl
