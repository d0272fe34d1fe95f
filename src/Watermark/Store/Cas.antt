-- ===== src/Watermark/Store/Cas.antt =====
-- `advance` is a compare and swap on the cursor of one key, and `set` an unconditional write.
use aslan_core.Base.{
  String, Bool, true, false, ◌&&◌, Option, none, some, List, [], ◌∷◌, ◌++◌, str_eq, if◌then◌else◌,
  ◌≡◌, refl, arith, Bool-cases, inl, inr, ◌⊎◌, str_eq_iff,
}
use aslan_core.Action.{done, raised}
use aslan_core.Result.{audit_missing_actor}
use aslan_core.Audit.Context.{Context}
use mathlib.Core.List.{append-nil}
use aslan_core.Audit.Recorder.{AuditRecord, event_of}
use aslan_core.Audit.Attribution.{refused, record_event_lem, assert_actor_lem}
use aslan_core.Watermark.Table.{
  Key, Row, key_eq, select_cursor, insert_do_nothing, update_where, upsert,
}
use aslan_core.Watermark.Table.Laws.{
  upsert-IsKeyed, insert-IsKeyed, update-IsKeyed, IsKeyed, update_lem, count-select, select-insert,
  select-overwrite, select-upsert, key_eq→eq, key_eq_refl,
}
use aslan_core.Watermark.Store.{
  Session, audit, watermark_record, new_row, snapshot, get, advance, swap, audit_advance, set,
  set_upsert, set_idempotent, already,
}
use aslan_core.Json.{end, field, str, bool}

-- `None == None`, or two equal texts.
abbrev pub opt_eq : Option String → Option String → Bool
opt_eq none none = true
opt_eq (some a) (some b) = str_eq a b
opt_eq _ _ = false

pub audit_fine :
    (c : Context) (r : AuditRecord) (s : Session)
    → refused c ≡ false
    → audit c r s ≡ done tt (record s { events = s.events ++ event_of c.actor r ∷ [] })
unfolding audit
audit_fine c r s h = rw (record_event_lem, h)

-- In strict mode without an actor both mutations raise, and leave the session as it was.
pub mutations_refused :
    (c : Context) (k : Key) (new v : String) (expected : Option String) (s : Session)
    → refused c ≡ true
    → (advance c k new expected s ≡ raised audit_missing_actor s)
      × (set c k v s ≡ raised audit_missing_actor s)
unfolding advance set
mutations_refused c k new v expected s h = (rw (assert_actor_lem, h), rw (assert_actor_lem, h))

-- What `swap` leaves, before the audit.
swap_lem :
    (c : Context) (k : Key) (new : String) (expected : Option String) (s : Session)
    → IsKeyed s.rows
    → (rows : List Row) × (swap c k new expected s
        ≡ done (opt_eq (get k s) expected) (record s { rows = rows }))
      × ((j : Key)
          → select_cursor j rows
            ≡ (if opt_eq (get k s) expected && key_eq k j then some new else get j s))
      × (opt_eq (get k s) expected ≡ false → rows ≡ s.rows)
      × IsKeyed rows
unfolding swap get
swap_lem c k new none s h = (
  (insert_do_nothing (new_row c k new) s.rows).0,
  unfold insert_do_nothing in ground (arith, count-select k s.rows),
  λ j. ground (arith, select-insert (new_row c k new) j s.rows, key_eq→eq k j, key_eq_refl k),
  unfold insert_do_nothing in ground (arith, count-select k s.rows),
  insert-IsKeyed (new_row c k new) s.rows h,
)
swap_lem c k new (some e) s h = (
  (update_where (new_row c k new) e s.rows).0,
  ground (arith, update_lem (new_row c k new) e s.rows (h.at_most_one k)),
  λ j. ground (
    arith,
    update_lem (new_row c k new) e s.rows (h.at_most_one k),
    select-overwrite (new_row c k new) j s.rows,
    key_eq→eq k j,
  ),
  ground (arith, update_lem (new_row c k new) e s.rows (h.at_most_one k)),
  update-IsKeyed (new_row c k new) e s.rows h,
)

-- The audit row of a success.
abbrev pub advance_record : Key → String → Option String → AuditRecord
advance_record k new none =
    watermark_record "watermark.advance" k none (some (snapshot k new))
      (field "path" (str "insert") end)
advance_record k new (some e) =
    watermark_record "watermark.advance" k (some (snapshot k e)) (some (snapshot k new))
      (field "path" (str "cas") end)

audit_advance_lem :
    (c : Context) (k : Key) (new : String) (expected : Option String) (b : Bool) (s : Session)
    → refused c ≡ false
    → audit_advance c k new expected b s
      ≡ done b (record s {
        events =
            s.events ++ (if b then event_of c.actor (advance_record k new expected) ∷ [] else []);
      })
unfolding audit_advance
audit_advance_lem c k new expected false s h = rw append-nil
audit_advance_lem c k new none true s h = rw (audit_fine, h)
audit_advance_lem c k new (some e) true s h = rw (audit_fine, h)

-- `advance` on a table with its primary key, when it is not refused. It returns True exactly if the
-- cursor at the key is the expected one, where None stands for no row. Then that key has the new
-- cursor, every other key its old one, and one event is written, `watermark.advance` with the two
-- cursors. On a miss the session is unchanged.
pub advance_cas :
    (c : Context) (k : Key) (new : String) (expected : Option String) (s : Session)
    → refused c ≡ false
    → IsKeyed s.rows
    → let b = opt_eq (get k s) expected in
      (s' : Session) × (advance c k new expected s ≡ done b s')
      × ((j : Key) → get j s' ≡ (if b && key_eq k j then some new else get j s))
      × (s'.events
          ≡ s.events ++ (if b then event_of c.actor (advance_record k new expected) ∷ [] else []))
      × ((b ≡ true) ⊎ (s' ≡ s))
      × IsKeyed s'.rows
unfolding advance
advance_cas c k new expected s h keyed =
    let (rows, step, reads, kept, keyed') = swap_lem c k new expected s keyed in
    let b = opt_eq (get k s) expected in
    (
      record s {
        rows = rows;
        events =
            s.events ++ (if b then event_of c.actor (advance_record k new expected) ∷ [] else []);
      },
      rw (assert_actor_lem, h, step, audit_advance_lem) refl,
      unfold get in reads,
      refl,
      elim (Bool-cases b) [ inl hit ↦ inl hit | inr miss ↦ inr (rw (kept miss, miss, append-nil)) ],
      keyed',
    )

-- The audit row of a `set` that writes.
abbrev pub set_record : Key → String → Option String → AuditRecord
set_record k v none = watermark_record "watermark.set" k none (some (snapshot k v)) end
set_record k v (some old) =
    watermark_record "watermark.force_set" k (some (snapshot k old)) (some (snapshot k v)) end

-- The audit row of a `set` to the cursor that is already there.
abbrev pub hit_record : Key → String → AuditRecord
hit_record k v =
    watermark_record "watermark.idempotent_hit" k (some (snapshot k v)) (some (snapshot k v))
      (field "returned_existing" (bool true) end)

set_upsert_lem :
    (c : Context) (k : Key) (v : String) (old : Option String) (s : Session)
    → refused c ≡ false
    → set_upsert c k v old s
      ≡ done tt (record s {
        rows = upsert (new_row c k v) s.rows;
        events = s.events ++ event_of c.actor (set_record k v old) ∷ [];
      })
unfolding set_upsert
set_upsert_lem c k v none s h = rw (audit_fine, h)
set_upsert_lem c k v (some old) s h = rw (audit_fine, h)

already→eq : (o : Option String) (v : String) → already o v ≡ true → o ≡ some v
already→eq none v h = cc
already→eq (some old) v h = ground (arith, str_eq_iff old v)

-- `set` on a table with its primary key, when it is not refused, returns. The key then has the
-- cursor, every other key its old one. One event is written, and a `set` to the cursor that is
-- there already writes `watermark.idempotent_hit` and leaves every row, its audit columns too, as
-- it was.
pub set_lem :
    (c : Context) (k : Key) (v : String) (s : Session)
    → refused c ≡ false
    → IsKeyed s.rows
    → (s' : Session) × (set c k v s ≡ done tt s')
      × ((j : Key) → get j s' ≡ (if key_eq k j then some v else get j s))
      × (s'.events
          ≡ s.events
            ++ event_of c.actor
                (if already (get k s) v then hit_record k v else set_record k v (get k s))
              ∷ [])
      × ((already (get k s) v ≡ false) ⊎ (s'.rows ≡ s.rows))
      × IsKeyed s'.rows
unfolding set get
set_lem c k v s h keyed = elim (Bool-cases (already (select_cursor k s.rows) v)) [
  | inl same ↦ (
    record s { events = s.events ++ event_of c.actor (hit_record k v) ∷ [] },
    unfold set_idempotent in rw (assert_actor_lem, h, same, audit_fine),
    λ j. ground (arith, already→eq (select_cursor k s.rows) v, key_eq→eq k j),
    rw same refl,
    inr refl,
    keyed,
  )
  | inr new ↦ (
    record s {
      rows = upsert (new_row c k v) s.rows;
      events = s.events ++ event_of c.actor (set_record k v (select_cursor k s.rows)) ∷ [];
    },
    rw (assert_actor_lem, h, new, set_upsert_lem),
    λ j. select-upsert (new_row c k v) j s.rows,
    rw new refl,
    inl new,
    upsert-IsKeyed (new_row c k v) s.rows keyed,
  )
]

-- Of two compare-and-swaps on one key that expect the same cursor, in whatever context each runs, the
-- later fails if the earlier succeeded and moved the cursor.
pub advance_race :
    (c d : Context) (k : Key) (a b : String) (expected : Option String) (s s' : Session)
    → refused c ≡ false
    → refused d ≡ false
    → IsKeyed s.rows
    → advance c k a expected s ≡ done true s'
    → opt_eq (some a) expected ≡ false
    → advance d k b expected s' ≡ done false s'
advance_race c d k a b expected s s' hc hd keyed won moved =
    let (t, ran, reads, _, _, keyed_t) = advance_cas c k a expected s hc keyed in
    let same : t ≡ s' = cc (ran, won) in
    let hit : opt_eq (get k s) expected ≡ true = cc (ran, won) in
    let now_a : get k s' ≡ some a = rw (← same) (ground (arith, reads k, hit, key_eq_refl k)) in
    let (u, ran', _, _, kept, _) = advance_cas d k b expected s' hd (rw (← same) keyed_t) in
    let miss : opt_eq (get k s') expected ≡ false = rw now_a moved in
    elim kept [ inl hit ↦ absurd (cc (hit, miss)) | inr still ↦ cc (ran', still, miss) ]
