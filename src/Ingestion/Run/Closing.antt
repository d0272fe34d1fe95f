-- ===== src/Ingestion/Run/Closing.antt =====
-- What the body of an ingestion run leaves alone, and what closing the run does.
use mathlib.Core.List.{append-nil, append_assoc}
use aslan_core.Base.{
  ℕ, String, true, false, Option, some, List, [], ◌∷◌, ◌++◌, map, ◌≡◌, refl, ◌∙◌, Bool-cases, inl,
  inr,
}
use aslan_core.Action.{Outcome, done, raised, state, bind, ◌>>◌}
use aslan_core.Result.{audit_missing_actor}
use aslan_core.Json.{Fields, field, int, end}
use aslan_core.Audit.Context.{set_actor}
use aslan_core.Audit.Recorder.{AuditRecord, event_of}
use aslan_core.Audit.Attribution.{refused, record_event_lem}
use aslan_core.Ingestion.Handle.{
  Db, World, Handle, Scope, run_record, audit_record_on_conn, commit, Step, step, run_body,
  with_events, emit_handle_audit, increment_rows, set_metadata, rows_field, ◌+ℤ◌, rows_step,
  docs_step, bytes_step, errors_step, metadata_step, actor_step, clock_step, raise_step,
}
use aslan_core.Ingestion.Run.{
  closed_row, update_run, metadata_record, complete_record, flush_metadata, close_run,
}

pub audit_fine :
    (r : AuditRecord) (w : World)
    → refused w.ctx ≡ false
    → audit_record_on_conn r w
      ≡ done tt (with_events w (w.live.events ++ event_of w.ctx.actor r ∷ []))
unfolding audit_record_on_conn
audit_fine r w h = rw (record_event_lem, h) refl

pub audit_refused :
    (r : AuditRecord) (w : World)
    → refused w.ctx ≡ true
    → audit_record_on_conn r w ≡ raised audit_missing_actor w
unfolding audit_record_on_conn
audit_refused r w h = rw (record_event_lem, h) refl

-- What the body leaves alone.
pub record IsBodyOf (s s' : Scope) : Type 0 where
  pub runs : s'.world.live.runs ≡ s.world.live.runs
  pub saved : s'.world.saved ≡ s.world.saved
  pub id : s'.handle.id ≡ s.handle.id

emit-IsBodyOf :
    (op : String) (before after : Option Fields) (metadata : Fields) (s : Scope)
    → IsBodyOf s (state (emit_handle_audit op before after metadata s))
unfolding emit_handle_audit
emit-IsBodyOf op before after metadata s =
    let r = run_record s.handle.id op before after metadata in
    elim (Bool-cases s.handle.connected) [
      | inr alone ↦ rw alone (record { runs = refl; saved = refl; id = refl })
      | inl connected ↦ elim (Bool-cases (refused s.world.ctx)) [
        | inl no_actor ↦
            rw (connected, audit_refused r s.world no_actor)
              (record { runs = refl; saved = refl; id = refl })
        | inr fine ↦
            rw (connected, audit_fine r s.world fine)
              (record { runs = refl; saved = refl; id = refl })
      ]
    ]

step-IsBodyOf : (a : Step) (s : Scope) → IsBodyOf s (state (step a s))
unfolding step increment_rows set_metadata set_actor
step-IsBodyOf (rows_step n) s =
    let counted : Scope = record s { handle = record (s.handle) { rows = s.handle.rows +ℤ n } } in
    let h =
      emit-IsBodyOf "ingestion_run.increment_rows" (some (rows_field s.handle.rows))
        (some (rows_field counted.handle.rows)) (field "delta" (int n) end) counted in
    record { runs = h.runs; saved = h.saved; id = h.id }
step-IsBodyOf (docs_step n) s = record { runs = refl; saved = refl; id = refl }
step-IsBodyOf (bytes_step n) s = record { runs = refl; saved = refl; id = refl }
step-IsBodyOf (errors_step n) s = record { runs = refl; saved = refl; id = refl }
step-IsBodyOf (metadata_step d) s = record { runs = refl; saved = refl; id = refl }
step-IsBodyOf (actor_step a) s = record { runs = refl; saved = refl; id = refl }
step-IsBodyOf (clock_step now) s = record { runs = refl; saved = refl; id = refl }
step-IsBodyOf (raise_step e) s = record { runs = refl; saved = refl; id = refl }

-- The close, when it is not refused.
abbrev pub closed_db : Handle → String → Option String → World → Db
closed_db h status error w = record (w.live) {
  runs = update_run h.id (closed_row w.ctx.now h status error) w.live.runs;
  events =
      w.live.events
      ++ map (λ p. event_of w.ctx.actor (metadata_record h.id p)) h.pending
      ++ event_of w.ctx.actor (complete_record h status error) ∷ [];
}

flush_fine :
    (id : ℕ) (pending : List (Option Fields × Fields)) (w : World)
    → refused w.ctx ≡ false
    → flush_metadata id pending w
      ≡ done tt (
          with_events w
            (w.live.events ++ map (λ p. event_of w.ctx.actor (metadata_record id p)) pending))
unfolding flush_metadata
flush_fine id [] w h = rw append-nil refl
flush_fine id (p ∷ pending) w h =
    let one = event_of w.ctx.actor (metadata_record id p) in
    let more = map (λ p. event_of w.ctx.actor (metadata_record id p)) pending in
    rw
      (
        audit_fine (metadata_record id p) w h,
        flush_fine id pending (with_events w (w.live.events ++ one ∷ [])) h,
        append_assoc w.live.events (one ∷ []) more,
      )
      refl

flush_refused :
    (id : ℕ) (p : Option Fields × Fields) (pending : List (Option Fields × Fields)) (w : World)
    → refused w.ctx ≡ true
    → flush_metadata id (p ∷ pending) w ≡ raised audit_missing_actor w
unfolding flush_metadata
flush_refused id p pending w h = rw (audit_refused (metadata_record id p) w h) refl

pub close_fine :
    (h : Handle) (status : String) (error : Option String) (w : World)
    → refused w.ctx ≡ false
    → close_run h status error w
      ≡ done tt (record w { live = closed_db h status error w; saved = closed_db h status error w })
unfolding close_run
close_fine h status error w fine =
    let w1 : World = record w {
      live = record (w.live) {
        runs = update_run h.id (closed_row w.ctx.now h status error) w.live.runs;
      };
    } in
    let w2 : World =
      with_events w1
        (w.live.events ++ map (λ p. event_of w.ctx.actor (metadata_record h.id p)) h.pending) in
    rw (flush_fine h.id h.pending w1 fine, audit_fine (complete_record h status error) w2 fine) refl

flush_close_refused :
    (r : AuditRecord) (id : ℕ) (pending : List (Option Fields × Fields)) (w : World)
    → refused w.ctx ≡ true
    → (flush_metadata id pending >> (audit_record_on_conn r >> commit)) w
      ≡ raised audit_missing_actor w
unfolding flush_metadata
flush_close_refused r id [] w h = rw (audit_refused r w h) refl
flush_close_refused r id (p ∷ pending) w h = rw (audit_refused (metadata_record id p) w h) refl

-- Refused, the close raises, and nothing is committed.
pub close_refused :
    (h : Handle) (status : String) (error : Option String) (w : World)
    → refused w.ctx ≡ true
    → (w' : World) × (close_run h status error w ≡ raised audit_missing_actor w')
      × (w'.saved ≡ w.saved)
unfolding close_run
close_refused h status error w no_actor =
    let w1 : World = record w {
      live = record (w.live) {
        runs = update_run h.id (closed_row w.ctx.now h status error) w.live.runs;
      };
    } in
    (w1, flush_close_refused (complete_record h status error) h.id h.pending w1 no_actor, refl)

trans_IsBodyOf : (a b c : Scope) → IsBodyOf a b → IsBodyOf b c → IsBodyOf a c
trans_IsBodyOf a b c h k = record {
  runs = k.runs ∙ h.runs;
  saved = k.saved ∙ h.saved;
  id = k.id ∙ h.id;
}

after_step :
    (o : Outcome Scope (Unit {0})) (body : List Step) (s : Scope)
    → IsBodyOf s (state o)
    → ((t : Scope) → IsBodyOf t (state (run_body body t)))
    → IsBodyOf s (state (bind o (λ _. run_body body)))
after_step (done _ t) body s h k = trans_IsBodyOf s t _ h (k t)
after_step (raised e t) body s h k = h

pub body-IsBodyOf : (body : List Step) (s : Scope) → IsBodyOf s (state (run_body body s))
unfolding run_body
body-IsBodyOf [] s = record { runs = refl; saved = refl; id = refl }
body-IsBodyOf (a ∷ body) s = after_step (step a s) body s (step-IsBodyOf a s) (body-IsBodyOf body)
