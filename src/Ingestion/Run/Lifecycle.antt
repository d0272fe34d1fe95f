-- ===== src/Ingestion/Run/Lifecycle.antt =====
-- What an ingestion run leaves in the database, whatever its body does.
use mathlib.Core.Path.{subst}
use aslan_core.Base.{
  suc, ◌<◌, String, true, false, not, ◌||◌, Option, none, some, List, [], ◌∷◌, ◌++◌, if◌then◌else◌,
  All, ◌≡◌, refl, ap, ◌∙◌, arith, Bool-cases, inl, inr,
}
use aslan_core.Action.{Outcome, done, raised, state, put_back}
use aslan_core.Result.{Error, unknown_source, audit_missing_actor}
use aslan_core.Audit.Recorder.{event_of}
use aslan_core.Audit.Attribution.{refused, assert_actor_lem}
use aslan_core.Ingestion.Handle.{RunRow, Db, World, Scope, in_world, Step, run_body}
use aslan_core.Ingestion.Run.{
  Request, truncate_tb, knows_source, running_row, start_record, new_handle, open_run, finish,
  in_scope, with_connection, run_scope,
}
use aslan_core.Ingestion.Run.Closing.{audit_fine, close_refused, IsBodyOf, body-IsBodyOf}

-- The world when the body starts: the row, running, and its start event are committed.
abbrev pub started_db : Request → World → Db
started_db q w = record (w.saved) {
  runs = w.saved.runs ++ running_row q w ∷ [];
  events = w.saved.events ++ event_of w.ctx.actor (start_record q w.next_run_id) ∷ [];
}

abbrev pub started : Request → World → Scope
started q w = record {
  world = record w {
    live = started_db q w;
    saved = started_db q w;
    next_run_id = suc w.next_run_id;
  };
  handle = new_handle q w.next_run_id w.ctx.now;
}

-- What the outcome of the body makes of the run, and of the scope.
abbrev pub status_of : Outcome Scope (Unit {0}) → String
status_of (done _ _) = "succeeded"
status_of (raised _ _) = "failed"

abbrev pub error_of : (Error → String) → Outcome Scope (Unit {0}) → Option String
error_of format (done _ _) = none
error_of format (raised e _) = some (truncate_tb (format e))

abbrev pub leaves : Outcome Scope (Unit {0}) → World → Outcome World (Unit {0})
leaves (done _ _) w = done tt w
leaves (raised e _) w = raised e w

-- Keys come from a sequence.
abbrev pub Fresh : World → Type 0
Fresh w = All (λ (r : RunRow). r.id < w.next_run_id) w.saved.runs

open_fine :
    (q : Request) (w : World)
    → refused w.ctx ≡ false
    → knows_source q.source_id w.saved.sources ≡ true
    → open_run q (record w { live = w.saved }) ≡ done (started q w).handle (started q w).world
unfolding open_run running_row
open_fine q w fine known = rw (known, audit_fine, fine) refl

pub put_back-leaves :
    (f : World → World) (o : Outcome Scope (Unit {0})) (w : World)
    → put_back f (leaves o w) ≡ leaves o (f w)
put_back-leaves f (done _ t) w = refl
put_back-leaves f (raised e t) w = refl

state-put_back :
    {A B : Type 0} (f : World → World) (o : Outcome World A) (g : World → B) (b : B)
    → ((v : World) → g (f v) ≡ b)
    → g (state (put_back f o)) ≡ b
state-put_back f (done _ v) g b h = h v
state-put_back f (raised e v) g b h = h v

module _ (format : Error → String) where
  in_scope-refused :
      (body : List Step) (s : Scope) (o : Outcome Scope (Unit {0}))
      → run_body body (in_world s.handle s.world) ≡ o
      → refused (state o).world.ctx ≡ true
      → (w' : World) × (in_scope format body s.handle s.world ≡ raised audit_missing_actor w')
        × (w'.saved ≡ (state o).world.saved)
  unfolding in_scope finish
  in_scope-refused body s (done _ t) e no_actor =
      let (w', ran, kept) = close_refused t.handle "succeeded" none t.world no_actor in
      (w', ap (finish format) e ∙ rw ran refl, kept)
  in_scope-refused body s (raised x t) e no_actor =
      let (w', ran, kept) =
        close_refused t.handle "failed" (some (truncate_tb (format x))) t.world no_actor in
      (w', ap (finish format) e ∙ rw ran refl, kept)

  -- A run of a known source, entered where it is not refused, whose body ends in strict mode with no
  -- actor set: the scope raises AuditMissingActor, also where the body returned or raised another
  -- error, and what stays in the database is the row as it was inserted, running for good, and the
  -- start event; what the body's calls on the handle recorded is rolled back.
  pub run_left_running :
      (q : Request) (body : List Step) (w : World) (o : Outcome Scope (Unit {0}))
      → refused w.ctx ≡ false
      → knows_source q.source_id w.saved.sources ≡ true
      → run_body body (started q w) ≡ o
      → refused (state o).world.ctx ≡ true
      → (w' : World) × (run_scope format q body w ≡ raised audit_missing_actor w')
        × (w'.saved ≡ started_db q w)
        × (w'.live ≡ w'.saved)
  unfolding run_scope with_connection
  run_left_running q body w o entered known e no_actor =
      let (w1, ran, kept) = in_scope-refused body (started q w) o e no_actor in
      let frame : IsBodyOf (started q w) (state o) =
        subst (λ u. IsBodyOf (started q w) (state u)) e (body-IsBodyOf body (started q w)) in
      (
        record w1 { live = w1.saved },
        rw (assert_actor_lem, entered, open_fine q w entered known, ran) refl,
        kept ∙ frame.saved,
        refl,
      )

  -- A scope that may not be entered, or whose source is not known, raises AuditMissingActor or
  -- UnknownSource, runs no step of its body and changes nothing that is committed.
  pub run_not_entered :
      (q : Request) (body : List Step) (w : World)
      → refused w.ctx || not (knows_source q.source_id w.saved.sources) ≡ true
      → run_scope format q body w ≡ (
          if refused w.ctx
          then raised audit_missing_actor w
          else raised (unknown_source q.source_id) (record w { live = w.saved }))
  unfolding run_scope with_connection open_run
  run_not_entered q body w h = elim (Bool-cases (refused w.ctx)) [
    | inl no_actor ↦ rw (assert_actor_lem, no_actor) refl
    | inr fine ↦
        let unknown : knows_source q.source_id w.saved.sources ≡ false = ground (arith, fine, h) in
        rw (assert_actor_lem, fine, unknown) refl
  ]
