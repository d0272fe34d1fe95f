-- ===== src/Ingestion/Run/Counters.antt =====
-- The counters that an ingestion run is closed with.
use mathlib.Core.Path.{subst}
use aslan_core.Base.{String, Option, none, some, List, [], ◌∷◌, ◌≡◌, refl, Bool-cases, inl, inr}
use aslan_core.Action.{Outcome, done, state, bind-eq-done}
use aslan_core.Json.{ℤ, Fields, field, int, end}
use aslan_core.Audit.Attribution.{refused}
use aslan_core.Ingestion.Handle.{
  Handle, Scope, run_record, Step, step, run_body, emit_handle_audit, increment_rows, rows_field,
  set_metadata, ◌+ℤ◌, rows_step, docs_step, bytes_step, errors_step, metadata_step, actor_step,
  clock_step, raise_step,
}
use aslan_core.Ingestion.Run.Closing.{audit_fine, audit_refused}

-- What a step adds to each of the four counters.
abbrev pub rows_added : Step → Option ℤ
rows_added (rows_step n) = some n
rows_added _ = none

abbrev pub docs_added : Step → Option ℤ
docs_added (docs_step n) = some n
docs_added _ = none

abbrev pub bytes_added : Step → Option ℤ
bytes_added (bytes_step n) = some n
bytes_added _ = none

abbrev pub errors_added : Step → Option ℤ
errors_added (errors_step n) = some n
errors_added _ = none

abbrev add : Option ℤ → ℤ → ℤ
add none n = n
add (some d) n = n +ℤ d

-- The sum over a body, from a first value.
abbrev pub total : (Step → Option ℤ) → List Step → ℤ → ℤ
total f [] n = n
total f (a ∷ body) n = total f body (add (f a) n)

emit_handle :
    (op : String) (before after : Option Fields) (metadata : Fields) (s : Scope)
    → (state (emit_handle_audit op before after metadata s)).handle ≡ s.handle
unfolding emit_handle_audit
emit_handle op before after metadata s =
    let r = run_record s.handle.id op before after metadata in
    elim (Bool-cases s.handle.connected) [
      | inr alone ↦ rw alone refl
      | inl connected ↦ elim (Bool-cases (refused s.world.ctx)) [
        | inl no_actor ↦ rw (connected, audit_refused r s.world no_actor) refl
        | inr fine ↦ rw (connected, audit_fine r s.world fine) refl
      ]
    ]

-- The four counters of `t`, after a step from `s`.
record IsCounted (a : Step) (h k : Handle) : Type 0 where
  pub rows : k.rows ≡ add (rows_added a) h.rows
  pub docs : k.docs ≡ add (docs_added a) h.docs
  pub bytes : k.bytes ≡ add (bytes_added a) h.bytes
  pub errors : k.errors ≡ add (errors_added a) h.errors

step-IsCounted : (a : Step) (s : Scope) → IsCounted a s.handle (state (step a s)).handle
unfolding step increment_rows set_metadata
step-IsCounted (rows_step n) s =
    let counted : Scope = record s { handle = record (s.handle) { rows = s.handle.rows +ℤ n } } in
    rw
      (emit_handle "ingestion_run.increment_rows" (some (rows_field s.handle.rows))
        (some (rows_field counted.handle.rows)) (field "delta" (int n) end) counted)
      (record { rows = refl; docs = refl; bytes = refl; errors = refl })
step-IsCounted (docs_step n) s = record { rows = refl; docs = refl; bytes = refl; errors = refl }
step-IsCounted (bytes_step n) s = record { rows = refl; docs = refl; bytes = refl; errors = refl }
step-IsCounted (errors_step n) s = record { rows = refl; docs = refl; bytes = refl; errors = refl }
step-IsCounted (metadata_step d) s = record {
  rows = refl;
  docs = refl;
  bytes = refl;
  errors = refl;
}
step-IsCounted (actor_step a) s = record { rows = refl; docs = refl; bytes = refl; errors = refl }
step-IsCounted (clock_step now) s = record { rows = refl; docs = refl; bytes = refl; errors = refl }
step-IsCounted (raise_step e) s = record { rows = refl; docs = refl; bytes = refl; errors = refl }

-- A body that returns leaves in each counter of the handle what it had and the sum, in order, of what
-- the body's calls of that counter's method added; no other call changes it.
pub run_body_counts :
    (body : List Step) (s s' : Scope)
    → run_body body s ≡ done tt s'
    → (s'.handle.rows ≡ total rows_added body s.handle.rows)
      × (s'.handle.docs ≡ total docs_added body s.handle.docs)
      × (s'.handle.bytes ≡ total bytes_added body s.handle.bytes)
      × (s'.handle.errors ≡ total errors_added body s.handle.errors)
unfolding run_body
run_body_counts [] s s' e =
    let same : s ≡ s' = cc in (rw same refl, rw same refl, rw same refl, rw same refl)
run_body_counts (a ∷ body) s s' e =
    let (_, t, ran, rest) = bind-eq-done (step a s) (λ _. run_body body) e in
    let one : IsCounted a s.handle t.handle =
      subst (λ (o : Outcome Scope (Unit {0})). IsCounted a s.handle (state o).handle) ran
        (step-IsCounted a s) in
    rw (← one.rows, ← one.docs, ← one.bytes, ← one.errors) (run_body_counts body t s' rest)
