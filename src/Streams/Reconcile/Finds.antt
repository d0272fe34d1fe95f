-- ===== src/Streams/Reconcile/Finds.antt =====
-- What `_reconcile_unindexed_xadd` finds: every entry of the event that stays in the stream.
use mathlib.Core.Path.{subst}
use aslan_core.Base.{ℕ, String, some, List, [], ◌∷◌, ◌≡◌, refl, sym, inl, inr, str_eq_refl}
use aslan_core.Base.Sort.{In}
use aslan_core.Action.{done, bind-eq-done, state, Keeps, Keeps-done}
use aslan_core.Result.{Result, ok, err}
use aslan_core.Streams.Ids.{RedisId}
use aslan_core.Streams.Services.{Entry, get_field, Services}
use aslan_core.Streams.Reconcile.{
  Copy, answer, copy_of, Hub, call, index_copy, index_match, index_page,
}
use aslan_core.Streams.Reconcile.Copies.{In-insert_copy, insert_copy-keeps}
use aslan_core.Streams.Reconcile.Kept.{Stable, index_page-Keeps}

-- The entry `x` stays in the stream `n` while `P` holds of the surroundings, which reads and
-- statements of the database keep.
pub record Lasts {E : Type 0} (svc : Services E) (stream : E → String → List Entry) (n : String)
    (x : Entry) (P : E → Type 0) : Type 0 where
  pub there : (e : E) → P e → In x (stream e n)
  pub statement : (e : E) → P e → P (svc.statement e).1
  pub xrange : (m : String) (lo hi : RedisId) (c : ℕ) (e : E) → P e → P (svc.xrange m lo hi c e).1
  pub xinfo : (m : String) (e : E) → P e → P (svc.xinfo_stream m e).1

answer-env :
    {E A : Type 0} (P : E → Type 0) (h : Hub E) (r : Result A × E)
    → P r.1
    → P (state (answer h r)).env
answer-env P h (ok a, e) p = p
answer-env P h (err x, e) p = p

pub answer-durable :
    {E A : Type 0} (h : Hub E) (r : Result A × E) → (state (answer h r)).durable ≡ h.durable
answer-durable h (ok a, e) = refl
answer-durable h (err x, e) = refl

call-durable :
    {E A : Type 0} (Q : List Copy → Type 0) (f : E → Result A × E)
    → Keeps (λ h. Q h.durable) (call f)
call-durable Q f h q = subst Q (sym (answer-durable h (f h.env))) q

module _ {E : Type 0} (svc : Services E) where
  pub durable-Stable : (c : Copy) → Stable svc (λ h. In c h.durable)
  durable-Stable c = record {
    statement = call-durable (In c) svc.statement;
    xrange = λ n lo hi count. call-durable (In c) (svc.xrange n lo hi count);
    xinfo = λ n. call-durable (In c) (svc.xinfo_stream n);
    insert = λ d h i. insert_copy-keeps d c h.durable i;
  }

  pub index_copy_indexes :
      (c : Copy) (h : Hub E) {a : Unit {0}} {h' : Hub E}
      → index_copy svc c h ≡ done a h'
      → In c h'.durable
  unfolding index_copy
  index_copy_indexes c h {a} {h'} d =
      let (u, h1, d1, rest) = bind-eq-done (call svc.statement h) _ d in
      let (v, h2, d2, rest') = bind-eq-done (call svc.statement h1) _ rest in
      Keeps-done (λ g. In c g.durable) _ rest' (In-insert_copy c h2.durable)

  module _ (n event : String) (x : Entry) (field : get_field x.fields "event_id" ≡ some event) where
    abbrev pub Indexed : Hub E → Type 0
    Indexed h = In (copy_of svc n event x.rid) h.durable

    index_match_indexes :
        (h : Hub E) {a : Unit {0}} {h' : Hub E}
        → index_match svc n event x h ≡ done a h'
        → Indexed h'
    unfolding index_match
    index_match_indexes h d =
        index_copy_indexes (copy_of svc n event x.rid) h (rw (field, str_eq_refl event) at d)

    pub index_page_indexes :
        (page : List Entry) (h : Hub E) {a : Unit {0}} {h' : Hub E}
        → In x page
        → index_page svc n event page h ≡ done a h'
        → Indexed h'
    unfolding index_page
    index_page_indexes [] h i d = elim i [ ]
    index_page_indexes (y ∷ page) h (inl e) d =
        let (a, h1, d1, d2) = bind-eq-done (index_match svc n event y h) _ d in
        Keeps-done Indexed _ d2 (
          index_page-Keeps svc Indexed (durable-Stable (copy_of svc n event x.rid)) n event page h1
            (index_match_indexes h (rw (sym e) at d1)))
    index_page_indexes (y ∷ page) h (inr i) d =
        let (a, h1, d1, d2) = bind-eq-done (index_match svc n event y h) _ d in
        index_page_indexes page h1 i d2

pub Lasts-Stable :
    {E : Type 0} (svc : Services E) (stream : E → String → List Entry) (n : String) (x : Entry)
    (P : E → Type 0)
    → Lasts svc stream n x P
    → Stable svc (λ h. P h.env)
Lasts-Stable svc stream n x P lasts = record {
  statement = λ h p. answer-env P h (svc.statement h.env) (lasts.statement h.env p);
  xrange =
      λ m lo hi c h p. answer-env P h (svc.xrange m lo hi c h.env) (lasts.xrange m lo hi c h.env p);
  xinfo = λ m h p. answer-env P h (svc.xinfo_stream m h.env) (lasts.xinfo m h.env p);
  insert = λ c h p. p;
}
