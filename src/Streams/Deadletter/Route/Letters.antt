-- ===== src/Streams/Deadletter/Route/Letters.antt =====
-- The first step of the routing: the log row of the message.
use mathlib.Core.Path.{subst}
use aslan_core.Base.{
  ℕ, ◌<◌, String, true, ◌&&◌, Option, none, some, List, [], ◌∷◌, ◌++◌, ◌≡◌, refl, sym, ◌∙◌, inl,
  inr, str_eq, str_eq_iff, ◌==◌, All, All-append, Bool-cases, &&-parts, ==_iff, arith,
}
use aslan_core.Base.Sort.{In, In_of_All, All_map}
use aslan_core.Action.{Outcome, done, raised, OnDone, OnDone-bind}
use aslan_core.Streams.Deadletter.Orphan.{ask}
use aslan_core.Streams.Deadletter.Tables.{LogRow, in_log, find_letter}
use aslan_core.Streams.Deadletter.Intent.{Ledger}
use aslan_core.Streams.Deadletter.Adopted.{in_env_then}
use aslan_core.Streams.Deadletter.Route.{
  Routing, rolled, log_row, insert_missing_letter, insert_letter, log_letter,
}
use aslan_core.Streams.Deadletter.Route.Owned.{KeyIs, Owns}

-- The failure ids are below the sequence, and each is of one message.
abbrev pub SameKey : LogRow → LogRow → Type 0
SameKey a b = a.failure_id ≡ b.failure_id → KeyIs a.stream_name a.group_name a.original_message_id b

pub record IsLog {E : Type 0} (w : Ledger E) : Type 0 where
  pub given_out : All (λ l. l.failure_id < w.next_failure_id) w.log
  pub keyed : All (λ a. All (SameKey a) w.log) w.log

find_letter_lem :
    (s g m : String) (rows : List LogRow) {l : LogRow}
    → find_letter s g m rows ≡ some l
    → In l rows × KeyIs s g m l
unfolding find_letter
find_letter_lem s g m [] e = absurd (cc)
find_letter_lem s g m (r ∷ rows) {l} e =
    elim (Bool-cases
      (str_eq r.stream_name s && str_eq r.group_name g && str_eq r.original_message_id m)) [
        | inl here ↦
            let e' : some r ≡ some l = rw here at e in
            let is_r : r ≡ l = cc in (inl (sym is_r), subst (KeyIs s g m) is_r (keys here))
        | inr other ↦ let (i, k) = find_letter_lem s g m rows (rw other at e) in (inr i, k)
      ]
  where
    keys :
        (str_eq r.stream_name s && str_eq r.group_name g && str_eq r.original_message_id m) ≡ true
        → KeyIs s g m r
    keys h =
        let (h12, h3) =
          &&-parts (str_eq r.stream_name s && str_eq r.group_name g)
            (str_eq r.original_message_id m) h in
        let (h1, h2) = &&-parts (str_eq r.stream_name s) (str_eq r.group_name g) h12 in
        (
          (str_eq_iff r.stream_name s).0 h1,
          (str_eq_iff r.group_name g).0 h2,
          (str_eq_iff r.original_message_id m).0 h3,
        )

in_log_of_In :
    (fid : ℕ) (l : LogRow) (rows : List LogRow)
    → l.failure_id ≡ fid
    → In l rows
    → in_log fid rows ≡ true
unfolding in_log
in_log_of_In fid l [] e i = elim i [ ]
in_log_of_In fid l (r ∷ rows) e (inl same) =
    let here : (r.failure_id == fid) ≡ true =
      subst (λ (z : LogRow). (z.failure_id == fid) ≡ true) same ((==_iff l.failure_id fid).1 e) in
    rw here refl
in_log_of_In fid l (r ∷ rows) e (inr i) = elim (Bool-cases (r.failure_id == fid)) [
  | inl here ↦ rw here refl
  | inr other ↦ rw other (in_log_of_In fid l rows e i)
]

In-append : (l : LogRow) (rows : List LogRow) → In l (rows ++ l ∷ [])
In-append l [] = inl refl
In-append l (r ∷ rows) = inr (In-append l rows)

pub OnDone-rolled :
    {E A : Type 0} (Q : A → Ledger E → Type 0) (w : Ledger E) (o : Outcome (Ledger E) A)
    → OnDone Q o
    → OnDone Q (rolled w o)
OnDone-rolled Q w (done a v) h = h
OnDone-rolled Q w (raised x v) h = tt

module _ {E : Type 0} (routing : Routing E) where
  open routing use {svc, post, elsewhere, meanwhile, letter}

  abbrev pub OwnsLetter : ℕ → List LogRow → Type 0
  OwnsLetter = Owns letter.stream letter.group letter.message_id

  -- The row that the first step returns is in the log, under the key of the message.
  abbrev pub Logged : LogRow → Ledger E → Type 0
  Logged l w = OwnsLetter l.failure_id w.log × In l w.log

  log_row-id : (fid now : ℕ) → (log_row routing fid now).failure_id ≡ fid
  unfolding log_row
  log_row-id fid now = refl

  log_row-key :
      (fid now : ℕ) → KeyIs letter.stream letter.group letter.message_id (log_row routing fid now)
  unfolding log_row
  log_row-key fid now = (refl, refl, refl)

  insert_missing_letter-Logged :
      (o : Option LogRow) (w : Ledger E)
      → find_letter letter.stream letter.group letter.message_id w.log ≡ o
      → IsLog w
      → OnDone Logged (insert_missing_letter routing o w)
  insert_missing_letter-Logged (some l) w e log =
      let (i, (k1, k2, k3)) =
        find_letter_lem letter.stream letter.group letter.message_id w.log e in
      (
        (
          in_log_of_In l.failure_id l w.log refl i,
          All_map (SameKey l) _ w.log
              (λ b same same_id.
                let (s1, s2, s3) = same (sym same_id) in (s1 ∙ k1, s2 ∙ k2, s3 ∙ k3))
              (In_of_All (λ a. All (SameKey a) w.log) l w.log log.keyed i),
        ),
        i,
      )
  insert_missing_letter-Logged none w e log = (
    (
      in_log_of_In row.failure_id row (w.log ++ row ∷ []) refl (In-append row w.log),
      All-append
          (λ b.
            b.failure_id ≡ row.failure_id → KeyIs letter.stream letter.group letter.message_id b)
          w.log (row ∷ [])
          (All_map (λ b. b.failure_id < fid) _ w.log
            (λ b lt same. absurd (omega (arith, row_id, lt, same))) log.given_out)
          (row_key, tt),
    ),
    In-append row w.log,
  )
    where
      fid : ℕ
      fid = w.next_failure_id

      row : LogRow
      row = log_row routing fid w.ctx.now

      row_id : row.failure_id ≡ fid
      row_id = log_row-id fid w.ctx.now

      row_key :
          row.failure_id ≡ row.failure_id → KeyIs letter.stream letter.group letter.message_id row
      row_key e = log_row-key fid w.ctx.now

  pub log_letter-Logged :
      (w : Ledger E) → IsLog (meanwhile w) → OnDone Logged (log_letter routing w)
  unfolding log_letter insert_letter
  log_letter-Logged w log = OnDone-rolled Logged (meanwhile w) _ (
      in_env_then Logged (meanwhile w) (ask svc.statement) _ (λ u e d.
        OnDone-bind Logged Logged _ _
          (insert_missing_letter-Logged _ _ refl
            (record { given_out = log.given_out; keyed = log.keyed }))
          (λ l v h. in_env_then Logged v (ask svc.statement) _ (λ u2 e2 d2. h))))
