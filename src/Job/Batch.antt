-- ===== src/Job/Batch.antt =====
-- src/query.rs, `Query::execute_batch`: the requests that a batch sends, and what it comes to.
use mapepire_rs.Prelude.{
  ℕ, suc, ◌+◌, ◌≡◌, refl, sym, subst, ap, String, none, some, List, [], ◌∷◌, ◌++◌, ◌∙◌, arith,
  Result, ok, err, length,
}
use mapepire_rs.Protocol.Json.{Value}
use mapepire_rs.Protocol.Response.{Response}
use mapepire_rs.Protocol.Ids.{next, close_id}
use mapepire_rs.Protocol.Request.{Request, sql_close}
use mapepire_rs.Error.{Error}
use mapepire_rs.Client.{Session, Server, next_id}
use mapepire_rs.Query.Options.{default_rows, terse_on_wire}
use mapepire_rs.Query.Rows.{Rows, drop_rows, spawn_close}
use mapepire_rs.Query.Statement.{
  Query, execute_request, execute_inner, execute_with, execute_batch, batch_loop, drop_each,
}
use mapepire_rs.Job.Execute.{with_answer}

-- The closes of the cursors that rows have open, the last one sent first.
abbrev pub closes_of : List Rows → List Request → List Request
closes_of [] sent = sent
closes_of (rows ∷ out) sent =
    closes_of out
      (elim rows.cursor [ none ↦ sent | some cursor ↦ sql_close (close_id cursor) cursor ∷ sent ])

drop_rows-sent :
    (rows : Rows) (s : Session) → (drop_rows rows s).sent ≡ closes_of (rows ∷ []) s.sent
unfolding drop_rows spawn_close
drop_rows-sent rows s = ground arith

drop_each-sent : (out : List Rows) (s : Session) → (drop_each out s).sent ≡ closes_of out s.sent
unfolding drop_each
drop_each-sent [] s = refl
drop_each-sent (rows ∷ out) s =
    drop_each-sent out (drop_rows rows s) ∙ ap (closes_of out) (drop_rows-sent rows s)

append_nil : (out : List Rows) → out ++ [] ≡ out
append_nil [] = refl
append_nil (rows ∷ out) = ap (◌∷◌ rows) (append_nil out)

append_one :
    (out : List Rows) (first : Rows) (rest : List Rows)
    → (out ++ first ∷ []) ++ rest ≡ out ++ first ∷ rest
append_one [] first rest = refl
append_one (rows ∷ out) first rest = ap (◌∷◌ rows) (append_one out first rest)

with_answer-session :
    (debug : Response → String) (id : String) (n : ℕ) (answer : Result Response Error) (s : Session)
    → (with_answer debug id n answer s).1 ≡ s
with_answer-session debug id n (ok response) s = refl
with_answer-session debug id n (err e) s = refl

module _ (debug : Response → String) (serve : Server) (q : Query) where
  execute_with-sent :
      (params : List Value) (s : Session)
      → length (execute_with debug serve q params s).1.sent ≡ suc (length s.sent)
  unfolding execute_with execute_inner next_id terse_on_wire
  execute_with-sent params s =
      let request = execute_request q (next s.ids).0 (some params) default_rows none in
      ap (λ t. length t.sent)
        (with_answer-session debug (next s.ids).0 default_rows
          (serve (record s { ids = (next s.ids).1 }) request)
          (record { ids = (next s.ids).1; sent = request ∷ s.sent }))

  -- The executes of some parameter lists, one after the other, all of which yield rows.
  pub data Executes : List (List Value) → Session → List Rows → Session → Type 0 where
    over : {s : Session} → Executes [] s [] s
    one_more :
        {params : List Value} {batches : List (List Value)} {s t u : Session} {first : Rows}
        {rest : List Rows}
        → execute_with debug serve q params s ≡ (ok first, t)
        → Executes batches t rest u
        → Executes (params ∷ batches) s (first ∷ rest) u

  Executes-counts :
      {batches : List (List Value)} {s t : Session} {rows : List Rows}
      → Executes batches s rows t
      → (length rows ≡ length batches) × (length t.sent ≡ length batches + length s.sent)
  Executes-counts over = (refl, omega arith)
  Executes-counts (one_more {params} {batches} {s} {t} h rest) =
      let (rows, sent) = Executes-counts rest in
      (ap suc rows, omega (arith, sent, execute_with-sent params s, ap (λ x. length x.1.sent) h))

  -- Where a batch failed: the lists before `params` yield `rows`, the execute of `params` fails, and
  -- `t` is left when the rows are dropped with the rows that the batch had before.
  pub record Failure (out : List Rows) (batches : List (List Value)) (e : Error) (s t : Session)
      : Type 0 where
    pub before : List (List Value)
    pub params : List Value
    pub after : List (List Value)
    pub rows : List Rows
    pub middle : Session
    pub last : Session
    pub splits : batches ≡ before ++ params ∷ after
    pub succeed : Executes before s rows middle
    pub fails : execute_with debug serve q params middle ≡ (err e, last)
    pub closes : t.sent ≡ closes_of (out ++ rows) last.sent

  abbrev Outcome :
      List Rows → List (List Value) → Session → Result (List Rows) Error × Session → Type 0
  Outcome out batches s (ok all, t) =
      (rows : List Rows) × (all ≡ out ++ rows) × Executes batches s rows t
  Outcome out batches s (err e, t) = Failure out batches e s t

  extend :
      (out : List Rows) (params : List Value) (batches : List (List Value)) (s u : Session)
      (first : Rows) (x : Result (List Rows) Error × Session)
      → execute_with debug serve q params s ≡ (ok first, u)
      → Outcome (out ++ first ∷ []) batches u x
      → Outcome out (params ∷ batches) s x
  extend out params batches s u first (ok all, t) h (rows, e, rest) =
      (first ∷ rows, e ∙ append_one out first rows, one_more h rest)
  extend out params batches s u first (err e, t) h f = record {
    before = params ∷ f.before;
    params = f.params;
    after = f.after;
    rows = first ∷ f.rows;
    middle = f.middle;
    last = f.last;
    splits = ap (◌∷◌ params) f.splits;
    succeed = one_more h f.succeed;
    fails = f.fails;
    closes = f.closes ∙ ap (λ r. closes_of r f.last.sent) (append_one out first f.rows);
  }

  -- What the loop makes of one execute.
  abbrev go_on :
      List Rows
      → List (List Value)
      → Result Rows Error × Session
      → Result (List Rows) Error × Session
  go_on out batches r = elim r.0 [
    | ok rows ↦ batch_loop debug serve q (out ++ rows ∷ []) batches r.1
    | err e ↦ (err e, drop_each out r.1)
  ]

  go_on-Outcome :
      (out : List Rows) (params : List Value) (batches : List (List Value)) (s : Session)
      (r : Result Rows Error × Session)
      → execute_with debug serve q params s ≡ r
      → ((out' : List Rows) (u : Session)
          → Outcome out' batches u (batch_loop debug serve q out' batches u))
      → Outcome out (params ∷ batches) s (go_on out batches r)
  go_on-Outcome out params batches s (ok first, u) h rest =
      extend out params batches s u first _ h (rest (out ++ first ∷ []) u)
  go_on-Outcome out params batches s (err e, u) h rest = record {
    before = [];
    params = params;
    after = batches;
    rows = [];
    middle = s;
    last = u;
    splits = refl;
    succeed = over;
    fails = h;
    closes = drop_each-sent out u ∙ ap (λ r. closes_of r u.sent) (sym (append_nil out));
  }

  batch_loop-Outcome :
      (out : List Rows) (batches : List (List Value)) (s : Session)
      → Outcome out batches s (batch_loop debug serve q out batches s)
  unfolding batch_loop
  batch_loop-Outcome out [] s = ([], sym (append_nil out), over)
  batch_loop-Outcome out (params ∷ batches) s =
      go_on-Outcome out params batches s (execute_with debug serve q params s) refl
        (λ out' u. batch_loop-Outcome out' batches u)

  -- What a batch from `s` to `t` comes to.
  abbrev pub BatchOutcome :
      List (List Value) → Session → Result (List Rows) Error × Session → Type 0
  BatchOutcome batches s (ok rows, t) =
      Executes batches s rows t
      × (length rows ≡ length batches)
      × (length t.sent ≡ length batches + length s.sent)
  BatchOutcome batches s (err e, t) = Failure [] batches e s t

  outcome :
      (batches : List (List Value)) (s : Session) (x : Result (List Rows) Error × Session)
      → Outcome [] batches s x
      → BatchOutcome batches s x
  outcome batches s (ok all, t) (rows, same, all_ran) =
      let ran = subst (λ r. Executes batches s r t) (sym same) all_ran in
      let (rows', sent) = Executes-counts ran in (ran, rows', sent)
  outcome batches s (err e, t) f = f

  -- A batch that succeeds has executed its parameter lists one after the other, has rows for each and
  -- has sent one request for each. A batch that fails stops at the first list whose execute fails:
  -- the lists before it have been executed and yielded rows, and after its request only the closes
  -- of the cursors that those rows have open are sent, one for each and the first rows' first.
  pub batch_outcome :
      (batches : List (List Value)) (s : Session)
      → BatchOutcome batches s (execute_batch debug serve q batches s)
  unfolding execute_batch
  batch_outcome batches s = outcome batches s _ (batch_loop-Outcome [] batches s)
