-- ===== src/Job/Execute.antt =====
-- src/job.rs and src/query.rs: what an execute sends, what it refuses to send, and whose result it
-- returns.
use Prim.Native.String.{◌++◌ as append}
use text.Mathlib.TextLemmas.{nil-append, cons-append}
use mapepire_rs.Prelude.{
  ℕ, zero, suc, ◌≡◌, refl, ap, String, Bool, true, false, Option, none, some, List, [], ◌∷◌, arith,
  if◌then◌else◌, Result, ok, err, unwrap_or,
}
use mapepire_rs.Prelude.Text.{is_empty, str_eq_iff_true, show_ℕ}
use mapepire_rs.Protocol.Json.{Value}
use mapepire_rs.Protocol.Response.{Response, query_result, cursor_handle}
use mapepire_rs.Protocol.Ids.{IdAllocator, next}
use mapepire_rs.Protocol.Rendering.{Rendering}
use mapepire_rs.Error.{Error, protocol, zero_page_size, empty_parameter_sets}
use mapepire_rs.Client.{Session, Server, next_id}
use mapepire_rs.Query.Options.{ExecuteOptions, default_rows, terse_on_wire}
use mapepire_rs.Query.Rows.{Rows, rows_of, accept_rows}
use mapepire_rs.Query.Statement
use mapepire_rs.Query.Statement.{Query}
use mapepire_rs.Job.{execute_request, execute_inner, execute_sets}

-- Neither a job nor a prepared statement sends anything, or uses up an id, for a page size of zero,
-- or for an empty batch whatever its options are: the call fails and the session is as it was.
pub invalid_options_send_nothing :
    (r : Rendering) (serve : Server) (q : Query) (sql : String) (params : Option (List Value))
    (set : List Value) (sets : List (List Value)) (opts any : ExecuteOptions) (s : Session)
    → opts.rows ≡ some 0
    → (execute_inner r serve sql params opts s ≡ (err (protocol zero_page_size), s))
      × (execute_sets r serve sql (set ∷ sets) opts s ≡ (err (protocol zero_page_size), s))
      × (Statement.execute_inner r.response_text serve q params opts s
          ≡ (err (protocol zero_page_size), s))
      × (Statement.execute_sets r.response_text serve q (set ∷ sets) opts s
          ≡ (err (protocol zero_page_size), s))
      × (execute_sets r serve sql [] any s ≡ (err (protocol empty_parameter_sets), s))
      × (Statement.execute_sets r.response_text serve q [] any s
          ≡ (err (protocol empty_parameter_sets), s))
unfolding execute_inner execute_sets Statement.execute_inner Statement.execute_sets
invalid_options_send_nothing r serve q sql params set sets opts any s h =
    (ground (arith, h), ground (arith, h), ground (arith, h), ground (arith, h), refl, refl)

pub next-is_nonempty : (a : IdAllocator) → is_empty (next a).0 ≡ false
unfolding next
next-is_nonempty a = go a.prefix
  where
    go : (p : String) → is_empty (append p (append "-" (show_ℕ a.counter))) ≡ false
    go String.[] =
        rw (nil-append (append "-" (show_ℕ a.counter)), cons-append "-" "" (show_ℕ a.counter))
    go (String.◌∷◌ c p) = rw (cons-append c p (append "-" (show_ℕ a.counter)))

-- The rows of an accepted answer.
abbrev pub Owns : String → ℕ → Rows → Type 0
Owns id page_size rows =
    (rows.inner.id ≡ id)
    × (rows.page_size ≡ page_size)
    × (rows.cursor ≡ (if rows.inner.is_done then none else some id))

accept_rows-Owns :
    (debug : Response → String) (id : String) (page_size : ℕ) (response : Response) (rows : Rows)
    → is_empty id ≡ false
    → accept_rows debug id page_size response ≡ ok rows
    → Owns id page_size rows
unfolding accept_rows rows_of cursor_handle
accept_rows-Owns debug id page_size (query_result q) rows named h =
    ground (arith, str_eq_iff_true q.id id)
accept_rows-Owns debug id page_size _ rows named h = cc

-- What an execute makes of the answer of the daemon.
abbrev pub with_answer :
    (Response → String) → String → ℕ → Result Response Error → Session → Result Rows Error × Session
with_answer debug id n answer s = elim answer [
  | ok response ↦ (accept_rows debug id n response, s)
  | err e ↦ (err e, s)
]

pub after_answer :
    (debug : Response → String) (id : String) (n : ℕ) (answer : Result Response Error) (s : Session)
    (rows : Rows)
    → is_empty id ≡ false
    → (with_answer debug id n answer s).0 ≡ ok rows
    → Owns id n rows × ((with_answer debug id n answer s).1 ≡ s)
after_answer debug id n (ok response) s rows named h =
    (accept_rows-Owns debug id n response rows named h, refl)
after_answer debug id n (err e) s rows named h = absurd (cc)

pub ap_sent : {A : Type 0} {s t : Session} → A × (s ≡ t) → A × (s.sent ≡ t.sent)
ap_sent (a, e) = (a, ap (λ x. x.sent) e)

-- A job's execute that yields rows has sent exactly one request, for the statement with its
-- parameters, under a fresh id and with the page size asked for (100 when none is). The rows carry
-- that id and page size, and their cursor is that id unless the daemon says that it is done.
pub execute_inner-Owns :
    (r : Rendering) (serve : Server) (sql : String) (params : Option (List Value)) (rows : Option ℕ)
    (terse : Bool) (s : Session) (out : Rows)
    → (execute_inner r serve sql params (record { rows = rows; terse = terse }) s).0 ≡ ok out
    → let id = (next s.ids).0 in
      let size = unwrap_or rows default_rows in
      Owns id size out
      × ((execute_inner r serve sql params (record { rows = rows; terse = terse }) s).1.sent
          ≡ execute_request id sql params size (if terse then some true else none) ∷ s.sent)
unfolding execute_inner next_id terse_on_wire
execute_inner-Owns r serve sql params none terse s out h =
    ap_sent
      (after_answer r.response_text (next s.ids).0 default_rows _ _ out (next-is_nonempty s.ids) h)
execute_inner-Owns r serve sql params (some zero) terse s out h = absurd (cc)
execute_inner-Owns r serve sql params (some (suc n)) terse s out h =
    ap_sent (after_answer r.response_text (next s.ids).0 (suc n) _ _ out (next-is_nonempty s.ids) h)
