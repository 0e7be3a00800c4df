-- ===== src/Job/Prepared.antt =====
-- src/query.rs: the executes of a prepared statement.
use mapepire_rs.Prelude.{
  ℕ, zero, suc, ◌≡◌, String, Bool, true, Option, none, some, List, ◌∷◌, if◌then◌else◌, ok,
  unwrap_or,
}
use mapepire_rs.Protocol.Json.{Value}
use mapepire_rs.Protocol.Response.{Response}
use mapepire_rs.Protocol.Ids.{next}
use mapepire_rs.Client.{Session, Server, next_id}
use mapepire_rs.Query.Options.{default_rows, terse_on_wire}
use mapepire_rs.Query.Rows.{Rows}
use mapepire_rs.Query.Statement.{Query, execute_request, execute_inner}
use mapepire_rs.Job.Execute.{Owns, ap_sent, after_answer, next-is_nonempty}

-- An execute of a prepared statement that yields rows has sent exactly one request, by its handle
-- if it has one and as a statement to prepare and execute if not, under a fresh id and with the
-- page size asked for (100 when none is). The rows carry that id and page size, and their cursor is
-- that id unless the daemon says that it is done.
pub prepared_execute-Owns :
    (debug : Response → String) (serve : Server) (q : Query) (params : Option (List Value))
    (rows : Option ℕ) (terse : Bool) (s : Session) (out : Rows)
    → (execute_inner debug serve q params (record { rows = rows; terse = terse }) s).0 ≡ ok out
    → let id = (next s.ids).0 in
      let size = unwrap_or rows default_rows in
      Owns id size out
      × ((execute_inner debug serve q params (record { rows = rows; terse = terse }) s).1.sent
          ≡ execute_request q id params size (if terse then some true else none) ∷ s.sent)
unfolding execute_inner next_id terse_on_wire
prepared_execute-Owns debug serve q params none terse s out h =
    ap_sent (after_answer debug (next s.ids).0 default_rows _ _ out (next-is_nonempty s.ids) h)
prepared_execute-Owns debug serve q params (some zero) terse s out h = absurd (cc)
prepared_execute-Owns debug serve q params (some (suc n)) terse s out h =
    ap_sent (after_answer debug (next s.ids).0 (suc n) _ _ out (next-is_nonempty s.ids) h)
