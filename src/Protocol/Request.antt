-- ===== src/Protocol/Request.antt =====
-- src/protocol/request.rs: the requests that a client sends.
use mapepire_rs.Prelude.{ℕ, String, Bool, Option, List}
use mapepire_rs.Protocol.Json.{Value}

pub data Request : Type 0 where
  connect : (id technique application : String) (props : Option String) → Request
  sql :
      (id text : String) (rows : Option ℕ) (parameters : Option (List Value)) (terse : Option Bool)
      → Request
  prepare_sql : (id text : String) (terse : Option Bool) → Request
  prepare_sql_execute :
      (id text : String) (parameters : Option (List (List Value))) (rows : Option ℕ)
      (terse : Option Bool)
      → Request
  execute :
      (id cont_id : String) (parameters : Option (List Value)) (rows : Option ℕ)
      (terse : Option Bool)
      → Request
  sql_more : (id cont_id : String) (rows : ℕ) → Request
  sql_close : (id cont_id : String) → Request
  cl : (id cmd : String) (terse : Option Bool) → Request
  get_version : (id : String) → Request
  get_db_job : (id : String) → Request
  set_config : (id tracelevel tracedest : String) → Request
  get_trace_data : (id : String) → Request
  dove : (id text : String) (run : Option Bool) (rows : Option ℕ) (terse : Option Bool) → Request
  ping : (id : String) → Request
  exit : (id : String) → Request
