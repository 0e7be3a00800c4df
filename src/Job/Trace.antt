-- ===== src/Job/Trace.antt =====
-- src/job.rs: `TraceLevel` and `TraceDest`.
use mapepire_rs.Prelude.{String}

pub data TraceLevel : Type 0 where
  off errors datastream everything : TraceLevel

unfoldable pub level_str : TraceLevel → String
level_str TraceLevel.off = "OFF"
level_str TraceLevel.errors = "ERRORS"
level_str TraceLevel.datastream = "DATASTREAM"
level_str TraceLevel.everything = "ON"

pub data TraceDest : Type 0 where
  file in_mem : TraceDest

unfoldable pub dest_str : TraceDest → String
dest_str TraceDest.file = "FILE"
dest_str TraceDest.in_mem = "IN_MEM"
