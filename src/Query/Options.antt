-- ===== src/Query/Options.antt =====
-- src/query.rs: `ExecuteOptions` and the check of parameter sets.
use mapepire_rs.Prelude.{
  ℕ, zero, suc, Bool, true, false, Option, none, some, List, [], ◌∷◌, Result, ok, err,
  if◌then◌else◌,
}
use mapepire_rs.Protocol.Json.{Value}
use mapepire_rs.Error.{Error, protocol, zero_page_size, empty_parameter_sets}

pub record ExecuteOptions : Type 0 where
  pub rows : Option ℕ
  pub terse : Bool

abbrev pub default_rows : ℕ
default_rows = 100

-- `ExecuteOptions::default()`.
abbrev pub default_options : ExecuteOptions
default_options = record { rows = none; terse = false }

abbrev page_size_of : Option ℕ → Result ℕ Error
page_size_of none = ok default_rows
page_size_of (some zero) = err (protocol zero_page_size)
page_size_of (some (suc n)) = ok (suc n)

unfoldable pub resolved_rows : ExecuteOptions → Result ℕ Error
resolved_rows opts = page_size_of opts.rows

unfoldable pub terse_on_wire : ExecuteOptions → Option Bool
terse_on_wire opts = if opts.terse then some true else none

unfoldable pub owned_parameter_sets : List (List Value) → Result (List (List Value)) Error
owned_parameter_sets [] = err (protocol empty_parameter_sets)
owned_parameter_sets (s ∷ ss) = ok (s ∷ ss)
