-- ===== src/Transport/Dispatcher/Table.antt =====
-- src/transport/dispatcher.rs: the `HashMap` of pending requests, as a list of entries. The order
-- in which a `HashMap` drains is not specified; here it is the order of the list.
use mapepire_rs.Prelude.{ℕ, String, Option, none, some, List, [], ◌∷◌, if◌then◌else◌, map}
use mapepire_rs.Prelude.Text.{str_eq}
use mapepire_rs.Transport.Kinds.{PendingKind}

pub record Pending : Type 0 where
  pub reply : ℕ
  pub kind : PendingKind

abbrev pub Map : Type 0
Map = List (String × Pending)

abbrev put_back : String × Pending → Option (Pending × Map) → Option (Pending × Map)
put_back e none = none
put_back e (some (p, rest)) = some (p, e ∷ rest)

-- `HashMap::remove`, with the map that is left.
unfoldable pub take_entry : String → Map → Option (Pending × Map)
take_entry id [] = none
take_entry id ((j, p) ∷ rest) =
    if str_eq j id then some (p, rest) else put_back (j, p) (take_entry id rest)

abbrev pub left_after : Option (Pending × Map) → Map → Map
left_after none m = m
left_after (some (p, rest)) m = rest

-- `HashMap::insert`: an entry under the same id is replaced.
unfoldable pub insert_entry : String → Pending → Map → Map
unfolding take_entry
insert_entry id p m = (id, p) ∷ left_after (take_entry id m) m

abbrev pub slots : Map → List ℕ
slots m = map (λ e. e.1.reply) m
