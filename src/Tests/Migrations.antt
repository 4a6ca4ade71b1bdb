-- ===== src/Tests/Migrations.antt =====
-- A database that is upgraded and downgraded: the tables and indexes that it has, the newest first.
use mathlib.Core.List.{reverse}
use astropath_dns_relay.Prelude.{
  Bool, true, false, ◌||◌, ◌≡◌, refl, String, string_eq, Option, none, some, List, [], ◌∷◌, arith,
  ◌==◌, if◌then◌else◌,
}
use astropath_dns_relay.Migrations.{
  Operation, create_table, create_index, drop_index, drop_table, upgrade, downgrade, run,
  upgrade_operations,
}
use astropath_dns_relay.Migrations.Undo.{IsUndone, downgrade-upgrade}

abbrev is_table : String → Operation → Bool
is_table name (create_table t) = t.name == name
is_table name _ = false

abbrev is_index : String → Operation → Bool
is_index name (create_index i) = i.name == name
is_index name _ = false

abbrev exists : (Operation → Bool) → List Operation → Bool
exists p [] = false
exists p (made ∷ db) = p made || exists p db

abbrev removes : (Operation → Bool) → List Operation → Option (List Operation)
removes p [] = none
removes p (made ∷ db) =
    let rest = removes p db in
    if p made then some db else elim rest [ none ↦ none | some db' ↦ some (made ∷ db') ]

abbrev add : Bool → Operation → List Operation → Option (List Operation)
add true operation db = none
add false operation db = some (operation ∷ db)

abbrev execute : Operation → List Operation → Option (List Operation)
execute (create_table t) db = add (exists (is_table t.name) db) (create_table t) db
execute (create_index i) db =
    if exists (is_table i.table_name) db
    then add (exists (is_index i.name) db) (create_index i) db
    else none
execute (drop_table name) db = removes (is_table name) db
execute (drop_index name table_name) db = removes (is_index name) db

execute-IsUndone : IsUndone execute
execute-IsUndone (drop_table name) (create_table t) db db' h e =
    ground (arith, string_eq.beq_iff t.name name)
execute-IsUndone (drop_index name table_name) (create_index i) db db' h e =
    ground (arith, string_eq.beq_iff i.name name)
execute-IsUndone d u db db' h e = absurd h

upgraded : upgrade execute [] ≡ some (reverse upgrade_operations)
unfolding upgrade run upgrade_operations
upgraded = refl

downgrade-upgrade_example : downgrade execute (reverse upgrade_operations) ≡ some []
downgrade-upgrade_example =
    downgrade-upgrade execute [] (reverse upgrade_operations) execute-IsUndone upgraded
