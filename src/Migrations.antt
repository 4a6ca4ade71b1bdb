-- ===== src/Migrations.antt =====
-- alembic/versions/0001_m2_baseline_schema.py: the schema of the database. The calls of Alembic's `op`
-- are data, in the order of the code, and what the database does for each is a parameter.
pub mod Undo
use astropath_dns_relay.Prelude.{Bool, true, false, String, Option, none, some, List, [], ◌∷◌}
use astropath_dns_relay.Prelude.Optional.{◌>>=◌}

pub data ColumnType : Type 0 where
  integer auto_string date_time large_binary : ColumnType

pub record Column : Type 0 where
  pub name : String
  pub type : ColumnType
  pub nullable : Bool

pub data Constraint : Type 0 where
  primary_key : String → Constraint
  -- The column, the column that it refers to, and `ondelete`.
  foreign_key : (column target : String) → Option String → Constraint

pub record Table : Type 0 where
  pub name : String
  pub columns : List Column
  pub constraints : List Constraint

pub record Index : Type 0 where
  pub name : String
  pub table_name : String
  pub column : String
  pub unique : Bool

pub data Operation : Type 0 where
  create_table : Table → Operation
  create_index : Index → Operation
  drop_index : (name table_name : String) → Operation
  drop_table : String → Operation

abbrev column : String → ColumnType → Column
column name type = record { name = name; type = type; nullable = false }

abbrev nullable_column : String → ColumnType → Column
nullable_column name type = record { name = name; type = type; nullable = true }

abbrev table : String → List Column → List Constraint → Operation
table name columns constraints =
    create_table (record { name = name; columns = columns; constraints = constraints })

abbrev index : (name table_name column : String) → Bool → Operation
index name table_name column unique =
    create_index (record { name = name; table_name = table_name; column = column; unique = unique })

-- The calls of `upgrade`.
unfoldable pub upgrade_operations : List Operation
upgrade_operations =
    table "admincredential"
      (column "id" integer
        ∷ column "password_hash" auto_string
        ∷ column "updated_at" date_time
        ∷ [])
      (primary_key "id" ∷ [])
    ∷ table "apitoken"
        (column "id" integer
          ∷ column "name" auto_string
          ∷ column "token_hash" auto_string
          ∷ column "created_at" date_time
          ∷ nullable_column "last_used_at" date_time
          ∷ [])
        (primary_key "id" ∷ [])
    ∷ index "ix_apitoken_name" "apitoken" "name" false
    ∷ index "ix_apitoken_token_hash" "apitoken" "token_hash" true
    ∷ table "backend"
        (column "id" integer
          ∷ column "name" auto_string
          ∷ column "type" auto_string
          ∷ column "config_encrypted" large_binary
          ∷ column "created_at" date_time
          ∷ column "updated_at" date_time
          ∷ [])
        (primary_key "id" ∷ [])
    ∷ index "ix_backend_name" "backend" "name" true
    ∷ index "ix_backend_type" "backend" "type" false
    ∷ table "tsigkey"
        (column "id" integer
          ∷ column "name" auto_string
          ∷ column "algorithm" auto_string
          ∷ column "secret_encrypted" large_binary
          ∷ column "created_at" date_time
          ∷ [])
        (primary_key "id" ∷ [])
    ∷ index "ix_tsigkey_name" "tsigkey" "name" true
    ∷ table "challengeevent"
        (column "id" integer
          ∷ column "ts" date_time
          ∷ column "zone" auto_string
          ∷ column "record_name" auto_string
          ∷ column "action" auto_string
          ∷ column "provider" auto_string
          ∷ column "result" auto_string
          ∷ column "latency_ms" integer
          ∷ nullable_column "tsig_key_id" integer
          ∷ column "source" auto_string
          ∷ nullable_column "error_detail" auto_string
          ∷ [])
        (foreign_key "tsig_key_id" "tsigkey.id" (some "SET NULL") ∷ primary_key "id" ∷ [])
    ∷ index "ix_challengeevent_tsig_key_id" "challengeevent" "tsig_key_id" false
    ∷ index "ix_challengeevent_zone" "challengeevent" "zone" false
    ∷ table "domain"
        (column "id" integer
          ∷ column "zone" auto_string
          ∷ column "backend_id" integer
          ∷ column "record_name" auto_string
          ∷ nullable_column "secret_encrypted" large_binary
          ∷ column "created_at" date_time
          ∷ [])
        (foreign_key "backend_id" "backend.id" none ∷ primary_key "id" ∷ [])
    ∷ index "ix_domain_backend_id" "domain" "backend_id" false
    ∷ index "ix_domain_zone" "domain" "zone" true
    ∷ []

-- The calls of `downgrade`.
unfoldable pub downgrade_operations : List Operation
downgrade_operations =
    drop_index "ix_domain_zone" "domain"
    ∷ drop_index "ix_domain_backend_id" "domain"
    ∷ drop_table "domain"
    ∷ drop_index "ix_challengeevent_zone" "challengeevent"
    ∷ drop_index "ix_challengeevent_tsig_key_id" "challengeevent"
    ∷ drop_table "challengeevent"
    ∷ drop_index "ix_tsigkey_name" "tsigkey"
    ∷ drop_table "tsigkey"
    ∷ drop_index "ix_backend_type" "backend"
    ∷ drop_index "ix_backend_name" "backend"
    ∷ drop_table "backend"
    ∷ drop_index "ix_apitoken_token_hash" "apitoken"
    ∷ drop_index "ix_apitoken_name" "apitoken"
    ∷ drop_table "apitoken"
    ∷ drop_table "admincredential"
    ∷ []

-- `S` is the state of the database, and `execute` none where it raises.
module _ {S : Type 0} (execute : Operation → S → Option S) where
  unfoldable pub run : List Operation → S → Option S
  run [] s = some s
  run (operation ∷ operations) s = execute operation s >>= run operations

  unfoldable pub upgrade : S → Option S
  unfolding run upgrade_operations
  upgrade s = run upgrade_operations s

  unfoldable pub downgrade : S → Option S
  unfolding run downgrade_operations
  downgrade s = run downgrade_operations s
