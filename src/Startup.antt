-- ===== src/Startup.antt =====
-- startup.py: the checks before the process serves. What the calls of the file system, the database and
-- Alembic return is the record `Site`; none where one raises an exception that is not handled.
pub mod Checks
pub mod Ready
use mathlib.Core.Option
use astropath_dns_relay.Prelude.{
  ℕ, Bool, true, false, not, Option, none, some, List, [], ◌∷◌, Text, text_eq, ◌==◌, if◌then◌else◌,
}
use astropath_dns_relay.Prelude.Result.{Result, ok, err, ◌>>=◌, ◌>>◌}
use astropath_dns_relay.Models.{Backend, TsigKey}
use astropath_dns_relay.Crypto.{FernetLibrary, KekError, kek_from_keylist}
use astropath_dns_relay.DataPlane.Tsig.{algorithm_from_text}

-- The messages of `StartupError`, and any other exception.
pub data Failure : Type 0 where
  kek_missing : Failure
  kek_invalid : KekError → Failure
  no_spa_dir : Text → Failure
  unreachable : Failure
  no_migrations : Failure
  stale_schema : (current head : Option Text) → Failure
  unknown_provider : (backend type : Text) → Failure
  unsupported_algorithm : (key algorithm : Text) → Failure
  other_exception : Failure

-- `isinstance(exc, StartupError)`
unfoldable pub is_startup_error : Failure → Bool
is_startup_error other_exception = false
is_startup_error failure = true

unfoldable pub validate_kek :
    {F M T : Type 0} → FernetLibrary F M T → Option Text → Result Failure M
unfolding kek_from_keylist
validate_kek lib none = err kek_missing
validate_kek lib (some []) = err kek_missing
validate_kek lib (some (c ∷ keylist)) = elim (kek_from_keylist lib (c ∷ keylist)) [
  | ok kek ↦ ok kek
  | err e ↦ err (kek_invalid e)
]

pub record Site (T : Type 0) : Type 0 where
  pub spa_dir : Option Text
  pub is_dir : Text → Bool
  -- `database.ping()` returns in time
  pub answers : Bool
  -- `get_current_head`, none for CommandError
  pub head : Option (Option Text)
  pub revision : Option (Option Text)
  pub backends : Option (List (Backend T))
  pub tsig_keys : Option (List (TsigKey T))
  -- `get_provider` finds the type
  pub is_registered : Text → Bool

unfoldable pub check_spa : Option Text → (Text → Bool) → Result Failure (Unit {0})
check_spa none is_dir = ok tt
check_spa (some dir) is_dir = if not (is_dir dir) then err (no_spa_dir dir) else ok tt

unfoldable pub check_ping : Bool → Result Failure (Unit {0})
check_ping answers = if not answers then err unreachable else ok tt

-- `current != head`
unfoldable pub same_revision : Option Text → Option Text → Bool
same_revision none none = true
same_revision none (some head) = false
same_revision (some current) none = false
same_revision (some current) (some head) = current == head

unfoldable pub alembic_head : Option (Option Text) → Result Failure (Option Text)
alembic_head none = err no_migrations
alembic_head (some head) = ok head

-- An exception of the database that is not handled.
unfoldable pub read {ℓ} : {A : Type ℓ} → Option A → Result Failure A
read none = err other_exception
read (some a) = ok a

unfoldable pub check_revision : Option Text → Option Text → Result Failure (Unit {0})
unfolding same_revision
check_revision head current =
    if not (same_revision current head) then err (stale_schema current head) else ok tt

module _ {T : Type 0} where
  unfoldable pub check_backends : (Text → Bool) → List (Backend T) → Result Failure (Unit {0})
  check_backends is_registered [] = ok tt
  check_backends is_registered (row ∷ rows) =
      if not (is_registered row.type)
      then err (unknown_provider row.name row.type)
      else check_backends is_registered rows

  unfoldable pub check_tsig_keys : List (TsigKey T) → Result Failure (Unit {0})
  unfolding algorithm_from_text
  check_tsig_keys [] = ok tt
  check_tsig_keys (row ∷ rows) = elim (algorithm_from_text row.algorithm) [
    | none ↦ err (unsupported_algorithm row.name row.algorithm)
    | some algorithm ↦ check_tsig_keys rows
  ]

  unfoldable pub validate_db_startup : Site T → Result Failure (Unit {0})
  unfolding check_spa check_ping alembic_head read check_revision check_backends check_tsig_keys
  validate_db_startup site = do
    check_spa site.spa_dir site.is_dir
    check_ping site.answers
    head ← alembic_head site.head
    current ← read site.revision
    check_revision head current
    backends ← read site.backends
    tsig_keys ← read site.tsig_keys
    check_backends site.is_registered backends
    check_tsig_keys tsig_keys
