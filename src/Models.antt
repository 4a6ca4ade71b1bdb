-- ===== src/Models.antt =====
-- models.py: the rows of the database, with a token `T` in each encrypted column. Times are seconds.
use astropath_dns_relay.Prelude.{ℕ, Option, List, Text}

pub record Backend (T : Type 0) : Type 0 where
  pub id : ℕ
  pub name : Text
  pub type : Text
  pub config_encrypted : T
  pub created_at : ℕ
  pub updated_at : ℕ

pub record Domain (T : Type 0) : Type 0 where
  pub id : ℕ
  pub zone : Text
  pub backend_id : ℕ
  pub record_name : Text
  pub secret_encrypted : Option T
  pub created_at : ℕ

pub record TsigKey (T : Type 0) : Type 0 where
  pub id : ℕ
  pub name : Text
  pub algorithm : Text
  pub secret_encrypted : T
  pub created_at : ℕ

-- The three tables that the data plane is configured from.
pub record Tables (T : Type 0) : Type 0 where
  pub backends : List (Backend T)
  pub domains : List (Domain T)
  pub tsig_keys : List (TsigKey T)
