-- ===== src/Migrations.antt =====
-- The migrations of apps/auth/src/migrations, as the statements that they ask typeorm's query
-- runner for, in order, and the texts of the enum that the column `type` holds.
pub mod CreateUsers
pub mod CreateUsersOperations
pub mod Laws
use trash.Prelude.{ℕ, Bool, true, false, Option, none, some, List, [], ◌∷◌, Text, codes}
use trash.Entity.{
  OperationType, sign_up, sign_up_confirm, password_recovery, password_change, email_change,
  email_sign,
}

-- A column's options; one that is not given is as typeorm has it without.
pub record Column : Type 0 where
  pub name : Text
  pub type : Text
  pub length : Option ℕ
  pub is_primary : Bool
  pub is_generated : Bool
  pub is_unique : Bool
  pub is_nullable : Bool
  pub default : Option Text

pub data Referential : Type 0 where
  cascade : Referential

pub record ForeignKey : Type 0 where
  pub name : Text
  pub column_names : List Text
  pub referenced_column_names : List Text
  pub referenced_table_name : Text
  pub on_delete : Referential
  pub on_update : Referential

pub record Table : Type 0 where
  pub name : Text
  pub columns : List Column
  pub foreign_keys : List ForeignKey

pub data Statement : Type 0 where
  create_table : Table → Statement
  drop_table : Text → Statement
  drop_foreign_key : Text → ForeignKey → Statement

abbrev pub column : Text → Text → Column
column name type = record {
  name = name;
  type = type;
  length = none;
  is_primary = false;
  is_generated = false;
  is_unique = false;
  is_nullable = false;
  default = none;
}

abbrev pub id_column : Text → Column
id_column type = record (column (codes "id") type) { is_primary = true; is_generated = true }

abbrev pub time_column : Text → Column
time_column name = record (column name (codes "timestamp")) { default = some (codes "now()") }

-- `UserOperationType`
unfoldable pub type_text : OperationType → Text
type_text sign_up = codes "su"
type_text sign_up_confirm = codes "sc"
type_text password_recovery = codes "pr"
type_text password_change = codes "pc"
type_text email_change = codes "ec"
type_text email_sign = codes "es"
