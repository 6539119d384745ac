-- ===== src/Migrations/CreateUsersOperations.antt =====
-- 1694169372084-create_users_operations.ts of apps/auth/src/migrations.
use trash.Prelude.{true, some, [], ◌∷◌, Text, codes, List}
use trash.Migrations.{
  Column, ForeignKey, Table, Statement, create_table, drop_table, drop_foreign_key, column,
  id_column, time_column, cascade,
}

abbrev pub table_name : Text
table_name = codes "users_operations"

abbrev pub user_id_fk : ForeignKey
user_id_fk = record {
  name = codes "users_operations_user_id_fk";
  column_names = codes "user_id" ∷ [];
  referenced_column_names = codes "id" ∷ [];
  referenced_table_name = codes "users";
  on_delete = cascade;
  on_update = cascade;
}

abbrev pub type_column : Column
type_column = record (column (codes "type") (codes "varchar")) { length = some 2 }

abbrev pub table : Table
table = record {
  name = table_name;
  columns =
      id_column (codes "int")
      ∷ column (codes "user_id") (codes "integer")
      ∷ type_column
      ∷ column (codes "ttl") (codes "timestamp")
      ∷ column (codes "token") (codes "varchar")
      ∷ record (column (codes "data") (codes "jsonb")) { is_nullable = true }
      ∷ time_column (codes "created_at")
      ∷ time_column (codes "updated_at")
      ∷ [];
  foreign_keys = user_id_fk ∷ [];
}

abbrev pub up : List Statement
up = create_table table ∷ []

abbrev pub down : List Statement
down = drop_foreign_key table_name user_id_fk ∷ drop_table table_name ∷ []
