-- ===== src/Migrations/CreateUsers.antt =====
-- 1694167822651-create_users.ts of apps/auth/src/migrations.
use trash.Prelude.{true, some, [], ◌∷◌, codes, List}
use trash.Migrations.{Table, Statement, create_table, drop_table, column, id_column, time_column}

abbrev pub table : Table
table = record {
  name = codes "users";
  columns =
      id_column (codes "integer")
      ∷ record (column (codes "email") (codes "varchar")) { is_unique = true }
      ∷ record (column (codes "password") (codes "varchar")) { is_nullable = true }
      ∷ record (column (codes "email_verified") (codes "boolean")) {
        default = some (codes "false");
      }
      ∷ time_column (codes "created_at")
      ∷ time_column (codes "updated_at")
      ∷ [];
  foreign_keys = [];
}

abbrev pub up : List Statement
up = create_table table ∷ []

abbrev pub down : List Statement
down = drop_table (codes "users") ∷ []
