-- ===== src/Entity.antt =====
-- The entities of apps/auth/src/app/database/entities and the tables that the migrations in
-- apps/auth/src/migrations create: rows, what a query loads of a row, and the entity hooks.
use trash.Prelude.{ℕ, Bool, true, false, Option, none, some, Text}

-- The table `users`.
pub record UserRow : Type 0 where
  pub id : ℕ
  pub email : Text
  pub password : Option Text
  pub email_verified : Bool
  pub created_at : ℕ
  pub updated_at : ℕ

pub data OperationType : Type 0 where
  sign_up sign_up_confirm password_recovery password_change email_change email_sign : OperationType

-- `IUserOperationData`, with `null` and the two interfaces that extend it.
pub data OperationData : Type 0 where
  null : OperationData
  password_data : Option Text → OperationData
  email_data : Option Text → OperationData

-- The table `users_operations`.
pub record OperationRow : Type 0 where
  pub id : ℕ
  pub user_id : ℕ
  pub kind : OperationType
  pub ttl : ℕ
  pub token : Text
  pub content : OperationData
  pub created_at : ℕ
  pub updated_at : ℕ

-- The column `type` of `users_operations`, compared as the enum's values are.
unfoldable pub same_kind : OperationType → OperationType → Bool
same_kind sign_up sign_up = true
same_kind sign_up_confirm sign_up_confirm = true
same_kind password_recovery password_recovery = true
same_kind password_change password_change = true
same_kind email_change email_change = true
same_kind email_sign email_sign = true
same_kind _ _ = false

-- An instance of the class `User`: a column that was not selected is missing.
pub record User : Type 0 where
  pub id : ℕ
  pub email : Option Text
  pub password : Option Text
  pub email_verified : Option Bool

-- The columns that a query names in `select`, besides `id`, which every query selects.
pub record Select : Type 0 where
  pub with_email : Bool
  pub with_password : Bool
  pub with_email_verified : Bool

-- Without `select`, typeorm loads the columns that are not marked `select: false`.
abbrev pub default_select : Select
default_select = record { with_email = true; with_password = false; with_email_verified = true }

abbrev pub select_all : Select
select_all = record { with_email = true; with_password = true; with_email_verified = true }

abbrev pub when {ℓ} : {A : Type ℓ} → Bool → Option A → Option A
when true a = a
when false a = none

abbrev pub load_user : Select → UserRow → User
load_user s r = record {
  id = r.id;
  email = when s.with_email (some r.email);
  password = when s.with_password r.password;
  email_verified = when s.with_email_verified (some r.email_verified);
}

-- What `userRepository.create` is given for a user that is not stored yet.
pub record NewUser : Type 0 where
  pub email : Text
  pub password : Text
  pub email_verified : Bool

-- `IUserUpdate`.
pub record UserUpdate : Type 0 where
  pub email : Option Text
  pub email_verified : Option Bool
  pub password : Option Text

abbrev pub or_else {ℓ} : {A : Type ℓ} → Option A → Option A → Option A
or_else (some a) b = some a
or_else none b = b

abbrev pub from {ℓ} : {A : Type ℓ} → Option A → A → A
from (some a) b = a
from none b = b

-- `Object.assign(user, data)`
abbrev pub assign : User → UserUpdate → User
assign u d = record {
  id = u.id;
  email = or_else d.email u.email;
  password = or_else d.password u.password;
  email_verified = or_else d.email_verified u.email_verified;
}
