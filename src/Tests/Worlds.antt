-- ===== src/Tests/Worlds.antt =====
-- Small states of the service over the sample runtime, and the settings of the runs.
use trash.Prelude.{List, true, false, none, some, [], ◌∷◌, Text, codes}
use trash.Entity.{
  UserRow, OperationRow, OperationType, sign_up, password_recovery, password_change, email_change,
  OperationData, null, password_data, email_data,
}
use trash.Runtime.Sample.{sample}
use trash.World.{Broker, missing, World}
use trash.Users.{EmailAuthCreateData}
use trash.Sessions.{JwtConfig}
use trash.Notifications.{Service, email_service}

abbrev pub no_broker : Broker
no_broker = record { connected = false; channel = missing; queues = []; sent = [] }

abbrev pub empty_world : World
empty_world = record {
  committed = record { users = []; operations = [] };
  pending = none;
  user_seq = 1;
  operation_seq = 1;
  cache = [];
  broker = no_broker;
  now = 1000000;
  entropy = 0;
  faults = [];
}

abbrev pub jwt_config : JwtConfig
jwt_config = record {
  access_secret = codes "a";
  access_lifetime = 86400;
  refresh_secret = codes "r";
  refresh_lifetime = 2592000;
}

abbrev pub ann : EmailAuthCreateData
ann = record { email = codes "Ann@x.io"; password = codes "Passw0rd!" }

abbrev pub ann_email : Text
ann_email = codes "ann@x.io"

abbrev pub ann_row : UserRow
ann_row = record {
  id = 1;
  email = ann_email;
  password = some (codes "#Passw0rd!");
  email_verified = true;
  created_at = 0;
  updated_at = 0;
}

abbrev pub token : Text
token = codes "tok"

abbrev pub operation_of : OperationType → OperationData → OperationRow
operation_of kind content = record {
  id = 1;
  user_id = 1;
  kind = kind;
  ttl = 2000000;
  token = token;
  content = content;
  created_at = 0;
  updated_at = 0;
}

-- Ann has signed up, and may be verified; one operation of hers is open.
abbrev pub world_of : UserRow → OperationRow → World
world_of user operation = record empty_world {
  committed = record { users = user ∷ []; operations = operation ∷ [] };
  user_seq = 2;
  operation_seq = 2;
}

abbrev pub new_ann : UserRow
new_ann = record ann_row { email_verified = false }

abbrev pub waiting_world : World
waiting_world = world_of new_ann (operation_of sign_up null)

abbrev pub recovery_world : World
recovery_world = world_of ann_row (operation_of password_recovery null)

abbrev pub change_world : World
change_world =
    world_of ann_row (operation_of password_change (password_data (some (codes "N3w-pass"))))

abbrev pub email_world : World
email_world = world_of ann_row (operation_of email_change (email_data (some (codes "Ann@Y.io"))))

abbrev pub services : List Service
services = email_service (codes "x.io") ∷ []

-- Ann can sign in.
abbrev pub ann_world : World
ann_world = record empty_world {
  committed = record { users = ann_row ∷ []; operations = [] };
  user_seq = 2;
}
