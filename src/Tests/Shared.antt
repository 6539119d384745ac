-- ===== src/Tests/Shared.antt =====
-- The theorems on the shared libraries' smaller parts, at concrete values.
use trash.Crypto.Slices.{Lacks}
use trash.Prelude.{
  ◌==◌, ℕ, ◌≤◌, ◌≡◌, refl, Bool, true, false, Option, none, some, List, [], ◌∷◌, ◌++◌, Text, codes,
  length, text_eq, arith, if◌then◌else◌,
}
use trash.Runtime.Sample.{sample}
use trash.World.{ok}
use trash.Broker.{holds}
use trash.Broker.Factory.{Module, on_module_init}
use trash.Broker.Factory.Laws.{queues_of}
use trash.Health.{Check, Ping, check, redis_ping}
use trash.Health.Laws.{reports_up, on_module_init-check}
use trash.Entity.{from}
use trash.Sessions.Decimal.{decimal}
use trash.Query.Parameters.{Param, update_from}
use trash.Query.Parameters.Laws.{FromFirst, ParamText, Part, IsPlain, update_from_lem}
use trash.Query.Reads.{Row, many_entities, one_entity}
use trash.Query.Reads.Laws.{AreFilled, reads_lem}
use trash.Utils.{long, short, get_short_address}
use trash.Utils.Laws.{get_short_address_lem}
use trash.Tests.Worlds.{ann_world}

abbrev lacks : ℕ → Text → Bool
lacks c [] = true
lacks c (x ∷ s) = let rest = lacks c s in if x == c then false else rest

lacks-Lacks : (c : ℕ) (s : Text) → lacks c s ≡ true → Lacks c s
lacks-Lacks c [] h = tt
lacks-Lacks c (x ∷ s) h = (ground arith, lacks-Lacks c s (ground arith))

abbrev email_part : Part
email_part = record {
  param = Param.string (codes "ann@x.io");
  value = codes "\"ann@x.io\"";
  rest = codes " LIMIT ";
}

abbrev limit_part : Part
limit_part = record { param = Param.printed (codes "1"); value = codes "1"; rest = [] }

email_part-IsPlain : IsPlain email_part
email_part-IsPlain = record {
  value_of = ParamText.string (codes "ann@x.io");
  plain_value = lacks-Lacks b'$' email_part.value refl;
  plain_rest = lacks-Lacks b'$' email_part.rest refl;
}

limit_part-IsPlain : IsPlain limit_part
limit_part-IsPlain = record {
  value_of = ParamText.printed (codes "1");
  plain_value = (refl, tt);
  plain_rest = tt;
}

abbrev address : Text
address = codes "0x52908400098527886E0F7030069857D2E4169EE7"

get_short_address_lem_example :
    (length (get_short_address address long) ≤ 9)
    × (length (get_short_address address short) ≤ 7)
    × (4 ≤ length address
        → (p : Text) × (s : Text) × (p ++ s ≡ address)
          × (length s ≡ 4)
          × (get_short_address address short ≡ codes "..." ++ s))
get_short_address_lem_example = get_short_address_lem address

abbrev all_lack : ℕ → List Text → Bool
all_lack c [] = true
all_lack c (s ∷ parts) = let rest = all_lack c parts in if lacks c s then rest else false

abbrev table : List (List Text)
table = (codes "1" ∷ codes "null" ∷ []) ∷ (codes "2" ∷ codes "b" ∷ []) ∷ []

abbrev header : List Text
header = codes "id" ∷ codes "name" ∷ []

abbrev entity : Row ℕ
entity k = if text_eq k (codes "id") then some 1 else none

abbrev row : Row ℕ
row k = if text_eq k (codes "users_count") then some 7 else none

reads_lem_example :
    ((items : List (Row ℕ)) × (many_entities
          ((codes "count", codes "users_count") ∷ [])
          (entity ∷ [])
          (row ∷ [])
        ≡ some items)
      × AreFilled ((codes "count", codes "users_count") ∷ []) (row ∷ []) (entity ∷ []) items)
    × (one_entity ((codes "count", codes "users_count") ∷ []) (entity ∷ []) (row ∷ [])
        ≡ some entity)
reads_lem_example =
    reads_lem ((codes "count", codes "users_count") ∷ []) (entity ∷ []) (row ∷ []) (tt, tt)
      (omega arith)

update_from_lem_example :
    let read : Text = codes "SELECT id FROM u WHERE e = \"ann@x.io\" LIMIT 1" in
    (tail : Option Text) × FromFirst read tail
    × (update_from
          (record {
            query = codes "SELECT id FROM u WHERE e = $1 LIMIT $2";
            parameters = Param.string (codes "ann@x.io") ∷ Param.printed (codes "1") ∷ [];
          })
          (record {
            query = codes "UPDATE u SET id = $1";
            parameters = Param.printed (codes "1") ∷ [];
          })
        ≡ codes "UPDATE u SET id = 1 " ++ from tail read)
unfolding decimal
update_from_lem_example =
    update_from_lem (codes "SELECT id FROM u WHERE e = ") (codes "UPDATE u SET id = ")
      (email_part ∷ limit_part ∷ []) (limit_part ∷ [])
      (lacks-Lacks b'$' (codes "SELECT id FROM u WHERE e = ") refl)
      (email_part-IsPlain, (limit_part-IsPlain, tt))
      (lacks-Lacks b'$' (codes "UPDATE u SET id = ") refl) (limit_part-IsPlain, tt)

abbrev all_healthy : Check → Ping
unfolding redis_ping
all_healthy c = redis_ping true []

abbrev mails : Module
mails = record { controllers = record { methods = none ∷ some (codes "mail") ∷ [] } ∷ [] }

on_module_init-check_example :
    ((on_module_init false (mails ∷ []) ann_world).0 ≡ ok tt)
    × ((queue : Text)
        → holds queue (queues_of (mails ∷ [])) ≡ true
        → holds queue (on_module_init false (mails ∷ []) ann_world).1.broker.queues ≡ true)
    × (reports_up (check all_healthy true (on_module_init false (mails ∷ []) ann_world).1).0 ≡ true)
unfolding all_healthy
on_module_init-check_example =
    on_module_init-check all_healthy true (mails ∷ []) ann_world refl refl
