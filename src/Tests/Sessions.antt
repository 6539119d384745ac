-- ===== src/Tests/Sessions.antt =====
-- The theorems on the cache, the sessions and the notifications, at concrete states.
use trash.Prelude.{Text, if◌then◌else◌, ◌≡◌, refl, none, some, ◌++◌, codes, text_eq}
use trash.Runtime.{session, string}
use trash.Runtime.Sample.{sample}
use trash.World.{ok, err}
use trash.Cache
use trash.Cache.{seconds, nx}
use trash.Cache.Laws.{cache_lem, at_time}
use trash.Sessions
use trash.Sessions.{create_tokens, key_prefix}
use trash.Sessions.Laws.{
  new_key, new_session, session_get-set, drop_all-keeps, refresh_guard-refuses,
}
use trash.Sessions.Strategies.{access_guard, refresh_guard, nest_unauthorized}
use trash.Sessions.Guards.{access_guard-create}
use trash.Tests.Worlds.{ann_world, jwt_config}

cache_lem_example :
    ((Cache.get
        (codes "k")
        (at_time 1001000 (Cache.set (codes "k") (string (codes "v")) (seconds 2) ann_world).1)).0
      ≡ ok (some (string (codes "v"))))
    × ((Cache.get
          (codes "k")
          (at_time 1001000 (Cache.set (codes "k") (string (codes "v")) nx ann_world).1)).0
        ≡ ok (some (string (codes "v"))))
    × ((other : Text)
        → (Cache.get other (Cache.del (codes "k") ann_world).1).0
          ≡ (if text_eq (codes "k") other then ok none else (Cache.get other ann_world).0))
cache_lem_example = cache_lem (codes "k") (string (codes "v")) 1 1001000 ann_world refl

session_get-set_example :
    ((Sessions.set 1 60 ann_world).0 ≡ ok (new_key 1 ann_world))
    × ((Sessions.get (new_key 1 ann_world) (at_time 1059999 (Sessions.set 1 60 ann_world).1)).0
        ≡ ok (some (session (new_session 1 ann_world))))
session_get-set_example = session_get-set 1 59 1059999 ann_world refl

drop_all-keeps_example :
    (Sessions.get
      (key_prefix 1 ++ sample.uuid 0)
      (Sessions.drop_all 1 (Sessions.create jwt_config 1 ann_world).1).1).0
    ≡ (Sessions.get (key_prefix 1 ++ sample.uuid 0) (Sessions.create jwt_config 1 ann_world).1).0
unfolding Sessions.create Sessions.set Cache.set
drop_all-keeps_example = drop_all-keeps 1 0 (Sessions.create jwt_config 1 ann_world).1 refl

refresh_guard-refuses_example :
    refresh_guard jwt_config
      (some (create_tokens jwt_config (new_key 1 ann_world) 1000000).refresh_token)
      ann_world
    ≡ (err nest_unauthorized, ann_world)
refresh_guard-refuses_example =
    refresh_guard-refuses jwt_config (new_key 1 ann_world) 1000000 ann_world

access_guard-create_example :
    ((Sessions.create jwt_config 1 ann_world).0
      ≡ ok (create_tokens jwt_config (new_key 1 ann_world) ann_world.now))
    × ((access_guard jwt_config
          (some (create_tokens jwt_config (new_key 1 ann_world) ann_world.now).access_token)
          (at_time 2000000 (Sessions.create jwt_config 1 ann_world).1)).0
        ≡ ok (session (new_session 1 ann_world)))
access_guard-create_example = access_guard-create jwt_config 1 2591999 2000000 ann_world refl refl
