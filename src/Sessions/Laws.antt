-- ===== src/Sessions/Laws.antt =====
-- What a stored session is good for: reading it back, the drop of a user's sessions, and the
-- tokens at the two guards.
use trash.Prelude.{
  ℕ, suc, ◌+◌, ◌*◌, ◌≡◌, refl, none, some, [], ◌∷◌, ◌++◌, Text, arith, codes, text_eq, ltb,
  if◌then◌else◌,
}
use trash.Runtime.{Runtime, session, Session, rs256}
use trash.World.{Result, ok, err, World}
use trash.Action.{continue}
use trash.Cache
use trash.Cache.{seconds}
use trash.Cache.Laws.{at_time, set-seconds, get-set, get-del}
use trash.Sessions
use trash.Sessions.{JwtConfig, JwtResponse, key_prefix, by_id, by_user}
use trash.Sessions.Strategies.{refresh_guard, nest_unauthorized}

append-cancel : (p s t : Text) → text_eq (p ++ s) (p ++ t) ≡ text_eq s t
unfolding text_eq
append-cancel [] s t = refl
append-cancel (c ∷ p) s t = ground (arith, append-cancel p s t)

module _ ⦃rt : Runtime⦄ where
  -- The key that `set` makes, and the session that it stores.
  abbrev pub new_key : ℕ → World → Text
  new_key user_id w = key_prefix user_id ++ rt.uuid w.entropy

  abbrev pub new_session : ℕ → World → Session
  new_session user_id w = record {
    id = some (new_key user_id w);
    user_id = user_id;
    created_at = some w.now;
    updated_at = some w.now;
  }

  abbrev drawn : World → World
  drawn w = record w { entropy = w.entropy + 1 }

  abbrev written : ℕ → ℕ → World → Result (Unit {0}) × World
  written user_id n w =
      Cache.set (new_key user_id w) (session (new_session user_id w)) (seconds n) (drawn w)

  set-written :
      (user_id n : ℕ) (w : World)
      → Sessions.set user_id n w
        ≡ continue (written user_id n w) (λ _ v. (ok (new_key user_id w), v))
  unfolding Sessions.set
  set-written user_id n w = refl

  -- With no failing call, `SessionService.set` for `n + 1` seconds returns a key under which `get`
  -- finds the session until they are over, and nothing from then on.
  pub session_get-set :
      (user_id n t : ℕ) (w : World)
      → w.faults ≡ []
      → ((Sessions.set user_id (suc n) w).0 ≡ ok (new_key user_id w))
        × ((Sessions.get (new_key user_id w) (at_time t (Sessions.set user_id (suc n) w).1)).0
            ≡ ok (
                if ltb t (w.now + 1000 * suc n)
                then some (session (new_session user_id w))
                else none))
  unfolding Sessions.get
  session_get-set user_id n t w h =
      let key = new_key user_id w in
      let j = session (new_session user_id w) in
      let stored = set-seconds key j n (drawn w) h in
      let reads = get-set key j n t (drawn w) h in
      rw (set-written user_id (suc n) w, stored) (refl, (rw stored at reads))

  -- When no call fails: the key that `dropAll` deletes is the key of no session of the user, so that
  -- whatever was read under such a key before is still read afterwards.
  pub drop_all-keeps :
      (user_id n : ℕ) (w : World)
      → w.faults ≡ []
      → (Sessions.get (key_prefix user_id ++ rt.uuid n) (Sessions.drop_all user_id w).1).0
        ≡ (Sessions.get (key_prefix user_id ++ rt.uuid n) w).0
  unfolding Sessions.get Sessions.drop_all Sessions.delete
  drop_all-keeps user_id n w h =
      rw (get-del (key_prefix user_id ++ rt.uuid n) (key_prefix user_id ++ codes "*") w h)
        (rw (append-cancel (key_prefix user_id) (codes "*") (rt.uuid n), rt.uuid_not_star n))

  -- The refresh guard allows `RS256` only, and `createTokens` signs by a secret: it admits no
  -- refresh token, at no time.
  pub refresh_guard-refuses :
      (config : JwtConfig) (id : Text) (n : ℕ) (w : World)
      → refresh_guard config (some (Sessions.create_tokens config id n).refresh_token) w
        ≡ (err nest_unauthorized, w)
  unfolding refresh_guard Sessions.create_tokens
  refresh_guard-refuses config id n w =
      rw (rt.verify-sign (rs256 ∷ []) config.refresh_secret id config.refresh_lifetime n w.now)
