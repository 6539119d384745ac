-- ===== src/Sessions/Guards.antt =====
-- The access token of a new session at the guard of apps/auth/src/app/auth/guards/jwt-access.guard.ts.
use trash.Prelude.{
  ℕ, suc, ◌+◌, ◌*◌, ◌/◌, ◌≡◌, refl, ap, ◌∙◌, inl, inr, Bool, true, false, Option, none, some, [],
  ◌∷◌, Text, arith, ltb, Bool-cases, Option-cases, if◌then◌else◌,
}
use trash.Entity.{UserRow, default_select}
use trash.Exceptions.{unauthorized_exception, invalid_session}
use trash.Runtime.{Runtime, Json, session, hs256}
use trash.World.{Result, ok, err, World}
use trash.Action.{call, continue}
use trash.Database.{get_uuid}
use trash.Database.Laws.{find_user-runs}
use trash.Users.{has_id}
use trash.Cache
use trash.Cache.{response}
use trash.Cache.Laws.{at_time, get-cases}
use trash.Sessions
use trash.Sessions.{JwtConfig, create_tokens}
use trash.Sessions.Laws.{new_key, new_session, session_get-set}
use trash.Sessions.Strategies.{
  access_guard, access_validate, nest_unauthorized, is_owner, handle_request,
}

module _ ⦃rt : Runtime⦄ where
  response-same : (o : Option Text) (w : World) → (response o w).1 ≡ w
  response-same none w = refl
  response-same (some []) w = refl
  response-same (some (c ∷ s)) w = elim (Option-cases (rt.parse (c ∷ s))) [
    | inl bad ↦ rw bad
    | inr (j, good) ↦ rw good
  ]

  -- A look-up of a session that does not fail leaves everything as it is.
  get-same :
      (key : Text) (r : Result (Option Json)) (w : World)
      → w.faults ≡ []
      → (Sessions.get key w).0 ≡ r
      → Sessions.get key w ≡ (r, w)
  unfolding Sessions.get
  get-same key r w h e =
      let same =
        ap (λ (x : Result (Option Json) × World). x.1) (get-cases key w h)
        ∙ response-same (rt.cache.get w.now key w.cache) w in
      λ i. (e i, same i)

  -- What the guard makes of the owner of a session that is there.
  abbrev pub admitted_owner : Json → Option UserRow → Result Json
  admitted_owner j none = err (unauthorized_exception invalid_session)
  admitted_owner j (some row) = ok j

  abbrev validated_owner : Json → Option UserRow → Result (Option Json)
  validated_owner j none = err (unauthorized_exception invalid_session)
  validated_owner j (some row) = ok (some j)

  sessions_create-world :
      (config : JwtConfig) (user_id : ℕ) (w : World)
      → w.faults ≡ []
      → (Sessions.create config user_id w).1 ≡ (Sessions.set user_id config.refresh_lifetime w).1
  unfolding Sessions.create Sessions.set Cache.set call
  sessions_create-world config user_id w h = ground arith

  pub create-runs :
      (config : JwtConfig) (id : ℕ) (w : World)
      → w.faults ≡ []
      → (Sessions.create config id w).0 ≡ ok (create_tokens config (new_key id w) w.now)
  unfolding Sessions.create Sessions.set Cache.set call
  create-runs config id w h = ground arith

  set-faults :
      (user_id n : ℕ) (w : World)
      → w.faults ≡ []
      → ((Sessions.set user_id n w).1.faults ≡ [])
        × ((Sessions.set user_id n w).1.committed ≡ w.committed)
  unfolding Sessions.set Cache.set get_uuid call
  set-faults user_id n w h = (ground arith, ground arith)

  module _ (config : JwtConfig) (user_id n t : ℕ) (w : World) (h : w.faults ≡ []) where
    abbrev later : World
    later = at_time t (Sessions.set user_id (suc n) w).1

    validate-live :
        (r : Result (Option Json))
        → (Sessions.get (new_key user_id w) later).0 ≡ r
        → Sessions.get (new_key user_id w) later ≡ (r, later)
    validate-live r e = get-same (new_key user_id w) r later (set-faults user_id (suc n) w h).0 e

    validated : (access_validate (some (new_key user_id w)) later).0 ≡ (
        if ltb t (w.now + 1000 * suc n)
        then validated_owner
            (session (new_session user_id w))
            (rt.users.find (has_id user_id) w.committed.users)
        else err (unauthorized_exception invalid_session))
    unfolding access_validate Sessions.delete Cache.del call
    validated =
        let reads = (session_get-set user_id n t w h).1 in
        elim (Bool-cases (ltb t (w.now + 1000 * suc n))) [
          | inl lives ↦
              let got =
                validate-live (ok (some (session (new_session user_id w)))) (reads ∙ rw lives) in
              let (fs, db) = set-faults user_id (suc n) w h in
              let finds =
                find_user-runs (is_owner (session (new_session user_id w))) default_select later
                  fs in
              rw (lives, got, finds, db)
                (elim (Option-cases (rt.users.find (has_id user_id) w.committed.users)) [
                  | inl missing ↦ rw (missing, fs) refl
                  | inr (row, found) ↦ rw found refl
                ])
          | inr over ↦ rw (over, validate-live (ok none) (reads ∙ rw over)) refl
        ]

  answered : Result (Option Json) → Result Json
  answered (ok none) = err nest_unauthorized
  answered (ok (some j)) = ok j
  answered (err x) = err x

  handled : (r : Result (Option Json) × World) → (continue r handle_request).0 ≡ answered r.0
  unfolding answered
  handled (ok none, w) = refl
  handled (ok (some j), w) = refl
  handled (err x, w) = refl

  answered-owner :
      (lives : Bool) (j : Json) (o : Option UserRow)
      → answered
          (if lives then validated_owner j o else err (unauthorized_exception invalid_session))
        ≡ (if lives then admitted_owner j o else err (unauthorized_exception invalid_session))
  unfolding answered
  answered-owner true j none = refl
  answered-owner true j (some row) = refl
  answered-owner false j o = refl

  -- When no call fails and the lifetime of refresh tokens is not 0, `create` returns the tokens of
  -- a new session, and the guard admits their access token just while the token and the session
  -- live and the user has a row, and hands on that session. Else it raises: the invalid session if
  -- only the session or the user is gone, and Nest's own exception if the token's life is over.
  pub access_guard-create :
      (config : JwtConfig) (user_id n t : ℕ) (w : World)
      → w.faults ≡ []
      → config.refresh_lifetime ≡ suc n
      → ((Sessions.create config user_id w).0 ≡ ok (create_tokens config (new_key user_id w) w.now))
        × ((access_guard config
              (some (create_tokens config (new_key user_id w) w.now).access_token)
              (at_time t (Sessions.create config user_id w).1)).0
            ≡ (if ltb (t / 1000) (w.now / 1000 + config.access_lifetime)
                then (if ltb t (w.now + 1000 * suc n)
                    then admitted_owner
                        (session (new_session user_id w))
                        (rt.users.find (has_id user_id) w.committed.users)
                    else err (unauthorized_exception invalid_session))
                else err nest_unauthorized))
  unfolding access_guard create_tokens
  access_guard-create config user_id n t w h e =
      let set_by = sessions_create-world config user_id w h in
      let id = new_key user_id w in
      let verified =
        rt.verify-sign (hs256 ∷ []) config.access_secret id config.access_lifetime w.now t in
      (
        create-runs config user_id w h,
        rw (set_by, e, verified)
            (elim (Bool-cases (ltb (t / 1000) (w.now / 1000 + config.access_lifetime))) [
              | inl young ↦ rw young (
                  handled (access_validate (some id) (later config user_id n t w h))
                  ∙ ap answered (validated config user_id n t w h)
                  ∙ answered-owner _ _ _)
              | inr old ↦ rw old refl
            ]),
      )
