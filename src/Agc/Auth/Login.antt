-- ===== src/Agc/Auth/Login.antt =====
-- What a login returns.
use hap_resigner.Prelude.{
  ℕ, ◌≡◌, ◌≢◌, ◌⊎◌, inl, inr, refl, subst, Bool, true, false, not, Option, none, some, List, [],
  ◌∷◌, ◌==◌, ==_iff, if◌then◌else◌, Result, ok, err, fail_if, fail_if-eq-ok, ok_or, ok_or-eq-ok,
  and_then, unwrap_or, filter_option, length, All, Text, codes, ok-injective,
}
use mathlib.Core.List.{Memᴰ}
use mathlib.Core.Option.{some-injective}
use hap_resigner.Effect.{
  Triple, Always, lift, attempt, map_error, bind-Triple, pure-Triple, lift-Triple, fact-Triple,
  any-Triple, Triple-ok,
}
use hap_resigner.Strings.{is_blank, trim, split}
use hap_resigner.Agc.{get, as_str}
use hap_resigner.Agc.Auth.{
  invalid_jwt, Teams, TokenData, Team, AuthService, dot_at, is_filled, nth, parse_temp_token,
  team_loop, jwt_user_id, jwt_check, teams_from, fetch_teams, user_id_of, exchange_temp_token,
  refresh_token,
}
use hap_resigner.Agc.Auth.Teams.{keys, IsNamedTeam, not_blank, IsFirstTeam, team_loop-IsFirstTeam}

-- A login has a user, a JWT of three parts, and a team that is one of the user's or the user's own.
pub record IsLoggedIn (t : TokenData) : Type 0 where
  pub user_filled : t.user_id ≢ []
  pub jwt_parts : length (split dot_at t.jwt_token) ≡ 3
  pub team_filled : t.team_id ≢ []
  pub team : (t.team_id ≡ t.user_id) ⊎ Memᴰ t.team_id (keys t.teams)
  pub teams_named : All IsNamedTeam t.teams

-- The teams that the login takes from the reply.
record AreTeams (user_id : Text) (found : Teams × Text) : Type 0 where
  team_filled : found.1 ≢ []
  team : (found.1 ≡ user_id) ⊎ Memᴰ found.1 (keys found.0)
  teams_named : All IsNamedTeam found.0

module _ (user_id : Text) (user_filled : user_id ≢ []) where
  chosen_team :
      (teams : Teams) (first : Option Text)
      → IsFirstTeam first teams × All IsNamedTeam teams
      → AreTeams user_id (teams, unwrap_or first user_id)
  chosen_team teams none (f, h) = record {
    team_filled = user_filled;
    team = inl refl;
    teams_named = h;
  }
  chosen_team teams (some id) (f, h) = record { team_filled = f.1; team = inr f.0; teams_named = h }

module _ (service : AuthService) where
  teams_from-AreTeams :
      (user_id : Text) (response : Result Text (List Team))
      → user_id ≢ []
      → AreTeams user_id (teams_from service user_id response)
  teams_from-AreTeams user_id (err e) n = record {
    team_filled = n;
    team = inl refl;
    teams_named = tt;
  }
  teams_from-AreTeams user_id (ok more) n =
      chosen_team user_id n (team_loop more none []).0 (team_loop more none []).1
        (team_loop-IsFirstTeam more none [] tt tt)

  filter_filled : (o : Option Text) {t : Text} → filter_option is_filled o ≡ some t → t ≢ []
  filter_filled none h = cc
  filter_filled (some x) h = by_test (is_blank x) refl h
    where
      by_test :
          (b : Bool) {t : Text}
          → is_blank x ≡ b
          → (if not b then some x else none) ≡ some t
          → t ≢ []
      by_test true e k = cc
      by_test false e k = subst (λ y. y ≢ []) (some-injective _ _ k) (not_blank x e)

  and_then-some :
      {A B : Type 0} (o : Option A) (f : A → Option B) {b : B}
      → and_then o f ≡ some b
      → (a : A) × (f a ≡ some b)
  and_then-some none f h = cc
  and_then-some (some a) f h = (a, h)

  jwt_user_id-filled :
      (jwt : Text) {user_id : Text} → jwt_user_id service jwt ≡ ok user_id → user_id ≢ []
  unfolding jwt_user_id
  jwt_user_id-filled jwt h =
      let (payload, h1) = and_then-some (nth 1 (split dot_at jwt)) _ (ok_or-eq-ok _ _ h) in
      let (bytes, h2) = and_then-some (service.base64_decode payload) _ h1 in
      let (value, h3) = and_then-some (service.json_from_slice bytes) _ h2 in
      filter_filled (and_then (get value (codes "userId")) as_str) h3

  user_id_of-filled :
      (jwt own : Text) {user_id : Text} → user_id_of service jwt own ≡ ok user_id → user_id ≢ []
  user_id_of-filled jwt [] h = jwt_user_id-filled jwt h
  user_id_of-filled jwt (c ∷ own) h = λ e. cc (ok-injective h, e)

  exchange-IsLoggedIn :
      (raw_token : Text)
      → Triple Always (exchange_temp_token service raw_token) (λ t w. IsLoggedIn t) Always
  unfolding exchange_temp_token fetch_teams
  exchange-IsLoggedIn raw_token =
      bind-Triple (any-Triple (lift (parse_temp_token raw_token))) (λ parsed.
        bind-Triple (any-Triple (map_error _ (service.check_temp_token parsed))) (λ text.
          bind-Triple
            (lift-Triple {P = Always}
              (fail_if (not (length (split dot_at (trim text)) == 3)) invalid_jwt))
            (λ _. fact-Triple (λ three.
              bind-Triple (any-Triple (jwt_check service (trim text) false)) (λ response.
                bind-Triple (any-Triple (lift (ok_or response.user_info _))) (λ user.
                  bind-Triple
                    (lift-Triple {P = Always} (user_id_of service (trim text) user.user_id))
                    (λ user_id. fact-Triple (λ known.
                      bind-Triple
                        (bind-Triple
                          (any-Triple (attempt (service.user_teams user_id user.access_token)))
                          (λ teams.
                            pure-Triple {P = Always} {Q = λ found w. AreTeams user_id found}
                              (teams_from service user_id teams)
                              (λ w p.
                                teams_from-AreTeams user_id teams (user_id_of-filled _ _ known))))
                        (λ found.
                          pure-Triple
                            (record {
                              access_token = user.access_token;
                              refresh_token = user.refresh_token;
                              user_id = user_id;
                              jwt_token = trim text;
                              team_id = found.1;
                              teams = found.0;
                            })
                            (λ w k. record {
                              user_filled = user_id_of-filled _ _ known;
                              jwt_parts =
                                  three_parts (length (split dot_at (trim text)) == 3) refl
                                    (fail_if-eq-ok _ _ three);
                              team_filled = k.team_filled;
                              team = k.team;
                              teams_named = k.teams_named;
                            }))))))))))
    where
      three_parts : {n : ℕ} (b : Bool) → (n == 3) ≡ b → not b ≡ false → n ≡ 3
      three_parts {n = n} true e h = (==_iff n 3).0 e
      three_parts false e h = cc (h)

  refreshed-IsLoggedIn :
      (t : TokenData)
      → IsLoggedIn t
      → Triple Always
          (refresh_token service t)
          (λ u w.
            IsLoggedIn u
            × (u.user_id ≡ t.user_id)
            × (u.jwt_token ≡ t.jwt_token)
            × (u.team_id ≡ t.team_id)
            × (u.teams ≡ t.teams))
          Always
  unfolding refresh_token
  refreshed-IsLoggedIn t l =
      bind-Triple (any-Triple (lift (fail_if (is_blank t.jwt_token) _))) (λ _.
        bind-Triple (any-Triple (jwt_check service t.jwt_token true)) (λ response.
          bind-Triple (any-Triple (lift (ok_or response.user_info _))) (λ user.
            pure-Triple _ (λ w p. (
              record {
                user_filled = rw (kept user.user_id) l.user_filled;
                jwt_parts = l.jwt_parts;
                team_filled = l.team_filled;
                team = rw (kept user.user_id) l.team;
                teams_named = l.teams_named;
              },
              kept user.user_id,
              refl,
              refl,
              refl,
            )))))
    where
      kept : (other : Text) → (if is_blank t.user_id then other else t.user_id) ≡ t.user_id
      kept other = by_text t.user_id l.user_filled
        where
          by_text : (own : Text) → own ≢ [] → (if is_blank own then other else own) ≡ own
          by_text [] n = absurd (n refl)
          by_text (c ∷ own) n = refl

-- Whatever the authentication service replies, a login that `exchange_temp_token` returns has a user id,
-- a JWT of three parts and a team id, none of them empty; the team is one of its teams or the user
-- itself, and its teams have ids and names.
pub exchange_temp_token-IsLoggedIn :
    (service : AuthService) (raw_token : Text) (w w' : service.State) (t : TokenData)
    → exchange_temp_token service raw_token w ≡ (ok t, w')
    → IsLoggedIn t
exchange_temp_token-IsLoggedIn service raw_token w w' t e =
    Triple-ok (exchange-IsLoggedIn service raw_token) w tt t w' e

-- A refreshed login is a login of the same user, with the same JWT, team and teams.
pub refresh_token-IsLoggedIn :
    (service : AuthService) (t u : TokenData) (w w' : service.State)
    → IsLoggedIn t
    → refresh_token service t w ≡ (ok u, w')
    → IsLoggedIn u
      × (u.user_id ≡ t.user_id)
      × (u.jwt_token ≡ t.jwt_token)
      × (u.team_id ≡ t.team_id)
      × (u.teams ≡ t.teams)
refresh_token-IsLoggedIn service t u w w' l e =
    Triple-ok (refreshed-IsLoggedIn service t l) w tt u w' e
