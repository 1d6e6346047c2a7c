-- ===== src/Agc/Auth.antt =====
-- src/agc/auth.rs: the login. The HTTP client, the crates url, base64 and serde_json, and the outcomes of
-- the listener are parameters. The bytes of a callback are UTF-8.
pub mod Callback
pub mod Received
pub mod Teams
pub mod Login
use hap_resigner.Prelude.{
  ℕ, zero, suc, ◌+◌, ◌*◌, ◌^◌, Bool, true, false, not, ◌&&◌, ◌||◌, Option, none, some, List, [],
  ◌∷◌, ◌++◌, if◌then◌else◌, ltb, leb, ◌==◌, bytes_eq, text_le, Result, ok, err, fail_if, ok_or,
  map_err, and_then, unwrap_or, filter_option, length, Bytes, Text, codes,
}
use hap_resigner.Effect.{Effect, pure, lift, map_error, attempt, ◌>>=◌, ◌>>◌}
use hap_resigner.Strings.{is_blank, trim, split}
use hap_resigner.Agc.{Value, get, as_str}

pub data AuthError : Type 0 where
  http : Text → AuthError
  io : Text → AuthError
  timeout : AuthError
  invalid_temp_token : AuthError
  invalid_jwt : AuthError
  rejected : Text → AuthError
  browser : Text → AuthError

pub record ParsedTempToken : Type 0 where
  pub actual_token : Text
  pub site_code : Text

-- The map of the teams is sorted by their ids.
abbrev pub Teams : Type 0
Teams = List (Text × Text)

pub record TokenData : Type 0 where
  pub access_token : Text
  pub refresh_token : Text
  pub user_id : Text
  pub jwt_token : Text
  pub team_id : Text
  pub teams : Teams

pub record UserInfo : Type 0 where
  pub access_token : Text
  pub refresh_token : Text
  pub user_id : Text

pub record JwtResponse : Type 0 where
  pub status : Bool
  pub user_info : Option UserInfo

pub record Team : Type 0 where
  pub id : Text
  pub name : Text

-- The three requests of the login, whose status is checked and whose JSON is read, and the decoders.
pub record AuthService : Type 1 where
  pub State : Type 0
  pub check_temp_token : ParsedTempToken → Effect State Text Text
  pub check_jwt : Text → Bool → Effect State Text JwtResponse
  pub user_teams : Text → Text → Effect State Text (List Team)
  pub base64_decode : Text → Option Bytes
  pub json_from_slice : Bytes → Option Value

abbrev pub ampersand_at : Text → ℕ
ampersand_at [] = 0
ampersand_at (c ∷ cs) = if c == 38 then 1 else 0

abbrev pub dot_at : Text → ℕ
dot_at [] = 0
dot_at (c ∷ cs) = if c == 46 then 1 else 0

abbrev pub nth : ℕ → List Text → Option Text
nth n [] = none
nth zero (x ∷ xs) = some x
nth (suc n) (x ∷ xs) = nth n xs

abbrev pub last_byte : Text → Option ℕ
last_byte [] = none
last_byte (c ∷ []) = some c
last_byte (c ∷ (d ∷ cs)) = last_byte (d ∷ cs)

abbrev pub is_filled : Text → Bool
is_filled text = not (is_blank text)

abbrev pub site_of : Option ℕ → Text
site_of none = codes "CN"
site_of (some byte) =
    if byte == 53
    then codes "SG"
    else if byte == 55
    then codes "DE"
    else if byte == 56
    then codes "RU"
    else codes "CN"

unfoldable pub parse_temp_token : Text → Result AuthError ParsedTempToken
parse_temp_token raw_token =
    if is_blank (trim raw_token)
    then err invalid_temp_token
    else parsed (filter_option is_filled (nth 0 (split ampersand_at (trim raw_token))))
  where
    parsed : Option Text → Result AuthError ParsedTempToken
    parsed none = err invalid_temp_token
    parsed (some token) =
        ok (record { actual_token = token; site_code = site_of (last_byte (trim raw_token)) })

-- `teams.insert(id, name)`.
unfoldable pub insert_team : Text → Text → Teams → Teams
insert_team id name [] = (id, name) ∷ []
insert_team id name ((key, value) ∷ teams) =
    let rest = insert_team id name teams in
    if bytes_eq id key
    then (id, name) ∷ teams
    else if text_le id key
    then (id, name) ∷ ((key, value) ∷ teams)
    else (key, value) ∷ rest

-- The loop over the teams, with the first team and the map so far.
unfoldable pub team_loop : List Team → Option Text → Teams → Teams × Option Text
team_loop [] first_team teams = (teams, first_team)
team_loop (team ∷ more) first_team teams =
    let skipped = team_loop more first_team teams in
    let taken =
      team_loop more (some (unwrap_or first_team team.id)) (insert_team team.id team.name teams) in
    if is_blank team.id || is_blank team.name then skipped else taken

module _ (service : AuthService) where
  open service use {State, check_temp_token, check_jwt, user_teams, base64_decode, json_from_slice}

  abbrev pub Login : Type 0 → Type 0
  Login A = Effect State AuthError A

  unfoldable pub jwt_user_id : Text → Result AuthError Text
  jwt_user_id jwt =
      ok_or
        (and_then (nth 1 (split dot_at jwt)) (λ payload. and_then (base64_decode payload) (λ bytes.
          and_then (json_from_slice bytes)
            (λ value. filter_option is_filled (and_then (get value (codes "userId")) as_str)))))
        invalid_jwt

  unfoldable pub jwt_check : Text → Bool → Login JwtResponse
  jwt_check jwt_token refresh = do
    response ← map_error http (check_jwt jwt_token refresh)
    _ ← lift (fail_if (not response.status) (rejected (codes "status=false")))
    pure response

  -- A request that fails leaves the user without teams, and the user's own id stands for the team.
  abbrev pub teams_from : Text → Result Text (List Team) → Teams × Text
  teams_from user_id (err e) = ([], user_id)
  teams_from user_id (ok teams) =
      ((team_loop teams none []).0, unwrap_or (team_loop teams none []).1 user_id)

  unfoldable pub fetch_teams : Text → Text → Login (Teams × Text)
  fetch_teams user_id access_token = do
    response ← attempt (user_teams user_id access_token)
    pure (teams_from user_id response)

  abbrev pub user_id_of : Text → Text → Result AuthError Text
  user_id_of jwt_token user_id = if is_blank user_id then jwt_user_id jwt_token else ok user_id

  unfoldable pub exchange_temp_token : Text → Login TokenData
  exchange_temp_token raw_token = do
    parsed ← lift (parse_temp_token raw_token)
    text ← map_error http (check_temp_token parsed)
    let jwt_token = trim text
    _ ← lift (fail_if (not (length (split dot_at jwt_token) == 3)) invalid_jwt)
    response ← jwt_check jwt_token false
    user ← lift (ok_or response.user_info (rejected (codes "userInfo is missing")))
    user_id ← lift (user_id_of jwt_token user.user_id)
    teams ← fetch_teams user_id user.access_token
    pure (record {
      access_token = user.access_token;
      refresh_token = user.refresh_token;
      user_id = user_id;
      jwt_token = jwt_token;
      team_id = teams.1;
      teams = teams.0;
    })

  -- The token is changed behind the last early return; an error leaves it as it was.
  unfoldable pub refresh_token : TokenData → Login TokenData
  refresh_token token = do
    _ ← lift (fail_if (is_blank token.jwt_token) invalid_jwt)
    response ← jwt_check token.jwt_token true
    user ← lift (ok_or response.user_info (rejected (codes "userInfo is missing")))
    pure (record {
      access_token = user.access_token;
      refresh_token =
          if not (is_blank user.refresh_token) then user.refresh_token else token.refresh_token;
      user_id = if is_blank token.user_id then user.user_id else token.user_id;
      jwt_token = token.jwt_token;
      team_id = token.team_id;
      teams = token.teams;
    })
