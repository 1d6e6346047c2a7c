-- ===== src/Tests/Auth.antt =====
-- A login whose user id is in the JWT, and a request in two reads.
use hap_resigner.Prelude.{
  ◌≡◌, ◌≤◌, refl, some, true, List, [], ◌∷◌, ◌++◌, ok, length, Bytes, Text, codes, bytes_eq,
  text_le, starts_with, arith, Result,
}
use hap_resigner.Effect.{pure}
use hap_resigner.Strings.{
  trim, trim_start_from, trim_end, space_at, split, split_from, lines, line_pieces, strip_return,
  eq_ignore_ascii_case, to_ascii_lowercase, lower,
}
use hap_resigner.Agc.{string, object, field, end_object, get_field}
use hap_resigner.Agc.Auth.{
  TokenData, UserInfo, AuthService, parse_temp_token, insert_team, team_loop, jwt_user_id,
  jwt_check, fetch_teams, exchange_temp_token, refresh_token,
}
use hap_resigner.Agc.Auth.Callback.{
  blank_line_at, split_colon, first_header, content_length, is_whole, read_loop, read_request,
}
use hap_resigner.Agc.Auth.Received.{received, read_request-bounded}
use hap_resigner.Agc.Auth.Login.{
  IsLoggedIn, exchange_temp_token-IsLoggedIn, refresh_token-IsLoggedIn,
}

abbrev user : UserInfo
user = record { access_token = codes "a"; refresh_token = []; user_id = [] }

abbrev auth_service : AuthService
auth_service = record {
  State = Unit {0};
  check_temp_token = λ token. pure (codes " h.p.s\n");
  check_jwt = λ jwt refresh. pure (record { status = true; user_info = some user });
  user_teams = λ id token. pure (
      record { id = []; name = codes "x" }
      ∷ (record { id = codes "t2"; name = codes "two" }
          ∷ (record { id = codes "t1"; name = codes "one" } ∷ [])));
  base64_decode = λ payload. some payload;
  json_from_slice = λ bytes. some (object (field (codes "userId") (string (codes "u")) end_object));
}

abbrev login : TokenData
login = record {
  access_token = codes "a";
  refresh_token = [];
  user_id = codes "u";
  jwt_token = codes "h.p.s";
  team_id = codes "t2";
  teams = (codes "t1", codes "one") ∷ ((codes "t2", codes "two") ∷ []);
}

logs_in : exchange_temp_token auth_service (codes "temp&1") tt ≡ (ok login, tt)
unfolding exchange_temp_token parse_temp_token jwt_check jwt_user_id fetch_teams team_loop
    insert_team trim trim_start_from trim_end space_at split split_from starts_with bytes_eq text_le
    get_field
logs_in = refl

exchange_temp_token-IsLoggedIn_example : IsLoggedIn login
exchange_temp_token-IsLoggedIn_example =
    exchange_temp_token-IsLoggedIn auth_service (codes "temp&1") tt tt login logs_in

refreshes : refresh_token auth_service login tt ≡ (ok login, tt)
unfolding refresh_token jwt_check
refreshes = refl

refresh_token-IsLoggedIn_example :
    IsLoggedIn login
    × (login.user_id ≡ login.user_id)
    × (login.jwt_token ≡ login.jwt_token)
    × (login.team_id ≡ login.team_id)
    × (login.teams ≡ login.teams)
refresh_token-IsLoggedIn_example =
    refresh_token-IsLoggedIn auth_service login login tt tt exchange_temp_token-IsLoggedIn_example
      refreshes

abbrev head_part : Bytes
head_part = codes "POST / HTTP/1.1\r\nHost: localhost\r\nContent-Length: 4\r\n\r\n"

abbrev outcomes : List (Result Text Bytes)
outcomes = ok head_part ∷ (ok (codes "body") ∷ [])

-- The body comes too late: the length is looked for in the line of the host.
reads_head : read_request outcomes ≡ ok head_part
unfolding read_request read_loop is_whole blank_line_at content_length first_header split_colon
    lines line_pieces strip_return split split_from eq_ignore_ascii_case to_ascii_lowercase lower
    starts_with bytes_eq
reads_head = refl

read_request-bounded_example :
    (length head_part ≤ 67584) × ((behind : Bytes) × (received outcomes ≡ head_part ++ behind))
read_request-bounded_example =
    read_request-bounded outcomes (omega arith, (omega arith, tt)) reads_head
