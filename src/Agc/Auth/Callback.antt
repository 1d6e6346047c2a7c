-- ===== src/Agc/Auth/Callback.antt =====
-- src/agc/auth.rs: the callback of the browser. A connection is the outcomes of its reads and of its
-- answer, and the listener what `accept` gives before the deadline. Bytes that are UTF-8 are their text.
use hap_resigner.Prelude.{
  ℕ, suc, ◌+◌, ◌*◌, ◌^◌, ◌%◌, Bool, false, ◌||◌, Option, none, some, List, [], ◌∷◌, ◌++◌,
  if◌then◌else◌, ltb, leb, ◌==◌, bytes_eq, starts_with, Result, ok, err, ◌>>=◌, map_err, and_then,
  unwrap_or, filter_option, length, take, drop, Bytes, Text, codes,
}
use mathlib.Core.Option
use hap_resigner.Strings.{
  eq_ignore_ascii_case, is_blank, trim, split_whitespace, lines, parse_number,
}
use hap_resigner.Agc.Auth.{AuthError, io, timeout}

-- The crate url.
pub record UrlLibrary : Type 1 where
  pub Url : Type 0
  pub parse : Text → Option Url
  pub query_pairs : Url → List (Text × Text)
  pub query : Url → Option Text
  pub form_pairs : Text → List (Text × Text)

pub record Connection : Type 0 where
  pub set_read_timeout : Result Text (Unit {0})
  pub reads : List (Result Text Bytes)
  pub answer : Result Text (Unit {0})

pub data Accepted : Type 0 where
  connected : Connection → Accepted
  would_block : Accepted
  failed : Text → Accepted

abbrev pub blank_line : Bytes
blank_line = 13 ∷ (10 ∷ (13 ∷ (10 ∷ [])))

-- `windows(4).position(|part| part == b"\r\n\r\n")`.
unfoldable pub blank_line_at : Bytes → Option ℕ
blank_line_at [] = none
blank_line_at (c ∷ cs) =
    let rest = Option.map suc (blank_line_at cs) in
    if starts_with (c ∷ cs) blank_line then some 0 else rest

-- `line.split_once(':')`.
unfoldable pub split_colon : Text → Option (Text × Text)
split_colon [] = none
split_colon (c ∷ cs) =
    let rest = Option.map (λ (x : Text × Text). (c ∷ x.0, x.1)) (split_colon cs) in
    if c == 58 then some ([], cs) else rest

abbrev pub or_later : Option (Text × Text) → Option (Text × Text) → Option (Text × Text)
or_later none later = later
or_later (some x) later = some x

-- `find_map(|line| line.split_once(':'))`: the first line that has a colon.
unfoldable pub first_header : List Text → Option (Text × Text)
first_header [] = none
first_header (line ∷ lines) = or_later (split_colon line) (first_header lines)

abbrev pub is_content_length : Text × Text → Bool
is_content_length header = eq_ignore_ascii_case header.0 (codes "content-length")

unfoldable pub content_length : Text → ℕ
content_length headers =
    unwrap_or
      (and_then (filter_option is_content_length (first_header (lines headers)))
        (λ (header : Text × Text). parse_number (2 ^ 64) (trim header.1)))
      0

-- The request has its headers and the length that they say. The sum has 64 bits.
abbrev pub is_whole_at : Bytes → Option ℕ → Bool
is_whole_at request none = false
is_whole_at request (some header_end) =
    leb ((header_end + 4 + content_length (take (header_end + 4) request)) % 2 ^ 64)
      (length request)

unfoldable pub is_whole : Bytes → Bool
is_whole request = is_whole_at request (blank_line_at request)

-- The loop of `read_request`, over the outcomes of the reads; their end is the end of the stream.
unfoldable pub read_loop : Bytes → List (Result Text Bytes) → Result Text Bytes
read_loop request [] = ok request
read_loop request (err e ∷ reads) = err e
read_loop request (ok [] ∷ reads) = ok request
read_loop request (ok (b ∷ bs) ∷ reads) =
    let rest = read_loop (request ++ (b ∷ bs)) reads in
    if is_whole (request ++ (b ∷ bs)) || ltb (64 * 1024) (length (request ++ (b ∷ bs)))
    then ok (request ++ (b ∷ bs))
    else rest

unfoldable pub read_request : List (Result Text Bytes) → Result Text Bytes
read_request reads = read_loop [] reads

unfoldable pub find_pair : Text → List (Text × Text) → Option Text
find_pair key [] = none
find_pair key ((name, value) ∷ pairs) =
    let rest = find_pair key pairs in if bytes_eq name key then some value else rest

-- `split_once("\r\n\r\n")`, or all of it with an empty body.
abbrev pub parts_at : Text → Option ℕ → Text × Text
parts_at request none = (request, [])
parts_at request (some n) = (take n request, drop (n + 4) request)

abbrev pub or_token : Option Text → Option Text → Option Text
or_token none other = other
or_token (some token) other = some token

abbrev pub first_text : List Text → Option Text
first_text [] = none
first_text (text ∷ texts) = some text

module _ (urls : UrlLibrary) where
  open urls use {Url, parse, query_pairs, query, form_pairs}

  abbrev pub token_of_url : Url → Option Text
  token_of_url url =
      or_token (find_pair (codes "tempToken") (query_pairs url))
        (filter_option (λ text. ltb 10 (length text)) (query url))

  abbrev pub token_of_body : Text → Option Text
  token_of_body body =
      or_token (find_pair (codes "tempToken") (form_pairs body))
        (if is_blank body then none else some body)

  abbrev pub token_of_parts : Text → List Text → Option Text
  token_of_parts body [] = none
  token_of_parts body (method ∷ []) = none
  token_of_parts body (method ∷ (target ∷ more)) =
      if eq_ignore_ascii_case method (codes "GET")
      then and_then (parse (codes "http://localhost" ++ target)) token_of_url
      else if eq_ignore_ascii_case method (codes "POST")
      then token_of_body body
      else none

  unfoldable pub extract_callback_token : Bytes → Option Text
  extract_callback_token request =
      and_then (first_text (lines (parts_at request (blank_line_at request)).0)) (λ line.
        token_of_parts (parts_at request (blank_line_at request)).1 (split_whitespace line))

  unfoldable pub handle_callback : Connection → Result AuthError (Option Text)
  handle_callback stream = do
    _ ← map_err io stream.set_read_timeout
    request ← map_err io (read_request stream.reads)
    _ ← map_err io stream.answer
    ok (extract_callback_token request)

  abbrev pub token_or :
      Result AuthError (Option Text) → Result AuthError Text → Result AuthError Text
  token_or (ok none) later = later
  token_or (ok (some token)) later = ok token
  token_or (err e) later = err e

  unfoldable pub wait_for_token : List Accepted → Result AuthError Text
  wait_for_token [] = err timeout
  wait_for_token (connected stream ∷ more) = token_or (handle_callback stream) (wait_for_token more)
  wait_for_token (would_block ∷ more) = wait_for_token more
  wait_for_token (failed e ∷ more) = err (io e)
