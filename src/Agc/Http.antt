-- ===== src/Agc/Http.antt =====
-- src/agc/http.rs: the texts of transport errors and the redaction of the addresses in them. The crates
-- reqwest and url are parameters.
pub mod Redacted
pub mod Causes
use hap_resigner.Prelude.{
  ℕ, zero, suc, ◌+◌, ◌-◌, Bool, true, false, not, ◌&&◌, ◌||◌, Option, none, some, List, [], ◌∷◌,
  ◌++◌, if◌then◌else◌, leb, ◌==◌, bytes_eq, starts_with, and_then, unwrap_or, length, take, drop,
  Text, codes,
}
use mathlib.Core.Option
use hap_resigner.Strings.{in_range, is_one_of, white_space, space_at, replace}

-- The accessors of a parsed address, its text and the decimals of a number.
pub record HttpLibrary : Type 1 where
  pub Url : Type 0
  pub parse : Text → Option Url
  pub scheme : Url → Text
  pub host_str : Url → Option Text
  pub port : Url → Option ℕ
  pub path : Url → Text
  pub query : Url → Option Text
  pub fragment : Url → Option Text
  pub url_text : Url → Text
  pub decimal : ℕ → Text

-- `input.find(word)`.
unfoldable pub find_word : Text → Text → Option ℕ
find_word word [] = if starts_with [] word then some 0 else none
find_word word (c ∷ cs) =
    let rest = Option.map suc (find_word word cs) in
    if starts_with (c ∷ cs) word then some 0 else rest

abbrev pub least : Option ℕ → Option ℕ → Option ℕ
least none right = right
least (some m) none = some m
least (some m) (some n) = some (if leb m n then m else n)

unfoldable pub find_url_start : Text → Option ℕ
find_url_start input =
    least (find_word (codes "https://") input) (find_word (codes "http://") input)

abbrev pub is_mark : Text → Bool
is_mark [] = false
is_mark (c ∷ cs) = is_one_of (c ∷ []) (
    codes "\""
    ∷ (codes "'"
        ∷ (codes "<"
            ∷ (codes ">"
                ∷ (codes "\\"
                    ∷ (codes "("
                        ∷ (codes ")"
                            ∷ (codes "[" ∷ (codes "]" ∷ (codes "{" ∷ (codes "}" ∷ [])))))))))))

-- `is_url_delimiter` of the character at the front.
unfoldable pub is_url_delimiter : Text → Bool
is_url_delimiter text = not (space_at text white_space == 0) || is_mark text

unfoldable pub plain_length : Text → ℕ
plain_length [] = 0
plain_length (c ∷ cs) =
    let rest = plain_length cs in if is_url_delimiter (c ∷ cs) then 0 else suc rest

-- The first delimiter behind the first character, or the end.
abbrev pub url_end : Text → ℕ
url_end [] = 0
url_end (c ∷ cs) = suc (plain_length cs)

abbrev pub is_some {ℓ} : {A : Type ℓ} → Option A → Bool
is_some none = false
is_some (some a) = true

-- `chars().take(n)`: the bytes from 128 to 191 stand inside a character.
unfoldable pub take_chars : ℕ → Text → Text
take_chars n [] = []
take_chars n (c ∷ cs) =
    let inside = take_chars n cs in
    let next = take_chars (n - 1) cs in
    if in_range 128 191 c then c ∷ inside else if n == 0 then [] else c ∷ next

-- `causes.last() == Some(&message)`.
unfoldable pub is_last : Text → List Text → Bool
is_last message [] = false
is_last message (x ∷ []) = bytes_eq x message
is_last message (x ∷ (y ∷ causes)) = is_last message (y ∷ causes)

abbrev pub push_cause : List Text → Text → List Text
push_cause causes message = if is_last message causes then causes else causes ++ (message ∷ [])

abbrev pub or_unavailable : List Text → List Text
or_unavailable [] = codes "unavailable" ∷ []
or_unavailable (cause ∷ causes) = cause ∷ causes

abbrev pub join_causes : List Text → Text
join_causes [] = []
join_causes (cause ∷ []) = cause
join_causes (cause ∷ (next ∷ causes)) = cause ++ (codes " -> " ++ join_causes (next ∷ causes))

module _ (lib : HttpLibrary) where
  open lib use {Url, parse, scheme, host_str, port, path, query, fragment, url_text, decimal}

  abbrev pub port_suffix : Option ℕ → Text
  port_suffix none = []
  port_suffix (some n) = codes ":" ++ decimal n

  unfoldable pub safe_origin : Url → Option Text
  safe_origin url =
      Option.map (λ host. (scheme url ++ (codes "://" ++ host)) ++ port_suffix (port url))
        (host_str url)

  unfoldable pub has_details : Url → Bool
  has_details url =
      not (bytes_eq (path url) (codes "/")) || is_some (query url) || is_some (fragment url)

  abbrev pub with_details : Bool → Option Text → Text
  with_details details none = codes "<redacted-url>"
  with_details details (some origin) = origin ++ (if details then codes "/<redacted>" else [])

  abbrev pub safe_parsed : Option Url → Text
  safe_parsed none = codes "<redacted-url>"
  safe_parsed (some url) = with_details (has_details url) (safe_origin url)

  -- What is written for an address.
  unfoldable pub safe_url : Text → Text
  safe_url raw_url = safe_parsed (parse raw_url)

  abbrev pub behind_url : Text → Option ℕ → Text
  behind_url input none = []
  behind_url input (some start) = drop (url_end (drop start input)) (drop start input)

  abbrev pub with_url : Text → Option ℕ → Text → Text
  with_url input none rest = input
  with_url input (some start) rest =
      take start input ++ (safe_url (take (url_end (drop start input)) (drop start input)) ++ rest)

  -- The loop, on what is behind the cursor; it stops when no address is found.
  unfoldable pub redact_from : ℕ → Text → Text
  redact_from zero input = input
  redact_from (suc fuel) input =
      let rest = redact_from fuel (behind_url input (find_url_start input)) in
      with_url input (find_url_start input) rest

  -- Each round passes over at least one byte.
  unfoldable pub redact_embedded_urls : Text → Text
  redact_embedded_urls input = redact_from (length input) input

  -- An error of reqwest, with the texts of its sources.
  pub record TransportError : Type 0 where
    pub is_timeout : Bool
    pub is_connect : Bool
    pub is_decode : Bool
    pub is_body : Bool
    pub url : Option Url
    pub sources : List Text

  abbrev pub category_of : TransportError → Text
  category_of error =
      if error.is_timeout
      then codes "timeout"
      else if error.is_connect
      then codes "connect"
      else if error.is_decode
      then codes "decode"
      else if error.is_body
      then codes "body"
      else codes "request"

  unfoldable pub cause_message : Option Url → Text → Text
  cause_message url cause = take_chars 256 (replaced url (redact_embedded_urls cause))
    where
      replaced : Option Url → Text → Text
      replaced none message = message
      replaced (some u) message = replace message (url_text u) (codes "<redacted-url>")

  unfoldable pub cause_loop : Option Url → List Text → List Text → List Text
  cause_loop url [] causes = causes
  cause_loop url (cause ∷ sources) causes =
      let pushed = push_cause causes (cause_message url cause) in
      let rest = cause_loop url sources pushed in if length pushed == 6 then pushed else rest

  unfoldable pub causes_of : TransportError → List Text
  causes_of error = or_unavailable (cause_loop error.url error.sources [])

  unfoldable pub safe_transport_error : TransportError → Text
  safe_transport_error error =
      category_of error
      ++ (codes " failure; target="
          ++ (unwrap_or (and_then error.url safe_origin) (codes "<unknown>")
              ++ (codes "; causes: " ++ join_causes (causes_of error))))
