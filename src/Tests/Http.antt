-- ===== src/Tests/Http.antt =====
-- A reader of addresses whose host is h, and texts with an address.
use hap_resigner.Prelude.{
  ◌≤◌, ◌≡◌, refl, true, false, none, some, [], ◌∷◌, ◌++◌, if◌then◌else◌, starts_with, bytes_eq,
  length, drop, Text, codes,
}
use hap_resigner.Strings.{space_at, is_one_of}
use hap_resigner.Agc.Http.{
  HttpLibrary, TransportError, find_word, find_url_start, is_url_delimiter, plain_length,
  safe_origin, has_details, safe_url, redact_from, redact_embedded_urls, take_chars, is_last,
  cause_message, cause_loop, causes_of, safe_transport_error,
}
use hap_resigner.Agc.Http.Redacted.{
  address, readable, DifferInDetails, same, hidden, redact_embedded_urls-DifferInDetails,
}
use hap_resigner.Agc.Http.Causes.{AreCauses, causes_of-AreCauses}

abbrev http_library : HttpLibrary
http_library = record {
  Url = Text;
  parse = λ t. if starts_with t (codes "http://h") then some (drop 8 t) else none;
  scheme = λ u. codes "http";
  host_str = λ u. some (codes "h");
  port = λ u. none;
  path = λ u. u;
  query = λ u. none;
  fragment = λ u. none;
  url_text = λ u. codes "http://h" ++ u;
  decimal = λ n. [];
}

redacts :
    redact_embedded_urls http_library (codes "a http://h/x b") ≡ codes "a http://h/<redacted> b"
unfolding redact_embedded_urls redact_from find_url_start find_word is_url_delimiter plain_length
    safe_url safe_origin has_details space_at is_one_of starts_with bytes_eq
redacts = refl

differs : DifferInDetails http_library (codes "a http://h/x b") (codes "a http://h/yz b")
unfolding is_url_delimiter has_details space_at is_one_of starts_with bytes_eq
differs =
    hidden (codes "a ") (codes "http://h/x") (codes "http://h/yz") (codes " b") (codes " b") refl
      refl (refl, (refl, tt)) (refl, (refl, tt))
      (address refl (refl, (refl, (refl, (refl, (refl, (refl, (refl, (refl, (refl, refl))))))))))
      (address refl
        (refl, (refl, (refl, (refl, (refl, (refl, (refl, (refl, (refl, (refl, refl)))))))))))
      (readable refl refl refl refl) (same refl)

redact_embedded_urls-DifferInDetails_example :
    redact_embedded_urls http_library (codes "a http://h/x b")
    ≡ redact_embedded_urls http_library (codes "a http://h/yz b")
redact_embedded_urls-DifferInDetails_example =
    redact_embedded_urls-DifferInDetails http_library (codes "a http://h/x b")
      (codes "a http://h/yz b") differs

abbrev refused : TransportError http_library
refused = record {
  is_timeout = false;
  is_connect = true;
  is_decode = false;
  is_body = false;
  url = none;
  sources = codes "refused" ∷ (codes "refused" ∷ (codes "at http://h/x" ∷ []));
}

shows :
    safe_transport_error http_library refused
    ≡ codes "connect failure; target=<unknown>; causes: refused -> at http://h/<redacted>"
unfolding safe_transport_error causes_of cause_loop cause_message take_chars is_last
    redact_embedded_urls redact_from find_url_start find_word is_url_delimiter plain_length safe_url
    safe_origin has_details space_at is_one_of starts_with bytes_eq
shows = refl

causes_of-AreCauses_example :
    (1 ≤ length (causes_of http_library refused)) × AreCauses (causes_of http_library refused)
causes_of-AreCauses_example = causes_of-AreCauses http_library refused
